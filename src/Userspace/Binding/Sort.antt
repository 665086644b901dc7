-- ===== src/Userspace/Binding/Sort.antt =====
-- internal/forwarder/userspace/runtime.go: the order in which the bindings of a key are listed.
use mathlib.Core.List.Perm
use mathlib.Core.List.{Perm}
use go_upf.Base.{true, false, List, [], ◌∷◌, ◌≡◌, arith, Bool-cases, inl, inr}
use go_upf.Userspace.Binding.{PdrBinding, comes_before, insert_binding, sort_bindings}

-- No element of the list has to stand before the binding.
abbrev pub NoneBefore : PdrBinding → List PdrBinding → Type 0
NoneBefore b [] = Unit {0}
NoneBefore b (c ∷ cs) = (comes_before c b ≡ false) × NoneBefore b cs

abbrev pub IsSorted : List PdrBinding → Type 0
IsSorted [] = Unit {0}
IsSorted (b ∷ bs) = NoneBefore b bs × IsSorted bs

comes_before_asymm : (a b : PdrBinding) → comes_before a b ≡ true → comes_before b a ≡ false
unfolding comes_before
comes_before_asymm a b h = ground (arith, h)

-- What does not come before the earlier of two does not come before the later one's elder.
not_before_trans :
    (a b c : PdrBinding)
    → comes_before b a ≡ false
    → comes_before c b ≡ false
    → comes_before c a ≡ false
unfolding comes_before
not_before_trans a b c h k = ground (arith, h, k)

NoneBefore-trans :
    (a b : PdrBinding) (l : List PdrBinding)
    → comes_before b a ≡ false
    → NoneBefore b l
    → NoneBefore a l
NoneBefore-trans a b [] h n = tt
NoneBefore-trans a b (c ∷ cs) h (n, ns) = (not_before_trans a b c h n, NoneBefore-trans a b cs h ns)

insert_binding-NoneBefore :
    (a b : PdrBinding) (l : List PdrBinding)
    → comes_before b a ≡ false
    → NoneBefore a l
    → NoneBefore a (insert_binding b l)
unfolding insert_binding
insert_binding-NoneBefore a b [] h n = (h, tt)
insert_binding-NoneBefore a b (c ∷ cs) h (n, ns) = elim (Bool-cases (comes_before c b)) [
  | inl e ↦ rw e (n, insert_binding-NoneBefore a b cs h ns)
  | inr e ↦ rw e (h, (n, ns))
]

insert_binding-IsSorted :
    (b : PdrBinding) (l : List PdrBinding) → IsSorted l → IsSorted (insert_binding b l)
unfolding insert_binding
insert_binding-IsSorted b [] s = (tt, tt)
insert_binding-IsSorted b (c ∷ cs) (n, s) = elim (Bool-cases (comes_before c b)) [
  | inl e ↦ rw e (
    insert_binding-NoneBefore c b cs (comes_before_asymm c b e) n,
    insert_binding-IsSorted b cs s,
  )
  | inr e ↦ rw e ((e, NoneBefore-trans b c cs e n), (n, s))
]

pub sort_bindings-IsSorted : (l : List PdrBinding) → IsSorted (sort_bindings l)
unfolding sort_bindings
sort_bindings-IsSorted [] = tt
sort_bindings-IsSorted (b ∷ bs) =
    insert_binding-IsSorted b (sort_bindings bs) (sort_bindings-IsSorted bs)

insert_binding-perm : (b : PdrBinding) (l : List PdrBinding) → Perm (insert_binding b l) (b ∷ l)
unfolding insert_binding
insert_binding-perm b [] = Perm.rfl
insert_binding-perm b (c ∷ cs) = elim (Bool-cases (comes_before c b)) [
  | inl e ↦ rw e (Perm.trans (Perm.cons c (insert_binding-perm b cs)) (Perm.swap b c cs))
  | inr e ↦ rw e Perm.rfl
]

pub sort_bindings-perm : (l : List PdrBinding) → Perm (sort_bindings l) l
unfolding sort_bindings
sort_bindings-perm [] = Perm.rfl
sort_bindings-perm (b ∷ bs) =
    Perm.trans (insert_binding-perm b (sort_bindings bs)) (Perm.cons b (sort_bindings-perm bs))
