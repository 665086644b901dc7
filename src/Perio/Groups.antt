-- ===== src/Perio/Groups.antt =====
-- internal/forwarder/perio/server.go: the sets of URRs of a group.
use go_upf.Base.{
  ℕ, ◌+◌, ◌<◌, true, false, none, some, List, [], ◌∷◌, ◌≡◌, refl, subst, arith, length, member,
  Assoc, lookup, insert, delete, ◌==◌, Bool-cases, inl, inr, nat_eq,
}
use go_upf.Perio.{PerioGroup, ids_of, set_add, set_remove, without_member}

-- A set of URRs that is not empty, for every session of the group.
abbrev pub SetsLive : PerioGroup → Type 0
SetsLive [] = Unit {0}
SetsLive ((seid, ids) ∷ g) = ((length ids == 0) ≡ false) × SetsLive g

abbrev pub GroupsLive : Assoc ℕ PerioGroup → Type 0
GroupsLive [] = Unit {0}
GroupsLive ((period, g) ∷ gs) = ((length g == 0) ≡ false) × SetsLive g × GroupsLive gs

pub insert_nonempty :
    {V : Type 0} (k : ℕ) (v : V) (m : Assoc ℕ V) → (length (insert k v m) == 0) ≡ false
insert_nonempty k v [] = refl
insert_nonempty k v ((j, w) ∷ m) = ground arith

pub length-insert_new :
    {V : Type 0} (k : ℕ) (v : V) (m : Assoc ℕ V)
    → lookup k m ≡ none
    → length (insert k v m) ≡ length m + 1
length-insert_new k v [] h = omega arith
length-insert_new k v ((j, w) ∷ m) h = elim (Bool-cases (j == k)) [
  | inl e ↦ elim (taken e h) [ ]
  | inr e ↦ rw e (omega (arith, length-insert_new k v m (passed e h)))
]
  where
    taken : (j == k) ≡ true → lookup k ((j, w) ∷ m) ≡ none → 1 < 0
    taken e h = ground (arith, e, h)

    passed : (j == k) ≡ false → lookup k ((j, w) ∷ m) ≡ none → lookup k m ≡ none
    passed e h = ground (arith, e, h)

pub length-insert_old :
    {V : Type 0} (k : ℕ) (v w : V) (m : Assoc ℕ V)
    → lookup k m ≡ some w
    → length (insert k v m) ≡ length m
length-insert_old k v w [] h = absurd cc
length-insert_old k v w ((j, x) ∷ m) h = elim (Bool-cases (j == k)) [
  | inl e ↦ rw e refl
  | inr e ↦ rw e (omega (arith, length-insert_old k v w m (passed e)))
]
  where
    passed : (j == k) ≡ false → lookup k m ≡ some w
    passed e = ground (arith, e, h)

pub set_add_nonempty : (x : ℕ) (ids : List ℕ) → (length (set_add x ids) == 0) ≡ false
set_add_nonempty x [] = refl
set_add_nonempty x (y ∷ ys) = elim (Bool-cases (member x (y ∷ ys))) [
  | inl e ↦ rw e (ground arith)
  | inr e ↦ rw e (ground arith)
]

pub insert-SetsLive :
    (k : ℕ) (ids : List ℕ) (g : PerioGroup)
    → (length ids == 0) ≡ false
    → SetsLive g
    → SetsLive (insert k ids g)
insert-SetsLive k ids [] h l = (h, tt)
insert-SetsLive k ids ((j, x) ∷ g) h (n, l) = elim (Bool-cases (j == k)) [
  | inl e ↦ rw e (h, l)
  | inr e ↦ rw e (n, insert-SetsLive k ids g h l)
]

delete-SetsLive : (k : ℕ) (g : PerioGroup) → SetsLive g → SetsLive (delete k g)
delete-SetsLive k [] l = tt
delete-SetsLive k ((j, x) ∷ g) (n, l) = elim (Bool-cases (j == k)) [
  | inl e ↦ rw e (delete-SetsLive k g l)
  | inr e ↦ rw e (n, delete-SetsLive k g l)
]

pub without_member-SetsLive :
    (seid urr : ℕ) (g : PerioGroup) → SetsLive g → SetsLive (without_member seid urr g)
without_member-SetsLive seid urr g l =
    elim (Bool-cases (length (set_remove urr (ids_of (lookup seid g))) == 0)) [
      | inl e ↦ rw e (delete-SetsLive seid g l)
      | inr e ↦ rw e (insert-SetsLive seid _ g e l)
    ]

pub insert-GroupsLive :
    (k : ℕ) (g : PerioGroup) (gs : Assoc ℕ PerioGroup)
    → (length g == 0) ≡ false
    → SetsLive g
    → GroupsLive gs
    → GroupsLive (insert k g gs)
insert-GroupsLive k g [] n s l = (n, s, tt)
insert-GroupsLive k g ((j, x) ∷ gs) n s (nx, sx, l) = elim (Bool-cases (j == k)) [
  | inl e ↦ rw e (n, s, l)
  | inr e ↦ rw e (nx, sx, insert-GroupsLive k g gs n s l)
]

pub lookup-GroupsLive :
    (k : ℕ) (g : PerioGroup) (gs : Assoc ℕ PerioGroup)
    → lookup k gs ≡ some g
    → GroupsLive gs
    → SetsLive g
lookup-GroupsLive k g [] h l = absurd cc
lookup-GroupsLive k g ((j, x) ∷ gs) h (nx, sx, l) = elim (Bool-cases (j == k)) [
  | inl e ↦ subst SetsLive (found e) sx
  | inr e ↦ lookup-GroupsLive k g gs (passed e) l
]
  where
    found : (j == k) ≡ true → x ≡ g
    found e = ground (arith, e, h)

    passed : (j == k) ≡ false → lookup k gs ≡ some g
    passed e = ground (arith, e, h)
