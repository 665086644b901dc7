-- ===== src/Pfcp/Node/Table.antt =====
-- internal/pfcp/node.go: the table of sessions, whose identifiers are handed out and taken back.
use go_upf.Base.{
  member, Distinct, ℕ, zero, suc, ◌+◌, ◌-◌, ◌≤◌, ◌<◌, ◌≡◌, ◌≢◌, refl, sym, ap, ◌∙◌, true, false,
  Option, none, some, List, [], ◌∷◌, ◌++◌, arith, length, length-append, set, get_elem?-set_self,
  get_elem?-set_ne, get_elem?-beyond, get_elem?-append_left, get_elem?-append_self, ltb, ◌==◌,
  Bool-cases, inl, inr,
}
use go_upf.Pfcp.Sess.{Sess}
use go_upf.Pfcp.Node.{LocalNode, slot, local_sess, local_new_sess}

pub slot-set_self :
    (l : List (Option Sess)) (i : ℕ) (o : Option Sess) → i < length l → slot (set l i o) i ≡ o
slot-set_self l i o h = rw (get_elem?-set_self l i o h, slot)

pub slot-set_ne :
    (l : List (Option Sess)) (i j : ℕ) (o : Option Sess) → i ≢ j → slot (set l i o) j ≡ slot l j
slot-set_ne l i j o h = rw (get_elem?-set_ne l i j o h, slot)

pub slot-beyond : (l : List (Option Sess)) (i : ℕ) → length l ≤ i → slot l i ≡ none
slot-beyond l i h = rw (get_elem?-beyond l i h, slot)

pub slot-within : (l : List (Option Sess)) (i : ℕ) {s : Sess} → slot l i ≡ some s → i < length l
slot-within [] i h = cc
slot-within (o ∷ l) zero h = omega arith
slot-within (o ∷ l) (suc i) h = omega (arith, slot-within l i h)

pub slot-append_left :
    (l : List (Option Sess)) (o : Option Sess) (i : ℕ)
    → i < length l
    → slot (l ++ o ∷ []) i ≡ slot l i
slot-append_left l o i h = rw (get_elem?-append_left l (o ∷ []) i h, slot)

pub slot-append_self :
    (l : List (Option Sess)) (o : Option Sess) → slot (l ++ o ∷ []) (length l) ≡ o
slot-append_self l o = rw (get_elem?-append_self l o, slot)

-- The identifiers that are free are those of the empty slots, each listed once, and a session
-- carries the identifier of its slot.
pub record IsValid (n : LocalNode) : Type 0 where
  pub free_empty :
      (f : ℕ)
      → member f n.free ≡ true
      → (1 ≤ f) × (f ≤ length n.sess) × (slot n.sess (f - 1) ≡ none)
  pub empty_free : (i : ℕ) → i < length n.sess → slot n.sess i ≡ none → member (i + 1) n.free ≡ true
  pub distinct : Distinct n.free
  pub numbered : (i : ℕ) (s : Sess) → slot n.sess i ≡ some s → s.local_id ≡ i + 1

-- `Sess` of an identifier reads its slot.
pub local_sess-slot : (n : LocalNode) (i : ℕ) → local_sess n (suc i) ≡ slot n.sess i
unfolding local_sess
local_sess-slot n i = elim (Bool-cases (ltb (length n.sess) (suc i))) [
  | inl e ↦ rw (z, e) (sym (slot-beyond n.sess i (ground arith)))
  | inr e ↦ rw (z, e) (ap (slot n.sess) (omega arith))
]
  where
    z : (suc i == 0) ≡ false
    z = ground arith

pub local_sess-zero : (n : LocalNode) → local_sess n 0 ≡ none
unfolding local_sess
local_sess-zero n = refl

abbrev pub table : List (Option Sess) → List ℕ → LocalNode
table l free = record { sess = l; free = free }

-- Two tables that agree on every slot but `i` agree on every identifier but `i + 1`.
pub local_sess-agree :
    (n m : LocalNode) (i j : ℕ)
    → ((k : ℕ) → i ≢ k → slot n.sess k ≡ slot m.sess k)
    → j ≢ suc i
    → local_sess n j ≡ local_sess m j
local_sess-agree n m i zero h d = local_sess-zero n ∙ sym (local_sess-zero m)
local_sess-agree n m i (suc k) h d =
    local_sess-slot n k ∙ (h k (λ e. d (ap suc (sym e))) ∙ sym (local_sess-slot m k))

-- What a new entry in slot `i` gives, whichever slot it is.
abbrev pub Entered : LocalNode → LocalNode → Sess → Type 0
Entered n n' s =
    (local_sess n s.local_id ≡ none)
    × (local_sess n' s.local_id ≡ some s)
    × ((j : ℕ) → j ≢ s.local_id → local_sess n' j ≡ local_sess n j)

entered :
    (n n' : LocalNode) (s : Sess) (i : ℕ)
    → s.local_id ≡ suc i
    → slot n.sess i ≡ none
    → slot n'.sess i ≡ some s
    → ((k : ℕ) → i ≢ k → slot n'.sess k ≡ slot n.sess k)
    → Entered n n' s
entered n n' s i e old new same = (
  ap (local_sess n) e ∙ (local_sess-slot n i ∙ old),
  ap (local_sess n') e ∙ (local_sess-slot n' i ∙ new),
  λ j d. local_sess-agree n' n i j same (λ q. d (q ∙ sym e)),
)

pub append_same :
    (l : List (Option Sess)) (s : Sess) (k : ℕ)
    → length l ≢ k
    → slot (l ++ some s ∷ []) k ≡ slot l k
append_same l s k d = elim (Bool-cases (ltb k (length l))) [
  | inl e ↦ slot-append_left l (some s) k (ground arith)
  | inr e ↦
      slot-beyond (l ++ some s ∷ []) k (ground (arith, length-append l (some s ∷ [])))
      ∙ sym (slot-beyond l k (ground arith))
]

-- A new session gets an identifier that no session has; it is found under it, and every other
-- identifier gives what it gave before.
pub local_new_sess-Entered :
    (n : LocalNode) (rnode remote_id qlen : ℕ)
    → IsValid n
    → let (s, n') = local_new_sess n rnode remote_id qlen in Entered n n' s
unfolding local_new_sess
local_new_sess-Entered n rnode remote_id qlen v = go n.free refl
  where
    go :
        (fr : List ℕ)
        → n.free ≡ fr
        → let (s, n') = local_new_sess (table n.sess fr) rnode remote_id qlen in Entered n n' s
    go [] e =
        entered n _ _ (length n.sess) (omega arith) (slot-beyond n.sess _ (omega arith))
          (slot-append_self n.sess _) (append_same n.sess _)
    go (f ∷ rest) e =
        let (pos, fits, empty) = v.free_empty f (rw e (ground arith)) in
        entered n _ _ (f - 1) (omega arith) empty (slot-set_self n.sess (f - 1) _ (omega arith))
          (λ k d. slot-set_ne n.sess (f - 1) k _ d)
