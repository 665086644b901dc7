-- ===== src/Pfcp/Node/TableInvariant.antt =====
-- internal/pfcp/node.go: the invariant of the table of sessions under NewSess and DeleteSess.
use go_upf.Base.{
  member, ℕ, zero, suc, ◌+◌, ◌-◌, ◌≤◌, ◌<◌, ◌≡◌, ◌≢◌, refl, sym, ap, ◌∙◌, true, false, Option, none,
  some, List, [], ◌∷◌, ◌++◌, arith, length, length-append, length-set, set, ◌==◌, ==_iff,
  Bool-cases, inl, inr, ◌⊎◌, subst,
}
use go_upf.Forwarder.{Driver}
use go_upf.Pfcp.Sess.{Sess}
use go_upf.Pfcp.Sess.Close.{close}
use go_upf.Pfcp.Node.{LocalNode, slot, local_sess, local_new_sess, Closed, local_delete_sess}
use go_upf.Pfcp.Node.Table.{
  IsValid, table, slot-set_self, slot-set_ne, slot-within, slot-append_self, append_same,
  local_sess-slot, local_sess-agree,
}

-- A slot is the one that was written, or has kept its value.
pub slot-set_cases :
    (l : List (Option Sess)) (i j : ℕ) (o : Option Sess)
    → i < length l
    → ((i ≡ j) × (slot (set l i o) j ≡ o)) ⊎ ((i ≢ j) × (slot (set l i o) j ≡ slot l j))
slot-set_cases l i j o h = elim (Bool-cases (i == j)) [
  | inl e ↦
      let p = (==_iff i j).0 e in
      inl (p, subst (λ k. slot (set l i o) k ≡ o) p (slot-set_self l i o h))
  | inr e ↦ let d : i ≢ j = ground arith in inr (d, slot-set_ne l i j o d)
]

member_rest : (x f : ℕ) (fr : List ℕ) → member x fr ≡ true → member f fr ≡ false → (x ≢ f)
member_rest x f fr h k e = cc (subst (λ y. member y fr ≡ true) e h)

-- The identifier freed last is taken.
reuse-IsValid :
    (l : List (Option Sess)) (f : ℕ) (fr : List ℕ) (s : Sess)
    → IsValid (table l (f ∷ fr))
    → s.local_id ≡ f
    → IsValid (table (set l (f - 1) (some s)) fr)
reuse-IsValid l f fr s v e = record {
  free_empty = λ x m.
      let (pos, fits, empty) = v.free_empty x (ground (arith, m)) in
      let apart = member_rest x f fr m v.distinct.0 in
      (
        pos,
        omega (arith, length-set l (f - 1) (some s)),
        slot-set_ne l (f - 1) (x - 1) (some s) (λ q. apart (omega (arith, first))) ∙ empty,
      );
  empty_free = λ i h empty. elim (slot-set_cases l (f - 1) i (some s) (omega (arith, first))) [
    | inl (_, q) ↦ cc
    | inr (d, q) ↦ ground (
      arith,
      v.empty_free i (omega (arith, length-set l (f - 1) (some s))) (sym q ∙ empty),
      first,
    )
  ];
  distinct = v.distinct.1;
  numbered = λ i t q. elim (slot-set_cases l (f - 1) i (some s) (omega (arith, first))) [
    | inl (p, r) ↦ ground (arith, e, first)
    | inr (_, r) ↦ v.numbered i t (sym r ∙ q)
  ];
}
  where
    first : (1 ≤ f) × (f ≤ length l) × (slot l (f - 1) ≡ none)
    first = v.free_empty f (ground arith)

-- A slot of the longer table is the new one, or an old one.
slot-append_cases :
    (l : List (Option Sess)) (s : Sess) (k : ℕ)
    → ((length l ≡ k) × (slot (l ++ some s ∷ []) k ≡ some s))
      ⊎ ((length l ≢ k) × (slot (l ++ some s ∷ []) k ≡ slot l k))
slot-append_cases l s k = elim (Bool-cases (length l == k)) [
  | inl e ↦
      let p = (==_iff (length l) k).0 e in
      inl (p, subst (λ j. slot (l ++ some s ∷ []) j ≡ some s) p (slot-append_self l (some s)))
  | inr e ↦ let d : length l ≢ k = ground arith in inr (d, append_same l s k d)
]

-- With no identifier free the table grows, and all its slots are in use.
append-IsValid :
    (l : List (Option Sess)) (s : Sess)
    → IsValid (table l [])
    → s.local_id ≡ length l + 1
    → IsValid (table (l ++ some s ∷ []) [])
append-IsValid l s v e = record {
  free_empty = λ x m. cc;
  empty_free = λ i h empty. elim (slot-append_cases l s i) [
    | inl (_, q) ↦ cc
    | inr (d, q) ↦ v.empty_free i (omega (arith, length-append l (some s ∷ []), d)) (sym q ∙ empty)
  ];
  distinct = tt;
  numbered = λ i t q. elim (slot-append_cases l s i) [
    | inl (p, r) ↦ ground (arith, e)
    | inr (_, r) ↦ v.numbered i t (sym r ∙ q)
  ];
}

-- `NewSess` keeps the table well formed.
pub local_new_sess-IsValid :
    (n : LocalNode) (rnode remote_id qlen : ℕ)
    → IsValid n
    → IsValid (local_new_sess n rnode remote_id qlen).1
unfolding local_new_sess
local_new_sess-IsValid n rnode remote_id qlen v = go n.free v
  where
    go :
        (fr : List ℕ)
        → IsValid (table n.sess fr)
        → IsValid (local_new_sess (table n.sess fr) rnode remote_id qlen).1
    go [] w = append-IsValid n.sess _ w refl
    go (f ∷ rest) w = reuse-IsValid n.sess f rest _ w refl

-- The table after the session of slot `i` is closed.
close-IsValid :
    (l : List (Option Sess)) (fr : List ℕ) (i : ℕ) (s : Sess)
    → IsValid (table l fr)
    → slot l i ≡ some s
    → IsValid (table (set l i none) (suc i ∷ fr))
close-IsValid l fr i s v live = record {
  free_empty = λ x m. elim (slot-set_cases l i (x - 1) none within) [
    | inl (p, q) ↦ elim (Bool-cases (x == suc i)) [
      | inl e ↦ (ground arith, ground (arith, within, length-set l i none), q)
      | inr e ↦ let old = v.free_empty x (ground arith) in absurd (ground (arith, old))
    ]
    | inr (d, q) ↦
        let old = v.free_empty x (ground arith) in
        (old.0, omega (arith, old, length-set l i none), q ∙ old.2)
  ];
  empty_free = λ j h empty. elim (slot-set_cases l i j none within) [
    | inl (p, q) ↦ ground arith
    | inr (d, q) ↦
        ground (arith, v.empty_free j (omega (arith, length-set l i none)) (sym q ∙ empty))
  ];
  distinct = (apart, v.distinct);
  numbered = λ j t q. elim (slot-set_cases l i j none within) [
    | inl (_, r) ↦ cc
    | inr (_, r) ↦ v.numbered j t (sym r ∙ q)
  ];
}
  where
    within : i < length l
    within = slot-within l i live

    apart : member (suc i) fr ≡ false
    apart = elim (Bool-cases (member (suc i) fr)) [
      | inl m ↦
          let (_, _, empty) = v.free_empty (suc i) m in
          let at : slot l (suc i - 1) ≡ slot l i = ap (slot l) (omega arith) in cc
      | inr m ↦ m
    ]

suc_sub_one : (i : ℕ) → suc i - 1 ≡ i
suc_sub_one i = omega arith

module _ {S : Type 0} (d : Driver S) where
  -- What closing the session under an identifier does to the table.
  abbrev pub Cleared : LocalNode → ℕ → LocalNode → Type 0
  Cleared n id n' =
      (local_sess n' id ≡ none)
      × ((j : ℕ) → j ≢ id → local_sess n' j ≡ local_sess n j)
      × IsValid n'
      × ((rnode remote_id qlen : ℕ) → (local_new_sess n' rnode remote_id qlen).0.local_id ≡ id)

  cleared :
      (n : LocalNode) (i : ℕ) (s : Sess)
      → IsValid n
      → slot n.sess i ≡ some s
      → Cleared n (suc i) (table (set n.sess i none) (suc i ∷ n.free))
  unfolding local_new_sess
  cleared n i s v live = (
    local_sess-slot (table (set n.sess i none) (suc i ∷ n.free)) i
        ∙ slot-set_self n.sess i none (slot-within n.sess i live),
    λ j p. local_sess-agree _ n i j (λ k q. slot-set_ne n.sess i k none q) p,
    close-IsValid n.sess n.free i s v live,
    λ rnode remote_id qlen. refl,
  )

  -- `DeleteSess` of an identifier in use closes its session: afterwards the identifier gives none,
  -- every other one gives what it gave, the table is well formed, and the next new session gets this
  -- identifier. The reports are those of `Close`.
  pub local_delete_sess-Cleared :
      (n : LocalNode) (id : ℕ) (st : S) (s : Sess)
      → IsValid n
      → local_sess n id ≡ some s
      → (c : Closed S) × (local_delete_sess d n id st ≡ some c)
        × (c.usars ≡ (close d s st).0)
        × Cleared n id c.lnode
  unfolding local_delete_sess
  local_delete_sess-Cleared n zero st s v live = cc
  local_delete_sess-Cleared n (suc i) st s v live = (
    record {
      usars = (close d s st).0;
      sess = (close d s st).1;
      lnode = table (set n.sess i none) (suc i ∷ n.free);
      driver = (close d s st).2;
    },
    rw (live, suc_sub_one i),
    refl,
    cleared n i s v (sym (local_sess-slot n i) ∙ live),
  )
