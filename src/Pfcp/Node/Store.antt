-- ===== src/Pfcp/Node/Store.antt =====
-- internal/pfcp/node.go: writing a session object back to its slot, as the methods of the object do.
use go_upf.Base.{
  ℕ, zero, suc, ◌-◌, ◌<◌, ◌≡◌, refl, sym, ap, ◌∙◌, Option, none, some, List, arith, length,
  length-set, set, inl, inr, subst,
}
use go_upf.Pfcp.Sess.{Sess}
use go_upf.Pfcp.Node.{LocalNode, slot, local_sess}
use go_upf.Pfcp.Node.Table.{
  IsValid, table, slot-set_self, slot-set_ne, slot-within, local_sess-slot, local_sess-zero,
  local_sess-agree, Entered,
}
use go_upf.Pfcp.Node.TableInvariant.{slot-set_cases}

-- The object in slot `i` is written anew; identifiers stay as they are.
store-IsValid :
    (l : List (Option Sess)) (fr : List ℕ) (i : ℕ) (s s' : Sess)
    → IsValid (table l fr)
    → slot l i ≡ some s
    → s'.local_id ≡ s.local_id
    → IsValid (table (set l i (some s')) fr)
store-IsValid l fr i s s' v live e = record {
  free_empty = λ x m. elim (slot-set_cases l i (x - 1) (some s') within) [
    | inl (p, q) ↦
        let (_, _, empty) = v.free_empty x m in
        let clash : slot l i ≡ none = ap (slot l) p ∙ empty in cc
    | inr (_, q) ↦
        let (pos, fits, empty) = v.free_empty x m in
        (pos, omega (arith, length-set l i (some s')), q ∙ empty)
  ];
  empty_free = λ j h empty. elim (slot-set_cases l i j (some s') within) [
    | inl (_, q) ↦ cc
    | inr (_, q) ↦ v.empty_free j (omega (arith, length-set l i (some s'))) (sym q ∙ empty)
  ];
  distinct = v.distinct;
  numbered = λ j t q. elim (slot-set_cases l i j (some s') within) [
    | inl (p, r) ↦ ground (arith, e, v.numbered i s live)
    | inr (_, r) ↦ v.numbered j t (sym r ∙ q)
  ];
}
  where
    within : i < length l
    within = slot-within l i live

-- A new session whose object has changed since.
pub Entered-store :
    (n n' : LocalNode) (s s' : Sess)
    → Entered n n' s
    → IsValid n'
    → s'.local_id ≡ s.local_id
    → let n'' = table (set n'.sess (s'.local_id - 1) (some s')) n'.free in
      Entered n n'' s' × IsValid n''
Entered-store n n' s s' (old, now, same) v e = go s.local_id refl
  where
    go :
        (k : ℕ)
        → k ≡ s.local_id
        → let n'' = table (set n'.sess (s'.local_id - 1) (some s')) n'.free in
          Entered n n'' s' × IsValid n''
    go zero z =
        let bad : none ≡ some s = sym (local_sess-zero n') ∙ (ap (local_sess n') z ∙ now) in cc
    go (suc i) z =
        let at : s'.local_id - 1 ≡ i = omega (arith, e, z) in
        let live : slot n'.sess i ≡ some s =
          sym (local_sess-slot n' i) ∙ (ap (local_sess n') z ∙ now) in
        let n3 = table (set n'.sess i (some s')) n'.free in
        let id : s'.local_id ≡ suc i = e ∙ sym z in
        subst
          (λ (k : ℕ).
            let n'' = table (set n'.sess k (some s')) n'.free in Entered n n'' s' × IsValid n'')
          (sym at)
          (
            (
              ap (local_sess n) e ∙ old,
              ap (local_sess n3) id
                  ∙ (local_sess-slot n3 i
                      ∙ slot-set_self n'.sess i (some s') (slot-within n'.sess i live)),
              λ j d.
                  local_sess-agree n3 n' i j (λ k q. slot-set_ne n'.sess i k (some s') q)
                    (λ q. d (q ∙ sym id))
                  ∙ same j (λ q. d (q ∙ sym e)),
            ),
            store-IsValid n'.sess n'.free i s s' v live e,
          )

-- The object that an identifier gives is written anew.
pub put-IsValid :
    (n : LocalNode) (id : ℕ) (s s' : Sess)
    → IsValid n
    → local_sess n id ≡ some s
    → s'.local_id ≡ s.local_id
    → IsValid (table (set n.sess (s'.local_id - 1) (some s')) n.free)
put-IsValid n zero s s' v live e = let bad : none ≡ some s = sym (local_sess-zero n) ∙ live in cc
put-IsValid n (suc i) s s' v live e =
    let at : slot n.sess i ≡ some s = sym (local_sess-slot n i) ∙ live in
    let place : s'.local_id - 1 ≡ i = omega (arith, e, v.numbered i s at) in
    subst (λ k. IsValid (table (set n.sess k (some s')) n.free)) (sym place)
      (store-IsValid n.sess n.free i s s' v at e)
