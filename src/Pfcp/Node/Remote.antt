-- ===== src/Pfcp/Node/Remote.antt =====
-- internal/pfcp/node.go: the sessions of a remote node under DeleteSess and Reset.
use go_upf.Base.{
  member, ℕ, zero, suc, ◌<◌, ◌≡◌, refl, sym, ap, ◌∙◌, Bool, true, false, Option, none, some, List,
  [], ◌∷◌, ◌++◌, arith, String, length, get_elem?, get_elem?-set_self, delete, lookup-delete, ◌==◌,
  ==_iff, if◌then◌else◌, Bool-cases, Option-cases, inl, inr, nat_eq, subst,
}
use go_upf.Forwarder.{Driver}
use go_upf.Pfcp.Sess.{Sess, IdSet, has, keys}
use go_upf.Pfcp.Node.{
  RemoteNode, Nodes, local_sess, local_delete_sess, node_sess, set_sess, node_delete_sess,
  node_delete_all, node_reset, found, missing, nil_pointer, remote_sess_in, has_addr,
}
use go_upf.Pfcp.Sess.RefCount.{has-keys}
use go_upf.Pfcp.Node.Table.{IsValid}
use go_upf.Pfcp.Node.TableInvariant.{local_delete_sess-Cleared}

get_elem?-within :
    (xs : List RemoteNode) (i : ℕ) {x : RemoteNode} → get_elem? xs i ≡ some x → i < length xs
get_elem?-within [] i h = cc
get_elem?-within (x ∷ xs) zero h = omega arith
get_elem?-within (x ∷ xs) (suc i) h = omega (arith, get_elem?-within xs i h)

module _ {S : Type 0} (d : Driver S) where
  -- What an identifier gives after some of a node's sessions are deleted.
  abbrev pub Ended : Nodes S → Nodes S → (ℕ → Bool) → Type 0
  Ended w w' gone =
      IsValid w'.lnode
      × ((j : ℕ) → gone j ≡ true → local_sess w'.lnode j ≡ none)
      × ((j : ℕ) → gone j ≡ false → local_sess w'.lnode j ≡ local_sess w.lnode j)

  -- `DeleteSess` of a session of the node ends it, and takes it from the node.
  pub node_delete_sess-Ended :
      (w : Nodes S) (p seid : ℕ)
      → IsValid w.lnode
      → has (node_sess w p) seid ≡ true
      → let w' = (node_delete_sess d w p seid).1 in
        Ended w w' (λ j. j == seid) × (w'.nodes ≡ set_sess w p (delete seid (node_sess w p)))
  unfolding node_delete_sess
  node_delete_sess-Ended w p seid v h = elim (Option-cases (local_sess w.lnode seid)) [
    | inl e ↦
        let none_left : local_delete_sess d w.lnode seid w.driver ≡ none =
          unfold local_delete_sess in (rw (e) refl) in
        rw (h, none_left)
          (
            (
              v,
              λ j q. subst (λ k. local_sess w.lnode k ≡ none) (sym ((==_iff j seid).0 q)) e,
              λ j q. refl,
            ),
            refl,
          )
    | inr (s, e) ↦
        let (c, done, _, (gone, same, v', _)) =
          local_delete_sess-Cleared d w.lnode seid w.driver s v e in
        rw (h, done)
          (
            (
              v',
              λ j q. subst (λ k. local_sess c.lnode k ≡ none) (sym ((==_iff j seid).0 q)) gone,
              λ j q. same j (ground arith),
            ),
            refl,
          )
  ]

  node_sess-delete :
      (w : Nodes S) (p seid : ℕ)
      → IsValid w.lnode
      → has (node_sess w p) seid ≡ true
      → node_sess (node_delete_sess d w p seid).1 p ≡ delete seid (node_sess w p)
  node_sess-delete w p seid v h = elim (Option-cases (get_elem? w.nodes p)) [
    | inl e ↦ let empty : has [] seid ≡ true = rw (e, node_sess) at h in cc
    | inr (n, e) ↦
        let nodes = (node_delete_sess-Ended w p seid v h).1 in
        rw (nodes, node_sess)
          (rw (e, set_sess)
            (rw
              (get_elem?-set_self w.nodes p (record n { sess = delete seid (node_sess w p) })
                (get_elem?-within w.nodes p e))
              (ap (delete seid) refl)))
  ]

  pub node_delete_sess-absent :
      (w : Nodes S) (p seid : ℕ)
      → has (node_sess w p) seid ≡ false
      → (node_delete_sess d w p seid).1 ≡ w
  unfolding node_delete_sess
  node_delete_sess-absent w p seid h = rw h refl

  has-delete :
      (ids : IdSet) (i j : ℕ) → has (delete i ids) j ≡ (if i == j then false else has ids j)
  has-delete ids i j = ground (arith, lookup-delete i j ids)

  abbrev chosen : Nodes S → ℕ → List ℕ → ℕ → Bool
  chosen w p ids j = if member j ids then has (node_sess w p) j else false

  chosen-delete :
      (w w' : Nodes S) (p i : ℕ) (ids : List ℕ) (j : ℕ)
      → node_sess w' p ≡ delete i (node_sess w p)
      → chosen w' p ids j ≡ (if j == i then false else chosen w p ids j)
  chosen-delete w w' p i ids j e =
      ap (λ ns. if member j ids then has ns j else false) e
      ∙ ground (arith, has-delete (node_sess w p) i j)

  chosen-skip :
      (w : Nodes S) (p i : ℕ) (ids : List ℕ) (j : ℕ)
      → has (node_sess w p) i ≡ false
      → chosen w p ids j ≡ chosen w p (i ∷ ids) j
  chosen-skip w p i ids j h = elim (Bool-cases (j == i)) [
    | inl e ↦ ground (arith, e, h, ap (has (node_sess w p)) ((==_iff j i).0 e))
    | inr e ↦ ground (arith, e)
  ]

  node_delete_all-Ended :
      (ids : List ℕ) (w : Nodes S) (p : ℕ)
      → IsValid w.lnode
      → Ended w (node_delete_all d w p ids) (chosen w p ids)
  unfolding node_delete_all
  node_delete_all-Ended [] w p v = (v, λ j q. cc, λ j q. refl)
  node_delete_all-Ended (i ∷ ids) w p v = elim (Bool-cases (has (node_sess w p) i)) [
    | inl h ↦
        let w' = (node_delete_sess d w p i).1 in
        let (v', gone, same) = (node_delete_sess-Ended w p i v h).0 in
        let left = node_sess-delete w p i v h in
        let (v'', gones, sames) = node_delete_all-Ended ids w' p v' in
        let now = λ (j : ℕ). chosen-delete w w' p i ids j left in
        (
          v'',
          λ j q. elim (Bool-cases (j == i)) [
            | inl e ↦ sames j (now j ∙ ground (arith, e)) ∙ gone j e
            | inr e ↦ gones j (now j ∙ ground (arith, e, q))
          ],
          λ j q. elim (Bool-cases (j == i)) [
            | inl e ↦ ground (arith, e, q, h, ap (has (node_sess w p)) ((==_iff j i).0 e))
            | inr e ↦ sames j (now j ∙ ground (arith, e, q)) ∙ same j e
          ],
        )
    | inr h ↦
        let (v', gones, sames) = node_delete_all-Ended ids w p v in
        subst (λ x. Ended w (node_delete_all d x p ids) (chosen w p (i ∷ ids)))
          (sym (node_delete_sess-absent w p i h))
          (
            v',
            λ j q. gones j (chosen-skip w p i ids j h ∙ q),
            λ j q. sames j (chosen-skip w p i ids j h ∙ q),
          )
  ]

  -- `Reset` of a remote node ends every session of the node and no other: an identifier of the node
  -- gives no session afterwards, every other one gives what it gave, and the table stays well formed.
  pub node_reset-Ended :
      (w : Nodes S) (p : ℕ)
      → IsValid w.lnode
      → Ended w (node_reset d w p) (λ j. has (node_sess w p) j)
  unfolding node_reset
  node_reset-Ended w p v =
      let (v', gone, same) = node_delete_all-Ended (keys (node_sess w p)) w p v in
      (v', λ j q. gone j (all_of j ∙ q), λ j q. same j (all_of j ∙ q))
    where
      all_of : (j : ℕ) → chosen w p (keys (node_sess w p)) j ≡ has (node_sess w p) j
      all_of j = ground (arith, has-keys (node_sess w p) j)

-- Looking a session up by the remote SEID panics if a slot that is empty comes before the one that
-- matches.
pub remote_sess_in-nil :
    (nodes : List RemoteNode) (l rest : List (Option Sess)) (rseid : ℕ) (a : String)
    → remote_sess_in nodes l rseid a ≡ missing
    → remote_sess_in nodes (l ++ none ∷ rest) rseid a ≡ nil_pointer
unfolding remote_sess_in
remote_sess_in-nil nodes [] rest rseid a h = refl
remote_sess_in-nil nodes (none ∷ l) rest rseid a h = cc
remote_sess_in-nil nodes (some s ∷ l) rest rseid a h = elim (Bool-cases (s.remote_id == rseid)) [
  | inl e ↦ elim (Bool-cases (has_addr nodes s.rnode a)) [
    | inl f ↦ let bad : found s ≡ missing = rw (e, f) at h in cc
    | inr f ↦ rw (e, f) (remote_sess_in-nil nodes l rest rseid a (ground (arith, h, e, f)))
  ]
  | inr e ↦ rw e (remote_sess_in-nil nodes l rest rseid a (ground (arith, h, e)))
]
