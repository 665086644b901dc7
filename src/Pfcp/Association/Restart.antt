-- ===== src/Pfcp/Association/Restart.antt =====
-- internal/pfcp/association.go: Association Setup from a node that may have had an association.
use go_upf.Base.{
  ℕ, ◌≡◌, refl, sym, ap, ◌∙◌, Bool, false, none, some, [], String, length, get_elem?,
  get_elem?-append_self, lookup, lookup-insert_self, Option-cases, inl, inr, string_eq, pair_eq,
  nat_eq, subst,
}
use go_upf.Forwarder.{Driver}
use go_upf.Pfcp.Sess.{has}
use go_upf.Pfcp.Node.{Nodes, node_sess}
use go_upf.Pfcp.Node.Table.{IsValid}
use go_upf.Pfcp.Node.Remote.{Ended, node_reset-Ended}
use go_upf.Pfcp.Server.{Server, send_rsp_to, Response, response_seq, association_setup_rsp}
use go_upf.Pfcp.Association.{AssociationRequest, forget_node, new_node, handle_association_setup}

module _ {S : Type 0} (d : Driver S) where
  -- The sessions of the node that an identifier names, none where it names none.
  abbrev pub owned : Server S → String → ℕ → Bool
  owned sv id j = elim (lookup id sv.rnodes) [
    | none ↦ false
    | some p ↦ has (node_sess sv.world p) j
  ]

  pub forget_node-Ended :
      (sv : Server S) (id : String)
      → IsValid sv.world.lnode
      → Ended d sv.world (forget_node d sv id).world (λ j. owned sv id j)
  unfolding forget_node
  forget_node-Ended sv id v = elim (Option-cases (lookup id sv.rnodes)) [
    | inl e ↦ rw (e, forget_node) (v, λ j q. cc, λ j q. refl)
    | inr (p, e) ↦
        let own : (j : ℕ) → owned sv id j ≡ has (node_sess sv.world p) j =
          λ j. rw (e, owned) refl in
        let (v', gone, same) = node_reset-Ended d sv.world p v in
        rw (e, forget_node) (v', λ j q. gone j (sym (own j) ∙ q), λ j q. same j (sym (own j) ∙ q))
  ]

  pub send_rsp_to-world :
      (sv : Server S) (rsp : Response) (addr : String)
      → ((send_rsp_to sv rsp addr).world ≡ sv.world)
        × ((send_rsp_to sv rsp addr).rnodes ≡ sv.rnodes)
  unfolding send_rsp_to
  send_rsp_to-world sv rsp addr =
      elim (Option-cases (lookup (addr, response_seq rsp) sv.rx_trans)) [
        | inl e ↦ rw (e, send_rsp_to) (refl, refl)
        | inr (rx, e) ↦ rw (e, send_rsp_to) (refl, refl)
      ]

  -- The node as it is new.
  abbrev pub Associated : Server S → String → String → Type 0
  Associated sv id addr =
      (p : ℕ) × (lookup id sv.rnodes ≡ some p)
      × (get_elem? sv.world.nodes p ≡ some (record { id = id; addr = addr; sess = [] }))

  -- An Association Setup Request with a node name and a time stamp that decode ends every session of
  -- the node that had the name, and no other session, and leaves the name with a new node that has
  -- no session. The table of sessions stays well formed.
  pub handle_association_setup-Ended :
      (sv : Server S) (addr : String) (req : AssociationRequest) (id : String) (t : ℕ)
      → IsValid sv.world.lnode
      → req.node_id ≡ some (some id)
      → string_eq.beq id "" ≡ false
      → req.recovery ≡ some (some t)
      → let sv' = handle_association_setup d sv addr req in
        Ended d sv.world sv'.world (λ j. owned sv id j) × Associated sv' id addr
  unfolding handle_association_setup new_node
  handle_association_setup-Ended sv addr req id t v a b c =
      let left = forget_node d sv id in
      let (world, rnodes) =
        send_rsp_to-world (new_node d left id addr) (association_setup_rsp req.seq) addr in
      rw (a, handle_association_setup)
        (rw b (
          rw c (
            subst (λ (x : Nodes S). Ended d sv.world x (λ j. owned sv id j)) (sym world)
                (forget_node-Ended sv id v),
            (
              length left.world.nodes,
              ap (lookup id) rnodes ∙ lookup-insert_self id (length left.world.nodes) left.rnodes,
              ap (λ (x : Nodes S). get_elem? x.nodes (length left.world.nodes)) world
                  ∙ get_elem?-append_self left.world.nodes _,
            ),
          )))
