-- ===== src/Pfcp/Association.antt =====
-- internal/pfcp/association.go and heartbeat.go.
pub mod Restart
use go_upf.Base.{
  ℕ, none, some, [], ◌∷◌, ◌++◌, String, length, lookup, insert, delete, if◌then◌else◌, string_eq,
}
use go_upf.Forwarder.{Driver}
use go_upf.Pfcp.Node.{RemoteNode, node_reset}
use go_upf.Pfcp.Server.{Server, association_setup_rsp, heartbeat_rsp, send_rsp_to}
use go_upf.Pfcp.Session.{Element}

pub record AssociationRequest : Type 0 where
  pub seq : ℕ
  pub node_id : Element String
  pub recovery : Element ℕ  -- the Recovery Time Stamp

module _ {S : Type 0} (d : Driver S) where
  -- `node.Reset()` and `delete(s.rnodes, rnodeid)`, if the node is known.
  unfoldable pub forget_node : Server S → String → Server S
  forget_node sv id = elim (lookup id sv.rnodes) [
    | none ↦ sv
    | some p ↦ record sv { world = node_reset d sv.world p; rnodes = delete id sv.rnodes }
  ]

  -- `NewNode`, and its entry.
  unfoldable pub new_node : Server S → String → String → Server S
  new_node sv id addr =
      let n : RemoteNode = record { id = id; addr = addr; sess = [] } in
      record sv {
        world = record (sv.world) { nodes = sv.world.nodes ++ n ∷ [] };
        rnodes = insert id (length sv.world.nodes) sv.rnodes;
      }

  abbrev pub associate : Server S → String → AssociationRequest → String → Server S
  associate sv addr req id =
      send_rsp_to (new_node (forget_node sv id) id addr) (association_setup_rsp req.seq) addr

  -- `handleAssociationSetupRequest`: the mandatory elements are checked first.
  unfoldable pub handle_association_setup : Server S → String → AssociationRequest → Server S
  unfolding forget_node new_node
  handle_association_setup sv addr req = elim req.node_id [
    | none ↦ sv
    | some none ↦ sv
    | some (some id) ↦ if string_eq.beq id "" then sv else elim req.recovery [
      | none ↦ sv
      | some none ↦ sv
      | some (some t) ↦ associate sv addr req id
    ]
  ]

-- `handleHeartbeatRequest`.
unfoldable pub handle_heartbeat : {S : Type 0} → Server S → String → ℕ → Server S
handle_heartbeat sv addr seq = send_rsp_to sv (heartbeat_rsp seq) addr
