-- ===== src/Pfcp/Session/Establish.antt =====
-- internal/pfcp/session.go: Session Establishment.
use go_upf.Base.{ℕ, ◌-◌, none, some, String, set, lookup, string_eq}
use go_upf.Forwarder.{Driver}
use go_upf.Pfcp.Sess.{Sess, create_pdr}
use go_upf.Pfcp.Sess.Rules.{create_far, create_qer, create_bar, create_urr}
use go_upf.Pfcp.Node.{Nodes, node_new_sess}
use go_upf.Pfcp.Server.{Server, establishment_rsp, send_rsp_to}
use go_upf.Pfcp.Session.{EstablishmentRequest, optional, each, created_pdrs}

module _ {S : Type 0} where
  -- The session object that the table points to, after its methods have run.
  abbrev pub store : Nodes S → Sess × S → Nodes S
  store w (s, st) = record w {
    lnode = record (w.lnode) { sess = set w.lnode.sess (s.local_id - 1) (some s) };
    driver = st;
  }

  module _ (d : Driver S) where
    -- The rules of the request, in the order of the handler.
    unfoldable pub install : EstablishmentRequest → Sess × S → Sess × S
    install req = λ s0.
        let s1 = each (create_far d) s0 req.create_fars in
        let s2 = each (create_qer d) s1 req.create_qers in
        let s3 = each (create_urr d) s2 req.create_urrs in
        let s4 = each (create_bar d) s3 (optional req.create_bar) in
        each (create_pdr d) s4 req.create_pdrs

    -- The session is allocated, filled and answered.
    unfoldable pub establish : Server S → String → ℕ → ℕ → EstablishmentRequest → Server S
    unfolding install
    establish sv addr p remote_id req =
        let (s, w) = node_new_sess sv.world p remote_id in
        let (s', st) = install req (s, w.driver) in
        send_rsp_to (record sv { world = store w (s', st) })
          (establishment_rsp s'.remote_id req.seq s'.local_id (created_pdrs req.create_pdrs)) addr

    -- `handleSessionEstablishmentRequest`: a request without a known node, or without a CP F-SEID
    -- that decodes, has no answer.
    unfoldable pub handle_establishment : Server S → String → EstablishmentRequest → Server S
    unfolding establish
    handle_establishment sv addr req = elim req.node_id [
      | none ↦ sv
      | some none ↦ sv
      | some (some id) ↦ elim (lookup id sv.rnodes) [
        | none ↦ sv
        | some p ↦ elim req.cp_fseid [
          | none ↦ sv
          | some none ↦ sv
          | some (some fseid) ↦ establish sv addr p fseid req
        ]
      ]
    ]
