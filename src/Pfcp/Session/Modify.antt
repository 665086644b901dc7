-- ===== src/Pfcp/Session/Modify.antt =====
-- internal/pfcp/session.go: Session Modification.
use go_upf.Base.{
  ℕ, none, some, List, [], ◌∷◌, String, get_elem?, set, lookup, insert, delete, if◌then◌else◌,
  nat_eq, string_eq,
}
use go_upf.Report.{UsaReport, UsageIe, usage_ies}
use go_upf.Forwarder.{Driver}
use go_upf.Pfcp.Sess.{Sess, UrrInfo, create_pdr, update_pdr, remove_pdr}
use go_upf.Pfcp.Sess.Rules.{
  create_far, update_far, remove_far, create_qer, update_qer, remove_qer, create_bar, update_bar,
  remove_bar, create_urr, update_urr, remove_urr, query_urr, urr_seq,
}
use go_upf.Pfcp.Node.{local_sess}
use go_upf.Pfcp.Server.{
  Server, request_accepted, session_context_not_found, modification_rsp, send_rsp_to,
}
use go_upf.Pfcp.Session.{ModificationRequest, optional, each, collect}
use go_upf.Pfcp.Session.Establish.{store}

-- The usage reports of a response, each under the next number of its URR; a URR that was removed is
-- forgotten with its report.
abbrev forget : Sess → ℕ → UrrInfo → Sess
forget s id info = if info.removed then record s { urr_ids = delete id s.urr_ids } else s

unfoldable pub usage_reports : Sess → List UsaReport → List (List UsageIe) × Sess
unfolding urr_seq
usage_reports s [] = ([], s)
usage_reports s (r ∷ rs) =
    let s' : Sess = elim (lookup r.urrid s.urr_ids) [
      | none ↦ s
      | some info ↦ forget (urr_seq s r.urrid).1 r.urrid info
    ] in
    let (ies, s'') = usage_reports s' rs in
    (
      elim (lookup r.urrid s.urr_ids) [
        | none ↦ ies
        | some info ↦
            usage_ies (record r { urseqn = (urr_seq s r.urrid).0 }) info.method info.information
            ∷ ies
      ],
      s'',
    )

module _ {S : Type 0} where
  -- `UpdateNodeID`, when a new node takes the session over: the node object is renamed, with all
  -- its sessions.
  unfoldable pub update_node_id : Server S → ℕ → String → Server S
  update_node_id sv p new_id = elim (get_elem? sv.world.nodes p) [
    | none ↦ sv
    | some n ↦ record sv {
      rnodes = insert new_id p (delete n.id sv.rnodes);
      world = record (sv.world) { nodes = set sv.world.nodes p (record n { id = new_id }) };
    }
  ]

  module _ (d : Driver S) where
    unfoldable pub modify : ModificationRequest → Sess × S → List UsaReport × Sess × S
    modify req s0 =
        let s1 = each (create_far d) s0 req.create_fars in
        let s2 = each (create_qer d) s1 req.create_qers in
        let s3 = each (create_urr d) s2 req.create_urrs in
        let s4 = each (create_bar d) s3 (optional req.create_bar) in
        let s5 = each (create_pdr d) s4 req.create_pdrs in
        let s6 = each (remove_far d) s5 req.remove_fars in
        let (s7, st7) = each (remove_qer d) s6 req.remove_qers in
        let (u1, s8, st8) = collect (remove_urr d) ([], s7, st7) req.remove_urrs in
        let (s9, st9) = each (remove_bar d) (s8, st8) (optional req.remove_bar) in
        let (u2, s10, st10) = collect (remove_pdr d) (u1, s9, st9) req.remove_pdrs in
        let s11 = each (update_far d) (s10, st10) req.update_fars in
        let (s12, st12) = each (update_qer d) s11 req.update_qers in
        let (u3, s13, st13) = collect (update_urr d) (u2, s12, st12) req.update_urrs in
        let (s14, st14) = each (update_bar d) (s13, st13) (optional req.update_bar) in
        let u4 = collect (update_pdr d) (u3, s14, st14) req.update_pdrs in
        collect (query_urr d) u4 req.query_urrs

    abbrev pub modify_found : Server S → String → ModificationRequest → Sess → Server S
    modify_found sv addr req s =
        let (us, s1, st) = modify req (s, sv.world.driver) in
        let (ies, s2) = usage_reports s1 us in
        send_rsp_to (record sv { world = store sv.world (s2, st) })
          (modification_rsp s2.remote_id req.seq request_accepted ies) addr

    -- `handleSessionModificationRequest`.
    unfoldable pub handle_modification : Server S → String → ModificationRequest → Server S
    unfolding local_sess update_node_id modify usage_reports
    handle_modification sv addr req = elim (local_sess sv.world.lnode req.seid) [
      | none ↦ send_rsp_to sv (modification_rsp 0 req.seq session_context_not_found []) addr
      | some s ↦ elim req.node_id [
        | none ↦ modify_found sv addr req s
        | some none ↦ sv
        | some (some id) ↦ modify_found (update_node_id sv s.rnode id) addr req s
      ]
    ]
