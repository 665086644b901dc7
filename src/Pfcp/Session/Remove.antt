-- ===== src/Pfcp/Session/Remove.antt =====
-- internal/pfcp/session.go: Session Deletion, and the answer to a Session Report Request.
use go_upf.Base.{ℕ, Option, none, some, List, [], String, ◌==◌, if◌then◌else◌}
use go_upf.Report.{UsaReport, termr}
use go_upf.Forwarder.{Driver}
use go_upf.Pfcp.Sess.{Sess, with_flag}
use go_upf.Pfcp.Node.{
  Closed, Found, found, missing, nil_pointer, local_sess, node_delete_sess, remote_sess,
}
use go_upf.Pfcp.Server.{
  Server, request_accepted, session_context_not_found, deletion_rsp, send_rsp_to,
}
use go_upf.Pfcp.Session.Modify.{usage_reports}

module _ {S : Type 0} (d : Driver S) where
  -- What is left of the session object, and its last reports.
  abbrev pub remains : Sess → Option (Closed S) → List UsaReport × Sess
  remains s none = ([], s)
  remains s (some c) = (c.usars, c.sess)

  abbrev pub delete_found : Server S → String → ℕ → ℕ → Sess → Server S
  delete_found sv addr seid seq s =
      let (c, w) = node_delete_sess d sv.world s.rnode seid in
      let (us, s') = remains s c in
      let (ies, s'') = usage_reports s' (with_flag termr us) in
      send_rsp_to (record sv { world = w }) (deletion_rsp s''.remote_id seq request_accepted ies)
        addr

  -- `handleSessionDeletionRequest`.
  unfoldable pub handle_deletion : Server S → String → ℕ → ℕ → Server S
  unfolding local_sess node_delete_sess usage_reports
  handle_deletion sv addr seid seq = elim (local_sess sv.world.lnode seid) [
    | none ↦ send_rsp_to sv (deletion_rsp 0 seq session_context_not_found []) addr
    | some s ↦ delete_found sv addr seid seq s
  ]

  abbrev pub drop_remote : Server S → Found → Option (Server S)
  drop_remote sv (found s) =
      some (record sv { world = (node_delete_sess d sv.world s.rnode s.local_id).1 })
  drop_remote sv missing = some sv
  drop_remote sv nil_pointer = none

  -- `handleSessionReportResponse`: the SEID 0 says that the remote side has no such session.
  -- `req_seid` is the SEID of the request that is answered. `none` is a panic, which ends the
  -- program.
  unfoldable pub handle_report_response : Server S → String → ℕ → ℕ → Option (Server S)
  unfolding remote_sess
  handle_report_response sv addr rsp_seid req_seid =
      if rsp_seid == 0 then drop_remote sv (remote_sess sv.world req_seid addr) else some sv
