-- ===== src/Pfcp/Session/Deleted.antt =====
-- internal/pfcp/session.go: the state that Session Deletion leaves.
use go_upf.Base.{
  ℕ, ◌≡◌, refl, sym, true, none, some, [], String, Option-cases, inl, inr, subst, ◌==◌, ==_iff,
  pair_eq,
}
use go_upf.Report.{termr}
use go_upf.Forwarder.{Driver}
use go_upf.Pfcp.Sess.{Sess, has, with_flag}
use go_upf.Pfcp.Node.{Nodes, local_sess, node_sess, node_delete_sess}
use go_upf.Pfcp.Node.Table.{IsValid}
use go_upf.Pfcp.Node.Remote.{Ended, node_delete_sess-Ended}
use go_upf.Pfcp.Server.{Server, deletion_rsp, session_context_not_found, request_accepted}
use go_upf.Pfcp.Session.Modify.{usage_reports}
use go_upf.Pfcp.Session.Remove.{delete_found, remains, handle_deletion}
use go_upf.Pfcp.Association.Restart.{send_rsp_to-world}

module _ {S : Type 0} (d : Driver S) where
  pub delete_found-world :
      (sv : Server S) (addr : String) (seid seq : ℕ) (s : Sess)
      → (delete_found d sv addr seid seq s).world ≡ (node_delete_sess d sv.world s.rnode seid).1
  unfolding usage_reports
  delete_found-world sv addr seid seq s =
      let (c, w) = node_delete_sess d sv.world s.rnode seid in
      let (us, s') = remains d s c in
      let (ies, s'') = usage_reports s' (with_flag termr us) in
      (send_rsp_to-world d (record sv { world = w })
        (deletion_rsp s''.remote_id seq request_accepted ies) addr).0

  -- A Session Deletion Request for a session that its node owns ends that session and no other, and
  -- the table of sessions stays well formed; one for an identifier that gives no session leaves
  -- the sessions, the nodes and the driver as they are.
  pub handle_deletion-Ended :
      (sv : Server S) (addr : String) (seid seq : ℕ)
      → IsValid sv.world.lnode
      → ((s : Sess)
          → local_sess sv.world.lnode seid ≡ some s
          → has (node_sess sv.world s.rnode) seid ≡ true)
      → let sv' = handle_deletion d sv addr seid seq in
        Ended d sv.world sv'.world (λ j. j == seid)
        × (local_sess sv.world.lnode seid ≡ none → sv'.world ≡ sv.world)
  unfolding handle_deletion
  handle_deletion-Ended sv addr seid seq v own =
      elim (Option-cases (local_sess sv.world.lnode seid)) [
        | inl e ↦
            let same =
              (send_rsp_to-world d sv (deletion_rsp 0 seq session_context_not_found []) addr).0 in
            rw (e, handle_deletion)
              (
                subst (λ (x : Nodes S). Ended d sv.world x (λ j. j == seid)) (sym same)
                    (
                      v,
                      λ j q.
                          subst (λ k. local_sess sv.world.lnode k ≡ none)
                            (sym ((==_iff j seid).0 q)) e,
                      λ j q. refl,
                    ),
                λ _. same,
              )
        | inr (s, e) ↦
            rw (e, handle_deletion)
              (
                subst (λ (x : Nodes S). Ended d sv.world x (λ j. j == seid))
                    (sym (delete_found-world sv addr seid seq s))
                    (node_delete_sess-Ended d sv.world s.rnode seid v (own s e)).0,
                λ q. cc,
              )
      ]
