-- ===== src/Pfcp/Session/Valid.antt =====
-- internal/pfcp/session.go: the handlers and the invariant of the table of sessions.
use go_upf.Base.{
  ℕ, ◌≡◌, refl, sym, ◌∙◌, Option, none, some, String, lookup, Option-cases, Bool-cases, inl, inr,
  subst, get_elem?, string_eq, nat_eq, ◌==◌,
}
use go_upf.Forwarder.{Driver}
use go_upf.Pfcp.Sess.{Sess, has}
use go_upf.Pfcp.Node.{
  Nodes, local_sess, local_new_sess, node_new_sess, buffq_len, node_sess, node_delete_sess, Found,
  found, missing, nil_pointer, remote_sess,
}
use go_upf.Pfcp.Node.Table.{IsValid, local_new_sess-Entered}
use go_upf.Pfcp.Node.TableInvariant.{local_new_sess-IsValid}
use go_upf.Pfcp.Node.Remote.{node_delete_sess-Ended, node_delete_sess-absent}
use go_upf.Pfcp.Node.Store.{Entered-store, put-IsValid}
use go_upf.Pfcp.Server.{
  Server, Response, send_rsp_to, modification_rsp, request_accepted, establishment_rsp,
}
use go_upf.Pfcp.Session.{EstablishmentRequest, ModificationRequest, created_pdrs}
use go_upf.Pfcp.Session.Establish.{store, install, establish, handle_establishment}
use go_upf.Pfcp.Session.Modify.{
  modify, usage_reports, modify_found, update_node_id, handle_modification,
}
use go_upf.Pfcp.Session.Remove.{handle_deletion, drop_remote, handle_report_response}
use go_upf.Pfcp.Session.Names.{install-SameName}
use go_upf.Pfcp.Session.SameId.Modify.{modify-id, usage_reports-id}
use go_upf.Pfcp.Session.Deleted.{delete_found-world}
use go_upf.Pfcp.Association.Restart.{send_rsp_to-world}

module _ {S : Type 0} (d : Driver S) where
  -- The table of a server is well formed.
  abbrev pub HasValidTable : Server S → Type 0
  HasValidTable sv = IsValid sv.world.lnode

  pub send_rsp_to-HasValidTable :
      (sv : Server S) (rsp : Response) (addr : String)
      → HasValidTable sv
      → HasValidTable (send_rsp_to sv rsp addr)
  send_rsp_to-HasValidTable sv rsp addr v =
      subst (λ (w : Nodes S). IsValid w.lnode) (sym (send_rsp_to-world d sv rsp addr).0) v

  establish-HasValidTable :
      (sv : Server S) (addr : String) (p fseid : ℕ) (req : EstablishmentRequest)
      → HasValidTable sv
      → HasValidTable (establish d sv addr p fseid req)
  unfolding establish node_new_sess
  establish-HasValidTable sv addr p fseid req v =
      let n = sv.world.lnode in
      let (s0, n') = local_new_sess n p fseid buffq_len in
      let (s, st) = install d req (s0, sv.world.driver) in
      let w : Nodes S = (node_new_sess sv.world p fseid).1 in
      send_rsp_to-HasValidTable (record sv { world = store w (s, st) })
        (establishment_rsp s.remote_id req.seq s.local_id (created_pdrs req.create_pdrs)) addr
        (Entered-store n n' s0 s (local_new_sess-Entered n p fseid buffq_len v)
          (local_new_sess-IsValid n p fseid buffq_len v)
          (install-SameName d req s0 sv.world.driver).0).1

  pub handle_establishment-HasValidTable :
      (sv : Server S) (addr : String) (req : EstablishmentRequest)
      → HasValidTable sv
      → HasValidTable (handle_establishment d sv addr req)
  unfolding handle_establishment
  handle_establishment-HasValidTable sv addr req v = elim (Option-cases req.node_id) [
    | inl e ↦ rw (e, handle_establishment) v
    | inr (none, e) ↦ rw (e, handle_establishment) v
    | inr (some name, e) ↦ elim (Option-cases (lookup name sv.rnodes)) [
      | inl m ↦ rw (e, handle_establishment) (rw m v)
      | inr (p, m) ↦ elim (Option-cases req.cp_fseid) [
        | inl f ↦ rw (e, handle_establishment) (rw m (rw f v))
        | inr (none, f) ↦ rw (e, handle_establishment) (rw m (rw f v))
        | inr (some fseid, f) ↦
            rw (e, handle_establishment)
              (rw m (rw f (establish-HasValidTable sv addr p fseid req v)))
      ]
    ]
  ]

  update_node_id-table :
      (sv : Server S) (p : ℕ) (name : String)
      → (update_node_id sv p name).world.lnode ≡ sv.world.lnode
  unfolding update_node_id
  update_node_id-table sv p name = elim (Option-cases (get_elem? sv.world.nodes p)) [
    | inl e ↦ rw (e, update_node_id) refl
    | inr (n, e) ↦ rw (e, update_node_id) refl
  ]

  modify_found-HasValidTable :
      (sv : Server S) (addr : String) (req : ModificationRequest) (s : Sess)
      → HasValidTable sv
      → local_sess sv.world.lnode req.seid ≡ some s
      → HasValidTable (modify_found d sv addr req s)
  modify_found-HasValidTable sv addr req s v live =
      let (us, s1, st) = modify d req (s, sv.world.driver) in
      let (ies, s2) = usage_reports s1 us in
      send_rsp_to-HasValidTable (record sv { world = store sv.world (s2, st) })
        (modification_rsp s2.remote_id req.seq request_accepted ies) addr
        (put-IsValid sv.world.lnode req.seid s s2 v live
          (usage_reports-id us s1 ∙ modify-id d req s sv.world.driver))

  pub handle_modification-HasValidTable :
      (sv : Server S) (addr : String) (req : ModificationRequest)
      → HasValidTable sv
      → HasValidTable (handle_modification d sv addr req)
  unfolding handle_modification
  handle_modification-HasValidTable sv addr req v =
      elim (Option-cases (local_sess sv.world.lnode req.seid)) [
        | inl e ↦ rw (e, handle_modification) (send_rsp_to-HasValidTable sv _ addr v)
        | inr (s, e) ↦ elim (Option-cases req.node_id) [
          | inl n ↦
              rw (e, handle_modification) (rw n (modify_found-HasValidTable sv addr req s v e))
          | inr (none, n) ↦ rw (e, handle_modification) (rw n v)
          | inr (some name, n) ↦
              let same = sym (update_node_id-table sv s.rnode name) in
              rw (e, handle_modification)
                (rw n (
                  modify_found-HasValidTable (update_node_id sv s.rnode name) addr req s
                    (subst IsValid same v) (subst (λ t. local_sess t req.seid ≡ some s) same e)))
        ]
      ]

  pub node_delete_sess-IsValid :
      (w : Nodes S) (p seid : ℕ) → IsValid w.lnode → IsValid (node_delete_sess d w p seid).1.lnode
  node_delete_sess-IsValid w p seid v = elim (Bool-cases (has (node_sess w p) seid)) [
    | inl h ↦ (node_delete_sess-Ended d w p seid v h).0.0
    | inr h ↦
        subst (λ (x : Nodes S). IsValid x.lnode) (sym (node_delete_sess-absent d w p seid h)) v
  ]

  pub handle_deletion-HasValidTable :
      (sv : Server S) (addr : String) (seid seq : ℕ)
      → HasValidTable sv
      → HasValidTable (handle_deletion d sv addr seid seq)
  unfolding handle_deletion
  handle_deletion-HasValidTable sv addr seid seq v =
      elim (Option-cases (local_sess sv.world.lnode seid)) [
        | inl e ↦ rw (e, handle_deletion) (send_rsp_to-HasValidTable sv _ addr v)
        | inr (s, e) ↦
            rw (e, handle_deletion)
              (subst (λ (x : Nodes S). IsValid x.lnode)
                (sym (delete_found-world d sv addr seid seq s))
                (node_delete_sess-IsValid sv.world s.rnode seid v))
      ]

  -- A handler that may end the program.
  abbrev pub IfAny : Option (Server S) → Type 0
  IfAny none = Unit {0}
  IfAny (some sv) = HasValidTable sv

  drop_remote-IfAny : (sv : Server S) (f : Found) → HasValidTable sv → IfAny (drop_remote d sv f)
  drop_remote-IfAny sv (found s) v = node_delete_sess-IsValid sv.world s.rnode s.local_id v
  drop_remote-IfAny sv missing v = v
  drop_remote-IfAny sv nil_pointer v = tt

  pub handle_report_response-IfAny :
      (sv : Server S) (addr : String) (rsp_seid req_seid : ℕ)
      → HasValidTable sv
      → IfAny (handle_report_response d sv addr rsp_seid req_seid)
  unfolding handle_report_response
  handle_report_response-IfAny sv addr rsp_seid req_seid v = elim (Bool-cases (rsp_seid == 0)) [
    | inl e ↦ rw e (drop_remote-IfAny sv (remote_sess sv.world req_seid addr) v)
    | inr e ↦ rw e v
  ]
