-- ===== src/Pfcp/Session/Established.antt =====
-- internal/pfcp/session.go: the state that Session Establishment leaves.
use go_upf.Base.{
  ℕ, ◌≡◌, refl, sym, ap, ◌∙◌, some, ◌∷◌, String, lookup, string_eq, pair_eq, nat_eq, subst,
}
use go_upf.Forwarder.{Driver}
use go_upf.Pfcp.Sess.{Sess}
use go_upf.Pfcp.Node.{Nodes, node_new_sess, local_new_sess, buffq_len}
use go_upf.Pfcp.Node.Table.{IsValid, Entered, local_new_sess-Entered}
use go_upf.Pfcp.Node.TableInvariant.{local_new_sess-IsValid}
use go_upf.Pfcp.Node.Store.{Entered-store}
use go_upf.Pfcp.Server.{
  Server, RxTransaction, establishment_rsp, send_rsp_to, response, Response, response_seq,
}
use go_upf.Pfcp.Session.{EstablishmentRequest, created_pdrs}
use go_upf.Pfcp.Session.Names.{install-SameName, local_new_sess-names}
use go_upf.Pfcp.Session.Establish.{store, install, establish, handle_establishment}

module _ {S : Type 0} (d : Driver S) where
  send_rsp_to-sent :
      (sv : Server S) (rsp : Response) (addr : String) (rx : RxTransaction)
      → lookup (addr, response_seq rsp) sv.rx_trans ≡ some rx
      → ((send_rsp_to sv rsp addr).sent ≡ (addr, response rsp) ∷ sv.sent)
        × ((send_rsp_to sv rsp addr).world ≡ sv.world)
  unfolding send_rsp_to
  send_rsp_to-sent sv rsp addr rx e = rw (e, send_rsp_to) (refl, refl)

  -- The session that a request leaves, and the answer to it.
  abbrev pub Established :
      Server S → Server S → String → ℕ → ℕ → EstablishmentRequest → Sess → Type 0
  Established sv sv' addr p fseid req s =
      Entered sv.world.lnode sv'.world.lnode s
      × IsValid sv'.world.lnode
      × (s.remote_id ≡ fseid)
      × (s.rnode ≡ p)
      × (s
          ≡ (install d req
              ((local_new_sess sv.world.lnode p fseid buffq_len).0, sv.world.driver)).0)
      × (sv'.sent
          ≡ (
            addr,
            response (establishment_rsp fseid req.seq s.local_id (created_pdrs req.create_pdrs)),
          )
            ∷ sv.sent)

  establish-Established :
      (sv : Server S) (addr : String) (req : EstablishmentRequest) (p fseid : ℕ)
      (rx : RxTransaction)
      → IsValid sv.world.lnode
      → lookup (addr, req.seq) sv.rx_trans ≡ some rx
      → (s : Sess) × Established sv (establish d sv addr p fseid req) addr p fseid req s
  unfolding establish node_new_sess
  establish-Established sv addr req p fseid rx v e =
      let (s0, n) = local_new_sess sv.world.lnode p fseid buffq_len in
      let (s, st) = install d req (s0, sv.world.driver) in
      let names = install-SameName d req s0 sv.world.driver in
      let (entered, valid) =
        Entered-store sv.world.lnode n s0 s
          (local_new_sess-Entered sv.world.lnode p fseid buffq_len v)
          (local_new_sess-IsValid sv.world.lnode p fseid buffq_len v) names.0 in
      let w : Nodes S = (node_new_sess sv.world p fseid).1 in
      let sv1 : Server S = record sv { world = store w (s, st) } in
      let rsp = establishment_rsp s.remote_id req.seq s.local_id (created_pdrs req.create_pdrs) in
      let (sent, same) = send_rsp_to-sent sv1 rsp addr rx e in
      let (remote, node) = local_new_sess-names sv.world.lnode p fseid buffq_len in
      let named : s.remote_id ≡ fseid = names.1 ∙ remote in
      let kept =
        subst (λ (x : Nodes S). Entered sv.world.lnode x.lnode s × IsValid x.lnode) (sym same)
          (entered, valid) in
      (
        s,
        (
          kept.0,
          kept.1,
          named,
          names.2 ∙ node,
          refl,
          sent
              ∙ ap
                  (λ r.
                    (
                      addr,
                      response
                          (establishment_rsp r req.seq s.local_id (created_pdrs req.create_pdrs)),
                    )
                    ∷ sv.sent)
                  named,
        ),
      )

  -- A Session Establishment Request from an associated node, with a CP F-SEID that decodes, while
  -- its transaction is open: there is one more session, under an identifier that no session had, it
  -- is the fresh session with the request's rules applied in order, it has the control plane's SEID
  -- and the node, and the answer carries both identifiers and the created PDRs. Every other
  -- identifier gives what it gave, and the table stays well formed.
  pub handle_establishment-Established :
      (sv : Server S) (addr : String) (req : EstablishmentRequest) (id : String) (p fseid : ℕ)
      (rx : RxTransaction)
      → IsValid sv.world.lnode
      → req.node_id ≡ some (some id)
      → lookup id sv.rnodes ≡ some p
      → req.cp_fseid ≡ some (some fseid)
      → lookup (addr, req.seq) sv.rx_trans ≡ some rx
      → (s : Sess) × Established sv (handle_establishment d sv addr req) addr p fseid req s
  unfolding handle_establishment establish
  handle_establishment-Established sv addr req id p fseid rx v a b c e =
      rw (a, handle_establishment) (rw b (rw c (establish-Established sv addr req p fseid rx v e)))
