-- ===== src/Pfcp/Loop/Once.antt =====
-- internal/pfcp/pfcp.go: a request that comes again while its transaction is open.
use go_upf.Base.{
  ℕ, ◌≡◌, ap, true, false, none, some, ◌∷◌, String, lookup, lookup-insert, lookup-insert_self,
  Bool-cases, Option-cases, inl, inr, is_some, pair_eq, string_eq, get_elem?, arith,
}
use go_upf.Forwarder.{Driver}
use go_upf.Pfcp.Node.{local_sess}
use go_upf.Pfcp.Server.{
  Server, TrId, RxTransaction, Response, response, response_seq, send_rsp_to, rx_again,
}
use go_upf.Pfcp.Session.{EstablishmentRequest, ModificationRequest}
use go_upf.Pfcp.Session.Establish.{handle_establishment}
use go_upf.Pfcp.Session.Modify.{handle_modification, update_node_id}
use go_upf.Pfcp.Session.Remove.{handle_deletion}
use go_upf.Pfcp.Association.{
  AssociationRequest, handle_association_setup, handle_heartbeat, forget_node,
}
use go_upf.Pfcp.Loop.{
  Message, heartbeat, association_setup, session_establishment, session_modification,
  session_deletion, sequence, dispatch_request, receive_request,
}

module _ {S : Type 0} where
  abbrev pub IsOpen : Server S → TrId → Type 0
  IsOpen sv id = is_some (lookup id sv.rx_trans) ≡ true

  send_rsp_to-IsOpen :
      (sv : Server S) (rsp : Response) (addr : String) (id : TrId)
      → IsOpen sv id
      → IsOpen (send_rsp_to sv rsp addr) id
  unfolding send_rsp_to
  send_rsp_to-IsOpen sv rsp addr id h =
      elim (Option-cases (lookup (addr, response_seq rsp) sv.rx_trans)) [
        | inl e ↦ rw (e, send_rsp_to) h
        | inr (rx, e) ↦
            rw (e, send_rsp_to)
              (ground (
                arith,
                lookup-insert (addr, response_seq rsp) id (record rx { msg_buf = some rsp })
                    sv.rx_trans,
                h,
              ))
      ]

  update_node_id-IsOpen :
      (sv : Server S) (p : ℕ) (name : String) (id : TrId)
      → IsOpen sv id
      → IsOpen (update_node_id sv p name) id
  unfolding update_node_id
  update_node_id-IsOpen sv p name id h = elim (Option-cases (get_elem? sv.world.nodes p)) [
    | inl e ↦ rw (e, update_node_id) h
    | inr (n, e) ↦ rw (e, update_node_id) h
  ]

  module _ (d : Driver S) where
    handle_establishment-IsOpen :
        (sv : Server S) (addr : String) (req : EstablishmentRequest) (id : TrId)
        → IsOpen sv id
        → IsOpen (handle_establishment d sv addr req) id
    unfolding handle_establishment
    handle_establishment-IsOpen sv addr req id h = elim (Option-cases req.node_id) [
      | inl e ↦ rw (e, handle_establishment) h
      | inr (none, e) ↦ rw (e, handle_establishment) h
      | inr (some name, e) ↦ elim (Option-cases (lookup name sv.rnodes)) [
        | inl m ↦ rw (e, handle_establishment) (rw m h)
        | inr (p, m) ↦ elim (Option-cases req.cp_fseid) [
          | inl f ↦ rw (e, handle_establishment) (rw m (rw f h))
          | inr (none, f) ↦ rw (e, handle_establishment) (rw m (rw f h))
          | inr (some fseid, f) ↦
              rw (e, handle_establishment) (rw m (rw f (send_rsp_to-IsOpen _ _ addr id h)))
        ]
      ]
    ]

    handle_modification-IsOpen :
        (sv : Server S) (addr : String) (req : ModificationRequest) (id : TrId)
        → IsOpen sv id
        → IsOpen (handle_modification d sv addr req) id
    unfolding handle_modification
    handle_modification-IsOpen sv addr req id h =
        elim (Option-cases (local_sess sv.world.lnode req.seid)) [
          | inl e ↦ rw (e, handle_modification) (send_rsp_to-IsOpen sv _ addr id h)
          | inr (s, e) ↦ elim (Option-cases req.node_id) [
            | inl m ↦ rw (e, handle_modification) (rw m (send_rsp_to-IsOpen _ _ addr id h))
            | inr (none, m) ↦ rw (e, handle_modification) (rw m h)
            | inr (some name, m) ↦
                rw (e, handle_modification)
                  (rw m
                    (send_rsp_to-IsOpen _ _ addr id (update_node_id-IsOpen sv s.rnode name id h)))
          ]
        ]

    handle_deletion-IsOpen :
        (sv : Server S) (addr : String) (seid seq : ℕ) (id : TrId)
        → IsOpen sv id
        → IsOpen (handle_deletion d sv addr seid seq) id
    unfolding handle_deletion
    handle_deletion-IsOpen sv addr seid seq id h =
        elim (Option-cases (local_sess sv.world.lnode seid)) [
          | inl e ↦ rw (e, handle_deletion) (send_rsp_to-IsOpen sv _ addr id h)
          | inr (s, e) ↦ rw (e, handle_deletion) (send_rsp_to-IsOpen _ _ addr id h)
        ]

    forget_node-IsOpen :
        (sv : Server S) (name : String) (id : TrId)
        → IsOpen sv id
        → IsOpen (forget_node d sv name) id
    unfolding forget_node
    forget_node-IsOpen sv name id h = elim (Option-cases (lookup name sv.rnodes)) [
      | inl e ↦ rw (e, forget_node) h
      | inr (p, e) ↦ rw (e, forget_node) h
    ]

    handle_association_setup-IsOpen :
        (sv : Server S) (addr : String) (req : AssociationRequest) (id : TrId)
        → IsOpen sv id
        → IsOpen (handle_association_setup d sv addr req) id
    unfolding handle_association_setup
    handle_association_setup-IsOpen sv addr req id h = elim (Option-cases req.node_id) [
      | inl e ↦ rw (e, handle_association_setup) h
      | inr (none, e) ↦ rw (e, handle_association_setup) h
      | inr (some name, e) ↦ elim (Bool-cases (string_eq.beq name "")) [
        | inl b ↦ rw (e, handle_association_setup) (rw b h)
        | inr b ↦ elim (Option-cases req.recovery) [
          | inl f ↦ rw (e, handle_association_setup) (rw b (rw f h))
          | inr (none, f) ↦ rw (e, handle_association_setup) (rw b (rw f h))
          | inr (some t, f) ↦
              rw (e, handle_association_setup)
                (rw b (rw f (send_rsp_to-IsOpen _ _ addr id (forget_node-IsOpen sv name id h))))
        ]
      ]
    ]

    dispatch_request-IsOpen :
        (sv : Server S) (addr : String) (m : Message) (id : TrId)
        → IsOpen sv id
        → IsOpen (dispatch_request d sv addr m) id
    unfolding dispatch_request handle_heartbeat
    dispatch_request-IsOpen sv addr (heartbeat seq) id h = send_rsp_to-IsOpen sv _ addr id h
    dispatch_request-IsOpen sv addr (association_setup req) id h =
        handle_association_setup-IsOpen sv addr req id h
    dispatch_request-IsOpen sv addr (session_establishment req) id h =
        handle_establishment-IsOpen sv addr req id h
    dispatch_request-IsOpen sv addr (session_modification req) id h =
        handle_modification-IsOpen sv addr req id h
    dispatch_request-IsOpen sv addr (session_deletion seid seq) id h =
        handle_deletion-IsOpen sv addr seid seq id h
    dispatch_request-IsOpen sv addr _ id h = h

    -- What a request that was received before may change: the response that its transaction keeps,
    -- if there is one, is written once more.
    abbrev pub Resent : Server S → Server S → TrId → Type 0
    Resent sv sv' id =
        (rx : RxTransaction) × (lookup id sv.rx_trans ≡ some rx)
        × (sv' ≡ record sv {
          sent = elim rx.msg_buf [ none ↦ sv.sent | some rsp ↦ (rx.raddr, response rsp) ∷ sv.sent ];
        })

    receive_request-Resent :
        (sv : Server S) (addr : String) (m : Message)
        → IsOpen sv (addr, sequence m)
        → Resent sv (receive_request d sv addr m) (addr, sequence m)
    unfolding receive_request
    receive_request-Resent sv addr m h =
        elim (Option-cases (lookup (addr, sequence m) sv.rx_trans)) [
          | inl e ↦ let bad : false ≡ true = rw e at h in cc
          | inr (rx, e) ↦ (rx, e, rw (e, receive_request) (again rx))
        ]
      where
        again :
            (rx : RxTransaction)
            → rx_again sv rx ≡ record sv {
              sent = elim rx.msg_buf [
                | none ↦ sv.sent
                | some rsp ↦ (rx.raddr, response rsp) ∷ sv.sent
              ];
            }
        again rx = ground arith

    receive_request-IsOpen :
        (sv : Server S) (addr : String) (m : Message)
        → IsOpen (receive_request d sv addr m) (addr, sequence m)
    unfolding receive_request
    receive_request-IsOpen sv addr m = elim (Option-cases (lookup (addr, sequence m) sv.rx_trans)) [
      | inl e ↦
          rw (e, receive_request)
            (dispatch_request-IsOpen _ addr m (addr, sequence m)
              (ap is_some (lookup-insert_self (addr, sequence m) _ sv.rx_trans)))
      | inr (rx, e) ↦ rw (e, receive_request) (still rx e)
    ]
      where
        still :
            (rx : RxTransaction)
            → lookup (addr, sequence m) sv.rx_trans ≡ some rx
            → IsOpen (rx_again sv rx) (addr, sequence m)
        still rx e = elim (Option-cases rx.msg_buf) [
          | inl b ↦ rw (b, rx_again) (ap is_some e)
          | inr (rsp, b) ↦ rw (b, rx_again) (ap is_some e)
        ]

    -- A request that comes twice from one address, under one sequence number, is carried out once:
    -- after the first copy its transaction is open, and the second changes neither the sessions nor
    -- the nodes, the transactions or the driver, but only writes the kept response again.
    pub receive_request_twice :
        (sv : Server S) (addr : String) (m : Message)
        → let sv1 = receive_request d sv addr m in
          Resent sv1 (receive_request d sv1 addr m) (addr, sequence m)
    receive_request_twice sv addr m =
        receive_request-Resent (receive_request d sv addr m) addr m
          (receive_request-IsOpen sv addr m)
