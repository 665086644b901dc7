-- ===== src/Pfcp/Loop/Valid.antt =====
-- internal/pfcp/pfcp.go: the states that the server reaches, and the invariant of the table of
-- sessions.
use go_upf.Base.{
  ◌≡◌, Option, none, some, String, lookup, Option-cases, Bool-cases, inl, inr, subst, string_eq,
  pair_eq, nat_eq, ltb,
}
use go_upf.Forwarder.{Driver}
use go_upf.Pfcp.Node.Table.{IsValid}
use go_upf.Pfcp.Server.{
  Server, heartbeat_rsp, Config, TrId, TxTransaction, RxTransaction, tx_timeout, rx_timeout,
  rx_again,
}
use go_upf.Pfcp.Session.Valid.{
  HasValidTable, send_rsp_to-HasValidTable, handle_establishment-HasValidTable,
  handle_modification-HasValidTable, handle_deletion-HasValidTable, IfAny,
  handle_report_response-IfAny,
}
use go_upf.Pfcp.Serve.Valid.{serve_report-HasValidTable}
use go_upf.Pfcp.Association.{
  AssociationRequest, new_node, forget_node, handle_association_setup, handle_heartbeat,
}
use go_upf.Pfcp.Association.Restart.{forget_node-Ended}
use go_upf.Pfcp.Loop.{
  Message, heartbeat, association_setup, association_update, association_release,
  session_establishment, session_modification, session_deletion, other_request,
  session_report_response, other_response, unknown_message, sequence, is_request, is_response,
  valid_length, Event, report, packet, tx_timer, rx_timer, dispatch_request, receive_request,
  receive_response, dispatch_response, receive, step,
}

module _ {S : Type 0} (d : Driver S) where
  handle_association_setup-HasValidTable :
      (sv : Server S) (addr : String) (req : AssociationRequest)
      → HasValidTable d sv
      → HasValidTable d (handle_association_setup d sv addr req)
  unfolding handle_association_setup new_node
  handle_association_setup-HasValidTable sv addr req v = elim (Option-cases req.node_id) [
    | inl e ↦ rw (e, handle_association_setup) v
    | inr (none, e) ↦ rw (e, handle_association_setup) v
    | inr (some id, e) ↦ elim (Bool-cases (string_eq.beq id "")) [
      | inl b ↦ rw (e, handle_association_setup) (rw b v)
      | inr b ↦ elim (Option-cases req.recovery) [
        | inl r ↦ rw (e, handle_association_setup) (rw b (rw r v))
        | inr (none, r) ↦ rw (e, handle_association_setup) (rw b (rw r v))
        | inr (some t, r) ↦
            rw (e, handle_association_setup)
              (rw b (
                rw r (
                  send_rsp_to-HasValidTable d (new_node d (forget_node d sv id) id addr) _ addr
                    (forget_node-Ended d sv id v).0)))
      ]
    ]
  ]

  dispatch_request-HasValidTable :
      (sv : Server S) (addr : String) (m : Message)
      → HasValidTable d sv
      → HasValidTable d (dispatch_request d sv addr m)
  unfolding dispatch_request handle_heartbeat
  dispatch_request-HasValidTable sv addr (heartbeat seq) v =
      send_rsp_to-HasValidTable d sv (heartbeat_rsp seq) addr v
  dispatch_request-HasValidTable sv addr (association_setup req) v =
      handle_association_setup-HasValidTable sv addr req v
  dispatch_request-HasValidTable sv addr (session_establishment req) v =
      handle_establishment-HasValidTable d sv addr req v
  dispatch_request-HasValidTable sv addr (session_modification req) v =
      handle_modification-HasValidTable d sv addr req v
  dispatch_request-HasValidTable sv addr (session_deletion seid seq) v =
      handle_deletion-HasValidTable d sv addr seid seq v
  dispatch_request-HasValidTable sv addr (association_update seq) v = v
  dispatch_request-HasValidTable sv addr (association_release seq) v = v
  dispatch_request-HasValidTable sv addr (other_request seq) v = v
  dispatch_request-HasValidTable sv addr (session_report_response seid seq) v = v
  dispatch_request-HasValidTable sv addr (other_response seq) v = v
  dispatch_request-HasValidTable sv addr (unknown_message seq) v = v

  rx_again-HasValidTable :
      (sv : Server S) (rx : RxTransaction) → HasValidTable d sv → HasValidTable d (rx_again sv rx)
  rx_again-HasValidTable sv rx v = elim (Option-cases rx.msg_buf) [
    | inl e ↦ rw (e, rx_again) v
    | inr (b, e) ↦ rw (e, rx_again) v
  ]

  receive_request-HasValidTable :
      (sv : Server S) (addr : String) (m : Message)
      → HasValidTable d sv
      → HasValidTable d (receive_request d sv addr m)
  unfolding receive_request
  receive_request-HasValidTable sv addr m v =
      elim (Option-cases (lookup (addr, sequence m) sv.rx_trans)) [
        | inl e ↦ rw (e, receive_request) (dispatch_request-HasValidTable _ addr m v)
        | inr (rx, e) ↦ rw (e, receive_request) (rx_again-HasValidTable sv rx v)
      ]

  dispatch_response-IfAny :
      (sv : Server S) (addr : String) (m : Message) (tx : TxTransaction)
      → HasValidTable d sv
      → IfAny d (dispatch_response d sv addr m tx)
  dispatch_response-IfAny sv addr (session_report_response seid seq) tx v =
      handle_report_response-IfAny d sv addr seid tx.req.seid v
  dispatch_response-IfAny sv addr (heartbeat seq) tx v = v
  dispatch_response-IfAny sv addr (association_setup req) tx v = v
  dispatch_response-IfAny sv addr (session_establishment req) tx v = v
  dispatch_response-IfAny sv addr (session_modification req) tx v = v
  dispatch_response-IfAny sv addr (session_deletion seid seq) tx v = v
  dispatch_response-IfAny sv addr (association_update seq) tx v = v
  dispatch_response-IfAny sv addr (association_release seq) tx v = v
  dispatch_response-IfAny sv addr (other_request seq) tx v = v
  dispatch_response-IfAny sv addr (other_response seq) tx v = v
  dispatch_response-IfAny sv addr (unknown_message seq) tx v = v

  receive_response-IfAny :
      (sv : Server S) (addr : String) (m : Message)
      → HasValidTable d sv
      → IfAny d (receive_response d sv addr m)
  unfolding receive_response
  receive_response-IfAny sv addr m v = elim (Option-cases (lookup (addr, sequence m) sv.tx_trans)) [
    | inl e ↦ rw (e, receive_response) v
    | inr (tx, e) ↦ rw (e, receive_response) (dispatch_response-IfAny _ addr m tx v)
  ]

  receive-IfAny :
      (sv : Server S) (addr : String) (m : Message)
      → HasValidTable d sv
      → IfAny d (receive d sv addr m)
  receive-IfAny sv addr m v = elim (Bool-cases (is_request m)) [
    | inl e ↦ rw e (receive_request-HasValidTable sv addr m v)
    | inr e ↦ elim (Bool-cases (is_response m)) [
      | inl f ↦ rw e (rw f (receive_response-IfAny sv addr m v))
      | inr f ↦ rw e (rw f v)
    ]
  ]

  rx_timeout-HasValidTable :
      (sv : Server S) (id : TrId) → HasValidTable d sv → HasValidTable d (rx_timeout sv id)
  unfolding rx_timeout
  rx_timeout-HasValidTable sv id v = elim (Option-cases (lookup id sv.rx_trans)) [
    | inl e ↦ rw (e, rx_timeout) v
    | inr (rx, e) ↦ rw (e, rx_timeout) v
  ]

  module _ (c : Config) (resolve : String → Option String) where
    tx_timeout-HasValidTable :
        (sv : Server S) (id : TrId) → HasValidTable d sv → HasValidTable d (tx_timeout c sv id)
    unfolding tx_timeout
    tx_timeout-HasValidTable sv id v = elim (Option-cases (lookup id sv.tx_trans)) [
      | inl e ↦ rw (e, tx_timeout) v
      | inr (tx, e) ↦ elim (Bool-cases (ltb tx.retrans_count c.max_retrans)) [
        | inl k ↦ rw (e, tx_timeout) (rw k v)
        | inr k ↦ rw (e, tx_timeout) (rw k v)
      ]
    ]

    step-IfAny :
        (sv : Server S) (ev : Event) → HasValidTable d sv → IfAny d (step d c resolve sv ev)
    unfolding step
    step-IfAny sv (report sr) v = serve_report-HasValidTable d resolve sv sr v
    step-IfAny sv (packet addr buf none) v = v
    step-IfAny sv (packet addr buf (some m)) v = elim (Bool-cases (valid_length buf)) [
      | inl e ↦ rw e (receive-IfAny sv addr m v)
      | inr e ↦ rw e v
    ]
    step-IfAny sv (tx_timer id) v = tx_timeout-HasValidTable sv id v
    step-IfAny sv (rx_timer id) v = rx_timeout-HasValidTable sv id v

    -- The server gets from one state to another by events, one after the other.
    pub data Reaches (sv : Server S) : Server S → Type 0 where
      at_start : Reaches sv sv
      after :
          (b : Server S) (ev : Event) (e : Server S)
          → Reaches sv b
          → step d c resolve b ev ≡ some e
          → Reaches sv e

    -- Whatever packets, reports and expiries of timers come, and in whatever order, the table of
    -- sessions stays well formed in every state that the server reaches.
    pub Reaches-IsValid :
        (sv sv' : Server S) → Reaches sv sv' → IsValid sv.world.lnode → IsValid sv'.world.lnode
    Reaches-IsValid sv sv' at_start v = v
    Reaches-IsValid sv sv' (after b ev e r h) v =
        subst (IfAny d) h (step-IfAny b ev (Reaches-IsValid sv b r v))
