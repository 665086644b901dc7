-- ===== src/Pfcp/Loop.antt =====
-- internal/pfcp/pfcp.go and dispacher.go: the main loop, one event at a time.
pub mod Once
pub mod Panic
pub mod Valid
use go_upf.Base.{
  ℕ, ◌+◌, ◌*◌, Bool, true, false, Option, none, some, List, [], ◌∷◌, String, length, get_or, lookup,
  insert, ltb, ◌==◌, if◌then◌else◌, pair_eq, delete,
}
use go_upf.Report.{SessReport}
use go_upf.Forwarder.{Driver}
use go_upf.Pfcp.Server.{
  Server, Config, TrId, TxTransaction, RxTransaction, rx_again, rx_timeout, tx_timeout,
}
use go_upf.Pfcp.Session.{EstablishmentRequest, ModificationRequest}
use go_upf.Pfcp.Session.Establish.{handle_establishment}
use go_upf.Pfcp.Session.Modify.{handle_modification}
use go_upf.Pfcp.Session.Remove.{handle_deletion, handle_report_response}
use go_upf.Pfcp.Association.{AssociationRequest, handle_association_setup, handle_heartbeat}
use go_upf.Pfcp.Serve.{serve_report}

-- A message as go-pfcp parses it.
pub data Message : Type 0 where
  heartbeat : (seq : ℕ) → Message
  association_setup : AssociationRequest → Message
  association_update association_release : (seq : ℕ) → Message
  session_establishment : EstablishmentRequest → Message
  session_modification : ModificationRequest → Message
  session_deletion : (seid seq : ℕ) → Message
  other_request : (seq : ℕ) → Message
  session_report_response : (seid seq : ℕ) → Message
  other_response : (seq : ℕ) → Message
  unknown_message : (seq : ℕ) → Message

unfoldable pub sequence : Message → ℕ
sequence (heartbeat seq) = seq
sequence (association_setup req) = req.seq
sequence (association_update seq) = seq
sequence (association_release seq) = seq
sequence (session_establishment req) = req.seq
sequence (session_modification req) = req.seq
sequence (session_deletion seid seq) = seq
sequence (other_request seq) = seq
sequence (session_report_response seid seq) = seq
sequence (other_response seq) = seq
sequence (unknown_message seq) = seq

unfoldable pub is_response : Message → Bool
is_response (session_report_response seid seq) = true
is_response (other_response seq) = true
is_response _ = false

unfoldable pub is_request : Message → Bool
is_request (session_report_response seid seq) = false
is_request (other_response seq) = false
is_request (unknown_message seq) = false
is_request _ = true

-- `validatePfcpPacketLength`.
unfoldable pub valid_length : List ℕ → Bool
valid_length buf =
    if ltb (length buf) 8 then false else length buf == get_or buf 2 0 * 256 + get_or buf 3 0 + 4

pub data Event : Type 0 where
  report : SessReport → Event
  packet : (addr : String) (buf : List ℕ) → Option Message → Event
  tx_timer rx_timer : TrId → Event

module _ {S : Type 0} (d : Driver S) where
  -- `reqDispacher`.
  unfoldable pub dispatch_request : Server S → String → Message → Server S
  dispatch_request sv addr (heartbeat seq) = handle_heartbeat sv addr seq
  dispatch_request sv addr (association_setup req) = handle_association_setup d sv addr req
  dispatch_request sv addr (session_establishment req) = handle_establishment d sv addr req
  dispatch_request sv addr (session_modification req) = handle_modification d sv addr req
  dispatch_request sv addr (session_deletion seid seq) = handle_deletion d sv addr seid seq
  dispatch_request sv addr _ = sv

  -- A request: it is dispatched if no transaction of its name is open.
  unfoldable pub receive_request : Server S → String → Message → Server S
  receive_request sv addr m = elim (lookup (addr, sequence m) sv.rx_trans) [
    | none ↦
        let rx : RxTransaction = record { raddr = addr; seq = sequence m; msg_buf = none } in
        dispatch_request (record sv { rx_trans = insert (addr, sequence m) rx sv.rx_trans }) addr m
    | some rx ↦ rx_again sv rx
  ]

  -- `rspDispacher`, with the request that the transaction kept.
  abbrev pub dispatch_response : Server S → String → Message → TxTransaction → Option (Server S)
  dispatch_response sv addr (session_report_response seid seq) tx =
      handle_report_response d sv addr seid tx.req.seid
  dispatch_response sv addr _ tx = some sv

  -- A response: its transaction ends, before the response is handled.
  unfoldable pub receive_response : Server S → String → Message → Option (Server S)
  receive_response sv addr m = elim (lookup (addr, sequence m) sv.tx_trans) [
    | none ↦ some sv
    | some tx ↦
        dispatch_response (record sv { tx_trans = delete (tx.raddr, tx.seq) sv.tx_trans }) addr m tx
  ]

  abbrev receive : Server S → String → Message → Option (Server S)
  receive sv addr m =
      if is_request m
      then some (receive_request sv addr m)
      else if is_response m
      then receive_response sv addr m
      else some sv

  module _ (c : Config) (resolve : String → Option String) where
    -- One round of `main`; `none` is a panic. At an empty datagram `main` returns; here that is a round
    -- that changes nothing, so that the runs of the source are among those of the model.
    unfoldable pub step : Server S → Event → Option (Server S)
    unfolding receive_request receive_response dispatch_request sequence is_request is_response
    step sv (report sr) = some (serve_report resolve sv sr)
    step sv (packet addr buf none) = some sv
    step sv (packet addr buf (some m)) = if valid_length buf then receive sv addr m else some sv
    step sv (tx_timer id) = some (tx_timeout c sv id)
    step sv (rx_timer id) = some (rx_timeout sv id)
