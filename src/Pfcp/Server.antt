-- ===== src/Pfcp/Server.antt =====
-- internal/pfcp/pfcp.go and transaction.go: the state of the PFCP server and its transactions. The
-- text `addr-seq` that names a transaction is the pair of the two: what follows its last dash is the
-- decimal number. Timers are not part of the state: an expiry is an event. A failed write is only
-- logged, so `sent` lists the writes that were tried, the latest first.
pub mod Retransmit
use go_upf.Base.{
  ℕ, suc, ◌+◌, ◌%◌, ◌^◌, Bool, true, false, Option, none, some, List, [], ◌∷◌, String, Assoc,
  lookup, insert, delete, ltb, if◌then◌else◌, pair_eq,
}
use go_upf.Report.{UsageIe}
use go_upf.Pfcp.Node.{Nodes}

pub data Cause : Type 0 where
  request_accepted session_context_not_found : Cause

-- The responses that the server sends, by the fields that its code fills in.
pub data Response : Type 0 where
  heartbeat_rsp : (seq : ℕ) → Response
  association_setup_rsp : (seq : ℕ) → Response
  establishment_rsp : (seid seq local_seid : ℕ) (created : List (ℕ × String)) → Response
  modification_rsp : (seid seq : ℕ) → Cause → List (List UsageIe) → Response
  deletion_rsp : (seid seq : ℕ) → Cause → List (List UsageIe) → Response

abbrev pub response_seq : Response → ℕ
response_seq (heartbeat_rsp seq) = seq
response_seq (association_setup_rsp seq) = seq
response_seq (establishment_rsp seid seq local_seid created) = seq
response_seq (modification_rsp seid seq cause us) = seq
response_seq (deletion_rsp seid seq cause us) = seq

pub data ReportBody : Type 0 where
  downlink_data : (pdrid : ℕ) → ReportBody
  usage : List (List UsageIe) → ReportBody

-- A Session Report Request, the only request that the server sends.
pub record ReportRequest : Type 0 where
  pub seid : ℕ  -- the remote SEID
  pub body : ReportBody

pub data Payload : Type 0 where
  response : Response → Payload
  request : (seq : ℕ) → ReportRequest → Payload

abbrev pub TrId : Type 0
TrId = String × ℕ

pub record TxTransaction : Type 0 where
  pub raddr : String
  pub seq : ℕ
  pub req : ReportRequest
  pub retrans_count : ℕ  -- uint8

pub record RxTransaction : Type 0 where
  pub raddr : String
  pub seq : ℕ
  pub msg_buf : Option Response  -- none where len(rx.msgBuf) == 0

pub record Config : Type 0 where
  pub max_retrans : ℕ  -- uint8
  pub node_id : String

pub record Server (S : Type 0) : Type 0 where
  pub world : Nodes S
  pub rnodes : Assoc String ℕ
  pub tx_trans : Assoc TrId TxTransaction
  pub rx_trans : Assoc TrId RxTransaction
  pub tx_seq : ℕ  -- uint32
  pub sent : List (String × Payload)

module _ {S : Type 0} where
  abbrev pub write : Server S → String → Payload → Server S
  write sv addr p = record sv { sent = (addr, p) ∷ sv.sent }

  -- `sendReqTo` with `NewTxTransaction` and `TxTransaction.send`, for a request that marshals.
  unfoldable pub send_req_to : Server S → ReportRequest → String → Server S
  send_req_to sv req addr =
      let tx : TxTransaction = record {
        raddr = addr;
        seq = sv.tx_seq;
        req = req;
        retrans_count = 0;
      } in
      write
        (record sv {
          tx_seq = (sv.tx_seq + 1) % 2 ^ 32;
          tx_trans = insert (addr, sv.tx_seq) tx sv.tx_trans;
        })
        addr (request sv.tx_seq req)

  -- `sendRspTo` with `RxTransaction.send`.
  unfoldable pub send_rsp_to : Server S → Response → String → Server S
  send_rsp_to sv rsp addr = elim (lookup (addr, response_seq rsp) sv.rx_trans) [
    | none ↦ sv
    | some rx ↦
        write
          (record sv {
            rx_trans =
                insert (addr, response_seq rsp) (record rx { msg_buf = some rsp }) sv.rx_trans;
          })
          addr (response rsp)
  ]

  -- `RxTransaction.recv` of a request whose transaction is there: nothing is dispatched, and the
  -- response is sent again if there is one.
  abbrev pub rx_again : Server S → RxTransaction → Server S
  rx_again sv rx = elim rx.msg_buf [ none ↦ sv | some rsp ↦ write sv rx.raddr (response rsp) ]

  -- `RxTransaction.handleTimeout`, found by its name.
  unfoldable pub rx_timeout : Server S → TrId → Server S
  rx_timeout sv id = elim (lookup id sv.rx_trans) [
    | none ↦ sv
    | some rx ↦ record sv { rx_trans = delete (rx.raddr, rx.seq) sv.rx_trans }
  ]

  -- `TxTransaction.handleTimeout`; the handler of the last timeout, a Session Report Request's, only
  -- logs.
  abbrev pub tx_expired : Config → Server S → TxTransaction → Server S
  tx_expired c sv tx =
      if ltb tx.retrans_count c.max_retrans
      then write
          (record sv {
            tx_trans =
                insert (tx.raddr, tx.seq)
                  (record tx { retrans_count = (tx.retrans_count + 1) % 256 }) sv.tx_trans;
          })
          tx.raddr (request tx.seq tx.req)
      else record sv { tx_trans = delete (tx.raddr, tx.seq) sv.tx_trans }

  unfoldable pub tx_timeout : Config → Server S → TrId → Server S
  tx_timeout c sv id = elim (lookup id sv.tx_trans) [ none ↦ sv | some tx ↦ tx_expired c sv tx ]
