-- ===== src/Pfcp/Server/Retransmit.antt =====
-- internal/pfcp/transaction.go: a request whose timer expires again and again.
use go_upf.Base.{
  ℕ, zero, suc, ◌+◌, ◌%◌, ◌≤◌, ◌<◌, ◌≡◌, refl, ap, ◌∙◌, true, false, none, some, List, ◌∷◌, arith,
  String, lookup, lookup-insert_self, lookup-delete_self, ltb, pair_eq,
}
use go_upf.Pfcp.Server.{
  Server, Config, TrId, TxTransaction, Payload, request, tx_timeout, send_req_to, ReportRequest,
}

-- The same datagram, written a number of times.
abbrev pub copies : ℕ → String × Payload → List (String × Payload) → List (String × Payload)
copies zero m sent = sent
copies (suc k) m sent = copies k m (m ∷ sent)

module _ {S : Type 0} (c : Config) where
  -- Expiries of the timer of one transaction, with nothing between them.
  abbrev pub tx_timeouts : ℕ → Server S → TrId → Server S
  tx_timeouts zero sv id = sv
  tx_timeouts (suc k) sv id = tx_timeouts k (tx_timeout c sv id) id

  -- The next expiry of a transaction that may be sent again.
  tx_timeout-again :
      (sv : Server S) (tx : TxTransaction)
      → lookup (tx.raddr, tx.seq) sv.tx_trans ≡ some tx
      → tx.retrans_count < c.max_retrans
      → c.max_retrans < 256
      → let sv' = tx_timeout c sv (tx.raddr, tx.seq) in
        (lookup (tx.raddr, tx.seq) sv'.tx_trans
          ≡ some (record tx { retrans_count = tx.retrans_count + 1 }))
        × (sv'.sent ≡ (tx.raddr, request tx.seq tx.req) ∷ sv.sent)
  unfolding tx_timeout
  tx_timeout-again sv tx e room wide =
      rw (e, tx_timeout) (rw test (rw small (lookup-insert_self _ _ sv.tx_trans, refl)))
    where
      test : ltb tx.retrans_count c.max_retrans ≡ true
      test = ground arith

      small : (tx.retrans_count + 1) % 256 ≡ tx.retrans_count + 1
      small = omega arith

  tx_timeout-last :
      (sv : Server S) (tx : TxTransaction)
      → lookup (tx.raddr, tx.seq) sv.tx_trans ≡ some tx
      → c.max_retrans ≤ tx.retrans_count
      → let sv' = tx_timeout c sv (tx.raddr, tx.seq) in
        (lookup (tx.raddr, tx.seq) sv'.tx_trans ≡ none) × (sv'.sent ≡ sv.sent)
  unfolding tx_timeout
  tx_timeout-last sv tx e full =
      rw (e, tx_timeout) (rw test (lookup-delete_self _ sv.tx_trans, refl))
    where
      test : ltb tx.retrans_count c.max_retrans ≡ false
      test = ground arith

  -- After `k` more expiries than it has been sent again, up to the maximum.
  tx_timeouts-again :
      (k : ℕ) (sv : Server S) (tx : TxTransaction)
      → lookup (tx.raddr, tx.seq) sv.tx_trans ≡ some tx
      → tx.retrans_count + k ≤ c.max_retrans
      → c.max_retrans < 256
      → let sv' = tx_timeouts k sv (tx.raddr, tx.seq) in
        (lookup (tx.raddr, tx.seq) sv'.tx_trans
          ≡ some (record tx { retrans_count = tx.retrans_count + k }))
        × (sv'.sent ≡ copies k (tx.raddr, request tx.seq tx.req) sv.sent)
  tx_timeouts-again zero sv tx e room wide =
      (e ∙ ap (λ n. some (record tx { retrans_count = n })) (omega arith), refl)
  tx_timeouts-again (suc k) sv tx e room wide =
      let (found, sent) = tx_timeout-again sv tx e (omega arith) wide in
      let tx' : TxTransaction = record tx { retrans_count = tx.retrans_count + 1 } in
      let (found', sent') =
        tx_timeouts-again k (tx_timeout c sv (tx.raddr, tx.seq)) tx' found (omega arith) wide in
      (
        found' ∙ ap (λ n. some (record tx { retrans_count = n })) (omega arith),
        sent' ∙ ap (copies k (tx.raddr, request tx.seq tx.req)) sent,
      )

  tx_timeouts-suc :
      (k : ℕ) (sv : Server S) (id : TrId)
      → tx_timeouts (suc k) sv id ≡ tx_timeout c (tx_timeouts k sv id) id
  tx_timeouts-suc zero sv id = refl
  tx_timeouts-suc (suc k) sv id = tx_timeouts-suc k (tx_timeout c sv id) id

  -- The request as it is first sent.
  send_req_to-lem :
      (sv : Server S) (req : ReportRequest) (addr : String)
      → (lookup (addr, sv.tx_seq) (send_req_to sv req addr).tx_trans
          ≡ some (record { raddr = addr; seq = sv.tx_seq; req = req; retrans_count = 0 }))
        × ((send_req_to sv req addr).sent ≡ (addr, request sv.tx_seq req) ∷ sv.sent)
  unfolding send_req_to
  send_req_to-lem sv req addr = (lookup-insert_self (addr, sv.tx_seq) _ sv.tx_trans, refl)

  -- A request that is sent and never answered is written once, and once more at each of the first
  -- `max_retrans` expiries of its timer, its transaction open all the time; the next expiry writes
  -- nothing and ends the transaction. (`max_retrans` is a uint8.)
  pub send_req_to-tx_timeouts :
      (sv : Server S) (req : ReportRequest) (addr : String)
      → c.max_retrans < 256
      → let id : TrId = (addr, sv.tx_seq) in
        let sv1 = send_req_to sv req addr in
        let last = tx_timeouts (suc c.max_retrans) sv1 id in
        ((k : ℕ)
          → k ≤ c.max_retrans
          → let svk = tx_timeouts k sv1 id in
            (lookup id svk.tx_trans
              ≡ some (record { raddr = addr; seq = sv.tx_seq; req = req; retrans_count = k }))
            × (svk.sent ≡ copies (suc k) (addr, request sv.tx_seq req) sv.sent))
        × (lookup id last.tx_trans ≡ none)
        × (last.sent ≡ copies (suc c.max_retrans) (addr, request sv.tx_seq req) sv.sent)
  send_req_to-tx_timeouts sv req addr wide = (open_until, closed.0, closed.1)
    where
      sv1 : Server S
      sv1 = send_req_to sv req addr

      id : TrId
      id = (addr, sv.tx_seq)

      tx : ℕ → TxTransaction
      tx n = record { raddr = addr; seq = sv.tx_seq; req = req; retrans_count = n }

      open_until :
          (k : ℕ)
          → k ≤ c.max_retrans
          → (lookup id (tx_timeouts k sv1 id).tx_trans ≡ some (tx k))
            × ((tx_timeouts k sv1 id).sent ≡ copies (suc k) (addr, request sv.tx_seq req) sv.sent)
      open_until k h =
          let (found, sent) = send_req_to-lem sv req addr in
          let (found', sent') = tx_timeouts-again k sv1 (tx 0) found (omega arith) wide in
          (
            found' ∙ ap (λ n. some (tx n)) (omega arith),
            sent' ∙ ap (copies k (addr, request sv.tx_seq req)) sent,
          )

      closed :
          (lookup id (tx_timeouts (suc c.max_retrans) sv1 id).tx_trans ≡ none)
          × ((tx_timeouts (suc c.max_retrans) sv1 id).sent
              ≡ copies (suc c.max_retrans) (addr, request sv.tx_seq req) sv.sent)
      closed =
          let (found, sent) = open_until c.max_retrans (omega arith) in
          let (gone, same) =
            tx_timeout-last (tx_timeouts c.max_retrans sv1 id) (tx c.max_retrans) found
              (omega arith) in
          rw (tx_timeouts-suc c.max_retrans sv1 id) (gone, same ∙ sent)
