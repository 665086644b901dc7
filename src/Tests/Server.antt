-- ===== src/Tests/Server.antt =====
-- The server on concrete input.
use go_upf.Base.{
  ℕ, suc, ◌≡◌, ◌≤◌, refl, arith, none, some, [], ◌∷◌, String, lookup, pair_eq, string_eq, nat_eq,
}
use go_upf.Forwarder.{empty_driver}
use go_upf.Pfcp.Node.{remote_sess_in}
use go_upf.Pfcp.Association.{handle_heartbeat}
use go_upf.Pfcp.Server.{
  Server, Config, ReportRequest, downlink_data, request, send_req_to, send_rsp_to, heartbeat_rsp,
  response,
}
use go_upf.Pfcp.Server.Retransmit.{copies, tx_timeouts, send_req_to-tx_timeouts}
use go_upf.Pfcp.Loop.{
  heartbeat, session_report_response, receive_request, receive_response, dispatch_request, sequence,
}
use go_upf.Pfcp.Loop.Once.{Resent, receive_request_twice}
use go_upf.Pfcp.Loop.Panic.{receive_response-panics}

abbrev pub smf_addr : String
smf_addr = "10.0.0.1:8805"

abbrev pub started : Server (Unit {0})
started = record {
  world = record { lnode = record { sess = []; free = [] }; nodes = []; driver = tt };
  rnodes = [];
  tx_trans = [];
  rx_trans = [];
  tx_seq = 0;
  sent = [];
}

abbrev pub retry_three_times : Config
retry_three_times = record { max_retrans = 3; node_id = "upf" }

abbrev notify : ReportRequest
notify = record { seid = 9; body = downlink_data 1 }

send_req_to-tx_timeouts_example :
    let sv1 = send_req_to started notify smf_addr in
    let last = tx_timeouts retry_three_times 4 sv1 (smf_addr, 0) in
    ((k : ℕ)
      → k ≤ 3
      → let svk = tx_timeouts retry_three_times k sv1 (smf_addr, 0) in
        (lookup (smf_addr, 0) svk.tx_trans
          ≡ some (record { raddr = smf_addr; seq = 0; req = notify; retrans_count = k }))
        × (svk.sent ≡ copies (suc k) (smf_addr, request 0 notify) []))
    × (lookup (smf_addr, 0) last.tx_trans ≡ none)
    × (last.sent ≡ copies 4 (smf_addr, request 0 notify) [])
send_req_to-tx_timeouts_example =
    send_req_to-tx_timeouts retry_three_times started notify smf_addr (omega arith)

heartbeat_is_answered :
    (receive_request empty_driver started smf_addr (heartbeat 5)).sent
    ≡ (smf_addr, response (heartbeat_rsp 5)) ∷ []
unfolding receive_request handle_heartbeat send_rsp_to dispatch_request sequence
heartbeat_is_answered = refl

receive_request_twice_example :
    let sv1 = receive_request empty_driver started smf_addr (heartbeat 5) in
    Resent empty_driver sv1
      (receive_request empty_driver sv1 smf_addr (heartbeat 5))
      (smf_addr, sequence (heartbeat 5))
receive_request_twice_example = receive_request_twice empty_driver started smf_addr (heartbeat 5)

-- The only session is closed, and a report request to its node is still open.
abbrev one_closed : Server (Unit {0})
one_closed = record started {
  world = record { lnode = record { sess = none ∷ []; free = 1 ∷ [] }; nodes = []; driver = tt };
  tx_trans =
      ((smf_addr, 0), record { raddr = smf_addr; seq = 0; req = notify; retrans_count = 0 }) ∷ [];
  tx_seq = 1;
}

receive_response-panics_example :
    receive_response empty_driver one_closed smf_addr (session_report_response 0 0) ≡ none
unfolding remote_sess_in
receive_response-panics_example =
    receive_response-panics empty_driver one_closed smf_addr 0
      (record { raddr = smf_addr; seq = 0; req = notify; retrans_count = 0 }) [] [] refl refl refl
