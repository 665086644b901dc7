-- ===== src/Tests/Gtp5g.antt =====
-- The kernel forwarder on concrete input, over a kernel that accepts everything and keeps what was
-- written to its link.
use go_upf.Base.{
  ℕ, ◌≡◌, refl, arith, true, false, none, some, Option, List, [], ◌∷◌, Bytes, map, codes, lookup,
  nat_eq, Assoc, leb, ◌==◌, length, if◌then◌else◌,
}
use go_upf.Report.{UsaReport, zero_volume}
use go_upf.Perio.{PerioServer}
use go_upf.Forwarder.{Ie}
use go_upf.Forwarder.FlowDesc.{
  FlowDesc, parse_flow_desc, parse_flow_desc_ports, parse_flow_desc_ip_net,
}
use go_upf.Userspace.Rule.{QerRule}
use go_upf.Userspace.Parse.Qer.{QerElement, qer_id_el, gate_status_el, mbr_el, qfi_el, decode_qer}
use go_upf.Userspace.Parse.Urr.{urr_id_el, reporting_triggers_el, measurement_period_el}
use go_upf.Userspace.Gtpu.{parse_ipv4_source, decode_gtpu}
use go_upf.Userspace.Gtpu as Gtpu
use go_upf.Pfcp.Node.{LocalNode}
use go_upf.Pfcp.PopBuf.{pfcp_handler, pfcp_handler_lem}
use go_upf.Forwarder.Gtp5g.Flow.{IpAndMask, convert_slice}
use go_upf.Forwarder.Gtp5g.Ports.{read_ports, range_of, parse_flow_desc-read_ports}
use go_upf.Forwarder.Gtp5g.Pdr.{Request}
use go_upf.Forwarder.Gtp5g.Qer.{qer_request}
use go_upf.Forwarder.Gtp5g.SameQer.{described, qer_request-decode_qer}
use go_upf.Forwarder.Gtp5g.Kernel.{Oid, NlReport, NlFar, NlCreation, Gtp5gnl, Gtp5g}
use go_upf.Forwarder.Gtp5g.Apply.{write_packet, apply_action}
use go_upf.Forwarder.Gtp5g.Query.{usars_at, all_oids, query_multi_urr}
use go_upf.Forwarder.Gtp5g.Batches.{answers, AnswersFitting, session_usars, query_multi_urr-answers}
use go_upf.Forwarder.Gtp5g.Released.{EmptiedAll, sent_all, apply_action-Released}
use go_upf.Forwarder.Gtp5g.Sent.{write_packet-decode_gtpu}
use go_upf.Forwarder.Gtp5g.Rules.{Decoders}
use go_upf.Forwarder.Gtp5g.Periods.{Served}
use go_upf.Forwarder.Gtp5g.Calls.{
  Call, call_create_urr, call_remove_urr, after_calls, after_calls-Served,
}
use go_upf.Tests.Sess.{holding}

abbrev creation : NlCreation
creation = record { teid = 77; peer_addr = 10 ∷ 0 ∷ 0 ∷ 2 ∷ []; port = 2152 }

-- A FAR that buffers for the PDRs 2 and 1, of which the kernel has lost the first.
abbrev buffering : NlFar
buffering = record { action = 4; pdr_ids = 2 ∷ 1 ∷ []; creation = some creation }

abbrev report_of : Oid → NlReport
report_of o = record {
  seid = o.seid;
  urrid = o.id;
  query_urr_ref = 0;
  usar_trigger = 0;
  start_time = 0;
  end_time = 1;
  vol_measurement = zero_volume;
}

abbrev answer_of : Oid → List Bytes → List NlReport × List Bytes
answer_of o k = (report_of o ∷ [], k)

abbrev reports_for : List Oid → List NlReport
reports_for [] = []
reports_for (o ∷ os) = report_of o ∷ reports_for os

-- No more than two reports fit one message.
abbrev toy : Gtp5gnl (List Bytes)
toy = record {
  create_oid = λ kind oid ats k. (true, k);
  update_oid = λ kind oid ats k. (true, k);
  remove_oid = λ kind oid k. (true, k);
  update_urr_oid = λ oid ats k. (some [], k);
  remove_urr_oid = λ oid k. (some [], k);
  get_report_oid = λ oid k. (some (report_of oid ∷ []), k);
  get_multi_reports_oid =
      λ oids k. if leb (length oids) 2 then (some (reports_for oids), k) else (none, k);
  get_far_oid = λ oid k. some buffering;
  get_pdr_oid = λ oid k. if oid.id == 1 then some (5 ∷ []) else none;
  get_qer_oid = λ oid k. some 9;
  max_netlink_usage_report_num = 2;
  write_to = λ b addr port k. (true, b ∷ k);
}

answers-eq-reports_for :
    (os : List Oid) (k : List Bytes) → answers answer_of os k ≡ (reports_for os, k)
answers-eq-reports_for [] k = refl
answers-eq-reports_for (o ∷ os) k = rw (answers-eq-reports_for os k) refl

toy-AnswersFitting : AnswersFitting toy answer_of
toy-AnswersFitting os k h l =
    let fits : leb (length os) 2 ≡ true = ground arith in
    rw (fits, answers-eq-reports_for os k) refl

-- Three URRs, in two requests.
abbrev three_urrs : Assoc ℕ (List ℕ)
three_urrs = (1, 7 ∷ 8 ∷ []) ∷ (2, 7 ∷ []) ∷ []

query_multi_urr-answers_example :
    (us : Assoc ℕ (List UsaReport)) × (query_multi_urr toy three_urrs []
      ≡ (some us, (answers answer_of (all_oids three_urrs) []).1))
    × ((seid : ℕ)
        → usars_at (lookup seid us)
          ≡ session_usars seid (answers answer_of (all_oids three_urrs) []).0)
query_multi_urr-answers_example =
    query_multi_urr-answers toy answer_of three_urrs [] toy-AnswersFitting (omega arith)

abbrev qer_elements : List QerElement
qer_elements =
    qer_id_el (some 3)
    ∷ gate_status_el (some 0)
    ∷ mbr_el (some 1000) (some 70000)
    ∷ qfi_el (some 9)
    ∷ []

abbrev a_qer_rule : QerRule
a_qer_rule = record {
  id = 3;
  correlation_id = none;
  gate_status = some 0;
  mbr_ul = some 1000;
  mbr_dl = some 70000;
  gbr_ul = none;
  gbr_dl = none;
  qfi = some 9;
  rqi = none;
  ppi = none;
  raw = [];
}

qer_request-decode_qer_example :
    (q : Request) × (qer_request (some qer_elements) ≡ some q) × (described q [] ≡ a_qer_rule)
unfolding decode_qer
qer_request-decode_qer_example =
    qer_request-decode_qer qer_elements [] a_qer_rule
      (tt, (tt, ((omega arith, omega arith), (tt, tt)))) refl

abbrev any_net : IpAndMask
any_net = record { ip = []; mask = [] }

abbrev no_net : Bytes → Option IpAndMask
no_net s = none

abbrev dns : FlowDesc IpAndMask
dns = record {
  action = codes "permit";
  dir = codes "out";
  proto = 17;
  src = any_net;
  dst = any_net;
  src_ports = (53 ∷ []) ∷ (1000 ∷ 2000 ∷ []) ∷ [];
  dst_ports = [];
}

parse_flow_desc-read_ports_example :
    (read_ports (convert_slice dns.src_ports) ≡ map range_of dns.src_ports)
    × (read_ports (convert_slice dns.dst_ports) ≡ map range_of dns.dst_ports)
unfolding parse_flow_desc parse_flow_desc_ports parse_flow_desc_ip_net
parse_flow_desc-read_ports_example =
    parse_flow_desc-read_ports any_net no_net no_net
      (codes "permit out 17 from any 53,1000-2000 to assigned") dns refl

-- The forwarder over a server whose first session holds two packets back for PDR 1.
abbrev with_packets : Gtp5g (List Bytes) LocalNode
with_packets = record {
  kernel = [];
  perio_events = [];
  handler = record { sess = some holding ∷ []; free = [] };
}

apply_action-Released_example :
    EmptiedAll toy pfcp_handler 1
      (1 ∷ [])
      (sent_all toy pfcp_handler buffering 1
        (2 ∷ 1 ∷ [])
        (λ p. pfcp_handler.queue with_packets.handler 1 p)
        [])
      with_packets.handler
      (
        (apply_action toy pfcp_handler 1 3 2 with_packets).kernel,
        (apply_action toy pfcp_handler 1 3 2 with_packets).handler,
      )
apply_action-Released_example =
    apply_action-Released toy pfcp_handler pfcp_handler_lem 1 3 2 buffering with_packets refl refl
      refl

write_packet-decode_gtpu_example :
    (b : Bytes) × (write_packet toy pfcp_handler buffering (some 9) (1 ∷ 2 ∷ []) []
      ≡ toy.write_to b creation.peer_addr creation.port [])
    × (decode_gtpu b
        ≡ Gtpu.ok (record {
          teid = 77;
          inner_payload = 1 ∷ 2 ∷ [];
          source_ip = parse_ipv4_source (1 ∷ 2 ∷ []);
        }))
write_packet-decode_gtpu_example =
    write_packet-decode_gtpu toy pfcp_handler buffering creation (some 9) (1 ∷ 2 ∷ []) [] refl
      (omega arith)

-- A URR with a period of one second.
abbrev decoders : Decoders
decoders = record {
  pdr_elements = λ ie. some [];
  far_elements = λ ie. some [];
  qer_elements = λ ie. some qer_elements;
  urr_elements = λ ie. some (
      urr_id_el (some 7)
      ∷ reporting_triggers_el (some (1 ∷ 0 ∷ []))
      ∷ measurement_period_el (some 1000000000)
      ∷ []);
  bar_elements = λ ie. some [];
  has_teid = λ v. true;
  has_ipv4 = λ v. true;
  constants = record {
    sdf_filter_permit = 1;
    sdf_filter_in = 1;
    sdf_filter_out = 2;
    pdr_addr_for_netlink = "netlink";
    src_interface_access = 0;
  };
  everything = any_net;
  parse_cidr = no_net;
  parse_host = no_net;
}

abbrev idle_server : PerioServer
idle_server = record { perio_list = []; tickers = 0; notified = [] }

abbrev a_urr_ie : Ie
a_urr_ie = record {
  pdr_id = none;
  far_id = none;
  qer_id = none;
  urr_id = some 7;
  bar_id = none;
  pdr_children = none;
  method = record { durat = false; volum = true; event = false };
  urr_children = [];
  token = 0;
}

abbrev some_calls : List Call
some_calls = call_create_urr 1 a_urr_ie ∷ call_remove_urr 1 a_urr_ie ∷ []

after_calls-Served_example :
    Served
      (λ g. none)
      (after_calls decoders toy pfcp_handler some_calls with_packets).perio_events
      idle_server
after_calls-Served_example =
    after_calls-Served decoders toy pfcp_handler (λ g. none) idle_server some_calls with_packets
      refl
