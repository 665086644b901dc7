-- ===== src/Tests/Userspace.antt =====
-- The userspace packet path on concrete input: one session with a downlink PDR, whose FAR sends to a
-- base station, or holds the packets back.
use go_upf.Base.{
  ℕ, ◌+◌, ◌-◌, ◌*◌, ◌/◌, false, Option, none, some, [], ◌∷◌, ◌++◌, ◌≡◌, refl, arith, Bytes, ltb,
  lookup, if◌then◌else◌, ◌||◌, nat_eq, nat_pair_eq, bytes_eq, ◌==◌,
}
use go_upf.Userspace.Rule.{
  IpNet, SdfFilterRule, Pdi, PdrRule, OuterHeaderCreation, FarRule, UrrRule, BarRule, SessionState,
  new_session_state, Try, fail, bad_flow, session_not_found,
}
use go_upf.Userspace.Parse.Pdr.{empty_pdi, empty_pdr}
use go_upf.Userspace.Parse.Far.{empty_far, empty_forwarding}
use go_upf.Userspace.Parse.Urr.{empty_urr, empty_bar}
use go_upf.Userspace.Sdf.{PacketMeta, uplink, downlink, match_sdf}
use go_upf.Userspace.Sdf.Flow.{parse_flow_description}
use go_upf.Userspace.Sdf.Assigned.{to_assigned, is_own, match_sdf-assigned}
use go_upf.Userspace.Binding.{
  PdrBinding, bind_pdr, bindings_at, build_runtime_snapshot, match_downlink, downlink_key,
  uplink_key, sort_bindings,
}
use go_upf.Userspace.Binding.Index.{keyed_bindings, build_runtime_snapshot_lem}
use go_upf.Userspace.Binding.Choice.{IsAnswer, match_downlink-best}
use go_upf.Userspace.Forward.{forward_uplink, forward_downlink, ddn_delay}
use go_upf.Userspace.Forward.RoundTrip.{IsTunnelled, forward-decode_gtpu}
use go_upf.Userspace.State.{Userspace, Stats, cancel_pending_ddn}
use go_upf.Userspace.Buffer.{
  buffer_packet, fire_buffered_notification, release_pdr, transition_binding,
}
use go_upf.Userspace.Buffer.Transition.{let_go, release_pdr_lem}
use go_upf.Userspace.Buffer.Notice.{notice, buffer_packet-notified}
use go_upf.Userspace.Driver.{remove_far}
use go_upf.Userspace.Meter.{Floats, byte_rate, consume_tokens}
use go_upf.Userspace.Meter.Bounds.{FloatLaws, BucketBounded, consume_tokens-Bounded}
use go_upf.Userspace.Usage.{measure_urrs}
use go_upf.Userspace.Usage.Volume.{SessionAddsUp, measure_urrs-AddsUp}
use go_upf.Userspace.Pipeline.{process_all}
use go_upf.Userspace.Pipeline.Counters.{Balanced}
use go_upf.Userspace.Pipeline.Balance.{process_all-Balanced}
use go_upf.Userspace.Run.{run, do_remove_far}
use go_upf.Userspace.Run.Atomic.{run-fail}
use go_upf.Userspace.Run.Live.{run-AllLive}
use go_upf.Userspace.Run.Sessions.{AllLive}
use go_upf.Userspace.Shard.{downlink_packet}

-- Natural numbers in place of float64, with whole seconds.
abbrev whole : Floats ℕ
whole = record {
  of_nat = λ n. n;
  seconds = λ n. n / 1000000000;
  add = ◌+◌;
  sub = ◌-◌;
  mul = ◌*◌;
  div = ◌/◌;
  lt = ltb;
}

whole_laws : FloatLaws whole
whole_laws = record {
  lt_irrefl = λ a. ground arith;
  not_below_trans = λ a b c h k. ground arith;
  lt_asymm = λ a b h. ground arith;
  of_nat_nonneg = λ n. ground arith;
  add_nonneg = λ a b h. ground arith;
  mul_nonneg = λ n a h. ground arith;
  sub_nonneg = λ a b h. ground arith;
  sub_le = λ a b h. ground arith;
}

abbrev ue : Bytes
ue = 10 ∷ 0 ∷ 0 ∷ 1 ∷ []

abbrev server : Bytes
server = 8 ∷ 8 ∷ 8 ∷ 8 ∷ []

abbrev own_pdi : Pdi
own_pdi = record empty_pdi { source_interface = some 1; ue_ipv4 = ue; sdf_rules = to_assigned ∷ [] }

abbrev own_pdr : PdrRule
own_pdr = record (empty_pdr []) {
  id = 1;
  precedence = some 10;
  pdi = some own_pdi;
  far_id = some 2;
  urr_ids = 3 ∷ [];
}

abbrev station : OuterHeaderCreation
station = record { description = 256; teid = 77; ipv4 = 192 ∷ 168 ∷ 0 ∷ 1 ∷ []; port = 0 }

abbrev forwarding_far : FarRule
forwarding_far = record (empty_far []) {
  id = 2;
  apply_action = 2;
  forwarding = some (record empty_forwarding { outer_header_creation = some station });
  bar_id = some 4;
}

-- BUFF and NOCP.
abbrev holding_far : FarRule
holding_far = record forwarding_far { apply_action = 12 }

abbrev own_urr : UrrRule
own_urr = record (empty_urr []) { id = 3 }

abbrev own_bar : BarRule
own_bar = record (empty_bar []) { id = 4; notification_delay = some 50; suggested_packets = some 2 }

abbrev session : FarRule → SessionState ℕ
session f = record new_session_state {
  pdrs = (1, own_pdr) ∷ [];
  fars = (2, f) ∷ [];
  urrs = (3, own_urr) ∷ [];
  bars = (4, own_bar) ∷ [];
}

abbrev no_stats : Stats
no_stats = record {
  uplink_packets = 0;
  downlink_packets = 0;
  forwarded_packets = 0;
  dropped_packets = 0;
  buffered_packets = 0;
  uplink_pdr_misses = 0;
  downlink_pdr_misses = 0;
  unsupported_downlink_l3 = 0;
  uplink_packet_errors = 0;
  downlink_packet_errors = 0;
}

abbrev running : SessionState ℕ → Userspace ℕ
running s = record {
  sessions = (5, s) ∷ [];
  snapshot = build_runtime_snapshot ((5, s) ∷ []);
  stats = no_stats;
  pending_ddn = [];
  egress = [];
  emitted = [];
}

abbrev forwarding : Userspace ℕ
forwarding = running (session forwarding_far)

abbrev holding : Userspace ℕ
holding = running (session holding_far)

-- An ICMP packet to the UE.
abbrev ping : Bytes
ping = 0x45 ∷ 0 ∷ 0 ∷ 20 ∷ 0 ∷ 0 ∷ 0 ∷ 0 ∷ 64 ∷ 1 ∷ 0 ∷ 0 ∷ server ++ ue

abbrev ping_meta : PacketMeta
ping_meta = record {
  src_ip = server;
  dst_ip = ue;
  protocol = 1;
  src_port = 0;
  dst_port = 0;
  has_ports = false;
}

abbrev own_binding : FarRule → PdrBinding
own_binding f = bind_pdr 5 (session f) own_pdr

abbrev no_cidr : Bytes → Option IpNet
no_cidr b = none

abbrev no_flow : Bytes → Try SdfFilterRule
no_flow b = fail bad_flow

match_sdf-assigned_example :
    (match_sdf own_pdr (some ping_meta) downlink ≡ is_own ue ue)
    × (match_sdf own_pdr (some ping_meta) uplink ≡ (is_own ue ue || is_own ue server))
unfolding parse_flow_description
match_sdf-assigned_example =
    match_sdf-assigned no_cidr own_pdr own_pdi to_assigned ping_meta refl refl refl

build_runtime_snapshot_lem_example :
    (bindings_at 9 (build_runtime_snapshot ((5, session forwarding_far) ∷ [])).uplink
      ≡ sort_bindings (keyed_bindings uplink_key 9 ((5, session forwarding_far) ∷ [])))
    × (bindings_at ue (build_runtime_snapshot ((5, session forwarding_far) ∷ [])).downlink
        ≡ sort_bindings (keyed_bindings downlink_key ue ((5, session forwarding_far) ∷ [])))
build_runtime_snapshot_lem_example =
    build_runtime_snapshot_lem ((5, session forwarding_far) ∷ []) 9 ue

match_downlink-best_example :
    IsAnswer (keyed_bindings downlink_key ue ((5, session forwarding_far) ∷ [])) (some ping_meta) (
      match_downlink
        (build_runtime_snapshot ((5, session forwarding_far) ∷ []))
        ue
        (some ping_meta))
match_downlink-best_example =
    match_downlink-best ((5, session forwarding_far) ∷ []) ue (some ping_meta) (omega arith)

forward-decode_gtpu_example :
    IsTunnelled
      (own_binding forwarding_far)
      station
      ping
      (forward_uplink (own_binding forwarding_far) ping)
    × IsTunnelled
        (own_binding forwarding_far)
        station
        ping
        (forward_downlink (own_binding forwarding_far) ping)
forward-decode_gtpu_example =
    forward-decode_gtpu (own_binding forwarding_far) station ping refl (omega arith)

process_all-Balanced_example :
    Balanced
      (process_all whole 100 (downlink_packet ping ∷ downlink_packet [] ∷ []) forwarding).stats
process_all-Balanced_example =
    process_all-Balanced whole 100 (downlink_packet ping ∷ downlink_packet [] ∷ []) forwarding refl

consume_tokens-Bounded_example :
    BucketBounded whole whole_laws (byte_rate whole 8) (consume_tokens whole 8 400 7 none).1
consume_tokens-Bounded_example = consume_tokens-Bounded whole whole_laws 8 400 7 none tt

measure_urrs-AddsUp_example :
    SessionAddsUp (measure_urrs 100 (own_urr ∷ []) 20 false (session forwarding_far)).1
measure_urrs-AddsUp_example =
    measure_urrs-AddsUp 100 (own_urr ∷ []) 20 false (session forwarding_far) (λ id. tt)

-- A session in which the packet waits.
abbrev waiting : SessionState ℕ
waiting = record (session forwarding_far) { buffers = (1, ping ∷ []) ∷ [] }

release_pdr_lem_example :
    (v : Userspace ℕ) × (release_pdr 5 forwarding_far own_pdr waiting (running waiting) ≡ some v)
    × (v.egress ≡ [] ++ let_go forwarding_far (own_binding forwarding_far) (ping ∷ []))
    × (lookup 5 v.sessions ≡ some (record waiting { buffers = [] }))
    × (lookup (5, 1) v.pending_ddn ≡ none)
unfolding transition_binding build_runtime_snapshot cancel_pending_ddn
release_pdr_lem_example =
    release_pdr_lem 5 forwarding_far own_pdr waiting (running waiting) (own_binding forwarding_far)
      refl refl

buffer_packet-notified_example :
    (if ddn_delay (own_binding holding_far) == 0
      then (buffer_packet (own_binding holding_far) ping holding).emitted
      else (fire_buffered_notification 5 1
          (buffer_packet (own_binding holding_far) ping holding)).emitted)
    ≡ [] ++ notice (own_binding holding_far) holding_far ping ∷ []
buffer_packet-notified_example =
    buffer_packet-notified (own_binding holding_far) holding_far ping holding (session holding_far)
      refl refl refl

run-fail_example : forwarding ≡ forwarding
unfolding run
run-fail_example =
    run-fail no_flow 100 (do_remove_far 6 (some 2)) session_not_found forwarding forwarding refl

run-AllLive_example : AllLive (remove_far 5 (some 2) forwarding).1.sessions
unfolding run
run-AllLive_example =
    run-AllLive no_flow 100 (do_remove_far 5 (some 2)) forwarding (remove_far 5 (some 2) forwarding)
      (refl, tt) refl
