-- ===== src/Userspace/Pipeline.antt =====
-- internal/forwarder/userspace/pipeline.go, runtime.go and state.go: the way of a packet through the
-- driver, where adaptive QoS is not configured.
pub mod Counters
pub mod Balance
use go_upf.Base.{
  ℕ, ◌*◌, ◌+◌, ◌%◌, Bool, true, false, Option, none, some, List, [], ◌∷◌, length, get_or, ltb, leb,
  ◌==◌, if◌then◌else◌, Bytes,
}
use go_upf.Userspace.Gtpu.{DecodedGtpu, decode_gtpu, Error, ok, err, teid_of}
use go_upf.Userspace.Sdf.{
  PacketMeta, PacketDirection, uplink, downlink, MetaError, MetaResult, parsed, refused,
  parse_ipv4_packet_meta, ip_value,
}
use go_upf.Userspace.Binding.{PdrBinding, match_uplink, match_downlink}
use go_upf.Userspace.Forward.{
  PacketAction, unknown_action, drop_packet, forward_packet, buffer_packet_action, raw_ip,
  PacketOutcome, resolve_action, forward_uplink, forward_downlink,
}
use go_upf.Userspace.State.{Userspace, Stats, add_one, publish_outcome}
use go_upf.Userspace.Buffer.{buffer_packet, buffered_outcome}
use go_upf.Userspace.Meter.{Floats, any_gate_closed, gate_closed, mbr_allows}
use go_upf.Userspace.Usage.{update_usage}

pub record Packet : Type 0 where
  pub direction : PacketDirection
  pub seid_hint : ℕ
  pub teid : ℕ
  pub ue_ip : Bytes
  pub payload : Bytes

pub data PacketError : Type 0 where
  bad_gtpu : Error → PacketError
  bad_inner : MetaError → PacketError
  unsupported_payload no_uplink_pdr no_downlink_pdr not_encoded : PacketError

-- `PacketResult`, without the worker's number.
pub record PacketResult : Type 0 where
  pub action : PacketAction
  pub binding : Option PdrBinding
  pub outcome : Option PacketOutcome
  pub error : Option PacketError

abbrev empty_result : PacketResult
empty_result = record { action = unknown_action; binding = none; outcome = none; error = none }

-- `len(packet.UEIP) == 0`.
abbrev pub hint_or : Bytes → Bytes → Bytes
hint_or [] ip = ip
hint_or (b ∷ bs) ip = b ∷ bs

abbrev pub dropped_outcome : PdrBinding → PacketAction → PacketOutcome
dropped_outcome b action = record {
  seid = b.seid;
  pdrid = b.pdr.id;
  action = action;
  format = raw_ip;
  payload = [];
  peer = none;
}

-- The counters that each path changes.
abbrev pub seen : PacketDirection → Stats → Stats
seen uplink s = record s { uplink_packets = add_one s.uplink_packets }
seen downlink s = record s { downlink_packets = add_one s.downlink_packets }

abbrev pub failed : PacketDirection → Stats → Stats
failed uplink s = record s {
  uplink_packet_errors = add_one s.uplink_packet_errors;
  dropped_packets = add_one s.dropped_packets;
}
failed downlink s = record s {
  downlink_packet_errors = add_one s.downlink_packet_errors;
  dropped_packets = add_one s.dropped_packets;
}

abbrev pub missed : PacketDirection → Stats → Stats
missed uplink s = failed uplink (record s { uplink_pdr_misses = add_one s.uplink_pdr_misses })
missed downlink s =
    failed downlink (record s { downlink_pdr_misses = add_one s.downlink_pdr_misses })

abbrev pub unsupported : Stats → Stats
unsupported s =
    failed downlink (record s { unsupported_downlink_l3 = add_one s.unsupported_downlink_l3 })

abbrev pub is_up : PacketDirection → Bool
is_up uplink = true
is_up downlink = false

abbrev pub forward_in : PacketDirection → PdrBinding → Bytes → Option PacketOutcome
forward_in uplink b payload = forward_uplink b payload
forward_in downlink b payload = forward_downlink b payload

module _ {F : Type 0} where
  abbrev pub with_stats : (Stats → Stats) → Userspace F → Userspace F
  with_stats f u = record u { stats = f u.stats }

  -- A packet that is refused before an action is chosen, or that cannot be encoded.
  abbrev pub refuse :
      PacketDirection
      → PacketAction
      → Option PdrBinding
      → PacketError
      → Userspace F
      → PacketResult × Userspace F
  refuse d action b e u = (
    record { action = action; binding = b; outcome = none; error = some e },
    with_stats (failed d) u,
  )

  module _ (fl : Floats F) (now : ℕ) where
    -- The action by the FAR, then the gate, then the rate.
    unfoldable pub decide :
        PacketDirection → PdrBinding → Bytes → Userspace F → PacketAction × Userspace F
    unfolding resolve_action mbr_allows any_gate_closed
    decide d b payload u =
        if gate_closed now u b d then (drop_packet, u) else (elim (resolve_action b) [
          | unknown_action ↦ (unknown_action, u)
          | drop_packet ↦ (drop_packet, u)
          | buffer_packet_action ↦ (buffer_packet_action, u)
          | forward_packet ↦
              let r = mbr_allows fl now b (length payload) d u in
              (if r.0 then forward_packet else drop_packet, r.1)
        ])

    abbrev with_outcome : PacketAction → PdrBinding → PacketOutcome → PacketResult
    with_outcome action b o = record {
      action = action;
      binding = some b;
      outcome = some o;
      error = none;
    }

    -- The switch over the action, and the usage.
    unfoldable pub act :
        PacketDirection
        → PacketAction
        → PdrBinding
        → Bytes
        → Userspace F
        → PacketResult × Userspace F
    unfolding forward_uplink forward_downlink publish_outcome buffer_packet update_usage
    act d action b payload u = elim action [
      | forward_packet ↦ elim (forward_in d b payload) [
        | none ↦ refuse d forward_packet (some b) not_encoded u
        | some o ↦ (
          with_outcome forward_packet b o,
          update_usage now b (length payload) (is_up d) (
              publish_outcome o
                (with_stats (λ s. record s { forwarded_packets = add_one s.forwarded_packets }) u)),
        )
      ]
      | buffer_packet_action ↦ (
        with_outcome buffer_packet_action b (buffered_outcome b),
        update_usage now b (length payload) (is_up d) (
            with_stats (λ s. record s { buffered_packets = add_one s.buffered_packets })
              (buffer_packet b payload u)),
      )
      | drop_packet ↦ (
        with_outcome drop_packet b (dropped_outcome b drop_packet),
        update_usage now b (length payload) (is_up d)
            (with_stats (λ s. record s { dropped_packets = add_one s.dropped_packets }) u),
      )
      | unknown_action ↦ (
        with_outcome unknown_action b (dropped_outcome b unknown_action),
        update_usage now b (length payload) (is_up d)
            (with_stats (λ s. record s { dropped_packets = add_one s.dropped_packets }) u),
      )
    ]

    -- The part from the binding on, which both directions share.
    unfoldable pub handle :
        PacketDirection → PdrBinding → Bytes → Userspace F → PacketResult × Userspace F
    unfolding decide act
    handle d b payload u = let r = decide d b payload u in act d r.0 b payload r.1

    -- `processUplink`.
    unfoldable pub process_uplink : Packet → Userspace F → PacketResult × Userspace F
    unfolding decode_gtpu parse_ipv4_packet_meta match_uplink handle
    process_uplink p u =
        let u₁ = with_stats (seen uplink) u in
        elim (decode_gtpu p.payload) [
          | err e ↦ refuse uplink unknown_action none (bad_gtpu e) u₁
          | ok g ↦ elim (parse_ipv4_packet_meta g.inner_payload) [
            | refused e ↦ refuse uplink unknown_action none (bad_inner e) u₁
            | parsed m ↦
                elim (match_uplink u₁.snapshot g.teid (hint_or p.ue_ip m.src_ip) (some m)) [
                  | none ↦ (
                    record empty_result { error = some no_uplink_pdr },
                    with_stats (missed uplink) u₁,
                  )
                  | some b ↦ handle uplink b g.inner_payload u₁
                ]
          ]
        ]

    -- `processDownlink`.
    unfoldable pub process_downlink : Packet → Userspace F → PacketResult × Userspace F
    unfolding parse_ipv4_packet_meta match_downlink handle
    process_downlink p u =
        let u₁ = with_stats (seen downlink) u in
        elim (parse_ipv4_packet_meta p.payload) [
          | refused e ↦ (
            record empty_result { action = drop_packet; error = some unsupported_payload },
            with_stats unsupported u₁,
          )
          | parsed m ↦ elim (match_downlink u₁.snapshot (hint_or p.ue_ip m.dst_ip) (some m)) [
            | none ↦ (
              record empty_result { error = some no_downlink_pdr },
              with_stats (missed downlink) u₁,
            )
            | some b ↦ handle downlink b p.payload u₁
          ]
        ]

    -- `worker.process`.
    unfoldable pub process : Packet → Userspace F → PacketResult × Userspace F
    unfolding process_uplink process_downlink
    process p u = elim p.direction [ uplink ↦ process_uplink p u | downlink ↦ process_downlink p u ]

    -- `worker.run`, on the packets of its queue.
    unfoldable pub process_all : List Packet → Userspace F → Userspace F
    unfolding process
    process_all [] u = u
    process_all (p ∷ ps) u = process_all ps (process p u).1
