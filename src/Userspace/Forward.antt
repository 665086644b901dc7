-- ===== src/Userspace/Forward.antt =====
-- internal/forwarder/userspace/pipeline.go and runtime.go: what becomes of a packet that has a
-- binding, by the binding alone.
pub mod RoundTrip
use go_upf.Base.{
  ℕ, Bool, true, false, Option, none, some, List, [], ◌∷◌, ◌==◌, if◌then◌else◌, Bytes, length, ltb,
}
use go_upf.Gtpv1.{Message, PduSessionContainer, msg_type_tpdu, encode}
use go_upf.Report.{act_drop, act_forw, act_buff}
use go_upf.Userspace.Rule.{QerRule, FarRule, OuterHeaderCreation}
use go_upf.Userspace.Binding.{PdrBinding, has_source}

pub data PacketAction : Type 0 where
  unknown_action drop_packet forward_packet buffer_packet_action : PacketAction

pub data PayloadFormat : Type 0 where
  raw_ip gtpu : PayloadFormat

-- `net.UDPAddr`.
pub record Peer : Type 0 where
  pub ip : Bytes
  pub port : ℕ

pub record PacketOutcome : Type 0 where
  pub seid : ℕ
  pub pdrid : ℕ
  pub action : PacketAction
  pub format : PayloadFormat
  pub payload : Bytes
  pub peer : Option Peer

-- `resolveAction`.
unfoldable pub resolve_action : PdrBinding → PacketAction
resolve_action b = elim b.far [
  | none ↦ unknown_action
  | some f ↦
      (if act_drop f.apply_action
        then drop_packet
        else if act_buff f.apply_action
        then buffer_packet_action
        else if act_forw f.apply_action
        then forward_packet
        else unknown_action)
]

-- `firstQFI`.
unfoldable pub first_qfi : List QerRule → ℕ
first_qfi [] = 0
first_qfi (q ∷ qs) = elim q.qfi [ none ↦ first_qfi qs | some v ↦ v ]

-- The outer header that the binding's FAR creates, if any.
abbrev pub outer_header : PdrBinding → Option OuterHeaderCreation
outer_header b = elim b.far [
  | none ↦ none
  | some f ↦ elim f.forwarding [ none ↦ none | some fp ↦ fp.outer_header_creation ]
]

abbrev pub qos_extension : ℕ → Bool → List PduSessionContainer
qos_extension qfi uplink =
    if qfi == 0 then [] else record { pdu_type = if uplink then 1 else 0; qos_flow_id = qfi } ∷ []

-- The message that `encodeGTPU` encodes.
unfoldable pub gtpu_message : OuterHeaderCreation → ℕ → Bytes → Bool → Message
gtpu_message h qfi payload uplink = record {
  flags = if qfi == 0 then 0x30 else 0x34;
  type = msg_type_tpdu;
  teid = h.teid;
  sequence_number = 0;
  npdu_number = 0;
  exts = qos_extension qfi uplink;
  payload = payload;
}

abbrev pub peer_of : OuterHeaderCreation → Peer
peer_of h = record { ip = h.ipv4; port = if h.port == 0 then 2152 else h.port }

-- `encodeGTPU`; `none` is its error.
unfoldable pub encode_gtpu : PdrBinding → Bytes → Bool → Option (Bytes × Peer)
unfolding first_qfi gtpu_message encode
encode_gtpu b payload uplink = elim (outer_header b) [
  | none ↦ none
  | some h ↦ some (encode (gtpu_message h (first_qfi b.qers) payload uplink), peer_of h)
]

abbrev pub plain_outcome : PdrBinding → Bytes → PacketOutcome
plain_outcome b payload = record {
  seid = b.seid;
  pdrid = b.pdr.id;
  action = forward_packet;
  format = raw_ip;
  payload = payload;
  peer = none;
}

abbrev tunnelled : PdrBinding → Bytes → Option (Bytes × Peer) → Option PacketOutcome
tunnelled b payload none = none
tunnelled b payload (some (bytes, peer)) =
    some (record (plain_outcome b payload) { format = gtpu; payload = bytes; peer = some peer })

-- `forwardUplink`.
unfoldable pub forward_uplink : PdrBinding → Bytes → Option PacketOutcome
unfolding encode_gtpu
forward_uplink b payload = elim (outer_header b) [
  | none ↦ some (plain_outcome b payload)
  | some h ↦ tunnelled b payload (encode_gtpu b payload true)
]

-- `forwardDownlink`.
unfoldable pub forward_downlink : PdrBinding → Bytes → Option PacketOutcome
unfolding encode_gtpu
forward_downlink b payload = elim (outer_header b) [
  | none ↦ some (plain_outcome b payload)
  | some h ↦ tunnelled b payload (encode_gtpu b payload false)
]

-- `isCorePDR`.
abbrev pub is_core_pdr : PdrBinding → Bool
is_core_pdr b = elim b.pdr.pdi [ none ↦ false | some pdi ↦ has_source 1 pdi.source_interface ]

-- `forwardBufferedPayload`, of a binding that is there.
unfoldable pub forward_buffered_payload : PdrBinding → Bytes → Option PacketOutcome
unfolding forward_uplink forward_downlink
forward_buffered_payload b payload =
    if is_core_pdr b then forward_downlink b payload else forward_uplink b payload

-- `bufferedPacketLimit`.
unfoldable pub buffered_packet_limit : PdrBinding → ℕ
buffered_packet_limit b = elim b.bar [
  | none ↦ 0
  | some bar ↦ elim bar.suggested_packets [ none ↦ 0 | some n ↦ n ]
]

-- `ddnDelay`.
unfoldable pub ddn_delay : PdrBinding → ℕ
ddn_delay b = elim b.bar [
  | none ↦ 0
  | some bar ↦ elim bar.notification_delay [ none ↦ 0 | some n ↦ n ]
]
