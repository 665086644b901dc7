-- ===== src/Userspace/Sdf.antt =====
-- internal/forwarder/userspace/sdf.go: what a packet's header says, and whether it matches the SDF
-- filters of a PDR.
pub mod Flow
pub mod Assigned
use go_upf.Base.{
  ℕ, ◌+◌, ◌-◌, ◌*◌, ◌/◌, ◌%◌, ◌^◌, Bool, true, false, not, ◌&&◌, ◌||◌, Option, none, some, List, [],
  ◌∷◌, length, get_or, take, drop, ltb, leb, ◌==◌, if◌then◌else◌, is_some, Bytes, bytes_beq, codes,
  to_lower, parse_uint,
}
use go_upf.Userspace.Rule.{PortRange, IpNet, FlowEndpoint, SdfFilterRule, Pdi, PdrRule}

pub record PacketMeta : Type 0 where
  pub src_ip : Bytes
  pub dst_ip : Bytes
  pub protocol : ℕ
  pub src_port : ℕ
  pub dst_port : ℕ
  pub has_ports : Bool

pub data PacketDirection : Type 0 where
  uplink downlink : PacketDirection

-- The three errors of `parseIPv4PacketMeta`, and a panic of the Go runtime.
pub data MetaError : Type 0 where
  not_ipv4 bad_header_length truncated_transport : MetaError

pub data MetaResult : Type 0 where
  parsed : PacketMeta → MetaResult
  refused : MetaError → MetaResult

abbrev pub header_length : Bytes → ℕ
header_length p = get_or p 0 0 % 16 * 4

abbrev pub be16_at : Bytes → ℕ → ℕ
be16_at p i = get_or p i 0 * 256 + get_or p (i + 1) 0

abbrev pub carries_ports : Bytes → Bool
carries_ports p = get_or p 9 0 == 6 || get_or p 9 0 == 17

abbrev pub meta_without_ports : Bytes → PacketMeta
meta_without_ports p = record {
  src_ip = take 4 (drop 12 p);
  dst_ip = take 4 (drop 16 p);
  protocol = get_or p 9 0;
  src_port = 0;
  dst_port = 0;
  has_ports = false;
}

-- `parseIPv4PacketMeta`. Every index is below a length that was checked.
unfoldable pub parse_ipv4_packet_meta : Bytes → MetaResult
parse_ipv4_packet_meta p =
    let ihl = header_length p in
    if ltb (length p) 20 || not (get_or p 0 0 / 16 == 4)
    then refused not_ipv4
    else if ltb ihl 20 || ltb (length p) ihl
    then refused bad_header_length
    else if not (carries_ports p)
    then parsed (meta_without_ports p)
    else if ltb (length p) (ihl + 4)
    then refused truncated_transport
    else parsed (record (meta_without_ports p) {
      src_port = be16_at p ihl;
      dst_port = be16_at p (ihl + 2);
      has_ports = true;
    })

-- `IPNet.Contains` of an address of four bytes.
abbrev pub ip_value : Bytes → ℕ
ip_value ip = get_or ip 0 0 * 16777216 + get_or ip 1 0 * 65536 + get_or ip 2 0 * 256 + get_or ip 3 0

abbrev pub net_contains : IpNet → Bytes → Bool
net_contains n ip =
    length ip == 4 && ip_value ip / 2 ^ (32 - n.prefix) == n.address / 2 ^ (32 - n.prefix)

abbrev pub rule_uses_assigned : SdfFilterRule → Bool
rule_uses_assigned r = r.source.assigned || r.destination.assigned

-- `protocolMatches`.
unfoldable pub protocol_matches : Bytes → ℕ → Bool
protocol_matches proto actual =
    let p = to_lower proto in
    if bytes_beq p [] || bytes_beq p (codes "ip")
    then true
    else if bytes_beq p (codes "tcp")
    then actual == 6
    else if bytes_beq p (codes "udp")
    then actual == 17
    else if bytes_beq p (codes "icmp")
    then actual == 1
    else elim (parse_uint 256 proto) [ none ↦ false | some v ↦ v == actual ]

abbrev pub port_in : ℕ → List PortRange → Bool
port_in port [] = false
port_in port (r ∷ rs) =
    let rest = port_in port rs in if leb r.from port && leb port r.to then true else rest

-- The address part of `endpointMatches`.
abbrev pub address_matches : FlowEndpoint → Bytes → Bytes → Bool
address_matches e ue ip =
    if e.assigned
    then not (length ue == 0) && bytes_beq ue ip
    else elim e.network [ none ↦ true | some n ↦ net_contains n ip ]

-- `endpointMatches`.
unfoldable pub endpoint_matches : FlowEndpoint → Bytes → Bytes → ℕ → Bool → Bool
endpoint_matches e ue ip port has_ports =
    if address_matches e ue ip
    then if length e.ports == 0 then true else has_ports && port_in port e.ports
    else false

-- `endpointsMatchRule`.
unfoldable pub endpoints_match_rule : SdfFilterRule → Bytes → Bytes → ℕ → Bytes → ℕ → Bool → Bool
unfolding endpoint_matches
endpoints_match_rule r ue src src_port dst dst_port has_ports =
    endpoint_matches r.source ue src src_port has_ports
    && endpoint_matches r.destination ue dst dst_port has_ports

abbrev pub is_uplink : PacketDirection → Bool
is_uplink uplink = true
is_uplink downlink = false

-- The switch over `rule.Direction`.
abbrev pub direction_matches : SdfFilterRule → PacketDirection → Bool
direction_matches r d =
    if bytes_beq r.direction (codes "out")
    then is_uplink d || rule_uses_assigned r
    else if bytes_beq r.direction (codes "in")
    then not (is_uplink d) || rule_uses_assigned r
    else true

-- `ruleMatches`, where the packet's header is known.
unfoldable pub rule_matches : SdfFilterRule → Bytes → PacketMeta → PacketDirection → Bool
unfolding protocol_matches endpoints_match_rule
rule_matches r ue m d =
    if direction_matches r d && protocol_matches r.protocol m.protocol
    then endpoints_match_rule r ue m.src_ip m.src_port m.dst_ip m.dst_port m.has_ports
      || (is_uplink d
          && (rule_uses_assigned r
              && endpoints_match_rule r ue m.dst_ip m.dst_port m.src_ip m.src_port m.has_ports))
    else false

abbrev pub any_rule : List SdfFilterRule → Bytes → Option PacketMeta → PacketDirection → Bool
any_rule [] ue m d = false
any_rule (r ∷ rs) ue m d =
    let rest = any_rule rs ue m d in
    elim m [ none ↦ rest | some h ↦ (if rule_matches r ue h d then true else rest) ]

-- `matchSDF`.
unfoldable pub match_sdf : PdrRule → Option PacketMeta → PacketDirection → Bool
unfolding rule_matches
match_sdf p m d = elim p.pdi [
  | none ↦ true
  | some pdi ↦ (if length pdi.sdf_rules == 0 then true else any_rule pdi.sdf_rules pdi.ue_ipv4 m d)
]
