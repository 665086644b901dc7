-- ===== src/Forwarder/Gtp5g/Flow.antt =====
-- internal/forwarder/gtp5g.go: newFlowDesc and newSdfFilter. `native.PutUint32` of the source's
-- unsafe pointer is written for a little-endian host.
use go_upf.Base.{
  ℕ, ◌+◌, ◌-◌, ◌*◌, ◌/◌, ◌%◌, Bool, Option, none, some, List, [], ◌∷◌, ◌++◌, Bytes, codes, length,
  get_or, ltb, ◌==◌, if◌then◌else◌,
}
use go_upf.Gtpv1.{has_bit}
use go_upf.Forwarder.FlowDesc.{FlowDesc, is_word, parse_flow_desc}
use go_upf.Forwarder.Gtp5g.Attr.{
  AttrList, no_attrs, attr, ◌+++◌, one_attr, u8, u16, u32, bytes, nested, Constants,
  flow_description_action, flow_description_direction, flow_description_protocol,
  flow_description_src_ipv4, flow_description_src_mask, flow_description_src_port,
  flow_description_dest_ipv4, flow_description_dest_mask, flow_description_dest_port,
  sdf_filter_flow_description, sdf_filter_tos_traffic_class, sdf_filter_security_parameter_index,
  sdf_filter_flow_label, sdf_filter_sdf_filter_id,
}

-- `net.IPNet`.
pub record IpAndMask : Type 0 where
  pub ip : Bytes
  pub mask : Bytes

-- `uint32(p[0])<<16 | uint32(p[0])`, and with the second port for a range. The ports are below
-- 65536, so that the two halves do not overlap.
abbrev pub port_word : List ℕ → ℕ
port_word (p ∷ []) = p * 65536 + p
port_word (p ∷ q ∷ []) = p * 65536 + q
port_word _ = 0

abbrev pub le32 : ℕ → Bytes
le32 n = n % 256 ∷ n / 256 % 256 ∷ n / 65536 % 256 ∷ n / 16777216 % 256 ∷ []

-- `convertSlice`.
unfoldable pub convert_slice : List (List ℕ) → Bytes
convert_slice [] = []
convert_slice (p ∷ ps) = le32 (port_word p) ++ convert_slice ps

abbrev pub swap_ends : {N : Type 0} → FlowDesc N → FlowDesc N
swap_ends fd = record fd {
  src = fd.dst;
  dst = fd.src;
  src_ports = fd.dst_ports;
  dst_ports = fd.src_ports;
}

-- What go-pfcp's SDFFilter() decodes: a text for each flag that is set, and the filter's ID.
pub record SdfFilterFields : Type 0 where
  pub flow_description : Option Bytes  -- HasFD()
  pub has_ttc : Bool
  pub has_spi : Bool
  pub has_fl : Bool
  pub sdf_filter_id : Option ℕ  -- HasBID()

-- An SDF Filter element: its payload and what SDFFilter() answers.
pub record SdfFilterIe : Type 0 where
  pub payload : Bytes
  pub sdf_filter : Option SdfFilterFields

-- `i.Payload[0]` and the bounds on the length of the flow description, for a payload that is not
-- empty.
unfoldable pub length_fits : Bytes → Bool
length_fits p =
    if has_bit (get_or p 0 0) 0
    then if ltb (length p) 4
      then Bool.false
      else if ltb (length p - 4) (get_or p 2 0 * 256 + get_or p 3 0)
      then Bool.false
      else Bool.true
    else Bool.true

abbrev pub when : Bool → AttrList → AttrList
when b ats = if b then ats else no_attrs

abbrev pub filter_id : Option ℕ → AttrList
filter_id none = no_attrs
filter_id (some v) = one_attr sdf_filter_sdf_filter_id (u32 v)

module _ (c : Constants) where
  abbrev pub direction_attr : Bytes → Option AttrList
  direction_attr dir =
      if is_word dir (codes "in")
      then some (one_attr flow_description_direction (u8 c.sdf_filter_in))
      else if is_word dir (codes "out")
      then some (one_attr flow_description_direction (u8 c.sdf_filter_out))
      else none

  -- From the protocol on.
  abbrev pub ends_attrs : FlowDesc IpAndMask → AttrList
  ends_attrs fd = attr flow_description_protocol (u8 fd.proto) (
      attr flow_description_src_ipv4 (bytes fd.src.ip) (
        attr flow_description_src_mask (bytes fd.src.mask) (
          attr flow_description_dest_ipv4 (bytes fd.dst.ip) (
            attr flow_description_dest_mask (bytes fd.dst.mask) (
              attr flow_description_src_port (bytes (convert_slice fd.src_ports))
                (one_attr flow_description_dest_port (bytes (convert_slice fd.dst_ports))))))))

  abbrev pub flow_attrs : FlowDesc IpAndMask → Option AttrList
  flow_attrs fd =
      if is_word fd.action (codes "permit")
      then (elim (direction_attr fd.dir) [
        | none ↦ none
        | some d ↦
            some (one_attr flow_description_action (u8 c.sdf_filter_permit) +++ d +++ ends_attrs fd)
      ])
      else none

  module _ (everything : IpAndMask) (parse_cidr parse_host : Bytes → Option IpAndMask) where
    abbrev pub parsed_flow : Bool → Option (FlowDesc IpAndMask) → Option AttrList
    parsed_flow swap_src_dst none = none
    parsed_flow swap_src_dst (some fd) = flow_attrs (if swap_src_dst then swap_ends fd else fd)

    -- `newFlowDesc`.
    unfoldable pub new_flow_desc : Bytes → Bool → Option AttrList
    unfolding convert_slice
    new_flow_desc s swap_src_dst =
        parsed_flow swap_src_dst (parse_flow_desc everything parse_cidr parse_host s)

    abbrev pub flow_filter : Option Bytes → ℕ → Option AttrList
    flow_filter none src_if = some no_attrs
    flow_filter (some s) src_if = elim (new_flow_desc s (src_if == c.src_interface_access)) [
      | none ↦ none
      | some fd ↦ some (one_attr sdf_filter_flow_description (nested fd))
    ]

    abbrev pub filter_attrs : SdfFilterFields → ℕ → Option AttrList
    filter_attrs v src_if = elim (flow_filter v.flow_description src_if) [
      | none ↦ none
      | some fd ↦ some (
          fd
          +++ when v.has_ttc (one_attr sdf_filter_tos_traffic_class (u16 29))
          +++ when v.has_spi (one_attr sdf_filter_security_parameter_index (u32 30))
          +++ when v.has_fl (one_attr sdf_filter_flow_label (u32 31))
          +++ filter_id v.sdf_filter_id)
    ]

    -- `newSdfFilter`; `none` is an error.
    unfoldable pub new_sdf_filter : SdfFilterIe → ℕ → Option AttrList
    unfolding length_fits new_flow_desc
    new_sdf_filter i src_if =
        if length_fits i.payload
        then (elim i.sdf_filter [ none ↦ none | some v ↦ filter_attrs v src_if ])
        else none
