-- ===== src/Forwarder/FlowDesc.antt =====
-- internal/forwarder/flowdesc.go: the IPFilterRule of an SDF filter. A network is what the package net
-- makes of an address: `everything` is ::/0, `parse_cidr` net.ParseCIDR, and `parse_host` net.ParseIP
-- with the mask of a single host.
pub mod Ports
pub mod Fits
pub mod Grammar
pub mod Words
pub mod Sound
pub mod Exact
use go_upf.Base.{
  ℕ, Bool, true, false, ◌||◌, Option, none, some, List, [], ◌∷◌, Bytes, bytes_beq, codes, fields,
  split, cut, parse_uint, if◌then◌else◌,
}

pub record FlowDesc (N : Type 0) : Type 0 where
  pub action : Bytes
  pub dir : Bytes
  pub proto : ℕ  -- uint8
  pub src : N
  pub dst : N
  pub src_ports : List (List ℕ)  -- uint16, one number or two
  pub dst_ports : List (List ℕ)

abbrev pub is_word : Bytes → Bytes → Bool
is_word t w = bytes_beq t w

-- `strconv.ParseUint(s, 10, 16)`.
abbrev pub port_of : Bytes → Option ℕ
port_of s = parse_uint 65536 s

abbrev pub range_to : Option ℕ → Option ℕ → Option (List ℕ)
range_to none b = none
range_to (some v) none = none
range_to (some v) (some w) = some (v ∷ w ∷ [])

abbrev pub one_port : Option ℕ → Option (List ℕ)
one_port none = none
one_port (some v) = some (v ∷ [])

abbrev pub port_or_range : Bytes × Option Bytes → Option (List ℕ)
port_or_range (a, none) = one_port (port_of a)
port_or_range (a, some b) = range_to (port_of a) (port_of b)

abbrev pub ports_and : Option (List ℕ) → Option (List (List ℕ)) → Option (List (List ℕ))
ports_and none rest = none
ports_and (some p) none = none
ports_and (some p) (some ps) = some (p ∷ ps)

abbrev pub ports_of_parts : List Bytes → Option (List (List ℕ))
ports_of_parts [] = some []
ports_of_parts (p ∷ ps) = ports_and (port_or_range (cut b'-' p)) (ports_of_parts ps)

-- `ParseFlowDescPorts`.
unfoldable pub parse_flow_desc_ports : Bytes → Option (List (List ℕ))
parse_flow_desc_ports s = ports_of_parts (split b',' s)

abbrev pub proto_of : Bytes → Option ℕ
proto_of t = if is_word t (codes "ip") then some 255 else parse_uint 256 t

-- Ports at the end; what does not parse is passed over.
abbrev pub last_ports : List Bytes → List (List ℕ)
last_ports [] = []
last_ports (p ∷ ps) = elim (parse_flow_desc_ports p) [ none ↦ [] | some q ↦ q ]

abbrev pub started : {N : Type 0} → Bytes → Bytes → ℕ → N → FlowDesc N
started action dir proto src = record {
  action = action;
  dir = dir;
  proto = proto;
  src = src;
  dst = src;
  src_ports = [];
  dst_ports = [];
}

module _ {N : Type 0} (everything : N) (parse_cidr parse_host : Bytes → Option N) where
  -- `ParseFlowDescIPNet`.
  unfoldable pub parse_flow_desc_ip_net : Bytes → Option N
  parse_flow_desc_ip_net s =
      if is_word s (codes "any") || is_word s (codes "assigned")
      then some everything
      else (elim (parse_cidr s) [ none ↦ parse_host s | some n ↦ some n ])

  -- From the word "to" on.
  abbrev pub parse_dst : FlowDesc N → List Bytes → Option (FlowDesc N)
  parse_dst fd [] = none
  parse_dst fd (t ∷ []) = none
  parse_dst fd (t ∷ d ∷ ts) =
      if is_word t (codes "to")
      then (elim (parse_flow_desc_ip_net d) [
        | none ↦ none
        | some n ↦ some (record fd { dst = n; dst_ports = last_ports ts })
      ])
      else none

  -- Behind the source's address: a token that does not parse as ports is taken for the next word.
  abbrev pub parse_src_ports : FlowDesc N → List Bytes → Option (FlowDesc N)
  parse_src_ports fd [] = none
  parse_src_ports fd (t ∷ ts) = elim (parse_flow_desc_ports t) [
    | none ↦ parse_dst fd (t ∷ ts)
    | some q ↦ parse_dst (record fd { src_ports = q }) ts
  ]

  abbrev pub parse_src : Bytes → Bytes → ℕ → Bytes → List Bytes → Option (FlowDesc N)
  parse_src action dir proto addr ts = elim (parse_flow_desc_ip_net addr) [
    | none ↦ none
    | some n ↦ parse_src_ports (started action dir proto n) ts
  ]

  abbrev pub parse_tokens : List Bytes → Option (FlowDesc N)
  parse_tokens (action ∷ dir ∷ proto ∷ word ∷ addr ∷ ts) =
      if is_word action (codes "permit")
      then if is_word dir (codes "in") || is_word dir (codes "out")
        then (elim (proto_of proto) [
          | none ↦ none
          | some v ↦ (if is_word word (codes "from") then parse_src action dir v addr ts else none)
        ])
        else none
      else none
  parse_tokens _ = none

  -- `ParseFlowDesc`; `none` is an error.
  unfoldable pub parse_flow_desc : Bytes → Option (FlowDesc N)
  unfolding parse_flow_desc_ports parse_flow_desc_ip_net
  parse_flow_desc s = parse_tokens (fields s)
