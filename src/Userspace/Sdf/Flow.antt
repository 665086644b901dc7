-- ===== src/Userspace/Sdf/Flow.antt =====
-- internal/forwarder/userspace/sdf.go: the parser of SDF flow descriptions. `parse_cidr` is
-- net.ParseCIDR, by the network that it answers for an IPv4 address.
use mathlib.Core.List.{reverse}
use go_upf.Base.{
  ℕ, ◌^◌, Bool, true, false, not, ◌||◌, Option, none, some, List, [], ◌∷◌, ◌++◌, length, ltb, ◌==◌,
  if◌then◌else◌, Bytes, codes, bytes_beq, to_lower, equal_fold, fields, split, cut, parse_uint,
  is_space,
}
use go_upf.Userspace.Rule.{
  Try, ok, fail, bad_flow, ◌>>=◌, PortRange, IpNet, FlowEndpoint, SdfFilterRule,
}

abbrev pub contains : ℕ → Bytes → Bool
contains c [] = false
contains c (x ∷ s) = let rest = contains c s in if x == c then true else rest

abbrev pub trim_left : Bytes → Bytes
trim_left [] = []
trim_left (c ∷ s) = let rest = trim_left s in if is_space c then rest else c ∷ s

-- `strings.TrimSpace`.
abbrev pub trim : Bytes → Bytes
trim s = reverse (trim_left (reverse (trim_left s)))

-- `strconv.ParseUint(s, 10, 16)`.
abbrev pub parse_port : Bytes → Try ℕ
parse_port s = elim (parse_uint (2 ^ 16) s) [ none ↦ fail bad_flow | some v ↦ ok v ]

abbrev pub port_bounds : Bytes × Option Bytes → Try PortRange
port_bounds (a, none) = parse_port a >>= λ v. ok (record { from = v; to = v })
port_bounds (a, some b) =
    parse_port a >>= λ v. parse_port b >>= λ w. ok (record { from = v; to = w })

-- The loop over the parts of one token; an empty part is passed over.
abbrev pub parse_parts : List PortRange → List Bytes → Try (List PortRange)
parse_parts ports [] = ok ports
parse_parts ports (p ∷ ps) =
    let rest = parse_parts ports ps in
    let more = port_bounds (cut b'-' (trim p)) >>= λ r. parse_parts (ports ++ r ∷ []) ps in
    if bytes_beq (trim p) [] then rest else more

-- `parsePortList`.
abbrev pub parse_port_list : List PortRange → List Bytes → Try (List PortRange)
parse_port_list ports [] = ok ports
parse_port_list ports (t ∷ ts) =
    let rest = parse_port_list ports ts in
    let more = parse_parts ports (split b',' t) >>= λ ps. parse_port_list ps ts in
    if equal_fold t (codes "any") then rest else more

abbrev pub no_endpoint : FlowEndpoint
no_endpoint = record { any = false; assigned = false; network = none; ports = [] }

-- Before the first "to" and after it.
abbrev pub at_to : List Bytes → List Bytes → Option (List Bytes × List Bytes)
at_to before [] = none
at_to before (t ∷ ts) =
    let rest = at_to (before ++ t ∷ []) ts in
    if equal_fold t (codes "to") then some (before, ts) else rest

module _ (parse_cidr : Bytes → Option IpNet) where
  abbrev pub endpoint_address : Bytes → Try FlowEndpoint
  endpoint_address t =
      if bytes_beq (to_lower t) (codes "any")
      then ok (record no_endpoint { any = true })
      else if bytes_beq (to_lower t) (codes "assigned")
      then ok (record no_endpoint { assigned = true })
      else elim (parse_cidr (if contains b'/' t then t else t ++ codes "/32")) [
        | none ↦ fail bad_flow
        | some n ↦ ok (record no_endpoint { network = some n })
      ]

  -- `parseFlowEndpoint`.
  unfoldable pub parse_flow_endpoint : List Bytes → Try FlowEndpoint
  parse_flow_endpoint [] = ok no_endpoint
  parse_flow_endpoint (t ∷ ts) =
      endpoint_address t >>= λ e. parse_port_list [] ts >>= λ ps. ok (record e { ports = ps })

  abbrev pub flow_of_fields : List Bytes → Try SdfFilterRule
  flow_of_fields (action ∷ direction ∷ protocol ∷ word ∷ rest) =
      if ltb (length rest) 3
        || not (equal_fold action (codes "permit"))
        || not (equal_fold word (codes "from"))
      then fail bad_flow
      else elim (at_to [] rest) [
        | none ↦ fail bad_flow
        | some (before, []) ↦ fail bad_flow
        | some (before, t ∷ ts) ↦ parse_flow_endpoint before >>= λ src.
            parse_flow_endpoint (t ∷ ts) >>= λ dst. ok (record {
              action = to_lower action;
              direction = to_lower direction;
              protocol = to_lower protocol;
              source = src;
              destination = dst;
            })
      ]
  flow_of_fields _ = fail bad_flow

  -- `parseFlowDescription`.
  unfoldable pub parse_flow_description : Bytes → Try SdfFilterRule
  unfolding parse_flow_endpoint
  parse_flow_description desc = flow_of_fields (fields desc)
