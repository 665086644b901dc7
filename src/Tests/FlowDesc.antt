-- ===== src/Tests/FlowDesc.antt =====
-- Flow descriptions on concrete input.
use go_upf.Base.{ℕ, Option, none, some, [], ◌∷◌, ◌≡◌, ◌↔◌, refl, Bytes, codes, fields}
use go_upf.Forwarder.FlowDesc.{
  FlowDesc, parse_flow_desc, parse_flow_desc_ports, parse_flow_desc_ip_net,
}
use go_upf.Forwarder.FlowDesc.Grammar.{IsFilterRule}
use go_upf.Forwarder.FlowDesc.Exact.{parse_flow_desc-IsFilterRule}

abbrev no_network : Bytes → Option ℕ
no_network s = none

abbrev dns : FlowDesc ℕ
dns = record {
  action = codes "permit";
  dir = codes "out";
  proto = 17;
  src = 0;
  dst = 0;
  src_ports = (53 ∷ []) ∷ (1000 ∷ 2000 ∷ []) ∷ [];
  dst_ports = [];
}

parse_flow_desc-IsFilterRule_example :
    (parse_flow_desc 0 no_network no_network
        (codes "permit out 17 from any 53,1000-2000 to assigned")
      ≡ some dns)
    ↔ IsFilterRule 0 no_network no_network
        (fields (codes "permit out 17 from any 53,1000-2000 to assigned"))
        dns
parse_flow_desc-IsFilterRule_example =
    parse_flow_desc-IsFilterRule 0 no_network no_network
      (codes "permit out 17 from any 53,1000-2000 to assigned") dns

parse_flow_desc_accepted :
    parse_flow_desc 0 no_network no_network
      (codes "permit out 17 from any 53,1000-2000 to assigned")
    ≡ some dns
unfolding parse_flow_desc parse_flow_desc_ports parse_flow_desc_ip_net
parse_flow_desc_accepted = refl
