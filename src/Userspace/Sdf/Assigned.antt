-- ===== src/Userspace/Sdf/Assigned.antt =====
-- internal/forwarder/userspace/sdf.go: the flow description of a session's own traffic.
use go_upf.Base.{
  ℕ, Bool, true, false, not, ◌&&◌, ◌||◌, Option, none, some, [], ◌∷◌, ◌≡◌, refl, length, ◌==◌,
  if◌then◌else◌, Bytes, bytes_beq, codes, ap, ◌∙◌, sym,
}
use go_upf.Userspace.Rule.{IpNet, SdfFilterRule, Pdi, PdrRule, ok}
use go_upf.Userspace.Sdf.{
  PacketMeta, PacketDirection, uplink, downlink, rule_matches, match_sdf, endpoint_matches,
  endpoints_match_rule, protocol_matches,
}
use go_upf.Userspace.Sdf.Flow.{parse_flow_description}

-- The rule of that text: any traffic to the address that the session was assigned.
abbrev pub to_assigned : SdfFilterRule
to_assigned = record {
  action = codes "permit";
  direction = codes "out";
  protocol = codes "ip";
  source = record { any = true; assigned = false; network = none; ports = [] };
  destination = record { any = false; assigned = true; network = none; ports = [] };
}

-- The PDR's own address is there, and is the one given.
abbrev pub is_own : Bytes → Bytes → Bool
is_own ue ip = not (length ue == 0) && bytes_beq ue ip

any_protocol : (n : ℕ) → protocol_matches (codes "ip") n ≡ true
unfolding protocol_matches
any_protocol n = refl

to_assigned_endpoints :
    (ue src dst : Bytes) (sp dp : ℕ) (ports : Bool)
    → endpoints_match_rule to_assigned ue src sp dst dp ports ≡ is_own ue dst
unfolding endpoints_match_rule endpoint_matches
to_assigned_endpoints ue src dst sp dp ports = same (is_own ue dst)
  where
    same : (b : Bool) → (if b then true else false) ≡ b
    same true = refl
    same false = refl

to_assigned_downlink :
    (ue : Bytes) (m : PacketMeta) → rule_matches to_assigned ue m downlink ≡ is_own ue m.dst_ip
unfolding rule_matches
to_assigned_downlink ue m =
    rw
      (
        any_protocol m.protocol,
        to_assigned_endpoints ue m.src_ip m.dst_ip m.src_port m.dst_port m.has_ports,
      )
      (plain (is_own ue m.dst_ip))
  where
    plain : (b : Bool) → (b || false) ≡ b
    plain true = refl
    plain false = refl

to_assigned_uplink :
    (ue : Bytes) (m : PacketMeta)
    → rule_matches to_assigned ue m uplink ≡ (is_own ue m.dst_ip || is_own ue m.src_ip)
unfolding rule_matches
to_assigned_uplink ue m =
    rw
      (
        any_protocol m.protocol,
        to_assigned_endpoints ue m.src_ip m.dst_ip m.src_port m.dst_port m.has_ports,
        to_assigned_endpoints ue m.dst_ip m.src_ip m.dst_port m.src_port m.has_ports,
      )
      refl

only_rule :
    (p : PdrRule) (pdi : Pdi) (m : PacketMeta) (d : PacketDirection)
    → p.pdi ≡ some pdi
    → pdi.sdf_rules ≡ to_assigned ∷ []
    → match_sdf p (some m) d ≡ rule_matches to_assigned pdi.ue_ipv4 m d
unfolding match_sdf
only_rule p pdi m d e r = rw (match_sdf, e, r) (same (rule_matches to_assigned pdi.ue_ipv4 m d))
  where
    same : (b : Bool) → (if b then true else false) ≡ b
    same true = refl
    same false = refl

-- For a PDR whose one SDF rule is what the text "permit out ip from any to assigned" parses to: a
-- downlink packet matches if and only if it goes to the UE's address of the PDR, and an uplink packet
-- if and only if it comes from that address or goes to it, whatever its protocol and its ports, and
-- nothing matches where the PDR has no UE address.
pub match_sdf-assigned :
    (parse_cidr : Bytes → Option IpNet) (p : PdrRule) (pdi : Pdi) (r : SdfFilterRule)
    (m : PacketMeta)
    → parse_flow_description parse_cidr (codes "permit out ip from any to assigned") ≡ ok r
    → p.pdi ≡ some pdi
    → pdi.sdf_rules ≡ r ∷ []
    → (match_sdf p (some m) downlink ≡ is_own pdi.ue_ipv4 m.dst_ip)
      × (match_sdf p (some m) uplink ≡ (is_own pdi.ue_ipv4 m.dst_ip || is_own pdi.ue_ipv4 m.src_ip))
unfolding parse_flow_description
match_sdf-assigned parse_cidr p pdi r m t e f = (
  only_rule p pdi m downlink e (f ∙ ap (λ x. x ∷ []) parsed_rule)
      ∙ to_assigned_downlink pdi.ue_ipv4 m,
  only_rule p pdi m uplink e (f ∙ ap (λ x. x ∷ []) parsed_rule) ∙ to_assigned_uplink pdi.ue_ipv4 m,
)
  where
    injected : ok to_assigned ≡ ok r → to_assigned ≡ r
    injected h = cc

    parsed_rule : r ≡ to_assigned
    parsed_rule = sym (injected t)
