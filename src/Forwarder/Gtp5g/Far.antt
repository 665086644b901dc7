-- ===== src/Forwarder/Gtp5g/Far.antt =====
-- internal/forwarder/gtp5g.go: the attributes of a FAR. Of the two types of forwarding parameters, the
-- one that the request reads is `forwarding_el`, and the other one `other_far_el`.
use go_upf.Base.{ℕ, Bool, Option, none, some, List, [], ◌∷◌, Bytes, if◌then◌else◌}
use go_upf.Report.{unmarshal_action}
use go_upf.Userspace.Rule.{OuterHeaderCreation}
use go_upf.Userspace.Parse.Far.{
  ForwardingElement, destination_interface_el, sm_req_flags_el, network_instance_el,
  forwarding_policy_el, outer_header_creation_el, other_forwarding_el, FarElement, far_id_el,
  bar_id_el, apply_action_el, forwarding_el, other_far_el,
}
use go_upf.Forwarder.Gtp5g.Attr.{
  AttrList, no_attrs, attr, ◌+++◌, one_attr, u8, u16, u32, bytes, text, nested,
  outer_header_creation_description, outer_header_creation_o_teid, outer_header_creation_port,
  outer_header_creation_peer_addr_ipv4, forwarding_parameter_outer_header_creation,
  forwarding_parameter_forwarding_policy, forwarding_parameter_pfcpsm_req_flags, far_apply_action,
  far_forwarding_parameter, far_bar_id,
}
use go_upf.Forwarder.Gtp5g.Pdr.{
  Request, with_attrs, mandatory, lenient, unless_nil, no_request, scan,
}

-- `factory.UpfGtpDefaultPort`.
abbrev pub upf_gtp_default_port : ℕ
upf_gtp_default_port = 2152

abbrev pub action_of : Option Bytes → Option ℕ
action_of none = none
action_of (some b) = unmarshal_action b

-- `HasTEID` and `HasIPv4` of the element that ParseOuterHeaderCreation returns.
module _ (has_teid has_ipv4 : OuterHeaderCreation → Bool) where
  -- With a TEID the port is that of GTP-U, otherwise the element's.
  unfoldable pub creation_attrs : OuterHeaderCreation → AttrList
  creation_attrs v = attr outer_header_creation_description (u16 v.description) (
      (if has_teid v
        then attr outer_header_creation_o_teid (u32 v.teid)
            (one_attr outer_header_creation_port (u16 upf_gtp_default_port))
        else one_attr outer_header_creation_port (u16 v.port))
      +++ (if has_ipv4 v
          then one_attr outer_header_creation_peer_addr_ipv4 (bytes v.ipv4)
          else no_attrs))

  -- What one element adds; an element that does not decode adds nothing.
  abbrev pub forwarding_attrs : ForwardingElement → AttrList
  forwarding_attrs (destination_interface_el v) = no_attrs
  forwarding_attrs (network_instance_el v) = no_attrs
  forwarding_attrs (outer_header_creation_el none) = no_attrs
  forwarding_attrs (outer_header_creation_el (some v)) =
      one_attr forwarding_parameter_outer_header_creation (nested (creation_attrs v))
  forwarding_attrs (forwarding_policy_el none) = no_attrs
  forwarding_attrs (forwarding_policy_el (some v)) =
      one_attr forwarding_parameter_forwarding_policy (text v)
  forwarding_attrs (sm_req_flags_el none) = no_attrs
  forwarding_attrs (sm_req_flags_el (some v)) =
      one_attr forwarding_parameter_pfcpsm_req_flags (u8 v)
  forwarding_attrs other_forwarding_el = no_attrs

  -- `newForwardingParameter`, which has no failing branch.
  unfoldable pub new_forwarding_parameter : List ForwardingElement → AttrList
  unfolding creation_attrs
  new_forwarding_parameter [] = no_attrs
  new_forwarding_parameter (x ∷ xs) = forwarding_attrs x +++ new_forwarding_parameter xs

  abbrev pub forwarding_request : Request → Option (List ForwardingElement) → Option Request
  forwarding_request r none = none
  forwarding_request r (some xs) = some (
      unless_nil r (λ ats. one_attr far_forwarding_parameter (nested ats))
        (new_forwarding_parameter xs))

  -- One round of the loop of `CreateFAR` and of `UpdateFAR`, which also applies the action.
  abbrev pub far_request_element : Request → FarElement → Option Request
  far_request_element r (far_id_el v) = mandatory r v (λ x. record r { id = x })
  far_request_element r (apply_action_el v) =
      mandatory r (action_of v) (λ x. with_attrs r (one_attr far_apply_action (u16 x)))
  far_request_element r (forwarding_el v) = forwarding_request r v
  far_request_element r (bar_id_el v) = lenient r v (λ x. with_attrs r (one_attr far_bar_id (u8 x)))
  far_request_element r other_far_el = some r

  -- `CreateFAR`, up to the request to the kernel.
  unfoldable pub create_far_request : Option (List FarElement) → Option Request
  unfolding new_forwarding_parameter
  create_far_request none = none
  create_far_request (some ies) = scan far_request_element no_request ies
