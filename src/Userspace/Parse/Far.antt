-- ===== src/Userspace/Parse/Far.antt =====
-- internal/forwarder/userspace/parse.go: FARs.
use go_upf.Base.{ℕ, Option, none, some, List, String, Bytes}
use go_upf.Report.{unmarshal_action}
use go_upf.Userspace.Rule.{
  Try, ok, ◌>>=◌, decoded, OuterHeaderCreation, ForwardingParameters, FarRule,
}
use go_upf.Userspace.Parse.{each_element, with_id}

pub data ForwardingElement : Type 0 where
  destination_interface_el sm_req_flags_el : Option ℕ → ForwardingElement
  network_instance_el forwarding_policy_el : Option String → ForwardingElement
  outer_header_creation_el : Option OuterHeaderCreation → ForwardingElement
  other_forwarding_el : ForwardingElement

pub data FarElement : Type 0 where
  far_id_el bar_id_el : Option ℕ → FarElement
  apply_action_el : Option Bytes → FarElement
  forwarding_el : Option (List ForwardingElement) → FarElement  -- both types of parameters
  other_far_el : FarElement

abbrev pub empty_forwarding : ForwardingParameters
empty_forwarding = record {
  destination_interface = none;
  network_instance = "";
  outer_header_creation = none;
  forwarding_policy = "";
  sm_req_flags = none;
}

abbrev pub forwarding_element : ForwardingParameters → ForwardingElement → Try ForwardingParameters
forwarding_element fp (destination_interface_el v) =
    decoded v >>= λ x. ok (record fp { destination_interface = some x })
forwarding_element fp (network_instance_el v) =
    decoded v >>= λ x. ok (record fp { network_instance = x })
forwarding_element fp (outer_header_creation_el v) =
    decoded v >>= λ x. ok (record fp { outer_header_creation = some x })
forwarding_element fp (forwarding_policy_el v) =
    decoded v >>= λ x. ok (record fp { forwarding_policy = x })
forwarding_element fp (sm_req_flags_el v) =
    decoded v >>= λ x. ok (record fp { sm_req_flags = some x })
forwarding_element fp other_forwarding_el = ok fp

-- `decodeForwardingParameters`.
unfoldable pub decode_forwarding : List ForwardingElement → Try ForwardingParameters
decode_forwarding xs = each_element forwarding_element empty_forwarding xs

abbrev pub far_element : FarRule → FarElement → Try FarRule
far_element r (far_id_el v) = decoded v >>= λ x. ok (record r { id = x })
far_element r (apply_action_el v) =
    decoded v >>= λ b. decoded (unmarshal_action b) >>= λ x. ok (record r { apply_action = x })
far_element r (forwarding_el v) =
    decoded v >>= λ xs. decode_forwarding xs >>= λ x. ok (record r { forwarding = some x })
far_element r (bar_id_el v) = decoded v >>= λ x. ok (record r { bar_id = some x })
far_element r other_far_el = ok r

abbrev pub empty_far : Bytes → FarRule
empty_far raw = record { id = 0; apply_action = 0; forwarding = none; bar_id = none; raw = raw }

-- `parseFAR` and `parseUpdateFAR`, then `decodeFAR`.
unfoldable pub decode_far : Option (List FarElement) → Bytes → Try FarRule
unfolding decode_forwarding unmarshal_action
decode_far els raw =
    decoded els >>= λ xs. each_element far_element (empty_far raw) xs >>= λ r. with_id (λ x. x.id) r
