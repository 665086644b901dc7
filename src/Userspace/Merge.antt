-- ===== src/Userspace/Merge.antt =====
-- internal/forwarder/userspace/driver.go: what an Update element leaves of a PDR or a FAR.
use go_upf.Base.{Option, none, some, List, [], ◌∷◌, String, ◌==◌, if◌then◌else◌}
use go_upf.Userspace.Rule.{PdrRule, Pdi, FarRule, ForwardingParameters}

-- `if next != nil`, `if len(next) > 0` and `if next != ""`.
abbrev pub newer : {A : Type 0} → Option A → Option A → Option A
newer prev none = prev
newer prev (some x) = some x

abbrev pub newer_list : {A : Type 0} → List A → List A → List A
newer_list prev [] = prev
newer_list prev (x ∷ xs) = x ∷ xs

abbrev pub newer_text : String → String → String
newer_text prev String.[] = prev
newer_text prev (String.◌∷◌ c s) = String.◌∷◌ c s

-- `mergePDI`.
unfoldable pub merge_pdi : Option Pdi → Pdi → Pdi
merge_pdi none next = next
merge_pdi (some prev) next = record {
  source_interface = newer prev.source_interface next.source_interface;
  fteid = newer prev.fteid next.fteid;
  network_instance = newer_text prev.network_instance next.network_instance;
  ue_ipv4 = newer_list prev.ue_ipv4 next.ue_ipv4;
  sdf_filters = newer_list prev.sdf_filters next.sdf_filters;
  sdf_rules = newer_list prev.sdf_rules next.sdf_rules;
  application_id = newer_text prev.application_id next.application_id;
}

abbrev merged_pdi : Option Pdi → Option Pdi → Option Pdi
merged_pdi prev none = prev
merged_pdi prev (some next) = some (merge_pdi prev next)

-- `mergePDRRule`, of two rules that are there.
unfoldable pub merge_pdr_rule : PdrRule → PdrRule → PdrRule
merge_pdr_rule prev next = record {
  id = next.id;
  precedence = newer prev.precedence next.precedence;
  pdi = merged_pdi prev.pdi next.pdi;
  outer_header_removal = newer prev.outer_header_removal next.outer_header_removal;
  far_id = newer prev.far_id next.far_id;
  qer_ids = newer_list prev.qer_ids next.qer_ids;
  urr_ids = newer_list prev.urr_ids next.urr_ids;
  raw = newer_list prev.raw next.raw;
}

-- `mergeForwardingParameters`.
unfoldable pub merge_forwarding_parameters :
    Option ForwardingParameters → ForwardingParameters → ForwardingParameters
merge_forwarding_parameters none next = next
merge_forwarding_parameters (some prev) next = record {
  destination_interface = newer prev.destination_interface next.destination_interface;
  network_instance = newer_text prev.network_instance next.network_instance;
  outer_header_creation = newer prev.outer_header_creation next.outer_header_creation;
  forwarding_policy = newer_text prev.forwarding_policy next.forwarding_policy;
  sm_req_flags = newer prev.sm_req_flags next.sm_req_flags;
}

abbrev merged_forwarding :
    Option ForwardingParameters → Option ForwardingParameters → Option ForwardingParameters
merged_forwarding prev none = prev
merged_forwarding prev (some next) = some (merge_forwarding_parameters prev next)

-- `mergeFARRule`, of two rules that are there.
unfoldable pub merge_far_rule : FarRule → FarRule → FarRule
merge_far_rule prev next = record {
  id = next.id;
  apply_action = if next.apply_action == 0 then prev.apply_action else next.apply_action;
  forwarding = merged_forwarding prev.forwarding next.forwarding;
  bar_id = newer prev.bar_id next.bar_id;
  raw = newer_list prev.raw next.raw;
}
