-- ===== src/Userspace/Parse/Pdr.antt =====
-- internal/forwarder/userspace/parse.go: PDRs.
use go_upf.Base.{ℕ, Option, none, some, List, [], ◌∷◌, ◌++◌, String, Bytes}
use go_upf.Userspace.Rule.{Try, ok, ◌>>=◌, decoded, Fteid, Pdi, PdrRule, SdfFilterRule}
use go_upf.Userspace.Parse.{each_element, with_id}

pub data PdiElement : Type 0 where
  source_interface_el : Option ℕ → PdiElement
  fteid_el : Option Fteid → PdiElement
  network_instance_el : Option String → PdiElement
  ue_ip_el : Option Bytes → PdiElement  -- the IPv4 address, [] for none
  sdf_filter_el : Option (Option Bytes) → PdiElement  -- the flow description, if HasFD()
  application_el : Option String → PdiElement
  other_pdi_el : PdiElement

pub data PdrElement : Type 0 where
  pdr_id_el precedence_el outer_header_removal_el far_id_el qer_id_el urr_id_el :
      Option ℕ → PdrElement
  pdi_el : Option (List PdiElement) → PdrElement
  other_pdr_el : PdrElement

abbrev pub empty_pdi : Pdi
empty_pdi = record {
  source_interface = none;
  fteid = none;
  network_instance = "";
  ue_ipv4 = [];
  sdf_filters = [];
  sdf_rules = [];
  application_id = "";
}

-- `len(v.IPv4Address) > 0`.
abbrev pub ue_address : Bytes → Pdi → Pdi
ue_address [] pdi = pdi
ue_address (b ∷ bs) pdi = record pdi { ue_ipv4 = b ∷ bs }

abbrev pub empty_pdr : Bytes → PdrRule
empty_pdr raw = record {
  id = 0;
  precedence = none;
  pdi = none;
  outer_header_removal = none;
  far_id = none;
  qer_ids = [];
  urr_ids = [];
  raw = raw;
}

module _ (parse_flow : Bytes → Try SdfFilterRule) where
  abbrev pub pdi_element : Pdi → PdiElement → Try Pdi
  pdi_element pdi (source_interface_el v) =
      decoded v >>= λ x. ok (record pdi { source_interface = some x })
  pdi_element pdi (fteid_el v) = decoded v >>= λ x. ok (record pdi { fteid = some x })
  pdi_element pdi (network_instance_el v) =
      decoded v >>= λ x. ok (record pdi { network_instance = x })
  pdi_element pdi (ue_ip_el v) = decoded v >>= λ x. ok (ue_address x pdi)
  pdi_element pdi (sdf_filter_el none) = decoded none
  pdi_element pdi (sdf_filter_el (some none)) = ok pdi
  pdi_element pdi (sdf_filter_el (some (some fd))) = parse_flow fd >>= λ rule. ok (record pdi {
    sdf_filters = pdi.sdf_filters ++ fd ∷ [];
    sdf_rules = pdi.sdf_rules ++ rule ∷ [];
  })
  pdi_element pdi (application_el v) = decoded v >>= λ x. ok (record pdi { application_id = x })
  pdi_element pdi other_pdi_el = ok pdi

  -- `decodePDI`.
  unfoldable pub decode_pdi : Option (List PdiElement) → Try Pdi
  decode_pdi els = decoded els >>= λ xs. each_element pdi_element empty_pdi xs

  abbrev pub pdr_element : PdrRule → PdrElement → Try PdrRule
  pdr_element r (pdr_id_el v) = decoded v >>= λ x. ok (record r { id = x })
  pdr_element r (precedence_el v) = decoded v >>= λ x. ok (record r { precedence = some x })
  pdr_element r (pdi_el v) = decode_pdi v >>= λ x. ok (record r { pdi = some x })
  pdr_element r (outer_header_removal_el v) =
      decoded v >>= λ x. ok (record r { outer_header_removal = some x })
  pdr_element r (far_id_el v) = decoded v >>= λ x. ok (record r { far_id = some x })
  pdr_element r (qer_id_el v) = decoded v >>= λ x. ok (record r { qer_ids = r.qer_ids ++ x ∷ [] })
  pdr_element r (urr_id_el v) = decoded v >>= λ x. ok (record r { urr_ids = r.urr_ids ++ x ∷ [] })
  pdr_element r other_pdr_el = ok r

  -- `parsePDR` and `parseUpdatePDR`, then `decodePDR`.
  unfoldable pub decode_pdr : Option (List PdrElement) → Bytes → Try PdrRule
  decode_pdr els raw = decoded els >>= λ xs.
      each_element pdr_element (empty_pdr raw) xs >>= λ r. with_id (λ x. x.id) r
