-- ===== src/Forwarder/Gtp5g/Pdr.antt =====
-- internal/forwarder/gtp5g.go: the attributes of a PDR.
use go_upf.Base.{ℕ, Option, none, some, List, [], ◌∷◌, ◌++◌, Bytes, length, ltb, if◌then◌else◌}
use go_upf.Userspace.Rule.{Fteid}
use go_upf.Forwarder.Gtp5g.Attr.{
  AttrList, no_attrs, attr, ◌+++◌, one_attr, u8, u32, bytes, text, nested, Constants, pdi_src_intf,
  pdi_f_teid, pdi_ue_addr_ipv4, pdi_sdf_filter, f_teid_i_teid, f_teid_gtpu_addr_ipv4,
  pdr_precedence, pdr_pdi, pdr_outer_header_removal, pdr_far_id, pdr_qer_id, pdr_urr_id,
  pdr_unix_socket_path,
}
use go_upf.Forwarder.Gtp5g.Flow.{IpAndMask, SdfFilterIe, new_sdf_filter}

-- A child of a PDI element, with what go-pfcp's decoder of its type answers.
pub data PdiIe : Type 0 where
  source_interface_el : Option ℕ → PdiIe
  fteid_el : Option Fteid → PdiIe
  ue_ip_el : Option Bytes → PdiIe  -- IPv4Address
  sdf_filter_el : SdfFilterIe → PdiIe
  other_pdi_el : PdiIe

pub data PdrIe : Type 0 where
  pdr_id_el precedence_el outer_header_removal_el far_id_el qer_id_el urr_id_el : Option ℕ → PdrIe
  pdi_el : Option (List PdiIe) → PdrIe
  other_pdr_el : PdrIe

-- What the first loop of `newPdi` has found.
pub record PdiScan : Type 0 where
  pub attrs : AttrList
  pub src_if : ℕ
  pub sdf_ies : List SdfFilterIe

abbrev pub scan_pdi : PdiScan → PdiIe → Option PdiScan
scan_pdi s (source_interface_el none) = some s
scan_pdi s (source_interface_el (some v)) =
    some (record s { attrs = s.attrs +++ one_attr pdi_src_intf (u8 v); src_if = v })
scan_pdi s (fteid_el none) = some s
scan_pdi s (fteid_el (some v)) = some (record s {
  attrs =
      s.attrs
      +++ one_attr pdi_f_teid (
          nested (attr f_teid_i_teid (u32 v.teid) (one_attr f_teid_gtpu_addr_ipv4 (bytes v.ipv4))));
})
scan_pdi s (ue_ip_el none) = some s
scan_pdi s (ue_ip_el (some v)) =
    some (record s { attrs = s.attrs +++ one_attr pdi_ue_addr_ipv4 (bytes v) })
scan_pdi s (sdf_filter_el x) =
    if ltb (length x.payload) 3 then none else some (record s { sdf_ies = s.sdf_ies ++ x ∷ [] })
scan_pdi s other_pdi_el = some s

-- A loop over elements that stops at the first error.
abbrev pub scan : {S X : Type 0} → (S → X → Option S) → S → List X → Option S
scan f s [] = some s
scan f s (x ∷ xs) = elim (f s x) [ none ↦ none | some s' ↦ scan f s' xs ]

-- A PDR or FAR that is being put together: its ID and attributes.
pub record Request : Type 0 where
  pub id : ℕ
  pub attrs : AttrList

abbrev pub no_request : Request
no_request = record { id = 0; attrs = no_attrs }

abbrev pub with_attrs : Request → AttrList → Request
with_attrs r ats = record r { attrs = r.attrs +++ ats }

-- A value that must decode, and one that is left out where it does not.
abbrev pub mandatory : Request → Option ℕ → (ℕ → Request) → Option Request
mandatory r none f = none
mandatory r (some v) f = some (f v)

abbrev pub lenient : Request → Option ℕ → (ℕ → Request) → Option Request
lenient r none f = some r
lenient r (some v) f = some (f v)

-- `if v != nil`: an empty list of attributes is nil.
abbrev pub unless_nil : Request → (AttrList → AttrList) → AttrList → Request
unless_nil r f no_attrs = r
unless_nil r f (attr t v ats) = with_attrs r (f (attr t v ats))

module _ (c : Constants) (everything : IpAndMask)
    (parse_cidr parse_host : Bytes → Option IpAndMask) where
  -- The second loop.
  abbrev pub sdf_attrs : ℕ → List SdfFilterIe → Option AttrList
  sdf_attrs src_if [] = some no_attrs
  sdf_attrs src_if (x ∷ xs) = elim (new_sdf_filter c everything parse_cidr parse_host x src_if) [
    | none ↦ none
    | some v ↦ elim (sdf_attrs src_if xs) [
      | none ↦ none
      | some ats ↦ some (attr pdi_sdf_filter (nested v) ats)
    ]
  ]

  abbrev pub scanned_pdi : Option PdiScan → Option AttrList
  scanned_pdi none = none
  scanned_pdi (some s) = elim (sdf_attrs s.src_if s.sdf_ies) [
    | none ↦ none
    | some ats ↦ some (s.attrs +++ ats)
  ]

  -- `newPdi`.
  unfoldable pub new_pdi : Option (List PdiIe) → Option AttrList
  unfolding new_sdf_filter
  new_pdi none = none
  new_pdi (some ies) =
      scanned_pdi (scan scan_pdi (record { attrs = no_attrs; src_if = 0; sdf_ies = [] }) ies)

  abbrev pub pdi_request : Request → Option (List PdiIe) → Option Request
  pdi_request r els = elim (new_pdi els) [
    | none ↦ none
    | some v ↦ some (unless_nil r (λ ats. one_attr pdr_pdi (nested ats)) v)
  ]

  abbrev pub create_pdr_element : Request → PdrIe → Option Request
  create_pdr_element r (pdr_id_el v) = mandatory r v (λ x. record r { id = x })
  create_pdr_element r (precedence_el v) =
      mandatory r v (λ x. with_attrs r (one_attr pdr_precedence (u32 x)))
  create_pdr_element r (pdi_el els) = pdi_request r els
  create_pdr_element r (outer_header_removal_el v) =
      mandatory r v (λ x. with_attrs r (one_attr pdr_outer_header_removal (u8 x)))
  create_pdr_element r (far_id_el v) =
      mandatory r v (λ x. with_attrs r (one_attr pdr_far_id (u32 x)))
  create_pdr_element r (qer_id_el v) = lenient r v (λ x. with_attrs r (one_attr pdr_qer_id (u32 x)))
  create_pdr_element r (urr_id_el v) = lenient r v (λ x. with_attrs r (one_attr pdr_urr_id (u32 x)))
  create_pdr_element r other_pdr_el = some r

  -- Only the PDR's ID and its PDI must decode in an update.
  abbrev pub update_pdr_element : Request → PdrIe → Option Request
  update_pdr_element r (pdr_id_el v) = mandatory r v (λ x. record r { id = x })
  update_pdr_element r (precedence_el v) =
      lenient r v (λ x. with_attrs r (one_attr pdr_precedence (u32 x)))
  update_pdr_element r (pdi_el els) = pdi_request r els
  update_pdr_element r (outer_header_removal_el v) =
      lenient r v (λ x. with_attrs r (one_attr pdr_outer_header_removal (u8 x)))
  update_pdr_element r (far_id_el v) = lenient r v (λ x. with_attrs r (one_attr pdr_far_id (u32 x)))
  update_pdr_element r (qer_id_el v) = lenient r v (λ x. with_attrs r (one_attr pdr_qer_id (u32 x)))
  update_pdr_element r (urr_id_el v) = lenient r v (λ x. with_attrs r (one_attr pdr_urr_id (u32 x)))
  update_pdr_element r other_pdr_el = some r

  abbrev pub with_socket : Option Request → Option Request
  with_socket none = none
  with_socket (some r) =
      some (with_attrs r (one_attr pdr_unix_socket_path (text c.pdr_addr_for_netlink)))

  -- `CreatePDR` and `UpdatePDR`, up to the request to the kernel.
  unfoldable pub create_pdr_request : Option (List PdrIe) → Option Request
  unfolding new_pdi
  create_pdr_request none = none
  create_pdr_request (some ies) = with_socket (scan create_pdr_element no_request ies)

  unfoldable pub update_pdr_request : Option (List PdrIe) → Option Request
  unfolding new_pdi
  update_pdr_request none = none
  update_pdr_request (some ies) = scan update_pdr_element no_request ies
