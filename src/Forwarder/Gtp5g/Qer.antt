-- ===== src/Forwarder/Gtp5g/Qer.antt =====
-- internal/forwarder/gtp5g.go: the attributes of a QER.
use go_upf.Base.{ℕ, ◌/◌, Option, none, some, List, [], ◌∷◌}
use go_upf.Userspace.Parse.Qer.{
  QerElement, qer_id_el, correlation_id_el, gate_status_el, qfi_el, rqi_el, paging_policy_el,
  mbr_el, gbr_el, other_qer_el,
}
use go_upf.Forwarder.Gtp5g.Attr.{
  AttrList, attr, one_attr, u8, u32, low8, low32, nested, qer_corr_id, qer_gate, qer_mbr, qer_gbr,
  qer_qfi, qer_rqi, qer_ppi, qer_mbr_ul_high32, qer_mbr_ul_low8, qer_mbr_dl_high32, qer_mbr_dl_low8,
  qer_gbr_ul_high32, qer_gbr_ul_low8, qer_gbr_dl_high32, qer_gbr_dl_low8,
}
use go_upf.Forwarder.Gtp5g.Pdr.{Request, with_attrs, no_request}

-- A bit rate of 64 bits as its 32 bits above the lowest eight, and those.
abbrev pub mbr_attrs : ℕ → ℕ → AttrList
mbr_attrs ul dl = attr qer_mbr_ul_high32 (low32 (ul / 256)) (
    attr qer_mbr_ul_low8 (low8 ul)
      (attr qer_mbr_dl_high32 (low32 (dl / 256)) (one_attr qer_mbr_dl_low8 (low8 dl))))

abbrev pub gbr_attrs : ℕ → ℕ → AttrList
gbr_attrs ul dl = attr qer_gbr_ul_high32 (low32 (ul / 256)) (
    attr qer_gbr_ul_low8 (low8 ul)
      (attr qer_gbr_dl_high32 (low32 (dl / 256)) (one_attr qer_gbr_dl_low8 (low8 dl))))

-- Whatever does not decode is passed over, the QER's ID included.
abbrev pub with_value : Request → (ℕ → AttrList) → Option ℕ → Request
with_value r f none = r
with_value r f (some v) = with_attrs r (f v)

abbrev pub with_rates : Request → (ℕ → ℕ → AttrList) → Option ℕ → Option ℕ → Request
with_rates r f none dl = r
with_rates r f (some ul) none = r
with_rates r f (some ul) (some dl) = with_attrs r (f ul dl)

abbrev pub qer_request_element : Request → QerElement → Request
qer_request_element r (qer_id_el none) = r
qer_request_element r (qer_id_el (some v)) = record r { id = v }
qer_request_element r (correlation_id_el v) = with_value r (λ x. one_attr qer_corr_id (u32 x)) v
qer_request_element r (gate_status_el v) = with_value r (λ x. one_attr qer_gate (u8 x)) v
qer_request_element r (mbr_el ul dl) =
    with_rates r (λ u d. one_attr qer_mbr (nested (mbr_attrs u d))) ul dl
qer_request_element r (gbr_el ul dl) =
    with_rates r (λ u d. one_attr qer_gbr (nested (gbr_attrs u d))) ul dl
qer_request_element r (qfi_el v) = with_value r (λ x. one_attr qer_qfi (u8 x)) v
qer_request_element r (rqi_el v) = with_value r (λ x. one_attr qer_rqi (u8 x)) v
qer_request_element r (paging_policy_el v) = with_value r (λ x. one_attr qer_ppi (u8 x)) v
qer_request_element r other_qer_el = r

abbrev pub qer_elements : Request → List QerElement → Request
qer_elements r [] = r
qer_elements r (x ∷ xs) = qer_elements (qer_request_element r x) xs

-- `CreateQER` and `UpdateQER`, up to the request to the kernel.
unfoldable pub qer_request : Option (List QerElement) → Option Request
qer_request none = none
qer_request (some ies) = some (qer_elements no_request ies)
