-- ===== src/Userspace/Parse/Qer.antt =====
-- internal/forwarder/userspace/parse.go: QERs.
use go_upf.Base.{ℕ, Option, none, some, List, Bytes}
use go_upf.Userspace.Rule.{Try, ok, ◌>>=◌, decoded, QerRule}
use go_upf.Userspace.Parse.{each_element, with_id}

pub data QerElement : Type 0 where
  qer_id_el correlation_id_el gate_status_el qfi_el rqi_el paging_policy_el : Option ℕ → QerElement
  mbr_el gbr_el : (ul dl : Option ℕ) → QerElement
  other_qer_el : QerElement

abbrev pub qer_element : QerRule → QerElement → Try QerRule
qer_element r (qer_id_el v) = decoded v >>= λ x. ok (record r { id = x })
qer_element r (correlation_id_el v) = decoded v >>= λ x. ok (record r { correlation_id = some x })
qer_element r (gate_status_el v) = decoded v >>= λ x. ok (record r { gate_status = some x })
qer_element r (mbr_el ul dl) =
    decoded ul >>= λ u. decoded dl >>= λ d. ok (record r { mbr_ul = some u; mbr_dl = some d })
qer_element r (gbr_el ul dl) =
    decoded ul >>= λ u. decoded dl >>= λ d. ok (record r { gbr_ul = some u; gbr_dl = some d })
qer_element r (qfi_el v) = decoded v >>= λ x. ok (record r { qfi = some x })
qer_element r (rqi_el v) = decoded v >>= λ x. ok (record r { rqi = some x })
qer_element r (paging_policy_el v) = decoded v >>= λ x. ok (record r { ppi = some x })
qer_element r other_qer_el = ok r

abbrev pub empty_qer : Bytes → QerRule
empty_qer raw = record {
  id = 0;
  correlation_id = none;
  gate_status = none;
  mbr_ul = none;
  mbr_dl = none;
  gbr_ul = none;
  gbr_dl = none;
  qfi = none;
  rqi = none;
  ppi = none;
  raw = raw;
}

-- `parseQER` and `parseUpdateQER`, then `decodeQER`.
unfoldable pub decode_qer : Option (List QerElement) → Bytes → Try QerRule
decode_qer els raw =
    decoded els >>= λ xs. each_element qer_element (empty_qer raw) xs >>= λ r. with_id (λ x. x.id) r
