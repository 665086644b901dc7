-- ===== src/Userspace/Parse/Urr.antt =====
-- internal/forwarder/userspace/parse.go: URRs and BARs.
use go_upf.Base.{ℕ, ◌%◌, ◌^◌, false, Option, none, some, List, Bytes}
use go_upf.Gtpv1.{has_bit}
use go_upf.Report.{MeasureMethod, MeasureInformation, unmarshal_triggers}
use go_upf.Userspace.Rule.{Try, ok, ◌>>=◌, decoded, VolumeLimit, UrrRule, BarRule}
use go_upf.Userspace.Parse.{each_element, with_id}

-- `decodeMeasurementMethod`.
unfoldable pub decode_measurement_method : ℕ → MeasureMethod
decode_measurement_method v = record {
  durat = has_bit v 2;
  volum = has_bit v 1;
  event = has_bit v 0;
}

-- `decodeMeasurementInformation`, by the fields that the reports read.
unfoldable pub decode_measurement_information : ℕ → MeasureInformation
decode_measurement_information v = record {
  mbqe = has_bit v 7;
  inam = has_bit v 6;
  radi = has_bit v 5;
  istm = has_bit v 4;
  mnop = has_bit v 3;
}

pub data UrrElement : Type 0 where
  urr_id_el measurement_method_el measurement_period_el measurement_information_el :
      Option ℕ → UrrElement
  reporting_triggers_el : Option Bytes → UrrElement
  volume_threshold_el volume_quota_el : Option VolumeLimit → UrrElement
  other_urr_el : UrrElement

abbrev pub urr_element : UrrRule → UrrElement → Try UrrRule
urr_element r (urr_id_el v) = decoded v >>= λ x. ok (record r { id = x })
urr_element r (measurement_method_el v) =
    decoded v >>= λ x. ok (record r { measurement_method = decode_measurement_method x })
urr_element r (reporting_triggers_el v) = decoded v >>= λ b.
    decoded (unmarshal_triggers b) >>= λ x. ok (record r { reporting_trigger = x })
urr_element r (measurement_period_el v) =
    decoded v >>= λ x. ok (record r { measurement_period = x })
urr_element r (measurement_information_el v) =
    decoded v >>= λ x. ok (record r { measurement_information = decode_measurement_information x })
urr_element r (volume_threshold_el v) =
    decoded v >>= λ x. ok (record r { volume_threshold = some x })
urr_element r (volume_quota_el v) = decoded v >>= λ x. ok (record r { volume_quota = some x })
urr_element r other_urr_el = ok r

abbrev pub empty_urr : Bytes → UrrRule
empty_urr raw = record {
  id = 0;
  measurement_method = record { durat = false; volum = false; event = false };
  reporting_trigger = 0;
  measurement_period = 0;
  measurement_information = record {
    mbqe = false;
    inam = false;
    radi = false;
    istm = false;
    mnop = false;
  };
  volume_threshold = none;
  volume_quota = none;
  raw = raw;
}

-- `parseURR` and `parseUpdateURR`, then `decodeURR`.
unfoldable pub decode_urr : Option (List UrrElement) → Bytes → Try UrrRule
unfolding unmarshal_triggers decode_measurement_method decode_measurement_information
decode_urr els raw =
    decoded els >>= λ xs. each_element urr_element (empty_urr raw) xs >>= λ r. with_id (λ x. x.id) r

pub data BarElement : Type 0 where
  bar_id_el notification_delay_el suggested_packets_el : Option ℕ → BarElement
  other_bar_el : BarElement

abbrev pub bar_element : BarRule → BarElement → Try BarRule
bar_element r (bar_id_el v) = decoded v >>= λ x. ok (record r { id = x })
bar_element r (notification_delay_el v) =
    decoded v >>= λ x. ok (record r { notification_delay = some x })
bar_element r (suggested_packets_el v) =
    decoded v >>= λ x. ok (record r { suggested_packets = some (x % 2 ^ 16) })
bar_element r other_bar_el = ok r

abbrev pub empty_bar : Bytes → BarRule
empty_bar raw = record { id = 0; notification_delay = none; suggested_packets = none; raw = raw }

-- `parseBAR` and `parseUpdateBAR`, then `decodeBAR`.
unfoldable pub decode_bar : Option (List BarElement) → Bytes → Try BarRule
decode_bar els raw =
    decoded els >>= λ xs. each_element bar_element (empty_bar raw) xs >>= λ r. with_id (λ x. x.id) r
