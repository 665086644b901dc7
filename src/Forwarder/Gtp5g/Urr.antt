-- ===== src/Forwarder/Gtp5g/Urr.antt =====
-- internal/forwarder/gtp5g.go: the attributes of URRs and BARs. A duration is a number of
-- nanoseconds.
use go_upf.Base.{ℕ, Option, none, some, List, Bytes, ◌==◌, if◌then◌else◌}
use go_upf.Gtpv1.{has_bit}
use go_upf.Report.{unmarshal_triggers, perio}
use go_upf.Userspace.Rule.{VolumeLimit}
use go_upf.Userspace.Parse.Urr.{
  UrrElement, urr_id_el, measurement_method_el, measurement_period_el, measurement_information_el,
  reporting_triggers_el, volume_threshold_el, volume_quota_el, other_urr_el, BarElement, bar_id_el,
  notification_delay_el, suggested_packets_el, other_bar_el,
}
use go_upf.Forwarder.Gtp5g.Attr.{
  AttrType, AttrList, no_attrs, attr, ◌+++◌, one_attr, u8, u32, u64, low8, low16, low32, nested,
  urr_volume_threshold_flag, urr_volume_threshold_tovol, urr_volume_threshold_uvol,
  urr_volume_threshold_dvol, urr_volume_quota_flag, urr_volume_quota_tovol, urr_volume_quota_uvol,
  urr_volume_quota_dvol, urr_measurement_method, urr_reporting_trigger, urr_measurement_period,
  urr_measurement_info, urr_volume_threshold, urr_volume_quota,
  bar_downlink_data_notification_delay, bar_buffering_packets_count,
}
use go_upf.Forwarder.Gtp5g.Pdr.{Request, with_attrs, mandatory, no_request, scan}

-- Total, uplink and downlink, as their flags say: HasTOVOL, HasULVOL and HasDLVOL.
abbrev pub flagged : VolumeLimit → ℕ → AttrType → ℕ → AttrList
flagged v k t volume = if has_bit v.flags k then one_attr t (u64 volume) else no_attrs

-- `newVolumeThreshold` and `newVolumeQuota`, of an element that decodes.
unfoldable pub new_volume_threshold : VolumeLimit → AttrList
new_volume_threshold v = attr urr_volume_threshold_flag (u8 v.flags) (
    flagged v 0 urr_volume_threshold_tovol v.total_volume
    +++ flagged v 1 urr_volume_threshold_uvol v.uplink_volume
    +++ flagged v 2 urr_volume_threshold_dvol v.downlink_volume)

unfoldable pub new_volume_quota : VolumeLimit → AttrList
new_volume_quota v = attr urr_volume_quota_flag (u8 v.flags) (
    flagged v 0 urr_volume_quota_tovol v.total_volume
    +++ flagged v 1 urr_volume_quota_uvol v.uplink_volume
    +++ flagged v 2 urr_volume_quota_dvol v.downlink_volume)

-- The variables of `CreateURR`.
pub record UrrRequest : Type 0 where
  pub request : Request
  pub rpt_trig : ℕ
  pub measure_period : ℕ

abbrev pub no_urr_request : UrrRequest
no_urr_request = record { request = no_request; rpt_trig = 0; measure_period = 0 }

abbrev pub urr_attrs : UrrRequest → AttrList → UrrRequest
urr_attrs r ats = record r { request = with_attrs r.request ats }

abbrev pub decoded_or : {A : Type 0} → Option A → (A → Option UrrRequest) → Option UrrRequest
decoded_or none f = none
decoded_or (some v) f = f v

abbrev pub limit_attrs : UrrRequest → Option VolumeLimit → (VolumeLimit → AttrList) → UrrRequest
limit_attrs r none f = r
limit_attrs r (some v) f = urr_attrs r (f v)

abbrev pub triggers_of : Option Bytes → Option ℕ
triggers_of none = none
triggers_of (some b) = unmarshal_triggers b

-- What both loops do with an element but a measurement period.
abbrev pub common_urr_element : UrrRequest → UrrElement → Option UrrRequest
common_urr_element r (urr_id_el v) =
    decoded_or v (λ x. some (record r { request = record r.request { id = x } }))
common_urr_element r (measurement_method_el v) =
    decoded_or v (λ x. some (urr_attrs r (one_attr urr_measurement_method (u8 x))))
common_urr_element r (reporting_triggers_el v) =
    decoded_or (triggers_of v)
      (λ x. some (urr_attrs (record r { rpt_trig = x }) (one_attr urr_reporting_trigger (u32 x))))
common_urr_element r (measurement_period_el v) = some r
common_urr_element r (measurement_information_el v) =
    decoded_or v (λ x. some (urr_attrs r (one_attr urr_measurement_info (u64 x))))
common_urr_element r (volume_threshold_el v) =
    some (limit_attrs r v (λ x. one_attr urr_volume_threshold (nested (new_volume_threshold x))))
common_urr_element r (volume_quota_el v) =
    some (limit_attrs r v (λ x. one_attr urr_volume_quota (nested (new_volume_quota x))))
common_urr_element r other_urr_el = some r

abbrev pub period_attrs : UrrRequest → ℕ → UrrRequest
period_attrs r x =
    urr_attrs (record r { measure_period = x }) (one_attr urr_measurement_period (low32 x))

-- One round of the loop of `CreateURR`: a period of 0 is an error.
abbrev pub create_urr_element : UrrRequest → UrrElement → Option UrrRequest
create_urr_element r (measurement_period_el v) =
    decoded_or v (λ x. if x == 0 then none else some (period_attrs r x))
create_urr_element r x = common_urr_element r x

-- And of `UpdateURR`, which takes any period.
abbrev pub update_urr_element : UrrRequest → UrrElement → Option UrrRequest
update_urr_element r (measurement_period_el v) = decoded_or v (λ x. some (period_attrs r x))
update_urr_element r x = common_urr_element r x

-- A periodic URR must have a period.
abbrev pub has_period : UrrRequest → Option UrrRequest
has_period r =
    if has_bit r.rpt_trig perio then if r.measure_period == 0 then none else some r else some r

-- `CreateURR` up to the timer, and `UpdateURR` up to the request to the kernel.
unfoldable pub create_urr_request : Option (List UrrElement) → Option UrrRequest
unfolding new_volume_threshold new_volume_quota
create_urr_request none = none
create_urr_request (some ies) = decoded_or (scan create_urr_element no_urr_request ies) has_period

unfoldable pub update_urr_request : Option (List UrrElement) → Option UrrRequest
unfolding new_volume_threshold new_volume_quota
update_urr_request none = none
update_urr_request (some ies) = scan update_urr_element no_urr_request ies

-- `nl.AttrU8(v)` keeps eight bits of the delay's nanoseconds.
abbrev pub bar_request_element : Request → BarElement → Option Request
bar_request_element r (bar_id_el v) = mandatory r v (λ x. record r { id = x })
bar_request_element r (notification_delay_el v) =
    mandatory r v (λ x. with_attrs r (one_attr bar_downlink_data_notification_delay (low8 x)))
bar_request_element r (suggested_packets_el v) =
    mandatory r v (λ x. with_attrs r (one_attr bar_buffering_packets_count (low16 x)))
bar_request_element r other_bar_el = some r

-- `CreateBAR` and `UpdateBAR`, up to the request to the kernel.
unfoldable pub bar_request : Option (List BarElement) → Option Request
bar_request none = none
bar_request (some ies) = scan bar_request_element no_request ies
