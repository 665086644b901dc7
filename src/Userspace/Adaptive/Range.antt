-- ===== src/Userspace/Adaptive/Range.antt =====
-- internal/forwarder/userspace/adaptive_qos.go: the bit rates that the control plane has provisioned.
use go_upf.Base.{
  ℕ, ◌+◌, Bool, true, false, Option, none, some, [], ◌∷◌, Assoc, length, ltb, if◌then◌else◌,
}
use go_upf.Gtpv1.{has_bit}
use go_upf.Userspace.Rule.{QerRule, SessionState}
use go_upf.Userspace.Adaptive.Decision.{Authorization, AdaptiveConfig}

pub record BitrateRange : Type 0 where
  pub min : ℕ
  pub max : ℕ
  pub already_set : Bool

abbrev pub no_range : BitrateRange
no_range = record { min = 0; max = 0; already_set = false }

-- `updateRange`.
unfoldable pub update_range : BitrateRange → ℕ → BitrateRange
update_range r v =
    if r.already_set
    then record r { min = if ltb v r.min then v else r.min; max = if ltb r.max v then v else r.max }
    else record { min = v; max = v; already_set = true }

abbrev pub update_range_if : BitrateRange → Option ℕ → BitrateRange
update_range_if r none = r
update_range_if r (some v) = update_range r v

-- `adaptiveCPProvisionedRange`, without the limits of GFBR, which nothing reads.
pub record CpProvisionedRange : Type 0 where
  pub qer_count : ℕ
  pub authorization_max_bitrate_ul : ℕ
  pub authorization_max_bitrate_dl : ℕ
  pub mbr_ul : BitrateRange
  pub mbr_dl : BitrateRange
  pub gbr_ul : BitrateRange
  pub gbr_dl : BitrateRange
  pub gate_closed_ul_count : ℕ
  pub gate_closed_dl_count : ℕ

abbrev pub closed_count : ℕ → Option ℕ → ℕ → ℕ
closed_count k none n = n
closed_count k (some status) n = if has_bit status k then n + 1 else n

-- One round of the loop over the QERs: the gate of the uplink is bit 2, of the downlink bit 0.
unfoldable pub with_qer : CpProvisionedRange → QerRule → CpProvisionedRange
unfolding update_range
with_qer cp q = record cp {
  mbr_ul = update_range_if cp.mbr_ul q.mbr_ul;
  mbr_dl = update_range_if cp.mbr_dl q.mbr_dl;
  gbr_ul = update_range_if cp.gbr_ul q.gbr_ul;
  gbr_dl = update_range_if cp.gbr_dl q.gbr_dl;
  gate_closed_ul_count = closed_count 2 q.gate_status cp.gate_closed_ul_count;
  gate_closed_dl_count = closed_count 0 q.gate_status cp.gate_closed_dl_count;
}

unfoldable pub with_qers : CpProvisionedRange → Assoc ℕ QerRule → CpProvisionedRange
unfolding with_qer
with_qers cp [] = cp
with_qers cp ((id, q) ∷ qs) = with_qers (with_qer cp q) qs

abbrev pub authorized : Option Authorization → CpProvisionedRange → CpProvisionedRange
authorized none cp = cp
authorized (some a) cp = record cp {
  authorization_max_bitrate_ul = a.max_bitrate_ul;
  authorization_max_bitrate_dl = a.max_bitrate_dl;
}

abbrev pub authorized_by : Option AdaptiveConfig → CpProvisionedRange → CpProvisionedRange
authorized_by none cp = cp
authorized_by (some c) cp = authorized c.authorization cp

abbrev pub no_provision : ℕ → CpProvisionedRange
no_provision count = record {
  qer_count = count;
  authorization_max_bitrate_ul = 0;
  authorization_max_bitrate_dl = 0;
  mbr_ul = no_range;
  mbr_dl = no_range;
  gbr_ul = no_range;
  gbr_dl = no_range;
  gate_closed_ul_count = 0;
  gate_closed_dl_count = 0;
}

-- `collectCPProvisionedRange` of a session that is there.
unfoldable pub collect_cp_provisioned_range :
    {F : Type 0} → Option AdaptiveConfig → SessionState F → CpProvisionedRange
unfolding with_qers
collect_cp_provisioned_range cfg s =
    with_qers (authorized_by cfg (no_provision (length s.qers))) s.qers
