-- ===== src/Userspace/Adaptive/Limits.antt =====
-- internal/forwarder/userspace/adaptive_qos.go: the rates of the profile for a predicted burst.

use go_upf.Base.{ℕ, ◌≤◌, ◌<◌, ◌≡◌, true, Option, bytes_beq, codes, arith}
use go_upf.Userspace.Adaptive.Decision.{
  AdaptiveReport, AdaptiveProfile, AdaptiveConfig, rate_from_burst, burst_window, required_ul,
  within_limit, guaranteed, derive_predictive_burst_decision, select_adaptive_profile,
}

within_limit-le : (limit rate : ℕ) → 0 < limit → within_limit limit rate ≤ limit
within_limit-le limit rate h = ground (arith, h)

guaranteed-le : (rate : ℕ) → guaranteed rate ≤ rate
guaranteed-le rate = ground arith

within_limit_pos : (limit rate : ℕ) → 0 < limit → 0 < rate → 0 < within_limit limit rate
within_limit_pos limit rate h k = ground (arith, h, k)

required_ul_pos : (dl : ℕ) → 0 < required_ul dl
required_ul_pos dl = ground arith

guaranteed_pos : (rate : ℕ) → 0 < rate → 0 < guaranteed rate
guaranteed_pos rate h = ground (arith, h)

-- Within what is authorized, and nothing guaranteed above the maximum.
abbrev pub IsAuthorized : ℕ → ℕ → AdaptiveProfile → Type 0
IsAuthorized max_ul max_dl p =
    (p.mbr_ul ≤ max_ul)
    × (p.mbr_dl ≤ max_dl)
    × (p.gfbr_ul ≤ p.mbr_ul)
    × (p.gfbr_dl ≤ p.mbr_dl)
    × (0 < p.gfbr_ul)

-- For a report of a predicted burst, whatever its size and its times, and where the control plane
-- authorizes a maximum bit rate for each direction: the profile's maximum rates are within these, in
-- neither direction is a guaranteed rate above the maximum one, and the uplink has a guaranteed rate.
pub select_adaptive_profile-IsAuthorized :
    (cfg : Option AdaptiveConfig) (r : AdaptiveReport) (max_ul max_dl : ℕ)
    → bytes_beq r.scenario (codes "predictive-burst") ≡ true
    → 0 < max_ul
    → 0 < max_dl
    → IsAuthorized max_ul max_dl (select_adaptive_profile cfg r max_ul max_dl)
unfolding select_adaptive_profile derive_predictive_burst_decision
select_adaptive_profile-IsAuthorized cfg r max_ul max_dl e h k =
    let dl = rate_from_burst r.burst_size (burst_window r) in
    rw e (
      within_limit-le max_ul (required_ul dl) h,
      within_limit-le max_dl dl k,
      guaranteed-le (within_limit max_ul (required_ul dl)),
      guaranteed-le (within_limit max_dl dl),
      guaranteed_pos _ (within_limit_pos max_ul (required_ul dl) h (required_ul_pos dl)),
    )
