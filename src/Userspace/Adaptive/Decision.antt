-- ===== src/Userspace/Adaptive/Decision.antt =====
-- internal/forwarder/userspace/adaptive_qos.go and adaptive_story.go: the profile that a report gets.
-- A text is the list of its codes, and a duration a number of nanoseconds.
use go_upf.Base.{
  ℕ, ◌+◌, ◌-◌, ◌*◌, ◌/◌, ◌%◌, Bool, true, ◌&&◌, ◌||◌, Option, none, some, List, [], ◌∷◌, Bytes,
  bytes_beq, codes, equal_fold, ltb, ◌==◌, if◌then◌else◌,
}

-- `AdaptiveReport`, by the fields that the decision and the flows read.
pub record AdaptiveReport : Type 0 where
  pub ue_address : Bytes
  pub flow_id : Bytes
  pub report_type : Bytes
  pub timestamp : ℕ
  pub scenario : Bytes
  pub traffic_pattern : Bytes
  pub latency_sensitivity : Bytes
  pub packet_loss_tolerance : Bytes
  pub burst_size : ℕ  -- uint64, as are the two numbers of milliseconds
  pub burst_duration : ℕ
  pub burst_duration_ms : ℕ
  pub deadline : ℕ
  pub deadline_ms : ℕ
  pub seid_hint : ℕ

pub record AdaptiveProfile : Type 0 where
  pub profile_id : Bytes
  pub gate_ul : Option Bool
  pub gate_dl : Option Bool
  pub gfbr_ul : ℕ
  pub gfbr_dl : ℕ
  pub mbr_ul : ℕ
  pub mbr_dl : ℕ
  pub duration : ℕ

-- `factory.AdaptiveQoS`: what it authorizes, and its rules.
pub record Authorization : Type 0 where
  pub max_bitrate_ul : ℕ
  pub max_bitrate_dl : ℕ
  pub default_profile_duration : ℕ

pub record AdaptiveRule : Type 0 where
  pub name : Bytes
  pub traffic_pattern : Bytes
  pub latency_sensitivity : Bytes
  pub packet_loss_tolerance : Bytes
  pub profile : AdaptiveProfile  -- the overrides and the duration

pub record AdaptiveConfig : Type 0 where
  pub authorization : Option Authorization
  pub rules : List AdaptiveRule

abbrev pub mod64 : ℕ → ℕ
mod64 n = n % 18446744073709551616

-- `rateFromBurst`: bits per second that carry the burst within the window, rounded up.
unfoldable pub rate_from_burst : ℕ → ℕ → ℕ
rate_from_burst size window =
    let w = if window == 0 then 1 else window in
    if size == 0 then 0 else mod64 (mod64 (mod64 (size * 8) * 1000) + (w - 1)) / w

-- `windowMs` of `derivePredictiveBurstDecision`.
abbrev pub burst_window : AdaptiveReport → ℕ
burst_window r =
    let w =
      if r.deadline_ms == 0 || (ltb 0 r.burst_duration_ms && ltb r.deadline_ms r.burst_duration_ms)
      then r.burst_duration_ms
      else r.deadline_ms in
    if w == 0 then 150 else w

abbrev pub required_ul : ℕ → ℕ
required_ul dl =
    let ul = dl / 8 in
    let ul' = if ul == 0 && ltb 0 dl then dl / 4 else ul in if ul' == 0 then 100000 else ul'

-- The bit rate that the control plane authorizes, 0 for any.
abbrev pub within_limit : ℕ → ℕ → ℕ
within_limit limit rate = if ltb 0 limit && ltb limit rate then limit else rate

-- Three quarters of the maximum bit rate are guaranteed.
abbrev pub guaranteed : ℕ → ℕ
guaranteed rate = let g = mod64 (rate * 3) / 4 in if g == 0 && ltb 0 rate then rate else g

-- `storyDurationMs`.
abbrev pub duration_ms : ℕ → ℕ → ℕ
duration_ms duration raw = if ltb 0 raw then raw else duration / 1000000

-- `DeadlineMsOrBurstDurationMs`.
abbrev pub profile_ms : AdaptiveReport → ℕ
profile_ms r =
    let ms = duration_ms r.deadline r.deadline_ms in
    if ltb 0 ms then ms else duration_ms r.burst_duration r.burst_duration_ms

-- `time.Duration(ms) * time.Millisecond` in 64 bits with a sign. A duration below 0 is given as 0,
-- since the caller replaces both.
abbrev pub milliseconds : ℕ → ℕ
milliseconds ms = let ns = mod64 (ms * 1000000) in if ltb ns 9223372036854775808 then ns else 0

-- `derivePredictiveBurstDecision`; the limits are those of `cp`, 0 where there is none.
unfoldable pub derive_predictive_burst_decision : AdaptiveReport → ℕ → ℕ → AdaptiveProfile
unfolding rate_from_burst
derive_predictive_burst_decision r max_ul max_dl =
    let dl = rate_from_burst r.burst_size (burst_window r) in
    let ul = within_limit max_ul (required_ul dl) in
    record {
      profile_id = codes "burst-protect";
      gate_ul = some true;
      gate_dl = some true;
      gfbr_ul = guaranteed ul;
      gfbr_dl = guaranteed (within_limit max_dl dl);
      mbr_ul = ul;
      mbr_dl = within_limit max_dl dl;
      duration = milliseconds (profile_ms r);
    }

-- An empty field of a rule matches anything.
abbrev pub field_matches : Bytes → Bytes → Bool
field_matches [] text = true
field_matches (c ∷ s) text = equal_fold (c ∷ s) text

-- `adaptiveRuleMatches`.
unfoldable pub adaptive_rule_matches : AdaptiveRule → AdaptiveReport → Bool
adaptive_rule_matches rule r =
    field_matches rule.traffic_pattern r.traffic_pattern
    && (field_matches rule.latency_sensitivity r.latency_sensitivity
        && field_matches rule.packet_loss_tolerance r.packet_loss_tolerance)

abbrev pub rule_name : Bytes → Bytes
rule_name [] = codes "adaptive-rule"
rule_name (c ∷ s) = c ∷ s

-- `defaultAdaptiveDuration`: 30 seconds, unless the configuration says otherwise.
abbrev pub duration_or : ℕ → ℕ
duration_or d = if d == 0 then 30000000000 else d

abbrev pub default_of : Option Authorization → ℕ
default_of none = 30000000000
default_of (some a) = duration_or a.default_profile_duration

unfoldable pub default_adaptive_duration : Option AdaptiveConfig → ℕ
default_adaptive_duration none = 30000000000
default_adaptive_duration (some c) = default_of c.authorization

abbrev pub fallback_profile : ℕ → AdaptiveProfile
fallback_profile duration = record {
  profile_id = codes "adaptive-default";
  gate_ul = some true;
  gate_dl = some true;
  gfbr_ul = 1000000;
  gfbr_dl = 1000000;
  mbr_ul = 1000000;
  mbr_dl = 1000000;
  duration = duration;
}

-- The first rule that matches, and the fallback where none does.
unfoldable pub first_matching :
    AdaptiveProfile → List AdaptiveRule → AdaptiveReport → AdaptiveProfile
unfolding adaptive_rule_matches
first_matching default [] r = default
first_matching default (rule ∷ rules) r =
    let rest = first_matching default rules r in
    if adaptive_rule_matches rule r
    then record rule.profile { profile_id = rule_name rule.name }
    else rest

abbrev pub configured_rules : Option AdaptiveConfig → List AdaptiveRule
configured_rules none = []
configured_rules (some c) = c.rules

-- `selectAdaptiveProfile`, without the text of its reason.
unfoldable pub select_adaptive_profile :
    Option AdaptiveConfig → AdaptiveReport → ℕ → ℕ → AdaptiveProfile
unfolding derive_predictive_burst_decision first_matching default_adaptive_duration
select_adaptive_profile cfg r max_ul max_dl =
    if bytes_beq r.scenario (codes "predictive-burst")
    then derive_predictive_burst_decision r max_ul max_dl
    else first_matching (fallback_profile (default_adaptive_duration cfg)) (configured_rules cfg) r
