-- ===== src/Userspace/Adaptive/Spans.antt =====
-- internal/forwarder/userspace/adaptive_qos.go: what the ranges of `collectCPProvisionedRange` span.
use go_upf.Base.{
  ℕ, ◌≤◌, ◌≡◌, refl, subst, true, false, Option, none, some, List, [], ◌∷◌, Assoc, length, member,
  arith, Bool-cases, inl, inr,
}
use go_upf.Userspace.Rule.{QerRule, SessionState}
use go_upf.Userspace.Adaptive.Decision.{Authorization, AdaptiveConfig}
use go_upf.Userspace.Adaptive.Range.{
  BitrateRange, no_range, update_range, update_range_if, CpProvisionedRange, with_qer, with_qers,
  authorized, authorized_by, no_provision, collect_cp_provisioned_range,
}

-- The rates of one kind that the QERs carry, the last one first.
abbrev pub with_rate : Option ℕ → List ℕ → List ℕ
with_rate none vs = vs
with_rate (some v) vs = v ∷ vs

abbrev pub rates_of : (QerRule → Option ℕ) → List ℕ → Assoc ℕ QerRule → List ℕ
rates_of f vs [] = vs
rates_of f vs ((id, q) ∷ qs) = rates_of f (with_rate (f q) vs) qs

-- The range is that of the rates: they lie between its ends, and its ends are two of them; where it
-- was never set there is no rate.
pub record Spans (r : BitrateRange) (vs : List ℕ) : Type 0 where
  pub within : (v : ℕ) → member v vs ≡ true → (r.min ≤ v) × (v ≤ r.max)
  pub ends : r.already_set ≡ true → (member r.min vs ≡ true) × (member r.max vs ≡ true)
  pub unset : r.already_set ≡ false → vs ≡ []

within-first :
    (r : BitrateRange) (v w : ℕ)
    → r.already_set ≡ false
    → member w (v ∷ []) ≡ true
    → ((update_range r v).min ≤ w) × (w ≤ (update_range r v).max)
unfolding update_range
within-first r v w e m = ground (arith, e, m)

Spans-update_range :
    (r : BitrateRange) (vs : List ℕ) (v : ℕ) → Spans r vs → Spans (update_range r v) (v ∷ vs)
unfolding update_range
Spans-update_range r vs v s = elim (Bool-cases r.already_set) [
  | inl e ↦ record {
    within = λ w m. ground (arith, e, m, s.within w);
    ends = λ q. ground (arith, e, s.ends);
    unset = λ q. absurd (ground (arith, e, q));
  }
  | inr e ↦ record {
    within = λ w m. within-first r v w e (subst (λ us. member w (v ∷ us) ≡ true) (s.unset e) m);
    ends = λ q. ground (arith, e);
    unset = λ q. absurd (ground (arith, e, q));
  }
]

Spans-update_range_if :
    (r : BitrateRange) (vs : List ℕ) (o : Option ℕ)
    → Spans r vs
    → Spans (update_range_if r o) (with_rate o vs)
Spans-update_range_if r vs none s = s
Spans-update_range_if r vs (some v) s = Spans-update_range r vs v s

-- The four ranges of the rates that `us`, `ds`, `gu` and `gd` list.
pub record AllSpan (cp : CpProvisionedRange) (us ds gu gd : List ℕ) : Type 0 where
  pub mbr_ul : Spans cp.mbr_ul us
  pub mbr_dl : Spans cp.mbr_dl ds
  pub gbr_ul : Spans cp.gbr_ul gu
  pub gbr_dl : Spans cp.gbr_dl gd

with_qers-AllSpan :
    (qs : Assoc ℕ QerRule) (cp : CpProvisionedRange) (us ds gu gd : List ℕ)
    → AllSpan cp us ds gu gd
    → AllSpan
        (with_qers cp qs)
        (rates_of (λ q. q.mbr_ul) us qs)
        (rates_of (λ q. q.mbr_dl) ds qs)
        (rates_of (λ q. q.gbr_ul) gu qs)
        (rates_of (λ q. q.gbr_dl) gd qs)
unfolding with_qers with_qer
with_qers-AllSpan [] cp us ds gu gd s = s
with_qers-AllSpan ((id, q) ∷ qs) cp us ds gu gd s =
    with_qers-AllSpan qs (with_qer cp q) (with_rate q.mbr_ul us) (with_rate q.mbr_dl ds)
      (with_rate q.gbr_ul gu) (with_rate q.gbr_dl gd)
      (record {
        mbr_ul = Spans-update_range_if cp.mbr_ul us q.mbr_ul s.mbr_ul;
        mbr_dl = Spans-update_range_if cp.mbr_dl ds q.mbr_dl s.mbr_dl;
        gbr_ul = Spans-update_range_if cp.gbr_ul gu q.gbr_ul s.gbr_ul;
        gbr_dl = Spans-update_range_if cp.gbr_dl gd q.gbr_dl s.gbr_dl;
      })

no_range-Spans : Spans no_range []
no_range-Spans = record { within = λ v m. cc; ends = λ e. cc; unset = λ e. refl }

start-AllSpan :
    (n ul dl : ℕ)
    → AllSpan
        (record (no_provision n) {
          authorization_max_bitrate_ul = ul;
          authorization_max_bitrate_dl = dl;
        })
        []
        []
        []
        []
start-AllSpan n ul dl = record {
  mbr_ul = no_range-Spans;
  mbr_dl = no_range-Spans;
  gbr_ul = no_range-Spans;
  gbr_dl = no_range-Spans;
}

authorized-AllSpan :
    (o : Option Authorization) (n : ℕ) → AllSpan (authorized o (no_provision n)) [] [] [] []
authorized-AllSpan none n = start-AllSpan n 0 0
authorized-AllSpan (some a) n = start-AllSpan n a.max_bitrate_ul a.max_bitrate_dl

authorized_by-AllSpan :
    (cfg : Option AdaptiveConfig) (n : ℕ) → AllSpan (authorized_by cfg (no_provision n)) [] [] [] []
authorized_by-AllSpan none n = start-AllSpan n 0 0
authorized_by-AllSpan (some c) n = authorized-AllSpan c.authorization n

-- For each kind of rate, maximum and guaranteed, uplink and downlink, the range that is collected of
-- a session is that of the rates of its QERs: all of them lie between its ends, its ends are two of
-- them, and a range that was never set says that no QER carries such a rate.
pub collect_cp_provisioned_range-AllSpan :
    {F : Type 0} (cfg : Option AdaptiveConfig) (s : SessionState F)
    → AllSpan
        (collect_cp_provisioned_range cfg s)
        (rates_of (λ q. q.mbr_ul) [] s.qers)
        (rates_of (λ q. q.mbr_dl) [] s.qers)
        (rates_of (λ q. q.gbr_ul) [] s.qers)
        (rates_of (λ q. q.gbr_dl) [] s.qers)
unfolding collect_cp_provisioned_range
collect_cp_provisioned_range-AllSpan cfg s =
    with_qers-AllSpan s.qers (authorized_by cfg (no_provision (length s.qers))) [] [] [] []
      (authorized_by-AllSpan cfg (length s.qers))
