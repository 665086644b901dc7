-- ===== src/Userspace/Usage/Volume.antt =====
-- internal/forwarder/userspace/pipeline.go and urr_periodic.go: the volumes that are counted.
use go_upf.Base.{
  ℕ, ◌+◌, ◌%◌, Bool, true, false, Option, none, some, List, [], ◌∷◌, ◌≡◌, refl, sym, ◌∙◌, subst,
  arith, lookup-insert, ◌==◌, Bool-cases, inl, inr, nat_eq,
}
use go_upf.Report.{UsaReport, VolumeMeasure}
use go_upf.Userspace.Rule.{UrrRule, SessionState}
use go_upf.Userspace.Usage.{
  count_volume, counted, usage_of, continued, last_report, mark, measure_urr, reports_of,
  with_report, measure_urrs, limit_reached,
}

-- The total is the sum of the two directions, in 64 bits, for the bytes and for the packets.
abbrev pub AddsUp : VolumeMeasure → Type 0
AddsUp v =
    (v.total_volume ≡ (v.uplink_volume + v.downlink_volume) % 18446744073709551616)
    × (v.total_pkt_num ≡ (v.uplink_pkt_num + v.downlink_pkt_num) % 18446744073709551616)

count_volume-AddsUp :
    (bytes : ℕ) (up : Bool) (v : VolumeMeasure) → AddsUp v → AddsUp (count_volume bytes up v)
unfolding count_volume
count_volume-AddsUp bytes true v (h, k) = (omega (arith, h), omega (arith, k))
count_volume-AddsUp bytes false v (h, k) = (omega (arith, h), omega (arith, k))

-- Every report of the list.
abbrev pub AllAddUp : List UsaReport → Type 0
AllAddUp [] = Unit {0}
AllAddUp (r ∷ rs) = AddsUp r.volum_measure × AllAddUp rs

-- Every report that the session keeps.
abbrev pub SessionAddsUp : {F : Type 0} → SessionState F → Type 0
SessionAddsUp s = (id : ℕ) → AllAddUp (reports_of id s.urr_reports)

last_report-AddsUp :
    (rs : List UsaReport) (r : UsaReport)
    → AllAddUp rs
    → last_report rs ≡ some r
    → AddsUp r.volum_measure
last_report-AddsUp [] r h e = absurd cc
last_report-AddsUp (x ∷ []) r (h, k) e = subst (λ y. AddsUp (y.volum_measure)) (unwrap e) h
  where
    unwrap : some x ≡ some r → x ≡ r
    unwrap e = cc
last_report-AddsUp (x ∷ y ∷ rs) r (h, k) e = last_report-AddsUp (y ∷ rs) r k e

usage_of-AddsUp :
    (now id : ℕ) (rs : List UsaReport) → AllAddUp rs → AddsUp (usage_of now id rs).volum_measure
usage_of-AddsUp now id rs h = from (last_report rs) refl
  where
    from : (o : Option UsaReport) → last_report rs ≡ o → AddsUp (continued now id o).volum_measure
    from none e = (refl, refl)
    from (some r) e = last_report-AddsUp rs r h e

mark_volume : (b : Bool) (t : ℕ) (r : UsaReport) → (mark b t r).volum_measure ≡ r.volum_measure
mark_volume true t r = refl
mark_volume false t r = refl

measure_urr-AddsUp :
    (now : ℕ) (urr : UrrRule) (bytes : ℕ) (up : Bool) (rs : List UsaReport)
    → AllAddUp rs
    → AddsUp (measure_urr now urr bytes up rs).0.volum_measure
unfolding measure_urr
measure_urr-AddsUp now urr bytes up rs h =
    let r = counted now bytes up (usage_of now urr.id rs) in
    let total = r.volum_measure.total_volume in
    subst AddsUp
      (sym (
        mark_volume (limit_reached urr.volume_quota total) 256
          (mark (limit_reached urr.volume_threshold total) 2 r)
        ∙ mark_volume (limit_reached urr.volume_threshold total) 2 r))
      (count_volume-AddsUp bytes up (usage_of now urr.id rs).volum_measure
        (usage_of-AddsUp now urr.id rs h))

module _ {F : Type 0} where
  with_report-AddsUp :
      (id : ℕ) (r : UsaReport) (s : SessionState F)
      → AddsUp r.volum_measure
      → SessionAddsUp s
      → SessionAddsUp (with_report id r s)
  with_report-AddsUp id r s h k j = elim (Bool-cases (id == j)) [
    | inl e ↦ rw (lookup-insert id j (r ∷ []) s.urr_reports, e) (h, tt)
    | inr e ↦ rw (lookup-insert id j (r ∷ []) s.urr_reports, e) (k j)
  ]

  -- If the volumes of every report that a session keeps add up, uplink and downlink to the total,
  -- for bytes and for packets and in 64 bits, then they do after a packet in either direction has
  -- been counted on any list of URRs.
  pub measure_urrs-AddsUp :
      (now : ℕ) (urrs : List UrrRule) (bytes : ℕ) (up : Bool) (s : SessionState F)
      → SessionAddsUp s
      → SessionAddsUp (measure_urrs now urrs bytes up s).1
  unfolding measure_urrs
  measure_urrs-AddsUp now [] bytes up s h = h
  measure_urrs-AddsUp now (urr ∷ urrs) bytes up s h =
      let r = measure_urr now urr bytes up (reports_of urr.id s.urr_reports) in
      measure_urrs-AddsUp now urrs bytes up (with_report urr.id r.0 s) (
        with_report-AddsUp urr.id r.0 s
          (measure_urr-AddsUp now urr bytes up (reports_of urr.id s.urr_reports) (h urr.id)) h)
