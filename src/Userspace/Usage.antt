-- ===== src/Userspace/Usage.antt =====
-- internal/forwarder/userspace/pipeline.go and urr_periodic.go: the volume that a URR has counted, and
-- the reports on it.
pub mod Volume
use go_upf.Base.{
  ℕ, ◌+◌, ◌-◌, ◌%◌, ◌^◌, Bool, true, false, not, ◌&&◌, Option, none, some, List, [], ◌∷◌, ◌++◌,
  length, Assoc, lookup, insert, ltb, leb, ◌==◌, if◌then◌else◌, nat_eq,
}
use go_upf.Gtpv1.{has_bit}
use go_upf.Report.{
  UsaReport, VolumeMeasure, zero_volume, set_reporting_trigger, SessReport, Report, usa, perio,
}
use go_upf.Userspace.Rule.{UrrRule, VolumeLimit, SessionState}
use go_upf.Userspace.Binding.{PdrBinding}
use go_upf.Userspace.State.{Userspace, add_one, store_session, publish_snapshot, emit_report}

-- `x += uint64(bytes)`.
abbrev pub add_bytes : ℕ → ℕ → ℕ
add_bytes n bytes = (n + bytes) % 18446744073709551616

abbrev pub last_report : List UsaReport → Option UsaReport
last_report [] = none
last_report (r ∷ []) = some r
last_report (r ∷ s ∷ rs) = last_report (s ∷ rs)

abbrev pub fresh_report : ℕ → ℕ → UsaReport
fresh_report now id = record {
  urrid = id;
  urseqn = 0;
  usar_trigger = 0;
  volum_measure = zero_volume;
  durat_measure = 0;
  query_urr_ref = 0;
  start_time = now;
  end_time = now;
}

-- `sess.URRReports[id]`.
abbrev pub reports_of : ℕ → Assoc ℕ (List UsaReport) → List UsaReport
reports_of id m = or_none (lookup id m)
  where
    or_none : Option (List UsaReport) → List UsaReport
    or_none none = []
    or_none (some l) = l

-- The counting in `updateUsage`.
unfoldable pub count_volume : ℕ → Bool → VolumeMeasure → VolumeMeasure
count_volume bytes true v = record v {
  total_volume = add_bytes v.total_volume bytes;
  total_pkt_num = add_one v.total_pkt_num;
  uplink_volume = add_bytes v.uplink_volume bytes;
  uplink_pkt_num = add_one v.uplink_pkt_num;
}
count_volume bytes false v = record v {
  total_volume = add_bytes v.total_volume bytes;
  total_pkt_num = add_one v.total_pkt_num;
  downlink_volume = add_bytes v.downlink_volume bytes;
  downlink_pkt_num = add_one v.downlink_pkt_num;
}

-- The report that is counted on.
abbrev pub continued : ℕ → ℕ → Option UsaReport → UsaReport
continued now id none = fresh_report now id
continued now id (some r) = record r { end_time = now }

abbrev pub usage_of : ℕ → ℕ → List UsaReport → UsaReport
usage_of now id current = continued now id (last_report current)

abbrev pub counted : ℕ → ℕ → Bool → UsaReport → UsaReport
counted now bytes uplink r = record r { volum_measure = count_volume bytes uplink r.volum_measure }

-- The tests against a threshold and a quota.
unfoldable pub limit_reached : Option VolumeLimit → ℕ → Bool
limit_reached none total = false
limit_reached (some l) total = ltb 0 l.total_volume && leb l.total_volume total

-- RPT_TRIG_VOLTH, RPT_TRIG_VOLQU and RPT_TRIG_PERIO are 2, 256 and 1.
abbrev pub mark : Bool → ℕ → UsaReport → UsaReport
mark false trigger r = r
mark true trigger r = record r { usar_trigger = set_reporting_trigger r.usar_trigger trigger }

-- What `updateUsage` makes of one URR: the report, and whether it is sent.
unfoldable pub measure_urr : ℕ → UrrRule → ℕ → Bool → List UsaReport → UsaReport × Bool
unfolding count_volume limit_reached set_reporting_trigger
measure_urr now urr bytes uplink current =
    let r = counted now bytes uplink (usage_of now urr.id current) in
    let total = r.volum_measure.total_volume in
    let volth = limit_reached urr.volume_threshold total in
    let volqu = limit_reached urr.volume_quota total in
    (mark volqu 256 (mark volth 2 r), if volth then true else volqu)

abbrev pub periodic : UrrRule → Bool
periodic urr = ltb 0 urr.measurement_period && has_bit urr.reporting_trigger perio

-- The report of a period that has passed.
abbrev pub periodic_report : ℕ → UsaReport → UsaReport
periodic_report now r = record r { end_time = now; usar_trigger = set_reporting_trigger 0 1 }

abbrev pub add_report : Option UsaReport → List Report → List Report
add_report none rs = rs
add_report (some r) rs = usa r ∷ rs

module _ {F : Type 0} where
  abbrev pub with_report : ℕ → UsaReport → SessionState F → SessionState F
  with_report id r s = record s { urr_reports = insert id (r ∷ []) s.urr_reports }

  -- The loop over the URRs: the reports that are sent, and the session after.
  unfoldable pub measure_urrs :
      ℕ → List UrrRule → ℕ → Bool → SessionState F → List Report × SessionState F
  unfolding measure_urr
  measure_urrs now [] bytes uplink s = ([], s)
  measure_urrs now (urr ∷ urrs) bytes uplink s =
      let r = measure_urr now urr bytes uplink (reports_of urr.id s.urr_reports) in
      let rest = measure_urrs now urrs bytes uplink (with_report urr.id r.0 s) in
      (if r.1 then usa r.0 ∷ rest.0 else rest.0, rest.1)

  abbrev pub emit_reports : ℕ → List Report → Userspace F → Userspace F
  emit_reports seid [] u = u
  emit_reports seid (r ∷ rs) u = emit_report (record { seid = seid; reports = r ∷ rs }) u

  -- `updateUsage`.
  unfoldable pub update_usage : ℕ → PdrBinding → ℕ → Bool → Userspace F → Userspace F
  unfolding measure_urrs emit_report publish_snapshot
  update_usage now b bytes uplink u =
      if length b.urrs == 0 then u else (elim (lookup b.seid u.sessions) [
        | none ↦ u
        | some s ↦
            let r = measure_urrs now b.urrs bytes uplink s in
            emit_reports b.seid r.0 (publish_snapshot (store_session b.seid r.1 u))
      ])

  abbrev pub restart_period : ℕ → ℕ → SessionState F → SessionState F
  restart_period now id s = record s { urr_period_at = insert id now s.urr_period_at }

  abbrev pub period_start : ℕ → SessionState F → ℕ
  period_start id s = elim (lookup id s.urr_period_at) [ none ↦ 0 | some t ↦ t ]

  -- One URR of a session: the report, if any, and the session after.
  unfoldable pub tick_urr : ℕ → ℕ → UrrRule → SessionState F → Option UsaReport × SessionState F
  unfolding set_reporting_trigger
  tick_urr now id urr s =
      if not (periodic urr)
      then (none, s)
      else if period_start id s == 0
      then (none, restart_period now id s)
      else if ltb (now - period_start id s) urr.measurement_period
      then (none, s)
      else (elim (last_report (reports_of id s.urr_reports)) [
        | none ↦ (none, restart_period now id s)
        | some r ↦ (
          some (periodic_report now r),
          restart_period now id (with_report id (fresh_report now id) s),
        )
      ])

  -- The loop over the URRs of a session.
  unfoldable pub tick_urrs : ℕ → Assoc ℕ UrrRule → SessionState F → List Report × SessionState F
  unfolding tick_urr
  tick_urrs now [] s = ([], s)
  tick_urrs now ((id, urr) ∷ urrs) s =
      let r = tick_urr now id urr s in
      let rest = tick_urrs now urrs r.1 in (add_report r.0 rest.0, rest.1)

  -- The loop over the sessions: what is to be sent, in the order of the sessions.
  unfoldable pub tick_sessions :
      ℕ → Assoc ℕ (SessionState F) → List SessReport × Assoc ℕ (SessionState F)
  unfolding tick_urrs
  tick_sessions now [] = ([], [])
  tick_sessions now ((seid, s) ∷ ss) =
      let r = tick_urrs now s.urrs s in
      let rest = tick_sessions now ss in
      (
        elim r.0 [ [] ↦ rest.0 | x ∷ xs ↦ record { seid = seid; reports = x ∷ xs } ∷ rest.0 ],
        (seid, r.1) ∷ rest.1,
      )

  -- `emitPeriodicURRReports`.
  unfoldable pub emit_periodic_urr_reports : ℕ → Userspace F → Userspace F
  unfolding tick_sessions publish_snapshot
  emit_periodic_urr_reports now u =
      let r = tick_sessions now u.sessions in
      let ticked = record u { sessions = r.1; emitted = u.emitted ++ r.0 } in
      if length r.0 == 0 then ticked else publish_snapshot ticked
