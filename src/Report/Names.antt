-- ===== src/Report/Names.antt =====
-- internal/report/report.go: the bits of the three sets of flags by their names, and the accessors.
use go_upf.Base.{ℕ, ◌^◌, ◌≡◌, refl, Bool, true, Option, none, some, ◌==◌, if◌then◌else◌}
use go_upf.Gtpv1.{has_bit}
use go_upf.Report.{set_reporting_trigger}
use go_upf.Report.Bits.{has_bit-set_bit}

-- The constants RPT_TRIG_ of Reporting Triggers.
pub data ReportingTrigger : Type 0 where
  rpt_perio rpt_volth rpt_timth rpt_quhti rpt_start rpt_stopt : ReportingTrigger
  rpt_droth rpt_liusa rpt_volqu rpt_timqu rpt_envcl rpt_macar : ReportingTrigger
  rpt_eveth rpt_evequ rpt_ipmjl rpt_quvti rpt_reemr rpt_upint : ReportingTrigger

-- The constants USAR_TRIG_ of the Usage Report Trigger.
pub data UsageReportTrigger : Type 0 where
  usar_perio usar_volth usar_timth usar_quhti usar_start usar_stopt : UsageReportTrigger
  usar_droth usar_immer usar_volqu usar_timqu usar_liusa usar_termr : UsageReportTrigger
  usar_monit usar_envcl usar_macar usar_eveth usar_evequ usar_tebur : UsageReportTrigger
  usar_ipmjl usar_quvti usar_emrre usar_upint : UsageReportTrigger

-- The constants APPLY_ACT_ of Apply Action.
pub data ApplyActionFlag : Type 0 where
  flag_drop flag_forw flag_buff flag_nocp flag_dupl flag_ipma : ApplyActionFlag
  flag_ipmd flag_dfrt flag_edrt flag_bdpn flag_ddpn flag_fssm : ApplyActionFlag
  flag_mbsu : ApplyActionFlag

-- The constants are `1 << bit`.
abbrev pub rpt_bit : ReportingTrigger → ℕ
rpt_bit rpt_perio = 0
rpt_bit rpt_volth = 1
rpt_bit rpt_timth = 2
rpt_bit rpt_quhti = 3
rpt_bit rpt_start = 4
rpt_bit rpt_stopt = 5
rpt_bit rpt_droth = 6
rpt_bit rpt_liusa = 7
rpt_bit rpt_volqu = 8
rpt_bit rpt_timqu = 9
rpt_bit rpt_envcl = 10
rpt_bit rpt_macar = 11
rpt_bit rpt_eveth = 12
rpt_bit rpt_evequ = 13
rpt_bit rpt_ipmjl = 14
rpt_bit rpt_quvti = 15
rpt_bit rpt_reemr = 16
rpt_bit rpt_upint = 17

abbrev pub usar_bit : UsageReportTrigger → ℕ
usar_bit usar_perio = 0
usar_bit usar_volth = 1
usar_bit usar_timth = 2
usar_bit usar_quhti = 3
usar_bit usar_start = 4
usar_bit usar_stopt = 5
usar_bit usar_droth = 6
usar_bit usar_immer = 7
usar_bit usar_volqu = 8
usar_bit usar_timqu = 9
usar_bit usar_liusa = 10
usar_bit usar_termr = 11
usar_bit usar_monit = 12
usar_bit usar_envcl = 13
usar_bit usar_macar = 14
usar_bit usar_eveth = 15
usar_bit usar_evequ = 16
usar_bit usar_tebur = 17
usar_bit usar_ipmjl = 18
usar_bit usar_quvti = 19
usar_bit usar_emrre = 20
usar_bit usar_upint = 21

abbrev pub action_bit : ApplyActionFlag → ℕ
action_bit flag_drop = 0
action_bit flag_forw = 1
action_bit flag_buff = 2
action_bit flag_nocp = 3
action_bit flag_dupl = 4
action_bit flag_ipma = 5
action_bit flag_ipmd = 6
action_bit flag_dfrt = 7
action_bit flag_edrt = 8
action_bit flag_bdpn = 9
action_bit flag_ddpn = 10
action_bit flag_fssm = 11
action_bit flag_mbsu = 12

-- The methods of each type that test one bit: `PERIO`, `VOLTH` and so on.
unfoldable pub rpt_has : ℕ → ReportingTrigger → Bool
rpt_has flags t = has_bit flags (rpt_bit t)

unfoldable pub usar_has : ℕ → UsageReportTrigger → Bool
usar_has flags t = has_bit flags (usar_bit t)

unfoldable pub action_has : ℕ → ApplyActionFlag → Bool
action_has flags f = has_bit flags (action_bit f)

-- The usage report trigger of the same name, which all but REEMR have.
abbrev pub same_name : ReportingTrigger → Option UsageReportTrigger
same_name rpt_perio = some usar_perio
same_name rpt_volth = some usar_volth
same_name rpt_timth = some usar_timth
same_name rpt_quhti = some usar_quhti
same_name rpt_start = some usar_start
same_name rpt_stopt = some usar_stopt
same_name rpt_droth = some usar_droth
same_name rpt_liusa = some usar_liusa
same_name rpt_volqu = some usar_volqu
same_name rpt_timqu = some usar_timqu
same_name rpt_envcl = some usar_envcl
same_name rpt_macar = some usar_macar
same_name rpt_eveth = some usar_eveth
same_name rpt_evequ = some usar_evequ
same_name rpt_ipmjl = some usar_ipmjl
same_name rpt_quvti = some usar_quvti
same_name rpt_reemr = none
same_name rpt_upint = some usar_upint

-- The flags of `t`, and besides the one trigger.
abbrev pub with_trigger : Option UsageReportTrigger → ℕ → UsageReportTrigger → Bool
with_trigger none t m = usar_has t m
with_trigger (some u) t m = if usar_bit u == usar_bit m then true else usar_has t m

-- SetReportingTrigger of one reporting trigger sets the usage report trigger of the same name,
-- also where that has another bit, and leaves every other one as it was. REEMR, which
-- has none of its name, leaves all.
pub set_reporting_trigger-with_trigger :
    (n : ReportingTrigger) (t : ℕ) (m : UsageReportTrigger)
    → usar_has (set_reporting_trigger t (2 ^ rpt_bit n)) m ≡ with_trigger (same_name n) t m
unfolding set_reporting_trigger usar_has
set_reporting_trigger-with_trigger rpt_perio t m = has_bit-set_bit t 0 (usar_bit m)
set_reporting_trigger-with_trigger rpt_volth t m = has_bit-set_bit t 1 (usar_bit m)
set_reporting_trigger-with_trigger rpt_timth t m = has_bit-set_bit t 2 (usar_bit m)
set_reporting_trigger-with_trigger rpt_quhti t m = has_bit-set_bit t 3 (usar_bit m)
set_reporting_trigger-with_trigger rpt_start t m = has_bit-set_bit t 4 (usar_bit m)
set_reporting_trigger-with_trigger rpt_stopt t m = has_bit-set_bit t 5 (usar_bit m)
set_reporting_trigger-with_trigger rpt_droth t m = has_bit-set_bit t 6 (usar_bit m)
set_reporting_trigger-with_trigger rpt_liusa t m = has_bit-set_bit t 10 (usar_bit m)
set_reporting_trigger-with_trigger rpt_volqu t m = has_bit-set_bit t 8 (usar_bit m)
set_reporting_trigger-with_trigger rpt_timqu t m = has_bit-set_bit t 9 (usar_bit m)
set_reporting_trigger-with_trigger rpt_envcl t m = has_bit-set_bit t 13 (usar_bit m)
set_reporting_trigger-with_trigger rpt_macar t m = has_bit-set_bit t 14 (usar_bit m)
set_reporting_trigger-with_trigger rpt_eveth t m = has_bit-set_bit t 15 (usar_bit m)
set_reporting_trigger-with_trigger rpt_evequ t m = has_bit-set_bit t 16 (usar_bit m)
set_reporting_trigger-with_trigger rpt_ipmjl t m = has_bit-set_bit t 18 (usar_bit m)
set_reporting_trigger-with_trigger rpt_quvti t m = has_bit-set_bit t 19 (usar_bit m)
set_reporting_trigger-with_trigger rpt_reemr t m = refl
set_reporting_trigger-with_trigger rpt_upint t m = has_bit-set_bit t 21 (usar_bit m)
