-- ===== src/Report.antt =====
-- internal/report/report.go: the reports that the forwarder hands to the PFCP server, and the bit
-- sets that the information elements carry. A time is a number of nanoseconds, and 0 stands for
-- the zero time.
pub mod Triggers
pub mod Bits
pub mod Names
use go_upf.Base.{
  ℕ, ◌+◌, ◌*◌, ◌/◌, ◌%◌, ◌^◌, Bool, Option, none, some, List, [], ◌∷◌, length, get_or, ltb, ◌==◌,
  if◌then◌else◌, ◌++◌, not, ◌&&◌,
}
use go_upf.Gtpv1.{has_bit}

-- `x | (1 << k)`.
abbrev pub set_bit : ℕ → ℕ → ℕ
set_bit x k = if has_bit x k then x else x + 2 ^ k

pub record MeasureMethod : Type 0 where
  pub durat : Bool
  pub volum : Bool
  pub event : Bool

pub record MeasureInformation : Type 0 where
  pub mbqe : Bool
  pub inam : Bool
  pub radi : Bool
  pub istm : Bool
  pub mnop : Bool

pub record VolumeMeasure : Type 0 where
  pub flags : ℕ  -- uint8
  pub total_volume : ℕ  -- uint64, as are the next five
  pub uplink_volume : ℕ
  pub downlink_volume : ℕ
  pub total_pkt_num : ℕ
  pub uplink_pkt_num : ℕ
  pub downlink_pkt_num : ℕ

abbrev pub zero_volume : VolumeMeasure
zero_volume = record {
  flags = 0;
  total_volume = 0;
  uplink_volume = 0;
  downlink_volume = 0;
  total_pkt_num = 0;
  uplink_pkt_num = 0;
  downlink_pkt_num = 0;
}

pub record UsaReport : Type 0 where
  pub urrid : ℕ
  pub urseqn : ℕ
  pub usar_trigger : ℕ  -- UsageReportTrigger.Flags
  pub volum_measure : VolumeMeasure
  pub durat_measure : ℕ
  pub query_urr_ref : ℕ
  pub start_time : ℕ
  pub end_time : ℕ

pub record DldReport : Type 0 where
  pub pdrid : ℕ
  pub action : ℕ
  pub buf_pkt : List ℕ

-- The values of the interface `Report`.
pub data Report : Type 0 where
  dld : DldReport → Report
  usa : UsaReport → Report

pub record SessReport : Type 0 where
  pub seid : ℕ
  pub reports : List Report

-- Bit numbers of the Usage Report Trigger element, USAR_TRIG_PERIO and so on.
abbrev pub perio : ℕ
perio = 0

abbrev pub volth : ℕ
volth = 1

abbrev pub start : ℕ
start = 4

abbrev pub stopt : ℕ
stopt = 5

abbrev pub immer : ℕ
immer = 7

abbrev pub volqu : ℕ
volqu = 8

abbrev pub termr : ℕ
termr = 11

abbrev pub macar : ℕ
macar = 14

-- `SetReportingTrigger`: the constants RPT_TRIG_ are the powers of 2 in the order of the switch, and
-- REEMR, 2 ^ 16, has no case.
unfoldable pub set_reporting_trigger : ℕ → ℕ → ℕ
set_reporting_trigger t r =
    if r == 0x1
    then set_bit t 0
    else if r == 0x2
    then set_bit t 1
    else if r == 0x4
    then set_bit t 2
    else if r == 0x8
    then set_bit t 3
    else if r == 0x10
    then set_bit t 4
    else if r == 0x20
    then set_bit t 5
    else if r == 0x40
    then set_bit t 6
    else if r == 0x80
    then set_bit t 10
    else if r == 0x100
    then set_bit t 8
    else if r == 0x200
    then set_bit t 9
    else if r == 0x400
    then set_bit t 13
    else if r == 0x800
    then set_bit t 14
    else if r == 0x1000
    then set_bit t 15
    else if r == 0x2000
    then set_bit t 16
    else if r == 0x4000
    then set_bit t 18
    else if r == 0x8000
    then set_bit t 19
    else if r == 0x20000
    then set_bit t 21
    else t

-- `Unmarshal` of the Reporting Triggers: two or three bytes, the lowest first.
unfoldable pub unmarshal_triggers : List ℕ → Option ℕ
unmarshal_triggers b =
    if ltb (length b) 2
    then none
    else some (get_or b 0 0 + get_or b 1 0 * 256 + get_or b 2 0 * 65536)

-- `b[:3]` of the flags in little-endian order, as both elements are written.
unfoldable pub trigger_bytes : ℕ → List ℕ
trigger_bytes flags = flags % 256 ∷ flags / 256 % 256 ∷ flags / 65536 % 256 ∷ []

-- `ApplyAction.Unmarshal`: one byte or more, of which two are kept.
unfoldable pub unmarshal_action : List ℕ → Option ℕ
unmarshal_action b = if ltb (length b) 1 then none else some (get_or b 0 0 + get_or b 1 0 * 256)

-- The bits of Apply Action.
abbrev pub act_drop : ℕ → Bool
act_drop flags = has_bit flags 0

abbrev pub act_forw : ℕ → Bool
act_forw flags = has_bit flags 1

abbrev pub act_buff : ℕ → Bool
act_buff flags = has_bit flags 2

abbrev pub act_nocp : ℕ → Bool
act_nocp flags = has_bit flags 3

-- `SetFlags`.
unfoldable pub set_volume_flags : VolumeMeasure → Bool → VolumeMeasure
set_volume_flags m mnop =
    let low = set_bit (set_bit (set_bit m.flags 0) 1) 2 in
    record m { flags = if mnop then set_bit (set_bit (set_bit low 3) 4) 5 else low }

-- The information elements of a usage report.
pub data UsageIe : Type 0 where
  ie_urrid ie_urseqn ie_start_time ie_end_time ie_duration : ℕ → UsageIe
  ie_trigger : List ℕ → UsageIe
  ie_volume : VolumeMeasure → UsageIe

-- `IEsWithinSessReportReq`, `IEsWithinSessModRsp` and `IEsWithinSessDelRsp` have one body.
unfoldable pub usage_ies : UsaReport → MeasureMethod → MeasureInformation → List UsageIe
unfolding set_volume_flags trigger_bytes
usage_ies r method info =
    (ie_urrid r.urrid ∷ ie_urseqn r.urseqn ∷ ie_trigger (trigger_bytes r.usar_trigger) ∷ [])
    ++ ((if not (has_bit r.usar_trigger start)
            && (not (has_bit r.usar_trigger stopt) && not (has_bit r.usar_trigger macar))
          then ie_start_time r.start_time ∷ ie_end_time r.end_time ∷ []
          else [])
        ++ ((if method.volum
              then ie_volume (set_volume_flags r.volum_measure info.mnop) ∷ []
              else [])
            ++ (if method.durat then ie_duration r.durat_measure ∷ [] else [])))
