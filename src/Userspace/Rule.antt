-- ===== src/Userspace/Rule.antt =====
-- internal/forwarder/userspace/state.go: the rules that the userspace forwarder keeps for a session,
-- and the errors of its operations. A pointer that may be nil is an Option, an address is its bytes,
-- and a duration or a time is a number of nanoseconds, 0 for the zero time.
use go_upf.Base.{ℕ, Bool, Option, none, some, List, [], String, Assoc, Bytes}
use go_upf.Report.{MeasureMethod, MeasureInformation, UsaReport}

-- ErrSessionNotFound, the five errors for a rule that is not there, and those of the decoders.
pub data Failure : Type 0 where
  undecodable missing_id bad_flow session_not_found rule_not_found : Failure

pub data Try (A : Type 0) : Type 0 where
  ok : A → Try A
  fail : Failure → Try A

infixl 5 ◌>>=◌
abbrev pub ◌>>=◌ : {A B : Type 0} → Try A → (A → Try B) → Try B
ok a >>= f = f a
fail e >>= f = fail e

-- What a decoder of go-pfcp answers: `none` is its error.
abbrev pub decoded : {A : Type 0} → Option A → Try A
decoded none = fail undecodable
decoded (some a) = ok a

pub record PortRange : Type 0 where
  pub from : ℕ  -- uint16
  pub to : ℕ

-- An IPv4 network: the address as a number, and the length of its prefix.
pub record IpNet : Type 0 where
  pub address : ℕ
  pub prefix : ℕ

pub record FlowEndpoint : Type 0 where
  pub any : Bool
  pub assigned : Bool
  pub network : Option IpNet
  pub ports : List PortRange

-- The three texts are in lower case.
pub record SdfFilterRule : Type 0 where
  pub action : Bytes
  pub direction : Bytes
  pub protocol : Bytes
  pub source : FlowEndpoint
  pub destination : FlowEndpoint

pub record Fteid : Type 0 where
  pub teid : ℕ
  pub ipv4 : Bytes

pub record Pdi : Type 0 where
  pub source_interface : Option ℕ
  pub fteid : Option Fteid
  pub network_instance : String
  pub ue_ipv4 : Bytes
  pub sdf_filters : List Bytes
  pub sdf_rules : List SdfFilterRule
  pub application_id : String

pub record PdrRule : Type 0 where
  pub id : ℕ
  pub precedence : Option ℕ
  pub pdi : Option Pdi
  pub outer_header_removal : Option ℕ
  pub far_id : Option ℕ
  pub qer_ids : List ℕ
  pub urr_ids : List ℕ
  pub raw : Bytes

pub record OuterHeaderCreation : Type 0 where
  pub description : ℕ
  pub teid : ℕ
  pub ipv4 : Bytes
  pub port : ℕ

pub record ForwardingParameters : Type 0 where
  pub destination_interface : Option ℕ
  pub network_instance : String
  pub outer_header_creation : Option OuterHeaderCreation
  pub forwarding_policy : String
  pub sm_req_flags : Option ℕ

pub record FarRule : Type 0 where
  pub id : ℕ
  pub apply_action : ℕ  -- ApplyAction.Flags
  pub forwarding : Option ForwardingParameters
  pub bar_id : Option ℕ
  pub raw : Bytes

pub record QerRule : Type 0 where
  pub id : ℕ
  pub correlation_id : Option ℕ
  pub gate_status : Option ℕ
  pub mbr_ul : Option ℕ
  pub mbr_dl : Option ℕ
  pub gbr_ul : Option ℕ
  pub gbr_dl : Option ℕ
  pub qfi : Option ℕ
  pub rqi : Option ℕ
  pub ppi : Option ℕ
  pub raw : Bytes

pub record VolumeLimit : Type 0 where
  pub flags : ℕ
  pub total_volume : ℕ
  pub uplink_volume : ℕ
  pub downlink_volume : ℕ

pub record UrrRule : Type 0 where
  pub id : ℕ
  pub measurement_method : MeasureMethod
  pub reporting_trigger : ℕ  -- ReportingTrigger.Flags
  pub measurement_period : ℕ
  pub measurement_information : MeasureInformation
  pub volume_threshold : Option VolumeLimit
  pub volume_quota : Option VolumeLimit
  pub raw : Bytes

pub record BarRule : Type 0 where
  pub id : ℕ
  pub notification_delay : Option ℕ
  pub suggested_packets : Option ℕ
  pub raw : Bytes

-- `AdaptiveQEROverride`, by the fields that the packet path reads.
pub record AdaptiveQerOverride : Type 0 where
  pub gate_ul : Option Bool
  pub gate_dl : Option Bool
  pub mbr_ul : ℕ
  pub mbr_dl : ℕ
  pub expires_at : ℕ

-- `tokenBucket`, over the numbers that stand for float64.
pub record TokenBucket (F : Type 0) : Type 0 where
  pub tokens : F
  pub last_refill : ℕ

pub record QerMeterState (F : Type 0) : Type 0 where
  pub uplink : Option (TokenBucket F)  -- none is the zero bucket
  pub downlink : Option (TokenBucket F)

-- `SessionState`, without AdaptiveFlows and LastCPProvisioned, which only the adaptive QoS controller
-- reads and writes, and without the time of the last change, which nothing of the packet path reads.
-- The text that is the key of AdaptiveQER is the QER's number in decimal digits.
pub record SessionState (F : Type 0) : Type 0 where
  pub pdrs : Assoc ℕ PdrRule
  pub fars : Assoc ℕ FarRule
  pub qers : Assoc ℕ QerRule
  pub qer_meters : Assoc ℕ (QerMeterState F)
  pub adaptive_qer : Assoc ℕ AdaptiveQerOverride
  pub urrs : Assoc ℕ UrrRule
  pub urr_period_at : Assoc ℕ ℕ
  pub bars : Assoc ℕ BarRule
  pub buffers : Assoc ℕ (List Bytes)
  pub urr_reports : Assoc ℕ (List UsaReport)

-- `NewSessionState`.
abbrev pub new_session_state : {F : Type 0} → SessionState F
new_session_state = record {
  pdrs = [];
  fars = [];
  qers = [];
  qer_meters = [];
  adaptive_qer = [];
  urrs = [];
  urr_period_at = [];
  bars = [];
  buffers = [];
  urr_reports = [];
}
