-- ===== src/Userspace/Adaptive/Flows.antt =====
-- internal/forwarder/userspace/adaptive_qos.go: the flows that applications start and end, and the
-- overrides of QERs that they leave in a session. Left out: the trace, the snapshot that is published
-- after each report, and the values that only the debugging pages show.
use go_upf.Base.{
  ℕ, ◌+◌, Bool, true, false, ◌&&◌, Option, none, some, List, [], ◌∷◌, ◌++◌, Assoc, Bytes, bytes_eq,
  nat_eq, bytes_beq, codes, lookup, insert, delete, member, length, ltb, ◌==◌, if◌then◌else◌,
  is_some,
}
use go_upf.Userspace.Rule.{PdrRule, QerRule, SessionState, AdaptiveQerOverride}
use go_upf.Userspace.Adaptive.Decision.{
  AdaptiveReport, AdaptiveProfile, AdaptiveConfig, select_adaptive_profile,
  default_adaptive_duration,
}
use go_upf.Userspace.Adaptive.Range.{collect_cp_provisioned_range}

-- `AdaptiveFlowState`.
pub record AdaptiveFlow : Type 0 where
  pub applied_qer_ids : List ℕ
  pub selected_profile : AdaptiveProfile
  pub previous_profile_id : Bytes
  pub latest_report : AdaptiveReport

-- A session with its adaptive flows by their ID.
pub record AdaptiveSession (F : Type 0) : Type 0 where
  pub state : SessionState F
  pub flows : Assoc Bytes AdaptiveFlow

abbrev pub AdaptiveSessions : Type 0 → Type 0
AdaptiveSessions F = Assoc ℕ (AdaptiveSession F)

pub data FeedbackReason : Type 0 where
  accepted ended session_not_found session_hint_required flow_not_found : FeedbackReason

-- `AdaptiveFeedback`, by its reason, which fixes its status, and its profile.
pub record AdaptiveFeedback : Type 0 where
  pub reason : FeedbackReason
  pub profile_id : Bytes

-- The QERs that the PDRs name and that exist, each once, after those that were seen.
abbrev pub known_qers : Assoc ℕ QerRule → List ℕ → List ℕ → List ℕ
known_qers qers seen [] = seen
known_qers qers seen (q ∷ qs) =
    known_qers qers
      (if is_some (lookup q qers) then if member q seen then seen else seen ++ q ∷ [] else seen) qs

abbrev pub qers_of_pdrs : Assoc ℕ QerRule → List ℕ → Assoc ℕ PdrRule → List ℕ
qers_of_pdrs qers seen [] = seen
qers_of_pdrs qers seen ((id, p) ∷ ps) = qers_of_pdrs qers (known_qers qers seen p.qer_ids) ps

abbrev pub ids_in : Assoc ℕ QerRule → List ℕ
ids_in [] = []
ids_in ((id, q) ∷ qs) = id ∷ ids_in qs

abbrev pub or_all : Assoc ℕ QerRule → List ℕ → List ℕ
or_all qers [] = ids_in qers
or_all qers (q ∷ qs) = q ∷ qs

-- `collectAdaptiveQERIDs`: all QERs of the session where no PDR names one.
unfoldable pub collect_adaptive_qer_ids : {F : Type 0} → SessionState F → List ℕ
collect_adaptive_qer_ids s = or_all s.qers (qers_of_pdrs s.qers [] s.pdrs)

-- An address, and the session that has it; `ip_text` is net.IP.String.
module _ (ip_text : Bytes → Bytes) where
  abbrev pub pdr_has_ue : Bytes → PdrRule → Bool
  pdr_has_ue ue p = elim p.pdi [
    | none ↦ false
    | some pdi ↦ (if length pdi.ue_ipv4 == 0 then false else bytes_beq (ip_text pdi.ue_ipv4) ue)
  ]

  abbrev pub has_ue_address : Bytes → Assoc ℕ PdrRule → Bool
  has_ue_address ue [] = false
  has_ue_address ue ((id, p) ∷ ps) =
      let rest = has_ue_address ue ps in if pdr_has_ue ue p then true else rest

module _ {F : Type 0} where
  abbrev pub hinted : ℕ → Option (AdaptiveSession F) → Option (ℕ × AdaptiveSession F)
  hinted seid none = none
  hinted seid (some s) = some (seid, s)

  abbrev pub only_session : AdaptiveSessions F → Option (ℕ × AdaptiveSession F)
  only_session (x ∷ []) = some x
  only_session _ = none

module _ {F : Type 0} (ip_text : Bytes → Bytes) where
  abbrev pub session_of_ue : Bytes → AdaptiveSessions F → Option (ℕ × AdaptiveSession F)
  session_of_ue ue [] = none
  session_of_ue ue ((seid, s) ∷ m) =
      let rest = session_of_ue ue m in
      if has_ue_address ip_text ue s.state.pdrs then some (seid, s) else rest

  abbrev pub by_address : Bytes → AdaptiveSessions F → Option (ℕ × AdaptiveSession F)
  by_address [] m = only_session m
  by_address (c ∷ ue) m = session_of_ue (c ∷ ue) m

  -- `resolveAdaptiveSessionLocked`.
  unfoldable pub resolve_adaptive_session :
      AdaptiveReport → AdaptiveSessions F → Option (ℕ × AdaptiveSession F)
  resolve_adaptive_session r m =
      if r.seid_hint == 0
      then by_address r.ue_address m
      else hinted r.seid_hint (lookup r.seid_hint m)

abbrev pub override_of : AdaptiveProfile → ℕ → AdaptiveQerOverride
override_of p expires_at = record {
  gate_ul = p.gate_ul;
  gate_dl = p.gate_dl;
  mbr_ul = p.mbr_ul;
  mbr_dl = p.mbr_dl;
  expires_at = expires_at;
}

abbrev pub set_overrides :
    List ℕ → AdaptiveQerOverride → Assoc ℕ AdaptiveQerOverride → Assoc ℕ AdaptiveQerOverride
set_overrides [] o m = m
set_overrides (q ∷ qs) o m = set_overrides qs o (insert q o m)

abbrev pub clear_overrides : List ℕ → Assoc ℕ AdaptiveQerOverride → Assoc ℕ AdaptiveQerOverride
clear_overrides [] m = m
clear_overrides (q ∷ qs) m = clear_overrides qs (delete q m)

abbrev pub previous_profile : Option AdaptiveFlow → Bytes
previous_profile none = []
previous_profile (some flow) = flow.selected_profile.profile_id

module _ {F : Type 0} (cfg : Option AdaptiveConfig) (ip_text : Bytes → Bytes) where
  -- The selected profile with a duration.
  abbrev pub profile_for : AdaptiveReport → SessionState F → AdaptiveProfile
  profile_for r s =
      let cp = collect_cp_provisioned_range cfg s in
      let p =
        select_adaptive_profile cfg r cp.authorization_max_bitrate_ul
          cp.authorization_max_bitrate_dl in
      record p { duration = if p.duration == 0 then default_adaptive_duration cfg else p.duration }

  -- What a start makes of the session that was found.
  abbrev pub started_session : AdaptiveReport → ℕ → AdaptiveSession F → AdaptiveSession F
  started_session r now s =
      let ids = collect_adaptive_qer_ids s.state in
      let p = profile_for r s.state in
      record {
        state = record (s.state) {
          adaptive_qer = set_overrides ids (override_of p (now + p.duration)) s.state.adaptive_qer;
        };
        flows =
            insert r.flow_id
              (record {
                applied_qer_ids = ids;
                selected_profile = p;
                previous_profile_id = previous_profile (lookup r.flow_id s.flows);
                latest_report = r;
              })
              s.flows;
      }

  abbrev pub rejected : AdaptiveReport → AdaptiveSessions F → AdaptiveFeedback
  rejected r m = record {
    reason =
        if ltb 1 (length m) && (length r.ue_address == 0 && r.seid_hint == 0)
        then session_hint_required
        else session_not_found;
    profile_id = [];
  }

  abbrev pub start_in :
      AdaptiveReport
      → ℕ
      → AdaptiveSessions F
      → Option (ℕ × AdaptiveSession F)
      → AdaptiveFeedback × AdaptiveSessions F
  start_in r now m none = (rejected r m, m)
  start_in r now m (some (seid, s)) = (
    record { reason = accepted; profile_id = (profile_for r s.state).profile_id },
    insert seid (started_session r now s) m,
  )

  -- `startAdaptiveFlow`.
  unfoldable pub start_adaptive_flow :
      AdaptiveReport → ℕ → AdaptiveSessions F → AdaptiveFeedback × AdaptiveSessions F
  unfolding collect_adaptive_qer_ids resolve_adaptive_session select_adaptive_profile
      default_adaptive_duration collect_cp_provisioned_range
  start_adaptive_flow r now m = start_in r now m (resolve_adaptive_session ip_text r m)

module _ {F : Type 0} where
  abbrev pub ended_session : Bytes → AdaptiveFlow → AdaptiveSession F → AdaptiveSession F
  ended_session id flow s = record {
    state = record (s.state) {
      adaptive_qer = clear_overrides flow.applied_qer_ids s.state.adaptive_qer;
    };
    flows = delete id s.flows;
  }

  abbrev pub end_in :
      Bytes
      → ℕ
      → AdaptiveSession F
      → AdaptiveSessions F
      → AdaptiveFeedback × AdaptiveSessions F
      → Option AdaptiveFlow
      → AdaptiveFeedback × AdaptiveSessions F
  end_in id seid s m (feedback, rest) none = (feedback, (seid, s) ∷ rest)
  end_in id seid s m next (some flow) = (
    record { reason = ended; profile_id = flow.selected_profile.profile_id },
    (seid, ended_session id flow s) ∷ m,
  )

  -- `endAdaptiveFlow`: the first session that has the flow.
  unfoldable pub end_adaptive_flow :
      Bytes → AdaptiveSessions F → AdaptiveFeedback × AdaptiveSessions F
  end_adaptive_flow id [] = (record { reason = flow_not_found; profile_id = [] }, [])
  end_adaptive_flow id ((seid, s) ∷ m) =
      end_in id seid s m (end_adaptive_flow id m) (lookup id s.flows)

-- `isFlowStillCurrent`: the first session that has the flow has it from the same report.
unfoldable pub is_flow_still_current : {F : Type 0} → Bytes → ℕ → AdaptiveSessions F → Bool
is_flow_still_current id started_at [] = false
is_flow_still_current id started_at ((seid, s) ∷ m) =
    let rest = is_flow_still_current id started_at m in
    elim (lookup id s.flows) [
      | none ↦ rest
      | some flow ↦ flow.latest_report.timestamp == started_at
    ]

-- `applyAdaptiveReport`, of a report with a type and a flow ID.
unfoldable pub apply_adaptive_report :
    {F : Type 0}
    → Option AdaptiveConfig
    → (Bytes → Bytes)
    → AdaptiveReport
    → ℕ
    → AdaptiveSessions F
    → AdaptiveFeedback × AdaptiveSessions F
unfolding start_adaptive_flow end_adaptive_flow
apply_adaptive_report cfg ip_text r now m =
    if bytes_beq r.report_type (codes "end")
    then end_adaptive_flow r.flow_id m
    else start_adaptive_flow cfg ip_text r now m

-- The sessions of `resetAdaptiveState`, and the number of flows that it ended.
unfoldable pub reset_adaptive_state : {F : Type 0} → AdaptiveSessions F → ℕ × AdaptiveSessions F
reset_adaptive_state [] = (0, [])
reset_adaptive_state ((seid, s) ∷ m) =
    let (n, rest) = reset_adaptive_state m in
    (
      length s.flows + n,
      (seid, record { state = record (s.state) { adaptive_qer = [] }; flows = [] }) ∷ rest,
    )
