-- ===== src/Tests/Adaptive.antt =====
-- Adaptive flows on concrete input.
use go_upf.Base.{ℕ, ◌≡◌, refl, arith, none, some, Option, [], ◌∷◌, codes, inl, inr}
use go_upf.Userspace.Rule.{SessionState, QerRule, new_session_state}
use go_upf.Userspace.Adaptive.Decision.{
  AdaptiveReport, AdaptiveConfig, rate_from_burst, select_adaptive_profile,
}
use go_upf.Userspace.Adaptive.Range.{collect_cp_provisioned_range}
use go_upf.Userspace.Adaptive.Flows.{
  AdaptiveSession, AdaptiveSessions, ended, resolve_adaptive_session, start_adaptive_flow,
  end_adaptive_flow,
}
use go_upf.Userspace.Adaptive.Limits.{IsAuthorized, select_adaptive_profile-IsAuthorized}
use go_upf.Userspace.Adaptive.Spans.{AllSpan, collect_cp_provisioned_range-AllSpan}
use go_upf.Userspace.Adaptive.Ended.{Over, end_adaptive_flow-start_adaptive_flow}

-- A burst of a megabyte within a tenth of a second.
abbrev burst : AdaptiveReport
burst = record {
  ue_address = [];
  flow_id = codes "video";
  report_type = codes "intent";
  timestamp = 5;
  scenario = codes "predictive-burst";
  traffic_pattern = [];
  latency_sensitivity = [];
  packet_loss_tolerance = [];
  burst_size = 1000000;
  burst_duration = 0;
  burst_duration_ms = 100;
  deadline = 0;
  deadline_ms = 0;
  seid_hint = 1;
}

rate_of_burst : rate_from_burst 1000000 100 ≡ 80000000
unfolding rate_from_burst
rate_of_burst = refl

abbrev config : Option AdaptiveConfig
config = some (record {
  authorization = some (record {
    max_bitrate_ul = 5000000;
    max_bitrate_dl = 50000000;
    default_profile_duration = 0;
  });
  rules = [];
})

select_adaptive_profile-IsAuthorized_example :
    IsAuthorized 5000000 50000000 (select_adaptive_profile config burst 5000000 50000000)
select_adaptive_profile-IsAuthorized_example =
    select_adaptive_profile-IsAuthorized config burst 5000000 50000000 refl (omega arith)
      (omega arith)

abbrev a_qer : QerRule
a_qer = record {
  id = 3;
  correlation_id = none;
  gate_status = some 0;
  mbr_ul = some 1000;
  mbr_dl = some 70000;
  gbr_ul = none;
  gbr_dl = none;
  qfi = some 9;
  rqi = none;
  ppi = none;
  raw = [];
}

abbrev one_qer : SessionState ℕ
one_qer = record new_session_state { qers = (3, a_qer) ∷ [] }

collect_cp_provisioned_range-AllSpan_example :
    AllSpan (collect_cp_provisioned_range config one_qer) (1000 ∷ []) (70000 ∷ []) [] []
collect_cp_provisioned_range-AllSpan_example = collect_cp_provisioned_range-AllSpan config one_qer

abbrev a_session : AdaptiveSession ℕ
a_session = record { state = one_qer; flows = [] }

abbrev sessions : AdaptiveSessions ℕ
sessions = (1, a_session) ∷ (2, a_session) ∷ []

end_adaptive_flow-start_adaptive_flow_example :
    ((end_adaptive_flow
        (codes "video")
        (start_adaptive_flow config (λ a. a) burst 7 sessions).1).0.reason
      ≡ ended)
    × Over
        (codes "video")
        1
        a_session
        sessions
        (end_adaptive_flow
          (codes "video")
          (start_adaptive_flow config (λ a. a) burst 7 sessions).1).1
unfolding resolve_adaptive_session
end_adaptive_flow-start_adaptive_flow_example =
    end_adaptive_flow-start_adaptive_flow config (λ a. a) burst 7 sessions 1 a_session refl
      (inl refl, (inr refl, tt))
