-- ===== src/Tests/Sbi.antt =====
-- Requests to the service on concrete input.
use go_upf.Base.{ℕ, ◌≡◌, refl, Bool, true, none, some, List, [], ◌∷◌, String}
use go_upf.Sbi.Subscription.{
  qos_monitoring, EventSubscription, UpfContext, qos_monitoring_param_not_supported, check_params,
  validate_subscription,
}
use go_upf.Sbi.Refused.{
  SbiRequest, create_request, get_request, modify_request, delete_request, AllRefused,
  requests-AllRefused,
}

abbrev one_number : ℕ → String
one_number n = "1"

abbrev any_uri : String → Bool
any_uri uri = true

abbrev monitored : EventSubscription
monitored = record {
  event_list = record { type = qos_monitoring; qos_mon = some ("UPLINK" ∷ []) } ∷ [];
  event_notify_uri = "http://smf/notify";
  expiry = none;
}

abbrev no_subscriptions : UpfContext
no_subscriptions = record { subscriptions = []; next_sub_id = 0 }

abbrev requests : List SbiRequest
requests =
    create_request (some monitored)
    ∷ create_request none
    ∷ get_request "1" 7
    ∷ modify_request "1" (some monitored)
    ∷ delete_request "1"
    ∷ []

validate_subscription-monitored :
    validate_subscription any_uri monitored ≡ some qos_monitoring_param_not_supported
unfolding validate_subscription check_params
validate_subscription-monitored = refl

requests-AllRefused_example : AllRefused one_number any_uri requests no_subscriptions
requests-AllRefused_example = requests-AllRefused one_number any_uri requests no_subscriptions refl
