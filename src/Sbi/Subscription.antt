-- ===== src/Sbi/Subscription.antt =====
-- internal/context/context.go and internal/sbi/processor/processor.go: the subscriptions and the
-- handlers of the requests.
use go_upf.Base.{
  ℕ, ◌+◌, ◌%◌, ◌^◌, Bool, true, false, Option, none, some, List, [], ◌∷◌, String, Assoc, lookup,
  insert, delete, string_eq, length, ltb, ◌==◌, if◌then◌else◌,
}

pub data EventType : Type 0 where
  qos_monitoring other_event : EventType

-- `EventSubscription`: of an event its type and, where there is qosMon, the parameters it asks for.
pub record SubscribedEvent : Type 0 where
  pub type : EventType
  pub qos_mon : Option (List String)

pub record EventSubscription : Type 0 where
  pub event_list : List SubscribedEvent
  pub event_notify_uri : String
  pub expiry : Option ℕ  -- Options.Expiry

-- `SubscriptionRecord`; the time of its creation is read by nothing.
pub record SubscriptionRecord : Type 0 where
  pub id : String
  pub subscription : EventSubscription

-- `UPFContext`, by its subscriptions.
pub record UpfContext : Type 0 where
  pub subscriptions : Assoc String SubscriptionRecord
  pub next_sub_id : ℕ  -- uint64

pub data Problem : Type 0 where
  subscription_empty event_list_empty invalid_notify_uri event_not_supported : Problem
  qos_monitoring_data_missing qos_monitoring_params_missing : Problem
  qos_monitoring_param_not_supported subscription_not_found : Problem

-- `isExpired`.
abbrev pub is_expired : ℕ → EventSubscription → Bool
is_expired now s = elim s.expiry [ none ↦ false | some t ↦ ltb t now ]

module _ (decimal : ℕ → String) where
  -- `SaveSubscription`, with `nextID`.
  unfoldable pub save_subscription :
      EventSubscription → UpfContext → SubscriptionRecord × UpfContext
  save_subscription s c =
      let n = (c.next_sub_id + 1) % 2 ^ 64 in
      let r : SubscriptionRecord = record { id = decimal n; subscription = s } in
      (r, record { subscriptions = insert (decimal n) r c.subscriptions; next_sub_id = n })

abbrev pub found_at :
    String → ℕ → UpfContext → Option SubscriptionRecord → Option SubscriptionRecord × UpfContext
found_at id now c none = (none, c)
found_at id now c (some r) =
    if is_expired now r.subscription
    then (none, record c { subscriptions = delete id c.subscriptions })
    else (some r, c)

-- `FindSubscription`; an expired one is deleted.
unfoldable pub find_subscription : String → ℕ → UpfContext → Option SubscriptionRecord × UpfContext
find_subscription id now c = found_at id now c (lookup id c.subscriptions)

abbrev pub updated_at :
    String
    → EventSubscription
    → UpfContext
    → Option SubscriptionRecord
    → Option SubscriptionRecord × UpfContext
updated_at id s c none = (none, c)
updated_at id s c (some r) =
    let r' : SubscriptionRecord = record r { subscription = s } in
    (some r', record c { subscriptions = insert id r' c.subscriptions })

-- `UpdateSubscription`.
unfoldable pub update_subscription :
    String → EventSubscription → UpfContext → Option SubscriptionRecord × UpfContext
update_subscription id s c = updated_at id s c (lookup id c.subscriptions)

-- `DeleteSubscription`.
unfoldable pub delete_subscription : String → UpfContext → Bool × UpfContext
delete_subscription id c = elim (lookup id c.subscriptions) [
  | none ↦ (false, c)
  | some r ↦ (true, record c { subscriptions = delete id c.subscriptions })
]

-- `slices.Contains([]…{}, param)`: the list of what is supported is empty.
abbrev pub is_supported : List String → String → Bool
is_supported [] param = false
is_supported (p ∷ ps) param =
    let rest = is_supported ps param in if string_eq.beq p param then true else rest

unfoldable pub check_params : List String → Option Problem
check_params [] = none
check_params (p ∷ ps) =
    let rest = check_params ps in
    if is_supported [] p then rest else some qos_monitoring_param_not_supported

abbrev pub and_then : Option Problem → Option Problem → Option Problem
and_then none rest = rest
and_then (some p) rest = some p

abbrev pub check_qos_mon : Option (List String) → Option Problem
check_qos_mon none = some qos_monitoring_data_missing
check_qos_mon (some []) = some qos_monitoring_params_missing
check_qos_mon (some (p ∷ ps)) = check_params (p ∷ ps)

abbrev pub check_event : SubscribedEvent → Option Problem
check_event e = elim e.type [
  | qos_monitoring ↦ check_qos_mon e.qos_mon
  | other_event ↦ some event_not_supported
]

abbrev pub check_events : List SubscribedEvent → Option Problem
check_events [] = none
check_events (e ∷ es) = and_then (check_event e) (check_events es)

module _ (is_request_uri : String → Bool) where
  -- `validateSubscription`; `none` where there is no problem.
  unfoldable pub validate_subscription : EventSubscription → Option Problem
  unfolding check_params
  validate_subscription s =
      if length s.event_list == 0
      then some event_list_empty
      else if is_request_uri s.event_notify_uri
      then check_events s.event_list
      else some invalid_notify_uri

-- What a handler answers.
pub data Answer : Type 0 where
  problem : Problem → Answer
  subscribed : SubscriptionRecord → Answer
  deleted : Answer

module _ (decimal : ℕ → String) (is_request_uri : String → Bool) where
  abbrev pub created : EventSubscription → UpfContext → Option Problem → Answer × UpfContext
  created s c (some p) = (problem p, c)
  created s c none = let (r, c') = save_subscription decimal s c in (subscribed r, c')

  -- `CreateSubscription`; a request may have no subscription.
  unfoldable pub create_subscription : Option EventSubscription → UpfContext → Answer × UpfContext
  unfolding save_subscription validate_subscription
  create_subscription none c = (problem subscription_empty, c)
  create_subscription (some s) c = created s c (validate_subscription is_request_uri s)

  abbrev pub or_not_found : Option SubscriptionRecord × UpfContext → Answer × UpfContext
  or_not_found (none, c) = (problem subscription_not_found, c)
  or_not_found (some r, c) = (subscribed r, c)

  -- `GetSubscription`.
  unfoldable pub get_subscription : String → ℕ → UpfContext → Answer × UpfContext
  unfolding find_subscription
  get_subscription id now c = or_not_found (find_subscription id now c)

  abbrev pub modified :
      String → EventSubscription → UpfContext → Option Problem → Answer × UpfContext
  modified id s c (some p) = (problem p, c)
  modified id s c none = or_not_found (update_subscription id s c)

  -- `ModifySubscription`.
  unfoldable pub modify_subscription :
      String → Option EventSubscription → UpfContext → Answer × UpfContext
  unfolding update_subscription validate_subscription
  modify_subscription id none c = (problem subscription_empty, c)
  modify_subscription id (some s) c = modified id s c (validate_subscription is_request_uri s)

  abbrev pub or_deleted : Bool × UpfContext → Answer × UpfContext
  or_deleted (true, c) = (deleted, c)
  or_deleted (false, c) = (problem subscription_not_found, c)

  -- The handler of the processor, `DeleteSubscription`.
  unfoldable pub remove_subscription : String → UpfContext → Answer × UpfContext
  unfolding delete_subscription
  remove_subscription id c = or_deleted (delete_subscription id c)
