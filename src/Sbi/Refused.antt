-- ===== src/Sbi/Refused.antt =====
-- internal/sbi/processor/processor.go: what becomes of requests while no parameter is supported.
use go_upf.Base.{
  ℕ, suc, ◌≡◌, refl, Bool, false, Option, none, some, List, [], ◌∷◌, String, length, ◌==◌, arith,
  Bool-cases, inl, inr, string_eq,
}
use go_upf.Sbi.Subscription.{
  EventType, qos_monitoring, other_event, SubscribedEvent, EventSubscription, UpfContext, Problem,
  check_params, check_qos_mon, check_event, check_events, and_then, validate_subscription, Answer,
  problem, subscribed, deleted, created, modified, create_subscription, get_subscription,
  modify_subscription, remove_subscription, find_subscription, delete_subscription,
}

abbrev pub IsProblem : Option Problem → Type 0
IsProblem none = ⊥
IsProblem (some p) = Unit {0}

check_qos_mon-IsProblem : (o : Option (List String)) → IsProblem (check_qos_mon o)
unfolding check_params
check_qos_mon-IsProblem none = tt
check_qos_mon-IsProblem (some []) = tt
check_qos_mon-IsProblem (some (p ∷ ps)) = tt

at_type :
    (t : EventType) (o : Option (List String))
    → IsProblem (check_event (record { type = t; qos_mon = o }))
at_type qos_monitoring o = check_qos_mon-IsProblem o
at_type other_event o = tt

and_then-IsProblem : (o rest : Option Problem) → IsProblem o → IsProblem (and_then o rest)
and_then-IsProblem none rest h = absurd h
and_then-IsProblem (some p) rest h = tt

module _ (is_request_uri : String → Bool) where
  at_events :
      (s : EventSubscription) (es : List SubscribedEvent)
      → IsProblem (validate_subscription is_request_uri (record s { event_list = es }))
  unfolding validate_subscription
  at_events s [] = tt
  at_events s (e ∷ es) =
      let some_events : (suc (length es) == 0) ≡ false = ground arith in
      elim (Bool-cases (is_request_uri s.event_notify_uri)) [
        | inl u ↦
            rw (some_events, u)
              (and_then-IsProblem (check_event e) (check_events es) (at_type e.type e.qos_mon))
        | inr u ↦ rw (some_events, u) tt
      ]

  validate_subscription-IsProblem :
      (s : EventSubscription) → IsProblem (validate_subscription is_request_uri s)
  validate_subscription-IsProblem s = at_events s s.event_list

-- A request to the service.
pub data SbiRequest : Type 0 where
  create_request : Option EventSubscription → SbiRequest
  get_request : String → ℕ → SbiRequest
  modify_request : String → Option EventSubscription → SbiRequest
  delete_request : String → SbiRequest

-- Nothing but an error, and still no subscription.
abbrev pub IsRefused : Answer × UpfContext → Type 0
IsRefused (problem p, c) = c.subscriptions ≡ []
IsRefused (_, c) = ⊥

module _ (decimal : ℕ → String) (is_request_uri : String → Bool) where
  abbrev pub answer : SbiRequest → UpfContext → Answer × UpfContext
  answer (create_request s) c = create_subscription decimal is_request_uri s c
  answer (get_request id now) c = get_subscription decimal is_request_uri id now c
  answer (modify_request id s) c = modify_subscription decimal is_request_uri id s c
  answer (delete_request id) c = remove_subscription decimal is_request_uri id c

  abbrev pub AllRefused : List SbiRequest → UpfContext → Type 0
  AllRefused [] c = Unit {0}
  AllRefused (r ∷ rs) c = IsRefused (answer r c) × AllRefused rs (answer r c).1

  created-IsRefused :
      (s : EventSubscription) (c : UpfContext) (o : Option Problem)
      → IsProblem o
      → c.subscriptions ≡ []
      → IsRefused (created decimal is_request_uri s c o)
  created-IsRefused s c none p h = absurd p
  created-IsRefused s c (some x) p h = h

  modified-IsRefused :
      (id : String) (s : EventSubscription) (c : UpfContext) (o : Option Problem)
      → IsProblem o
      → c.subscriptions ≡ []
      → IsRefused (modified decimal is_request_uri id s c o)
  modified-IsRefused id s c none p h = absurd p
  modified-IsRefused id s c (some x) p h = h

  answer-IsRefused :
      (r : SbiRequest) (c : UpfContext) → c.subscriptions ≡ [] → IsRefused (answer r c)
  unfolding create_subscription get_subscription modify_subscription remove_subscription
      find_subscription delete_subscription
  answer-IsRefused (create_request none) c h = h
  answer-IsRefused (create_request (some s)) c h =
      created-IsRefused s c _ (validate_subscription-IsProblem is_request_uri s) h
  answer-IsRefused (get_request id now) c h = rw h refl
  answer-IsRefused (modify_request id none) c h = h
  answer-IsRefused (modify_request id (some s)) c h =
      modified-IsRefused id s c _ (validate_subscription-IsProblem is_request_uri s) h
  answer-IsRefused (delete_request id) c h = rw h refl

  none_stored : (a : Answer × UpfContext) → IsRefused a → a.1.subscriptions ≡ []
  none_stored (problem p, c) h = h
  none_stored (subscribed r, c) h = absurd h
  none_stored (deleted, c) h = absurd h

  -- While there is no subscription, every request is refused, whatever it asks for: creating and
  -- modifying one, since no parameter of QoS monitoring is supported and each event must name one,
  -- and finding and deleting one, since none is ever stored. So it is after any requests.
  pub requests-AllRefused :
      (rs : List SbiRequest) (c : UpfContext) → c.subscriptions ≡ [] → AllRefused rs c
  requests-AllRefused [] c h = tt
  requests-AllRefused (r ∷ rs) c h =
      let now = answer-IsRefused r c h in
      (now, requests-AllRefused rs (answer r c).1 (none_stored (answer r c) now))
