-- ===== src/Sbi/Saved.antt =====
-- internal/context/context.go: a subscription that is saved.
use go_upf.Base.{
  ℕ, ◌+◌, ◌%◌, ◌^◌, ◌<◌, ◌≡◌, ◌≢◌, refl, sym, ◌∙◌, false, none, some, String, lookup, string_eq,
  lookup-insert_self, lookup-insert_ne, arith,
}
use go_upf.Sbi.Subscription.{
  EventSubscription, SubscriptionRecord, UpfContext, is_expired, save_subscription,
  find_subscription,
}

-- Different numbers have different texts.
abbrev pub IsInjective : (ℕ → String) → Type 0
IsInjective decimal = (m n : ℕ) → decimal m ≡ decimal n → m ≡ n

-- No identifier above the last one is in use.
abbrev pub IsFresh : (ℕ → String) → UpfContext → Type 0
IsFresh decimal c = (n : ℕ) → c.next_sub_id < n → lookup (decimal n) c.subscriptions ≡ none

-- What saving `s` makes of `c`.
pub record Saved (decimal : ℕ → String) (s : EventSubscription) (c : UpfContext)
    (r : SubscriptionRecord) (c' : UpfContext) : Type 0 where
  pub unused : lookup r.id c.subscriptions ≡ none
  pub kept : r.subscription ≡ s
  pub found : (now : ℕ) → is_expired now s ≡ false → find_subscription r.id now c' ≡ (some r, c')
  pub others : (id : String) → id ≢ r.id → lookup id c'.subscriptions ≡ lookup id c.subscriptions
  pub fresh : IsFresh decimal c'

find-stored :
    (id : String) (now : ℕ) (c : UpfContext) (r : SubscriptionRecord)
    → lookup id c.subscriptions ≡ some r
    → is_expired now r.subscription ≡ false
    → find_subscription id now c ≡ (some r, c)
unfolding find_subscription
find-stored id now c r e x = rw (e, x) refl

-- With fewer than 2 ^ 64 - 1 subscriptions made so far, and no identifier in use above the last one:
-- a subscription that is saved gets an identifier that was not in use, is found under it until it
-- expires, the other identifiers give what they gave, and still none above the last one is in use.
pub save_subscription-Saved :
    (decimal : ℕ → String) (s : EventSubscription) (c : UpfContext)
    → IsInjective decimal
    → IsFresh decimal c
    → c.next_sub_id + 1 < 2 ^ 64
    → Saved decimal s c (save_subscription decimal s c).0 (save_subscription decimal s c).1
unfolding save_subscription
save_subscription-Saved decimal s c inj fresh small =
    let n = (c.next_sub_id + 1) % 2 ^ 64 in
    let next : n ≡ c.next_sub_id + 1 = omega arith in
    let r : SubscriptionRecord = record { id = decimal n; subscription = s } in
    record {
      unused = fresh n (omega arith);
      kept = refl;
      found = λ now x. find-stored (decimal n) now _ r (lookup-insert_self (decimal n) r _) x;
      others = λ id d. lookup-insert_ne (decimal n) id r c.subscriptions (λ e. d (sym e));
      fresh = λ m l.
          lookup-insert_ne (decimal n) (decimal m) r c.subscriptions
            (λ e. absurd (omega (arith, inj n m e, l)))
          ∙ fresh m (omega (arith, l));
    }
