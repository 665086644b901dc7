-- ===== src/Userspace/Meter/Bounds.antt =====
-- internal/forwarder/userspace/qer_rate.go: how much a bucket lets through.
use go_upf.Base.{ℕ, ◌-◌, true, false, Option, none, some, ◌≡◌, Bool-cases, inl, inr, ltb}
use go_upf.Userspace.Rule.{TokenBucket}
use go_upf.Userspace.Meter.{Floats, capped, refill, consume, byte_rate, consume_tokens}

-- What the comparison and the arithmetic of float64 guarantee for numbers that are not NaN: a number
-- is not less than itself, the product of a duration and a rate that is above zero is not negative,
-- a sum with a number that is not negative is not less, and a difference that is taken where
-- nothing is owed lies between zero and the number.
pub record FloatLaws {F : Type 0} (fl : Floats F) : Type 0 where
  pub lt_irrefl : (a : F) → fl.lt a a ≡ false
  pub not_below_trans : (a b c : F) → fl.lt b a ≡ false → fl.lt c b ≡ false → fl.lt c a ≡ false
  pub lt_asymm : (a b : F) → fl.lt a b ≡ true → fl.lt b a ≡ false
  pub of_nat_nonneg : (n : ℕ) → fl.lt (fl.of_nat n) (fl.of_nat 0) ≡ false
  pub add_nonneg : (a b : F) → fl.lt b (fl.of_nat 0) ≡ false → fl.lt (fl.add a b) a ≡ false
  pub mul_nonneg :
      (n : ℕ) (a : F)
      → fl.lt a (fl.of_nat 0) ≡ false
      → fl.lt (fl.mul (fl.seconds n) a) (fl.of_nat 0) ≡ false
  pub sub_nonneg : (a b : F) → fl.lt a b ≡ false → fl.lt (fl.sub a b) (fl.of_nat 0) ≡ false
  pub sub_le : (a b : F) → fl.lt b (fl.of_nat 0) ≡ false → fl.lt a (fl.sub a b) ≡ false

module _ {F : Type 0} (fl : Floats F) (laws : FloatLaws fl) where
  -- From zero tokens to those of one second.
  abbrev pub Bounded : F → F → Type 0
  Bounded rate t = (fl.lt t (fl.of_nat 0) ≡ false) × (fl.lt rate t ≡ false)

  abbrev pub BucketBounded : F → Option (TokenBucket F) → Type 0
  BucketBounded rate none = Unit {0}
  BucketBounded rate (some b) = Bounded rate b.tokens

  capped-Bounded :
      (rate t : F)
      → fl.lt rate (fl.of_nat 0) ≡ false
      → fl.lt t (fl.of_nat 0) ≡ false
      → Bounded rate (capped fl rate t)
  capped-Bounded rate t r h = elim (Bool-cases (fl.lt rate t)) [
    | inl e ↦ rw e (r, laws.lt_irrefl rate)
    | inr e ↦ rw e (h, e)
  ]

  refill-Bounded :
      (rate : F) (now : ℕ) (b : Option (TokenBucket F))
      → fl.lt rate (fl.of_nat 0) ≡ false
      → BucketBounded rate b
      → Bounded rate (refill fl rate now b).tokens
  unfolding refill
  refill-Bounded rate now none r h = (r, laws.lt_irrefl rate)
  refill-Bounded rate now (some b) r (h, k) = elim (Bool-cases (ltb b.last_refill now)) [
    | inl e ↦
        let earned = fl.mul (fl.seconds (now - b.last_refill)) rate in
        rw e (
          capped-Bounded rate (fl.add b.tokens earned) r (
            laws.not_below_trans (fl.of_nat 0) b.tokens (fl.add b.tokens earned) h
              (laws.add_nonneg b.tokens earned (laws.mul_nonneg (now - b.last_refill) rate r))))
    | inr e ↦ rw e (h, k)
  ]

  consume-Bounded :
      (rate : F) (bytes now : ℕ) (b : Option (TokenBucket F))
      → fl.lt rate (fl.of_nat 0) ≡ false
      → BucketBounded rate b
      → Bounded rate (consume fl rate bytes now b).1.tokens
  unfolding consume
  consume-Bounded rate bytes now b r h =
      let full = refill fl rate now b in
      let bounded = refill-Bounded rate now b r h in
      elim (Bool-cases (fl.lt full.tokens (fl.of_nat bytes))) [
        | inl e ↦ rw e bounded
        | inr e ↦ rw e (
          laws.sub_nonneg full.tokens (fl.of_nat bytes) e,
          laws.not_below_trans (fl.sub full.tokens (fl.of_nat bytes)) full.tokens rate
              (laws.sub_le full.tokens (fl.of_nat bytes) (laws.of_nat_nonneg bytes)) bounded.1,
        )
      ]

  -- For numbers that obey the laws of `FloatLaws`: if a bucket holds between zero and one second's
  -- bytes of a rate, it does after `consumeTokens` for that rate, whatever the packet's size and the
  -- time.
  pub consume_tokens-Bounded :
      (mbr bytes now : ℕ) (b : Option (TokenBucket F))
      → BucketBounded (byte_rate fl mbr) b
      → BucketBounded (byte_rate fl mbr) (consume_tokens fl mbr bytes now b).1
  unfolding consume_tokens
  consume_tokens-Bounded mbr bytes now b h =
      elim (Bool-cases (fl.lt (fl.of_nat 0) (byte_rate fl mbr))) [
        | inl e ↦ rw e (
            consume-Bounded (byte_rate fl mbr) bytes now b
              (laws.lt_asymm (fl.of_nat 0) (byte_rate fl mbr) e) h)
        | inr e ↦ rw e h
      ]
