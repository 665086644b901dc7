-- ===== src/Userspace/Meter.antt =====
-- internal/forwarder/userspace/qer_rate.go: the gates and the rate limits of QERs. float64 is a
-- parameter, by the operations that the code uses on it.
pub mod Bounds
use go_upf.Base.{
  ℕ, ◌-◌, Bool, true, false, not, ◌&&◌, Option, none, some, List, [], ◌∷◌, length, Assoc, lookup,
  insert, ltb, ◌==◌, if◌then◌else◌, nat_eq,
}
use go_upf.Gtpv1.{has_bit}
use go_upf.Userspace.Rule.{QerRule, AdaptiveQerOverride, TokenBucket, QerMeterState, SessionState}
use go_upf.Userspace.Sdf.{PacketDirection, uplink, downlink}
use go_upf.Userspace.Binding.{PdrBinding}
use go_upf.Userspace.State.{Userspace, store_session}

-- float64: the conversion of an integer, `Seconds()` of a number of nanoseconds, the arithmetic and
-- the comparison `<`.
pub record Floats (F : Type 0) : Type 0 where
  pub of_nat : ℕ → F
  pub seconds : ℕ → F
  pub add : F → F → F
  pub sub : F → F → F
  pub mul : F → F → F
  pub div : F → F → F
  pub lt : F → F → Bool

-- `qerMBR`.
unfoldable pub qer_mbr : QerRule → PacketDirection → ℕ
qer_mbr q uplink = elim q.mbr_ul [ none ↦ 0 | some v ↦ v ]
qer_mbr q downlink = elim q.mbr_dl [ none ↦ 0 | some v ↦ v ]

abbrev expired : ℕ → AdaptiveQerOverride → Bool
expired now o = not (o.expires_at == 0) && ltb o.expires_at now

module _ {F : Type 0} where
  -- `effectiveQEROverrideFromSession`, of a session that is there.
  unfoldable pub effective_override : ℕ → SessionState F → ℕ → Option AdaptiveQerOverride
  effective_override now s id = elim (lookup id s.adaptive_qer) [
    | none ↦ none
    | some o ↦ (if expired now o then none else some o)
  ]

  -- `effectiveQEROverride`.
  unfoldable pub stored_override : ℕ → Userspace F → ℕ → ℕ → Option AdaptiveQerOverride
  unfolding effective_override
  stored_override now u seid id = elim (lookup seid u.sessions) [
    | none ↦ none
    | some s ↦ effective_override now s id
  ]

abbrev override_gate : PacketDirection → Option AdaptiveQerOverride → Option Bool
override_gate d none = none
override_gate uplink (some o) = o.gate_ul
override_gate downlink (some o) = o.gate_dl

abbrev override_mbr : PacketDirection → Option AdaptiveQerOverride → ℕ
override_mbr d none = 0
override_mbr uplink (some o) = o.mbr_ul
override_mbr downlink (some o) = o.mbr_dl

-- qerULGateClosed and qerDLGateClosed.
abbrev gate_bit : PacketDirection → ℕ
gate_bit uplink = 2
gate_bit downlink = 0

abbrev status_closed : QerRule → PacketDirection → Bool
status_closed q d = elim q.gate_status [ none ↦ false | some g ↦ has_bit g (gate_bit d) ]

module _ {F : Type 0} (now : ℕ) where
  -- `effectiveQERGateClosed`.
  unfoldable pub qer_gate_closed : Userspace F → ℕ → QerRule → PacketDirection → Bool
  unfolding stored_override
  qer_gate_closed u seid q d = elim (override_gate d (stored_override now u seid q.id)) [
    | none ↦ status_closed q d
    | some gate ↦ not gate
  ]

  -- `gateClosed`.
  unfoldable pub any_gate_closed : Userspace F → ℕ → List QerRule → PacketDirection → Bool
  unfolding qer_gate_closed
  any_gate_closed u seid [] d = false
  any_gate_closed u seid (q ∷ qs) d =
      let rest = any_gate_closed u seid qs d in if qer_gate_closed u seid q d then true else rest

  abbrev pub gate_closed : Userspace F → PdrBinding → PacketDirection → Bool
  gate_closed u b d = any_gate_closed u b.seid b.qers d

  -- `effectiveQERMBRLocked`, of a session that is there.
  unfoldable pub effective_mbr : SessionState F → QerRule → PacketDirection → ℕ
  unfolding effective_override qer_mbr
  effective_mbr s q d =
      let o = override_mbr d (effective_override now s q.id) in if o == 0 then qer_mbr q d else o

module _ {F : Type 0} (fl : Floats F) where
  -- `float64(mbr) * 1000.0 / 8.0`.
  abbrev pub byte_rate : ℕ → F
  byte_rate mbr = fl.div (fl.mul (fl.of_nat mbr) (fl.of_nat 1000)) (fl.of_nat 8)

  abbrev pub capped : F → F → F
  capped rate tokens = if fl.lt rate tokens then rate else tokens

  -- The bucket after the refill. One that was never filled is full.
  unfoldable pub refill : F → ℕ → Option (TokenBucket F) → TokenBucket F
  refill rate now none = record { tokens = rate; last_refill = now }
  refill rate now (some b) =
      if ltb b.last_refill now
      then record {
        tokens = capped rate (fl.add b.tokens (fl.mul (fl.seconds (now - b.last_refill)) rate));
        last_refill = now;
      }
      else b

  -- `consumeTokens`, where the rate is above zero: whether the packet may pass, and the bucket after.
  unfoldable pub consume : F → ℕ → ℕ → Option (TokenBucket F) → Bool × TokenBucket F
  unfolding refill
  consume rate bytes now b =
      let full = refill rate now b in
      if fl.lt full.tokens (fl.of_nat bytes)
      then (false, full)
      else (true, record full { tokens = fl.sub full.tokens (fl.of_nat bytes) })

  abbrev kept : Bool × TokenBucket F → Bool × Option (TokenBucket F)
  kept (b, t) = (b, some t)

  -- `consumeTokens`.
  unfoldable pub consume_tokens : ℕ → ℕ → ℕ → Option (TokenBucket F) → Bool × Option (TokenBucket F)
  unfolding consume
  consume_tokens mbr bytes now b =
      if fl.lt (fl.of_nat 0) (byte_rate mbr)
      then kept (consume (byte_rate mbr) bytes now b)
      else (true, b)

  -- `selectQERBucket`.
  abbrev pub select_bucket : PacketDirection → QerMeterState F → Option (TokenBucket F)
  select_bucket uplink m = m.uplink
  select_bucket downlink m = m.downlink

  abbrev pub with_bucket :
      PacketDirection → Option (TokenBucket F) → QerMeterState F → QerMeterState F
  with_bucket uplink b m = record m { uplink = b }
  with_bucket downlink b m = record m { downlink = b }

  -- `sess.QERMeters[qer.ID]`, and a new one where it is missing.
  abbrev pub meter_of : ℕ → SessionState F → QerMeterState F
  meter_of id s = elim (lookup id s.qer_meters) [
    | none ↦ record { uplink = none; downlink = none }
    | some m ↦ m
  ]

  -- One QER with a rate that is not 0.
  abbrev pub meter_qer :
      ℕ → QerRule → ℕ → ℕ → PacketDirection → SessionState F → Bool × SessionState F
  meter_qer now q mbr bytes d s =
      let m = meter_of q.id s in
      let r = consume_tokens mbr bytes now (select_bucket d m) in
      (r.0, record s { qer_meters = insert q.id (with_bucket d r.1 m) s.qer_meters })

  -- The loop over the QERs, which stops at the first one that refuses.
  unfoldable pub meter_qers :
      ℕ → List QerRule → ℕ → PacketDirection → SessionState F → Bool × SessionState F
  unfolding effective_mbr consume_tokens
  meter_qers now [] bytes d s = (true, s)
  meter_qers now (q ∷ qs) bytes d s =
      let mbr = effective_mbr now s q d in
      let r = meter_qer now q mbr bytes d s in
      let unmetered = meter_qers now qs bytes d s in
      let metered = meter_qers now qs bytes d r.1 in
      if mbr == 0 then unmetered else if r.0 then metered else r

  -- `mbrAllows`: whether the packet may pass, and the state after.
  unfoldable pub mbr_allows :
      ℕ → PdrBinding → ℕ → PacketDirection → Userspace F → Bool × Userspace F
  unfolding meter_qers
  mbr_allows now b bytes d u =
      if length b.qers == 0
      then (true, u)
      else if bytes == 0
      then (true, u)
      else (elim (lookup b.seid u.sessions) [
        | none ↦ (true, u)
        | some s ↦ let r = meter_qers now b.qers bytes d s in (r.0, store_session b.seid r.1 u)
      ])
