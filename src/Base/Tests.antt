-- ===== src/Base/Tests.antt =====
-- Boolean tests, the conditional, and equality tests as instances.
use Prim.Native.Nat.{ℕ, ◌≤◌, ◌<◌, compare, Ordering}
use Prim.Native.String.{String}
use mathlib.Core.Path.{◌≡◌, refl}
use mathlib.Core.Logic.{◌↔◌, ◌⊎◌, inl, inr}
use mathlib.Core.Bool.{Bool, true, false}
use mathlib.Core.Option.{Option, none, some}
use native.Mathlib.Omega.{arith}
use text.Mathlib.Text.{◌==◌ as str_eq}
use text.Mathlib.TextEquality.{eq_iff}

abbrev pub ltb : ℕ → ℕ → Bool
ltb a b = elim (compare a b) [ Ordering.lt ↦ true | _ ↦ false ]

abbrev pub leb : ℕ → ℕ → Bool
leb a b = elim (compare a b) [ Ordering.gt ↦ false | _ ↦ true ]

infix 50 ◌==◌
abbrev pub ◌==◌ : ℕ → ℕ → Bool
a == b = elim (compare a b) [ Ordering.eq ↦ true | _ ↦ false ]

infix 1 if◌then◌else◌
abbrev pub if◌then◌else◌ {ℓ} : {A : Type ℓ} → Bool → A → A → A
if true then x else y = x
if false then x else y = y

pub ltb→lt : (a b : ℕ) → ltb a b ≡ true → a < b
ltb→lt a b h = ground arith

pub lt→ltb : (a b : ℕ) → a < b → ltb a b ≡ true
lt→ltb a b h = ground arith

pub leb→le : (a b : ℕ) → leb a b ≡ true → a ≤ b
leb→le a b h = ground arith

pub ==_iff : (a b : ℕ) → ((a == b) ≡ true) ↔ (a ≡ b)
==_iff a b = ground arith

pub Bool-cases : (b : Bool) → (b ≡ true) ⊎ (b ≡ false)
Bool-cases true = inl refl
Bool-cases false = inr refl

pub Option-cases {ℓ} : {A : Type ℓ} (o : Option A) → (o ≡ none) ⊎ ((a : A) × (o ≡ some a))
Option-cases none = inl refl
Option-cases (some a) = inr (a, refl)

abbrev pub is_some {ℓ} : {A : Type ℓ} → Option A → Bool
is_some none = false
is_some (some a) = true

-- What a type of map keys offers.
pub record Eq (A : Type 0) : Type 0 where
  pub beq : A → A → Bool
  pub beq_iff : (a b : A) → (beq a b ≡ true) ↔ (a ≡ b)

instance abbrev pub nat_eq : Eq ℕ
nat_eq = record { beq = ◌==◌; beq_iff = ==_iff }

instance abbrev pub string_eq : Eq String
string_eq = record { beq = str_eq; beq_iff = eq_iff }

-- A text and a number, as in the text `addr-seq` that names a transaction.
abbrev pub pair_beq : String × ℕ → String × ℕ → Bool
pair_beq (a, b) (c, d) = if str_eq a c then b == d else false

pub pair_beq_iff : (p q : String × ℕ) → (pair_beq p q ≡ true) ↔ (p ≡ q)
pair_beq_iff (a, b) (c, d) = (λ h. ground (arith, eq_iff a c), λ h. ground (arith, eq_iff a c))

instance abbrev pub pair_eq : Eq (String × ℕ)
pair_eq = record { beq = pair_beq; beq_iff = pair_beq_iff }

abbrev pub nat_pair_beq : ℕ × ℕ → ℕ × ℕ → Bool
nat_pair_beq (a, b) (c, d) = if a == c then b == d else false

pub nat_pair_beq_iff : (p q : ℕ × ℕ) → (nat_pair_beq p q ≡ true) ↔ (p ≡ q)
nat_pair_beq_iff (a, b) (c, d) = (λ h. ground (arith, h), λ h. ground (arith, h))

instance abbrev pub nat_pair_eq : Eq (ℕ × ℕ)
nat_pair_eq = record { beq = nat_pair_beq; beq_iff = nat_pair_beq_iff }
