-- ===== src/Report/Bits.antt =====
-- internal/report/report.go: the bits of a set of flags, one by one.
use native.Mathlib.Nat.{div-div-eq-div-mul}
use go_upf.Base.{
  ℕ, zero, suc, ◌+◌, ◌*◌, ◌/◌, ◌%◌, ◌^◌, ◌≡◌, refl, sym, ap, ◌∙◌, true, false, ◌==◌, if◌then◌else◌,
  arith, Bool-cases, inl, inr,
}
use go_upf.Gtpv1.{has_bit}
use go_upf.Report.{set_bit}

pow-suc : (k : ℕ) → 2 ^ suc k ≡ 2 * 2 ^ k
pow-suc k = omega arith

has_bit-suc : (x k : ℕ) → has_bit x (suc k) ≡ has_bit (x / 2) k
has_bit-suc x k =
    ap (λ n. n % 2 == 1) (ap (λ p. x / p) (pow-suc k) ∙ sym (div-div-eq-div-mul x 2 (2 ^ k)))

half-add : (x k : ℕ) → (x + 2 ^ suc k) / 2 ≡ x / 2 + 2 ^ k
half-add x k = omega (arith, pow-suc k)

has_bit-add :
    (k j x : ℕ)
    → has_bit x k ≡ false
    → has_bit (x + 2 ^ k) j ≡ (if k == j then true else has_bit x j)
has_bit-add zero zero x h = ground (arith, h)
has_bit-add zero (suc j) x h =
    let other : (0 == suc j) ≡ false = ground arith in
    let even : (x + 1) / 2 ≡ x / 2 = ground (arith, h) in
    rw other (has_bit-suc (x + 1) j ∙ (ap (λ y. has_bit y j) even ∙ sym (has_bit-suc x j)))
has_bit-add (suc k) zero x h =
    let other : (suc k == 0) ≡ false = ground arith in
    let even : (x + 2 ^ suc k) / 1 % 2 ≡ x / 1 % 2 = omega (arith, pow-suc k) in
    rw other (ap (λ n. n == 1) even)
has_bit-add (suc k) (suc j) x h =
    let same : (suc k == suc j) ≡ (k == j) = ground arith in
    rw (same, has_bit-suc x j)
      (has_bit-suc (x + 2 ^ suc k) j
        ∙ (ap (λ y. has_bit y j) (half-add x k)
            ∙ has_bit-add k j (x / 2) (sym (has_bit-suc x k) ∙ h)))

-- Setting a bit sets it and leaves every other one.
pub has_bit-set_bit : (x k j : ℕ) → has_bit (set_bit x k) j ≡ (if k == j then true else has_bit x j)
has_bit-set_bit x k j = elim (Bool-cases (has_bit x k)) [
  | inl e ↦ elim (Bool-cases (k == j)) [
    | inl f ↦ let same : k ≡ j = ground (arith, f) in rw (e, f) (rw same at e)
    | inr f ↦ rw (e, f) refl
  ]
  | inr e ↦ rw e (has_bit-add k j x e)
]
