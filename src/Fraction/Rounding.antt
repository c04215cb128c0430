-- ===== src/Fraction/Rounding.antt =====
-- The conversions and the divisions of `Fraction`, each as the number that it returns.
use solana_auditor_skill.Prelude.{ℕ, ◌+◌, ◌-◌, ◌*◌, ◌/◌, ◌^◌, ◌≤◌, ◌<◌, ◌≡◌, arith, ap}
use solana_auditor_skill.Prelude.Division.{ceil_div, ceil_div_bounds, ceil_div-le}
use solana_auditor_skill.Outcome.{ok, fit}
use solana_auditor_skill.Numerics.{Numerics, IsDocumented, one}
use solana_auditor_skill.Numerics.Exact.{exact_unique}
use solana_auditor_skill.Fraction.{
  from_percent, from_bps, full_mul_int_ratio, full_mul_int_ratio_ceil, div_ceil, to_floor, to_ceil,
}

module _ ⦃n : Numerics⦄ (l : IsDocumented n) where
  pub from_percent_lem : (p : ℕ) → p < 2 ^ 64 → from_percent p ≡ ok (p * one / 100)
  unfolding from_percent
  from_percent_lem p h = rw (exact_unique n l) (ground arith)

  pub from_bps_lem : (p : ℕ) → p < 2 ^ 64 → from_bps p ≡ ok (p * one / 10_000)
  unfolding from_bps
  from_bps_lem p h = rw (exact_unique n l) (ground arith)

  pub to_floor_lem : (w a : ℕ) → to_floor w a ≡ fit w (a / one)
  unfolding to_floor
  to_floor_lem w a = rw (exact_unique n l) (rw (same a))
    where
      same : (a : ℕ) → a / one * one / one ≡ a / one
      same a = omega arith

  -- Up to the greatest integer of a fraction, rounding up does not overflow.
  pub to_ceil_lem : (w a : ℕ) → a ≤ 2 ^ 128 - one → to_ceil w a ≡ fit w (ceil_div a one)
  unfolding to_ceil
  to_ceil_lem w a h = rw (exact_unique n l) (ground arith)

  div_ceil_value :
      (a b : ℕ) → 0 < b → b < 2 ^ 128 → a < 2 ^ 128 → div_ceil a b ≡ fit 128 (ceil_div (a * one) b)
  unfolding div_ceil
  div_ceil_value a b h1 h2 h3 = rw (exact_unique n l) (ground arith)

  -- For fractions, of which the divisor is not zero, there is a least multiple of 2^-60 that is at
  -- least the quotient; `div_ceil` returns it where it is a fraction (of 128 bits), and panics
  -- where it is not.
  pub div_ceil_lem :
      (a b : ℕ)
      → 0 < b
      → b < 2 ^ 128
      → a < 2 ^ 128
      → (q : ℕ) × (div_ceil a b ≡ fit 128 q)
        × (a * one ≤ q * b)
        × ((m : ℕ) → a * one ≤ m * b → q ≤ m)
  div_ceil_lem a b h1 h2 h3 = (
    ceil_div (a * one) b,
    div_ceil_value a b h1 h2 h3,
    (ceil_div_bounds (a * one) b h1).0,
    λ m covers. ceil_div-le (a * one) b m h1 covers,
  )

  pub full_mul_int_ratio_lem :
      (a p q : ℕ) → 0 < q → a * p < 2 ^ 256 → full_mul_int_ratio a p q ≡ fit 128 (a * p / q)
  unfolding full_mul_int_ratio
  full_mul_int_ratio_lem a p q h1 h2 = rw (exact_unique n l) (ground arith)

  pub full_mul_int_ratio_ceil_lem :
      (a p q : ℕ)
      → 0 < q
      → a * p + q < 2 ^ 256
      → full_mul_int_ratio_ceil a p q ≡ fit 128 (ceil_div (a * p) q)
  unfolding full_mul_int_ratio_ceil
  full_mul_int_ratio_ceil_lem a p q h1 h2 =
      let same : a * p + q - 1 ≡ a * p + (q - 1) = omega arith in
      rw (exact_unique n l) (ground (arith, ap (λ (t : ℕ). t / q) same))
