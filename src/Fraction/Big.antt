-- ===== src/Fraction/Big.antt =====
-- The operations on `BigFraction`, where no step leaves 256 bits.
use solana_auditor_skill.Prelude.{ℕ, ◌+◌, ◌-◌, ◌*◌, ◌/◌, ◌^◌, ◌<◌, ◌≡◌, arith, ap}
use solana_auditor_skill.Prelude.Division.{ceil_div}
use solana_auditor_skill.Outcome.{ok, fit}
use solana_auditor_skill.Numerics.{Numerics, IsDocumented, one}
use solana_auditor_skill.Numerics.Exact.{exact_unique}
use solana_auditor_skill.Fraction.{
  panicking_shl, fraction_of_big, big_from_num, big_div_ceil, big_mul, big_div, big_mul_by_int,
  big_div_by_int,
}

module _ ⦃n : Numerics⦄ (l : IsDocumented n) where
  -- The shift by the fraction's bits multiplies by 2^60 exactly, and panics where the product does
  -- not fit 256 bits.
  pub panicking_shl_lem : (a : ℕ) → panicking_shl a 60 ≡ fit 256 (a * one)
  unfolding panicking_shl
  panicking_shl_lem a = rw (exact_unique n l) (ground arith)

  pub big_from_num_lem : (a : ℕ) → big_from_num a ≡ fit 256 (a * one)
  unfolding big_from_num
  big_from_num_lem a = rw (exact_unique n l) (ground arith)

  pub big_mul_lem : (a b : ℕ) → a * b < 2 ^ 256 → big_mul a b ≡ ok (a * b / one)
  unfolding big_mul
  big_mul_lem a b h = rw (exact_unique n l) (ground arith)

  pub big_div_lem : (a b : ℕ) → 0 < b → a * one < 2 ^ 256 → big_div a b ≡ ok (a * one / b)
  unfolding big_div
  big_div_lem a b p h = rw (exact_unique n l) (ground arith)

  pub big_mul_by_int_lem : (a b : ℕ) → big_mul_by_int a b ≡ fit 256 (a * b)
  unfolding big_mul_by_int
  big_mul_by_int_lem a b = rw (exact_unique n l)

  pub big_div_by_int_lem : (a b : ℕ) → 0 < b → big_div_by_int a b ≡ ok (a / b)
  unfolding big_div_by_int
  big_div_by_int_lem a b h = rw (exact_unique n l) (ground arith)

  pub big_div_ceil_lem :
      (a b : ℕ) → 0 < b → a * one + b < 2 ^ 256 → big_div_ceil a b ≡ ok (ceil_div (a * one) b)
  unfolding big_div_ceil
  big_div_ceil_lem a b p h =
      let same : a * one + b - 1 ≡ a * one + (b - 1) = omega arith in
      rw (exact_unique n l) (ground (arith, ap (λ (t : ℕ). t / b) same))

  pub fraction_of_big_lem : (a : ℕ) → a < 2 ^ 128 → fraction_of_big a ≡ ok a
  unfolding fraction_of_big
  fraction_of_big_lem a h = rw (exact_unique n l) (ground arith)
