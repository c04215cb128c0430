-- ===== src/Tests/Numbers.antt =====
-- Fractions.
use solana_auditor_skill.Prelude.{ℕ, ◌≤◌, ◌*◌, ◌^◌, ◌≡◌, ◌≢◌, none, arith}
use solana_auditor_skill.Outcome.{ok, fit, panic}
use solana_auditor_skill.Numerics.{one}
use solana_auditor_skill.Numerics.Exact.{exact, exact-IsDocumented}
use solana_auditor_skill.Fraction.{
  div_ceil, full_mul_int_ratio, full_mul_int_ratio_ceil, pow_fraction, panicking_shl,
}
use solana_auditor_skill.Fraction.Rounding.{
  div_ceil_lem, full_mul_int_ratio_lem, full_mul_int_ratio_ceil_lem,
}
use solana_auditor_skill.Fraction.Power.{pow_fraction_total}
use solana_auditor_skill.Fraction.Big.{panicking_shl_lem}

div_ceil_lem_example :
    (q : ℕ) × (div_ceil ⦃n = exact⦄ (2 * one) (3 * one) ≡ fit 128 q)
    × (2 * one * one ≤ q * (3 * one))
    × ((m : ℕ) → 2 * one * one ≤ m * (3 * one) → q ≤ m)
div_ceil_lem_example =
    div_ceil_lem ⦃n = exact⦄ exact-IsDocumented (2 * one) (3 * one) (omega arith) (omega arith)
      (omega arith)

full_mul_int_ratio_lem_example :
    full_mul_int_ratio ⦃n = exact⦄ one 7 3 ≡ ok 2_690_150_177_415_976_277
full_mul_int_ratio_lem_example =
    full_mul_int_ratio_lem ⦃n = exact⦄ exact-IsDocumented one 7 3 (omega arith) (omega arith)

full_mul_int_ratio_ceil_lem_example : full_mul_int_ratio_ceil ⦃n = exact⦄ 10 7 3 ≡ ok 24
full_mul_int_ratio_ceil_lem_example =
    full_mul_int_ratio_ceil_lem ⦃n = exact⦄ exact-IsDocumented 10 7 3 (omega arith) (omega arith)

pow_fraction_total_example : pow_fraction ⦃n = exact⦄ (3 * one) 5 ≢ none
pow_fraction_total_example = pow_fraction_total ⦃n = exact⦄ (3 * one) 5 (omega arith)

panicking_shl_lem_example : panicking_shl ⦃n = exact⦄ (2 ^ 196) 60 ≡ panic
panicking_shl_lem_example = panicking_shl_lem ⦃n = exact⦄ exact-IsDocumented (2 ^ 196)
