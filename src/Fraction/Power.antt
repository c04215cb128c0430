-- ===== src/Fraction/Power.antt =====
-- `pow_fraction`: the loop ends within its fuel.
use native.Mathlib.Nat.{pow-suc}
use solana_auditor_skill.Prelude.{
  ℕ, zero, suc, ◌/◌, ◌^◌, ◌<◌, arith, none, ◌≢◌, Option-cases, inl, inr, Bool-cases, ltb,
}
use solana_auditor_skill.Numerics.{Numerics, one}
use solana_auditor_skill.Fraction.{pow_step, pow_loop, pow_fraction}

module _ ⦃n : Numerics⦄ where
  -- With fuel for the halvings the loop ends.
  pub pow_loop_total : (f x y k : ℕ) → k < 2 ^ f → 0 < f → pow_loop f x y k ≢ none
  unfolding pow_loop
  pow_loop_total zero x y k h p = elim p [ ]
  pow_loop_total (suc zero) x y k h p = ground arith
  pow_loop_total (suc (suc f)) x y k h p = elim (Bool-cases (ltb 1 k)) [
    | inl more ↦ elim (Option-cases (pow_step x y k)) [
      | inl e ↦ rw (more, e, pow_loop) (λ q. cc)
      | inr (s, e) ↦
          rw (more, e, pow_loop)
            (pow_loop_total (suc f) s.0 s.1 (k / 2) (omega (arith, pow-suc 2 (suc f)))
              (omega arith))
    ]
    | inr done ↦ rw (done, pow_loop) (λ q. cc)
  ]

  -- For a `u32` exponent the loop of `pow_fraction` ends within its fuel.
  pub pow_fraction_total : (x k : ℕ) → k < 2 ^ 32 → pow_fraction x k ≢ none
  unfolding pow_fraction
  pow_fraction_total x k h = ground (arith, pow_loop_total 32 x one k)
