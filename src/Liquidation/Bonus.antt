-- ===== src/Liquidation/Bonus.antt =====
-- The bonus of a liquidation and the protocol's part of it.
use native.Mathlib.Nat.{mul-le-mul, le_refl}
use solana_auditor_skill.Prelude.{ℕ, ◌+◌, ◌-◌, ◌*◌, ◌^◌, ◌/◌, ◌≤◌, ◌<◌, ◌≡◌, arith, min, max}
use solana_auditor_skill.Prelude.Division.{ceil_div, div_bounds, le_of_mul-le}
use solana_auditor_skill.Outcome.{ok, fit_lem}
use solana_auditor_skill.Numerics.{Numerics, IsDocumented, one}
use solana_auditor_skill.Numerics.Exact.{exact_unique}
use solana_auditor_skill.Fraction.{from_percent, from_bps, to_ceil}
use solana_auditor_skill.Reserve.Types.{ReserveConfig}
use solana_auditor_skill.Liquidation.{
  near_bad_debt, bad_debt_bonus, calculate_liquidation_bonus, calculate_autodeleverage_bonus_rate,
  calculate_protocol_liquidation_fee,
}

abbrev pub bps : ℕ → ℕ
bps b = b * one / 10_000

-- What the bonus adds to an amount that contains it.
abbrev pub bonus_part : ℕ → ℕ → ℕ
bonus_part amount bonus = amount * one - amount * one * one / (bonus + one)

without-le : (amount bonus : ℕ) → amount * one * one / (bonus + one) ≤ amount * one
without-le amount bonus =
    let q = amount * one * one / (bonus + one) in
    let low = (div_bounds (amount * one * one) (bonus + one) (omega arith)).0 in
    le_of_mul-le q (amount * one) (bonus + one) (omega arith) (omega (arith, low))

module _ ⦃n : Numerics⦄ (d : IsDocumented n) where
  module _ (collateral debt : ReserveConfig) (max_ltv user_ltv no_bf_ltv emode : ℕ)
      (emode_fits : emode < 2 ^ 16)
      (collateral_fits : collateral.min_liquidation_bonus_bps < 2 ^ 16)
      (debt_fits : debt.min_liquidation_bonus_bps < 2 ^ 16) where
    -- Below 99% of loan to value, for an unhealthy loan, the bonus is computed without overflow,
    -- never takes the loan past its collateral, and is at most the cap of the elevation group and
    -- that of the two reserves.
    pub calculate_liquidation_bonus-bounds :
        no_bf_ltv < near_bad_debt
        → max_ltv ≤ user_ltv
        → (bonus : ℕ) × (calculate_liquidation_bonus collateral debt max_ltv user_ltv no_bf_ltv
              emode
            ≡ ok bonus)
          × (no_bf_ltv + bonus ≤ one)
          × (bonus ≤ bps emode)
          × (bonus ≤ bps (max collateral.max_liquidation_bonus_bps debt.max_liquidation_bonus_bps))
    unfolding calculate_liquidation_bonus from_bps
    calculate_liquidation_bonus-bounds low unhealthy =
        let most =
          min (max collateral.max_liquidation_bonus_bps debt.max_liquidation_bonus_bps) emode in
        let least = max collateral.min_liquidation_bonus_bps debt.min_liquidation_bonus_bps in
        (
          min (min (max (bps least) (user_ltv - max_ltv)) (bps most)) (one - no_bf_ltv),
          rw
              (
                exact_unique n d,
                fit_lem 128 (most * one) (omega arith),
                fit_lem 128 (least * one) (omega arith),
              )
              (ground arith),
          omega arith,
          omega arith,
          omega arith,
        )

  -- From 99% of loan to value on, the bonus is the lesser bad debt bonus of the two reserves, or
  -- what the loan is short of its collateral if that is more.
  pub calculate_liquidation_bonus-bad_debt :
      (collateral debt : ReserveConfig) (max_ltv user_ltv no_bf_ltv emode : ℕ)
      → collateral.bad_debt_liquidation_bonus_bps < 2 ^ 16
      → near_bad_debt ≤ no_bf_ltv
      → calculate_liquidation_bonus collateral debt max_ltv user_ltv no_bf_ltv emode
        ≡ ok (
            max
              (bps
                (min collateral.bad_debt_liquidation_bonus_bps debt.bad_debt_liquidation_bonus_bps))
              (one - no_bf_ltv))
  unfolding calculate_liquidation_bonus bad_debt_bonus from_bps
  calculate_liquidation_bonus-bad_debt collateral debt max_ltv user_ltv no_bf_ltv emode fits high =
      let bad = min collateral.bad_debt_liquidation_bonus_bps debt.bad_debt_liquidation_bonus_bps in
      rw (exact_unique n d, fit_lem 128 (bad * one) (omega arith)) (ground arith)

  -- The bonus of an auto-deleveraging, within the bounds of its words, is at most the configured
  -- cap and what the loan is short of its collateral, and at least the configured minimum where
  -- these caps allow it.
  pub calculate_autodeleverage_bonus_rate-bounds :
      (least daily reserve emode days no_bf_ltv : ℕ)
      → least < 2 ^ 16
      → daily < 2 ^ 64
      → emode < 2 ^ 16
      → bps daily * days < 2 ^ 186
      → (rate : ℕ) × (calculate_autodeleverage_bonus_rate least daily reserve emode days no_bf_ltv
          ≡ ok rate)
        × (rate ≤ bps (min reserve emode))
        × (rate ≤ one - no_bf_ltv)
        × (min (bps least) (min (bps (min reserve emode)) (one - no_bf_ltv)) ≤ rate)
  unfolding calculate_autodeleverage_bonus_rate from_bps
  calculate_autodeleverage_bonus_rate-bounds least daily reserve emode days no_bf_ltv h1 h2 h3 h4 =
      (
        min (min (bps (min reserve emode)) (one - no_bf_ltv)) (bps least + bps daily * days / one),
        rw
            (
              exact_unique n d,
              fit_lem 128 (least * one) (omega arith),
              fit_lem 128 (daily * one) (omega arith),
              fit_lem 128 (bps daily * days / one) (omega arith),
              fit_lem 128 (bps least + bps daily * days / one) (omega arith),
              fit_lem 128 (min reserve emode * one) (omega arith),
            )
            (ground arith),
        omega arith,
        omega arith,
        omega arith,
      )

  -- The protocol's fee on a liquidation (an amount below 2^63, a bonus below 2^67, a share of at
  -- most all) is at least one token, at most the amount where that is not zero, and at most its
  -- share of the bonus and a token.
  pub calculate_protocol_liquidation_fee-bounds :
      (amount bonus pct : ℕ)
      → amount < 2 ^ 63
      → bonus < 2 ^ 127
      → pct ≤ 100
      → (fee : ℕ) × (calculate_protocol_liquidation_fee amount bonus pct ≡ ok fee)
        × (1 ≤ fee)
        × (fee ≤ max amount 1)
        × (fee * 100 * one ≤ bonus_part amount bonus * pct + 100 * one)
  unfolding calculate_protocol_liquidation_fee from_percent to_ceil
  calculate_protocol_liquidation_fee-bounds amount bonus pct h1 h2 h3 =
      let share = pct * one / 100 in
      let part = bonus_part amount bonus in
      let little : share ≤ one = omega arith in
      let most = mul-le-mul (le_refl part) little in
      let fair = mul-le-mul (le_refl part) (div_bounds (pct * one) 100 (omega arith)).0 in
      let without = without-le amount bonus in
      (
        max (ceil_div (part * share / one) one) 1,
        rw
            (
              exact_unique n d,
              fit_lem 128 (pct * one) (omega arith),
              fit_lem 128 (amount * one) (omega arith),
              fit_lem 128 (bonus + one) (omega arith),
              fit_lem 128 (amount * one * one / (bonus + one)) (omega (arith, without)),
            )
            (ground (arith, without, most)),
        omega arith,
        omega (arith, most),
        omega (arith, most, fair),
      )
