-- ===== src/Tests/Liquidations.antt =====
-- Liquidations.
use solana_auditor_skill.Prelude.{ℕ, ◌+◌, ◌-◌, ◌*◌, ◌/◌, ◌≤◌, ◌<◌, ◌≡◌, min, max, false, arith}
use solana_auditor_skill.Outcome.{ok}
use solana_auditor_skill.Numerics.{one}
use solana_auditor_skill.Numerics.Exact.{exact, exact-IsDocumented}
use solana_auditor_skill.Obligation.Types.{ObligationCollateral}
use solana_auditor_skill.Liquidation.{
  LiquidationAmounts, calculate_liquidation_amounts, calculate_liquidation_bonus,
  calculate_autodeleverage_bonus_rate, calculate_protocol_liquidation_fee,
}
use solana_auditor_skill.Liquidation.Amounts.{calculate_liquidation_amounts-bounds}
use solana_auditor_skill.Liquidation.Bonus.{
  bps, bonus_part, calculate_liquidation_bonus-bounds, calculate_autodeleverage_bonus_rate-bounds,
  calculate_protocol_liquidation_fee-bounds,
}
use solana_auditor_skill.Tests.Samples.{settings}

-- 4 000 tokens that are worth 5 000.
abbrev pledged : ObligationCollateral
pledged = record {
  deposit_reserve = 1;
  deposited_amount = 4_000;
  market_value_sf = 5_000 * one;
  borrowed_amount_against_this_collateral_in_elevation_group = 0;
}

calculate_liquidation_amounts-bounds_example :
    (result : LiquidationAmounts) × (calculate_liquidation_amounts ⦃n = exact⦄
        (1_050 * one)
        pledged
        (1_000 * one)
        false
      ≡ ok result)
    × (result.settle_amount ≤ 1_000 * one)
    × (result.settle_amount ≤ result.repay_amount * one)
    × (result.repay_amount * one < result.settle_amount + one)
    × (result.withdraw_amount ≤ 4_000)
    × (result.withdraw_amount * (5_000 * one) ≤ max (4_000 * (1_050 * one)) (5_000 * one))
calculate_liquidation_amounts-bounds_example =
    calculate_liquidation_amounts-bounds ⦃n = exact⦄ exact-IsDocumented (1_050 * one) pledged
      (1_000 * one) false (omega arith) (omega arith)

calculate_liquidation_bonus-bounds_example :
    (bonus : ℕ) × (calculate_liquidation_bonus ⦃n = exact⦄ settings settings
        (one * 7 / 10)
        (one * 8 / 10)
        (one * 8 / 10)
        300
      ≡ ok bonus)
    × (one * 8 / 10 + bonus ≤ one)
    × (bonus ≤ bps 300)
    × (bonus ≤ bps 500)
calculate_liquidation_bonus-bounds_example =
    calculate_liquidation_bonus-bounds ⦃n = exact⦄ exact-IsDocumented settings settings
      (one * 7 / 10) (one * 8 / 10) (one * 8 / 10) 300 (omega arith) (omega arith) (omega arith)
      (omega arith) (omega arith)

calculate_autodeleverage_bonus_rate-bounds_example :
    (rate : ℕ) × (calculate_autodeleverage_bonus_rate ⦃n = exact⦄ 100 10 500 300 (3 * one) (one / 2)
      ≡ ok rate)
    × (rate ≤ bps (min 500 300))
    × (rate ≤ one - one / 2)
    × (min (bps 100) (min (bps (min 500 300)) (one - one / 2)) ≤ rate)
calculate_autodeleverage_bonus_rate-bounds_example =
    calculate_autodeleverage_bonus_rate-bounds ⦃n = exact⦄ exact-IsDocumented 100 10 500 300
      (3 * one) (one / 2) (omega arith) (omega arith) (omega arith) (omega arith)

calculate_protocol_liquidation_fee-bounds_example :
    (fee : ℕ) × (calculate_protocol_liquidation_fee ⦃n = exact⦄ 4_000 (one / 20) 10 ≡ ok fee)
    × (1 ≤ fee)
    × (fee ≤ max 4_000 1)
    × (fee * 100 * one ≤ bonus_part 4_000 (one / 20) * 10 + 100 * one)
calculate_protocol_liquidation_fee-bounds_example =
    calculate_protocol_liquidation_fee-bounds ⦃n = exact⦄ exact-IsDocumented 4_000 (one / 20) 10
      (omega arith) (omega arith) (omega arith)
