-- ===== src/Liquidation.antt =====
-- The amounts of a liquidation (klend/programs/klend/src/state/liquidation_operations.rs): what is
-- repaid and taken, the liquidator's bonus, and the protocol's part of it.
pub mod Amounts
pub mod Bonus
use solana_auditor_skill.Prelude.{
  ℕ, ◌+◌, ◌-◌, ◌*◌, ◌/◌, ◌^◌, Bool, true, false, ◌&&◌, ltb, leb, ◌==◌, if◌then◌else◌, min, max,
}
use solana_auditor_skill.Outcome.{Outcome, ok, err, panic, ◌>>=◌}
use solana_auditor_skill.Numerics.{Numerics, one}
use solana_auditor_skill.Fraction.{from_percent, from_bps, to_floor, to_ceil}
use solana_auditor_skill.Reserve.Types.{Reserve, ReserveConfig}
use solana_auditor_skill.Obligation.Types.{ObligationCollateral}

abbrev pub dust_lamport_threshold : ℕ
dust_lamport_threshold = 1

-- `fraction!(0.99)`
abbrev pub near_bad_debt : ℕ
near_bad_debt = one * 99 / 100

pub record LiquidationAmounts : Type 0 where
  pub settle_amount : ℕ
  pub repay_amount : ℕ
  pub withdraw_amount : ℕ

module _ ⦃n : Numerics⦄ where
  -- The collateral is worth less than what is asked for.
  unfoldable pub amounts_of_all : ℕ → ObligationCollateral → ℕ → Bool → Outcome LiquidationAmounts
  amounts_of_all total collateral debt_liquidation_amount is_below_min = do
    repay_ratio ← n.div collateral.market_value_sf total
    repay_amount_f ← n.mul debt_liquidation_amount repay_ratio
    let settle_amount = if is_below_min then debt_liquidation_amount else repay_amount_f
    repay_amount ← to_ceil 64 settle_amount
    ok (record {
      settle_amount = settle_amount;
      repay_amount = repay_amount;
      withdraw_amount = collateral.deposited_amount;
    })

  -- It is worth more.
  unfoldable pub amounts_of_part : ℕ → ObligationCollateral → ℕ → Bool → Outcome LiquidationAmounts
  amounts_of_part total collateral debt_liquidation_amount is_below_min = do
    repay_amount ← to_ceil 64 debt_liquidation_amount
    withdraw_pct ← n.div total collateral.market_value_sf
    deposited_f ← n.from_num collateral.deposited_amount
    withdraw_amount_f ← n.mul deposited_f withdraw_pct
    withdraw_amount ←
        (if is_below_min && ltb withdraw_amount_f (dust_lamport_threshold * one)
          then ok dust_lamport_threshold
          else to_floor 64 withdraw_amount_f)
    ok (record {
      settle_amount = debt_liquidation_amount;
      repay_amount = repay_amount;
      withdraw_amount = withdraw_amount;
    })

  unfoldable pub calculate_liquidation_amounts :
      ℕ → ObligationCollateral → ℕ → Bool → Outcome LiquidationAmounts
  calculate_liquidation_amounts total collateral debt_liquidation_amount is_below_min =
      if ltb collateral.market_value_sf total
      then amounts_of_all total collateral debt_liquidation_amount is_below_min
      else if total == collateral.market_value_sf
      then (to_ceil 64 debt_liquidation_amount >>= λ repay_amount. ok (record {
        settle_amount = debt_liquidation_amount;
        repay_amount = repay_amount;
        withdraw_amount = collateral.deposited_amount;
      }))
      else amounts_of_part total collateral debt_liquidation_amount is_below_min

  unfoldable pub bad_debt_bonus : ReserveConfig → ReserveConfig → ℕ → Outcome ℕ
  bad_debt_bonus collateral_config debt_config user_no_bf_ltv = do
    bonus ← from_bps (
        min collateral_config.bad_debt_liquidation_bonus_bps
          debt_config.bad_debt_liquidation_bonus_bps)
    if ltb user_no_bf_ltv one
        then (n.sub one user_no_bf_ltv >>= λ diff_to_bad_debt. ok (max bonus diff_to_bad_debt))
        else ok bonus

  unfoldable pub calculate_liquidation_bonus :
      ReserveConfig
      → ReserveConfig
      → (max_allowed_ltv user_ltv user_no_bf_ltv emode_max_liquidation_bonus_bps : ℕ) → Outcome ℕ
  calculate_liquidation_bonus collateral_config debt_config max_allowed_ltv user_ltv user_no_bf_ltv
        emode_max_liquidation_bonus_bps =
      if leb near_bad_debt user_no_bf_ltv
      then bad_debt_bonus collateral_config debt_config user_no_bf_ltv
      else (do
        unhealthy_factor ← n.sub user_ltv max_allowed_ltv
        let max_reserve_bonus_bps =
            max collateral_config.max_liquidation_bonus_bps debt_config.max_liquidation_bonus_bps
        max_bonus ← from_bps (min max_reserve_bonus_bps emode_max_liquidation_bonus_bps)
        min_reserve_bonus ←
            from_bps (
              max collateral_config.min_liquidation_bonus_bps debt_config.min_liquidation_bonus_bps)
        let collared_bonus = min (max min_reserve_bonus unhealthy_factor) max_bonus
        diff_to_bad_debt ← n.sub one user_no_bf_ltv
        ok (min collared_bonus diff_to_bad_debt))

  unfoldable pub calculate_autodeleverage_threshold : Reserve → ℕ → Outcome ℕ
  calculate_autodeleverage_threshold r days_since_deleveraging_started = do
    daily ← from_bps r.config.deleveraging_threshold_decrease_bps_per_day
    reduction ← n.mul daily days_since_deleveraging_started
    ok (n.saturating_sub one reduction)

  unfoldable pub calculate_autodeleverage_bonus_rate :
      (min_bonus_bps increase_bps_per_day reserve_max_bonus_bps emode_max_bonus_bps days
        user_no_bf_ltv : ℕ)
      → Outcome ℕ
  calculate_autodeleverage_bonus_rate min_bonus_bps increase_bps_per_day reserve_max_bonus_bps
        emode_max_bonus_bps days user_no_bf_ltv =
      do
        configured_min ← from_bps min_bonus_bps
        daily ← from_bps increase_bps_per_day
        increase ← n.mul daily days
        bonus_rate ← n.add configured_min increase
        configured_max ← from_bps (min reserve_max_bonus_bps emode_max_bonus_bps)
        let effective_max = min configured_max (n.saturating_sub one user_no_bf_ltv)
        ok (if ltb effective_max bonus_rate then effective_max else bonus_rate)

  unfoldable pub calculate_protocol_liquidation_fee : ℕ → ℕ → ℕ → Outcome ℕ
  calculate_protocol_liquidation_fee amount_liquidated bonus_rate protocol_liquidation_fee_pct = do
    protocol_fee_rate ← from_percent protocol_liquidation_fee_pct
    amount_f ← n.from_num amount_liquidated
    bonus_multiplier ← n.add bonus_rate one
    without_bonus ← n.div amount_f bonus_multiplier
    bonus ← n.sub amount_f without_bonus
    protocol_fee ← to_ceil 64 (← n.mul bonus protocol_fee_rate)
    ok (max protocol_fee 1)
