-- ===== src/Lending/Values.antt =====
-- What slots are worth, and the tests of an operation's result by value
-- (klend/programs/klend/src/lending_market/lending_operations.rs).
use solana_auditor_skill.Prelude.{ℕ, ◌==◌, Bool, not, ◌&&◌, ltb, leb, if◌then◌else◌}
use solana_auditor_skill.Outcome.{Outcome, ok, ◌>>=◌, ◌>>◌, refuse_if, require}
use solana_auditor_skill.Errors.{
  net_value_remaining_too_small, worse_ltv_blocked, liabilities_bigger_than_assets,
  worse_ltv_than_unhealthy_ltv, borrowing_above_utilization_rate_disabled, borrow_limit_exceeded,
  borrow_too_large, zero_max_ltv_assets_in_deposits, lowest_ltv_assets_priority,
}
use solana_auditor_skill.Numerics.{Numerics}
use solana_auditor_skill.Fraction.{from_percent}
use solana_auditor_skill.Reserve.Types.{Reserve}
use solana_auditor_skill.Reserve.Liquidity.{
  total_borrow, total_supply, liquidity_amount_to_market_value,
}
use solana_auditor_skill.Reserve.Collateral.{fraction_collateral_to_liquidity}
use solana_auditor_skill.Reserve.Queries.{borrow_factor_f, collateral_exchange_rate}
use solana_auditor_skill.Obligation.Types.{Obligation, ObligationCollateral, ObligationLiquidity}
use solana_auditor_skill.Obligation.Queries.{
  loan_to_value, unhealthy_loan_to_value, remaining_borrow_value, is_marked_for_deleveraging,
}
use solana_auditor_skill.Lending.Checks.{in_elevation_group}

module _ ⦃n : Numerics⦄ where
  unfoldable pub calculate_obligation_collateral_market_value :
      Reserve → ObligationCollateral → Outcome ℕ
  calculate_obligation_collateral_market_value r c = do
    rate ← collateral_exchange_rate r
    deposited ← n.from_num c.deposited_amount
    amount ← fraction_collateral_to_liquidity rate deposited
    liquidity_amount_to_market_value r.liquidity amount

  unfoldable pub calculate_obligation_liquidity_market_value :
      Reserve → ObligationLiquidity → Outcome ℕ
  calculate_obligation_liquidity_market_value r l =
      liquidity_amount_to_market_value r.liquidity l.borrowed_amount_sf

  unfoldable pub check_ltv_not_worse_if_marked_for_deleveraging :
      Obligation → (initial_ltv debt_value deposited_value : ℕ) → Outcome (Unit {0})
  check_ltv_not_worse_if_marked_for_deleveraging o initial_ltv debt_value deposited_value =
      if not (is_marked_for_deleveraging o) then ok tt else do
        resulting_ltv ← n.div debt_value deposited_value
        refuse_if (ltb initial_ltv resulting_ltv) worse_ltv_blocked

  unfoldable pub check_below_reserve_utilization_limit : Reserve → ℕ → Outcome (Unit {0})
  check_below_reserve_utilization_limit r borrow_amount = do
    borrowed ← n.add (total_borrow r.liquidity) borrow_amount
    supply ← total_supply r.liquidity
    new_utilization_rate ← n.div borrowed supply
    limit ← from_percent r.config.utilization_limit_block_borrowing_above_pct
    refuse_if
        (leb limit new_utilization_rate
          && not (r.config.utilization_limit_block_borrowing_above_pct == 0))
        borrowing_above_utilization_rate_disabled

  unfoldable pub check_below_reserve_borrow_limit : Reserve → ℕ → Outcome (Unit {0})
  check_below_reserve_borrow_limit r borrow_amount = do
    borrowed ← n.add (total_borrow r.liquidity) borrow_amount
    limit ← n.from_num r.config.borrow_limit
    refuse_if (ltb limit borrowed) borrow_limit_exceeded

  unfoldable pub check_below_obligation_allowed_borrow_value :
      Obligation → Reserve → ℕ → Outcome (Unit {0})
  check_below_obligation_allowed_borrow_value o r increase = do
    value ← liquidity_amount_to_market_value r.liquidity increase
    factor ← borrow_factor_f r (in_elevation_group o)
    adjusted ← n.mul value factor
    require (leb adjusted (remaining_borrow_value o)) borrow_too_large

  -- `value > 0 && value < least`
  abbrev pub is_dust : ℕ → ℕ → Bool
  is_dust value least = ltb 0 value && ltb value least

  unfoldable pub post_deposit_obligation_invariants :
      (amount : ℕ) → Obligation → Reserve → (previous_mv least : ℕ) → Outcome (Unit {0})
  post_deposit_obligation_invariants amount o r previous_mv least = do
    asset_mv ← liquidity_amount_to_market_value r.liquidity amount
    new_total ← n.add o.deposited_value_sf asset_mv
    new_mv ← n.add previous_mv asset_mv
    new_ltv ← n.div o.borrow_factor_adjusted_debt_value_sf new_total
    refuse_if (is_dust new_mv least) net_value_remaining_too_small
    if o.deposited_value_sf == 0
        then ok tt
        else do old_ltv ← loan_to_value o; refuse_if (ltb old_ltv new_ltv) worse_ltv_blocked

  -- The test of the ratio, where some collateral stays.
  unfoldable pub check_remaining_collateral :
      Obligation → (asset_mv new_total liq_threshold_pct : ℕ) → Outcome (Unit {0})
  check_remaining_collateral o asset_mv new_total liq_threshold_pct = do
    refuse_if (leb new_total o.borrowed_assets_market_value_sf) liabilities_bigger_than_assets
    new_ltv ← n.div o.borrow_factor_adjusted_debt_value_sf new_total
    threshold ← from_percent liq_threshold_pct
    let new_unhealthy =
        n.saturating_sub o.unhealthy_borrow_value_sf (n.saturating_mul asset_mv threshold)
    new_unhealthy_ltv ← n.div new_unhealthy new_total
    refuse_if (leb new_unhealthy_ltv new_ltv && not (new_ltv == 0)) worse_ltv_than_unhealthy_ltv

  -- What is left of the slot that was withdrawn from.
  unfoldable pub check_remaining_slot : (previous_mv asset_mv least : ℕ) → Outcome (Unit {0})
  check_remaining_slot previous_mv asset_mv least = if previous_mv == 0 then ok tt else do
    new_mv ← n.sub previous_mv asset_mv
    refuse_if (is_dust new_mv least) net_value_remaining_too_small

  unfoldable pub post_withdraw_obligation_invariants :
      (amount : ℕ)
      → Obligation
      → Reserve
      → (liq_threshold_pct previous_mv least : ℕ) → Outcome (Unit {0})
  unfolding check_remaining_collateral check_remaining_slot
  post_withdraw_obligation_invariants amount o r liq_threshold_pct previous_mv least = do
    asset_mv ← liquidity_amount_to_market_value r.liquidity amount
    new_total ← n.sub o.deposited_value_sf asset_mv
    check_remaining_slot previous_mv asset_mv least
    refuse_if ((new_total == 0) && ltb 0 o.borrow_factor_adjusted_debt_value_sf)
        liabilities_bigger_than_assets
    if new_total == 0
        then ok tt
        else check_remaining_collateral o asset_mv new_total liq_threshold_pct

  unfoldable pub post_repay_and_withdraw_obligation_enforcements :
      Obligation → Reserve → ℕ → Outcome (Unit {0})
  post_repay_and_withdraw_obligation_enforcements o withdraw_reserve initial_ltv = do
    let owes_value = ltb 0 o.borrow_factor_adjusted_debt_value_sf
    refuse_if ((o.lowest_reserve_deposit_max_ltv_pct == 0) && owes_value)
        zero_max_ltv_assets_in_deposits
    refuse_if
        (ltb o.lowest_reserve_deposit_max_ltv_pct withdraw_reserve.config.loan_to_value_pct
          && owes_value)
        lowest_ltv_assets_priority
    (if o.deposited_value_sf == 0 then ok tt else do
      new_unhealthy_ltv ← unhealthy_loan_to_value o
      new_ltv ← loan_to_value o
      refuse_if (ltb initial_ltv new_ltv) worse_ltv_blocked
      refuse_if (leb new_unhealthy_ltv new_ltv) worse_ltv_than_unhealthy_ltv)
    refuse_if ((o.deposited_value_sf == 0) && owes_value) liabilities_bigger_than_assets

  unfoldable pub post_borrow_obligation_invariants :
      (amount : ℕ) → Obligation → Reserve → (liquidity_mv least : ℕ) → Outcome (Unit {0})
  post_borrow_obligation_invariants amount o r liquidity_mv least = do
    asset_mv ← liquidity_amount_to_market_value r.liquidity amount
    factor ← borrow_factor_f r (in_elevation_group o)
    adjusted ← n.mul asset_mv factor
    new_total_bf ← n.add o.borrow_factor_adjusted_debt_value_sf adjusted
    new_total_no_bf ← n.add o.borrowed_assets_market_value_sf asset_mv
    new_mv ← n.add liquidity_mv asset_mv
    refuse_if (is_dust new_mv least) net_value_remaining_too_small
    new_ltv ← n.div new_total_bf o.deposited_value_sf
    unhealthy ← unhealthy_loan_to_value o
    refuse_if (ltb unhealthy new_ltv) worse_ltv_than_unhealthy_ltv
    refuse_if (leb o.deposited_value_sf new_total_no_bf) liabilities_bigger_than_assets

  unfoldable pub post_repay_obligation_invariants :
      (amount : ℕ) → Obligation → Reserve → (liquidity_mv least : ℕ) → Outcome (Unit {0})
  unfolding check_remaining_slot
  post_repay_obligation_invariants amount o r liquidity_mv least = do
    asset_mv ← liquidity_amount_to_market_value r.liquidity amount
    factor ← borrow_factor_f r (in_elevation_group o)
    adjusted ← n.mul asset_mv factor
    new_total_bf ← n.sub o.borrow_factor_adjusted_debt_value_sf adjusted
    check_remaining_slot liquidity_mv asset_mv least
    if o.deposited_value_sf == 0 then ok tt else do
      new_ltv ← n.div new_total_bf o.deposited_value_sf
      old_ltv ← loan_to_value o
      refuse_if (ltb old_ltv new_ltv) worse_ltv_blocked
