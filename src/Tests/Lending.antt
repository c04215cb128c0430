-- ===== src/Tests/Lending.antt =====
-- Operations on an obligation of 600 000 shares that owes, with the pool as the reserve.
use solana_auditor_skill.Prelude.{
  ◌+◌, ◌≤◌, ◌≡◌, ◌≢◌, inl, inr, if◌then◌else◌, ◌==◌, refl, arith, Option, ℕ, length,
}
use solana_auditor_skill.Outcome.{ok, value_or}
use solana_auditor_skill.Numerics.Exact.{exact, exact-IsDocumented}
use solana_auditor_skill.Fraction.{
  big_mul, big_div_by_int, fraction_of_big, to_ceil, full_mul_int_ratio, from_percent, div_ceil,
}
use solana_auditor_skill.LastUpdate.{is_stale, slots_elapsed}
use solana_auditor_skill.Reserve.Types.{Reserve}
use solana_auditor_skill.Reserve.Liquidity.{
  total_supply, liquidity_amount_to_market_value, mint_factor_sf, ten_pow,
}
use solana_auditor_skill.Reserve.Collateral.{exchange_rate, fraction_collateral_to_liquidity}
use solana_auditor_skill.Reserve.Queries.{collateral_exchange_rate}
use solana_auditor_skill.Obligation.Types.{Obligation, is_no_order, new_collateral}
use solana_auditor_skill.Obligation.Queries.{
  position_of_collateral_in_deposits, get_borrowed_amount_if_single_token, loan_to_value,
}
use solana_auditor_skill.Obligation.Slots.{
  find_or_add_collateral_to_deposits, deposit_collateral, withdraw_collateral, withdraw,
}
use solana_auditor_skill.Obligation.Slots.Balances.{balance}
use solana_auditor_skill.Obligation.Slots.Keys.{AreDistinct}
use solana_auditor_skill.Obligation.Limits.{max_ltv, max_withdraw_value}
use solana_auditor_skill.Obligation.Orders.{
  is_supported_by, any_unsupported, check_orders_supported_after_user_operation,
}
use solana_auditor_skill.Market.{ElevationGroup, market_elevation_group}
use solana_auditor_skill.Lending.Checks.{
  refuse_stale, get_elevation_group, check_same_elevation_group,
  check_elevation_group_borrowing_enabled, get_max_ltv_and_liquidation_threshold,
}
use solana_auditor_skill.Lending.Values.{
  post_withdraw_obligation_invariants, check_remaining_collateral, check_remaining_slot,
  post_deposit_obligation_invariants, calculate_obligation_collateral_market_value,
}
use solana_auditor_skill.Lending.Collateral.{
  check_withdraw_possible, withdraw_amount, withdraw_amount_with_debt, withdraw_amount_of_some,
  withdraw_from_slot, check_after_withdraw, withdraw_obligation_collateral, check_deposit_possible,
  deposit_into_slot, check_after_deposit, deposit_obligation_collateral,
}
use solana_auditor_skill.Lending.Collateral.Withdraw.{withdraw-balances}
use solana_auditor_skill.Lending.Collateral.Sound.{withdraw-IsSound, IsSound, capacity}
use solana_auditor_skill.Lending.Collateral.Deposit.{deposit-balances}
use solana_auditor_skill.Lending.Groups.{perform, update_trackers_on_new_deposit}
use solana_auditor_skill.Tests.Samples.{fresh_pool, backed, market}

backed-AreDistinct : AreDistinct backed.deposits
backed-AreDistinct = (
  inr (ground arith),
  (inl refl, (inl refl, (inl refl, (inl refl, (inl refl, (inl refl, (inl refl, tt))))))),
)

abbrev withdrawn : Obligation × Reserve × ℕ
withdrawn =
    value_or (backed, fresh_pool, 0)
      (withdraw_obligation_collateral ⦃n = exact⦄ market fresh_pool backed 100_000 5_000 77 max_ltv)

withdraw_run :
    withdraw_obligation_collateral ⦃n = exact⦄ market fresh_pool backed 100_000 5_000 77 max_ltv
    ≡ ok withdrawn
unfolding withdraw_obligation_collateral check_withdraw_possible refuse_stale is_stale slots_elapsed
    position_of_collateral_in_deposits check_elevation_group_borrowing_enabled get_elevation_group
    market_elevation_group withdraw_amount withdraw_amount_with_debt withdraw_amount_of_some
    max_withdraw_value div_ceil withdraw_from_slot withdraw withdraw_collateral check_after_withdraw
    collateral_exchange_rate total_supply exchange_rate fraction_collateral_to_liquidity big_mul
    big_div_by_int fraction_of_big post_withdraw_obligation_invariants
    liquidity_amount_to_market_value mint_factor_sf ten_pow full_mul_int_ratio check_remaining_slot
    check_remaining_collateral from_percent
withdraw_run = refl

withdraw-balances_example :
    (withdrawn.2 ≤ balance backed.deposits 77)
    × AreDistinct withdrawn.0.deposits
    × ((k : ℕ)
        → k ≢ 0
        → balance withdrawn.0.deposits k + (if 77 == k then withdrawn.2 else 0)
          ≡ balance backed.deposits k)
withdraw-balances_example =
    withdraw-balances ⦃n = exact⦄ market fresh_pool backed 100_000 5_000 77 max_ltv withdrawn
      (λ e. ground arith) backed-AreDistinct withdraw_run

withdraw-IsSound_example :
    (group : Option ElevationGroup) × (value : ℕ) × (get_elevation_group 0 market ≡ ok group)
    × (calculate_obligation_collateral_market_value ⦃n = exact⦄ withdrawn.1
          (record (new_collateral 77) { deposited_amount = withdrawn.2 })
        ≡ ok value)
    × IsSound withdrawn.0 value
        (capacity value (get_max_ltv_and_liquidation_threshold fresh_pool group).1)
withdraw-IsSound_example =
    withdraw-IsSound exact-IsDocumented market fresh_pool backed 100_000 5_000 77 max_ltv withdrawn
      withdraw_run

-- 50 000 shares of a reserve that is new to the obligation.
abbrev topped : Obligation × Reserve
topped =
    value_or (backed, fresh_pool)
      (deposit_obligation_collateral ⦃n = exact⦄ market fresh_pool backed 5_000 50_000 78 perform)

deposit_run :
    deposit_obligation_collateral ⦃n = exact⦄ market fresh_pool backed 5_000 50_000 78 perform
    ≡ ok topped
unfolding deposit_obligation_collateral check_deposit_possible refuse_stale is_stale slots_elapsed
    check_same_elevation_group get_elevation_group market_elevation_group deposit_into_slot
    get_borrowed_amount_if_single_token to_ceil find_or_add_collateral_to_deposits
    deposit_collateral update_trackers_on_new_deposit check_orders_supported_after_user_operation
    any_unsupported is_supported_by is_no_order check_after_deposit collateral_exchange_rate
    total_supply exchange_rate fraction_collateral_to_liquidity big_mul big_div_by_int
    fraction_of_big post_deposit_obligation_invariants liquidity_amount_to_market_value
    mint_factor_sf ten_pow full_mul_int_ratio loan_to_value
deposit_run = refl

deposit-balances_example :
    (length topped.0.deposits ≡ 8)
    × AreDistinct topped.0.deposits
    × ((k : ℕ)
        → k ≢ 0
        → balance topped.0.deposits k ≡ balance backed.deposits k + (if 78 == k then 50_000 else 0))
deposit-balances_example =
    deposit-balances ⦃n = exact⦄ market fresh_pool backed 5_000 50_000 78 perform topped
      (λ e. ground arith) backed-AreDistinct deposit_run
