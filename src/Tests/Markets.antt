-- ===== src/Tests/Markets.antt =====
-- A borrow of 500 tokens more from the pool, and a refresh of the pool with a new price.
use solana_auditor_skill.Prelude.{◌*◌, ◌≡◌, false, refl, none, some, Option, ℕ, []}
use solana_auditor_skill.Prelude.Int.{◌+ℤ◌, ◌-ℤ◌}
use solana_auditor_skill.Outcome.{ok, value_or}
use solana_auditor_skill.Numerics.{one}
use solana_auditor_skill.Numerics.Exact.{exact, exact-IsDocumented}
use solana_auditor_skill.Fraction.{
  big_mul, big_div_by_int, fraction_of_big, to_floor, to_ceil, to_round, full_mul_int_ratio,
  from_percent, from_bps,
}
use solana_auditor_skill.LastUpdate.{is_stale, slots_elapsed, update_slot, all_checks}
use solana_auditor_skill.WithdrawalCaps.{
  add_to_withdrawal_accum, check_and_update_withdrawal_caps, roll_interval, check_capacity,
  update_counter, remaining_withdrawal_caps_amount, check_last_interval_elapsed,
  reset_current_interval_and_counter,
}
use solana_auditor_skill.Reserve.Types.{
  Reserve, CalculateBorrowResult, ReferrerTokenState, BorrowSize,
}
use solana_auditor_skill.Reserve.Liquidity.{
  total_supply, liquidity_amount_to_market_value, mint_factor_sf, ten_pow,
}
use solana_auditor_skill.Reserve.Collateral.{
  exchange_rate, fraction_collateral_to_liquidity, collateral_to_liquidity,
}
use solana_auditor_skill.Reserve.Queries.{
  collateral_exchange_rate, borrow_factor_f, get_borrow_factor, remaining_borrow_capacity,
  freely_available_liquidity_amount, queued_liquidity_amount, get_secs_since_debt_maturity_reached,
}
use solana_auditor_skill.Reserve.Fees.{
  calculate_borrow_fees, calculate_fees, origination_fee_amount, referral_part,
}
use solana_auditor_skill.Reserve.Borrow.{calculate_borrow, calculate_borrow_exact}
use solana_auditor_skill.Reserve.Operations.{borrow, withdraw_freely_available}
use solana_auditor_skill.Reserve.Types
use solana_auditor_skill.Obligation.Types.{is_no_order}
use solana_auditor_skill.Obligation.Queries.{
  check_not_marked_for_deleveraging, unhealthy_loan_to_value,
}
use solana_auditor_skill.Obligation.Slots.{find_or_add_liquidity_to_borrows, borrow_liquidity}
use solana_auditor_skill.Obligation.Debt.{
  get_secs_since_reserve_debt_term_end, get_debt_term_end_timestamp,
}
use solana_auditor_skill.Obligation.Orders.{
  is_supported_by, any_unsupported, check_orders_supported_after_user_operation,
}
use solana_auditor_skill.Market.{Clock, market_elevation_group}
use solana_auditor_skill.Lending.Checks.{
  refuse_stale, get_elevation_group, check_same_elevation_group,
  check_elevation_group_borrowing_enabled, check_borrow_possible, in_elevation_group,
  check_obligation_fully_refreshed_and_not_null, check_non_elevation_group_borrowing_enabled,
}
use solana_auditor_skill.Lending.Values.{
  check_below_reserve_utilization_limit, post_borrow_obligation_invariants,
}
use solana_auditor_skill.Lending.Groups.{BorrowState, update_trackers_on_borrow}
use solana_auditor_skill.Lending.Debt.{
  borrow_obligation_liquidity, borrow_amount_of, borrow_from_reserve, borrow_into_slot,
  pay_referrer, check_after_borrow,
}
use solana_auditor_skill.Lending.Debt.Borrow.{borrow-IsSolvent, IsSolvent}
use solana_auditor_skill.Lending.Reserves.{GetPriceResult, refresh_reserve}
use solana_auditor_skill.Lending.Reserves.Fresh.{status_after, refresh_reserve-update}
use solana_auditor_skill.Reserve.Interest.{accrue_interest, distribute_rewards}
use solana_auditor_skill.Tests.Samples.{fresh_pool, backed, market}

abbrev now : Clock
now = record { slot = 5_000; unix_timestamp = 1_700_000_050 }

abbrev before : BorrowState
before = record { obligation = backed; reserve = fresh_pool; accounts = [] }

abbrev borrowed : BorrowState × Option ReferrerTokenState × CalculateBorrowResult
borrowed =
    value_or
      (
        before,
        none,
        record { borrow_amount_f = 0; receive_amount = 0; origination_fee = 0; referrer_fee = 0 },
      )
      (borrow_obligation_liquidity ⦃n = exact⦄ market before (Types.exact 500) now 88 none)

borrow_run :
    borrow_obligation_liquidity ⦃n = exact⦄ market before (Types.exact 500) now 88 none
    ≡ ok borrowed
unfolding borrow_obligation_liquidity borrow_amount_of check_borrow_possible refuse_stale is_stale
    slots_elapsed get_secs_since_debt_maturity_reached check_not_marked_for_deleveraging
    check_obligation_fully_refreshed_and_not_null check_same_elevation_group
    check_elevation_group_borrowing_enabled get_elevation_group market_elevation_group
    check_non_elevation_group_borrowing_enabled remaining_borrow_capacity calculate_borrow
    borrow_factor_f get_borrow_factor from_percent calculate_borrow_exact calculate_borrow_fees
    calculate_fees to_round to_floor to_ceil from_bps liquidity_amount_to_market_value
    mint_factor_sf ten_pow full_mul_int_ratio freely_available_liquidity_amount
    queued_liquidity_amount collateral_exchange_rate total_supply exchange_rate
    collateral_to_liquidity fraction_collateral_to_liquidity borrow_from_reserve
    add_to_withdrawal_accum check_and_update_withdrawal_caps roll_interval check_capacity
    update_counter remaining_withdrawal_caps_amount check_last_interval_elapsed
    reset_current_interval_and_counter ◌+ℤ◌ ◌-ℤ◌ check_below_reserve_utilization_limit borrow
    withdraw_freely_available borrow_into_slot find_or_add_liquidity_to_borrows
    get_secs_since_reserve_debt_term_end get_debt_term_end_timestamp borrow_liquidity pay_referrer
    check_orders_supported_after_user_operation any_unsupported is_supported_by is_no_order
    update_trackers_on_borrow check_after_borrow post_borrow_obligation_invariants
    unhealthy_loan_to_value origination_fee_amount referral_part big_mul big_div_by_int
    fraction_of_big
borrow_run = refl

borrow-IsSolvent_example :
    (value : ℕ) × (factor : ℕ) × (liquidity_amount_to_market_value ⦃n = exact⦄
        borrowed.0.reserve.liquidity borrowed.2.borrow_amount_f
      ≡ ok value)
    × (borrow_factor_f ⦃n = exact⦄ borrowed.0.reserve (in_elevation_group borrowed.0.obligation)
        ≡ ok factor)
    × IsSolvent borrowed.0.obligation value factor
borrow-IsSolvent_example =
    borrow-IsSolvent exact-IsDocumented market before (Types.exact 500) now 88 none borrowed
      borrow_run

-- The price rises to 3; no time has passed since the last refresh.
abbrev dearer : GetPriceResult
dearer = record { price = 3 * one; status = all_checks; timestamp = 1_700_000_040 }

abbrev repriced : Reserve
repriced = value_or fresh_pool (refresh_reserve ⦃n = exact⦄ fresh_pool now (some dearer) 2_000 0)

refresh_run : refresh_reserve ⦃n = exact⦄ fresh_pool now (some dearer) 2_000 0 ≡ ok repriced
unfolding refresh_reserve accrue_interest distribute_rewards slots_elapsed update_slot
refresh_run = refl

refresh_reserve-update_example : repriced.last_update ≡ record {
  slot = 5_000;
  stale = false;
  price_status = status_after fresh_pool 1_700_000_050 (some dearer);
}
refresh_reserve-update_example =
    refresh_reserve-update ⦃n = exact⦄ fresh_pool repriced now (some dearer) 2_000 0 refresh_run
