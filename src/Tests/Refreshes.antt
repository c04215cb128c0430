-- ===== src/Tests/Refreshes.antt =====
-- The refresh of the deposits of an obligation with the pool as its one reserve.
use solana_auditor_skill.Prelude.{◌≤◌, ◌≡◌, none, [], ◌∷◌, refl, arith}
use solana_auditor_skill.Outcome.{ok, value_or}
use solana_auditor_skill.Numerics.Exact.{exact, exact-IsDocumented}
use solana_auditor_skill.Fraction.{
  big_mul, big_div_by_int, fraction_of_big, to_ceil, full_mul_int_ratio, from_percent, div_ceil,
}
use solana_auditor_skill.LastUpdate.{is_stale, slots_elapsed}
use solana_auditor_skill.Reserve.Liquidity.{
  total_supply, liquidity_amount_to_market_value, mint_factor_sf, ten_pow,
}
use solana_auditor_skill.Reserve.Collateral.{exchange_rate, fraction_collateral_to_liquidity}
use solana_auditor_skill.Reserve.Queries.{collateral_exchange_rate}
use solana_auditor_skill.Obligation.Types.{Obligation}
use solana_auditor_skill.Lending.Checks.{refuse_stale, check_obligation_collateral_deposit_reserve}
use solana_auditor_skill.Lending.Values.{calculate_obligation_collateral_market_value}
use solana_auditor_skill.Lending.Groups.{Accounts}
use solana_auditor_skill.Lending.Refresh.{
  RefreshObligationDepositsResult, no_deposits, retrack, add_deposit, refresh_deposit,
  refresh_deposits, refresh_obligation_deposits,
}
use solana_auditor_skill.Lending.Refresh.Totals.{
  refresh_obligation_deposits-totals, slots, total_value,
}
use solana_auditor_skill.Tests.Samples.{fresh_pool, backed, market}

abbrev refreshed_deposits : Obligation × Accounts × RefreshObligationDepositsResult
refreshed_deposits =
    value_or (backed, [], no_deposits)
      (refresh_obligation_deposits ⦃n = exact⦄ market 5_000 none none backed
        ((77, fresh_pool) ∷ []))

refresh_run :
    refresh_obligation_deposits ⦃n = exact⦄ market 5_000 none none backed ((77, fresh_pool) ∷ [])
    ≡ ok refreshed_deposits
unfolding refresh_obligation_deposits refresh_deposits refresh_deposit add_deposit retrack
    check_obligation_collateral_deposit_reserve refuse_stale is_stale slots_elapsed
    calculate_obligation_collateral_market_value collateral_exchange_rate exchange_rate total_supply
    fraction_collateral_to_liquidity liquidity_amount_to_market_value mint_factor_sf ten_pow
    from_percent full_mul_int_ratio big_mul big_div_by_int fraction_of_big to_ceil div_ceil
refresh_run = refl

refresh_obligation_deposits-totals_example :
    (slots refreshed_deposits.0.deposits ≡ slots backed.deposits)
    × (refreshed_deposits.2.deposited_value_f ≡ total_value refreshed_deposits.0.deposits)
    × (refreshed_deposits.2.allowed_borrow_value_f ≤ refreshed_deposits.2.unhealthy_borrow_value_f)
refresh_obligation_deposits-totals_example =
    refresh_obligation_deposits-totals exact-IsDocumented market 5_000 none none backed
      ((77, fresh_pool) ∷ []) refreshed_deposits (omega arith, tt) refresh_run
