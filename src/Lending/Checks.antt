-- ===== src/Lending/Checks.antt =====
-- The tests before and after an operation on an obligation
-- (klend/programs/klend/src/lending_market/lending_operations.rs).
use solana_auditor_skill.Prelude.{
  ℕ, ◌==◌, Bool, false, not, ◌&&◌, ◌||◌, ltb, Option, some, none, if◌then◌else◌, List, [], ◌∷◌,
}
use solana_auditor_skill.Outcome.{Outcome, ok, err, ◌>>=◌, ◌>>◌, refuse_if, require}
use solana_auditor_skill.Errors.{
  LendingError, invalid_elevation_group, reserve_stale, obligation_stale, reserve_deprecated,
  obligation_deposits_empty, obligation_deposits_zero, obligation_borrows_zero, invalid_amount,
  borrowing_disabled, reserve_debt_maturity_reached, obligation_in_obsolete_reserve,
  inconsistent_elevation_group, elevation_group_new_loans_disabled,
  borrowing_disabled_outside_elevation_group, invalid_account_input,
  elevation_group_borrow_limit_exceeded,
}
use solana_auditor_skill.LastUpdate.{
  LastUpdate, PriceStatusFlags, is_stale, all_checks, no_checks, liquidation_checks,
}
use solana_auditor_skill.Reserve.Types.{Reserve, Pubkey}
use solana_auditor_skill.Reserve.Queries.{get_secs_since_debt_maturity_reached}
use solana_auditor_skill.Reserve.Operations.{program_version}
use solana_auditor_skill.Obligation.Types.{
  Obligation, ObligationCollateral, ObligationLiquidity, elevation_group_none,
}
use solana_auditor_skill.Obligation.Queries.{
  is_active_deposits_empty, check_not_marked_for_deleveraging, has_obsolete_reserves,
}
use solana_auditor_skill.Obligation.Orders.{is_some}
use solana_auditor_skill.Market.{
  LendingMarket, ElevationGroup, Clock, market_elevation_group, new_loans_disabled,
  is_borrowing_disabled,
}

abbrev pub max_num_elevation_groups : ℕ
max_num_elevation_groups = 32

abbrev pub in_elevation_group : Obligation → Bool
in_elevation_group o = not (o.elevation_group == elevation_group_none)

unfoldable pub refuse_stale : LastUpdate → ℕ → PriceStatusFlags → LendingError → Outcome (Unit {0})
refuse_stale u slot checks e = is_stale u slot checks >>= λ stale. refuse_if stale e

-- A group without thresholds is no group.
unfoldable pub get_elevation_group : ℕ → LendingMarket → Outcome (Option ElevationGroup)
get_elevation_group id market =
    if ltb max_num_elevation_groups id then err invalid_elevation_group else do
      group ← market_elevation_group market id
      elim group [
        | none ↦ ok none
        | some g ↦ do
          refuse_if (g.liquidation_threshold_pct == 0) invalid_elevation_group
          refuse_if (g.ltv_pct == 0) invalid_elevation_group
          ok (some g)
      ]

abbrev pub get_max_ltv_and_liquidation_threshold : Reserve → Option ElevationGroup → ℕ × ℕ
get_max_ltv_and_liquidation_threshold r none =
    (r.config.loan_to_value_pct, r.config.liquidation_threshold_pct)
get_max_ltv_and_liquidation_threshold r (some g) = (g.ltv_pct, g.liquidation_threshold_pct)

unfoldable pub check_obligation_fully_refreshed_and_not_null : Obligation → ℕ → Outcome (Unit {0})
unfolding refuse_stale
check_obligation_fully_refreshed_and_not_null o slot = do
  refuse_stale o.last_update slot all_checks obligation_stale
  refuse_if (is_active_deposits_empty o) obligation_deposits_empty
  refuse_if (o.deposited_value_sf == 0) obligation_deposits_zero

unfoldable pub assert_obligation_liquidatable :
    (repay_reserve withdraw_reserve : Reserve)
    → Obligation
    → (liquidity_amount slot : ℕ) → Outcome (Unit {0})
unfolding refuse_stale
assert_obligation_liquidatable repay_reserve withdraw_reserve o liquidity_amount slot = do
  refuse_if (liquidity_amount == 0) invalid_amount
  refuse_stale repay_reserve.last_update slot liquidation_checks reserve_stale
  refuse_stale withdraw_reserve.last_update slot liquidation_checks reserve_stale
  refuse_stale o.last_update slot liquidation_checks obligation_stale
  refuse_if (o.deposited_value_sf == 0) obligation_deposits_zero
  refuse_if (o.borrow_factor_adjusted_debt_value_sf == 0) obligation_borrows_zero

abbrev pub contains_id : List ℕ → ℕ → Bool
contains_id [] id = false
contains_id (a ∷ rest) id = (a == id) || contains_id rest id

unfoldable pub check_same_elevation_group : Obligation → Reserve → Outcome (Unit {0})
check_same_elevation_group o r =
    refuse_if
      (in_elevation_group o && not (contains_id r.config.elevation_groups o.elevation_group))
      inconsistent_elevation_group

unfoldable pub check_elevation_group_borrowing_enabled :
    LendingMarket → Obligation → Outcome (Unit {0})
check_elevation_group_borrowing_enabled market o =
    get_elevation_group o.elevation_group market >>= λ group. elim group [
      | none ↦ ok tt
      | some g ↦ refuse_if (new_loans_disabled g) elevation_group_new_loans_disabled
    ]

unfoldable pub check_non_elevation_group_borrowing_enabled : Obligation → Outcome (Unit {0})
check_non_elevation_group_borrowing_enabled o =
    refuse_if (not (in_elevation_group o) && ltb 0 o.borrowing_disabled)
      borrowing_disabled_outside_elevation_group

unfoldable pub check_borrow_possible :
    LendingMarket → Reserve → Obligation → Clock → Outcome (Unit {0})
unfolding refuse_stale check_obligation_fully_refreshed_and_not_null check_same_elevation_group
    check_elevation_group_borrowing_enabled check_non_elevation_group_borrowing_enabled
check_borrow_possible market r o clock = do
  refuse_if (is_borrowing_disabled market) borrowing_disabled
  refuse_stale r.last_update clock.slot all_checks reserve_stale
  refuse_if (is_some (get_secs_since_debt_maturity_reached r.config clock.unix_timestamp))
      reserve_debt_maturity_reached
  check_not_marked_for_deleveraging o
  refuse_if (has_obsolete_reserves o) obligation_in_obsolete_reserve
  check_obligation_fully_refreshed_and_not_null o clock.slot
  check_same_elevation_group o r
  check_elevation_group_borrowing_enabled market o
  check_non_elevation_group_borrowing_enabled o

unfoldable pub check_repay_possible : Reserve → Obligation → Clock → Outcome (Unit {0})
unfolding refuse_stale
check_repay_possible r o clock = do
  refuse_stale r.last_update clock.slot no_checks reserve_stale
  refuse_stale o.last_update clock.slot no_checks obligation_stale

unfoldable pub check_borrow_limit_outside_elevation_group_not_exceeded :
    Reserve → Outcome (Unit {0})
check_borrow_limit_outside_elevation_group_not_exceeded r =
    refuse_if
      (ltb r.config.borrow_limit_outside_elevation_group r.borrowed_amount_outside_elevation_group)
      elevation_group_borrow_limit_exceeded

unfoldable pub check_obligation_collateral_deposit_reserve :
    ObligationCollateral → Reserve → Pubkey → ℕ → Outcome (Unit {0})
unfolding refuse_stale
check_obligation_collateral_deposit_reserve c r key slot = do
  require (c.deposit_reserve == key) invalid_account_input
  refuse_stale r.last_update slot no_checks reserve_stale
  require (r.version == program_version) reserve_deprecated

unfoldable pub check_obligation_liquidity_borrow_reserve :
    ObligationLiquidity → Reserve → Pubkey → ℕ → Outcome (Unit {0})
unfolding refuse_stale
check_obligation_liquidity_borrow_reserve l r key slot = do
  require (l.borrow_reserve == key) invalid_account_input
  refuse_stale r.last_update slot no_checks reserve_stale
  require (r.version == program_version) reserve_deprecated
