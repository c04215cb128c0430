-- ===== src/Lending/Collateral.antt =====
-- Collateral into and out of an obligation: `deposit_obligation_collateral` and
-- `withdraw_obligation_collateral` of klend/programs/klend/src/lending_market/lending_operations.rs.
pub mod Withdraw
pub mod Sound
pub mod Deposit
use solana_auditor_skill.Prelude.{
  ℕ, ◌-◌, ◌^◌, ◌==◌, Bool, true, false, not, ◌&&◌, ◌||◌, ltb, leb, Option, some, none,
  if◌then◌else◌, List, get_elem?, set_at, min,
}
use solana_auditor_skill.Outcome.{Outcome, ok, err, panic, ◌>>=◌, ◌>>◌, refuse_if, require, unwrap}
use solana_auditor_skill.Errors.{
  invalid_amount, reserve_stale, obligation_stale, deposit_disabled_outside_elevation_group,
  obligation_collateral_empty, obligation_in_obsolete_reserve, obligation_deposits_zero,
  maximum_withdraw_value_zero, withdraw_too_large, withdraw_too_small,
}
use solana_auditor_skill.Numerics.{Numerics}
use solana_auditor_skill.Fraction.{to_floor, div_ceil}
use solana_auditor_skill.LastUpdate.{PriceStatusFlags, mark_stale, all_checks, no_checks}
use solana_auditor_skill.Reserve.Types.{Reserve, Pubkey}
use solana_auditor_skill.Reserve.Collateral.{fraction_collateral_to_liquidity}
use solana_auditor_skill.Reserve.Queries.{max_u64, collateral_exchange_rate}
use solana_auditor_skill.Obligation.Types.{Obligation, ObligationCollateral}
use solana_auditor_skill.Obligation.Queries.{
  is_active_borrows_empty, active_deposits_count, get_borrowed_amount_if_single_token,
  position_of_collateral_in_deposits, has_obsolete_reserves, check_not_marked_for_deleveraging,
}
use solana_auditor_skill.Obligation.Slots.{
  find_or_add_collateral_to_deposits, deposit_collateral, withdraw, WithdrawResult, full, partial,
}
use solana_auditor_skill.Obligation.Limits.{
  LtvMaxWithdrawalCheck, max_ltv, liquidation_threshold, max_withdraw_value,
}
use solana_auditor_skill.Obligation.Orders.{check_orders_supported_after_user_operation}
use solana_auditor_skill.Market.{LendingMarket, ElevationGroup}
use solana_auditor_skill.Lending.Checks.{
  refuse_stale, get_elevation_group, get_max_ltv_and_liquidation_threshold, in_elevation_group,
  check_same_elevation_group, check_elevation_group_borrowing_enabled,
}
use solana_auditor_skill.Lending.Values.{
  post_deposit_obligation_invariants, post_withdraw_obligation_invariants,
}
use solana_auditor_skill.Lending.Groups.{
  MaxReservesAsCollateralCheck, update_trackers_on_new_deposit, update_trackers_on_full_withdraw,
}

abbrev pub with_stale_update : Reserve → Reserve
with_stale_update r = record r { last_update = mark_stale r.last_update }

-- `ReserveStatus::Active`; a byte past `Hidden` panics.
abbrev pub is_active_status : Reserve → Outcome Bool
is_active_status r = if ltb 2 r.config.status then panic else ok (r.config.status == 0)

-- The tests before a deposit of collateral. What they give is the elevation group.
unfoldable pub check_deposit_possible :
    LendingMarket
    → Reserve
    → Obligation
    → (slot collateral_amount : ℕ) → Outcome (Option ElevationGroup)
unfolding refuse_stale check_same_elevation_group
check_deposit_possible market r o slot collateral_amount = do
  refuse_if (collateral_amount == 0) invalid_amount
  refuse_stale r.last_update slot no_checks reserve_stale
  refuse_stale o.last_update slot no_checks obligation_stale
  refuse_if
      (ltb 0 r.config.disable_usage_as_coll_outside_emode
        && not (in_elevation_group o)
        && ltb 0 o.borrow_factor_adjusted_debt_value_sf)
      deposit_disabled_outside_elevation_group
  check_same_elevation_group o r
  group ← get_elevation_group o.elevation_group market
  (if (get_max_ltv_and_liquidation_threshold r group).1 == 0
      then check_not_marked_for_deleveraging o
      else ok tt)
  ok group

module _ ⦃n : Numerics⦄ where
  -- A new slot counts as backing what is borrowed in the group.
  abbrev pub tracked_slot :
      (newly_added : Bool)
      → (total_borrowed : Option ℕ) → ObligationCollateral
      → (pre_deposit_count : ℕ) → Option ElevationGroup
      → Pubkey
      → Reserve
      → MaxReservesAsCollateralCheck
      → Outcome (ObligationCollateral × Reserve)
  tracked_slot true total_borrowed c pre_deposit_count group key r check =
      update_trackers_on_new_deposit total_borrowed c pre_deposit_count group key r check
  tracked_slot false total_borrowed c pre_deposit_count group key r check = ok (c, r)

  -- The slot gets the collateral, a new slot with the debt that it backs in the group. What it gives is
  -- the obligation, the reserve, and the value that the slot had.
  unfoldable pub deposit_into_slot :
      Obligation
      → Reserve
      → Pubkey
      → (collateral_amount : ℕ) → Option ElevationGroup
      → MaxReservesAsCollateralCheck
      → Outcome (Obligation × Reserve × ℕ)
  deposit_into_slot o r key collateral_amount group check = do
    total_borrowed ← get_borrowed_amount_if_single_token o
    (found, i, newly_added) ← find_or_add_collateral_to_deposits o key
    slot ← unwrap (get_elem? found.deposits i)
    (tracked, r') ←
        tracked_slot newly_added total_borrowed slot (active_deposits_count o) group key r check
    deposited ← deposit_collateral tracked collateral_amount
    ok (
      record found { deposits = set_at found.deposits i deposited },
      r',
      deposited.market_value_sf,
    )

  -- The tests on what the slot has become, by value.
  unfoldable pub check_after_deposit :
      LendingMarket
      → Obligation
      → Reserve
      → (collateral_amount previous_mv : ℕ) → Outcome (Unit {0})
  check_after_deposit market o r collateral_amount previous_mv = do
    rate ← collateral_exchange_rate r
    deposited_f ← n.from_num collateral_amount
    amount ← fraction_collateral_to_liquidity rate deposited_f
    post_deposit_obligation_invariants amount o r previous_mv market.min_net_value_in_obligation_sf

  unfoldable pub deposit_obligation_collateral :
      LendingMarket
      → Reserve
      → Obligation
      → (slot collateral_amount : ℕ) → Pubkey
      → MaxReservesAsCollateralCheck
      → Outcome (Obligation × Reserve)
  deposit_obligation_collateral market r o slot collateral_amount key check = do
    group ← check_deposit_possible market r o slot collateral_amount
    (o', r', previous_mv) ← deposit_into_slot o r key collateral_amount group check
    check_orders_supported_after_user_operation o'
    let marked = record o' { last_update = mark_stale o'.last_update }
    check_after_deposit market marked (with_stale_update r') collateral_amount previous_mv
    ok (marked, with_stale_update r')

  -- How much leaves where the obligation owes, for a request of all that can leave.
  unfoldable pub withdraw_amount_of_all : ObligationCollateral → (max_value : ℕ) → Outcome ℕ
  withdraw_amount_of_all c max_value = do
    ratio ← n.div (min max_value c.market_value_sf) c.market_value_sf
    ratioed_f ← n.mul_by_int ratio c.deposited_amount
    ratioed ← to_floor 64 ratioed_f
    ok (min c.deposited_amount ratioed)

  abbrev pub exceeds : LtvMaxWithdrawalCheck → (value max_value : ℕ) → Bool
  exceeds liquidation_threshold value max_value = leb max_value value
  exceeds max_ltv value max_value = ltb max_value value

  -- And for a request of some amount.
  unfoldable pub withdraw_amount_of_some :
      ObligationCollateral → (collateral_amount max_value : ℕ) → LtvMaxWithdrawalCheck → Outcome ℕ
  withdraw_amount_of_some c collateral_amount max_value check = do
    let amount = min collateral_amount c.deposited_amount
    amount_f ← n.from_num amount
    deposited_f ← n.from_num c.deposited_amount
    ratio ← div_ceil amount_f deposited_f
    value ← n.mul c.market_value_sf ratio
    refuse_if (exceeds check value max_value) withdraw_too_large
    ok amount

  unfoldable pub withdraw_amount_with_debt :
      Obligation
      → ObligationCollateral
      → (collateral_amount max_ltv_pct liq_threshold_pct : ℕ) → LtvMaxWithdrawalCheck
      → Outcome ℕ
  unfolding withdraw_amount_of_all withdraw_amount_of_some
  withdraw_amount_with_debt o c collateral_amount max_ltv_pct liq_threshold_pct check = do
    refuse_if (o.deposited_value_sf == 0) obligation_deposits_zero
    max_value ← max_withdraw_value o c max_ltv_pct liq_threshold_pct check
    refuse_if (max_value == 0) maximum_withdraw_value_zero
    amount ←
        (if collateral_amount == max_u64
          then withdraw_amount_of_all c max_value
          else withdraw_amount_of_some c collateral_amount max_value check)
    refuse_if (amount == 0) withdraw_too_small
    ok amount

  abbrev pub withdraw_amount_without_debt : ObligationCollateral → ℕ → ℕ
  withdraw_amount_without_debt c collateral_amount =
      if collateral_amount == max_u64
      then c.deposited_amount
      else min c.deposited_amount collateral_amount

  unfoldable pub withdraw_amount :
      Obligation
      → ObligationCollateral
      → (collateral_amount max_ltv_pct liq_threshold_pct : ℕ) → LtvMaxWithdrawalCheck
      → Outcome ℕ
  withdraw_amount o c collateral_amount max_ltv_pct liq_threshold_pct check =
      if is_active_borrows_empty o
      then ok (withdraw_amount_without_debt c collateral_amount)
      else withdraw_amount_with_debt o c collateral_amount max_ltv_pct liq_threshold_pct check

  -- The tests before a withdrawal. What they give is the index of the slot, and the slot.
  unfoldable pub check_withdraw_possible :
      LendingMarket
      → Reserve
      → Obligation
      → (collateral_amount slot : ℕ) → Pubkey
      → Outcome (ℕ × ObligationCollateral)
  unfolding refuse_stale
  check_withdraw_possible market r o collateral_amount slot key = do
    refuse_if (collateral_amount == 0) invalid_amount
    let no_debt = is_active_borrows_empty o
    let required = if no_debt then no_checks else all_checks
    refuse_stale r.last_update slot required reserve_stale
    refuse_stale o.last_update slot required obligation_stale
    i ← position_of_collateral_in_deposits o key
    c ← unwrap (get_elem? o.deposits i)
    refuse_if (c.deposited_amount == 0) obligation_collateral_empty
    (if no_debt then ok tt else check_elevation_group_borrowing_enabled market o)
    (if has_obsolete_reserves o
        then (is_active_status r >>= λ active. refuse_if active obligation_in_obsolete_reserve)
        else ok tt)
    ok (i, c)

  -- What a slot that is left empty takes off the reserve's tracker.
  abbrev pub tracker_after :
      WithdrawResult → Obligation → Reserve → ObligationCollateral → Outcome Reserve
  tracker_after full o r c =
      update_trackers_on_full_withdraw c.borrowed_amount_against_this_collateral_in_elevation_group
        o.elevation_group r
  tracker_after partial o r c = ok r

  -- The amount leaves the slot, and the reserve's tracker where the slot is left empty.
  unfoldable pub withdraw_from_slot :
      Obligation
      → Reserve
      → (withdraw_amount i : ℕ) → ObligationCollateral
      → Outcome (Obligation × Reserve)
  withdraw_from_slot o r withdraw_amount i c = do
    (left, result) ← withdraw o withdraw_amount i
    let marked = record left { last_update = mark_stale left.last_update }
    r' ← tracker_after result o r c
    ok (marked, r')

  -- The tests on what is left, by value.
  unfoldable pub check_after_withdraw :
      LendingMarket
      → Obligation
      → Reserve
      → (withdraw_amount i liq_threshold_pct : ℕ) → Outcome (Unit {0})
  check_after_withdraw market o r withdraw_amount i liq_threshold_pct = do
    rate ← collateral_exchange_rate r
    withdrawn_f ← n.from_num withdraw_amount
    amount ← fraction_collateral_to_liquidity rate withdrawn_f
    left ← unwrap (get_elem? o.deposits i)
    post_withdraw_obligation_invariants amount o r liq_threshold_pct left.market_value_sf
        market.min_net_value_in_obligation_sf

  -- The obligation, the reserve, and the amount withdrawn.
  unfoldable pub withdraw_obligation_collateral :
      LendingMarket
      → Reserve
      → Obligation
      → (collateral_amount slot : ℕ) → Pubkey
      → LtvMaxWithdrawalCheck
      → Outcome (Obligation × Reserve × ℕ)
  withdraw_obligation_collateral market r o collateral_amount slot key check = do
    (i, c) ← check_withdraw_possible market r o collateral_amount slot key
    group ← get_elevation_group o.elevation_group market
    let pcts = get_max_ltv_and_liquidation_threshold r group
    amount ← withdraw_amount o c collateral_amount pcts.0 pcts.1 check
    (o', r') ← withdraw_from_slot o r amount i c
    check_after_withdraw market o' r' amount i pcts.1
    ok (o', r', amount)
