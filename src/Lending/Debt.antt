-- ===== src/Lending/Debt.antt =====
-- Borrowing and repaying: `borrow_obligation_liquidity` and `repay_obligation_liquidity` of
-- klend/programs/klend/src/lending_market/lending_operations.rs.
pub mod Borrow
use solana_auditor_skill.Prelude.{
  ℕ, ◌+◌, ◌-◌, ◌^◌, ◌==◌, Bool, true, false, not, ltb, leb, Option, some, none, if◌then◌else◌, List,
  get_elem?, set_at,
}
use solana_auditor_skill.Outcome.{Outcome, ok, err, panic, ◌>>=◌, ◌>>◌, refuse_if, unwrap, fit}
use solana_auditor_skill.Errors.{
  invalid_amount, borrow_too_large, borrow_limit_exceeded, borrow_too_small,
  debt_reached_reserve_debt_term, obligation_liquidity_empty, repay_too_small,
}
use solana_auditor_skill.Numerics.{Numerics}
use solana_auditor_skill.Fraction.{to_ceil}
use solana_auditor_skill.LastUpdate.{mark_stale}
use solana_auditor_skill.WithdrawalCaps.{add_to_withdrawal_accum, sub_from_withdrawal_accum}
use solana_auditor_skill.Reserve.Types.{
  Reserve, Pubkey, ReferrerTokenState, CalculateBorrowResult, CalculateRepayResult, BorrowSize,
  exact, at_most, all_available,
}
use solana_auditor_skill.Reserve.Liquidity
use solana_auditor_skill.Reserve.Queries.{remaining_borrow_capacity}
use solana_auditor_skill.Reserve.Borrow.{calculate_borrow, calculate_repay}
use solana_auditor_skill.Reserve.Operations.{borrow}
use solana_auditor_skill.Obligation.Types.{Obligation, ObligationLiquidity}
use solana_auditor_skill.Obligation.Queries.{
  remaining_borrow_value, find_liquidity_in_borrows, update_has_debt,
}
use solana_auditor_skill.Obligation.Slots.{
  find_or_add_liquidity_to_borrows, borrow_liquidity, repay,
}
use solana_auditor_skill.Obligation.Debt.{
  get_secs_since_reserve_debt_term_end, calculate_early_repay_penalty,
}
use solana_auditor_skill.Obligation.Orders.{
  check_orders_supported_after_user_operation, clear_obligation_orders_if_no_debt, is_some,
}
use solana_auditor_skill.Market.{LendingMarket, Clock, market_elevation_group}
use solana_auditor_skill.Lending.Checks.{
  check_borrow_possible, check_repay_possible, in_elevation_group,
}
use solana_auditor_skill.Lending.Values.{
  check_below_reserve_utilization_limit, post_borrow_obligation_invariants,
  post_repay_obligation_invariants,
}
use solana_auditor_skill.Lending.Groups.{
  Accounts, BorrowState, update_trackers_on_borrow, update_trackers_on_repay,
}
use solana_auditor_skill.Lending.Collateral.{with_stale_update}

abbrev pub is_zero_size : BorrowSize → Bool
is_zero_size (exact amount) = amount == 0
is_zero_size (at_most amount) = amount == 0
is_zero_size all_available = false

module _ ⦃n : Numerics⦄ where
  -- `add_referrer_fee`, with the fee that is then available again.
  unfoldable pub pay_referrer :
      LendingMarket
      → Reserve
      → Option ReferrerTokenState
      → (referrer_fee : ℕ) → Outcome (Reserve × Option ReferrerTokenState)
  pay_referrer market r none referrer_fee = ok (r, none)
  pay_referrer market r (some s) referrer_fee =
      if market.referral_fee_bps == 0 then ok (r, some s) else do
        fee ← n.from_num referrer_fee
        cumulative ← fit 128 (s.amount_cumulative_sf + fee)
        unclaimed ← fit 128 (s.amount_unclaimed_sf + fee)
        accumulated ← fit 128 (r.liquidity.accumulated_referrer_fees_sf + fee)
        available ← fit 64 (r.liquidity.total_available_amount + referrer_fee)
        ok (
          record r {
            liquidity = record r.liquidity {
              accumulated_referrer_fees_sf = accumulated;
              total_available_amount = available;
            };
          },
          some (record s { amount_cumulative_sf = cumulative; amount_unclaimed_sf = unclaimed }),
        )

  -- How much is borrowed, after the tests on the market, the reserve and the obligation.
  unfoldable pub borrow_amount_of :
      LendingMarket
      → Reserve
      → Obligation
      → BorrowSize
      → Clock
      → (has_referrer : Bool) → Outcome CalculateBorrowResult
  borrow_amount_of market r o size clock has_referrer = do
    refuse_if (is_zero_size size) invalid_amount
    check_borrow_possible market r o clock
    refuse_if (remaining_borrow_value o == 0) borrow_too_large
    capacity ← remaining_borrow_capacity r
    refuse_if (capacity == 0) borrow_limit_exceeded
    calculate_borrow r size (remaining_borrow_value o) market.referral_fee_bps
        (in_elevation_group o) has_referrer

  -- The reserve gives the liquidity. What else it gives is the whole tokens borrowed.
  unfoldable pub borrow_from_reserve :
      Reserve → CalculateBorrowResult → (timestamp : ℕ) → Outcome (Reserve × ℕ)
  borrow_from_reserve r result timestamp = do
    borrow_amount ← to_ceil 64 result.borrow_amount_f
    cap ← add_to_withdrawal_accum r.config.debt_withdrawal_cap borrow_amount timestamp
    let capped = record r { config = record r.config { debt_withdrawal_cap = cap } }
    refuse_if (result.receive_amount == 0) borrow_too_small
    check_below_reserve_utilization_limit capped result.borrow_amount_f
    lent ← borrow capped result.borrow_amount_f false
    ok (with_stale_update lent, borrow_amount)

  -- The obligation owes more, in the slot of this index.
  unfoldable pub borrow_into_slot :
      Obligation → Reserve → Pubkey → (borrow_amount_f timestamp : ℕ) → Outcome (Obligation × ℕ)
  borrow_into_slot o r key borrow_amount_f timestamp = do
    (found, i) ← find_or_add_liquidity_to_borrows o key r.liquidity.cumulative_borrow_rate_bsf
    slot ← unwrap (get_elem? found.borrows i)
    ended ← get_secs_since_reserve_debt_term_end slot r.config timestamp
    refuse_if (is_some ended) debt_reached_reserve_debt_term
    owing ← borrow_liquidity slot borrow_amount_f timestamp
    ok (record found { borrows = set_at found.borrows i owing }, i)

  abbrev pub indebted : Obligation → Obligation
  indebted o = record o { has_debt = 1; last_update = mark_stale o.last_update }

  -- The tests on the debt after a borrow, by value.
  unfoldable pub check_after_borrow :
      LendingMarket → BorrowState → (borrow_amount_f borrow_index : ℕ) → Outcome (Unit {0})
  check_after_borrow market s borrow_amount_f borrow_index = do
    slot ← unwrap (get_elem? s.obligation.borrows borrow_index)
    post_borrow_obligation_invariants borrow_amount_f s.obligation s.reserve slot.market_value_sf
        market.min_net_value_in_obligation_sf

  unfoldable pub borrow_obligation_liquidity :
      LendingMarket
      → BorrowState
      → BorrowSize
      → Clock
      → Pubkey
      → Option ReferrerTokenState
      → Outcome (BorrowState × Option ReferrerTokenState × CalculateBorrowResult)
  borrow_obligation_liquidity market s size clock key referrer = do
    result ← borrow_amount_of market s.reserve s.obligation size clock (is_some referrer)
    (lent, borrow_amount) ← borrow_from_reserve s.reserve result clock.unix_timestamp
    (o, i) ← borrow_into_slot s.obligation lent key result.borrow_amount_f clock.unix_timestamp
    (paid, referrer') ← pay_referrer market lent referrer result.referrer_fee
    check_orders_supported_after_user_operation o
    group ← market_elevation_group market o.elevation_group
    s' ←
        update_trackers_on_borrow borrow_amount
          (record { obligation = indebted o; reserve = paid; accounts = s.accounts }) i group key
    check_after_borrow market s' result.borrow_amount_f i
    ok (s', referrer', result)

  -- What is settled and paid, and the penalty, of a debt that may be repaid.
  unfoldable pub repay_amounts :
      BorrowState
      → Clock
      → (liquidity_amount : ℕ) → ObligationLiquidity
      → Outcome (CalculateRepayResult × ℕ)
  repay_amounts s clock liquidity_amount slot = do
    refuse_if (slot.borrowed_amount_sf == 0) obligation_liquidity_empty
    check_repay_possible s.reserve s.obligation clock
    result ← calculate_repay liquidity_amount slot.borrowed_amount_sf
    refuse_if (result.repay_amount == 0) repay_too_small
    penalty ← calculate_early_repay_penalty slot s.reserve result.settle_amount clock.unix_timestamp
    ok (result, penalty)

  -- The reserve takes the payment and the penalty.
  unfoldable pub repay_reserve : Reserve → CalculateRepayResult → (penalty : ℕ) → Outcome Reserve
  repay_reserve r result penalty = do
    repaid ← Liquidity.repay r.liquidity result.repay_amount result.settle_amount
    l ←
        (if penalty == 0
          then ok repaid
          else Liquidity.accumulate_early_repay_penalty repaid penalty)
    ok (with_stale_update (record r { liquidity = l }))

  -- The obligation owes less, and without debt it has no orders.
  unfoldable pub repay_obligation : Obligation → (settle_amount i : ℕ) → Outcome Obligation
  repay_obligation o settle_amount i = do
    left ← repay o settle_amount i
    let cleared = clear_obligation_orders_if_no_debt (update_has_debt left)
    ok (record cleared { last_update = mark_stale cleared.last_update })

  unfoldable pub repay_obligation_liquidity :
      LendingMarket
      → BorrowState
      → Clock
      → (liquidity_amount : ℕ) → Pubkey
      → Outcome (BorrowState × ℕ)
  repay_obligation_liquidity market s clock liquidity_amount key = do
    refuse_if (liquidity_amount == 0) invalid_amount
    i ← find_liquidity_in_borrows s.obligation key
    slot ← unwrap (get_elem? s.obligation.borrows i)
    (result, penalty) ← repay_amounts s clock liquidity_amount slot
    with_penalty ← fit 64 (result.repay_amount + penalty)
    cap ←
        sub_from_withdrawal_accum s.reserve.config.debt_withdrawal_cap result.repay_amount
          clock.unix_timestamp
    let capped = record s.reserve { config = record s.reserve.config { debt_withdrawal_cap = cap } }
    tracked ← update_trackers_on_repay result.repay_amount (record s { reserve = capped }) i
    r ← repay_reserve tracked.reserve result penalty
    o ← repay_obligation tracked.obligation result.settle_amount i
    check_orders_supported_after_user_operation o
    left ← unwrap (get_elem? o.borrows i)
    post_repay_obligation_invariants result.settle_amount o r left.market_value_sf
        market.min_net_value_in_obligation_sf
    ok (record tracked { obligation = o; reserve = r }, with_penalty)
