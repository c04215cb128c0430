-- ===== src/Reserve/Borrow.antt =====
-- How much a borrow takes and a repayment pays (klend/programs/klend/src/state/reserve.rs).
pub mod Repay
use solana_auditor_skill.Prelude.{
  ℕ, ◌+◌, ◌^◌, Bool, true, false, ◌||◌, ltb, ◌==◌, if◌then◌else◌, min,
}
use solana_auditor_skill.Outcome.{Outcome, ok, err, panic, ◌>>=◌, ◌>>◌, refuse_if, sub_int, fit}
use solana_auditor_skill.Errors.{
  LendingError, borrow_too_large, borrow_limit_exceeded, insufficient_liquidity,
}
use solana_auditor_skill.Numerics.{Numerics}
use solana_auditor_skill.Fraction.{to_floor, to_ceil}
use solana_auditor_skill.Reserve.Types.{
  Reserve, CalculateBorrowResult, CalculateRepayResult, BorrowSize, exact, all_available, at_most,
  inclusive, exclusive,
}
use solana_auditor_skill.Reserve.Liquidity.{
  market_value_to_liquidity_amount, liquidity_amount_to_market_value,
}
use solana_auditor_skill.Reserve.Queries.{
  max_u64, borrow_factor_f, remaining_borrow_capacity, freely_available_liquidity_amount,
}
use solana_auditor_skill.Reserve.Fees.{calculate_borrow_fees}

-- The errors after which a borrow of at most some amount borrows what there is.
abbrev pub is_too_much : LendingError → Bool
is_too_much borrow_too_large = true
is_too_much borrow_limit_exceeded = true
is_too_much insufficient_liquidity = true
is_too_much _ = false

module _ ⦃n : Numerics⦄ where
  unfoldable pub calculate_borrow_all_available :
      Reserve → ℕ → ℕ → Bool → ℕ → Outcome CalculateBorrowResult
  calculate_borrow_all_available r max_debt_value referral_fee_bps has_referrer factor = do
    amount ← market_value_to_liquidity_amount r.liquidity max_debt_value
    max_obligation_borrow_amount ← n.div amount factor
    capacity ← remaining_borrow_capacity r
    available ← n.from_num (← freely_available_liquidity_amount r)
    let borrow_amount_f = min max_obligation_borrow_amount (min capacity available)
    fees ←
        calculate_borrow_fees r.config.fees borrow_amount_f inclusive referral_fee_bps has_referrer
    borrow_amount ← to_floor 64 borrow_amount_f
    without_origination ← sub_int borrow_amount fees.0
    receive_amount ← sub_int without_origination fees.1
    ok (record {
      borrow_amount_f = borrow_amount_f;
      receive_amount = receive_amount;
      origination_fee = fees.0;
      referrer_fee = fees.1;
    })

  unfoldable pub calculate_borrow_exact :
      Reserve → ℕ → ℕ → ℕ → Bool → ℕ → Outcome CalculateBorrowResult
  calculate_borrow_exact r receive_amount max_debt_value referral_fee_bps has_referrer factor = do
    receive_amount_f ← n.from_num receive_amount
    fees ←
        calculate_borrow_fees r.config.fees receive_amount_f exclusive referral_fee_bps has_referrer
    both ← fit 64 (fees.0 + fees.1)
    borrow_amount_f ← n.add receive_amount_f (← n.from_num both)
    debt_value ← liquidity_amount_to_market_value r.liquidity borrow_amount_f
    adjusted_debt_value ← n.mul debt_value factor
    refuse_if (ltb max_debt_value adjusted_debt_value) borrow_too_large
    capacity ← remaining_borrow_capacity r
    refuse_if (ltb capacity borrow_amount_f) borrow_limit_exceeded
    available ← n.from_num (← freely_available_liquidity_amount r)
    refuse_if (ltb available borrow_amount_f) insufficient_liquidity
    ok (record {
      borrow_amount_f = borrow_amount_f;
      receive_amount = receive_amount;
      origination_fee = fees.0;
      referrer_fee = fees.1;
    })

  -- A borrow of at most some amount: all that there is, where the amount asked for is too much.
  abbrev pub or_all_available :
      Outcome CalculateBorrowResult → Outcome CalculateBorrowResult → Outcome CalculateBorrowResult
  or_all_available (ok result) all = ok result
  or_all_available (err e) all = if is_too_much e then all else err e
  or_all_available panic all = panic

  unfoldable pub calculate_borrow :
      Reserve → BorrowSize → ℕ → ℕ → Bool → Bool → Outcome CalculateBorrowResult
  calculate_borrow r all_available max_debt_value bps in_elevation_group has_referrer = do
    factor ← borrow_factor_f r in_elevation_group
    calculate_borrow_all_available r max_debt_value bps has_referrer factor
  calculate_borrow r (exact amount) max_debt_value bps in_elevation_group has_referrer = do
    factor ← borrow_factor_f r in_elevation_group
    calculate_borrow_exact r amount max_debt_value bps has_referrer factor
  calculate_borrow r (at_most amount) max_debt_value bps in_elevation_group has_referrer = do
    factor ← borrow_factor_f r in_elevation_group
    or_all_available (calculate_borrow_exact r amount max_debt_value bps has_referrer factor)
        (calculate_borrow_all_available r max_debt_value bps has_referrer factor)

  unfoldable pub settled : ℕ → ℕ → Outcome ℕ
  settled amount_to_repay borrowed_amount =
      if amount_to_repay == max_u64
      then ok borrowed_amount
      else (n.from_num amount_to_repay >>= λ amount_f. ok (min amount_f borrowed_amount))

  unfoldable pub calculate_repay : ℕ → ℕ → Outcome CalculateRepayResult
  unfolding settled
  calculate_repay amount_to_repay borrowed_amount = do
    settle_amount ← settled amount_to_repay borrowed_amount
    repay_amount ← to_ceil 64 settle_amount
    ok (record { settle_amount = settle_amount; repay_amount = repay_amount })
