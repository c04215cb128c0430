-- ===== src/Obligation/Debt.antt =====
-- The interest and the term of a borrow (`ObligationLiquidity` of
-- klend/programs/klend/src/state/obligation.rs), and the times of klend/programs/klend/src/utils/secs.rs.
pub mod Accrual
use solana_auditor_skill.Prelude.{
  ℕ, ◌+◌, ◌-◌, ◌*◌, ◌==◌, Bool, true, false, not, ltb, leb, Option, some, none, if◌then◌else◌,
}
use solana_auditor_skill.Outcome.{
  Outcome, ok, err, panic, ◌>>=◌, ok_or, unwrap, fit, checked_add, checked_sub,
}
use solana_auditor_skill.Errors.{math_overflow, negative_interest_rate}
use solana_auditor_skill.Numerics.{Numerics}
use solana_auditor_skill.Fraction.{from_percent, to_ceil, try_to_ceil, full_mul_int_ratio_ceil}
use solana_auditor_skill.Reserve.Types.{Reserve, ReserveConfig}
use solana_auditor_skill.Reserve.Queries.{get_debt_term_seconds}
use solana_auditor_skill.Reserve.Interest.{calculate_future_cumulative_borrow_rate}
use solana_auditor_skill.Obligation.Types.{ObligationLiquidity}

abbrev pub seconds_per_hour : ℕ
seconds_per_hour = 60 * 60

abbrev pub seconds_per_day : ℕ
seconds_per_day = seconds_per_hour * 24

abbrev pub slots_per_second : ℕ
slots_per_second = 2

unfoldable pub from_days : ℕ → Outcome ℕ
from_days days = fit 64 (days * seconds_per_day)

unfoldable pub from_hours : ℕ → Outcome ℕ
from_hours hours = fit 64 (hours * seconds_per_hour)

-- An overflow of the sum panics.
unfoldable pub get_debt_term_end_timestamp :
    ObligationLiquidity → ReserveConfig → Outcome (Option ℕ)
get_debt_term_end_timestamp l c = elim (get_debt_term_seconds c) [
  | none ↦ ok none
  | some debt_term_seconds ↦
      if l.last_borrowed_at_timestamp == 0
      then ok none
      else (fit 64 (l.last_borrowed_at_timestamp + debt_term_seconds) >>= λ t. ok (some t))
]

abbrev pub since : Option ℕ → ℕ → Option ℕ
since none timestamp = none
since (some t) timestamp = checked_sub timestamp t

unfoldable pub get_secs_since_reserve_debt_term_end :
    ObligationLiquidity → ReserveConfig → ℕ → Outcome (Option ℕ)
unfolding get_debt_term_end_timestamp
get_secs_since_reserve_debt_term_end l c timestamp =
    get_debt_term_end_timestamp l c >>= λ t. ok (since t timestamp)

module _ ⦃n : Numerics⦄ where
  unfoldable pub to_days_fractional : ℕ → Outcome ℕ
  to_days_fractional secs = do n.div_by_int (← n.from_num secs) seconds_per_day

  unfoldable pub checked_secs_to_slots : ℕ → Outcome ℕ
  checked_secs_to_slots secs = do
    slots ← full_mul_int_ratio_ceil secs slots_per_second 1
    whole ← try_to_ceil 64 slots
    ok_or whole math_overflow

  unfoldable pub estimate_slot_after_period : ℕ → ℕ → Outcome ℕ
  estimate_slot_after_period current_slot secs = do
    elapsed ← checked_secs_to_slots secs
    ok_or (checked_add 64 current_slot elapsed) math_overflow

  unfoldable pub calculate_amount_with_accrued_interest : ℕ → ℕ → ℕ → Outcome ℕ
  calculate_amount_with_accrued_interest amount_sf former_rate new_rate = do
    grown ← n.mul256 amount_sf new_rate
    amount ← n.div256 grown former_rate
    ok_or (n.try_into_u128 amount) math_overflow

  -- `ObligationLiquidity::accrue_interest`
  unfoldable pub accrue_interest : ObligationLiquidity → ℕ → Outcome ObligationLiquidity
  unfolding calculate_amount_with_accrued_interest
  accrue_interest l new_rate =
      if ltb new_rate l.cumulative_borrow_rate_bsf
      then err negative_interest_rate
      else if new_rate == l.cumulative_borrow_rate_bsf
      then ok l
      else (calculate_amount_with_accrued_interest l.borrowed_amount_sf l.cumulative_borrow_rate_bsf
            new_rate
          >>= λ amount.
              ok (record l { borrowed_amount_sf = amount; cumulative_borrow_rate_bsf = new_rate }))

  unfoldable pub capture_borrowed_amount_at_expiration :
      ObligationLiquidity → ReserveConfig → ℕ → Outcome ObligationLiquidity
  capture_borrowed_amount_at_expiration l c timestamp =
      if not (l.borrowed_amount_at_expiration == 0) then ok l else do
        ended ← get_secs_since_reserve_debt_term_end l c timestamp
        elim ended [
          | none ↦ ok l
          | some secs ↦ do
            amount ← to_ceil 64 l.borrowed_amount_sf
            ok (record l { borrowed_amount_at_expiration = amount })
        ]

  unfoldable pub calculate_interest_for_period :
      ObligationLiquidity → (amount time_period : ℕ) → Reserve → Outcome ℕ
  calculate_interest_for_period l amount time_period reserve = do
    future_slot ← estimate_slot_after_period reserve.last_update.slot time_period
    future_rate ← calculate_future_cumulative_borrow_rate reserve future_slot
    amount_with_interest ←
        calculate_amount_with_accrued_interest amount l.cumulative_borrow_rate_bsf future_rate
    n.sub amount_with_interest amount

  unfoldable pub get_early_repay_penalty_remaining_interest_pct : ReserveConfig → Outcome ℕ
  get_early_repay_penalty_remaining_interest_pct c =
      from_percent c.early_repay_remaining_interest_pct

  -- The penalty where the debt has a term of so many seconds.
  unfoldable pub early_repay_penalty_of_term :
      ObligationLiquidity
      → Reserve
      → (repay_amount current_timestamp debt_term_seconds : ℕ) → Outcome ℕ
  early_repay_penalty_of_term l reserve repay_amount current_timestamp debt_term_seconds =
      if l.last_borrowed_at_timestamp == 0
      then ok 0
      else if l.borrowed_amount_sf == 0
      then ok 0
      else if ltb l.borrowed_amount_sf repay_amount
      then panic
      else (let elapsed = current_timestamp - l.last_borrowed_at_timestamp in
          if leb debt_term_seconds elapsed then ok 0 else do
            remaining_secs ← n.from_num (debt_term_seconds - elapsed)
            remaining_interest ← calculate_interest_for_period l repay_amount remaining_secs reserve
            penalty_pct ← get_early_repay_penalty_remaining_interest_pct reserve.config
            penalty ← n.mul remaining_interest penalty_pct
            to_ceil 64 penalty)

  unfoldable pub calculate_early_repay_penalty :
      ObligationLiquidity → Reserve → (repay_amount current_timestamp : ℕ) → Outcome ℕ
  calculate_early_repay_penalty l reserve repay_amount current_timestamp =
      elim (get_debt_term_seconds reserve.config) [
        | none ↦ ok 0
        | some secs ↦ early_repay_penalty_of_term l reserve repay_amount current_timestamp secs
      ]
