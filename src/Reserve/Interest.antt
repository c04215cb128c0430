-- ===== src/Reserve/Interest.antt =====
-- The interest and the rewards of a reserve (klend/programs/klend/src/state/reserve.rs).
pub mod Series
pub mod Accrual
pub mod Rewards
use solana_auditor_skill.Prelude.{
  ℕ, ◌+◌, ◌-◌, ◌*◌, ◌/◌, ◌^◌, Bool, true, false, ◌||◌, some, none, ltb, ◌==◌, if◌then◌else◌, min,
}
use solana_auditor_skill.Outcome.{
  Outcome, ok, err, panic, ◌>>=◌, ok_or, fit, checked_add, checked_sub,
}
use solana_auditor_skill.Errors.{math_overflow}
use solana_auditor_skill.Numerics.{Numerics, one}
use solana_auditor_skill.Fraction.{from_percent, from_bps, to_floor, big_mul}
use solana_auditor_skill.LastUpdate.{slots_elapsed}
use solana_auditor_skill.Reserve.Types.{Reserve, ReserveLiquidity}
use solana_auditor_skill.Reserve.Liquidity.{total_supply}
use solana_auditor_skill.Reserve.Queries.{current_borrow_rate}

-- `SLOTS_PER_YEAR`: two slots per second (klend/programs/klend/src/utils/consts.rs).
abbrev pub slots_per_year : ℕ
slots_per_year = 2 * 60 * 60 * 24 * 365

abbrev pub saturating_mul : ℕ → ℕ → ℕ → ℕ
saturating_mul w a b = min (a * b) (2 ^ w - 1)

-- The division by the cap's denominator is by a constant that is not zero.
abbrev pub apr_cap : ℕ → ℕ → ℕ → ℕ
apr_cap supply max_apr_bps elapsed =
    saturating_mul 128 (saturating_mul 128 supply max_apr_bps) elapsed / (10_000 * slots_per_year)

module _ ⦃n : Numerics⦄ where
  -- The first terms of the binomial series, for more than four slots.
  unfoldable pub series : ℕ → ℕ → Outcome ℕ
  series base exp = do
    first_term ← n.mul_by_int base exp
    second ← n.mul_by_int (← n.mul first_term base) (exp - 1)
    second_term ← n.div_by_int second 2
    third ← n.mul_by_int (← n.mul second_term base) (exp - 2)
    third_term ← n.div_by_int third 3
    with_first ← n.add one first_term
    with_second ← n.add with_first second_term
    n.add with_second third_term

  unfoldable pub approximate_compounded_interest : ℕ → ℕ → Outcome ℕ
  unfolding series
  approximate_compounded_interest rate elapsed_slots = do
    base ← n.div_by_int rate slots_per_year
    if elapsed_slots == 0
        then ok one
        else if elapsed_slots == 1
        then n.add one base
        else if elapsed_slots == 2
        then (n.add one base >>= λ b. n.mul b b)
        else if elapsed_slots == 3
        then (n.add one base >>= λ b. n.mul b b >>= λ square. n.mul square b)
        else if elapsed_slots == 4
        then (n.add one base >>= λ b. n.mul b b >>= λ pow_two. n.mul pow_two pow_two)
        else series base elapsed_slots

  unfoldable pub compound_interest :
      ReserveLiquidity
      → (current_borrow_rate host_fixed_interest_rate slots_elapsed protocol_take_rate
          referral_rate : ℕ)
      → Outcome ReserveLiquidity
  unfolding approximate_compounded_interest
  compound_interest l current_borrow_rate host_fixed_interest_rate slots_elapsed protocol_take_rate
        referral_rate =
      do
        let previous_debt_f = l.borrowed_amount_sf
        total_rate ← n.add current_borrow_rate host_fixed_interest_rate
        compounded_interest_rate ← approximate_compounded_interest total_rate slots_elapsed
        compounded_fixed_rate ←
            approximate_compounded_interest host_fixed_interest_rate slots_elapsed
        new_cumulative_borrow_rate ← big_mul l.cumulative_borrow_rate_bsf compounded_interest_rate
        new_debt_f ← n.mul previous_debt_f compounded_interest_rate
        with_fixed ← n.mul previous_debt_f compounded_fixed_rate
        fixed_host_fee ← n.sub with_fixed previous_debt_f
        new_interest ← n.sub new_debt_f previous_debt_f
        net_new_variable_debt_f ← n.sub new_interest fixed_host_fee
        variable_protocol_fee_f ← n.mul net_new_variable_debt_f protocol_take_rate
        absolute_referral_rate ← n.mul protocol_take_rate referral_rate
        max_referrers_fees_f ← n.mul net_new_variable_debt_f absolute_referral_rate
        with_host_fee ← n.add l.accumulated_protocol_fees_sf fixed_host_fee
        with_variable_fee ← n.add with_host_fee variable_protocol_fee_f
        new_acc_protocol_fees_f ← n.sub with_variable_fee max_referrers_fees_f
        pending ← fit 128 (l.pending_referrer_fees_sf + max_referrers_fees_f)
        ok (record l {
          cumulative_borrow_rate_bsf = new_cumulative_borrow_rate;
          pending_referrer_fees_sf = pending;
          accumulated_protocol_fees_sf = new_acc_protocol_fees_f;
          borrowed_amount_sf = new_debt_f;
          absolute_referral_rate_sf = absolute_referral_rate;
        })

  unfoldable pub accrue_interest : Reserve → ℕ → ℕ → Outcome Reserve
  accrue_interest r current_slot referral_fee_bps = do
    elapsed ← slots_elapsed r.last_update current_slot
    if elapsed == 0 then ok r else do
      rate ← current_borrow_rate r
      take ← from_percent r.config.protocol_take_rate_pct
      referral ← from_bps referral_fee_bps
      fixed ← from_bps r.config.host_fixed_interest_rate_bps
      l ← compound_interest r.liquidity rate fixed elapsed take referral
      ok (record r { liquidity = l })

  unfoldable pub distribute_rewards : Reserve → ℕ → ℕ → Outcome (Reserve × ℕ)
  distribute_rewards r current_slot max_apr_bps = do
    elapsed ← slots_elapsed r.last_update current_slot
    let per_slot = r.config.rewards_amount_per_slot
    let rewards = r.liquidity.rewards_amount_available
    if elapsed == 0
          || max_apr_bps == 0
          || per_slot == 0
          || rewards == 0
          || r.collateral.mint_total_supply == 0
        then ok (r, 0)
        else do
          supply_f ← total_supply r.liquidity
          supply ← to_floor 128 supply_f
          let capped =
              min (saturating_mul 128 per_slot elapsed) (apr_cap supply max_apr_bps elapsed)
          let to_distribute = min capped rewards
          distributed ←
              ok_or (if ltb to_distribute (2 ^ 64) then some to_distribute else none) math_overflow
          if distributed == 0 then ok (r, 0) else do
            left ← ok_or (checked_sub rewards distributed) math_overflow
            total ←
                ok_or (checked_add 64 r.liquidity.total_available_amount distributed) math_overflow
            ok (
              record r {
                liquidity = record r.liquidity {
                  rewards_amount_available = left;
                  total_available_amount = total;
                };
              },
              distributed,
            )

  unfoldable pub calculate_future_cumulative_borrow_rate : Reserve → ℕ → Outcome ℕ
  unfolding approximate_compounded_interest
  calculate_future_cumulative_borrow_rate r future_slot = do
    elapsed ← slots_elapsed r.last_update future_slot
    rate ← current_borrow_rate r
    fixed ← from_bps r.config.host_fixed_interest_rate_bps
    compounded ← approximate_compounded_interest (← n.add rate fixed) elapsed
    big_mul r.liquidity.cumulative_borrow_rate_bsf compounded
