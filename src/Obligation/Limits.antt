-- ===== src/Obligation/Limits.antt =====
-- How much collateral an obligation can spare (`max_withdraw_value` of
-- klend/programs/klend/src/state/obligation.rs).
use solana_auditor_skill.Prelude.{
  ℕ, ◌-◌, ◌*◌, ◌≤◌, ◌<◌, ◌≡◌, ◌==◌, leb, if◌then◌else◌, arith, subst,
}
use solana_auditor_skill.Prelude.Division.{div_bounds}
use solana_auditor_skill.Outcome.{Outcome, ok, ◌>>=◌}
use solana_auditor_skill.Numerics.{Numerics, IsDocumented}
use solana_auditor_skill.Numerics.Exact.{exact, exact_unique}
use solana_auditor_skill.Obligation.Types.{Obligation, ObligationCollateral}

pub data LtvMaxWithdrawalCheck : Type 0 where
  max_ltv liquidation_threshold : LtvMaxWithdrawalCheck

-- The debt that the collateral may carry, and the percentage of its value that a collateral adds to it.
abbrev pub highest_allowed : Obligation → LtvMaxWithdrawalCheck → ℕ
highest_allowed o liquidation_threshold = o.unhealthy_borrow_value_sf - 1
highest_allowed o max_ltv = o.allowed_borrow_value_sf

abbrev pub ltv_pct_of : LtvMaxWithdrawalCheck → (max_ltv_pct liq_threshold_pct : ℕ) → ℕ
ltv_pct_of liquidation_threshold max_ltv_pct liq_threshold_pct = liq_threshold_pct
ltv_pct_of max_ltv max_ltv_pct liq_threshold_pct = max_ltv_pct

module _ ⦃n : Numerics⦄ where
  unfoldable pub max_withdraw_value :
      Obligation
      → ObligationCollateral
      → (max_ltv_pct liq_threshold_pct : ℕ) → LtvMaxWithdrawalCheck
      → Outcome ℕ
  max_withdraw_value o c max_ltv_pct liq_threshold_pct check =
      let highest = highest_allowed o check in
      let pct = ltv_pct_of check max_ltv_pct liq_threshold_pct in
      if leb highest o.borrow_factor_adjusted_debt_value_sf
      then ok 0
      else if pct == 0
      then ok c.market_value_sf
      else (n.mul_by_int (n.saturating_sub highest o.borrow_factor_adjusted_debt_value_sf) 100
          >>= λ scaled. n.div_by_int scaled pct)

-- What may be withdrawn, where it is not nothing, can carry no more debt than the obligation has to
-- spare: after it, the debt is still within what the rest of the collateral carries.
pub max_withdraw_value-IsCovered :
    {n : Numerics} (d : IsDocumented n) (o : Obligation) (c : ObligationCollateral)
    (max_ltv_pct liq_threshold_pct : ℕ) (check : LtvMaxWithdrawalCheck) (value : ℕ)
    → max_withdraw_value ⦃n = n⦄ o c max_ltv_pct liq_threshold_pct check ≡ ok value
    → 0 < value
    → (o.borrow_factor_adjusted_debt_value_sf < highest_allowed o check)
      × (value * ltv_pct_of check max_ltv_pct liq_threshold_pct
          ≤ 100 * (highest_allowed o check - o.borrow_factor_adjusted_debt_value_sf))
unfolding max_withdraw_value
max_withdraw_value-IsCovered {n = n} d o c max_ltv_pct liq_threshold_pct check value e some_value =
    let pct = ltv_pct_of check max_ltv_pct liq_threshold_pct in
    let run : max_withdraw_value ⦃n = exact⦄ o c max_ltv_pct liq_threshold_pct check ≡ ok value =
      subst (λ m. max_withdraw_value ⦃n = m⦄ o c max_ltv_pct liq_threshold_pct check ≡ ok value)
        (exact_unique n d) e in
    ground (
      arith,
      run,
      div_bounds ((highest_allowed o check - o.borrow_factor_adjusted_debt_value_sf) * 100) pct,
    )
