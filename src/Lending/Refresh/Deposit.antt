-- ===== src/Lending/Refresh/Deposit.antt =====
-- The refresh of one deposit: what it adds to the totals, and what it keeps of the slot.
use native.Mathlib.Nat.{mul-le-mul, le_refl}
use solana_auditor_skill.Prelude.{
  ℕ, Bool, ◌+◌, ◌-◌, ◌*◌, ◌/◌, ◌≤◌, ◌≡◌, ◌==◌, arith, Option, some, none, refl, sym, subst, ap,
}
use solana_auditor_skill.Prelude.Division.{div_mono}
use solana_auditor_skill.Outcome.{ok, require, refuse_if, bind_ok, ok_inj, fit}
use solana_auditor_skill.Errors.{
  inconsistent_elevation_group, elevation_group_debt_reserve_as_collateral,
}
use solana_auditor_skill.Numerics.{one}
use solana_auditor_skill.Numerics.Exact.{exact}
use solana_auditor_skill.Fraction.{from_percent}
use solana_auditor_skill.LastUpdate.{PriceStatusFlags}
use solana_auditor_skill.Reserve.Types.{Reserve, Pubkey}
use solana_auditor_skill.Obligation.Types.{ObligationCollateral}
use solana_auditor_skill.Market.{LendingMarket, ElevationGroup, get_index}
use solana_auditor_skill.Lending.Checks.{
  contains_id, check_obligation_collateral_deposit_reserve, get_max_ltv_and_liquidation_threshold,
}
use solana_auditor_skill.Lending.Values.{calculate_obligation_collateral_market_value}
use solana_auditor_skill.Lending.Groups.{lent_in_group}
use solana_auditor_skill.Lending.Refresh.{
  RefreshObligationDepositsResult, obsolete_count, retrack, group_of, add_deposit, with_flags,
  with_market_value, disables_borrowing, refresh_deposit,
}

-- The loan-to-value ratio is at most the threshold of liquidation.
abbrev pub IsOrdered : ℕ × ℕ → Type 0
IsOrdered pcts = pcts.0 ≤ pcts.1

add_deposit-totals :
    (t t' : RefreshObligationDepositsResult) (value ltv threshold skip : ℕ)
    → ltv ≤ threshold
    → add_deposit ⦃n = exact⦄ t value ltv threshold skip ≡ ok t'
    → (t'.deposited_value_f ≡ t.deposited_value_f + value)
      × (t.allowed_borrow_value_f ≤ t.unhealthy_borrow_value_f
          → t'.allowed_borrow_value_f ≤ t'.unhealthy_borrow_value_f)
unfolding add_deposit from_percent
add_deposit-totals t t' value ltv threshold skip ordered e =
    let pct : ltv * one / 100 ≤ threshold * one / 100 =
      div_mono (ltv * one) (threshold * one) 100 (mul-le-mul ordered (le_refl one)) in
    let part : value * (ltv * one / 100) / one ≤ value * (threshold * one / 100) / one =
      div_mono (value * (ltv * one / 100)) (value * (threshold * one / 100)) one
        (mul-le-mul (le_refl value) pct) in
    ground (arith, part)

-- The group's booking keeps the percentages of the reserve, and which reserve the slot is of.
retrack-same :
    (debt : Option (ElevationGroup × ℕ)) (c c' : ObligationCollateral) (key : Pubkey)
    (r r' : Reserve)
    → retrack debt c key r ≡ ok (c', r')
    → (r'.config ≡ r.config)
      × (c'.deposit_reserve ≡ c.deposit_reserve)
      × (c'.deposited_amount ≡ c.deposited_amount)
unfolding retrack get_index
retrack-same none c c' key r r' e =
    let same = ok_inj e in
    (
      ap (λ p. p.1.config) (sym same),
      ap (λ p. p.0.deposit_reserve) (sym same),
      ap (λ p. p.0.deposited_amount) (sym same),
    )
retrack-same (some (g, amount)) c c' key r r' e =
    let (index, e0, e1) = bind_ok (get_index g) _ e in
    let (listed, e2, e3) =
      bind_ok (require (contains_id r.config.elevation_groups g.id) inconsistent_elevation_group) _
        e1 in
    let (other, e4, e5) =
      bind_ok (refuse_if (key == g.debt_reserve) elevation_group_debt_reserve_as_collateral) _ e3 in
    let (previous, e6, e7) = bind_ok (lent_in_group r index) _ e5 in
    let tracked = c.borrowed_amount_against_this_collateral_in_elevation_group in
    let (lent, e8, e9) = bind_ok (fit 64 (previous - tracked + amount)) _ e7 in
    let same = ok_inj e9 in
    (
      ap (λ p. p.1.config) (sym same),
      ap (λ p. p.0.deposit_reserve) (sym same),
      ap (λ p. p.0.deposited_amount) (sym same),
    )

ratios-same :
    (r r' : Reserve) (group : Option ElevationGroup)
    → r'.config ≡ r.config
    → get_max_ltv_and_liquidation_threshold r' group ≡ get_max_ltv_and_liquidation_threshold r group
ratios-same r r' none e = ap (λ c. (c.loan_to_value_pct, c.liquidation_threshold_pct)) e
ratios-same r r' (some g) e = refl

-- One deposit: what it adds.
abbrev pub HasAdded :
    RefreshObligationDepositsResult
    → RefreshObligationDepositsResult
    → (old new : ObligationCollateral) → Type 0
HasAdded t t' c c' =
    (c'.deposit_reserve ≡ c.deposit_reserve)
    × (c'.deposited_amount ≡ c.deposited_amount)
    × (t'.deposited_value_f ≡ t.deposited_value_f + c'.market_value_sf)
    × (t.allowed_borrow_value_f ≤ t.unhealthy_borrow_value_f
        → t'.allowed_borrow_value_f ≤ t'.unhealthy_borrow_value_f)

-- What `refresh_deposit` returns, of its parts.
abbrev refreshed :
    (tracked : ObligationCollateral) (value : ℕ) (account : Pubkey × Reserve)
    (added : RefreshObligationDepositsResult) (obsolete : ℕ) (disabled : Bool)
    (prices : PriceStatusFlags)
    → ObligationCollateral × (Pubkey × Reserve) × RefreshObligationDepositsResult
refreshed tracked value account added obsolete disabled prices = (
  with_market_value tracked value,
  account,
  with_flags ⦃n = exact⦄ added obsolete disabled prices,
)

refreshed-HasAdded :
    (t added : RefreshObligationDepositsResult) (c tracked : ObligationCollateral) (value : ℕ)
    (account : Pubkey × Reserve) (obsolete : ℕ) (disabled : Bool) (prices : PriceStatusFlags)
    (done : ObligationCollateral × (Pubkey × Reserve) × RefreshObligationDepositsResult)
    → refreshed tracked value account added obsolete disabled prices ≡ done
    → (tracked.deposit_reserve ≡ c.deposit_reserve)
    → (tracked.deposited_amount ≡ c.deposited_amount)
    → (added.deposited_value_f ≡ t.deposited_value_f + value)
    → (t.allowed_borrow_value_f ≤ t.unhealthy_borrow_value_f
        → added.allowed_borrow_value_f ≤ added.unhealthy_borrow_value_f)
    → HasAdded t done.2 c done.0
refreshed-HasAdded t added c tracked value account obsolete disabled prices done is key amount sum
      order =
    subst (λ d. HasAdded t d.2 c d.0) is (key, amount, sum, order)

pub refresh_deposit-HasAdded :
    (market : LendingMarket) (slot : ℕ) (debt : Option (ElevationGroup × ℕ))
    (t : RefreshObligationDepositsResult) (c : ObligationCollateral) (key : Pubkey) (r : Reserve)
    (done : ObligationCollateral × (Pubkey × Reserve) × RefreshObligationDepositsResult)
    → IsOrdered (get_max_ltv_and_liquidation_threshold r (group_of debt))
    → refresh_deposit ⦃n = exact⦄ market slot debt t c (key, r) ≡ ok done
    → HasAdded t done.2 c done.0
unfolding refresh_deposit
refresh_deposit-HasAdded market slot debt t c key r done ordered e =
    let (obsolete, e0, e1) = bind_ok (obsolete_count r) _ e in
    let (checked, e2, e3) =
      bind_ok (check_obligation_collateral_deposit_reserve c r key slot) _ e1 in
    let (tracked, e4, e5) = bind_ok (retrack debt c key r) _ e3 in
    let (value, e6, e7) =
      bind_ok (calculate_obligation_collateral_market_value ⦃n = exact⦄ tracked.1 tracked.0) _ e5 in
    let pcts = get_max_ltv_and_liquidation_threshold tracked.1 (group_of debt) in
    let (added, e8, e9) =
      bind_ok
        (add_deposit ⦃n = exact⦄ t value pcts.0 pcts.1 market.min_value_skip_liquidation_ltv_checks)
        _ e7 in
    let same = retrack-same debt c tracked.0 key r tracked.1 e4 in
    let ratios = sym (ratios-same r tracked.1 (group_of debt) same.0) in
    let sums =
      add_deposit-totals t added value pcts.0 pcts.1 market.min_value_skip_liquidation_ltv_checks
        (subst IsOrdered ratios ordered) e8 in
    refreshed-HasAdded t added c tracked.0 value (key, tracked.1) obsolete
      (disables_borrowing debt r) r.last_update.price_status done (ok_inj e9) same.1 same.2 sums.0
      sums.1
