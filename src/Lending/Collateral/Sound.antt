-- ===== src/Lending/Collateral/Sound.antt =====
-- A withdrawal of collateral that succeeds: how the obligation stands after it.
use solana_auditor_skill.Prelude.{
  ℕ, ◌-◌, ◌*◌, ◌/◌, ◌^◌, ◌≤◌, ◌<◌, ◌≡◌, ◌⊎◌, ◌==◌, ◌&&◌, ltb, if◌then◌else◌, arith, Option,
  get_elem?, sym, subst, min,
}
use solana_auditor_skill.Prelude.Division.{div_bounds, div_mono}
use solana_auditor_skill.Outcome.{ok, ◌>>◌, refuse_if, unwrap, bind_ok}
use solana_auditor_skill.Errors.{liabilities_bigger_than_assets}
use solana_auditor_skill.Numerics.{Numerics, IsDocumented, one}
use solana_auditor_skill.Numerics.Exact.{exact, exact_unique}
use solana_auditor_skill.Fraction.{from_percent}
use solana_auditor_skill.Reserve.Types.{Reserve, Pubkey, CollateralExchangeRate}
use solana_auditor_skill.Reserve.Liquidity.{liquidity_amount_to_market_value}
use solana_auditor_skill.Reserve.Collateral.{fraction_collateral_to_liquidity}
use solana_auditor_skill.Reserve.Queries.{collateral_exchange_rate}
use solana_auditor_skill.Obligation.Types.{Obligation, new_collateral}
use solana_auditor_skill.Obligation.Limits.{LtvMaxWithdrawalCheck}
use solana_auditor_skill.Market.{LendingMarket, ElevationGroup}
use solana_auditor_skill.Lending.Checks.{get_elevation_group, get_max_ltv_and_liquidation_threshold}
use solana_auditor_skill.Lending.Values.{
  calculate_obligation_collateral_market_value, post_withdraw_obligation_invariants,
  check_remaining_collateral, check_remaining_slot,
}
use solana_auditor_skill.Lending.Collateral.Withdraw.{withdraw-IsWithdrawal}
use solana_auditor_skill.Lending.Collateral.{check_after_withdraw, withdraw_obligation_collateral}

-- How an obligation stands whose collateral has lost some value: without collateral it owes nothing;
-- otherwise the rest is worth more than what is owed, and the debt, weighed by the borrow factors, is
-- below what the rest may carry, or a negligible part of the rest.
abbrev pub IsSound : Obligation → (lost_value lost_capacity : ℕ) → Type 0
IsSound o lost_value lost_capacity =
    (lost_value ≤ o.deposited_value_sf)
    × (o.deposited_value_sf ≡ lost_value → o.borrow_factor_adjusted_debt_value_sf ≡ 0)
    × (lost_value < o.deposited_value_sf
        → (o.borrowed_assets_market_value_sf < o.deposited_value_sf - lost_value)
          × ((o.borrow_factor_adjusted_debt_value_sf * one < o.deposited_value_sf - lost_value)
              ⊎ (o.borrow_factor_adjusted_debt_value_sf
                  < o.unhealthy_borrow_value_sf - lost_capacity)))

-- The part of a value that a percentage makes, as the code computes it.
abbrev pub capacity : (value pct : ℕ) → ℕ
capacity value pct = min (value * (pct * one / 100) / one) (2 ^ 128 - 1)

remaining-IsSound :
    (o : Obligation) (value total pct : ℕ)
    → 0 < total
    → check_remaining_collateral ⦃n = exact⦄ o value total pct ≡ ok tt
    → (o.borrowed_assets_market_value_sf < total)
      × ((o.borrow_factor_adjusted_debt_value_sf * one < total)
          ⊎ (o.borrow_factor_adjusted_debt_value_sf
              < o.unhealthy_borrow_value_sf - capacity value pct))
unfolding check_remaining_collateral from_percent
remaining-IsSound o value total pct pos e =
    let debt = o.borrow_factor_adjusted_debt_value_sf * one in
    let rest = (o.unhealthy_borrow_value_sf - capacity value pct) * one in
    let order : rest ≤ debt → rest / total ≤ debt / total = λ h. div_mono rest debt total h in
    ground (arith, order, div_bounds debt total pos)

-- The tests of `post_withdraw_obligation_invariants` once the total that is left is known.
left-IsSound :
    (o : Obligation) (value total pct : ℕ)
    → value ≤ o.deposited_value_sf
    → total ≡ o.deposited_value_sf - value
    → (refuse_if
          ((total == 0) && ltb 0 o.borrow_factor_adjusted_debt_value_sf)
          liabilities_bigger_than_assets
        >> (if total == 0 then ok tt else check_remaining_collateral ⦃n = exact⦄ o value total pct))
      ≡ ok tt
    → IsSound o value (capacity value pct)
left-IsSound o value total pct within is e =
    let sound = remaining-IsSound o value total pct in
    (
      within,
      λ none_left. ground arith,
      λ some_left. rw (sym is) (sound (ground arith) (ground arith)),
    )

post_withdraw-IsSound :
    (amount : ℕ) (o : Obligation) (r : Reserve) (pct previous_mv least : ℕ)
    → post_withdraw_obligation_invariants ⦃n = exact⦄ amount o r pct previous_mv least ≡ ok tt
    → (value : ℕ) × (liquidity_amount_to_market_value ⦃n = exact⦄ r.liquidity amount ≡ ok value)
      × IsSound o value (capacity value pct)
unfolding post_withdraw_obligation_invariants
post_withdraw-IsSound amount o r pct previous_mv least e =
    let (value, e1, rest1) =
      bind_ok (liquidity_amount_to_market_value ⦃n = exact⦄ r.liquidity amount) _ e in
    let (total, e2, rest2) = bind_ok (exact.sub o.deposited_value_sf value) _ rest1 in
    let (u, e3, rest3) =
      bind_ok (check_remaining_slot ⦃n = exact⦄ previous_mv value least) _ rest2 in
    let within : (value ≤ o.deposited_value_sf) × (total ≡ o.deposited_value_sf - value) =
      ground arith in
    (value, e1, left-IsSound o value total pct within.0 within.1 rest3)

-- The value of so much collateral, from the values of its steps.
worth_of :
    (r : Reserve) (key : Pubkey) (amount withdrawn liquidity value : ℕ)
    (rate : CollateralExchangeRate)
    → collateral_exchange_rate ⦃n = exact⦄ r ≡ ok rate
    → exact.from_num amount ≡ ok withdrawn
    → fraction_collateral_to_liquidity ⦃n = exact⦄ rate withdrawn ≡ ok liquidity
    → liquidity_amount_to_market_value ⦃n = exact⦄ r.liquidity liquidity ≡ ok value
    → calculate_obligation_collateral_market_value ⦃n = exact⦄ r
        (record (new_collateral key) { deposited_amount = amount })
      ≡ ok value
unfolding calculate_obligation_collateral_market_value
worth_of r key amount withdrawn liquidity value rate e1 e2 e3 e4 = rw (e1, e2, e3) e4

-- The value of so much collateral, and how the obligation stands without it.
after_withdraw-IsSound :
    (market : LendingMarket) (o : Obligation) (r : Reserve) (amount i pct : ℕ) (key : Pubkey)
    → check_after_withdraw ⦃n = exact⦄ market o r amount i pct ≡ ok tt
    → (value : ℕ) × (calculate_obligation_collateral_market_value ⦃n = exact⦄ r
          (record (new_collateral key) { deposited_amount = amount })
        ≡ ok value)
      × IsSound o value (capacity value pct)
unfolding check_after_withdraw
after_withdraw-IsSound market o r amount i pct key e =
    let (rate, e1, rest1) = bind_ok (collateral_exchange_rate ⦃n = exact⦄ r) _ e in
    let (withdrawn, e2, rest2) = bind_ok (exact.from_num amount) _ rest1 in
    let (liquidity, e3, rest3) =
      bind_ok (fraction_collateral_to_liquidity ⦃n = exact⦄ rate withdrawn) _ rest2 in
    let (left, e4, rest4) = bind_ok (unwrap (get_elem? o.deposits i)) _ rest3 in
    let (value, e5, sound) =
      post_withdraw-IsSound liquidity o r pct left.market_value_sf
        market.min_net_value_in_obligation_sf rest4 in
    (value, worth_of r key amount withdrawn liquidity value rate e1 e2 e3 e5, sound)

-- A withdrawal of collateral that succeeds, of which the value is known, leaves the obligation
-- sound: without collateral it has no weighed debt; otherwise what is left is worth more than what
-- is borrowed, and the weighed debt is below what is left of the unhealthy threshold, less what
-- the withdrawn value carried, or less than a bit of the collateral's value.
pub withdraw-IsSound :
    {n : Numerics} (d : IsDocumented n) (market : LendingMarket) (r : Reserve) (o : Obligation)
    (amount slot : ℕ) (key : Pubkey) (check : LtvMaxWithdrawalCheck) (p : Obligation × Reserve × ℕ)
    → withdraw_obligation_collateral ⦃n = n⦄ market r o amount slot key check ≡ ok p
    → (group : Option ElevationGroup) × (value : ℕ) × (get_elevation_group o.elevation_group market
        ≡ ok group)
      × (calculate_obligation_collateral_market_value ⦃n = n⦄ p.1
            (record (new_collateral key) { deposited_amount = p.2 })
          ≡ ok value)
      × IsSound p.0 value (capacity value (get_max_ltv_and_liquidation_threshold r group).1)
withdraw-IsSound {n = n} d market r o amount slot key check p e =
    let run : withdraw_obligation_collateral ⦃n = exact⦄ market r o amount slot key check ≡ ok p =
      subst (λ m. withdraw_obligation_collateral ⦃n = m⦄ market r o amount slot key check ≡ ok p)
        (exact_unique n d) e in
    let w = withdraw-IsWithdrawal ⦃n = exact⦄ market r o amount slot key check p run in
    let (value, worth, sound) =
      after_withdraw-IsSound market p.0 p.1 p.2 w.index
        (get_max_ltv_and_liquidation_threshold r w.group).1 key w.passes in
    (w.group, value, w.in_group, rw (exact_unique n d) worth, sound)
