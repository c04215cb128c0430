-- ===== src/Lending/Debt/Borrow.antt =====
-- How an obligation stands after a borrow that succeeds.
use native.Mathlib.Nat.{mul-le-mul, le_refl}
use solana_auditor_skill.Prelude.{
  ℕ, ◌+◌, ◌*◌, ◌/◌, ◌≤◌, ◌<◌, ◌≡◌, ltb, leb, arith, Option, get_elem?, subst,
}
use solana_auditor_skill.Prelude.Division.{div_bounds}
use solana_auditor_skill.Outcome.{ok, ◌>>◌, refuse_if, unwrap, bind_ok, fits, ok_inj}
use solana_auditor_skill.Errors.{
  net_value_remaining_too_small, worse_ltv_than_unhealthy_ltv, liabilities_bigger_than_assets,
}
use solana_auditor_skill.Numerics.{Numerics, IsDocumented, one}
use solana_auditor_skill.Numerics.Exact.{exact, exact_unique}
use solana_auditor_skill.Reserve.Types.{
  Reserve, Pubkey, ReferrerTokenState, CalculateBorrowResult, BorrowSize,
}
use solana_auditor_skill.Reserve.Liquidity.{liquidity_amount_to_market_value}
use solana_auditor_skill.Reserve.Queries.{borrow_factor_f}
use solana_auditor_skill.Obligation.Types.{Obligation}
use solana_auditor_skill.Obligation.Queries.{unhealthy_loan_to_value}
use solana_auditor_skill.Obligation.Orders.{check_orders_supported_after_user_operation, is_some}
use solana_auditor_skill.Market.{LendingMarket, Clock, market_elevation_group}
use solana_auditor_skill.Lending.Checks.{in_elevation_group}
use solana_auditor_skill.Lending.Values.{post_borrow_obligation_invariants, is_dust}
use solana_auditor_skill.Lending.Groups.{BorrowState, update_trackers_on_borrow}
use solana_auditor_skill.Lending.Debt.{
  borrow_amount_of, borrow_from_reserve, borrow_into_slot, pay_referrer, indebted,
  check_after_borrow, borrow_obligation_liquidity,
}

-- What an obligation owes after a borrow of some value, weighed by a borrow factor: the debt is worth
-- less than the collateral, and the weighed debt passes what the collateral may carry by less than one
-- bit of their ratio to the collateral.
abbrev pub IsSolvent : Obligation → (value factor : ℕ) → Type 0
IsSolvent o value factor =
    (o.borrowed_assets_market_value_sf + value < o.deposited_value_sf)
    × ((o.borrow_factor_adjusted_debt_value_sf + value * factor / one) * one
        < o.unhealthy_borrow_value_sf * one + o.deposited_value_sf)

-- A ratio to a total that does not panic.
ratio_of : (a t x : ℕ) → exact.div a t ≡ ok x → (0 < t) × (x ≡ a * one / t)
ratio_of a t x e = ground arith

-- Ratios in order, and the numbers they are of.
ratios-order : (a b t : ℕ) → 0 < t → a * one / t ≤ b * one / t → a * one < b * one + t
ratios-order a b t pos h =
    let low = div_bounds (a * one) t pos in
    let high = div_bounds (b * one) t pos in omega (arith, low.1, high.0, mul-le-mul h (le_refl t))

unhealthy-ratio :
    (o : Obligation) (x : ℕ)
    → unhealthy_loan_to_value ⦃n = exact⦄ o ≡ ok x
    → x ≡ o.unhealthy_borrow_value_sf * one / o.deposited_value_sf
unfolding unhealthy_loan_to_value
unhealthy-ratio o x e = (ratio_of o.unhealthy_borrow_value_sf o.deposited_value_sf x e).1

-- The last two tests of `post_borrow_obligation_invariants`, once the values are known.
last-IsSolvent :
    (o : Obligation) (value factor adjusted total_bf total ltv most : ℕ)
    → adjusted ≡ value * factor / one
    → total_bf ≡ o.borrow_factor_adjusted_debt_value_sf + adjusted
    → total ≡ o.borrowed_assets_market_value_sf + value
    → (0 < o.deposited_value_sf) × (ltv ≡ total_bf * one / o.deposited_value_sf)
    → most ≡ o.unhealthy_borrow_value_sf * one / o.deposited_value_sf
    → (refuse_if (ltb most ltv) worse_ltv_than_unhealthy_ltv
        >> refuse_if (leb o.deposited_value_sf total) liabilities_bigger_than_assets)
      ≡ ok tt
    → IsSolvent o value factor
last-IsSolvent o value factor adjusted total_bf total ltv most a b c r m e =
    let tests : (ltv ≤ most) × (total < o.deposited_value_sf) = ground arith in
    let order : total_bf * one / o.deposited_value_sf
        ≤ o.unhealthy_borrow_value_sf * one / o.deposited_value_sf =
      omega (arith, tests.0, r.1, m) in
    let less = ratios-order total_bf o.unhealthy_borrow_value_sf o.deposited_value_sf r.0 order in
    (omega (arith, tests.1, c), omega (arith, less, a, b))

post_borrow-IsSolvent :
    (amount : ℕ) (o : Obligation) (r : Reserve) (mv least : ℕ)
    → post_borrow_obligation_invariants ⦃n = exact⦄ amount o r mv least ≡ ok tt
    → (value : ℕ) × (factor : ℕ) × (liquidity_amount_to_market_value ⦃n = exact⦄ r.liquidity amount
        ≡ ok value)
      × (borrow_factor_f ⦃n = exact⦄ r (in_elevation_group o) ≡ ok factor)
      × IsSolvent o value factor
unfolding post_borrow_obligation_invariants
post_borrow-IsSolvent amount o r mv least e =
    let (value, e1, rest1) =
      bind_ok (liquidity_amount_to_market_value ⦃n = exact⦄ r.liquidity amount) _ e in
    let (factor, e2, rest2) =
      bind_ok (borrow_factor_f ⦃n = exact⦄ r (in_elevation_group o)) _ rest1 in
    let (adjusted, e3, rest3) = bind_ok (exact.mul value factor) _ rest2 in
    let (total_bf, e4, rest4) =
      bind_ok (exact.add o.borrow_factor_adjusted_debt_value_sf adjusted) _ rest3 in
    let (total, e5, rest5) = bind_ok (exact.add o.borrowed_assets_market_value_sf value) _ rest4 in
    let (new_mv, e6, rest6) = bind_ok (exact.add mv value) _ rest5 in
    let (u, e7, rest7) =
      bind_ok (refuse_if (is_dust ⦃n = exact⦄ new_mv least) net_value_remaining_too_small) _
        rest6 in
    let (ltv, e8, rest8) = bind_ok (exact.div total_bf o.deposited_value_sf) _ rest7 in
    let (most, e9, rest9) = bind_ok (unhealthy_loan_to_value ⦃n = exact⦄ o) _ rest8 in
    (
      value,
      factor,
      e1,
      e2,
      last-IsSolvent o value factor adjusted total_bf total ltv most
          (fits 128 (value * factor / one) adjusted e3)
          (fits 128 (o.borrow_factor_adjusted_debt_value_sf + adjusted) total_bf e4)
          (fits 128 (o.borrowed_assets_market_value_sf + value) total e5)
          (ratio_of total_bf o.deposited_value_sf ltv e8) (unhealthy-ratio o most e9) rest9,
    )

after_borrow-IsSolvent :
    (market : LendingMarket) (s : BorrowState) (amount i : ℕ)
    → check_after_borrow ⦃n = exact⦄ market s amount i ≡ ok tt
    → (value : ℕ) × (factor : ℕ) × (liquidity_amount_to_market_value ⦃n = exact⦄ s.reserve.liquidity
          amount
        ≡ ok value)
      × (borrow_factor_f ⦃n = exact⦄ s.reserve (in_elevation_group s.obligation) ≡ ok factor)
      × IsSolvent s.obligation value factor
unfolding check_after_borrow
after_borrow-IsSolvent market s amount i e =
    let (slot, e1, rest1) = bind_ok (unwrap (get_elem? s.obligation.borrows i)) _ e in
    post_borrow-IsSolvent amount s.obligation s.reserve slot.market_value_sf
      market.min_net_value_in_obligation_sf rest1

module _ ⦃n : Numerics⦄ where
  -- The test after a borrow is made on the state that is returned.
  borrow_checked :
      (market : LendingMarket) (s : BorrowState) (size : BorrowSize) (clock : Clock) (key : Pubkey)
      (referrer : Option ReferrerTokenState)
      (p : BorrowState × Option ReferrerTokenState × CalculateBorrowResult)
      → borrow_obligation_liquidity market s size clock key referrer ≡ ok p
      → (i : ℕ) × (check_after_borrow market p.0 p.2.borrow_amount_f i ≡ ok tt)
  unfolding borrow_obligation_liquidity
  borrow_checked market s size clock key referrer p e =
      let t = clock.unix_timestamp in
      let (result, e1, rest1) =
        bind_ok (borrow_amount_of market s.reserve s.obligation size clock (is_some referrer)) _
          e in
      let (lent, e2, rest2) = bind_ok (borrow_from_reserve s.reserve result t) _ rest1 in
      let (o, e3, rest3) =
        bind_ok (borrow_into_slot s.obligation lent.0 key result.borrow_amount_f t) _ rest2 in
      let (paid, e4, rest4) =
        bind_ok (pay_referrer market lent.0 referrer result.referrer_fee) _ rest3 in
      let (u, e5, rest5) = bind_ok (check_orders_supported_after_user_operation o.0) _ rest4 in
      let (group, e6, rest6) =
        bind_ok (market_elevation_group market o.0.elevation_group) _ rest5 in
      let before : BorrowState = record {
        obligation = indebted o.0;
        reserve = paid.0;
        accounts = s.accounts;
      } in
      let (after, e7, rest7) =
        bind_ok (update_trackers_on_borrow lent.1 before o.1 group key) _ rest6 in
      let (v, e8, rest8) =
        bind_ok (check_after_borrow market after result.borrow_amount_f o.1) _ rest7 in
      let same : (after, paid.1, result) ≡ p = ok_inj rest8 in
      (o.1, subst (λ x. check_after_borrow market x.0 x.2.borrow_amount_f o.1 ≡ ok tt) same e8)

-- After a borrow that succeeds, with the value of what was borrowed and the reserve's borrow
-- factor, the debt is worth less than the collateral, and the weighed debt passes the unhealthy
-- threshold by less than one bit of their ratio to the collateral.
pub borrow-IsSolvent :
    {n : Numerics} (d : IsDocumented n) (market : LendingMarket) (s : BorrowState)
    (size : BorrowSize) (clock : Clock) (key : Pubkey) (referrer : Option ReferrerTokenState)
    (p : BorrowState × Option ReferrerTokenState × CalculateBorrowResult)
    → borrow_obligation_liquidity ⦃n = n⦄ market s size clock key referrer ≡ ok p
    → (value : ℕ) × (factor : ℕ) × (liquidity_amount_to_market_value ⦃n = n⦄ p.0.reserve.liquidity
          p.2.borrow_amount_f
        ≡ ok value)
      × (borrow_factor_f ⦃n = n⦄ p.0.reserve (in_elevation_group p.0.obligation) ≡ ok factor)
      × IsSolvent p.0.obligation value factor
borrow-IsSolvent {n = n} d market s size clock key referrer p e =
    let run : borrow_obligation_liquidity ⦃n = exact⦄ market s size clock key referrer ≡ ok p =
      subst (λ m. borrow_obligation_liquidity ⦃n = m⦄ market s size clock key referrer ≡ ok p)
        (exact_unique n d) e in
    let (i, passes) = borrow_checked ⦃n = exact⦄ market s size clock key referrer p run in
    let (value, factor, e1, e2, solvent) =
      after_borrow-IsSolvent market p.0 p.2.borrow_amount_f i passes in
    (value, factor, rw (exact_unique n d) e1, rw (exact_unique n d) e2, solvent)
