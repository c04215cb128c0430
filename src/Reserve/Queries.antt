-- ===== src/Reserve/Queries.antt =====
-- The methods of `Reserve` that only read it (klend/programs/klend/src/state/reserve.rs), and those of
-- its configuration.
use solana_auditor_skill.Prelude.{
  ℕ, ◌-◌, ◌^◌, Bool, true, false, not, ◌&&◌, ◌||◌, Option, some, none, List, [], ◌∷◌, ltb, leb,
  ◌==◌, if◌then◌else◌, min, max,
}
use solana_auditor_skill.Outcome.{Outcome, ok, ◌>>=◌, ◌>>◌, refuse_if, require, checked_sub}
use solana_auditor_skill.Errors.{
  insufficient_liquidity, borrow_limit_exceeded, elevation_group_borrow_limit_exceeded,
  borrowing_above_utilization_rate_disabled, withdrawal_cap_reached, math_overflow,
}
use solana_auditor_skill.Numerics.{Numerics, one}
use solana_auditor_skill.Fraction.{from_percent, to_floor}
use solana_auditor_skill.RateCurve.{get_borrow_rate}
use solana_auditor_skill.WithdrawalCaps.{remaining_withdrawal_caps_amount}
use solana_auditor_skill.Reserve.Types.{
  Reserve, ReserveConfig, CollateralExchangeRate, DepositLiquidityResult, ReferrerTokenState,
}
use solana_auditor_skill.Reserve.Liquidity.{total_supply, total_borrow, utilization_rate}
use solana_auditor_skill.Reserve.Collateral.{
  exchange_rate, collateral_to_liquidity, collateral_to_liquidity_ceil, liquidity_to_collateral,
  liquidity_to_collateral_ceil,
}

abbrev pub max_u64 : ℕ
max_u64 = 2 ^ 64 - 1

-- A configured number for which zero means that there is none.
abbrev pub nonzero : ℕ → Option ℕ
nonzero a = if a == 0 then none else some a

abbrev pub get_debt_term_seconds : ReserveConfig → Option ℕ
get_debt_term_seconds c = nonzero c.debt_term_seconds

abbrev pub get_debt_maturity_timestamp : ReserveConfig → Option ℕ
get_debt_maturity_timestamp c = nonzero c.debt_maturity_timestamp

unfoldable pub get_secs_since_debt_maturity_reached : ReserveConfig → ℕ → Option ℕ
get_secs_since_debt_maturity_reached c current_timestamp = elim (get_debt_maturity_timestamp c) [
  | none ↦ none
  | some t ↦ checked_sub current_timestamp t
]

abbrev pub is_usage_blocked : Reserve → Bool
is_usage_blocked r = r.config.deposit_limit == 0 && r.config.borrow_limit == 0

abbrev pub is_used : Reserve → ℕ → Bool
is_used r min_initial_deposit_amount =
    ltb min_initial_deposit_amount r.liquidity.total_available_amount
    || ltb 0 (total_borrow r.liquidity)
    || ltb min_initial_deposit_amount r.collateral.mint_total_supply

abbrev pub is_predeposit : Reserve → ℕ → Bool
is_predeposit r min_initial_deposit_amount =
    not (is_used r min_initial_deposit_amount) && is_usage_blocked r

abbrev pub has_initial_deposit : Reserve → Bool
has_initial_deposit r =
    ltb 0 r.liquidity.total_available_amount || ltb 0 r.collateral.mint_total_supply

-- The least of a list of limits: `into_iter().min()`.
abbrev pub least : ℕ → List ℕ → ℕ
least a [] = a
least a (b ∷ bs) = least (min a b) bs

module _ ⦃n : Numerics⦄ where
  unfoldable pub get_borrow_factor : ReserveConfig → Outcome ℕ
  get_borrow_factor c = from_percent c.borrow_factor_pct >>= λ f. ok (max one f)

  unfoldable pub borrow_factor_f : Reserve → Bool → Outcome ℕ
  unfolding get_borrow_factor
  borrow_factor_f r true = ok one
  borrow_factor_f r false = get_borrow_factor r.config

  unfoldable pub max_borrowing_utilization_rate : ReserveConfig → Outcome (Option ℕ)
  max_borrowing_utilization_rate c =
      if c.utilization_limit_block_borrowing_above_pct == 0
      then ok none
      else (from_percent c.utilization_limit_block_borrowing_above_pct >>= λ f. ok (some f))

  unfoldable pub current_borrow_rate : Reserve → Outcome ℕ
  current_borrow_rate r = do
    get_borrow_rate r.config.borrow_rate_curve (← utilization_rate r.liquidity)

  unfoldable pub collateral_exchange_rate : Reserve → Outcome CollateralExchangeRate
  collateral_exchange_rate r =
      total_supply r.liquidity >>= λ supply. ok (exchange_rate r.collateral supply)

  unfoldable pub queued_liquidity_amount : Reserve → Outcome ℕ
  unfolding collateral_exchange_rate
  queued_liquidity_amount r = do
    collateral_to_liquidity (← collateral_exchange_rate r) r.withdraw_queue.queued_collateral_amount

  -- What may leave without a ticket: the available amount less what is queued, or zero.
  unfoldable pub freely_available_liquidity_amount : Reserve → Outcome ℕ
  unfolding queued_liquidity_amount
  freely_available_liquidity_amount r =
      queued_liquidity_amount r >>= λ queued. ok (r.liquidity.total_available_amount - queued)

  unfoldable pub total_withdrawable_liquidity_amount : Reserve → Outcome ℕ
  unfolding collateral_exchange_rate
  total_withdrawable_liquidity_amount r = do
    let available = r.liquidity.total_available_amount
    rate ← collateral_exchange_rate r
    ceiled ← liquidity_to_collateral_ceil rate available
    liquidity ← collateral_to_liquidity rate ceiled
    if leb liquidity available
        then ok liquidity
        else (liquidity_to_collateral rate available >>= λ floored.
            collateral_to_liquidity rate floored)

  unfoldable pub total_redeemable_collateral_amount : Reserve → Outcome ℕ
  unfolding collateral_exchange_rate
  total_redeemable_collateral_amount r = do
    let available = r.liquidity.total_available_amount
    rate ← collateral_exchange_rate r
    ceiled ← liquidity_to_collateral_ceil rate available
    liquidity ← collateral_to_liquidity rate ceiled
    if leb liquidity available then ok ceiled else liquidity_to_collateral rate available

  unfoldable pub freely_redeemable_collateral_amount : Reserve → Outcome ℕ
  unfolding total_redeemable_collateral_amount
  freely_redeemable_collateral_amount r = total_redeemable_collateral_amount r >>= λ total.
      ok (total - r.withdraw_queue.queued_collateral_amount)

  unfoldable pub remaining_borrow_capacity : Reserve → Outcome ℕ
  remaining_borrow_capacity r = n.from_num r.config.borrow_limit >>= λ limit.
      ok (n.saturating_sub limit (total_borrow r.liquidity))

  -- How much the utilization limit lets borrow, one bit less than the limit itself.
  unfoldable pub utilization_rate_limit : Reserve → Outcome ℕ
  unfolding max_borrowing_utilization_rate
  utilization_rate_limit r = do
    supply ← total_supply r.liquidity
    limit ← max_borrowing_utilization_rate r.config
    elim limit [
      | none ↦ to_floor 64 supply
      | some rate ↦ n.mul supply rate >>= λ amount.
          to_floor 64 (n.saturating_sub (n.saturating_sub amount (total_borrow r.liquidity)) 1)
    ]

  unfoldable pub borrowable_liquidity_amount_outside_elevation_group : Reserve → ℕ → Outcome ℕ
  unfolding freely_available_liquidity_amount remaining_borrow_capacity utilization_rate_limit
  borrowable_liquidity_amount_outside_elevation_group r timestamp = do
    sufficient_liquidity_limit ← freely_available_liquidity_amount r
    refuse_if (sufficient_liquidity_limit == 0) insufficient_liquidity
    borrow_capacity_limit ← to_floor 64 (← remaining_borrow_capacity r)
    refuse_if (borrow_capacity_limit == 0) borrow_limit_exceeded
    let outside =
        r.config.borrow_limit_outside_elevation_group - r.borrowed_amount_outside_elevation_group
    refuse_if (outside == 0) elevation_group_borrow_limit_exceeded
    utilization_limit ← utilization_rate_limit r
    refuse_if (utilization_limit == 0) borrowing_above_utilization_rate_disabled
    withdrawal_caps_limit ← remaining_withdrawal_caps_amount r.config.debt_withdrawal_cap timestamp
    refuse_if (withdrawal_caps_limit == 0) withdrawal_cap_reached
    ok (
        least sufficient_liquidity_limit
          (borrow_capacity_limit ∷ outside ∷ utilization_limit ∷ withdrawal_caps_limit ∷ []))

  unfoldable pub compute_depositable_amount_and_minted_collateral :
      Reserve → ℕ → Outcome DepositLiquidityResult
  unfolding collateral_exchange_rate
  compute_depositable_amount_and_minted_collateral r liquidity_amount = do
    rate ← collateral_exchange_rate r
    collateral_amount ← liquidity_to_collateral rate liquidity_amount
    to_deposit ← collateral_to_liquidity_ceil rate collateral_amount
    require (leb to_deposit liquidity_amount) math_overflow
    ok (record { liquidity_amount = to_deposit; collateral_amount = collateral_amount })

  unfoldable pub deposit_limit_crossed : Reserve → Outcome Bool
  deposit_limit_crossed r = do
    supply ← total_supply r.liquidity
    limit ← n.from_num r.config.deposit_limit
    ok (ltb limit supply)

  unfoldable pub borrow_limit_crossed : Reserve → Outcome Bool
  borrow_limit_crossed r =
      n.from_num r.config.borrow_limit >>= λ limit. ok (ltb limit (total_borrow r.liquidity))

  unfoldable pub calculate_redeem_fees : Reserve → Outcome ℕ
  unfolding freely_available_liquidity_amount
  calculate_redeem_fees r = do
    available ← freely_available_liquidity_amount r
    fees ← to_floor 64 r.liquidity.accumulated_protocol_fees_sf
    ok (min available fees)

  unfoldable pub get_withdraw_referrer_fees : Reserve → ReferrerTokenState → Outcome ℕ
  unfolding freely_available_liquidity_amount
  get_withdraw_referrer_fees r s = do
    unclaimed ← to_floor 64 (min s.amount_unclaimed_sf r.liquidity.accumulated_referrer_fees_sf)
    available ← freely_available_liquidity_amount r
    ok (min unclaimed available)
