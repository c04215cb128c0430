-- ===== src/Reserve/Liquidity.antt =====
-- `ReserveLiquidity` of klend/programs/klend/src/state/reserve.rs, but for its interest: the amounts
-- of a reserve, what they are worth, and the payments in and out. A method that changes the value
-- returns the new one.
pub mod Supply
use solana_auditor_skill.Prelude.{
  ℕ, ◌+◌, ◌*◌, ◌^◌, ◌≤◌, ◌<◌, ◌≡◌, Bool, Option, some, none, List, [], ◌∷◌, ltb, leb, ◌==◌,
  if◌then◌else◌, get_elem?, min,
}
use solana_auditor_skill.Outcome.{
  Outcome, ok, err, panic, ◌>>=◌, ◌>>◌, unwrap, ok_or, fit, checked_add, refuse_if,
}
use solana_auditor_skill.Errors.{math_overflow}
use solana_auditor_skill.Numerics.{Numerics, one}
use solana_auditor_skill.Fraction.{full_mul_int_ratio}
use solana_auditor_skill.Reserve.Types.{ReserveLiquidity, Pubkey}

-- The table of klend/programs/klend/src/utils/consts.rs.
abbrev pub powers_of_ten : List ℕ
powers_of_ten =
    1 ∷ 10 ∷ 100 ∷ 1_000 ∷ 10_000 ∷ 100_000 ∷ 1_000_000 ∷ 10_000_000 ∷ 100_000_000 ∷ 1_000_000_000
    ∷ 10_000_000_000 ∷ 100_000_000_000 ∷ 1_000_000_000_000 ∷ 10_000_000_000_000
    ∷ 100_000_000_000_000 ∷ 1_000_000_000_000_000 ∷ 10_000_000_000_000_000 ∷ 100_000_000_000_000_000
    ∷ 1_000_000_000_000_000_000 ∷ 10_000_000_000_000_000_000 ∷ []

unfoldable pub ten_pow : ℕ → Outcome ℕ
ten_pow x = if ltb 19 x then panic else unwrap (get_elem? powers_of_ten x)

-- `ReserveLiquidity::new`
unfoldable pub new :
    (mint_pubkey mint_decimals mint_token_program supply_vault fee_vault market_price_sf
      initial_amount : ℕ)
    → ReserveLiquidity
new mint_pubkey mint_decimals mint_token_program supply_vault fee_vault market_price_sf
      initial_amount =
    record {
      mint_pubkey = mint_pubkey;
      supply_vault = supply_vault;
      fee_vault = fee_vault;
      total_available_amount = initial_amount;
      borrowed_amount_sf = 0;
      market_price_sf = market_price_sf;
      market_price_last_updated_ts = 0;
      mint_decimals = mint_decimals;
      deposit_limit_crossed_timestamp = 0;
      borrow_limit_crossed_timestamp = 0;
      cumulative_borrow_rate_bsf = one;
      accumulated_protocol_fees_sf = 0;
      accumulated_referrer_fees_sf = 0;
      pending_referrer_fees_sf = 0;
      absolute_referral_rate_sf = 0;
      token_program = mint_token_program;
      rewards_amount_available = 0;
    }

unfoldable pub deposit : ReserveLiquidity → ℕ → Outcome ReserveLiquidity
deposit l liquidity_amount = do
  total ← ok_or (checked_add 64 l.total_available_amount liquidity_amount) math_overflow
  ok (record l { total_available_amount = total })

abbrev pub total_borrow : ReserveLiquidity → ℕ
total_borrow l = l.borrowed_amount_sf

module _ ⦃n : Numerics⦄ where
  unfoldable pub total_supply : ReserveLiquidity → Outcome ℕ
  total_supply l = do
    available ← n.from_num l.total_available_amount
    assets ← n.add available l.borrowed_amount_sf
    without_protocol ← n.sub assets l.accumulated_protocol_fees_sf
    without_referrer ← n.sub without_protocol l.accumulated_referrer_fees_sf
    n.sub without_referrer l.pending_referrer_fees_sf

  unfoldable pub repay : ReserveLiquidity → ℕ → ℕ → Outcome ReserveLiquidity
  repay l repay_amount settle_amount = do
    total ← ok_or (checked_add 64 l.total_available_amount repay_amount) math_overflow
    let safe_settle_amount = min settle_amount l.borrowed_amount_sf
    borrowed ← ok_or (n.checked_sub l.borrowed_amount_sf safe_settle_amount) math_overflow
    ok (record l { total_available_amount = total; borrowed_amount_sf = borrowed })

  unfoldable pub accumulate_early_repay_penalty : ReserveLiquidity → ℕ → Outcome ReserveLiquidity
  accumulate_early_repay_penalty l penalty_lamports = do
    penalty_f ← n.from_num penalty_lamports
    fees ← n.add l.accumulated_protocol_fees_sf penalty_f
    total ← fit 64 (l.total_available_amount + penalty_lamports)
    ok (record l { total_available_amount = total; accumulated_protocol_fees_sf = fees })

  unfoldable pub utilization_rate : ReserveLiquidity → Outcome ℕ
  unfolding total_supply
  utilization_rate l = do
    supply ← total_supply l
    if supply == 0 then ok 0 else n.div l.borrowed_amount_sf supply

  -- The mint's decimals as a factor on `u128`, at the scale of a fraction.
  unfoldable pub mint_factor_sf : ReserveLiquidity → Outcome ℕ
  unfolding ten_pow
  mint_factor_sf l = do fit 128 ((← ten_pow l.mint_decimals) * one)

  unfoldable pub liquidity_amount_to_market_value : ReserveLiquidity → ℕ → Outcome ℕ
  unfolding mint_factor_sf
  liquidity_amount_to_market_value l liquidity_amount = do
    full_mul_int_ratio liquidity_amount l.market_price_sf (← mint_factor_sf l)

  unfoldable pub market_value_to_liquidity_amount : ReserveLiquidity → ℕ → Outcome ℕ
  unfolding mint_factor_sf
  market_value_to_liquidity_amount l market_value = do
    factor ← mint_factor_sf l
    full_mul_int_ratio market_value factor l.market_price_sf

  unfoldable pub forgive_debt : ReserveLiquidity → ℕ → Outcome ReserveLiquidity
  forgive_debt l liquidity_amount = do
    borrowed ← n.sub l.borrowed_amount_sf liquidity_amount
    ok (record l { borrowed_amount_sf = borrowed })
