-- ===== src/Reserve/Collateral.antt =====
-- `ReserveCollateral` and `CollateralExchangeRate` of klend/programs/klend/src/state/reserve.rs: the
-- collateral tokens of a reserve, and how they are exchanged for its liquidity.
pub mod Exchange
use solana_auditor_skill.Prelude.{
  ℕ, ◌+◌, ◌*◌, ◌-◌, ◌^◌, Bool, Option, some, none, ◌||◌, ◌==◌, if◌then◌else◌,
}
use solana_auditor_skill.Outcome.{
  Outcome, ok, err, panic, ◌>>=◌, unwrap, ok_or, fit, checked_add, checked_sub,
}
use solana_auditor_skill.Errors.{math_overflow}
use solana_auditor_skill.Numerics.{Numerics, one}
use solana_auditor_skill.RateCurve.{unwrap_result}
use solana_auditor_skill.Fraction.{
  fraction_of_big, big_from_num, big_mul, big_div, big_mul_by_int, big_div_by_int, big_div_ceil,
  to_floor, to_ceil, try_to_floor, full_mul_int_ratio_ceil,
}
use solana_auditor_skill.Reserve.Types.{ReserveCollateral, CollateralExchangeRate}

-- `ReserveCollateral::new`
unfoldable pub new : (mint_pubkey supply_vault initial_collateral_supply : ℕ) → ReserveCollateral
new mint_pubkey supply_vault initial_collateral_supply = record {
  mint_pubkey = mint_pubkey;
  mint_total_supply = initial_collateral_supply;
  supply_vault = supply_vault;
}

unfoldable pub mint : ReserveCollateral → ℕ → Outcome ReserveCollateral
mint c collateral_amount = do
  total ← ok_or (checked_add 64 c.mint_total_supply collateral_amount) math_overflow
  ok (record c { mint_total_supply = total })

unfoldable pub burn : ReserveCollateral → ℕ → Outcome ReserveCollateral
burn c collateral_amount = do
  total ← ok_or (checked_sub c.mint_total_supply collateral_amount) math_overflow
  ok (record c { mint_total_supply = total })

-- `INITIAL_COLLATERAL_RATE`
abbrev pub initial_rate : CollateralExchangeRate
initial_rate = record { collateral_supply = 1; liquidity = one }

unfoldable pub exchange_rate : ReserveCollateral → ℕ → CollateralExchangeRate
exchange_rate c total_liquidity =
    if c.mint_total_supply == 0 || total_liquidity == 0
    then initial_rate
    else record { collateral_supply = c.mint_total_supply; liquidity = total_liquidity }

module _ ⦃n : Numerics⦄ where
  unfoldable pub fraction_collateral_to_liquidity : CollateralExchangeRate → ℕ → Outcome ℕ
  fraction_collateral_to_liquidity r collateral_amount = do
    product ← big_mul collateral_amount r.liquidity
    quotient ← big_div_by_int product r.collateral_supply
    unwrap_result (fraction_of_big quotient)

  unfoldable pub collateral_to_liquidity : CollateralExchangeRate → ℕ → Outcome ℕ
  unfolding fraction_collateral_to_liquidity
  collateral_to_liquidity r collateral_amount = do
    amount_f ← n.from_num collateral_amount
    to_floor 64 (← fraction_collateral_to_liquidity r amount_f)

  unfoldable pub collateral_to_liquidity_ceil : CollateralExchangeRate → ℕ → Outcome ℕ
  collateral_to_liquidity_ceil r collateral_amount = do
    product ← unwrap (n.checked_mul256 collateral_amount r.liquidity)
    before ← n.sub256 r.collateral_supply 1
    padded ← unwrap (n.checked_add256 product before)
    liquidity_ceil ← unwrap (n.checked_div256 padded r.collateral_supply)
    to_ceil 64 (← unwrap_result (fraction_of_big liquidity_ceil))

  unfoldable pub fraction_collateral_to_liquidity_ceil : CollateralExchangeRate → ℕ → Outcome ℕ
  fraction_collateral_to_liquidity_ceil r collateral_amount = do
    supply_f ← n.from_num r.collateral_supply
    full_mul_int_ratio_ceil r.liquidity collateral_amount supply_f

  unfoldable pub fraction_liquidity_to_collateral : CollateralExchangeRate → ℕ → Outcome ℕ
  fraction_liquidity_to_collateral r liquidity_amount = do
    product ← big_mul_by_int liquidity_amount r.collateral_supply
    unwrap_result (fraction_of_big (← big_div product r.liquidity))

  unfoldable pub fraction_liquidity_to_collateral_ceil : CollateralExchangeRate → ℕ → Outcome ℕ
  fraction_liquidity_to_collateral_ceil r liquidity_amount = do
    product ← big_mul_by_int liquidity_amount r.collateral_supply
    unwrap_result (fraction_of_big (← big_div_ceil product r.liquidity))

  unfoldable pub liquidity_to_collateral_fraction : CollateralExchangeRate → ℕ → Outcome ℕ
  liquidity_to_collateral_fraction r liquidity_amount = do
    product ← fit 128 (r.collateral_supply * liquidity_amount)
    scaled ← big_from_num product
    unwrap_result (fraction_of_big (← big_div scaled r.liquidity))

  unfoldable pub liquidity_to_collateral : CollateralExchangeRate → ℕ → Outcome ℕ
  unfolding liquidity_to_collateral_fraction
  liquidity_to_collateral r liquidity_amount = do
    collateral_f ← liquidity_to_collateral_fraction r liquidity_amount
    unwrap (try_to_floor 64 collateral_f)

  unfoldable pub liquidity_to_collateral_ceil : CollateralExchangeRate → ℕ → Outcome ℕ
  unfolding fraction_liquidity_to_collateral_ceil
  liquidity_to_collateral_ceil r liquidity_amount = do
    amount_f ← n.from_num liquidity_amount
    to_ceil 64 (← fraction_liquidity_to_collateral_ceil r amount_f)
