-- ===== src/Reserve/Collateral/Exchange.antt =====
-- The exchange of collateral tokens for liquidity, each way, as whole numbers: `S` is the collateral
-- supply and `L` the total liquidity, at the scale of a fraction.
use native.Mathlib.Nat.{mul-le-mul, le_refl}
use solana_auditor_skill.Prelude.{ℕ, ◌+◌, ◌*◌, ◌^◌, ◌/◌, ◌≤◌, ◌<◌, ◌≡◌, arith}
use solana_auditor_skill.Prelude.Division.{
  ceil_div, ceil_div_bounds, ceil_div-le, div_bounds, div-lt, le_of_mul-le,
}
use solana_auditor_skill.Outcome.{ok}
use solana_auditor_skill.Numerics.{Numerics, IsDocumented, one}
use solana_auditor_skill.Numerics.Exact.{exact_unique}
use solana_auditor_skill.Fraction.{
  fraction_of_big, big_from_num, big_mul, big_div, big_div_by_int, to_floor, to_ceil, try_to_floor,
}
use solana_auditor_skill.Reserve.Types.{CollateralExchangeRate}
use solana_auditor_skill.Reserve.Collateral.{
  collateral_to_liquidity, collateral_to_liquidity_ceil, liquidity_to_collateral,
}

-- Collateral to liquidity, rounded down and rounded up, and liquidity to collateral, rounded down.
abbrev pub floor_liquidity : ℕ → ℕ → ℕ → ℕ
floor_liquidity S L c = c * L / S / one

abbrev pub ceil_liquidity : ℕ → ℕ → ℕ → ℕ
ceil_liquidity S L c = ceil_div (ceil_div (c * L) S) one

abbrev pub floor_collateral : ℕ → ℕ → ℕ → ℕ
floor_collateral S L a = S * a * one * one / L / one

-- The amounts are `u64`s, and the supply of liquidity rounds up to one.
pub record IsRate (S L : ℕ) : Type 0 where
  pub supply_pos : 0 < S
  pub supply_fits : S < 2 ^ 64
  pub liquidity_pos : 0 < L
  pub liquidity_fits : L + one ≤ 2 ^ 124

abbrev pub rate : ℕ → ℕ → CollateralExchangeRate
rate S L = record { collateral_supply = S; liquidity = L }

module _ (S L : ℕ) (r : IsRate S L) where
  -- Each direction as the two inequalities that define its rounding.
  pub floor_liquidity_bounds :
      (c : ℕ)
      → (floor_liquidity S L c * (S * one) ≤ c * L)
        × (c * L < floor_liquidity S L c * (S * one) + S * one)
  floor_liquidity_bounds c =
      let inner = div_bounds (c * L) S r.supply_pos in
      let outer = div_bounds (c * L / S) one (omega arith) in
      let low = mul-le-mul outer.0 (le_refl S) in
      let high = mul-le-mul outer.1 (le_refl S) in (omega arith, omega arith)

  pub ceil_liquidity_bounds :
      (c : ℕ)
      → (c * L ≤ ceil_liquidity S L c * (S * one))
        × (ceil_liquidity S L c * (S * one) < c * L + S * one)
  ceil_liquidity_bounds c =
      let inner = ceil_div_bounds (c * L) S r.supply_pos in
      let outer = ceil_div_bounds (ceil_div (c * L) S) one (omega arith) in
      let low = mul-le-mul outer.0 (le_refl S) in
      let high = mul-le-mul outer.1 (le_refl S) in (omega arith, omega arith)

  pub floor_collateral_bounds :
      (a : ℕ)
      → (floor_collateral S L a * L ≤ S * a * one) × (S * a * one < floor_collateral S L a * L + L)
  floor_collateral_bounds a =
      let inner = div_bounds (S * a * one * one) L r.liquidity_pos in
      let outer = div_bounds (S * a * one * one / L) one (omega arith) in
      let low = mul-le-mul outer.0 (le_refl L) in
      let high = mul-le-mul outer.1 (le_refl L) in (omega arith, omega arith)

  floor_liquidity-le : (c : ℕ) → c ≤ S → c * L / S ≤ L
  floor_liquidity-le c h =
      le_of_mul-le (c * L / S) L S r.supply_pos
        (omega (arith, div_bounds (c * L) S r.supply_pos, mul-le-mul h (le_refl L)))

  module _ ⦃n : Numerics⦄ (d : IsDocumented n) where
    -- Of no more collateral than there is, the code computes the rounded amounts.
    pub collateral_to_liquidity_lem :
        (c : ℕ) → c ≤ S → collateral_to_liquidity (rate S L) c ≡ ok (floor_liquidity S L c)
    unfolding collateral_to_liquidity big_mul big_div_by_int fraction_of_big to_floor
    collateral_to_liquidity_lem c h =
        let product = mul-le-mul h (le_refl L) in
        let small : L ≤ 2 ^ 124 = omega arith in
        let bound = mul-le-mul r.supply_fits small in
        rw (exact_unique n d) (ground (arith, floor_liquidity-le c h, product, bound, r.supply_pos))

    pub collateral_to_liquidity_ceil_lem :
        (c : ℕ)
        → c < 2 ^ 64
        → ceil_div (c * L) S + one ≤ 2 ^ 124
        → collateral_to_liquidity_ceil (rate S L) c ≡ ok (ceil_liquidity S L c)
    unfolding collateral_to_liquidity_ceil fraction_of_big to_ceil
    collateral_to_liquidity_ceil_lem c h fits =
        let small : L ≤ 2 ^ 124 = omega arith in
        let bound = mul-le-mul h small in
        rw (exact_unique n d) (ground (arith, fits, bound, r.supply_pos))

    -- The collateral for an amount of liquidity, where it is a `u64`.
    pub liquidity_to_collateral_lem :
        (a : ℕ)
        → a < 2 ^ 64
        → S * a * one < 2 ^ 64 * L
        → liquidity_to_collateral (rate S L) a ≡ ok (floor_collateral S L a)
    unfolding liquidity_to_collateral big_from_num big_div fraction_of_big try_to_floor
    liquidity_to_collateral_lem a h fits =
        let bound = mul-le-mul r.supply_fits h in
        let small = div-lt (S * a * one * one) L (2 ^ 64 * one) r.liquidity_pos (omega arith) in
        rw (exact_unique n d) (ground (arith, small, bound, r.liquidity_pos))

  -- Liquidity turned into collateral and back, even rounding the second step up, is no more than it was.
  pub ceil_liquidity-floor_collateral : (a : ℕ) → ceil_liquidity S L (floor_collateral S L a) ≤ a
  ceil_liquidity-floor_collateral a =
      let forth = floor_collateral_bounds a in
      let inner =
        ceil_div-le (floor_collateral S L a * L) S (a * one) r.supply_pos
          (omega (arith, forth.0)) in
      ceil_div-le (ceil_div (floor_collateral S L a * L) S) one a (omega arith) inner
