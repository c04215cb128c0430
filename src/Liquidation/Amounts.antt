-- ===== src/Liquidation/Amounts.antt =====
-- What a liquidation repays and takes.
use native.Mathlib.Nat.{mul-le-mul, le_refl}
use solana_auditor_skill.Prelude.{
  ℕ, ◌+◌, ◌*◌, ◌^◌, ◌/◌, ◌≤◌, ◌<◌, ◌≡◌, Bool, arith, max, ltb, if◌then◌else◌, ◌&&◌,
}
use solana_auditor_skill.Prelude.Division.{ceil_div, div_bounds, le_of_mul-le}
use solana_auditor_skill.Outcome.{ok}
use solana_auditor_skill.Numerics.{Numerics, IsDocumented, one}
use solana_auditor_skill.Numerics.Exact.{exact_unique}
use solana_auditor_skill.Fraction.{to_floor, to_ceil}
use solana_auditor_skill.Obligation.Types.{ObligationCollateral}
use solana_auditor_skill.Liquidation.{
  LiquidationAmounts, amounts_of_all, amounts_of_part, calculate_liquidation_amounts,
}

-- The part of `a` that `p / q` makes, where `p` is at most `q`.
abbrev pub part_of : ℕ → ℕ → ℕ → ℕ
part_of a p q = a * (p * one / q) / one

ratio-le : (p q : ℕ) → 0 < q → p ≤ q → p * one / q ≤ one
ratio-le p q pos h =
    le_of_mul-le (p * one / q) one q pos
      (omega (arith, div_bounds (p * one) q pos, mul-le-mul h (le_refl one)))

part_of-le : (a p q : ℕ) → 0 < q → p ≤ q → part_of a p q ≤ a
part_of-le a p q pos h = omega (arith, mul-le-mul (le_refl a) (ratio-le p q pos h))

share_of : (a p q : ℕ) → 0 < q → part_of (a * one) p q / one * q ≤ a * p
share_of a p q pos =
    let ratio = p * one / q in
    let whole : part_of (a * one) p q / one * one ≤ a * ratio = omega arith in
    let scaled = mul-le-mul whole (le_refl q) in
    let low = mul-le-mul (le_refl a) (div_bounds (p * one) q pos).0 in omega (arith, scaled, low)

-- The amounts of each of the three cases.
abbrev pub settled_of : ℕ → ObligationCollateral → ℕ → Bool → ℕ
settled_of total c debt below =
    if ltb c.market_value_sf total
    then (if below then debt else part_of debt c.market_value_sf total)
    else debt

abbrev pub taken_of : ℕ → ObligationCollateral → Bool → ℕ
taken_of total c below =
    if ltb total c.market_value_sf
    then (if below && ltb (part_of (c.deposited_amount * one) total c.market_value_sf) one
        then 1
        else part_of (c.deposited_amount * one) total c.market_value_sf / one)
    else c.deposited_amount

module _ ⦃n : Numerics⦄ (d : IsDocumented n) (total : ℕ) (c : ObligationCollateral) (debt : ℕ)
    (below : Bool) (small : debt + one ≤ 2 ^ 124) (fits : c.deposited_amount < 2 ^ 64) where
  amounts_lem :
      calculate_liquidation_amounts total c debt below
      ≡ ok (record {
        settle_amount = settled_of total c debt below;
        repay_amount = ceil_div (settled_of total c debt below) one;
        withdraw_amount = taken_of total c below;
      })
  unfolding calculate_liquidation_amounts amounts_of_all amounts_of_part to_floor to_ceil
  amounts_lem =
      let v = c.market_value_sf in
      rw (exact_unique n d) (
        ground (
          arith,
          ratio-le v total,
          ratio-le total v,
          part_of-le debt v total,
          part_of-le (c.deposited_amount * one) total v,
        ))

  taken-share :
      taken_of total c below * c.market_value_sf
      ≤ max (c.deposited_amount * total) c.market_value_sf
  taken-share =
      let v = c.market_value_sf in
      let all : v ≤ total → c.deposited_amount * v ≤ c.deposited_amount * total =
        λ h. mul-le-mul (le_refl c.deposited_amount) h in
      ground (arith, all, share_of c.deposited_amount total v)

  -- A liquidation of a debt within the bounds settles no more than the debt, the whole tokens
  -- repaid cover what is settled with less than a token to spare, and the collateral taken is at
  -- most what is deposited and at most its share of the value asked for, or the one token of dust.
  pub calculate_liquidation_amounts-bounds :
      (result : LiquidationAmounts) × (calculate_liquidation_amounts total c debt below ≡ ok result)
      × (result.settle_amount ≤ debt)
      × (result.settle_amount ≤ result.repay_amount * one)
      × (result.repay_amount * one < result.settle_amount + one)
      × (result.withdraw_amount ≤ max c.deposited_amount 1)
      × (result.withdraw_amount * c.market_value_sf
          ≤ max (c.deposited_amount * total) c.market_value_sf)
  calculate_liquidation_amounts-bounds =
      let v = c.market_value_sf in
      (
        record {
          settle_amount = settled_of total c debt below;
          repay_amount = ceil_div (settled_of total c debt below) one;
          withdraw_amount = taken_of total c below;
        },
        amounts_lem,
        ground (arith, part_of-le debt v total),
        omega arith,
        omega arith,
        ground (arith, part_of-le (c.deposited_amount * one) total v),
        taken-share,
      )
