-- ===== src/Reserve/Borrow/Repay.antt =====
-- What a repayment pays for what it settles, and what that does to the reserve.
use solana_auditor_skill.Prelude.{
  ℕ, ◌+◌, ◌*◌, ◌^◌, ◌≤◌, ◌<◌, ◌≡◌, arith, min, ◌==◌, if◌then◌else◌, refl,
}
use solana_auditor_skill.Prelude.Division.{ceil_div}
use solana_auditor_skill.Outcome.{ok}
use solana_auditor_skill.Numerics.{Numerics, IsDocumented, one}
use solana_auditor_skill.Numerics.Exact.{exact_unique}
use solana_auditor_skill.Fraction.{to_ceil}
use solana_auditor_skill.Reserve.Types.{ReserveLiquidity, CalculateRepayResult}
use solana_auditor_skill.Reserve.Queries.{max_u64}
use solana_auditor_skill.Reserve.Liquidity.{repay}
use solana_auditor_skill.Reserve.Liquidity.Supply.{IsSolvent, supply, repay-supply}
use solana_auditor_skill.Reserve.Borrow.{calculate_repay}

-- The greatest `u64` asks to settle all.
abbrev pub settle_of : ℕ → ℕ → ℕ
settle_of amount debt = if amount == max_u64 then debt else min (amount * one) debt

module _ ⦃n : Numerics⦄ (d : IsDocumented n) where
  -- A repayment of a `u64` amount on a debt within the bounds is calculated without overflow: it
  -- settles the whole debt when the greatest `u64` is asked for and at most the amount otherwise,
  -- and the whole tokens paid cover what is settled, with less than a token to spare.
  pub calculate_repay-covers :
      (amount debt : ℕ)
      → amount < 2 ^ 64
      → debt + one ≤ 2 ^ 124
      → (result : CalculateRepayResult) × (calculate_repay amount debt ≡ ok result)
        × (result.settle_amount ≡ settle_of amount debt)
        × (result.settle_amount ≤ debt)
        × (result.settle_amount ≤ result.repay_amount * one)
        × (result.repay_amount * one < result.settle_amount + one)
  unfolding calculate_repay to_ceil
  calculate_repay-covers amount debt h small = (
    record {
      settle_amount = settle_of amount debt;
      repay_amount = ceil_div (settle_of amount debt) one;
    },
    rw (exact_unique n d) (ground arith),
    refl,
    ground arith,
    omega arith,
    omega arith,
  )

  -- A repayment of a debt of a solvent reserve, calculated and then made, within the bounds,
  -- succeeds: the debt falls by what is settled (all of it, or the amount paid if that is less),
  -- the supply does not fall and rises by less than a token, and the reserve stays solvent.
  pub repay-settles :
      (l : ReserveLiquidity) (amount debt : ℕ)
      → IsSolvent l
      → amount < 2 ^ 64
      → debt ≤ l.borrowed_amount_sf
      → l.total_available_amount * one + debt + one ≤ 2 ^ 124
      → (result : CalculateRepayResult) × (l' : ReserveLiquidity) × (calculate_repay amount debt
          ≡ ok result)
        × (repay l result.repay_amount result.settle_amount ≡ ok l')
        × IsSolvent l'
        × (l'.borrowed_amount_sf + settle_of amount debt ≡ l.borrowed_amount_sf)
        × (supply l ≤ supply l')
        × (supply l' < supply l + one)
  repay-settles l amount debt s h small room =
      let (result, run, same, most, pays, little) =
        calculate_repay-covers amount debt h (omega arith) in
      let fits : l.total_available_amount + result.repay_amount < 2 ^ 64 = omega arith in
      let (l', paid, solvent, value, rest) =
        repay-supply d l result.repay_amount result.settle_amount s fits pays in
      (
        result,
        l',
        run,
        paid,
        solvent,
        omega (arith, same, rest),
        omega (arith, value, pays, most),
        omega (arith, value, little, most),
      )
