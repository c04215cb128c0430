-- ===== src/Reserve/Liquidity/Supply.antt =====
-- What the payments do to the supply of a reserve.
use solana_auditor_skill.Prelude.{ℕ, ◌+◌, ◌-◌, ◌*◌, ◌^◌, ◌≤◌, ◌<◌, ◌≡◌, arith, min, refl}
use solana_auditor_skill.Outcome.{ok}
use solana_auditor_skill.Numerics.{Numerics, IsDocumented, one}
use solana_auditor_skill.Numerics.Exact.{exact_unique}
use solana_auditor_skill.Reserve.Types.{ReserveLiquidity}
use solana_auditor_skill.Reserve.Liquidity.{total_supply, repay, accumulate_early_repay_penalty}

-- The assets and the claims of others on them, at the scale of a fraction.
abbrev pub assets : ReserveLiquidity → ℕ
assets l = l.total_available_amount * one + l.borrowed_amount_sf

abbrev pub fees_owed : ReserveLiquidity → ℕ
fees_owed l =
    l.accumulated_protocol_fees_sf + l.accumulated_referrer_fees_sf + l.pending_referrer_fees_sf

-- The amounts fit, and the fees that are owed are covered.
pub record IsSolvent (l : ReserveLiquidity) : Type 0 where
  pub available_fits : l.total_available_amount < 2 ^ 64
  pub borrowed_fits : l.borrowed_amount_sf < 2 ^ 127
  pub covered : fees_owed l ≤ assets l

abbrev pub supply : ReserveLiquidity → ℕ
supply l = assets l - fees_owed l

module _ ⦃n : Numerics⦄ (d : IsDocumented n) where
  -- Of a solvent reserve the supply is defined.
  pub total_supply_lem : (l : ReserveLiquidity) → IsSolvent l → total_supply l ≡ ok (supply l)
  unfolding total_supply
  total_supply_lem l s = rw (exact_unique n d) (ground arith)

  -- A repayment that is at least the settled debt, as `calculate_repay` makes it, lowers no supply: it
  -- rises by the amount paid less the debt settled.
  pub repay-supply :
      (l : ReserveLiquidity) (repay_amount settle_amount : ℕ)
      → IsSolvent l
      → l.total_available_amount + repay_amount < 2 ^ 64
      → settle_amount ≤ repay_amount * one
      → (l' : ReserveLiquidity) × (repay l repay_amount settle_amount ≡ ok l')
        × IsSolvent l'
        × (supply l' + min settle_amount l.borrowed_amount_sf ≡ supply l + repay_amount * one)
        × (l'.borrowed_amount_sf ≡ l.borrowed_amount_sf - settle_amount)
  unfolding repay
  repay-supply l repay_amount settle_amount s fits enough = (
    record l {
      total_available_amount = l.total_available_amount + repay_amount;
      borrowed_amount_sf = l.borrowed_amount_sf - min settle_amount l.borrowed_amount_sf;
    },
    rw (exact_unique n d) (ground arith),
    omega (arith, s.covered, s.borrowed_fits),
    omega (arith, s.covered),
    omega arith,
  )

  -- An early repayment penalty of a solvent reserve, where the total fits, goes to the protocol's
  -- fees in full and leaves the depositors' supply as it was; the reserve stays solvent.
  pub accumulate_early_repay_penalty-supply :
      (l : ReserveLiquidity) (penalty : ℕ)
      → IsSolvent l
      → l.total_available_amount + penalty < 2 ^ 64
      → (l' : ReserveLiquidity) × (accumulate_early_repay_penalty l penalty ≡ ok l')
        × IsSolvent l'
        × (supply l' ≡ supply l)
        × (l'.accumulated_protocol_fees_sf ≡ l.accumulated_protocol_fees_sf + penalty * one)
  unfolding accumulate_early_repay_penalty
  accumulate_early_repay_penalty-supply l penalty s fits = (
    record l {
      total_available_amount = l.total_available_amount + penalty;
      accumulated_protocol_fees_sf = l.accumulated_protocol_fees_sf + penalty * one;
    },
    rw (exact_unique n d) (ground arith),
    omega (arith, s.covered, s.borrowed_fits),
    omega arith,
    refl,
  )
