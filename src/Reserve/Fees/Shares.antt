-- ===== src/Reserve/Fees/Shares.antt =====
-- How a fee is shared.
use native.Mathlib.Nat.{mul-le-mul, le_refl}
use native.Mathlib.Decide.{ℕ_discrete}
use solana_auditor_skill.Prelude.{
  ℕ, ◌+◌, ◌-◌, ◌*◌, ◌^◌, ◌/◌, ◌≤◌, ◌<◌, ◌≡◌, Bool, true, false, arith, max, ltb, ◌==◌, ◌&&◌,
  if◌then◌else◌, refl, sym,
}
use solana_auditor_skill.Prelude.Division.{div_bounds, div_self_mul}
use solana_auditor_skill.Outcome.{ok, err, fit_lem}
use solana_auditor_skill.Errors.{borrow_too_small}
use solana_auditor_skill.Numerics.{Numerics, IsDocumented, one}
use solana_auditor_skill.Numerics.Exact.{exact, exact_unique, exact-IsDocumented}
use solana_auditor_skill.Fraction.{from_bps, to_floor, to_round}
use solana_auditor_skill.Reserve.Types.{FeeCalculation, exclusive, inclusive}
use solana_auditor_skill.Reserve.Fees.{origination_fee_amount, referral_part, calculate_fees}

abbrev pub fee_rate : ℕ → FeeCalculation → ℕ
fee_rate r exclusive = r
fee_rate r inclusive = r * one / (r + one)

-- The fee of an amount, none at a rate of zero and at least one token otherwise, and the nearest whole
-- number of tokens.
abbrev pub positive_fee : ℕ → ℕ → FeeCalculation → ℕ
positive_fee amount r k = max (amount * fee_rate r k / one) one

abbrev pub fee_of : ℕ → ℕ → FeeCalculation → ℕ
fee_of amount r k = if r == 0 then 0 else positive_fee amount r k

abbrev pub nearest : ℕ → ℕ
nearest f = (f + one / 2) / one

fee_rate-le : (r : ℕ) (k : FeeCalculation) → r ≤ one → fee_rate r k ≤ one
fee_rate-le r exclusive h = h
fee_rate-le r inclusive h = omega arith

origination_fee_amount_lem :
    ⦃n : Numerics⦄ (d : IsDocumented n) (amount r : ℕ) (k : FeeCalculation)
    → amount < 2 ^ 123
    → r ≤ one
    → origination_fee_amount amount r k ≡ ok (amount * fee_rate r k / one)
unfolding origination_fee_amount
origination_fee_amount_lem ⦃n⦄ d amount r exclusive h small =
    let bound = mul-le-mul h small in rw (exact_unique n d) (ground (arith, bound))
origination_fee_amount_lem ⦃n⦄ d amount r inclusive h small =
    let bound = mul-le-mul h (fee_rate-le r inclusive small) in
    rw (exact_unique n d) (ground (arith, bound, fee_rate-le r inclusive small))

-- The referrer's part of a fee of at least a token never exceeds the fee.
referral_part_lem :
    ⦃n : Numerics⦄ (d : IsDocumented n) (f bps : ℕ) (assessed : Bool)
    → f < 2 ^ 123
    → bps ≤ 10_000
    → (part : ℕ) × (referral_part f (nearest f) (bps * one / 10_000) bps assessed ≡ ok part)
      × (part ≤ nearest f)
      × (part * 10_000 * one ≤ f * bps + one * 10_000)
unfolding referral_part to_floor
referral_part_lem ⦃n⦄ d f bps false h small = (0, refl, omega arith, omega arith)
referral_part_lem ⦃n⦄ d f bps true h small = elim (ℕ_discrete bps 10_000) [
  | yes e ↦ (nearest f, ground (arith, e), omega arith, rw e (omega arith))
  | no e ↦
      let share = bps * one / 10_000 in
      let most : share ≤ one = omega arith in
      let bound = mul-le-mul (le_refl f) most in
      let scaled = mul-le-mul (le_refl f) (div_bounds (bps * one) 10_000 (omega arith)).0 in
      (
        f * share / one / one,
        rw (exact_unique n d) (ground (arith, bound, e)),
        omega (arith, bound),
        omega (arith, bound, scaled),
      )
]

positive_rate-shares :
    ⦃n : Numerics⦄ (d : IsDocumented n) (amount r : ℕ) (k : FeeCalculation) (bps : ℕ)
    (referred : Bool)
    → 0 < amount
    → amount < 2 ^ 123
    → 0 < r
    → r ≤ one
    → bps ≤ 10_000
    → positive_fee amount r k < amount
    → (protocol referrer : ℕ) × (calculate_fees amount r k bps referred ≡ ok (protocol, referrer))
      × (protocol + referrer ≡ nearest (positive_fee amount r k))
      × (referrer * 10_000 * one ≤ positive_fee amount r k * bps + one * 10_000)
unfolding calculate_fees from_bps to_round
positive_rate-shares ⦃n⦄ d amount r k bps referred pos h rpos rsmall bsmall less =
    let f = positive_fee amount r k in
    let rate = bps * one / 10_000 in
    let (part, paid, most, fair) =
      referral_part_lem ⦃n = exact⦄ exact-IsDocumented f bps (ltb 0 rate && referred) (omega arith)
        bsmall in
    (
      nearest f - part,
      part,
      rw
          (
            exact_unique n d,
            fit_lem 128 (bps * one) (omega arith),
            origination_fee_amount_lem ⦃n = exact⦄ exact-IsDocumented amount r k h rsmall,
            fit_lem 128 (nearest f * one) (omega arith),
            div_self_mul (nearest f) one (omega arith),
            fit_lem 64 (nearest f) (omega arith),
            paid,
          )
          (ground (arith, most, pos, rpos, less)),
      omega arith,
      fair,
    )

-- For an amount above its fee (a rate of at most 100%, an amount below 2^63 tokens, a referral
-- share of at most all), where the fee is nothing at a rate of zero and at least one token
-- otherwise, the fees are computed without overflow; the protocol and the referrer share exactly
-- the nearest whole number of tokens of the fee, and the referrer gets at most its share of the
-- fee and a token.
pub calculate_fees-shares :
    ⦃n : Numerics⦄ (d : IsDocumented n) (amount r : ℕ) (k : FeeCalculation) (bps : ℕ)
    (referred : Bool)
    → amount < 2 ^ 123
    → r ≤ one
    → bps ≤ 10_000
    → fee_of amount r k < amount
    → (protocol referrer : ℕ) × (calculate_fees amount r k bps referred ≡ ok (protocol, referrer))
      × (protocol + referrer ≡ nearest (fee_of amount r k))
      × (referrer * 10_000 * one ≤ fee_of amount r k * bps + one * 10_000)
unfolding calculate_fees from_bps
calculate_fees-shares ⦃n⦄ d amount r k bps referred h rsmall bsmall less = elim (ℕ_discrete r 0) [
  | yes free ↦ (
    0,
    0,
    rw (exact_unique n d, fit_lem 128 (bps * one) (omega arith), free) (ground arith),
    ground (arith, free),
    omega arith,
  )
  | no charged ↦
      let same : fee_of amount r k ≡ positive_fee amount r k = ground (arith, charged) in
      rw same (
        positive_rate-shares d amount r k bps referred (omega arith) h (ground (arith, charged))
          rsmall bsmall (rw (sym same) less))
]

-- An amount that does not exceed its fee is refused as `borrow_too_small`, for a positive amount
-- below 2^63 tokens and a positive rate of at most 100%.
pub calculate_fees-refused :
    ⦃n : Numerics⦄ (d : IsDocumented n) (amount r : ℕ) (k : FeeCalculation) (bps : ℕ)
    (referred : Bool)
    → 0 < amount
    → amount < 2 ^ 123
    → 0 < r
    → r ≤ one
    → bps ≤ 10_000
    → amount ≤ fee_of amount r k
    → calculate_fees amount r k bps referred ≡ err borrow_too_small
unfolding calculate_fees from_bps
calculate_fees-refused ⦃n⦄ d amount r k bps referred pos h rpos rsmall bsmall more =
    rw
      (
        exact_unique n d,
        fit_lem 128 (bps * one) (omega arith),
        origination_fee_amount_lem ⦃n = exact⦄ exact-IsDocumented amount r k h rsmall,
      )
      (ground (arith, pos, rpos, more))
