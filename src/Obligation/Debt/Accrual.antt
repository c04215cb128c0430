-- ===== src/Obligation/Debt/Accrual.antt =====
-- The interest of a borrow.
use native.Mathlib.Nat.{mul-le-mul, le_refl}
use solana_auditor_skill.Prelude.{ℕ, ◌+◌, ◌-◌, ◌*◌, ◌/◌, ◌^◌, ◌≤◌, ◌<◌, ◌≡◌, arith, refl}
use solana_auditor_skill.Prelude.Division.{
  div_bounds, div_mono, le-div, le_of_mul-le, lt_of_mul-lt, div_self_mul,
}
use solana_auditor_skill.Outcome.{ok, ◌>>=◌}
use solana_auditor_skill.Numerics.{Numerics, IsDocumented}
use solana_auditor_skill.Numerics.Exact.{exact_unique}
use solana_auditor_skill.Obligation.Types.{ObligationLiquidity}
use solana_auditor_skill.Obligation.Debt.{calculate_amount_with_accrued_interest, accrue_interest}

-- An amount that grew with a rate from `a` to `b`.
abbrev pub grown : ℕ → ℕ → ℕ → ℕ
grown amount a b = amount * b / a

grown-le : (amount a b : ℕ) → 0 < a → a ≤ b → amount ≤ grown amount a b
grown-le amount a b pos h = le-div (amount * b) a amount pos (mul-le-mul (le_refl amount) h)

-- In two steps, the inner rounding is lost: at most what one step gives, and short of it by no more than
-- the growth of one bit in the second step, and a bit.
grown-steps :
    (amount a b c : ℕ)
    → 0 < a
    → 0 < b
    → (grown (grown amount a b) b c ≤ grown amount a c)
      × (grown amount a c ≤ grown (grown amount a b) b c + c / b + 1)
grown-steps amount a b c pa pb =
    let x = grown amount a b in
    let y = grown x b c in
    let z = grown amount a c in
    let first = div_bounds (amount * b) a pa in
    let second = div_bounds (x * c) b pb in
    let whole = div_bounds (amount * c) a pa in
    let rate = div_bounds c b pb in
    let scaled_second = mul-le-mul second.0 (le_refl a) in
    let scaled_first = mul-le-mul first.0 (le_refl c) in
    let under : y * a * b ≤ amount * c * b = omega (arith, scaled_second, scaled_first) in
    let over : x * c + c + 1 ≤ (y + c / b + 2) * b = omega (arith, second.1, rate.1) in
    let over_a = mul-le-mul over (le_refl a) in
    let above : amount * b ≤ x * a + a = omega (arith, first.1) in
    let above_c = mul-le-mul above (le_refl c) in
    let whole_b = mul-le-mul whole.0 (le_refl b) in
    (
      le-div (amount * c) a y pa (le_of_mul-le (y * a) (amount * c) b pb under),
      (let less =
            lt_of_mul-lt z (y + c / b + 2) (a * b) (omega (arith, whole_b, above_c, over_a, pa)) in
          omega (arith, less)),
    )

grown-same : (amount a b : ℕ) → 0 < a → b ≡ a → grown amount a b ≡ amount
grown-same amount a b pos same = rw same (div_self_mul amount a pos)

module _ ⦃n : Numerics⦄ (d : IsDocumented n) where
  calculate_amount-done :
      (amount former rate : ℕ)
      → 0 < former
      → amount * rate < 2 ^ 256
      → grown amount former rate < 2 ^ 128
      → calculate_amount_with_accrued_interest amount former rate ≡ ok (grown amount former rate)
  unfolding calculate_amount_with_accrued_interest
  calculate_amount-done amount former rate pos small fits = rw (exact_unique n d) (ground arith)

  pub accrue_interest-grows :
      (l : ObligationLiquidity) (rate : ℕ)
      → 0 < l.cumulative_borrow_rate_bsf
      → l.cumulative_borrow_rate_bsf ≤ rate
      → l.borrowed_amount_sf * rate < 2 ^ 256
      → grown l.borrowed_amount_sf l.cumulative_borrow_rate_bsf rate < 2 ^ 128
      → accrue_interest l rate
        ≡ ok (record l {
          borrowed_amount_sf = grown l.borrowed_amount_sf l.cumulative_borrow_rate_bsf rate;
          cumulative_borrow_rate_bsf = rate;
        })
  unfolding accrue_interest
  accrue_interest-grows l rate pos up small fits =
      rw
        (calculate_amount-done l.borrowed_amount_sf l.cumulative_borrow_rate_bsf rate pos small
          fits)
        (ground (arith, grown-same l.borrowed_amount_sf l.cumulative_borrow_rate_bsf rate pos))

  -- For rates that do not fall, that are positive and below 2^128, and a grown debt that fits its
  -- word, the interest of a borrow is collected in one step or in two with the same final rate:
  -- the debt does not fall, and two steps give at most what one gives and fall short of it by at
  -- most the growth of one bit in the second step and a bit.
  pub accrue_interest-steps :
      (l : ObligationLiquidity) (rate later : ℕ)
      → 0 < l.cumulative_borrow_rate_bsf
      → l.cumulative_borrow_rate_bsf ≤ rate
      → rate ≤ later
      → later < 2 ^ 128
      → grown l.borrowed_amount_sf l.cumulative_borrow_rate_bsf later < 2 ^ 128
      → (once twice : ObligationLiquidity) × (accrue_interest l later ≡ ok once)
        × ((accrue_interest l rate >>= λ m. accrue_interest m later) ≡ ok twice)
        × (l.borrowed_amount_sf ≤ twice.borrowed_amount_sf)
        × (twice.borrowed_amount_sf ≤ once.borrowed_amount_sf)
        × (once.borrowed_amount_sf ≤ twice.borrowed_amount_sf + later / rate + 1)
        × (twice.cumulative_borrow_rate_bsf ≡ later)
  accrue_interest-steps l rate later pos up on small fits =
      let a = l.cumulative_borrow_rate_bsf in
      let amount = l.borrowed_amount_sf in
      let middle = grown amount a rate in
      let posr : 0 < rate = omega (arith, pos, up) in
      let steps = grown-steps amount a rate later pos posr in
      let less : middle ≤ grown amount a later =
        div_mono (amount * rate) (amount * later) a (mul-le-mul (le_refl amount) on) in
      let bits : (m : ℕ) → m < 2 ^ 128 → m * later < 2 ^ 256 = λ m low.
        let m_most : m ≤ 2 ^ 128 - 1 = omega (arith, low) in
        let later_most : later ≤ 2 ^ 128 - 1 = omega (arith, small) in
        omega (arith, mul-le-mul m_most later_most) in
      let more = grown-le amount a rate pos up in
      let whole = grown-le amount a later pos (omega (arith, up, on)) in
      let more_later = grown-le middle rate later posr on in
      let small_rate : amount * rate < 2 ^ 256 =
        omega (arith, bits amount (omega (arith, whole, fits)), mul-le-mul (le_refl amount) on) in
      let m : ObligationLiquidity = record l {
        borrowed_amount_sf = middle;
        cumulative_borrow_rate_bsf = rate;
      } in
      (
        record l { borrowed_amount_sf = grown amount a later; cumulative_borrow_rate_bsf = later },
        record l {
          borrowed_amount_sf = grown middle rate later;
          cumulative_borrow_rate_bsf = later;
        },
        accrue_interest-grows l later pos (omega (arith, up, on))
            (bits amount (omega (arith, whole, fits))) fits,
        rw (accrue_interest-grows l rate pos up small_rate (omega (arith, less, fits))) (
            accrue_interest-grows m later posr on (bits middle (omega (arith, less, fits)))
              (omega (arith, steps.0, fits))),
        omega (arith, more, more_later),
        steps.0,
        steps.1,
        refl,
      )
