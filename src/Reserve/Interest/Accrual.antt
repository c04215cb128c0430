-- ===== src/Reserve/Interest/Accrual.antt =====
-- Who gets the interest.
use native.Mathlib.Nat.{mul-le-mul, le_refl}
use solana_auditor_skill.Prelude.{
  ℕ, ◌+◌, ◌-◌, ◌*◌, ◌^◌, ◌/◌, ◌≤◌, ◌<◌, ◌≡◌, arith, leb, if◌then◌else◌, refl,
}
use solana_auditor_skill.Prelude.Division.{div_mono, le-div, div_self_mul}
use solana_auditor_skill.Outcome.{ok, panic, fit_lem}
use solana_auditor_skill.Numerics.{Numerics, IsDocumented, one}
use solana_auditor_skill.Numerics.Exact.{exact, exact_unique, exact-IsDocumented}
use solana_auditor_skill.Fraction.{big_mul}
use solana_auditor_skill.Reserve.Types.{ReserveLiquidity}
use solana_auditor_skill.Reserve.Liquidity.Supply.{IsSolvent, supply, fees_owed}
use solana_auditor_skill.Reserve.Interest.{slots_per_year, compound_interest}
use solana_auditor_skill.Reserve.Interest.Series.{
  times, times_mono, compounded, compounded_mono, compounded-le, one_le_compounded,
  approximate_compounded_interest_lem,
}

-- At most a year at a rate of at most 1600%, shares of at most all, and a debt that leaves room.
pub record IsModest (l : ReserveLiquidity) (rate fixed k take referral : ℕ) : Type 0 where
  pub rates : rate + fixed ≤ 16 * one
  pub slots : k ≤ slots_per_year
  pub take_share : take ≤ one
  pub referral_share : referral ≤ one
  pub debt : l.borrowed_amount_sf ≤ 2 ^ 116
  pub cumulative : l.cumulative_borrow_rate_bsf < 2 ^ 186

grown : (a c : ℕ) → one ≤ c → a ≤ times a c
grown a c h = le-div (a * c) one a (omega arith) (mul-le-mul (le_refl a) h)

share : (a c : ℕ) → c ≤ one → times a c ≤ a
share a c h = omega (
  arith,
  div_mono (a * c) (a * one) one (mul-le-mul (le_refl a) h),
  div_self_mul a one (omega arith),
)

-- The parts of the interest, by the factors of the two rates.
abbrev debt_of : ReserveLiquidity → ℕ → ℕ
debt_of l total = times l.borrowed_amount_sf total

abbrev host_fee : ReserveLiquidity → ℕ → ℕ
host_fee l fixed = times l.borrowed_amount_sf fixed - l.borrowed_amount_sf

abbrev net : ReserveLiquidity → ℕ → ℕ → ℕ
net l total fixed = debt_of l total - l.borrowed_amount_sf - host_fee l fixed

abbrev accrued : ReserveLiquidity → (total fixed take referral : ℕ) → ReserveLiquidity
accrued l total fixed take referral = record l {
  cumulative_borrow_rate_bsf = times l.cumulative_borrow_rate_bsf total;
  pending_referrer_fees_sf =
      l.pending_referrer_fees_sf + times (net l total fixed) (times take referral);
  accumulated_protocol_fees_sf =
      l.accumulated_protocol_fees_sf
      + host_fee l fixed
      + times (net l total fixed) take
      - times (net l total fixed) (times take referral);
  borrowed_amount_sf = debt_of l total;
  absolute_referral_rate_sf = times take referral;
}

module _ (l : ReserveLiquidity) (s : IsSolvent l) (rate fixed k take referral : ℕ)
    (m : IsModest l rate fixed k take referral) where
  abbrev total_factor : ℕ
  total_factor = compounded ((rate + fixed) / slots_per_year) k

  abbrev fixed_factor : ℕ
  fixed_factor = compounded (fixed / slots_per_year) k

  -- What is left to show of the parts is linear in them.
  parts :
      (l.borrowed_amount_sf ≤ times l.borrowed_amount_sf fixed_factor)
      × (times l.borrowed_amount_sf fixed_factor ≤ debt_of l total_factor)
      × (debt_of l total_factor ≤ 2 ^ 126)
      × (times (net l total_factor fixed_factor) take ≤ net l total_factor fixed_factor)
      × (times (net l total_factor fixed_factor) (times take referral)
          ≤ times (net l total_factor fixed_factor) take)
      × (times take referral ≤ one)
  parts =
      let D = l.borrowed_amount_sf in
      let slower : fixed / slots_per_year ≤ (rate + fixed) / slots_per_year =
        div_mono fixed (rate + fixed) slots_per_year (omega arith) in
      let factors : fixed_factor ≤ total_factor =
        compounded_mono (fixed / slots_per_year) ((rate + fixed) / slots_per_year) k slower in
      let bounded : total_factor ≤ 1024 * one =
        compounded-le ((rate + fixed) / slots_per_year) k (omega (arith, m.rates)) m.slots in
      let few = share take referral m.referral_share in
      (
        grown D fixed_factor (one_le_compounded (fixed / slots_per_year) k),
        times_mono D fixed_factor D total_factor (le_refl D) factors,
        omega (arith, times_mono D total_factor (2 ^ 116) (1024 * one) m.debt bounded),
        share (net l total_factor fixed_factor) take m.take_share,
        times_mono (net l total_factor fixed_factor) (times take referral)
            (net l total_factor fixed_factor) take (le_refl (net l total_factor fixed_factor)) few,
        omega (arith, few, m.take_share),
      )

  sub_lem : (a b : ℕ) → b ≤ a → (if leb b a then ok (a - b) else panic) ≡ ok (a - b)
  sub_lem a b h = ground (arith, h)

  compound_interest_lem :
      ⦃n : Numerics⦄
      → IsDocumented n
      → compound_interest l rate fixed k take referral
        ≡ ok (accrued l total_factor fixed_factor take referral)
  unfolding compound_interest big_mul
  compound_interest_lem ⦃n⦄ d =
      let D = l.borrowed_amount_sf in
      let (up, within, fits, fee, part, few) = parts in
      let small : times D fixed_factor < 2 ^ 128 = omega arith in
      let cumulative =
        mul-le-mul m.cumulative
          (compounded-le ((rate + fixed) / slots_per_year) k (omega (arith, m.rates)) m.slots) in
      let host = host_fee l fixed_factor in
      let protocol = l.accumulated_protocol_fees_sf in
      let variable = times (net l total_factor fixed_factor) take in
      let refs = times (net l total_factor fixed_factor) (times take referral) in
      rw
        (
          exact_unique n d,
          fit_lem 128 (rate + fixed) (omega (arith, m.rates)),
          approximate_compounded_interest_lem ⦃n = exact⦄ exact-IsDocumented (rate + fixed) k
              m.rates m.slots,
          approximate_compounded_interest_lem ⦃n = exact⦄ exact-IsDocumented fixed k
              (omega (arith, m.rates)) m.slots,
          fit_lem 256 (l.cumulative_borrow_rate_bsf * total_factor)
              (omega (arith, cumulative, one_le_compounded ((rate + fixed) / slots_per_year) k)),
          fit_lem 128 (debt_of l total_factor) (omega arith),
          fit_lem 128 (times D fixed_factor) small,
          sub_lem (times D fixed_factor) D up,
          sub_lem (debt_of l total_factor) D (omega arith),
          sub_lem (debt_of l total_factor - D) host (omega arith),
          fit_lem 128 variable (omega arith),
          fit_lem 128 (times take referral) (omega arith),
          fit_lem 128 refs (omega arith),
          fit_lem 128 (protocol + host) (omega (arith, s.covered, s.available_fits)),
          fit_lem 128 (protocol + host + variable) (omega (arith, s.covered, s.available_fits)),
          sub_lem (protocol + host + variable) refs (omega arith),
          fit_lem 128 (l.pending_referrer_fees_sf + refs)
              (omega (arith, s.covered, s.available_fits)),
        )
        refl

  -- Of a solvent reserve, for at most a year at a rate of at most 1600%, with shares of at most
  -- all, a debt of at most 2^56 tokens and a cumulative rate below 2^126, compounding succeeds and
  -- accounts for the interest exactly: what the debt grows by is shared between the depositors and
  -- the fees, neither loses, the cumulative rate does not fall, and the reserve stays solvent.
  pub compound_interest-shares :
      ⦃n : Numerics⦄
      → IsDocumented n
      → (l' : ReserveLiquidity) × (compound_interest l rate fixed k take referral ≡ ok l')
        × IsSolvent l'
        × (supply l ≤ supply l')
        × (fees_owed l ≤ fees_owed l')
        × (supply l' + fees_owed l' + l.borrowed_amount_sf
            ≡ supply l + fees_owed l + l'.borrowed_amount_sf)
        × (l.cumulative_borrow_rate_bsf ≤ l'.cumulative_borrow_rate_bsf)
  compound_interest-shares d =
      let (up, within, fits, fee, part, few) = parts in
      (
        accrued l total_factor fixed_factor take referral,
        compound_interest_lem d,
        record {
          available_fits = s.available_fits;
          borrowed_fits = omega arith;
          covered = omega (arith, s.covered);
        },
        omega (arith, s.covered),
        omega arith,
        omega (arith, s.covered),
        grown l.cumulative_borrow_rate_bsf total_factor
            (one_le_compounded ((rate + fixed) / slots_per_year) k),
      )
