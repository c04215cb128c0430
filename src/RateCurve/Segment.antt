-- ===== src/RateCurve/Segment.antt =====
-- The rate between two neighbours.
use solana_auditor_skill.Prelude.{
  ℕ, ◌+◌, ◌-◌, ◌*◌, ◌/◌, ◌^◌, ◌≤◌, ◌<◌, ◌≡◌, arith, ◌==◌, if◌then◌else◌,
}
use native.Mathlib.Nat.{mul-le-mul, le_refl}
use solana_auditor_skill.Prelude.Division.{div_bounds, le_of_mul-le, div_mono}
use solana_auditor_skill.Outcome.{ok, ◌>>=◌}
use solana_auditor_skill.Numerics.{Numerics, IsDocumented, one}
use solana_auditor_skill.Numerics.Exact.{exact_unique}
use solana_auditor_skill.Fraction.{from_bps}
use solana_auditor_skill.Fraction.Rounding.{from_bps_lem}
use solana_auditor_skill.RateCurve.{
  CurvePoint, rate_between, segment_borrow_rate, segment_from_points,
}
use solana_auditor_skill.RateCurve.Validity.{Follows}

-- A utilization in whole basis points, to the nearest.
abbrev pub bps_of : ℕ → ℕ
bps_of u = (u * 10_000 + one / 2) / one

-- Basis points as a fraction.
abbrev pub from : ℕ → ℕ
from bps = bps * one / 10_000

abbrev pub slope_part : ℕ → CurvePoint → CurvePoint → ℕ
slope_part u p q =
    (u - from p.utilization_rate_bps)
    * (q.borrow_rate_bps - p.borrow_rate_bps)
    / (q.utilization_rate_bps - p.utilization_rate_bps)

abbrev pub segment_value : ℕ → CurvePoint → CurvePoint → ℕ
segment_value u p q =
    if bps_of u == p.utilization_rate_bps
    then from p.borrow_rate_bps
    else if bps_of u == q.utilization_rate_bps
    then from q.borrow_rate_bps
    else slope_part u p q + from p.borrow_rate_bps

-- Between the points the slope adds no more than the difference of their rates.
slope_part-le_from : (c d r : ℕ) → 0 < d → c * 10_000 ≤ d * one → c * r / d ≤ from r
slope_part-le_from c d r p h =
    let quotient = div_bounds (c * r) d p in
    let scaled = mul-le-mul h (le_refl r) in
    let le : c * r / d * 10_000 ≤ r * one = le_of_mul-le _ _ d p (omega arith) in omega arith

module _ (u : ℕ) (p q : CurvePoint) (f : Follows p q) (lo : p.utilization_rate_bps < bps_of u)
    (hi : bps_of u < q.utilization_rate_bps) (full : q.utilization_rate_bps ≤ 10_000) where
  pub slope_part-le : slope_part u p q + from p.borrow_rate_bps ≤ from q.borrow_rate_bps
  slope_part-le =
      let slope =
        slope_part-le_from (u - from p.utilization_rate_bps)
          (q.utilization_rate_bps - p.utilization_rate_bps) (q.borrow_rate_bps - p.borrow_rate_bps)
          (omega arith) (omega arith) in
      omega (arith, f.rate)

module _ (u : ℕ) (p q : CurvePoint) (f : Follows p q) (lo : p.utilization_rate_bps ≤ bps_of u)
    (hi : bps_of u ≤ q.utilization_rate_bps) (full : q.utilization_rate_bps ≤ 10_000) where
  pub segment_value_bounds :
      (from p.borrow_rate_bps ≤ segment_value u p q)
      × (segment_value u p q ≤ from q.borrow_rate_bps)
  segment_value_bounds = ground (arith, slope_part-le u p q f, f.rate)

module _ ⦃n : Numerics⦄ (l : IsDocumented n) (u : ℕ) (p q : CurvePoint) (f : Follows p q)
    (full : q.utilization_rate_bps ≤ 10_000) (small : q.borrow_rate_bps < 2 ^ 32) where
  pub segment_borrow_rate_lem :
      p.utilization_rate_bps < bps_of u
      → bps_of u < q.utilization_rate_bps
      → (segment_from_points p q >>= λ s. segment_borrow_rate s u)
        ≡ ok (slope_part u p q + from p.borrow_rate_bps)
  unfolding segment_from_points segment_borrow_rate from_bps
  segment_borrow_rate_lem lo hi =
      let c = u - from p.utilization_rate_bps in
      let r = q.borrow_rate_bps - p.borrow_rate_bps in
      let near : c ≤ 2 ^ 60 = omega arith in
      let low : r ≤ 2 ^ 32 = omega arith in
      rw (exact_unique n l)
        (ground (arith, slope_part-le u p q f lo hi full, f.rate, mul-le-mul near low))

  -- What the code computes between two neighbours.
  pub rate_between_lem :
      p.utilization_rate_bps ≤ bps_of u
      → bps_of u ≤ q.utilization_rate_bps
      → rate_between (bps_of u) u p q ≡ ok (segment_value u p q)
  unfolding rate_between
  rate_between_lem lo hi = ground (
    arith,
    from_bps_lem l p.borrow_rate_bps,
    from_bps_lem l q.borrow_rate_bps,
    segment_borrow_rate_lem,
    f.rate,
  )

-- Between two neighbours the rate does not fall as the utilization grows.
pub segment_value_mono :
    (u v : ℕ) (p q : CurvePoint)
    → Follows p q
    → p.utilization_rate_bps ≤ bps_of u
    → bps_of v ≤ q.utilization_rate_bps
    → q.utilization_rate_bps ≤ 10_000
    → u ≤ v
    → segment_value u p q ≤ segment_value v p q
segment_value_mono u v p q f lo hi full h =
    let before = segment_value_bounds u p q f lo in
    let after = segment_value_bounds v p q f in
    let c = u - from p.utilization_rate_bps in
    let d = v - from p.utilization_rate_bps in
    let r = q.borrow_rate_bps - p.borrow_rate_bps in
    let closer : c ≤ d = omega arith in
    ground (
      arith,
      before,
      after,
      div_mono (c * r) (d * r) (q.utilization_rate_bps - p.utilization_rate_bps)
          (mul-le-mul closer (le_refl r)),
    )
