-- ===== src/RateCurve/Correct.antt =====
-- What the borrow rate curve promises to its callers.
use solana_auditor_skill.Prelude.{
  ℕ, ◌-◌, ◌*◌, ◌/◌, ◌^◌, ◌≤◌, ◌<◌, ◌≡◌, arith, List, [], ◌∷◌, ◌++◌, some, length, replicate,
  get_elem?, length-append, length-replicate, refl, ap,
}
use solana_auditor_skill.Outcome.{ok}
use solana_auditor_skill.Numerics.{Numerics, IsDocumented, one}
use solana_auditor_skill.RateCurve.{
  CurvePoint, BorrowRateCurve, get_borrow_rate, validate, from_points, new_flat, last?, point,
  validate_from, check_neighbours,
}
use solana_auditor_skill.RateCurve.Validity.{IsValid, validate_iff}
use solana_auditor_skill.RateCurve.Segment.{from}
use solana_auditor_skill.RateCurve.Rate.{
  FitWord, value_of, value_of_bounds, value_of_mono, get_borrow_rate_at,
}

module _ ⦃n : Numerics⦄ (l : IsDocumented n) (c : BorrowRateCurve) (v : validate c ≡ ok tt)
    (w : FitWord c.points) where
  -- On a curve that `validate` accepts, with rates that are `u32`s, the borrow rate is defined at
  -- every utilization, without error or panic, and lies between the rates of the first and of the
  -- last point.
  pub get_borrow_rate_bounds :
      (u : ℕ) {first last : CurvePoint}
      → get_elem? c.points 0 ≡ some first
      → last? c.points ≡ some last
      → (r : ℕ) × (get_borrow_rate c u ≡ ok r)
        × (from first.borrow_rate_bps ≤ r)
        × (r ≤ from last.borrow_rate_bps)
  get_borrow_rate_bounds u e f =
      let ok_curve = (validate_iff c).0 v in
      let (low, high) = value_of_bounds u c.points ok_curve e f in
      (value_of u c.points, get_borrow_rate_at l u c.points ok_curve w, low, high)

  -- On a curve that `validate` accepts, with rates that are `u32`s, the borrow rate is defined at
  -- every utilization and does not fall as the utilization grows.
  pub get_borrow_rate_mono :
      (u u' : ℕ)
      → u ≤ u'
      → (r r' : ℕ) × (get_borrow_rate c u ≡ ok r) × (get_borrow_rate c u' ≡ ok r') × (r ≤ r')
  get_borrow_rate_mono u u' h =
      let ok_curve = (validate_iff c).0 v in
      (
        value_of u c.points,
        value_of u' c.points,
        get_borrow_rate_at l u c.points ok_curve w,
        get_borrow_rate_at l u' c.points ok_curve w,
        value_of_mono u u' c.points ok_curve h,
      )

abbrev padded : List CurvePoint → CurvePoint → BorrowRateCurve
padded pts last = record { points = pts ++ replicate (11 - length pts) last }

-- What `from_points` has checked of a curve that it returns.
from_points-padded :
    (pts : List CurvePoint) {c : BorrowRateCurve} (last : CurvePoint)
    → last? pts ≡ some last
    → from_points pts ≡ ok c
    → (c ≡ padded pts last) × (validate (padded pts last) ≡ ok tt) × (length pts ≤ 11)
unfolding from_points
from_points-padded pts last f e = ground arith

-- A curve that `from_points` returns for a list of points with a last one is valid, has eleven
-- points, and consists of the given points and copies of the last one.
pub from_points-IsValid :
    (pts : List CurvePoint) {c : BorrowRateCurve} (last : CurvePoint)
    → last? pts ≡ some last
    → from_points pts ≡ ok c
    → IsValid c × (length c.points ≡ 11) × (c.points ≡ pts ++ replicate (11 - length pts) last)
from_points-IsValid pts last f e =
    let (same, checked, few) = from_points-padded pts last f e in
    rw same (
      (validate_iff (padded pts last)).0 checked,
      omega (
        arith,
        length-append pts (replicate (11 - length pts) last),
        length-replicate (11 - length pts) last,
      ),
      refl,
    )

abbrev flat : ℕ → BorrowRateCurve
flat rate = padded (point 0 rate ∷ point 10_000 rate ∷ []) (point 10_000 rate)

flat-valid : (rate : ℕ) → validate (flat rate) ≡ ok tt
unfolding validate validate_from check_neighbours
flat-valid rate = ground arith

-- A flat curve of a `u32` rate always exists, and its borrow rate is that rate at every
-- utilization.
new_flat_rate :
    ⦃n : Numerics⦄ (l : IsDocumented n) (rate : ℕ)
    → rate < 2 ^ 32
    → (c : BorrowRateCurve) × (new_flat rate ≡ ok c)
      × ((u : ℕ) → get_borrow_rate c u ≡ ok (rate * one / 10_000))
unfolding new_flat from_points
new_flat_rate l rate h = (
  flat rate,
  rw (flat-valid rate),
  λ u.
      let (r, e, low, high) =
        get_borrow_rate_bounds l (flat rate) (flat-valid rate) (omega arith) u refl refl in
      rw e (ap ok (omega arith)),
)
