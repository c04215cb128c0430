-- ===== src/RateCurve.antt =====
-- klend/programs/klend/src/utils/borrow_rate_curve.rs: the piecewise linear borrow rate of a reserve.
-- The array of eleven points is a list, whose length is part of `IsValid`.
pub mod Validity
pub mod Segment
pub mod Rate
pub mod Correct
use solana_auditor_skill.Prelude.{
  ℕ, suc, ◌+◌, ◌-◌, ◌*◌, ◌≡◌, Bool, true, false, not, ◌&&◌, Option, none, some, List, [], ◌∷◌, ◌++◌,
  ltb, leb, ◌==◌, if◌then◌else◌, length, get_elem?, replicate,
}
use solana_auditor_skill.Outcome.{
  Outcome, ok, err, panic, ◌>>=◌, ◌>>◌, unwrap, ok_or, refuse_if, checked_sub, sub_int,
}
use solana_auditor_skill.Errors.{invalid_borrow_rate_curve_point, invalid_utilization_rate}
use solana_auditor_skill.Numerics.{Numerics, one}
use solana_auditor_skill.Fraction.{from_bps, to_bps}

abbrev pub max_utilization_rate_bps : ℕ
max_utilization_rate_bps = 10_000

pub record CurvePoint : Type 0 where
  pub utilization_rate_bps : ℕ
  pub borrow_rate_bps : ℕ

pub record CurveSegment : Type 0 where
  pub slope_nom : ℕ
  pub slope_denom : ℕ
  pub start_point : CurvePoint

pub record BorrowRateCurve : Type 0 where
  pub points : List CurvePoint

-- `CurveSegment::from_points`
unfoldable pub segment_from_points : CurvePoint → CurvePoint → Outcome CurveSegment
segment_from_points start end = do
  slope_nom ←
      ok_or (checked_sub end.borrow_rate_bps start.borrow_rate_bps) invalid_borrow_rate_curve_point
  refuse_if (leb end.utilization_rate_bps start.utilization_rate_bps)
      invalid_borrow_rate_curve_point
  slope_denom ← unwrap (checked_sub end.utilization_rate_bps start.utilization_rate_bps)
  ok (record { slope_nom = slope_nom; slope_denom = slope_denom; start_point = start })

-- The check of two neighbours in the loop of `validate`.
unfoldable pub check_neighbours : CurvePoint → CurvePoint → Outcome (Unit {0})
check_neighbours last_pt pt = do
  if last_pt.utilization_rate_bps == max_utilization_rate_bps
      then refuse_if (not (pt.utilization_rate_bps == max_utilization_rate_bps))
          invalid_borrow_rate_curve_point
      else refuse_if (leb pt.utilization_rate_bps last_pt.utilization_rate_bps)
          invalid_borrow_rate_curve_point
  refuse_if (ltb pt.borrow_rate_bps last_pt.borrow_rate_bps) invalid_borrow_rate_curve_point

unfoldable pub validate_from : CurvePoint → List CurvePoint → Outcome (Unit {0})
validate_from last_pt [] = ok tt
validate_from last_pt (pt ∷ pts) = check_neighbours last_pt pt >> validate_from pt pts

-- The loop over all the points but the first.
unfoldable pub validate_sorted : List CurvePoint → Outcome (Unit {0})
unfolding validate_from
validate_sorted [] = panic
validate_sorted (pt ∷ pts) = validate_from pt pts

unfoldable pub validate : BorrowRateCurve → Outcome (Unit {0})
unfolding validate_sorted
validate c = do
  first ← unwrap (get_elem? c.points 0)
  refuse_if (not (first.utilization_rate_bps == 0)) invalid_borrow_rate_curve_point
  last ← unwrap (get_elem? c.points 10)
  refuse_if (not (last.utilization_rate_bps == max_utilization_rate_bps))
      invalid_borrow_rate_curve_point
  validate_sorted c.points

abbrev pub last? : List CurvePoint → Option CurvePoint
last? [] = none
last? (p ∷ []) = some p
last? (p ∷ q ∷ ps) = last? (q ∷ ps)

unfoldable pub from_points : List CurvePoint → Outcome BorrowRateCurve
from_points pts = do
  refuse_if (ltb (length pts) 2) invalid_borrow_rate_curve_point
  refuse_if (ltb 11 (length pts)) invalid_borrow_rate_curve_point
  last ← unwrap (last? pts)
  refuse_if (not (last.utilization_rate_bps == max_utilization_rate_bps))
      invalid_borrow_rate_curve_point
  let curve : BorrowRateCurve = record { points = pts ++ replicate (11 - length pts) last }
  validate curve
  ok curve

abbrev pub point : ℕ → ℕ → CurvePoint
point utilization rate = record { utilization_rate_bps = utilization; borrow_rate_bps = rate }

-- `.unwrap()` of a result: an error is a panic.
abbrev pub unwrap_result {ℓ} : {A : Type ℓ} → Outcome A → Outcome A
unwrap_result (ok a) = ok a
unwrap_result (err e) = panic
unwrap_result panic = panic

unfoldable pub new_flat : ℕ → Outcome BorrowRateCurve
new_flat rate =
    unwrap_result (from_points (point 0 rate ∷ point max_utilization_rate_bps rate ∷ []))

unfoldable pub from_legacy_parameters : ℕ → ℕ → ℕ → ℕ → Outcome BorrowRateCurve
from_legacy_parameters optimal_utilization_rate_pct base_rate_pct optimal_rate_pct max_rate_pct =
    let optimal_utilization_rate = optimal_utilization_rate_pct * 100 in
    let base_rate = base_rate_pct * 100 in
    let optimal_rate = optimal_rate_pct * 100 in
    let max_rate = max_rate_pct * 100 in
    unwrap_result (
      from_points (
        if optimal_utilization_rate == 0
        then point 0 optimal_rate ∷ point max_utilization_rate_bps max_rate ∷ []
        else if optimal_utilization_rate == max_utilization_rate_bps
        then point 0 base_rate ∷ point max_utilization_rate_bps optimal_rate ∷ []
        else point 0 base_rate
          ∷ point optimal_utilization_rate optimal_rate
          ∷ point max_utilization_rate_bps max_rate
          ∷ []))

-- `windows(2)` and `find`: the first two neighbours between which the utilization lies.
unfoldable pub find_segment : ℕ → List CurvePoint → Option (CurvePoint × CurvePoint)
find_segment bps [] = none
find_segment bps (p ∷ []) = none
find_segment bps (p ∷ q ∷ ps) =
    if leb p.utilization_rate_bps bps && leb bps q.utilization_rate_bps
    then some (p, q)
    else find_segment bps (q ∷ ps)

module _ ⦃n : Numerics⦄ where
  -- `CurveSegment::get_borrow_rate`
  unfoldable pub segment_borrow_rate : CurveSegment → ℕ → Outcome ℕ
  segment_borrow_rate s utilization_rate = do
    start_utilization_rate ← from_bps s.start_point.utilization_rate_bps
    coef ← ok_or (n.checked_sub utilization_rate start_utilization_rate) invalid_utilization_rate
    nom ← n.mul_by_int coef s.slope_nom
    base_rate ← n.div_by_int nom s.slope_denom
    offset ← from_bps s.start_point.borrow_rate_bps
    n.add base_rate offset

  -- What `get_borrow_rate` does with the segment that it found.
  unfoldable pub rate_between : ℕ → ℕ → CurvePoint → CurvePoint → Outcome ℕ
  rate_between bps utilization_rate start end =
      if bps == start.utilization_rate_bps
      then from_bps start.borrow_rate_bps
      else if bps == end.utilization_rate_bps
      then from_bps end.borrow_rate_bps
      else (segment_from_points start end >>= λ segment.
          segment_borrow_rate segment utilization_rate)

  -- `BorrowRateCurve::get_borrow_rate`
  unfoldable pub get_borrow_rate : BorrowRateCurve → ℕ → Outcome ℕ
  get_borrow_rate c utilization =
      let utilization_rate = if ltb one utilization then one else utilization in
      (to_bps 32 utilization_rate >>= λ bps?. unwrap bps? >>= λ bps.
      unwrap (find_segment bps c.points) >>= λ segment.
      rate_between bps utilization_rate segment.0 segment.1)
