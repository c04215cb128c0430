-- ===== src/Tests/Curves.antt =====
-- The borrow rate curve.
use solana_auditor_skill.Prelude.{
  ℕ, ◌*◌, ◌/◌, ◌≤◌, ◌≡◌, ◌↔◌, ◌++◌, ◌∷◌, [], length, replicate, refl, arith,
}
use solana_auditor_skill.Outcome.{ok}
use solana_auditor_skill.Numerics.{one}
use solana_auditor_skill.Numerics.Exact.{exact, exact-IsDocumented}
use solana_auditor_skill.RateCurve.{
  get_borrow_rate, validate, validate_from, check_neighbours, from_points, point,
}
use solana_auditor_skill.RateCurve.Validity.{IsValid, validate_iff}
use solana_auditor_skill.RateCurve.Segment.{from}
use solana_auditor_skill.RateCurve.Rate.{FitWord}
use solana_auditor_skill.RateCurve.Correct.{
  get_borrow_rate_bounds, get_borrow_rate_mono, from_points-IsValid,
}
use solana_auditor_skill.Tests.Samples.{steep}

steep-valid : validate steep ≡ ok tt
unfolding validate validate_from check_neighbours
steep-valid = refl

steep-FitWord : FitWord steep.points
steep-FitWord = ground arith

get_borrow_rate_bounds_example :
    (r : ℕ) × (get_borrow_rate ⦃n = exact⦄ steep (one * 9 / 10) ≡ ok r)
    × (from 100 ≤ r)
    × (r ≤ from 8_000)
get_borrow_rate_bounds_example =
    get_borrow_rate_bounds ⦃n = exact⦄ exact-IsDocumented steep steep-valid steep-FitWord
      (one * 9 / 10) refl refl

get_borrow_rate_mono_example :
    (r r' : ℕ) × (get_borrow_rate ⦃n = exact⦄ steep (one / 2) ≡ ok r)
    × (get_borrow_rate ⦃n = exact⦄ steep (one * 9 / 10) ≡ ok r')
    × (r ≤ r')
get_borrow_rate_mono_example =
    get_borrow_rate_mono ⦃n = exact⦄ exact-IsDocumented steep steep-valid steep-FitWord (one / 2)
      (one * 9 / 10) (omega arith)

validate_iff_example : (validate steep ≡ ok tt) ↔ IsValid steep
validate_iff_example = validate_iff steep

built : from_points (point 0 100 ∷ point 8_000 1_000 ∷ point 10_000 8_000 ∷ []) ≡ ok steep
unfolding from_points validate validate_from check_neighbours
built = refl

from_points-IsValid_example :
    IsValid steep
    × (length steep.points ≡ 11)
    × (steep.points
        ≡ (point 0 100 ∷ point 8_000 1_000 ∷ point 10_000 8_000 ∷ [])
          ++ replicate 8 (point 10_000 8_000))
from_points-IsValid_example =
    from_points-IsValid (point 0 100 ∷ point 8_000 1_000 ∷ point 10_000 8_000 ∷ [])
      (point 10_000 8_000) refl built
