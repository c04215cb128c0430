-- ===== src/RateCurve/Validity.antt =====
-- What `validate` and `from_points` accept.
use solana_auditor_skill.Prelude.{
  ℕ, ◌<◌, ◌≤◌, ◌≡◌, ◌≢◌, ◌⊎◌, ◌↔◌, inl, inr, Option-cases, some, none, List, [], ◌∷◌, refl, arith,
  get_elem?, Option,
}
use solana_auditor_skill.Outcome.{ok}
use solana_auditor_skill.RateCurve.{
  CurvePoint, BorrowRateCurve, max_utilization_rate_bps, check_neighbours, validate_from, validate,
}

-- From a point to the next: after full utilization only full utilization follows, before it the
-- utilization rises; the rate does not fall.
pub record Follows (p q : CurvePoint) : Type 0 where
  pub utilization :
      ((p.utilization_rate_bps ≡ max_utilization_rate_bps)
        × (q.utilization_rate_bps ≡ max_utilization_rate_bps))
      ⊎ ((p.utilization_rate_bps ≢ max_utilization_rate_bps)
          × (p.utilization_rate_bps < q.utilization_rate_bps))
  pub rate : p.borrow_rate_bps ≤ q.borrow_rate_bps

abbrev pub IsRising : CurvePoint → List CurvePoint → Type 0
IsRising p [] = Unit
IsRising p (q ∷ qs) = Follows p q × IsRising q qs

-- Somewhere the points reach full utilization.
abbrev pub HasMax : CurvePoint → List CurvePoint → Type 0
HasMax p [] = p.utilization_rate_bps ≡ max_utilization_rate_bps
HasMax p (q ∷ qs) = (p.utilization_rate_bps ≡ max_utilization_rate_bps) ⊎ HasMax q qs

abbrev pub StartsAt : ℕ → List CurvePoint → Type 0
StartsAt u [] = ⊥
StartsAt u (p ∷ ps) = (p.utilization_rate_bps ≡ u) × IsRising p ps

abbrev pub IsMax : Option CurvePoint → Type 0
IsMax none = ⊥
IsMax (some p) = p.utilization_rate_bps ≡ max_utilization_rate_bps

-- The first point is at 0, the eleventh at full utilization, and the points rise.
abbrev pub IsValid : BorrowRateCurve → Type 0
IsValid c = StartsAt 0 c.points × IsMax (get_elem? c.points 10)

check_neighbours_iff : (p q : CurvePoint) → (check_neighbours p q ≡ ok tt) ↔ Follows p q
unfolding check_neighbours
check_neighbours_iff p q = (λ e. ground arith, λ f. ground arith)

validate_from_iff :
    (p : CurvePoint) (ps : List CurvePoint) → (validate_from p ps ≡ ok tt) ↔ IsRising p ps
unfolding validate_from
validate_from_iff p [] = (λ e. tt, λ r. refl)
validate_from_iff p (q ∷ qs) =
    let first = check_neighbours_iff p q in
    let rest = validate_from_iff q qs in
    (λ e. ground (arith, first, rest), λ r. rw (first.1 r.0) (rest.1 r.1))

validate_points_iff :
    (p : CurvePoint) (ps : List CurvePoint)
    → (validate (record { points = p ∷ ps }) ≡ ok tt) ↔ IsValid (record { points = p ∷ ps })
unfolding validate
validate_points_iff p ps =
    let rest = validate_from_iff p ps in
    elim (Option-cases (get_elem? ps 9)) [
      | inl e ↦ rw e (ground arith)
      | inr (l, e) ↦ rw e (ground (arith, rest))
    ]

-- `validate` succeeds exactly on the curves that start at zero utilization, have full utilization
-- at the eleventh point, and rise from point to point.
pub validate_iff : (c : BorrowRateCurve) → (validate c ≡ ok tt) ↔ IsValid c
validate_iff c = go c.points
  where
    go :
        (ps : List CurvePoint)
        → (validate (record { points = ps }) ≡ ok tt) ↔ IsValid (record { points = ps })
    go [] = unfold validate in (λ e. cc, λ v. absurd v.0)
    go (p ∷ ps) = validate_points_iff p ps
