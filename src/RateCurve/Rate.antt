-- ===== src/RateCurve/Rate.antt =====
-- The rate of a whole curve: it is defined at every utilization, lies between the rates of the first and
-- the last point, and does not fall as the utilization grows.
use solana_auditor_skill.Prelude.{
  ℕ, suc, zero, ◌^◌, ◌≤◌, ◌<◌, ◌≡◌, arith, if◌then◌else◌, leb, ltb, inl, inr, List, [], ◌∷◌, All,
  get_elem?, some,
}
use solana_auditor_skill.Outcome.{ok, ◌>>=◌, unwrap}
use solana_auditor_skill.Numerics.{Numerics, IsDocumented, one}
use solana_auditor_skill.Numerics.Exact.{exact_unique}
use solana_auditor_skill.Fraction.{to_bps}
use solana_auditor_skill.RateCurve.{CurvePoint, rate_between, find_segment, get_borrow_rate, last?}
use solana_auditor_skill.RateCurve.Validity.{IsRising, HasMax, IsMax, IsValid}
use solana_auditor_skill.RateCurve.Segment.{
  bps_of, from, segment_value, segment_value_bounds, segment_value_mono, rate_between_lem,
}

-- The rates are `u32`s.
abbrev pub FitWord : List CurvePoint → Type 0
FitWord = All (λ p. p.borrow_rate_bps < 2 ^ 32)

-- The rate as a recursion on the points: that of the first segment that ends at or above `u`.
abbrev pub curve_value : ℕ → CurvePoint → List CurvePoint → ℕ
curve_value u p [] = from p.borrow_rate_bps
curve_value u p (q ∷ qs) =
    if leb (bps_of u) q.utilization_rate_bps then segment_value u p q else curve_value u q qs

last_rate : CurvePoint → List CurvePoint → ℕ
last_rate p [] = p.borrow_rate_bps
last_rate p (q ∷ qs) = last_rate q qs

get_elem?-HasMax :
    (i : ℕ) (p : CurvePoint) (ps : List CurvePoint) → IsMax (get_elem? (p ∷ ps) i) → HasMax p ps
get_elem?-HasMax zero p [] h = h
get_elem?-HasMax (suc i) p [] h = absurd h
get_elem?-HasMax zero p (q ∷ qs) h = inl h
get_elem?-HasMax (suc i) p (q ∷ qs) h = inr (get_elem?-HasMax i q qs h)

-- On a rising curve no utilization is above the full one.
full-le :
    (p : CurvePoint) (ps : List CurvePoint)
    → IsRising p ps
    → HasMax p ps
    → p.utilization_rate_bps ≤ 10_000
full-le p [] r h = omega arith
full-le p (q ∷ qs) (f, r) h = ground (arith, full-le q qs r, f.utilization)

last-ge :
    (p : CurvePoint) (ps : List CurvePoint) → IsRising p ps → p.borrow_rate_bps ≤ last_rate p ps
unfolding last_rate
last-ge p [] r = omega arith
last-ge p (q ∷ qs) (f, r) = omega (arith, f.rate, last-ge q qs r)

-- The code's search and interpolation give the recursive rate.
search_lem :
    ⦃n : Numerics⦄ (l : IsDocumented n) (u : ℕ) (p q : CurvePoint) (qs : List CurvePoint)
    → IsRising p (q ∷ qs)
    → HasMax p (q ∷ qs)
    → FitWord (q ∷ qs)
    → p.utilization_rate_bps ≤ bps_of u
    → bps_of u ≤ 10_000
    → (unwrap (find_segment (bps_of u) (p ∷ q ∷ qs)) >>= λ s. rate_between (bps_of u) u s.0 s.1)
      ≡ ok (curve_value u p (q ∷ qs))
unfolding find_segment
search_lem l u p q [] (f, r) h w lo hi =
    ground (arith, rate_between_lem l u p q f, w.0, f.utilization)
search_lem l u p q (q' ∷ qs) (f, r) h w lo hi = ground (
  arith,
  rate_between_lem l u p q f,
  w.0,
  f.utilization,
  full-le q (q' ∷ qs) r,
  search_lem l u q q' qs r,
)

-- The rate lies between those of the first point and of every point from which on it is full.
curve_value_bounds :
    (u : ℕ) (p q : CurvePoint) (qs : List CurvePoint)
    → IsRising p (q ∷ qs)
    → HasMax p (q ∷ qs)
    → p.utilization_rate_bps ≤ bps_of u
    → bps_of u ≤ 10_000
    → (from p.borrow_rate_bps ≤ curve_value u p (q ∷ qs))
      × (curve_value u p (q ∷ qs) ≤ from (last_rate p (q ∷ qs)))
unfolding last_rate
curve_value_bounds u p q [] (f, r) h lo hi =
    ground (arith, segment_value_bounds u p q f lo, f.utilization)
curve_value_bounds u p q (q' ∷ qs) (f, r) h lo hi = ground (
  arith,
  segment_value_bounds u p q f lo,
  f.utilization,
  f.rate,
  full-le q (q' ∷ qs) r,
  last-ge q (q' ∷ qs) r,
  curve_value_bounds u q q' qs r,
)

curve_value_mono :
    (u v : ℕ) (p q : CurvePoint) (qs : List CurvePoint)
    → IsRising p (q ∷ qs)
    → HasMax p (q ∷ qs)
    → p.utilization_rate_bps ≤ bps_of u
    → u ≤ v
    → bps_of v ≤ 10_000
    → curve_value u p (q ∷ qs) ≤ curve_value v p (q ∷ qs)
curve_value_mono u v p q [] (f, r) h lo uv hi =
    ground (arith, segment_value_mono u v p q f lo, f.utilization)
curve_value_mono u v p q (q' ∷ qs) (f, r) h lo uv hi = ground (
  arith,
  segment_value_mono u v p q f lo,
  segment_value_bounds u p q f lo,
  curve_value_bounds v q q' qs r,
  f.utilization,
  f.rate,
  full-le q (q' ∷ qs) r,
  curve_value_mono u v q q' qs r,
)

-- Utilizations above the full one count as full.
abbrev pub capped : ℕ → ℕ
capped u = if ltb one u then one else u

abbrev pub value_of : ℕ → List CurvePoint → ℕ
value_of u [] = 0
value_of u (p ∷ ps) = curve_value (capped u) p ps

to_bps_lem :
    ⦃n : Numerics⦄ (l : IsDocumented n) (u : ℕ) → u ≤ one → to_bps 32 u ≡ ok (some (bps_of u))
unfolding to_bps
to_bps_lem ⦃n⦄ l u h = rw (exact_unique n l) (ground arith)

pub get_borrow_rate_at :
    ⦃n : Numerics⦄ (l : IsDocumented n) (u : ℕ) (ps : List CurvePoint)
    → IsValid (record { points = ps })
    → FitWord ps
    → get_borrow_rate (record { points = ps }) u ≡ ok (value_of u ps)
unfolding get_borrow_rate
get_borrow_rate_at l u [] v w = absurd v.0
get_borrow_rate_at l u (p ∷ []) v w = absurd v.1
get_borrow_rate_at l u (p ∷ q ∷ qs) ((start, rising), m) w =
    rw (to_bps_lem l (capped u) (ground arith)) (
      search_lem l (capped u) p q qs rising (get_elem?-HasMax 10 p (q ∷ qs) m) w.1 (ground arith)
        (ground arith))

last?-last_rate :
    (p : CurvePoint) (ps : List CurvePoint) {m : CurvePoint}
    → last? (p ∷ ps) ≡ some m
    → last_rate p ps ≡ m.borrow_rate_bps
unfolding last_rate
last?-last_rate p [] e = ground arith
last?-last_rate p (q ∷ qs) e = last?-last_rate q qs e

pub value_of_bounds :
    (u : ℕ) (ps : List CurvePoint) {first last : CurvePoint}
    → IsValid (record { points = ps })
    → get_elem? ps 0 ≡ some first
    → last? ps ≡ some last
    → (from first.borrow_rate_bps ≤ value_of u ps) × (value_of u ps ≤ from last.borrow_rate_bps)
value_of_bounds u [] v e f = absurd v.0
value_of_bounds u (p ∷ []) v e f = absurd v.1
value_of_bounds u (p ∷ q ∷ qs) ((start, rising), m) e f = ground (
  arith,
  last?-last_rate p (q ∷ qs) f,
  curve_value_bounds (capped u) p q qs rising (get_elem?-HasMax 10 p (q ∷ qs) m),
)

pub value_of_mono :
    (u u' : ℕ) (ps : List CurvePoint)
    → IsValid (record { points = ps })
    → u ≤ u'
    → value_of u ps ≤ value_of u' ps
value_of_mono u u' [] v h = absurd v.0
value_of_mono u u' (p ∷ []) v h = absurd v.1
value_of_mono u u' (p ∷ q ∷ qs) ((start, rising), m) h =
    curve_value_mono (capped u) (capped u') p q qs rising (get_elem?-HasMax 10 p (q ∷ qs) m)
      (omega arith) (ground arith) (ground arith)
