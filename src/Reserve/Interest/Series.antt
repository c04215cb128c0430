-- ===== src/Reserve/Interest/Series.antt =====
-- The compounded rate as a whole number, with its bounds.
use native.Mathlib.Nat.{mul-le-mul, le_refl}
use solana_auditor_skill.Prelude.{ℕ, ◌+◌, ◌-◌, ◌*◌, ◌/◌, ◌≤◌, ◌≡◌, arith, ◌==◌, if◌then◌else◌, refl}
use solana_auditor_skill.Prelude.Division.{div_mono}
use solana_auditor_skill.Outcome.{ok, fit_lem}
use solana_auditor_skill.Numerics.{Numerics, IsDocumented, one}
use solana_auditor_skill.Numerics.Exact.{exact, exact_unique, exact-IsDocumented}
use solana_auditor_skill.Reserve.Interest.{slots_per_year, series, approximate_compounded_interest}

-- A product of fractions.
abbrev pub times : ℕ → ℕ → ℕ
times a b = a * b / one

abbrev second_of : ℕ → ℕ → ℕ
second_of b k = times (b * k) b * (k - 1) / 2

abbrev third_of : ℕ → ℕ → ℕ
third_of b k = times (second_of b k) b * (k - 2) / 3

abbrev pub compounded : ℕ → ℕ → ℕ
compounded b k =
    if k == 0
    then one
    else if k == 1
    then one + b
    else if k == 2
    then times (one + b) (one + b)
    else if k == 3
    then times (times (one + b) (one + b)) (one + b)
    else if k == 4
    then times (times (one + b) (one + b)) (times (one + b) (one + b))
    else one + b * k + second_of b k + third_of b k

pub times_mono : (a b c d : ℕ) → a ≤ c → b ≤ d → times a b ≤ times c d
times_mono a b c d h g = div_mono (a * b) (c * d) one (mul-le-mul h g)

second_mono : (b c k : ℕ) → b ≤ c → second_of b k ≤ second_of c k
second_mono b c k h =
    div_mono (times (b * k) b * (k - 1)) (times (c * k) c * (k - 1)) 2
      (mul-le-mul (times_mono (b * k) b (c * k) c (mul-le-mul h (le_refl k)) h) (le_refl (k - 1)))

third_mono : (b c k : ℕ) → b ≤ c → third_of b k ≤ third_of c k
third_mono b c k h =
    div_mono (times (second_of b k) b * (k - 2)) (times (second_of c k) c * (k - 2)) 3 (
      mul-le-mul (times_mono (second_of b k) b (second_of c k) c (second_mono b c k h) h)
        (le_refl (k - 2)))

-- A greater rate compounds to no less.
pub compounded_mono : (b c k : ℕ) → b ≤ c → compounded b k ≤ compounded c k
compounded_mono b c k h =
    let sum : one + b ≤ one + c = omega arith in
    let square = times_mono (one + b) (one + b) (one + c) (one + c) sum sum in
    let cube =
      times_mono (times (one + b) (one + b)) (one + b) (times (one + c) (one + c)) (one + c) square
        sum in
    let fourth =
      times_mono (times (one + b) (one + b)) (times (one + b) (one + b)) (times (one + c) (one + c))
        (times (one + c) (one + c)) square square in
    ground (
      arith,
      sum,
      square,
      cube,
      fourth,
      mul-le-mul h (le_refl k),
      second_mono b c k h,
      third_mono b c k h,
    )

scaled :
    (t m b k : ℕ)
    → t ≤ m * b
    → b * slots_per_year ≤ 16 * one
    → k ≤ slots_per_year
    → t * k ≤ m * (16 * one)
scaled t m b k le h small =
    let up = mul-le-mul le small in let out = mul-le-mul (le_refl m) h in omega (arith, up, out)

-- The terms of the series, for at most a year at a rate of at most 1600%.
terms :
    (b k : ℕ)
    → b * slots_per_year ≤ 16 * one
    → k ≤ slots_per_year
    → (b * k ≤ 16 * one)
      × (times (b * k) b * (k - 1) ≤ 256 * one)
      × (times (second_of b k) b * (k - 2) ≤ 2048 * one)
terms b k h small =
    let first : b * k ≤ 16 * one = omega (arith, mul-le-mul (le_refl b) small) in
    let inner : times (b * k) b ≤ 16 * b = omega (arith, mul-le-mul first (le_refl b)) in
    let second : times (b * k) b * (k - 1) ≤ 256 * one =
      scaled (times (b * k) b) 16 b (k - 1) inner h (omega arith) in
    let inner' : times (second_of b k) b ≤ 128 * b =
      let half : second_of b k ≤ 128 * one = omega arith in
      omega (arith, mul-le-mul half (le_refl b)) in
    (first, second, scaled (times (second_of b k) b) 128 b (k - 2) inner' h (omega arith))

pub one_le_compounded : (b k : ℕ) → one ≤ compounded b k
one_le_compounded b k =
    let sum : one ≤ one + b = omega arith in
    let square = times_mono one one (one + b) (one + b) sum sum in
    let cube = times_mono one one (times (one + b) (one + b)) (one + b) square sum in
    let fourth =
      times_mono one one (times (one + b) (one + b)) (times (one + b) (one + b)) square square in
    ground (arith, sum, square, cube, fourth)

pub compounded-le :
    (b k : ℕ) → b * slots_per_year ≤ 16 * one → k ≤ slots_per_year → compounded b k ≤ 1024 * one
compounded-le b k h small =
    let sum : one + b ≤ 2 * one = omega arith in
    let square = times_mono (one + b) (one + b) (2 * one) (2 * one) sum sum in
    let cube = times_mono (times (one + b) (one + b)) (one + b) (4 * one) (2 * one) square sum in
    let fourth =
      times_mono (times (one + b) (one + b)) (times (one + b) (one + b)) (4 * one) (4 * one) square
        square in
    let (first, second, third) = terms b k h small in
    ground (arith, sum, square, cube, fourth, first, second, third)

module _ (b k : ℕ) (low : b * slots_per_year ≤ 16 * one) (small : k ≤ slots_per_year) where
  series_lem :
      ⦃n : Numerics⦄ → IsDocumented n → series b k ≡ ok (one + b * k + second_of b k + third_of b k)
  unfolding series
  series_lem ⦃n⦄ d =
      let (first, second, third) = terms b k low small in
      let inner = times_mono (b * k) b (16 * one) one first (omega arith) in
      let half : second_of b k ≤ 128 * one = omega arith in
      let inner' = times_mono (second_of b k) b (128 * one) one half (omega arith) in
      rw
        (
          exact_unique n d,
          fit_lem 128 (b * k) (omega arith),
          fit_lem 128 (times (b * k) b) (omega arith),
          fit_lem 128 (times (b * k) b * (k - 1)) (omega arith),
          fit_lem 128 (times (second_of b k) b) (omega arith),
          fit_lem 128 (times (second_of b k) b * (k - 2)) (omega arith),
          fit_lem 128 (one + b * k) (omega arith),
          fit_lem 128 (one + b * k + second_of b k) (omega arith),
          fit_lem 128 (one + b * k + second_of b k + third_of b k) (omega arith),
        )
        refl

-- For at most a year and at a rate of at most 1600%, no step of the compounding overflows, and the
-- result is the product for up to four slots and the first four terms of the binomial series for
-- more, on the rate per slot, rounded down.
pub approximate_compounded_interest_lem :
    ⦃n : Numerics⦄ (d : IsDocumented n) (rate k : ℕ)
    → rate ≤ 16 * one
    → k ≤ slots_per_year
    → approximate_compounded_interest rate k ≡ ok (compounded (rate / slots_per_year) k)
unfolding approximate_compounded_interest
approximate_compounded_interest_lem ⦃n⦄ d rate k h small =
    let b = rate / slots_per_year in
    let low : b * slots_per_year ≤ 16 * one = omega arith in
    let sum : one + b ≤ 2 * one = omega arith in
    let square = times_mono (one + b) (one + b) (2 * one) (2 * one) sum sum in
    let cube = times_mono (times (one + b) (one + b)) (one + b) (4 * one) (2 * one) square sum in
    let fourth =
      times_mono (times (one + b) (one + b)) (times (one + b) (one + b)) (4 * one) (4 * one) square
        square in
    rw
      (
        exact_unique n d,
        series_lem b k low small ⦃n = exact⦄ exact-IsDocumented,
        fit_lem 128 (one + b) (omega arith),
        fit_lem 128 (times (one + b) (one + b)) (omega arith),
        fit_lem 128 (times (times (one + b) (one + b)) (one + b)) (omega arith),
        fit_lem 128 (times (times (one + b) (one + b)) (times (one + b) (one + b))) (omega arith),
      )
      (ground arith)
