-- ===== src/Fraction.antt =====
-- klend/programs/klend/src/utils/fraction.rs: the fixed-point numbers of the program. A `Fraction` is
-- its bits (see Numerics), and a `BigFraction` is the `U256` that it holds: value * 2 ^ 60. The
-- conversion of a `Fraction` into a `BigFraction` keeps the number, so it is not written.
pub mod Rounding
pub mod Power
pub mod Big
use solana_auditor_skill.Prelude.{
  ℕ, zero, suc, ◌+◌, ◌-◌, ◌*◌, ◌/◌, ◌%◌, ◌^◌, Option, none, some, true, false, ◌==◌, if◌then◌else◌,
  ltb,
}
use solana_auditor_skill.Outcome.{Outcome, ok, err, panic, ◌>>=◌, unwrap, ok_or, sub_int}
use solana_auditor_skill.Errors.{integer_overflow}
use solana_auditor_skill.Numerics.{Numerics, one}

module _ ⦃n : Numerics⦄ where
  -- One round of the loop of `pow_fraction`, with its variables `x` and `y`.
  unfoldable pub pow_step : ℕ → ℕ → ℕ → Option (ℕ × ℕ)
  pow_step x y k = elim (if k % 2 == 1 then n.checked_mul x y else some y) [
    | none ↦ none
    | some y' ↦ elim (n.checked_mul x x) [ none ↦ none | some x' ↦ some (x', y') ]
  ]

  -- `while n > 1`, on fuel. The outer `none` is fuel that ran out, the inner one an overflow.
  unfoldable pub pow_loop : ℕ → ℕ → ℕ → ℕ → Option (Option ℕ)
  pow_loop zero x y k = none
  pow_loop (suc fuel) x y k = elim (ltb 1 k) [
    | true ↦ elim (pow_step x y k) [ none ↦ some none | some s ↦ pow_loop fuel s.0 s.1 (k / 2) ]
    | false ↦ some (n.checked_mul x y)
  ]

  -- A `u32` is halved at most 31 times before it is at most 1.
  unfoldable pub pow_fraction : ℕ → ℕ → Option (Option ℕ)
  pow_fraction fraction power =
      if power == 0 then some (some one) else pow_loop 32 fraction one power

  unfoldable pub bps_u128_to_fraction : ℕ → Outcome ℕ
  bps_u128_to_fraction bps =
      if bps == 10_000 then ok one else (n.from_num bps >>= λ f. n.div_by_int f 10_000)

  unfoldable pub pct_u128_to_fraction : ℕ → Outcome ℕ
  pct_u128_to_fraction percent =
      if percent == 100 then ok one else (n.from_num percent >>= λ f. n.div_by_int f 100)

  -- To a whole number of percents or basis points, of `w` bits.
  unfoldable pub to_percent : ℕ → ℕ → Outcome (Option ℕ)
  to_percent w a = elim (n.checked_mul a (100 * one)) [
    | none ↦ ok none
    | some p ↦ n.round p >>= λ r. ok (n.checked_to_num w r)
  ]

  unfoldable pub to_bps : ℕ → ℕ → Outcome (Option ℕ)
  to_bps w a = elim (n.checked_mul a (10_000 * one)) [
    | none ↦ ok none
    | some p ↦ n.round p >>= λ r. ok (n.checked_to_num w r)
  ]

  unfoldable pub from_percent : ℕ → Outcome ℕ
  from_percent percent = do n.div_by_int (← n.from_num percent) 100

  unfoldable pub from_bps : ℕ → Outcome ℕ
  from_bps bps = do n.div_by_int (← n.from_num bps) 10_000

  unfoldable pub mul_int_ratio : ℕ → ℕ → ℕ → Outcome ℕ
  mul_int_ratio a numerator denominator = do n.div_by_int (← n.mul_by_int a numerator) denominator

  unfoldable pub full_mul_int_ratio : ℕ → ℕ → ℕ → Outcome ℕ
  full_mul_int_ratio a numerator denominator = do
    unwrap (n.try_into_u128 (← n.div256 (← n.mul256 a numerator) denominator))

  unfoldable pub full_mul_int_ratio_ceil : ℕ → ℕ → ℕ → Outcome ℕ
  full_mul_int_ratio_ceil a numerator denominator = do
    product ← n.mul256 a numerator
    padded ← n.sub256 (← n.add256 product denominator) 1
    unwrap (n.try_into_u128 (← n.div256 padded denominator))

  -- `denum_sf - 1` is on `u128`.
  unfoldable pub div_ceil : ℕ → ℕ → Outcome ℕ
  div_ceil num_sf denum_sf = do
    before ← sub_int denum_sf 1
    padded ← n.add256 (n.shl256 num_sf 60) before
    unwrap (n.try_into_u128 (← n.div256 padded denum_sf))

  -- To an integer of `w` bits.
  unfoldable pub to_floor : ℕ → ℕ → Outcome ℕ
  to_floor w a = n.to_num w (n.floor a)

  unfoldable pub to_ceil : ℕ → ℕ → Outcome ℕ
  to_ceil w a = do n.to_num w (← n.ceil a)

  unfoldable pub to_round : ℕ → ℕ → Outcome ℕ
  to_round w a = do n.to_num w (← n.round a)

  unfoldable pub try_to_floor : ℕ → ℕ → Option ℕ
  try_to_floor w a = n.checked_to_num w (n.floor a)

  unfoldable pub try_to_ceil : ℕ → ℕ → Outcome (Option ℕ)
  try_to_ceil w a = n.ceil a >>= λ c. ok (n.checked_to_num w c)

  unfoldable pub panicking_shl : ℕ → ℕ → Outcome ℕ
  panicking_shl number bit_count =
      let result = n.shl256 number bit_count in
      if n.shr256 result bit_count == number then ok result else panic

  -- `Fraction::try_from(BigFraction)`
  unfoldable pub fraction_of_big : ℕ → Outcome ℕ
  fraction_of_big value = ok_or (n.try_into_u128 value) integer_overflow

  -- `BigFraction::from_num`
  unfoldable pub big_from_num : ℕ → Outcome ℕ
  unfolding panicking_shl
  big_from_num value = panicking_shl value 60

  -- `BigFraction::div_ceil`
  unfoldable pub big_div_ceil : ℕ → ℕ → Outcome ℕ
  unfolding panicking_shl
  big_div_ceil a rhs = do
    extra_scaled ← panicking_shl a 60
    padded ← n.sub256 (← n.add256 extra_scaled rhs) 1
    n.div256 padded rhs

  -- `+`, `-`, `*` and `/` on two `BigFraction`s.
  unfoldable pub big_add : ℕ → ℕ → Outcome ℕ
  big_add a b = n.add256 a b

  unfoldable pub big_sub : ℕ → ℕ → Outcome ℕ
  big_sub a b = n.sub256 a b

  unfoldable pub big_mul : ℕ → ℕ → Outcome ℕ
  big_mul a b = n.mul256 a b >>= λ extra_scaled. ok (n.shr256 extra_scaled 60)

  unfoldable pub big_div : ℕ → ℕ → Outcome ℕ
  unfolding panicking_shl
  big_div a b = do n.div256 (← panicking_shl a 60) b

  -- `*` and `/` of a `BigFraction` by an integer.
  unfoldable pub big_mul_by_int : ℕ → ℕ → Outcome ℕ
  big_mul_by_int a b = n.mul256 a b

  unfoldable pub big_div_by_int : ℕ → ℕ → Outcome ℕ
  big_div_by_int a b = n.div256 a b
