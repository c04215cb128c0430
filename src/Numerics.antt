-- ===== src/Numerics.antt =====
-- The two number crates on which the program computes, as an interface: `fixed` (the type `U68F60`,
-- which klend/programs/klend/src/utils/fraction.rs calls `Fraction`) and `uint` (the type `U256`).
-- Neither is in the repository. A `Fraction` is its bits, a number below 2 ^ 128 that stands for
-- bits / 2 ^ 60; `from_bits` and `to_bits` are then identities, and fractions compare as their bits.
-- A `U256` is a number below 2 ^ 256. `IsDocumented` is what the crates document of the operations,
-- as the program is built (klend/Cargo.toml): with debug assertions in `fixed`, so that its
-- operators panic on overflow.
pub mod Exact
use solana_auditor_skill.Prelude.{
  ℕ, ◌+◌, ◌-◌, ◌*◌, ◌/◌, ◌%◌, ◌^◌, ◌≡◌, Option, none, some, ltb, leb, ◌==◌, if◌then◌else◌, min,
}
use solana_auditor_skill.Outcome.{Outcome, ok, panic, fit}

pub record Numerics : Type 0 where
  -- `+`, `-`, `*` and `/` on two fractions.
  pub add : ℕ → ℕ → Outcome ℕ
  pub sub : ℕ → ℕ → Outcome ℕ
  pub mul : ℕ → ℕ → Outcome ℕ
  pub div : ℕ → ℕ → Outcome ℕ
  -- `*` and `/` by an integer.
  pub mul_by_int : ℕ → ℕ → Outcome ℕ
  pub div_by_int : ℕ → ℕ → Outcome ℕ
  pub checked_mul : ℕ → ℕ → Option ℕ
  pub checked_sub : ℕ → ℕ → Option ℕ
  pub saturating_sub : ℕ → ℕ → ℕ
  pub saturating_mul : ℕ → ℕ → ℕ
  -- The fraction of an integer.
  pub from_num : ℕ → Outcome ℕ
  pub floor : ℕ → ℕ
  pub ceil : ℕ → Outcome ℕ
  pub round : ℕ → Outcome ℕ
  -- The integer part, as an integer of so many bits.
  pub to_num : ℕ → ℕ → Outcome ℕ
  pub checked_to_num : ℕ → ℕ → Option ℕ
  -- `+`, `-`, `*`, `/`, `<<` and `>>` on `U256`.
  pub add256 : ℕ → ℕ → Outcome ℕ
  pub sub256 : ℕ → ℕ → Outcome ℕ
  pub mul256 : ℕ → ℕ → Outcome ℕ
  pub div256 : ℕ → ℕ → Outcome ℕ
  pub shl256 : ℕ → ℕ → ℕ
  pub shr256 : ℕ → ℕ → ℕ
  pub checked_add256 : ℕ → ℕ → Option ℕ
  pub checked_mul256 : ℕ → ℕ → Option ℕ
  pub checked_div256 : ℕ → ℕ → Option ℕ
  -- `u128::try_from`
  pub try_into_u128 : ℕ → Option ℕ

-- 1 as a fraction: `Fraction::ONE`.
abbrev pub one : ℕ
one = 2 ^ 60

abbrev pub keep : ℕ → ℕ → Option ℕ
keep w n = if ltb n (2 ^ w) then some n else none

-- The greatest whole fraction that is not above, the least that is not below, and the nearest one,
-- of which a tie takes the upper.
abbrev pub floor_of : ℕ → ℕ
floor_of a = a / one * one

abbrev pub ceil_of : ℕ → ℕ
ceil_of a = (a + (one - 1)) / one * one

abbrev pub round_of : ℕ → ℕ
round_of a = (a + one / 2) / one * one

pub record IsDocumented (n : Numerics) : Type 0 where
  pub add_law : (a b : ℕ) → n.add a b ≡ fit 128 (a + b)
  pub sub_law : (a b : ℕ) → n.sub a b ≡ (if leb b a then ok (a - b) else panic)
  pub mul_law : (a b : ℕ) → n.mul a b ≡ fit 128 (a * b / one)
  pub div_law : (a b : ℕ) → n.div a b ≡ (if b == 0 then panic else fit 128 (a * one / b))
  pub mul_by_int_law : (a b : ℕ) → n.mul_by_int a b ≡ fit 128 (a * b)
  pub div_by_int_law : (a b : ℕ) → n.div_by_int a b ≡ (if b == 0 then panic else ok (a / b))
  pub checked_mul_law : (a b : ℕ) → n.checked_mul a b ≡ keep 128 (a * b / one)
  pub checked_sub_law : (a b : ℕ) → n.checked_sub a b ≡ (if leb b a then some (a - b) else none)
  pub saturating_sub_law : (a b : ℕ) → n.saturating_sub a b ≡ a - b
  pub saturating_mul_law : (a b : ℕ) → n.saturating_mul a b ≡ min (a * b / one) (2 ^ 128 - 1)
  pub from_num_law : (a : ℕ) → n.from_num a ≡ fit 128 (a * one)
  pub floor_law : (a : ℕ) → n.floor a ≡ floor_of a
  pub ceil_law : (a : ℕ) → n.ceil a ≡ fit 128 (ceil_of a)
  pub round_law : (a : ℕ) → n.round a ≡ fit 128 (round_of a)
  pub to_num_law : (w a : ℕ) → n.to_num w a ≡ fit w (a / one)
  pub checked_to_num_law : (w a : ℕ) → n.checked_to_num w a ≡ keep w (a / one)
  pub add256_law : (a b : ℕ) → n.add256 a b ≡ fit 256 (a + b)
  pub sub256_law : (a b : ℕ) → n.sub256 a b ≡ (if leb b a then ok (a - b) else panic)
  pub mul256_law : (a b : ℕ) → n.mul256 a b ≡ fit 256 (a * b)
  pub div256_law : (a b : ℕ) → n.div256 a b ≡ (if b == 0 then panic else ok (a / b))
  pub shl256_law : (a k : ℕ) → n.shl256 a k ≡ a * 2 ^ k % 2 ^ 256
  pub shr256_law : (a k : ℕ) → n.shr256 a k ≡ a / 2 ^ k
  pub checked_add256_law : (a b : ℕ) → n.checked_add256 a b ≡ keep 256 (a + b)
  pub checked_mul256_law : (a b : ℕ) → n.checked_mul256 a b ≡ keep 256 (a * b)
  pub checked_div256_law :
      (a b : ℕ) → n.checked_div256 a b ≡ (if b == 0 then none else some (a / b))
  pub try_into_u128_law : (a : ℕ) → n.try_into_u128 a ≡ keep 128 a
