-- ===== src/Numerics/Exact.antt =====
-- A value of the interface, on which the definitions run, and the proof that there is no other: the
-- documented behaviour determines every operation. So what holds of `exact` holds of any
-- implementation, along the path between the two.
use solana_auditor_skill.Prelude.{
  ◌+◌, ◌-◌, ◌*◌, ◌/◌, ◌%◌, ◌^◌, ◌≡◌, refl, none, some, leb, ◌==◌, if◌then◌else◌, min,
}
use solana_auditor_skill.Outcome.{ok, panic, fit}
use solana_auditor_skill.Numerics.{Numerics, IsDocumented, one, keep, floor_of, ceil_of, round_of}

abbrev pub exact : Numerics
exact = record {
  add = λ a b. fit 128 (a + b);
  sub = λ a b. if leb b a then ok (a - b) else panic;
  mul = λ a b. fit 128 (a * b / one);
  div = λ a b. if b == 0 then panic else fit 128 (a * one / b);
  mul_by_int = λ a b. fit 128 (a * b);
  div_by_int = λ a b. if b == 0 then panic else ok (a / b);
  checked_mul = λ a b. keep 128 (a * b / one);
  checked_sub = λ a b. if leb b a then some (a - b) else none;
  saturating_sub = λ a b. a - b;
  saturating_mul = λ a b. min (a * b / one) (2 ^ 128 - 1);
  from_num = λ a. fit 128 (a * one);
  floor = λ a. floor_of a;
  ceil = λ a. fit 128 (ceil_of a);
  round = λ a. fit 128 (round_of a);
  to_num = λ w a. fit w (a / one);
  checked_to_num = λ w a. keep w (a / one);
  add256 = λ a b. fit 256 (a + b);
  sub256 = λ a b. if leb b a then ok (a - b) else panic;
  mul256 = λ a b. fit 256 (a * b);
  div256 = λ a b. if b == 0 then panic else ok (a / b);
  shl256 = λ a k. a * 2 ^ k % 2 ^ 256;
  shr256 = λ a k. a / 2 ^ k;
  checked_add256 = λ a b. keep 256 (a + b);
  checked_mul256 = λ a b. keep 256 (a * b);
  checked_div256 = λ a b. if b == 0 then none else some (a / b);
  try_into_u128 = λ a. keep 128 a;
}

-- The laws can be met.
pub exact-IsDocumented : IsDocumented exact
exact-IsDocumented = record {
  add_law = λ a b. refl;
  sub_law = λ a b. refl;
  mul_law = λ a b. refl;
  div_law = λ a b. refl;
  mul_by_int_law = λ a b. refl;
  div_by_int_law = λ a b. refl;
  checked_mul_law = λ a b. refl;
  checked_sub_law = λ a b. refl;
  saturating_sub_law = λ a b. refl;
  saturating_mul_law = λ a b. refl;
  from_num_law = λ a. refl;
  floor_law = λ a. refl;
  ceil_law = λ a. refl;
  round_law = λ a. refl;
  to_num_law = λ w a. refl;
  checked_to_num_law = λ w a. refl;
  add256_law = λ a b. refl;
  sub256_law = λ a b. refl;
  mul256_law = λ a b. refl;
  div256_law = λ a b. refl;
  shl256_law = λ a k. refl;
  shr256_law = λ a k. refl;
  checked_add256_law = λ a b. refl;
  checked_mul256_law = λ a b. refl;
  checked_div256_law = λ a b. refl;
  try_into_u128_law = λ a. refl;
}

pub exact_unique : (n : Numerics) → IsDocumented n → n ≡ exact
exact_unique n l = λ i. record {
  add = λ a b. l.add_law a b i;
  sub = λ a b. l.sub_law a b i;
  mul = λ a b. l.mul_law a b i;
  div = λ a b. l.div_law a b i;
  mul_by_int = λ a b. l.mul_by_int_law a b i;
  div_by_int = λ a b. l.div_by_int_law a b i;
  checked_mul = λ a b. l.checked_mul_law a b i;
  checked_sub = λ a b. l.checked_sub_law a b i;
  saturating_sub = λ a b. l.saturating_sub_law a b i;
  saturating_mul = λ a b. l.saturating_mul_law a b i;
  from_num = λ a. l.from_num_law a i;
  floor = λ a. l.floor_law a i;
  ceil = λ a. l.ceil_law a i;
  round = λ a. l.round_law a i;
  to_num = λ w a. l.to_num_law w a i;
  checked_to_num = λ w a. l.checked_to_num_law w a i;
  add256 = λ a b. l.add256_law a b i;
  sub256 = λ a b. l.sub256_law a b i;
  mul256 = λ a b. l.mul256_law a b i;
  div256 = λ a b. l.div256_law a b i;
  shl256 = λ a k. l.shl256_law a k i;
  shr256 = λ a k. l.shr256_law a k i;
  checked_add256 = λ a b. l.checked_add256_law a b i;
  checked_mul256 = λ a b. l.checked_mul256_law a b i;
  checked_div256 = λ a b. l.checked_div256_law a b i;
  try_into_u128 = λ a. l.try_into_u128_law a i;
}
