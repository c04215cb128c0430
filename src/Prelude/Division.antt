-- ===== src/Prelude/Division.antt =====
-- Division by an unknown, as the bounds that the proofs use.
use Prim.Native.Nat.{ℕ, ◌+◌, ◌-◌, ◌*◌, ◌/◌, ◌≤◌, ◌<◌}
use mathlib.Core.Path.{◌≡◌}
use native.Mathlib.Omega.{arith}

pub div_bounds : (a b : ℕ) → 0 < b → (a / b * b ≤ a) × (a < a / b * b + b)
div_bounds a b h = omega arith

pub le-div : (a b q : ℕ) → 0 < b → q * b ≤ a → q ≤ a / b
le-div a b q h k = grind (arith, div_bounds a b h)

pub div-lt : (a b q : ℕ) → 0 < b → a < q * b → a / b < q
div-lt a b q h k = grind (arith, div_bounds a b h)

pub div_mono : (a a' b : ℕ) → a ≤ a' → a / b ≤ a' / b
div_mono a a' b h = grind arith

pub div_self_mul : (a b : ℕ) → 0 < b → a * b / b ≡ a
div_self_mul a b h = grind arith

-- `ceil(a / b)`
abbrev pub ceil_div : ℕ → ℕ → ℕ
ceil_div a b = (a + (b - 1)) / b

pub ceil_div_bounds : (a b : ℕ) → 0 < b → (a ≤ ceil_div a b * b) × (ceil_div a b * b < a + b)
ceil_div_bounds a b h = omega arith

pub ceil_div-le : (a b q : ℕ) → 0 < b → a ≤ q * b → ceil_div a b ≤ q
ceil_div-le a b q h k = grind (arith, ceil_div_bounds a b h)

pub le_of_mul-le : (a b d : ℕ) → 0 < d → a * d ≤ b * d → a ≤ b
le_of_mul-le a b d h k = grind arith

pub lt_of_mul-lt : (a b d : ℕ) → a * d < b * d → a < b
lt_of_mul-lt a b d k = grind arith
