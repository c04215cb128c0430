-- ===== src/Outcome.antt =====
-- How a Rust call ends: with a value, with a `LendingError`, or in a panic, which aborts the
-- transaction. The program is built with overflow checks (klend/Cargo.toml), so arithmetic that
-- leaves its machine type panics.
use solana_auditor_skill.Prelude.{
  ℕ, ◌+◌, ◌-◌, ◌^◌, ◌/◌, ◌<◌, ◌≡◌, Bool, true, false, Option, none, some, arith, ltb, leb, ◌==◌,
  if◌then◌else◌, refl, ap,
}
use solana_auditor_skill.Errors.{LendingError}

pub data Outcome {ℓ} (A : Type ℓ) : Type ℓ where
  ok : A → Outcome A
  err : LendingError → Outcome A
  panic : Outcome A

infixl 5 ◌>>=◌ ◌>>◌
abbrev pub ◌>>=◌ {ℓ κ} : {A : Type ℓ} {B : Type κ} → Outcome A → (A → Outcome B) → Outcome B
ok a >>= f = f a
err e >>= f = err e
panic >>= f = panic

abbrev pub ◌>>◌ {ℓ} : {B : Type ℓ} → Outcome (Unit {0}) → Outcome B → Outcome B
m >> k = m >>= λ _. k

-- `require!`, and `if !test { return err!(e) }`.
abbrev pub require : Bool → LendingError → Outcome (Unit {0})
require true e = ok tt
require false e = err e

-- `if test { return err!(e) }`
abbrev pub refuse_if : Bool → LendingError → Outcome (Unit {0})
refuse_if true e = err e
refuse_if false e = ok tt

-- A test by Anchor whose error is Anchor's own, no `LendingError`: it ends the transaction, as a panic
-- does.
abbrev pub check_account : Bool → Outcome (Unit {0})
check_account true = ok tt
check_account false = panic

-- `.ok_or(e)?`
abbrev pub ok_or {ℓ} : {A : Type ℓ} → Option A → LendingError → Outcome A
ok_or none e = err e
ok_or (some a) e = ok a

-- `.unwrap()` and `.expect(..)` of an option.
abbrev pub unwrap {ℓ} : {A : Type ℓ} → Option A → Outcome A
unwrap none = panic
unwrap (some a) = ok a

-- An unsigned value in a machine word of `w` bits; a value that does not fit panics.
abbrev pub fit : ℕ → ℕ → Outcome ℕ
fit w n = if ltb n (2 ^ w) then ok n else panic

-- `checked_add`, `checked_sub` and `saturating_sub` of the unsigned machine integers.
abbrev pub checked_add : ℕ → ℕ → ℕ → Option ℕ
checked_add w a b = if ltb (a + b) (2 ^ w) then some (a + b) else none

abbrev pub checked_sub : ℕ → ℕ → Option ℕ
checked_sub a b = if leb b a then some (a - b) else none

-- `a - b` on an unsigned machine integer: below zero it panics.
abbrev pub sub_int : ℕ → ℕ → Outcome ℕ
sub_int a b = if leb b a then ok (a - b) else panic

-- `a / b` on an unsigned machine integer: a division by zero panics.
abbrev pub div_int : ℕ → ℕ → Outcome ℕ
div_int a b = if b == 0 then panic else ok (a / b)

pub fit_lem : (w a : ℕ) → a < 2 ^ w → fit w a ≡ ok a
fit_lem w a h = ground (arith, h)

-- A chain that ends well ran its first step well, and the rest on what that gave.
pub bind_ok {ℓ κ} :
    {A : Type ℓ} {B : Type κ} (m : Outcome A) (f : A → Outcome B) {b : B}
    → (m >>= f) ≡ ok b
    → (a : A) × (m ≡ ok a) × (f a ≡ ok b)
bind_ok (ok a) f e = (a, refl, e)
bind_ok (err x) f e = let no : ⊥ = cc in elim no [ ]
bind_ok panic f e = let no : ⊥ = cc in elim no [ ]

pub fits : (w a b : ℕ) → fit w a ≡ ok b → b ≡ a
fits w a b e = ground arith

abbrev pub value_or {ℓ} : {A : Type ℓ} → A → Outcome A → A
value_or a (ok b) = b
value_or a (err e) = a
value_or a panic = a

pub ok_inj {ℓ} : {A : Type ℓ} {a b : A} → ok a ≡ ok b → a ≡ b
ok_inj {a = a} e = ap (value_or a) e
