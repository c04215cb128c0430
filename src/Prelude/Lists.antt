-- ===== src/Prelude/Lists.antt =====
-- Lists measured and indexed by native numbers, under the library's names.
use Prim.Native.Nat.{ℕ, zero, suc, ◌+◌}
use mathlib.Core.Path.{◌≡◌, refl, ap, sym, subst}
use mathlib.Core.List.{List, [], ◌∷◌, ◌++◌}
use mathlib.Core.Option.{Option, none, some, some_inj}
use mathlib.Core.Bool.{Bool, true, false, ◌&&◌}
use native.Mathlib.Omega.{arith}
use mathlib.Core.Logic.{inl, inr}
use solana_auditor_skill.Prelude.Tests.{if◌then◌else◌, Bool-cases, Option-cases}

module _ {ℓ} {A : Type ℓ} where
  abbrev pub length : List A → ℕ
  length [] = 0
  length (x ∷ xs) = suc (length xs)

  abbrev pub get_elem? : List A → ℕ → Option A
  get_elem? [] i = none
  get_elem? (x ∷ xs) zero = some x
  get_elem? (x ∷ xs) (suc i) = get_elem? xs i

  abbrev pub get_or : List A → ℕ → A → A
  get_or [] i d = d
  get_or (x ∷ xs) zero d = x
  get_or (x ∷ xs) (suc i) d = get_or xs i d

  abbrev pub replicate : ℕ → A → List A
  replicate zero a = []
  replicate (suc n) a = a ∷ replicate n a

  abbrev pub All {κ} : (A → Type κ) → List A → Type κ
  All P [] = Unit
  All P (x ∷ xs) = P x × All P xs

  pub length-append : (xs ys : List A) → length (xs ++ ys) ≡ length xs + length ys
  length-append [] ys = omega arith
  length-append (x ∷ xs) ys = omega (arith, length-append xs ys)

  pub length-replicate : (n : ℕ) (a : A) → length (replicate n a) ≡ n
  length-replicate zero a = refl
  length-replicate (suc n) a = ap suc (length-replicate n a)

  -- The first place whose element passes a test.
  abbrev pub position : (A → Bool) → List A → Option ℕ
  position p [] = none
  position p (x ∷ xs) =
      if p x then some 0 else elim (position p xs) [ none ↦ none | some i ↦ some (suc i) ]

  -- Past the end the list stays as it is.
  abbrev pub set_at : List A → ℕ → A → List A
  set_at [] i y = []
  set_at (x ∷ xs) zero y = y ∷ xs
  set_at (x ∷ xs) (suc i) y = x ∷ set_at xs i y

  abbrev pub count : (A → Bool) → List A → ℕ
  count p [] = 0
  count p (x ∷ xs) = if p x then suc (count p xs) else count p xs

  abbrev pub all : (A → Bool) → List A → Bool
  all p [] = true
  all p (x ∷ xs) = p x && all p xs

  abbrev pub filter : (A → Bool) → List A → List A
  filter p [] = []
  filter p (x ∷ xs) = if p x then x ∷ filter p xs else filter p xs

  pub length-set_at : (xs : List A) (i : ℕ) (y : A) → length (set_at xs i y) ≡ length xs
  length-set_at [] i y = refl
  length-set_at (x ∷ xs) zero y = refl
  length-set_at (x ∷ xs) (suc i) y = ap suc (length-set_at xs i y)

  pub position-found :
      (p : A → Bool) (xs : List A) (i : ℕ)
      → position p xs ≡ some i
      → (x : A) × (get_elem? xs i ≡ some x) × (p x ≡ true)
  position-found p [] i e = let no : ⊥ = cc in elim no [ ]
  position-found p (x ∷ xs) i e = elim (Bool-cases (p x)) [
    | inl passes ↦
        let first : some 0 ≡ some i = rw (sym e, passes) in (x, rw (sym (some_inj.0 first)), passes)
    | inr fails ↦ elim (Option-cases (position p xs)) [
      | inl nowhere ↦ let no : ⊥ = cc in elim no [ ]
      | inr (j, at) ↦
          let later : some (suc j) ≡ some i = rw (sym e, fails, at) in
          let (y, there, passes) = position-found p xs j at in
          (y, rw (sym (some_inj.0 later)) there, passes)
    ]
  ]

  pub position-nowhere :
      (p : A → Bool) (xs : List A) → position p xs ≡ none → All (λ x. p x ≡ false) xs
  position-nowhere p [] e = tt
  position-nowhere p (x ∷ xs) e = elim (Bool-cases (p x)) [
    | inl passes ↦
        let no : ◌≡◌ {A = Option ℕ} (some 0) none = rw (sym e, passes) in
        let bad : ⊥ = cc in elim bad [ ]
    | inr fails ↦ elim (Option-cases (position p xs)) [
      | inl nowhere ↦ (fails, position-nowhere p xs nowhere)
      | inr (j, at) ↦
          let later : some (suc j) ≡ none = rw (sym e, fails, at) in
          let bad : ⊥ = cc in elim bad [ ]
    ]
  ]

  pub All-map {κ μ} :
      (P : A → Type κ) (Q : A → Type μ) (f : (x : A) → P x → Q x) (xs : List A)
      → All P xs
      → All Q xs
  All-map P Q f [] a = tt
  All-map P Q f (x ∷ xs) (p, ps) = (f x p, All-map P Q f xs ps)

  pub All-at {κ} :
      (P : A → Type κ) (xs : List A) (i : ℕ) (x : A) → All P xs → get_elem? xs i ≡ some x → P x
  All-at P [] i x a e = let no : ⊥ = cc in elim no [ ]
  All-at P (y ∷ ys) zero x (p, ps) e = subst P (some_inj.0 e) p
  All-at P (y ∷ ys) (suc i) x (p, ps) e = All-at P ys i x ps e

  pub All-set_at {κ} :
      (P : A → Type κ) (xs : List A) (i : ℕ) (y : A) → All P xs → P y → All P (set_at xs i y)
  All-set_at P [] i y a q = tt
  All-set_at P (x ∷ xs) zero y (p, ps) q = (q, ps)
  All-set_at P (x ∷ xs) (suc i) y (p, ps) q = (p, All-set_at P xs i y ps q)

  pub get_elem?-set_at :
      (xs : List A) (i : ℕ) (x y : A)
      → get_elem? xs i ≡ some x
      → get_elem? (set_at xs i y) i ≡ some y
  get_elem?-set_at [] i x y e = let no : ⊥ = cc in elim no [ ]
  get_elem?-set_at (z ∷ xs) zero x y e = refl
  get_elem?-set_at (z ∷ xs) (suc i) x y e = get_elem?-set_at xs i x y e
