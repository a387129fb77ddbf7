-- ===== src/Prelude/Positions.antt =====
-- Positions in a list that grows at its end, as a C++ vector under `push_back`.
use Prim.Native.Nat.{ℕ, zero, suc, ◌<◌}
use mathlib.Core.Path.{◌≡◌, refl}
use mathlib.Core.Logic.{◌⊎◌, inl, inr}
use mathlib.Core.List.{List, [], ◌∷◌, ◌++◌}
use mathlib.Core.Option.{none, some}
use native.Mathlib.Omega.{arith}
use type_art.Prelude.Lists.{length, get_elem?, get_or}

module _ {ℓ} {A : Type ℓ} where
  pub get_elem?-lt : (xs : List A) (i : ℕ) {a : A} → get_elem? xs i ≡ some a → i < length xs
  get_elem?-lt [] i h = cc
  get_elem?-lt (x ∷ xs) zero h = omega arith
  get_elem?-lt (x ∷ xs) (suc i) h = omega (arith, get_elem?-lt xs i h)

  pub get_elem?_of_lt : (xs : List A) (i : ℕ) → i < length xs → (a : A) × (get_elem? xs i ≡ some a)
  get_elem?_of_lt [] i h = absurd (omega arith)
  get_elem?_of_lt (x ∷ xs) zero h = (x, refl)
  get_elem?_of_lt (x ∷ xs) (suc i) h = get_elem?_of_lt xs i (omega arith)

  pub get_elem?-append_left :
      (xs ys : List A) (i : ℕ) {a : A} → get_elem? xs i ≡ some a → get_elem? (xs ++ ys) i ≡ some a
  get_elem?-append_left [] ys i h = cc
  get_elem?-append_left (x ∷ xs) ys zero h = h
  get_elem?-append_left (x ∷ xs) ys (suc i) h = get_elem?-append_left xs ys i h

  pub get_elem?-append_end : (xs : List A) (a : A) → get_elem? (xs ++ a ∷ []) (length xs) ≡ some a
  get_elem?-append_end [] a = refl
  get_elem?-append_end (x ∷ xs) a = get_elem?-append_end xs a

  pub get_elem?-append_at :
      (xs : List A) (a : A) (ys : List A) → get_elem? (xs ++ a ∷ ys) (length xs) ≡ some a
  get_elem?-append_at [] a ys = refl
  get_elem?-append_at (x ∷ xs) a ys = get_elem?-append_at xs a ys

  pub get_elem?-append_cases :
      (xs : List A) (a : A) (i : ℕ) {b : A}
      → get_elem? (xs ++ a ∷ []) i ≡ some b
      → (get_elem? xs i ≡ some b) ⊎ ((i ≡ length xs) × (b ≡ a))
  get_elem?-append_cases [] a zero h = inr (refl, cc)
  get_elem?-append_cases [] a (suc i) h = cc
  get_elem?-append_cases (x ∷ xs) a zero h = inl h
  get_elem?-append_cases (x ∷ xs) a (suc i) h = elim (get_elem?-append_cases xs a i h) [
    | inl e ↦ inl e
    | inr (e, f) ↦ inr (omega arith, f)
  ]

  pub get_or_cases :
      (xs : List A) (i : ℕ) (d : A)
      → (get_elem? xs i ≡ some (get_or xs i d)) ⊎ ((get_elem? xs i ≡ none) × (get_or xs i d ≡ d))
  get_or_cases [] i d = inr (refl, refl)
  get_or_cases (x ∷ xs) zero d = inl refl
  get_or_cases (x ∷ xs) (suc i) d = get_or_cases xs i d

  pub get_or-some :
      (xs : List A) (i : ℕ) (d : A) {a : A} → get_elem? xs i ≡ some a → get_or xs i d ≡ a
  get_or-some [] i d h = cc
  get_or-some (x ∷ xs) zero d h = cc
  get_or-some (x ∷ xs) (suc i) d h = get_or-some xs i d h
