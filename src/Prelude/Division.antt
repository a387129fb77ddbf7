-- ===== src/Prelude/Division.antt =====
-- Division with remainder by a number that is not a constant.
use Prim.Native.Nat.{ℕ, suc, ◌+◌, ◌*◌, ◌/◌, ◌%◌, ◌<◌, ◌≤◌}
use mathlib.Core.Path.{◌≡◌}
use mathlib.Core.Logic.{◌⊎◌, inl, inr}
use native.Mathlib.Omega.{arith}
use native.Mathlib.Nat.{mul-add-div_right, div-eq_of_lt, mul-le-mul_right}

pub division : (a n : ℕ) → 0 < n → (a / n * n + a % n ≡ a) × (a % n < n)
division a n h = omega arith

-- A quotient and a remainder below the divisor are the ones that division gives.
pub division_unique : (k n r : ℕ) → r < n → ((k * n + r) / n ≡ k) × ((k * n + r) % n ≡ r)
division_unique k n r h = (quotient, remainder)
  where
    quotient : (k * n + r) / n ≡ k
    quotient = omega (arith, mul-add-div_right {m = n} (omega arith) k r, div-eq_of_lt h)

    remainder : (k * n + r) % n ≡ r
    remainder = let e = division (k * n + r) n (omega arith) in omega (arith, rw quotient at e.0)

-- Fewer full multiples stay below.
pub below_multiple : (k c n r : ℕ) → k < c → r < n → k * n + r < c * n
below_multiple k c n r h e = omega (arith, mul-le-mul_right {m = suc k} {n = c} n h)

pub quotient_lt : (a c n : ℕ) → 0 < n → a < c * n → a / n < c
quotient_lt a c n h lt = elim (compare_cases (a / n) c) [
  | inl small ↦ small
  | inr le ↦ absurd (omega (arith, mul-le-mul_right {m = c} {n = a / n} n le, division a n h))
]
  where
    compare_cases : (x y : ℕ) → (x < y) ⊎ (y ≤ x)
    compare_cases x y = ground arith

pub lt_of_quotient : (a c n : ℕ) → 0 < n → a / n < c → a < c * n
lt_of_quotient a c n h lt =
    let (whole, rest) = division a n h in omega (arith, below_multiple (a / n) c n (a % n) lt rest)
