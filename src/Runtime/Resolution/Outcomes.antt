-- ===== src/Runtime/Resolution/Outcomes.antt =====
-- The results of the type queries: a value, one of the statuses of lib/runtime/RuntimeInterface.h
-- other than `TYPEART_OK`, or a fault.
use type_art.Prelude.{ℕ, Bool, true, false, List, Option, none, some, get_elem?}

pub data Status : Type 0 where
  unknown_address bad_alignment bad_offset wrong_kind invalid_id error : Status

-- `fault` is a failed `assert` or undefined behaviour: a division by 0, a read out of range.
-- `out_of_fuel` is a loop that did not end within its fuel.
pub data Outcome {ℓ} (A : Type ℓ) : Type ℓ where
  done : A → Outcome A
  status : Status → Outcome A
  fault : Outcome A
  out_of_fuel : Outcome A

infixl 5 ◌>>=◌ ◌>>◌
abbrev pub ◌>>=◌ {ℓ κ} : {A : Type ℓ} {B : Type κ} → Outcome A → (A → Outcome B) → Outcome B
done a >>= f = f a
status s >>= f = status s
fault >>= f = fault
out_of_fuel >>= f = out_of_fuel

abbrev pub ◌>>◌ {ℓ} : {B : Type ℓ} → Outcome (Unit {0}) → Outcome B → Outcome B
m >> k = m >>= λ _. k

-- `assert(b)`, or a condition without which the next step is undefined.
abbrev pub require : Bool → Outcome (Unit {0})
require true = done tt
require false = fault

-- `if (b) return s;`
abbrev pub unless_status : Bool → Status → Outcome (Unit {0})
unless_status true s = status s
unless_status false s = done tt

-- `v[i]`
abbrev pub at_or_fault {ℓ} : {A : Type ℓ} → Option A → Outcome A
at_or_fault none = fault
at_or_fault (some a) = done a

abbrev pub read {ℓ} : {A : Type ℓ} → List A → ℕ → Outcome A
read xs i = at_or_fault (get_elem? xs i)
