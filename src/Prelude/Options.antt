-- ===== src/Prelude/Options.antt =====
-- Equations between optional values.
use mathlib.Core.Path.{◌≡◌}
use mathlib.Core.Option.{none, some}

pub some_inj {ℓ} : {A : Type ℓ} {a b : A} → some a ≡ some b → a ≡ b
some_inj e = cc

pub none-ne-some {ℓ} : {A : Type ℓ} {a : A} → none ≡ some a → ⊥
none-ne-some e = cc
