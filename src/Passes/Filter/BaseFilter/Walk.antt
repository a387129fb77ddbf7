-- ===== src/Passes/Filter/BaseFilter/Walk.antt =====
-- The walks along the uses of a value, which never come to a value twice.
use type_art.Prelude.{
  ℕ, suc, ◌≤◌, ◌<◌, ◌≡◌, ◌≢◌, inl, inr, refl, subst, Bool, true, false, not, ◌&&◌, List, [], ◌∷◌,
  length, if◌then◌else◌, arith,
}
use mathlib.Core.List.{Memᴰ}
use mathlib.Core.List.Memᴰ
use type_art.Passes.Filter.IrPath.{ValueOps, IrPath, is_among}
use type_art.Passes.Filter.BaseFilter.{FilterAnalysis, skip, keep, Handler, OmpHelper, callsite}

-- A path without counts of phi nodes.
abbrev pub at : List ℕ → IrPath
at path = record { path = path; phi_cache = [] }

abbrev pub follows : FilterAnalysis → Bool
follows status = elim status [ keep ↦ false | skip ↦ false | _ ↦ true ]

module _ (ir : ValueOps) (handler : Handler) (omp : OmpHelper) (search : ℕ → IrPath → List ℕ) where
  abbrev pub status : ℕ → List ℕ → FilterAnalysis
  status n rest = callsite ir handler omp search n (at (n ∷ rest))

  -- Which values a walk goes on from: any, or all but phi nodes.
  abbrev pub any : ℕ → Bool
  any n = true

  abbrev pub no_phi : ℕ → Bool
  no_phi n = not (ir.is_phi n)

  -- From a path, with its last value first, along uses to a longer path.
  pub data Leads (passes : ℕ → Bool) : List ℕ → List ℕ → Type 0 where
    here : {path : List ℕ} → Leads passes path path
    step :
        {n successor : ℕ} {rest path : List ℕ}
        → passes n ≡ true
        → follows (status n rest) ≡ true
        → Memᴰ successor (search n (at (n ∷ rest)))
        → is_among successor (n ∷ rest) ≡ false
        → Leads passes (successor ∷ n ∷ rest) path
        → Leads passes (n ∷ rest) path

  -- The end of the path is a call that asks to keep the value, or has a successor that stores it in
  -- a task.
  pub data Keeps (passes : ℕ → Bool) : List ℕ → Type 0 where
    at_call : {n : ℕ} {rest : List ℕ} → status n rest ≡ keep → Keeps passes (n ∷ rest)
    in_task :
        {n successor : ℕ} {rest : List ℕ}
        → passes n ≡ true
        → follows (status n rest) ≡ true
        → Memᴰ successor (search n (at (n ∷ rest)))
        → (omp.with_omp && omp.is_task_related_store successor) ≡ true
        → Keeps passes (n ∷ rest)

  -- What a search relies on: the counts of phi nodes can only cut what follows a phi node, handlers
  -- do not look at them, and the search stays among finitely many values, of which none is null.
  pub record IsFinite (values : List ℕ) : Type 0 where
    pub search_at : (n : ℕ) (p : IrPath) → no_phi n ≡ true → search n p ≡ search n (at p.path)
    pub search_in :
        (n successor : ℕ) (p : IrPath)
        → Memᴰ successor (search n p)
        → Memᴰ successor (search n (at p.path))
    pub callsite_at :
        (n : ℕ) (p : IrPath)
        → callsite ir handler omp search n p ≡ callsite ir handler omp search n (at p.path)
    pub closed :
        (n successor : ℕ) (p : IrPath) → Memᴰ successor (search n p) → Memᴰ successor values
    pub no_null : (n : ℕ) → Memᴰ n values → n ≢ 0

-- The values that are not on a path.
abbrev pub unvisited : List ℕ → List ℕ → ℕ
unvisited [] path = 0
unvisited (v ∷ values) path =
    let rest = unvisited values path in if is_among v path then rest else suc rest

unvisited_mono :
    (values path : List ℕ) (n : ℕ) → unvisited values (n ∷ path) ≤ unvisited values path
unvisited_mono [] path n = omega arith
unvisited_mono (v ∷ values) path n = ground (arith, unvisited_mono values path n)

pub unvisited-lt :
    (values path : List ℕ) (n : ℕ)
    → Memᴰ n values
    → is_among n path ≡ false
    → unvisited values (n ∷ path) < unvisited values path
unvisited-lt [] path n m h = absurd (Memᴰ.not-nil m)
unvisited-lt (v ∷ values) path n m h = elim (Memᴰ.cases_cons m) [
  | inl same ↦
      let no_v : is_among v path ≡ false = subst (λ w. is_among w path ≡ false) same h in
      rw same (ground (arith, no_v, unvisited_mono values path v))
  | inr rest ↦ ground (arith, unvisited-lt values path n rest h)
]

pub unvisited-nil : (values : List ℕ) → unvisited values [] ≡ length values
unvisited-nil [] = refl
unvisited-nil (v ∷ values) = omega (arith, unvisited-nil values)
