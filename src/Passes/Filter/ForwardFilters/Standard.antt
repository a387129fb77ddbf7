-- ===== src/Passes/Filter/ForwardFilters/Standard.antt =====
-- The standard filter searches as the theorem on the search assumes.
use type_art.Prelude.{
  Bool-cases, not, ◌&&◌, ltb, arith, subst, ℕ, ◌≡◌, ◌≢◌, refl, sym, Bool, true, List, Option, some,
  Option-cases, inl, inr,
}
use mathlib.Core.List.{Memᴰ}
use mathlib.Core.List.Memᴰ
use type_art.Passes.Filter.IrPath.{ValueOps, IrPath, search, search_store, contains, phi_count}
use type_art.Passes.Filter.BaseFilter.{callsite, callsite_decl}
use type_art.Passes.Filter.BaseFilter.Walk.{at, IsFinite}
use type_art.Passes.Filter.CallSites.{CallOps, MatchResult, correlate, find_arg}
use type_art.Passes.Filter.ForwardFilters.{std_decl, std_def, forward_filter, omp_context}

search-at :
    (ir : ValueOps) (n : ℕ) (p : IrPath)
    → not (ir.is_phi n) ≡ true
    → search ir n p ≡ search ir n (at p.path)
unfolding search
search-at ir n p e = ground arith

callsite-at :
    (ops : CallOps) (temp_alloc reaches_task task_store : ℕ → Bool) (matcher : ℕ → MatchResult)
    (deep_matcher : Option (ℕ → MatchResult)) (n : ℕ) (p : IrPath)
    → let handler = forward_filter ops temp_alloc reaches_task matcher deep_matcher in
      let omp = omp_context ops task_store in
      callsite ops.values handler omp (search ops.values) n p
      ≡ callsite ops.values handler omp (search ops.values) n (at p.path)
unfolding callsite callsite_decl std_decl std_def correlate find_arg
callsite-at ops temp_alloc reaches_task task_store matcher deep_matcher n p = refl

-- A phi node that was visited more than once has no successors.
search-in :
    (ir : ValueOps) (n successor : ℕ) (p : IrPath)
    → Memᴰ successor (search ir n p)
    → Memᴰ successor (search ir n (at p.path))
unfolding search phi_count
search-in ir n successor p m = elim (Bool-cases (ir.is_phi n && ltb 1 (phi_count n p.phi_cache))) [
  | inl e ↦ absurd (Memᴰ.not-nil (rw e at m))
  | inr e ↦ elim (Bool-cases (ir.is_phi n)) [
    | inl phi ↦ rw phi (rw e at m)
    | inr other ↦ rw other (rw e at m)
  ]
]

-- A program's values: finitely many, none of them null.
pub record IsProgram (ir : ValueOps) (values : List ℕ) : Type 0 where
  pub users_in : (n user : ℕ) → Memᴰ user (ir.users n) → Memᴰ user values
  pub pointers_in :
      (n value pointer : ℕ) → ir.store_operands n ≡ some (value, pointer) → Memᴰ pointer values
  pub no_null : (n : ℕ) → Memᴰ n values → n ≢ 0

search_store-Memᴰ :
    (ir : ValueOps) (value pointer successor : ℕ) (p : IrPath)
    → Memᴰ successor (search_store ir value pointer p)
    → successor ≡ pointer
search_store-Memᴰ ir value pointer successor p m =
    elim (Bool-cases (ir.is_alloca pointer && not (ir.has_pointer_type value))) [
      | inl e ↦ absurd (Memᴰ.not-nil (rw e at m))
      | inr e ↦ elim (Bool-cases (contains pointer p)) [
        | inl there ↦ absurd (Memᴰ.not-nil (rw (e, there) at m))
        | inr new ↦ Memᴰ.eq_of_singleton (rw (e, new) at m)
      ]
    ]

search-Memᴰ :
    (ir : ValueOps) (values : List ℕ) (n successor : ℕ) (p : IrPath)
    → IsProgram ir values
    → Memᴰ successor (search ir n p)
    → Memᴰ successor values
unfolding search
search-Memᴰ ir values n successor p h m =
    elim (Bool-cases (ir.is_phi n && ltb 1 (phi_count n p.phi_cache))) [
      | inl cut ↦ absurd (Memᴰ.not-nil (rw cut at m))
      | inr whole ↦ elim (Option-cases (ir.store_operands n)) [
        | inl e ↦ h.users_in n successor (rw (whole, e) at m)
        | inr ((value, pointer), e) ↦
            let same = search_store-Memᴰ ir value pointer successor p (rw (whole, e) at m) in
            subst (λ v. Memᴰ v values) (sym same) (h.pointers_in n value pointer e)
      ]
    ]

pub forward_filter-IsFinite :
    (ops : CallOps) (temp_alloc reaches_task task_store : ℕ → Bool) (matcher : ℕ → MatchResult)
    (deep_matcher : Option (ℕ → MatchResult)) (values : List ℕ)
    → IsProgram ops.values values
    → IsFinite ops.values
        (forward_filter ops temp_alloc reaches_task matcher deep_matcher)
        (omp_context ops task_store)
        (search ops.values)
        values
forward_filter-IsFinite ops temp_alloc reaches_task task_store matcher deep_matcher values h =
    record {
      search_at = search-at ops.values;
      search_in = search-in ops.values;
      callsite_at = callsite-at ops temp_alloc reaches_task task_store matcher deep_matcher;
      closed = λ n s p m. search-Memᴰ ops.values values n s p h m;
      no_null = h.no_null;
    }
