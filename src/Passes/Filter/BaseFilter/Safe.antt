-- ===== src/Passes/Filter/BaseFilter/Safe.antt =====
-- What `filter` answers for a value from which a walk leads to a use that asks to keep it.
use type_art.Prelude.{
  ℕ, suc, ◌≤◌, ◌==◌, ◌≡◌, refl, inl, inr, ◌⊎◌, Bool, true, false, List, [], ◌∷◌, length, arith,
}
use mathlib.Core.List.{Memᴰ}
use type_art.Passes.IrTypes.{done}
use type_art.Passes.Filter.IrPath.{ValueOps, IrPath, callsite_path}
use type_art.Passes.Filter.BaseFilter.{
  FilterAnalysis, skip, continue, keep, filtered, follow_def, Handler, OmpHelper, checked,
  dfs_func_filter, filter,
}
use type_art.Passes.Filter.BaseFilter.Walk.{no_phi, IsFinite, Leads, Keeps}
use type_art.Passes.Filter.BaseFilter.Keeps.{dfs_filter-Keeps}

-- Whether the check before the search filters the value.
abbrev pub is_filtered : FilterAnalysis → Bool
is_filtered filtered = true
is_filtered _ = false

checked-cases :
    (s : FilterAnalysis)
    → (s ≡ filtered) ⊎ ((s ≡ keep) ⊎ ((s ≡ skip) ⊎ ((s ≡ continue) ⊎ (s ≡ follow_def))))
checked-cases filtered = inl refl
checked-cases keep = inr (inl refl)
checked-cases skip = inr (inr (inl refl))
checked-cases continue = inr (inr (inr (inl refl)))
checked-cases follow_def = inr (inr (inr (inr refl)))

module _ (ir : ValueOps) (handler : Handler) (omp : OmpHelper) (search : ℕ → IrPath → List ℕ)
    (values : List ℕ) (finite : IsFinite ir handler omp search values)
    (args : ℕ → IrPath → List ℕ) where
  -- If a walk along uses that goes on from no phi node leads from a value to a call at which the
  -- handler asks to keep it, or to a value that a store into a task follows, `filter` returns true
  -- exactly if the check before the search answers that the value is to be filtered, and else
  -- false; the values are finitely many, none of them null, and the handler does not look at the
  -- counts of phi nodes. This is so whatever fuel is left for the definitions that the value is
  -- passed to.
  pub filter-Keeps :
      (depth fuel start_f in_value : ℕ) (end : List ℕ)
      → Memᴰ in_value values
      → length values ≤ depth
      → Leads ir handler omp search (no_phi ir handler omp search) (in_value ∷ []) end
      → Keeps ir handler omp search (no_phi ir handler omp search) end
      → filter ir handler omp search args depth (suc fuel) start_f in_value
        ≡ done (is_filtered (checked ir handler omp search args in_value (callsite_path start_f)))
  unfolding filter dfs_func_filter
  filter-Keeps depth fuel start_f in_value end m h leads keeps =
      let fpath = callsite_path start_f in
      let null : (in_value == 0) ≡ false = ground (arith, finite.no_null in_value m) in
      let (f, p, plist, e, _, found) =
        dfs_filter-Keeps ir handler omp search values finite depth in_value m h in
      elim found [
        | inl (_, no_end) ↦ absurd (no_end end leads keeps)
        | inr (fl, _, _, _) ↦
            rw null (elim (checked-cases (checked ir handler omp search args in_value fpath)) [
              | inl s ↦ rw (s, dfs_func_filter) refl
              | inr (inl s) ↦ rw (s, dfs_func_filter) refl
              | inr (inr (inl s)) ↦ rw (s, e, fl, dfs_func_filter) refl
              | inr (inr (inr (inl s))) ↦ rw (s, e, fl, dfs_func_filter) refl
              | inr (inr (inr (inr s))) ↦ rw (s, e, fl, dfs_func_filter) refl
            ])
      ]
