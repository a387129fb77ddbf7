-- ===== src/Passes/Filter/BaseFilter/Keeps.antt =====
-- What `DFSfilter` finds from a value; phi nodes, behind which it may stop, are set apart.
use type_art.Prelude.{
  ℕ, zero, suc, ◌≤◌, ◌==◌, ◌≡◌, ◌≢◌, ◌⊎◌, inl, inr, refl, sym, ap, subst, ◌∙◌, Bool, true, false,
  List, [], ◌∷◌, ◌++◌, length, arith,
}
use mathlib.Core.List.{Memᴰ}
use type_art.Passes.IrTypes.{done}
use type_art.Passes.Filter.IrPath.{ValueOps, IrPath, empty_path, push, pop}
use type_art.Passes.Filter.BaseFilter.{
  FilterAnalysis, skip, continue, keep, filtered, follow_def, Handler, OmpHelper, callsite,
  visit_successors, dfs_filter,
}
use type_art.Passes.Filter.BaseFilter.Walk.{
  at, follows, status, Leads, here, step, Keeps, at_call, in_task, IsFinite, unvisited-lt,
  unvisited-nil,
}
use type_art.Passes.Filter.BaseFilter.Successors.{
  through, Finds, IsHit, Hits, IsSearch, visit_successors_lem,
}

FilterAnalysis-cases : (s : FilterAnalysis) → (s ≡ keep) ⊎ ((s ≡ skip) ⊎ (follows s ≡ true))
FilterAnalysis-cases keep = inl refl
FilterAnalysis-cases skip = inr (inl refl)
FilterAnalysis-cases continue = inr (inr refl)
FilterAnalysis-cases filtered = inr (inr refl)
FilterAnalysis-cases follow_def = inr (inr refl)

follows-cases :
    (s : FilterAnalysis) → follows s ≡ true → (s ≡ continue) ⊎ ((s ≡ filtered) ⊎ (s ≡ follow_def))
follows-cases keep f = cc
follows-cases skip f = cc
follows-cases continue f = inl refl
follows-cases filtered f = inr (inl refl)
follows-cases follow_def f = inr (inr refl)

module _ (ir : ValueOps) (handler : Handler) (omp : OmpHelper) (search : ℕ → IrPath → List ℕ)
    (values : List ℕ) (finite : IsFinite ir handler omp search values) where
  Leads-skip :
      (passes : ℕ → Bool) (n : ℕ) (rest end : List ℕ)
      → follows (status ir handler omp search n rest) ≡ false
      → status ir handler omp search n rest ≢ keep
      → Leads ir handler omp search passes (n ∷ rest) end
      → Keeps ir handler omp search passes end
      → ⊥
  Leads-skip passes n rest end f k here (at_call e) = k e
  Leads-skip passes n rest end f k here (in_task q g m t) = cc (f, g)
  Leads-skip passes n rest end f k (step q g m a l) keeps = cc (f, g)

  module _ (n : ℕ) (rest successors : List ℕ) where
    no-Leads :
        (end : List ℕ)
        → follows (status ir handler omp search n rest) ≡ true
        → (through ir handler omp search values finite n ≡ true
            → successors ≡ search n (at (n ∷ rest)))
        → ((s : ℕ)
            → Memᴰ s successors
            → IsHit ir handler omp search values finite
                (through ir handler omp search values finite)
                (n ∷ rest)
                s
            → ⊥)
        → Leads ir handler omp search (through ir handler omp search values finite) (n ∷ rest) end
        → Keeps ir handler omp search (through ir handler omp search values finite) end
        → ⊥
    no-Leads end f same no_hit here (at_call e) = cc (ap follows e, f)
    no-Leads end f same no_hit here (in_task {successor = s} q g m t) =
        no_hit s (subst (Memᴰ s) (sym (same q)) m) (inl t)
    no-Leads end f same no_hit (step {successor = s} q g m a l) keeps =
        no_hit s (subst (Memᴰ s) (sym (same q)) m) (inr (a, end, l, keeps))

    Finds-Hits :
        (filter : Bool)
        → follows (status ir handler omp search n rest) ≡ true
        → (through ir handler omp search values finite n ≡ true
            → successors ≡ search n (at (n ∷ rest)))
        → ((s : ℕ) → Memᴰ s successors → Memᴰ s (search n (at (n ∷ rest))))
        → Hits ir handler omp search values finite (n ∷ rest) successors filter
        → Finds ir handler omp search values finite (n ∷ rest) filter
    Finds-Hits filter f same into (inl (t, no_hit)) = inl (t, λ end. no-Leads end f same no_hit)
    Finds-Hits filter f same into (inr (fl, s, m, inl task)) =
        inr (fl, n ∷ rest, here, in_task refl f (into s m) task)
    Finds-Hits filter f same into (inr (fl, s, m, inr (a, end, l, k))) =
        inr (fl, end, step refl f (into s m) a l, k)

  dfs_filter-follows :
      (fuel current : ℕ) (p : IrPath) (plist : List IrPath)
      → (current == 0) ≡ false
      → follows (callsite ir handler omp search current (push ir current p)) ≡ true
      → (plist' : List IrPath) × (dfs_filter ir handler omp search (suc fuel) current p plist
          ≡ visit_successors ir handler omp search
              (dfs_filter ir handler omp search fuel)
              (search current (push ir current p))
              (push ir current p)
              plist')
  unfolding dfs_filter
  dfs_filter-follows fuel current p plist nn f =
      elim (follows-cases (callsite ir handler omp search current (push ir current p)) f) [
        | inl e ↦ (plist, rw (nn, e) refl)
        | inr (inl e) ↦ (plist, rw (nn, e) refl)
        | inr (inr e) ↦ (plist ++ push ir current p ∷ [], rw (nn, e) refl)
      ]

  pub dfs_filter-IsSearch :
      (fuel : ℕ)
      → IsSearch ir handler omp search values finite (dfs_filter ir handler omp search fuel) fuel
  unfolding dfs_filter push pop
  dfs_filter-IsSearch zero current p plist m new b =
      absurd (omega (arith, unvisited-lt values p.path current m new))
  dfs_filter-IsSearch (suc fuel) current p plist m new b =
      let p' = push ir current p in
      let there = finite.callsite_at current p' in
      let null : (current == 0) ≡ false = ground (arith, finite.no_null current m) in
      elim (FilterAnalysis-cases (callsite ir handler omp search current p')) [
        | inl k ↦ (
          false,
          p',
          plist,
          rw (null, k) refl,
          (λ e. absurd cc),
          inr (refl, current ∷ p.path, here, at_call (sym there ∙ k)),
        )
        | inr (inl s) ↦ (
          true,
          pop p',
          plist,
          rw (null, s) refl,
          (λ e. refl),
          inl (
            refl,
            λ end l k.
                Leads-skip (through ir handler omp search values finite) current p.path end
                  (ap follows (sym there ∙ s)) (λ h. cc (sym there ∙ s, h)) l k,
          ),
        )
        | inr (inr f) ↦
            let (plist', followed) = dfs_filter-follows fuel current p plist null f in
            let (filter, q, l, e, kept, hits) =
              visit_successors_lem ir handler omp search values finite
                (dfs_filter ir handler omp search fuel) fuel (dfs_filter-IsSearch fuel)
                (search current p') p' plist' (λ s. finite.closed current s p')
                (omega (arith, unvisited-lt values p.path current m new)) in
            (
              filter,
              q,
              l,
              followed ∙ e,
              kept,
              Finds-Hits current p.path (search current p') filter (ap follows (sym there) ∙ f)
                  (finite.search_at current p') (λ s. finite.search_in current s p') hits,
            )
      ]

  -- From one of finitely many values, none of them null, `DFSfilter` ends with a fuel not below
  -- the number of values. The counts of phi nodes may cut what follows a phi node, but the handler
  -- does not look at them. If it returns false, a walk along uses leads to a call at which the
  -- handler asks to keep the value, or to a value that a store into a task follows. If it returns
  -- true, the path is as it was, and no walk leads there that goes on from no phi node. A walk
  -- does not come to a value twice, and does not go on behind a call that is to be skipped; behind
  -- one that is to be filtered it does.
  pub dfs_filter-Keeps :
      (fuel current : ℕ)
      → Memᴰ current values
      → length values ≤ fuel
      → (filter : Bool) × (p : IrPath) × (plist : List IrPath) × (dfs_filter ir handler omp search
            fuel current empty_path []
          ≡ done (filter, p, plist))
        × (filter ≡ true → p.path ≡ [])
        × Finds ir handler omp search values finite (current ∷ []) filter
  dfs_filter-Keeps fuel current m h =
      dfs_filter-IsSearch fuel current empty_path [] m refl (omega (arith, unvisited-nil values))
