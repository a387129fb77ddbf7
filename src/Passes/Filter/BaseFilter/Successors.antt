-- ===== src/Passes/Filter/BaseFilter/Successors.antt =====
-- What the loop of `DFSfilter` over the successors of a value finds.
use type_art.Prelude.{
  ℕ, ◌≤◌, ◌≡◌, ◌⊎◌, inl, inr, refl, ap, subst, ◌∙◌, Bool, true, false, ◌&&◌, List, [], ◌∷◌,
  Bool-cases,
}
use mathlib.Core.List.{Memᴰ}
use mathlib.Core.List.Memᴰ
use type_art.Passes.IrTypes.{Built, done}
use type_art.Passes.Filter.IrPath.{ValueOps, IrPath, is_among, contains, push, pop, drop_last}
use type_art.Passes.Filter.BaseFilter.{Handler, OmpHelper, visit_successors, Searched}
use type_art.Passes.Filter.BaseFilter.Walk.{any, no_phi, Leads, Keeps, IsFinite, unvisited}

module _ (ir : ValueOps) (handler : Handler) (omp : OmpHelper) (search : ℕ → IrPath → List ℕ)
    (values : List ℕ) (finite : IsFinite ir handler omp search values) where
  abbrev pub through : ℕ → Bool
  through = no_phi ir handler omp search

  abbrev pub everywhere : ℕ → Bool
  everywhere = any ir handler omp search

  -- What a search from a path finds: with true no walk without phi nodes keeps the value, and with
  -- false a walk does.
  abbrev pub Finds : List ℕ → Bool → Type 0
  Finds path filter =
      ((filter ≡ true)
        × ((end : List ℕ)
            → Leads ir handler omp search through path end
            → Keeps ir handler omp search through end
            → ⊥))
      ⊎ ((filter ≡ false)
          × (end : List ℕ) × Leads ir handler omp search everywhere path end
          × Keeps ir handler omp search everywhere end)

  -- What the loop finds from the successors of the end of a path.
  abbrev pub IsHit : (ℕ → Bool) → List ℕ → ℕ → Type 0
  IsHit passes path successor =
      ((omp.with_omp && omp.is_task_related_store successor) ≡ true)
      ⊎ ((is_among successor path ≡ false)
          × (end : List ℕ) × Leads ir handler omp search passes (successor ∷ path) end
          × Keeps ir handler omp search passes end)

  abbrev pub Hits : List ℕ → List ℕ → Bool → Type 0
  Hits path successors filter =
      ((filter ≡ true) × ((s : ℕ) → Memᴰ s successors → IsHit through path s → ⊥))
      ⊎ ((filter ≡ false) × (s : ℕ) × Memᴰ s successors × IsHit everywhere path s)

  abbrev pub IsSearched : Built (Searched ir handler omp search) → List ℕ → (Bool → Type 0) → Type 0
  IsSearched run path found =
      (filter : Bool) × (p : IrPath) × (plist : List IrPath) × (run ≡ done (filter, p, plist))
      × (filter ≡ true → p.path ≡ path)
      × found filter

  abbrev pub IsSearch :
      (ℕ → IrPath → List IrPath → Built (Searched ir handler omp search)) → ℕ → Type 0
  IsSearch dfs bound =
      (current : ℕ) (p : IrPath) (plist : List IrPath)
      → Memᴰ current values
      → is_among current p.path ≡ false
      → unvisited values p.path ≤ bound
      → IsSearched (dfs current p plist) p.path (Finds (current ∷ p.path))

  Hits-miss :
      (path successors : List ℕ) (successor : ℕ) (filter : Bool)
      → (IsHit through path successor → ⊥)
      → Hits path successors filter
      → Hits path (successor ∷ successors) filter
  Hits-miss path successors successor filter miss (inl (t, none_hit)) = inl (
    t,
    λ s m hit. elim (Memᴰ.cases_cons m) [
      | inl same ↦ miss (subst (IsHit through path) same hit)
      | inr rest ↦ none_hit s rest hit
    ],
  )
  Hits-miss path successors successor filter miss (inr (f, s, m, hit)) =
      inr (f, s, Memᴰ.tail m, hit)

  pub visit_successors_lem :
      (dfs : ℕ → IrPath → List IrPath → Built (Searched ir handler omp search)) (bound : ℕ)
      → IsSearch dfs bound
      → (successors : List ℕ) (p : IrPath) (plist : List IrPath)
      → ((s : ℕ) → Memᴰ s successors → Memᴰ s values)
      → unvisited values p.path ≤ bound
      → IsSearched
          (visit_successors ir handler omp search dfs successors p plist)
          (drop_last p.path)
          (Hits p.path successors)
  unfolding visit_successors pop
  visit_successors_lem dfs bound is [] p plist c b =
      (true, pop p, plist, refl, (λ e. refl), inl (refl, λ s m. absurd (Memᴰ.not-nil m)))
  visit_successors_lem dfs bound is (s ∷ successors) p plist c b =
      let c' : (u : ℕ) → Memᴰ u successors → Memᴰ u values = λ u m. c u (Memᴰ.tail m) in
      elim (Bool-cases (omp.with_omp && omp.is_task_related_store s)) [
        | inl task ↦ (
          false,
          push ir s p,
          plist,
          rw task refl,
          (λ e. absurd cc),
          inr (refl, s, Memᴰ.head refl, inl task),
        )
        | inr no_task ↦ elim (Bool-cases (contains s p)) [
          | inl known ↦
              let (f, p', l', e, kept, hits) =
                visit_successors_lem dfs bound is successors p plist c' b in
              (
                f,
                p',
                l',
                rw (no_task, known) e,
                kept,
                Hits-miss p.path successors s f
                    (λ hit. elim hit [ inl t ↦ cc (no_task, t) | inr (n, _, _, _) ↦ cc (known, n) ])
                    hits,
              )
          | inr new ↦
              let (f, p1, l1, e1, kept1, found) = is s p plist (c s (Memᴰ.head refl)) new b in
              elim found [
                | inl (t, no_end) ↦
                    let same = kept1 t in
                    let (g, p2, l2, e2, kept2, hits) =
                      visit_successors_lem dfs bound is successors p1 l1 c' (rw same b) in
                    (
                      g,
                      p2,
                      l2,
                      rw (no_task, new, e1, t) e2,
                      (λ e. kept2 e ∙ ap drop_last same),
                      Hits-miss p.path successors s g
                          (λ hit. elim hit [
                            | inl task ↦ cc (no_task, task)
                            | inr (_, end, leads, keeps) ↦ no_end end leads keeps
                          ])
                          (subst (λ q. Hits q successors g) same hits),
                    )
                | inr (fl, end, leads, keeps) ↦ (
                  false,
                  p1,
                  l1,
                  rw (no_task, new, e1, fl) refl,
                  (λ e. absurd cc),
                  inr (refl, s, Memᴰ.head refl, inr (new, end, leads, keeps)),
                )
              ]
        ]
      ]
