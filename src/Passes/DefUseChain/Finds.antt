-- ===== src/Passes/DefUseChain/Finds.antt =====
-- A traversal that looks for a value finds one exactly if the uses lead to one.
use type_art.Prelude.{
  ℕ, zero, suc, ◌+◌, ◌≤◌, ◌≡◌, ◌≢◌, ◌⊎◌, inl, inr, refl, sym, subst, ◌∙◌, Bool, true, false, List,
  [], ◌∷◌, Option, length, Bool-cases, arith,
}
use mathlib.Core.Logic.{⊎_elim}
use mathlib.Core.List.{Memᴰ}
use mathlib.Core.List.Memᴰ
use type_art.Passes.IrTypes.{done}
use type_art.Passes.Filter.BaseFilter.Walk.{unvisited, unvisited-nil}
use type_art.Passes.DefUseChain.{Chain, add_to_work, traverse_loop, do_traverse, look_for, find_use}
use type_art.Passes.DefUseChain.Uses.{nexts, Uses, first, next, IsAdded, add_to_work-IsAdded}
use type_art.Passes.DefUseChain.Steps.{followed, seen_test, behind, apply_search_lem, traverse_step}

module _ (search : ℕ → Option (List ℕ)) (should_search : ℕ → Bool) (test : ℕ → Bool) where
  module _ (start : ℕ) (values : List ℕ)
      (closed : (u v : ℕ) → Memᴰ v (nexts search u) → Memᴰ v values) where
    -- What holds between the rounds.
    record IsTraversed (found : Bool) (working seen : List ℕ) : Type 0 where
      sound : (a : ℕ) → Memᴰ a seen → Uses search should_search start a
      within : (a : ℕ) → Memᴰ a working → Memᴰ a seen
      started : (a : ℕ) → Memᴰ a (nexts search start) → a ≢ 0 → Memᴰ a seen
      handled :
          (a : ℕ)
          → Memᴰ a seen
          → Memᴰ a working
            ⊎ (((found ≡ true) ⊎ (test a ≡ false))
                × ((b : ℕ) → Memᴰ b (followed search should_search test a) → b ≢ 0 → Memᴰ b seen))
      hit : found ≡ true → (a : ℕ) × Uses search should_search start a × (test a ≡ true)

    followed-values :
        (user v : ℕ) → Memᴰ v (followed search should_search test user) → Memᴰ v values
    followed-values user v m = elim (Bool-cases (should_search user)) [
      | inl s ↦ closed user v (rw s at m)
      | inr s ↦ absurd (Memᴰ.not-nil (rw s at m))
    ]

    followed-Uses :
        (user v : ℕ)
        → Uses search should_search start user
        → Memᴰ v (followed search should_search test user)
        → v ≢ 0
        → Uses search should_search start v
    followed-Uses user v u m n = elim (Bool-cases (should_search user)) [
      | inl s ↦ next u s (rw s at m) n
      | inr s ↦ absurd (Memᴰ.not-nil (rw s at m))
    ]

    IsTraversed-step :
        (found : Bool) (user : ℕ) (working seen : List ℕ)
        → IsTraversed found (user ∷ working) seen
        → IsTraversed
            (seen_test search should_search test found user)
            (behind search should_search test user working seen).working_set
            (behind search should_search test user working seen).seen_set
    IsTraversed-step found user working seen h =
        let c : Chain = record { working_set = working; seen_set = seen } in
        let c' = behind search should_search test user working seen in
        let added : IsAdded values (followed search should_search test user) c c' =
          add_to_work-IsAdded values (followed search should_search test user) c
            (followed-values user) in
        let to_user = h.sound user (h.within user (Memᴰ.head refl)) in
        let tested : (seen_test search should_search test found user ≡ true) ⊎ (test user ≡ false) =
          elim (Bool-cases (test user)) [ inl t ↦ inl (rw t refl) | inr t ↦ inr t ] in
        let old : (a : ℕ)
            → Memᴰ a seen
            → Memᴰ a c'.working_set
              ⊎ (((seen_test search should_search test found user ≡ true) ⊎ (test a ≡ false))
                  × ((b : ℕ)
                      → Memᴰ b (followed search should_search test a)
                      → b ≢ 0
                      → Memᴰ b c'.seen_set)) =
          λ a s. elim (h.handled a s) [
            | inl w ↦ elim (Memᴰ.cases_cons w) [
              | inl e ↦ inr (
                subst
                    (λ v.
                      (seen_test search should_search test found user ≡ true) ⊎ (test v ≡ false))
                    (sym e) tested,
                λ b m n.
                    added.entered b (subst (λ v. Memᴰ b (followed search should_search test v)) e m)
                      n,
              )
              | inr w' ↦ inl (added.waiting a w')
            ]
            | inr (t, f) ↦
                inr (⊎_elim (λ e. inl (ground arith)) inr t, λ b m n. added.kept b (f b m n))
          ] in
        record {
          sound = λ a s. elim (added.only a s) [
            | inl o ↦ h.sound a o
            | inr ((m, n), w) ↦ followed-Uses user a to_user m n
          ];
          within = λ a w.
              ⊎_elim (λ o. added.kept a (h.within a (Memᴰ.tail o))) (λ s. s) (added.added a w);
          started = λ a m n. added.kept a (h.started a m n);
          handled = λ a s. elim (added.only a s) [ inl o ↦ old a o | inr ((m, n), w) ↦ inl w ];
          hit = λ e. elim (Bool-cases (test user)) [
            | inl t ↦ (user, to_user, t)
            | inr t ↦ h.hit (rw t at e)
          ];
        }

    -- What the traversal answers.
    abbrev pub Found : Bool → Type 0
    Found found =
        ((found ≡ true) × (a : ℕ) × Uses search should_search start a × (test a ≡ true))
        ⊎ ((found ≡ false) × ((a : ℕ) → Uses search should_search start a → test a ≡ false))

    seen-Uses :
        (found : Bool) (seen : List ℕ)
        → IsTraversed found [] seen
        → (a : ℕ) → Uses search should_search start a
        → Memᴰ a seen
    seen-Uses found seen h a (first m n) = h.started a m n
    seen-Uses found seen h a (next {u} p s m n) = elim (h.handled u (seen-Uses found seen h u p)) [
      | inl w ↦ absurd (Memᴰ.not-nil w)
      | inr (_, f) ↦ f a (rw s m) n
    ]

    Found-IsTraversed : (found : Bool) (seen : List ℕ) → IsTraversed found [] seen → Found found
    Found-IsTraversed true seen h = let (a, u, t) = h.hit refl in inl (refl, a, u, t)
    Found-IsTraversed false seen h = inr (
      refl,
      λ a u. elim (h.handled a (seen-Uses false seen h a u)) [
        | inl w ↦ absurd (Memᴰ.not-nil w)
        | inr (t, _) ↦ ⊎_elim (λ e. absurd cc) (λ e. e) t
      ],
    )

    traverse_loop_lem :
        (fuel : ℕ) (found : Bool) (working seen : List ℕ)
        → IsTraversed found working seen
        → unvisited values seen + length working ≤ fuel
        → (f : Bool) × (traverse_loop search should_search (look_for test) fuel found working seen
            ≡ done f)
          × Found f
    unfolding traverse_loop
    traverse_loop_lem fuel found [] seen h b = (found, refl, Found-IsTraversed found seen h)
    traverse_loop_lem zero found (user ∷ working) seen h b = absurd (omega arith)
    traverse_loop_lem (suc fuel) found (user ∷ working) seen h b =
        let c : Chain = record { working_set = working; seen_set = seen } in
        let added =
          add_to_work-IsAdded values (followed search should_search test user) c
            (followed-values user) in
        let c' = behind search should_search test user working seen in
        let (f, e, answer) =
          traverse_loop_lem fuel (seen_test search should_search test found user) c'.working_set
            c'.seen_set (IsTraversed-step found user working seen h)
            (omega (arith, added.smaller)) in
        (f, traverse_step search should_search test fuel found user working seen ∙ e, answer)

    -- If a search stays among finitely many values, a traversal that looks for a value ends with a
    -- fuel not below their number. It answers true with a value to which the uses lead from the
    -- start and which passes the test, or false and each value to which they lead fails it. Uses
    -- do not lead on behind constant data, nor through null.
    pub find_use-Uses :
        (fuel : ℕ)
        → length values ≤ fuel
        → (f : Bool) × (find_use search should_search test fuel start ≡ done f) × Found f
    unfolding find_use do_traverse
    find_use-Uses fuel h =
        let c0 : Chain = record { working_set = []; seen_set = [] } in
        let c = add_to_work (nexts search start) c0 in
        let added = add_to_work-IsAdded values (nexts search start) c0 (closed start) in
        let begun : IsTraversed false c.working_set c.seen_set = record {
          sound = λ a s. elim (added.only a s) [
            | inl o ↦ absurd (Memᴰ.not-nil o)
            | inr ((m, n), w) ↦ first m n
          ];
          within = λ a w. ⊎_elim (λ o. absurd (Memᴰ.not-nil o)) (λ s. s) (added.added a w);
          started = added.entered;
          handled =
              λ a s. elim (added.only a s) [ inl o ↦ absurd (Memᴰ.not-nil o) | inr (_, w) ↦ inl w ];
          hit = λ e. absurd cc;
        } in
        let (f, e, answer) =
          traverse_loop_lem fuel false c.working_set c.seen_set begun
            (omega (arith, added.smaller, unvisited-nil values)) in
        (f, rw (apply_search_lem search should_search test start c0) e, answer)
