-- ===== src/Passes/DefUseChain/Steps.antt =====
-- One round of a traversal that looks for a value.
use type_art.Prelude.{
  ℕ, suc, ◌≡◌, inl, inr, refl, ap, ◌∙◌, Bool, true, List, [], ◌∷◌, Option, if◌then◌else◌,
  Bool-cases, Option-cases,
}
use type_art.Passes.IrTypes.{Built}
use type_art.Passes.DefUseChain.{
  Chain, add_to_work, apply_search, after_match, traverse_loop, look_for,
}
use type_art.Passes.DefUseChain.Uses.{nexts}

module _ (search : ℕ → Option (List ℕ)) (should_search : ℕ → Bool) (test : ℕ → Bool) where
  pub apply_search_lem :
      (v : ℕ) (c : Chain)
      → apply_search search should_search (look_for test) v c ≡ add_to_work (nexts search v) c
  unfolding apply_search add_to_work
  apply_search_lem v c = elim (Option-cases (search v)) [
    | inl e ↦ rw (e, apply_search) refl
    | inr (vals, e) ↦ rw (e, apply_search) refl
  ]

  -- What the traversal goes on with behind a value.
  abbrev pub followed : ℕ → List ℕ
  followed user = if should_search user then nexts search user else []

  abbrev pub seen_test : Bool → ℕ → Bool
  seen_test found user = if test user then true else found

  abbrev pub behind : ℕ → List ℕ → List ℕ → Chain
  behind user working seen =
      add_to_work (followed user) (record { working_set = working; seen_set = seen })

  look_for-found : (found : Bool) (user : ℕ) → (look_for test found user).0 ≡ seen_test found user
  look_for-found found user = elim (Bool-cases (test user)) [
    | inl t ↦ rw t refl
    | inr t ↦ rw t refl
  ]

  after_match-behind :
      (found : Bool) (user : ℕ) (working seen : List ℕ)
      → after_match search should_search
          (look_for test)
          (look_for test found user).1
          user
          (record { working_set = working; seen_set = seen })
        ≡ behind user working seen
  unfolding add_to_work
  after_match-behind found user working seen =
      let same = apply_search_lem user (record { working_set = working; seen_set = seen }) in
      elim (Bool-cases (test user)) [
        | inl t ↦
            rw t (elim (Bool-cases (should_search user)) [ inl s ↦ rw s same | inr s ↦ rw s refl ])
        | inr t ↦
            rw t (elim (Bool-cases (should_search user)) [ inl s ↦ rw s same | inr s ↦ rw s refl ])
      ]

  abbrev go_on : ℕ → Bool → Chain → Built Bool
  go_on fuel found c =
      traverse_loop search should_search (look_for test) fuel found c.working_set c.seen_set

  pub traverse_step :
      (fuel : ℕ) (found : Bool) (user : ℕ) (working seen : List ℕ)
      → traverse_loop search should_search (look_for test) (suc fuel) found (user ∷ working) seen
        ≡ go_on fuel (seen_test found user) (behind user working seen)
  unfolding traverse_loop
  traverse_step fuel found user working seen =
      ap
        (λ (s : Bool). go_on fuel s (
          after_match search should_search (look_for test) (look_for test found user).1 user
            (record { working_set = working; seen_set = seen })))
        (look_for-found found user)
      ∙ ap (go_on fuel (seen_test found user)) (after_match-behind found user working seen)
