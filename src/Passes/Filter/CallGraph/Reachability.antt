-- ===== src/Passes/Filter/CallGraph/Reachability.antt =====
-- What `reachable` answers.
use type_art.Prelude.{
  ℕ, ◌≤◌, ◌≡◌, ◌⊎◌, inl, inr, refl, ◌∙◌, arith, Bool, true, false, not, ◌&&◌, ◌||◌, [], ◌∷◌, String,
  if◌then◌else◌,
}
use mathlib.Core.List.{Memᴰ}
use mathlib.Core.List.Memᴰ
use text.Mathlib.Text.{◌==◌ as str_eq}
use type_art.Passes.IrTypes.{done}
use type_art.Passes.Filter.NameTables.{NameSet}
use type_art.Passes.Filter.CallGraph.{
  ReachabilityResult, reaches, maybe_reaches, never_reaches, JsonCg, match_loop, count_source,
  without_match, get_directly_called_function_names, reachable,
}
use type_art.Passes.Filter.CallGraph.Ends.{IsBegin, call_bound}
use type_art.Passes.Filter.CallGraph.Worklist.{
  Reaches, call, further, get_reachable_functions-Reaches,
}
use type_art.Passes.Filter.CallGraph.Bodies.{
  has_body, is_empty, HasLookedUp, HasLookedUp-has_body, HasLookedUp-same, HasLookedUp-trans,
  count_source-HasLookedUp, without_match-HasLookedUp, without_match-answer, match_loop-HasLookedUp,
  match_loop_cases,
}

-- Whether no function is called from `source`.
abbrev pub is_leaf : JsonCg → String → Bool
is_leaf cg source = is_empty (get_directly_called_function_names cg source true)

Reaches-called :
    (cg : JsonCg) (source a : String)
    → Reaches cg true source a
    → (b : String) × Memᴰ b (get_directly_called_function_names cg source true)
Reaches-called cg source a (call m) = (a, m)
Reaches-called cg source a (further {function} p m) = Reaches-called cg source function p

is_empty_same :
    (xs ys : NameSet)
    → ((a : String) → Memᴰ a xs → (b : String) × Memᴰ b ys)
    → ((a : String) → Memᴰ a ys → (b : String) × Memᴰ b xs)
    → is_empty xs ≡ is_empty ys
is_empty_same [] [] f g = refl
is_empty_same [] (y ∷ ys) f g = absurd (Memᴰ.not-nil (g y (Memᴰ.head refl)).1)
is_empty_same (x ∷ xs) [] f g = absurd (Memᴰ.not-nil (f x (Memᴰ.head refl)).1)
is_empty_same (x ∷ xs) (y ∷ ys) f g = refl

is_empty-Reaches :
    (cg : JsonCg) (source : String) (names : NameSet)
    → ((a : String)
        → (Memᴰ a names → Reaches cg true source a) × (Reaches cg true source a → Memᴰ a names))
    → is_empty names ≡ is_leaf cg source
is_empty-Reaches cg source names h =
    is_empty_same names (get_directly_called_function_names cg source true)
      (λ a m. Reaches-called cg source a ((h a).0 m)) (λ a m. (a, (h a).1 (call m)))

module _ (regex_matches : String → String → Bool → Bool) (begin : String → NameSet → String)
    (is_begin : IsBegin begin) where
  -- With a fuel not below `call_bound` `reachable` answers. It leaves the calls and the overriding
  -- functions of the graph as they were, and the entries of `has_body_map` too, but for those it
  -- looks up, which it makes if they are not there, without a body: the source and, unless the
  -- source calls nothing, the pattern. Either it answers `reaches` and the pattern matches a
  -- function that the source reaches; or the pattern matches none of those, and the answer is
  -- `never_reaches` if the graph knows a body of the source and, unless the source calls nothing,
  -- one of a function with the pattern as its name, and else `maybe_reaches`. The bodies of the
  -- functions reached have no part in it.
  pub reachable-answer :
      (fuel : ℕ) (cg : JsonCg) (source target : String) (case_sensitive short_circuit : Bool)
      → call_bound cg source true ≤ fuel
      → (answer : ReachabilityResult) × (cg' : JsonCg) × (reachable regex_matches begin fuel cg
            source target case_sensitive short_circuit
          ≡ done (answer, cg'))
        × HasLookedUp
            (λ name. str_eq source name || (not (is_leaf cg source) && str_eq target name))
            cg
            cg'
        × (((answer ≡ reaches)
              × (a : String) × Reaches cg true source a
              × (regex_matches target a case_sensitive ≡ true))
            ⊎ (((a : String)
                  → Reaches cg true source a
                  → regex_matches target a case_sensitive ≡ false)
                × (answer ≡ (
                    if (is_leaf cg source || has_body cg target) && has_body cg source
                    then never_reaches
                    else maybe_reaches))))
  unfolding reachable
  reachable-answer fuel cg source target case_sensitive short_circuit h =
      let (names, e, exact) =
        get_reachable_functions-Reaches cg begin is_begin true source fuel h in
      let cg1 = count_source source names cg in
      let leaf = is_empty-Reaches cg source names exact in
      let same1 = count_source-HasLookedUp source names cg in
      let looked =
        match_loop regex_matches target case_sensitive short_circuit false true cg1 names in
      let same2 = HasLookedUp-trans same1 (
        match_loop-HasLookedUp regex_matches target case_sensitive short_circuit false true cg1
          names) in
      rw e
        (elim (match_loop_cases regex_matches target case_sensitive short_circuit true cg1 names) [
          | inl (t, a, m, r) ↦ (
            reaches,
            looked.1,
            rw t refl,
            HasLookedUp-same (λ n. rw leaf refl) same2,
            inl (refl, a, (exact a).0 m, r),
          )
          | inr (f, no_match, bodies) ↦
              let after = without_match source looked.0.1 looked.1 in
              (
                after.0,
                after.1,
                rw f refl,
                HasLookedUp-same (λ n. rw leaf (ground arith))
                    (HasLookedUp-trans same2
                      (without_match-HasLookedUp source looked.0.1 looked.1)),
                inr (
                  λ a r. no_match a ((exact a).1 r),
                  without_match-answer source looked.0.1 looked.1
                      ∙ rw
                          (
                            bodies,
                            HasLookedUp-has_body source same2,
                            HasLookedUp-has_body target same1,
                            leaf,
                          )
                          refl,
                ),
              )
        ])
