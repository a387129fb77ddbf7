-- ===== src/Passes/Filter/CallGraph/Document.antt =====
-- The call graph answers as its document says.
use type_art.Prelude.{
  ◌≡◌, ◌≢◌, ◌↔◌, ◌⊎◌, inl, inr, refl, sym, subst, ◌∙◌, true, false, List, [], ◌∷◌, none, some,
  none-ne-some, String, Bool-cases, Option-cases, arith,
}
use mathlib.Core.Logic.{⊎_elim}
use mathlib.Core.List.{Memᴰ}
use mathlib.Core.List.Memᴰ
use text.Mathlib.Text.{◌==◌ as str_eq}
use text.Mathlib.TextEquality.{eq_iff}
use type_art.Passes.IrTypes.{done}
use type_art.Passes.Filter.NameTables.{find_key, value_or, Memᴰ-merge_names}
use type_art.Passes.Filter.CallGraph.{
  JsonCg, JsonOps, get_directly_called_function_names, get_object, construct_all, empty_cg, json_cg,
}
use type_art.Passes.Filter.CallGraph.Bodies.{has_body}
use type_art.Passes.Filter.CallGraph.Construction.{CallData, Describes}
use type_art.Passes.Filter.CallGraph.Functions.{
  IsFresh, IsEntered, IsEntered-IsSameAt, IsFresh-IsSameAt, IsBuilt, construct_call_information_lem,
}

module _ {J : Type 0} (ops : JsonOps J) (tlobj : List (String × J)) (doc : String → CallData)
    (describes : Describes ops tlobj doc) where
  construct_all_lem :
      (entries : List (String × J)) (cg : JsonCg)
      → IsBuilt ops tlobj doc describes cg
      → (cg' : JsonCg) × (construct_all ops entries tlobj cg ≡ done cg')
        × ((a : String) → IsEntered (doc a) cg a → IsEntered (doc a) cg' a)
        × ((a : String) → IsEntered (doc a) cg' a ⊎ (IsFresh cg' a × (find_key a entries ≡ none)))
  unfolding construct_all find_key
  construct_all_lem [] cg built =
      (cg, refl, λ a h. h, λ a. ⊎_elim (λ f. inr (f, refl)) inl (built a))
  construct_all_lem ((name, value) ∷ entries) cg built =
      let (cg1, e, entered, same) =
        construct_call_information_lem ops tlobj doc describes name cg built in
      let at : (a : String) → (name ≡ a) ⊎ (name ≢ a) = λ a. elim (Bool-cases (str_eq name a)) [
        | inl s ↦ inl ((eq_iff name a).0 s)
        | inr s ↦ inr (λ q. cc (s, (eq_iff name a).1 q))
      ] in
      let kept : (a : String) → IsEntered (doc a) cg a → IsEntered (doc a) cg1 a = λ a h.
        elim (at a) [
          | inl s ↦ subst (λ b. IsEntered (doc b) cg1 b) s entered
          | inr ne ↦ IsEntered-IsSameAt ops tlobj doc describes (doc a) a cg cg1 (same a ne) h
        ] in
      let built1 : IsBuilt ops tlobj doc describes cg1 = λ a. elim (at a) [
        | inl s ↦ inr (subst (λ b. IsEntered (doc b) cg1 b) s entered)
        | inr ne ↦
            ⊎_elim (λ f. inl (IsFresh-IsSameAt ops tlobj doc describes a cg cg1 (same a ne) f))
              (λ h. inr (kept a h)) (built a)
      ] in
      let (cg', e', kept', all) = construct_all_lem entries cg1 built1 in
      (
        cg',
        rw (e, construct_all) e',
        (λ a h. kept' a (kept a h)),
        λ a. elim (at a) [
          | inl s ↦ inl (kept' a (subst (λ b. IsEntered (doc b) cg1 b) s entered))
          | inr ne ↦ ⊎_elim inl (λ (f, n). inr (f, ground (arith, eq_iff name a))) (all a)
        ],
      )

  called-IsEntered :
      (name : String) (cg : JsonCg)
      → IsEntered (doc name) cg name
      → (callee : String)
      → Memᴰ callee (get_directly_called_function_names cg name true)
        ↔ (Memᴰ callee (doc name).callees ⊎ Memᴰ callee (doc name).overriding)
  unfolding get_directly_called_function_names
  called-IsEntered name cg h callee = elim (Option-cases (find_key name cg.virtual_targets)) [
    | inl e ↦
        let o : Memᴰ callee (value_or [] none) ↔ Memᴰ callee (doc name).overriding =
          subst (λ t. Memᴰ callee (value_or [] t) ↔ Memᴰ callee (doc name).overriding) e
            (h.overriding callee) in
        rw (h.calls, e, get_directly_called_function_names)
          (
            λ m. inl ((h.callees callee).0 m),
            ⊎_elim (h.callees callee).1 (λ m. absurd (Memᴰ.not-nil (o.1 m))),
          )
    | inr (targets, e) ↦
        let o : Memᴰ callee targets ↔ Memᴰ callee (doc name).overriding =
          subst (λ t. Memᴰ callee (value_or [] t) ↔ Memᴰ callee (doc name).overriding) e
            (h.overriding callee) in
        rw (h.calls, e, get_directly_called_function_names)
          (ground (arith, Memᴰ-merge_names callee h.names targets, o, h.callees callee))
  ]

  called-IsFresh :
      (name : String) (cg : JsonCg)
      → IsFresh cg name
      → doc name ≡ record { callees = []; overriding = []; body = false }
      → ((callee : String)
          → Memᴰ callee (get_directly_called_function_names cg name true)
            ↔ (Memᴰ callee (doc name).callees ⊎ Memᴰ callee (doc name).overriding))
        × (has_body cg name ≡ (doc name).body)
  unfolding get_directly_called_function_names
  called-IsFresh name cg fresh d = (
    λ callee.
        rw (fresh.calls, d, get_directly_called_function_names) (inl, ⊎_elim (λ m. m) (λ m. m)),
    rw (d, fresh.bodies) refl,
  )

  get_object-none : (name : String) → find_key name tlobj ≡ none → get_object ops tlobj name ≡ none
  get_object-none name e = rw (e, get_object) refl

  -- From a JSON object whose functions have the kinds of values that the constructor asserts, it
  -- makes a graph without a failed assertion. For any name the graph has as calls exactly the
  -- callees and the overriding functions that the document lists under it, and it knows a body
  -- exactly if the document says so.
  pub json_cg-document :
      (value : J)
      → ops.as_object value ≡ some tlobj
      → (cg : JsonCg) × (json_cg ops value ≡ done cg)
        × ((caller : String)
            → ((callee : String)
                → Memᴰ callee (get_directly_called_function_names cg caller true)
                  ↔ (Memᴰ callee (doc caller).callees ⊎ Memᴰ callee (doc caller).overriding))
              × (has_body cg caller ≡ (doc caller).body))
  unfolding json_cg find_key
  json_cg-document value h =
      let (cg, e, _, all) =
        construct_all_lem tlobj empty_cg
          (λ a. inl (record { calls = refl; targets = refl; bodies = refl })) in
      (
        cg,
        rw (h, json_cg) e,
        λ caller. elim (all caller) [
          | inl entered ↦ (called-IsEntered caller cg entered, entered.bodies)
          | inr (fresh, missing) ↦ elim (describes caller) [
            | inl (_, d) ↦ called-IsFresh caller cg fresh d
            | inr (object, g, _) ↦ absurd (none-ne-some (sym (get_object-none caller missing) ∙ g))
          ]
        ],
      )
