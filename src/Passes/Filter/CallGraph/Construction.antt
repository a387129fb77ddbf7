-- ===== src/Passes/Filter/CallGraph/Construction.antt =====
-- The call graph made of a JSON document.
use type_art.Prelude.{
  ◌≡◌, ◌≢◌, ◌↔◌, ◌⊎◌, inl, inr, refl, Bool, false, List, [], ◌∷◌, none, some, String, arith,
}
use mathlib.Core.Logic.{⊎_elim}
use mathlib.Core.List.{Memᴰ}
use mathlib.Core.List.Memᴰ
use type_art.Passes.IrTypes.{done}
use type_art.Passes.Filter.NameTables.{
  NameSet, find_key, assign_key, value_or, insert_name, find_key-assign_self, find_key-assign_ne,
  Memᴰ-cons, Memᴰ-insert_name,
}
use type_art.Passes.Filter.CallGraph.{
  JsonCg, JsonOps, insert_names, get_array, get_object, enter_has_body, enter_callees,
  enter_overriding,
}
use type_art.Passes.Filter.CallGraph.Bodies.{has_body}

-- What a document says of a function.
pub record CallData : Type 0 where
  pub callees : List String
  pub overriding : List String
  pub body : Bool

module _ {J : Type 0} (ops : JsonOps J) where
  -- An array of strings.
  pub data Texts : List J → List String → Type 0 where
    no_more : Texts [] []
    one_more :
        {value : J} {values : List J} {name : String} {names : List String}
        → ops.as_string value ≡ some name
        → Texts values names
        → Texts (value ∷ values) (name ∷ names)

  -- The values under the keys that the constructor reads have the kinds that it asserts.
  pub record IsFunction (object : List (String × J)) (d : CallData) : Type 0 where
    pub with_body :
        ((find_key "hasBody" object ≡ none) × (d.body ≡ false))
        ⊎ ((value : J) × (find_key "hasBody" object ≡ some value)
            × (ops.as_boolean value ≡ some d.body))
    pub with_callees :
        (values : List J) × (get_array ops object "callees" ≡ some values) × Texts values d.callees
    pub with_overriding :
        ((get_array ops object "overriddenBy" ≡ none) × (d.overriding ≡ []))
        ⊎ ((values : List J) × (get_array ops object "overriddenBy" ≡ some values)
            × Texts values d.overriding)

  -- A document, and what it says of each name.
  abbrev pub Describes : List (String × J) → (String → CallData) → Type 0
  Describes tlobj doc =
      (name : String)
      → ((get_object ops tlobj name ≡ none)
          × (doc name ≡ record { callees = []; overriding = []; body = false }))
        ⊎ ((object : List (String × J)) × (get_object ops tlobj name ≡ some object)
            × IsFunction object (doc name))

  insert_names_lem :
      (values : List J) (texts : List String) (names : NameSet)
      → Texts values texts
      → (all : NameSet) × (insert_names ops values names ≡ done all)
        × ((a : String) → Memᴰ a all ↔ (Memᴰ a names ⊎ Memᴰ a texts))
  unfolding insert_names
  insert_names_lem [] [] names no_more =
      (names, refl, λ a. (inl, ⊎_elim (λ m. m) (λ m. absurd (Memᴰ.not-nil m))))
  insert_names_lem [] (name ∷ texts) names t = elim t [ ]
  insert_names_lem (value ∷ values) [] names t = elim t [ ]
  insert_names_lem (value ∷ values) (name ∷ texts) names (one_more e t) =
      let (all, done_all, exact) = insert_names_lem values texts (insert_name name names) t in
      (
        all,
        rw (e, insert_names) done_all,
        λ a. ground (arith, exact a, Memᴰ-insert_name a name names, Memᴰ-cons a name texts),
      )

  Texts-nil : {texts : List String} → Texts [] texts → texts ≡ []
  Texts-nil no_more = refl

  pub enter_has_body_lem :
      (name : String) (object : List (String × J)) (d : CallData) (cg : JsonCg)
      → IsFunction object d
      → find_key name cg.has_body_map ≡ none
      → (cg' : JsonCg) × (enter_has_body ops name object cg ≡ done cg')
        × (cg'.directly_called_functions ≡ cg.directly_called_functions)
        × (cg'.virtual_targets ≡ cg.virtual_targets)
        × (has_body cg' name ≡ d.body)
        × ((a : String) → name ≢ a → find_key a cg'.has_body_map ≡ find_key a cg.has_body_map)
  unfolding enter_has_body
  enter_has_body_lem name object d cg h fresh = elim h.with_body [
    | inl (e, b) ↦ (cg, rw (e, enter_has_body) refl, refl, refl, rw (fresh, b) refl, λ a ne. refl)
    | inr (value, e, b) ↦ (
      record cg { has_body_map = assign_key name d.body cg.has_body_map },
      rw (e, b, enter_has_body) refl,
      refl,
      refl,
      rw (find_key-assign_self name d.body cg.has_body_map) refl,
      λ a ne. find_key-assign_ne name a d.body cg.has_body_map ne,
    )
  ]

  pub enter_callees_lem :
      (name : String) (object : List (String × J)) (d : CallData) (cg : JsonCg)
      → IsFunction object d
      → find_key name cg.directly_called_functions ≡ some []
      → (names : NameSet) × (enter_callees ops name object cg
          ≡ done (record cg {
            directly_called_functions = assign_key name names cg.directly_called_functions;
          }))
        × ((a : String) → Memᴰ a names ↔ Memᴰ a d.callees)
  unfolding enter_callees
  enter_callees_lem name object d cg h marked =
      let (values, e, t) = h.with_callees in
      let (names, all, exact) = insert_names_lem values d.callees [] t in
      (
        names,
        rw (e, marked, all, enter_callees) refl,
        λ a. (
          (λ m. ⊎_elim (λ n. absurd (Memᴰ.not-nil n)) (λ n. n) ((exact a).0 m)),
          λ m. (exact a).1 (inr m),
        ),
      )

  pub enter_overriding_lem :
      (name : String) (object : List (String × J)) (d : CallData) (cg : JsonCg)
      → IsFunction object d
      → find_key name cg.virtual_targets ≡ none
      → (table : List (String × NameSet)) × (enter_overriding ops name object cg
          ≡ done (record cg { virtual_targets = table }))
        × ((a : String) → Memᴰ a (value_or [] (find_key name table)) ↔ Memᴰ a d.overriding)
        × ((a : String) → name ≢ a → find_key a table ≡ find_key a cg.virtual_targets)
  unfolding enter_overriding
  enter_overriding_lem name object d cg h fresh = elim h.with_overriding [
    | inl (e, o) ↦ (
      cg.virtual_targets,
      rw (e, enter_overriding) refl,
      (λ a. rw (fresh, o) (λ m. m, λ m. m)),
      λ a ne. refl,
    )
    | inr ([], e, t) ↦ (
      cg.virtual_targets,
      rw (e, enter_overriding) refl,
      (λ a. rw (fresh, Texts-nil t) (λ m. m, λ m. m)),
      λ a ne. refl,
    )
    | inr (value ∷ values, e, t) ↦
        let (names, all, exact) = insert_names_lem (value ∷ values) d.overriding [] t in
        (
          assign_key name names cg.virtual_targets,
          rw (e, fresh, all, enter_overriding) refl,
          (λ a. rw (find_key-assign_self name names cg.virtual_targets) (
            (λ m. ⊎_elim (λ n. absurd (Memᴰ.not-nil n)) (λ n. n) ((exact a).0 m)),
            λ m. (exact a).1 (inr m),
          )),
          λ a ne. find_key-assign_ne name a names cg.virtual_targets ne,
        )
  ]
