-- ===== src/Tests/CallGraphs.antt =====
-- A call graph of three functions, read from JSON.
use type_art.Prelude.{
  ◌≤◌, ◌≡◌, ◌↔◌, ◌⊎◌, inl, inr, refl, Bool, true, false, not, List, [], ◌∷◌, map, none, some,
  String, ◌&&◌, ◌||◌, if◌then◌else◌, Bool-cases, arith,
}
use mathlib.Core.List.{Memᴰ}
use text.Mathlib.Text.{◌==◌ as str_eq}
use type_art.Passes.IrTypes.{done}
use type_art.Passes.Filter.NameTables.{
  NameSet, find_key, value_or, has_name, insert_name, merge_names,
}
use type_art.Passes.Filter.CallGraph.{
  ReachabilityResult, reaches, maybe_reaches, never_reaches, JsonCg, JsonOps,
  get_directly_called_function_names, get_reachable_functions, reachable, get_object, json_cg,
}
use type_art.Passes.Filter.CallGraph.Ends.{IsBegin, call_bound}
use type_art.Passes.Filter.CallGraph.Worklist.{Reaches, get_reachable_functions-Reaches}
use type_art.Passes.Filter.CallGraph.Bodies.{has_body, HasLookedUp}
use type_art.Passes.Filter.CallGraph.Reachability.{is_leaf, reachable-answer}
use type_art.Passes.Filter.CallGraph.Construction.{
  CallData, Texts, no_more, one_more, IsFunction, Describes,
}
use type_art.Passes.Filter.CallGraph.Document.{json_cg-document}

-- The JSON values of such a file: a file has functions, and a function lists of names.
data Json : Type 0 where
  string : String → Json
  flag : Bool → Json
  strings : List String → Json
  function : CallData → Json
  file : List (String × CallData) → Json

abbrev members : CallData → List (String × Json)
members d =
    ("hasBody", flag d.body)
    ∷ ("callees", strings d.callees)
    ∷ ("overriddenBy", strings d.overriding)
    ∷ []

abbrev functions : List (String × CallData) → List (String × Json)
functions [] = []
functions ((name, d) ∷ rest) = (name, function d) ∷ functions rest

abbrev ops : JsonOps Json
ops = record {
  as_object = λ j. elim j [
    | function d ↦ some (members d)
    | file entries ↦ some (functions entries)
    | _ ↦ none
  ];
  as_array = λ j. elim j [ strings names ↦ some (map string names) | _ ↦ none ];
  as_string = λ j. elim j [ string name ↦ some name | _ ↦ none ];
  as_boolean = λ j. elim j [ flag b ↦ some b | _ ↦ none ];
}

abbrev table : List (String × CallData)
table =
    ("main", record { callees = "solve" ∷ []; overriding = []; body = true })
    ∷ ("solve", record { callees = "MPI_Send" ∷ []; overriding = "fast_solve" ∷ []; body = true })
    ∷ ("MPI_Send", record { callees = []; overriding = []; body = false })
    ∷ []

abbrev described : String → CallData
described name =
    value_or (record { callees = []; overriding = []; body = false }) (find_key name table)

strings-Texts : (names : List String) → Texts ops (map string names) names
strings-Texts [] = no_more
strings-Texts (name ∷ names) = one_more refl (strings-Texts names)

members-IsFunction : (d : CallData) → IsFunction ops (members d) d
unfolding find_key
members-IsFunction d = record {
  with_body = inr (flag d.body, refl, refl);
  with_callees = (map string d.callees, refl, strings-Texts d.callees);
  with_overriding = inr (map string d.overriding, refl, strings-Texts d.overriding);
}

functions-Describes :
    (entries : List (String × CallData))
    → Describes ops (functions entries) (λ name.
      value_or (record { callees = []; overriding = []; body = false }) (find_key name entries))
unfolding find_key
functions-Describes [] name = inl (refl, refl)
functions-Describes ((n, d) ∷ rest) name = elim (Bool-cases (str_eq n name)) [
  | inl e ↦ rw (e, get_object) (inr (members d, refl, members-IsFunction d))
  | inr e ↦ rw (e, get_object) (functions-Describes rest name)
]

json_cg-document_example :
    (cg : JsonCg) × (json_cg ops (file table) ≡ done cg)
    × ((caller : String)
        → ((callee : String)
            → Memᴰ callee (get_directly_called_function_names cg caller true) ↔ (
                Memᴰ callee (described caller).callees ⊎ Memᴰ callee (described caller).overriding))
          × (has_body cg caller ≡ (described caller).body))
json_cg-document_example =
    json_cg-document ops (functions table) described (functions-Describes table) (file table) refl

abbrev sample : JsonCg
sample = record {
  directly_called_functions =
      ("main", "solve" ∷ []) ∷ ("solve", "MPI_Send" ∷ []) ∷ ("MPI_Send", []) ∷ [];
  has_body_map = ("main", true) ∷ ("solve", true) ∷ ("MPI_Send", false) ∷ [];
  virtual_targets = ("solve", "fast_solve" ∷ []) ∷ [];
  no_call_chain = 0;
  call_chain = 0;
  f = [];
}

abbrev first_name : String → NameSet → String
first_name x rest = x

first_name-IsBegin : IsBegin first_name
first_name-IsBegin x rest = Memᴰ.head refl

sample_bound : call_bound sample "main" true ≤ 9
unfolding find_key has_name merge_names insert_name get_directly_called_function_names
sample_bound = omega arith

get_reachable_functions-Reaches_example :
    (result : NameSet) × (get_reachable_functions first_name sample 9 "main" true ≡ done result)
    × ((a : String)
        → (Memᴰ a result → Reaches sample true "main" a)
          × (Reaches sample true "main" a → Memᴰ a result))
get_reachable_functions-Reaches_example =
    get_reachable_functions-Reaches sample first_name first_name-IsBegin true "main" 9 sample_bound

abbrev is_name : String → String → Bool → Bool
is_name pattern name _ = str_eq pattern name

reachable-answer_example :
    (answer : ReachabilityResult) × (cg' : JsonCg) × (reachable is_name first_name 9 sample "main"
        "MPI_Recv" false true
      ≡ done (answer, cg'))
    × HasLookedUp
        (λ name. str_eq "main" name || (not (is_leaf sample "main") && str_eq "MPI_Recv" name))
        sample
        cg'
    × (((answer ≡ reaches)
          × (a : String) × Reaches sample true "main" a
          × (is_name "MPI_Recv" a false ≡ true))
        ⊎ (((a : String) → Reaches sample true "main" a → is_name "MPI_Recv" a false ≡ false)
            × (answer ≡ (
                if (is_leaf sample "main" || has_body sample "MPI_Recv") && has_body sample "main"
                then never_reaches
                else maybe_reaches))))
reachable-answer_example =
    reachable-answer is_name first_name first_name-IsBegin 9 sample "main" "MPI_Recv" false true
      sample_bound
