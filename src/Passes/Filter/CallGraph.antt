-- ===== src/Passes/Filter/CallGraph.antt =====
-- lib/passes/filter/CGInterface.cpp: the call graph that a JSON file describes, and which functions
-- are reached from a function. A set is walked in the order of its list, and `begin` says which name
-- of a set, given as its head and the rest, `*begin()` is.
pub mod Ends
pub mod Worklist
pub mod Bodies
pub mod Reachability
pub mod Construction
pub mod Functions
pub mod Document
use type_art.Prelude.{
  ℕ, zero, suc, ◌+◌, Bool, true, false, not, ◌&&◌, ◌||◌, List, [], ◌∷◌, ◌++◌, Option, none, some,
  String, if◌then◌else◌,
}
use type_art.Passes.IrTypes.{Built, done, failed_assert, out_of_fuel, ◌>>=◌, ◌>>◌, assert}
use type_art.Passes.Filter.NameTables.{
  NameSet, find_key, assign_key, subscript_key, value_or, has_name, insert_name, merge_names,
  erase_name,
}

pub data ReachabilityResult : Type 0 where
  reaches maybe_reaches never_reaches unknown : ReachabilityResult

pub record JsonCg : Type 0 where
  pub directly_called_functions : List (String × NameSet)
  pub has_body_map : List (String × Bool)
  pub virtual_targets : List (String × NameSet)
  pub no_call_chain : ℕ
  pub call_chain : ℕ
  pub f : List String

-- The values of `llvm::json`, with what `getAsObject` and the like answer: nothing for a value of
-- another kind. `get` of an object is the value under a key.
pub record JsonOps (J : Type 0) : Type 0 where
  pub as_object : J → Option (List (String × J))
  pub as_array : J → Option (List J)
  pub as_string : J → Option String
  pub as_boolean : J → Option Bool

unfoldable pub get_directly_called_function_names : JsonCg → String → Bool → NameSet
get_directly_called_function_names cg caller consider_overrides =
    elim (find_key caller cg.directly_called_functions) [
      | none ↦ []
      | some callees ↦ elim (find_key caller cg.virtual_targets) [
        | none ↦ callees
        | some targets ↦ if consider_overrides then merge_names callees targets else callees
      ]
    ]

module _ (begin : String → NameSet → String) (cg : JsonCg) where
  -- The loop of `get_reachable_functions`, on fuel for its rounds.
  unfoldable pub reachable_loop : ℕ → NameSet → NameSet → Built NameSet
  reachable_loop fuel ret [] = done ret
  reachable_loop zero ret (x ∷ worklist) = out_of_fuel
  reachable_loop (suc fuel) ret (x ∷ worklist) =
      let func_name = begin x worklist in
      let again = reachable_loop fuel ret (erase_name func_name (x ∷ worklist)) in
      let called = get_directly_called_function_names cg func_name true in
      let further =
        reachable_loop fuel (insert_name func_name ret)
          (erase_name func_name (merge_names (x ∷ worklist) called)) in
      if has_name func_name ret then again else further

  unfoldable pub get_reachable_functions : ℕ → String → Bool → Built NameSet
  get_reachable_functions fuel caller consider_overrides =
      reachable_loop fuel [] (get_directly_called_function_names cg caller consider_overrides)

-- `hasBodyMap[name]`, which enters `false` for a name that is not there.
unfoldable pub read_has_body : String → JsonCg → Bool × JsonCg
read_has_body name cg =
    let (has_body, m) = subscript_key false name cg.has_body_map in
    (has_body, record cg { has_body_map = m })

-- `allBodies && hasBodyMap[name]`, which reads the map only if all had bodies before.
unfoldable pub and_has_body : Bool → String → JsonCg → Bool × JsonCg
and_has_body false name cg = (false, cg)
and_has_body true name cg = read_has_body name cg

-- `if (!hasBodyMap[source]) ++no_call_chain;` and `if (!reachables.empty()) ...`
unfoldable pub count_source : String → NameSet → JsonCg → JsonCg
count_source source reachables cg =
    let (has_body, cg') = read_has_body source cg in
    let cg'' = if has_body then cg' else record cg' { no_call_chain = cg'.no_call_chain + 1 } in
    elim reachables [
      | [] ↦ cg''
      | _ ∷ _ ↦ record cg'' { call_chain = cg''.call_chain + 1; f = cg''.f ++ source ∷ [] }
    ]

-- The tests behind the loop.
unfoldable pub without_match : String → Bool → JsonCg → ReachabilityResult × JsonCg
without_match source all_bodies cg =
    if all_bodies
    then (let (has_body, cg') = read_has_body source cg in
        (if has_body then never_reaches else maybe_reaches, cg'))
    else (maybe_reaches, cg)

-- `util::regex_matches`, LLVM's `Regex`: pattern, text, case sensitive.
module _ (regex_matches : String → String → Bool → Bool) where
  -- The loop of `reachable`, which ends early with a match: `matches`, `allBodies` and the graph.
  unfoldable pub match_loop :
      String → Bool → Bool → Bool → Bool → JsonCg → NameSet → (Bool × Bool) × JsonCg
  match_loop target case_sensitive short_circuit matches all_bodies cg [] =
      ((matches, all_bodies), cg)
  match_loop target case_sensitive short_circuit matches all_bodies cg (function_n ∷ rest) =
      let matches' = matches || regex_matches target function_n case_sensitive in
      let (all_bodies', cg') = and_has_body all_bodies target cg in
      let continued =
        match_loop target case_sensitive short_circuit matches' all_bodies' cg' rest in
      if matches' && short_circuit then ((true, all_bodies'), cg') else continued

  unfoldable pub reachable :
      (String → NameSet → String)
      → ℕ
      → JsonCg
      → String
      → String
      → Bool
      → Bool
      → Built (ReachabilityResult × JsonCg)
  reachable begin fuel cg source target case_sensitive short_circuit = do
    reachables ← get_reachable_functions begin cg fuel source true
    let ((matches, all_bodies), cg') =
        match_loop target case_sensitive short_circuit false true
          (count_source source reachables cg) reachables
    done (if matches then (reaches, cg') else without_match source all_bodies cg')

unfoldable pub decl_only : List (String × Bool) → List String
decl_only [] = []
decl_only ((func, has_body) ∷ m) = if has_body then decl_only m else func ∷ decl_only m

abbrev pub get_decl_only : JsonCg → List String
get_decl_only cg = decl_only cg.has_body_map

abbrev pub empty_cg : JsonCg
empty_cg = record {
  directly_called_functions = [];
  has_body_map = [];
  virtual_targets = [];
  no_call_chain = 0;
  call_chain = 0;
  f = [];
}

abbrev pub mark_handled : String → JsonCg → JsonCg
mark_handled caller cg = record cg {
  directly_called_functions = assign_key caller [] cg.directly_called_functions;
}

module _ {J : Type 0} (ops : JsonOps J) where
  -- The two loops of `construct_call_information`: the names in an array, into the set of a caller.
  unfoldable pub insert_names : List J → NameSet → Built NameSet
  insert_names [] names = done names
  insert_names (value ∷ values) names = elim (ops.as_string value) [
    | none ↦ failed_assert
    | some name ↦ insert_names values (insert_name name names)
  ]

  abbrev pub get_array : List (String × J) → String → Option (List J)
  get_array object key = elim (find_key key object) [
    | none ↦ none
    | some value ↦ ops.as_array value
  ]

  abbrev pub get_object : List (String × J) → String → Option (List (String × J))
  get_object object key = elim (find_key key object) [
    | none ↦ none
    | some value ↦ ops.as_object value
  ]

  unfoldable pub enter_has_body : String → List (String × J) → JsonCg → Built JsonCg
  enter_has_body caller object cg = elim (find_key "hasBody" object) [
    | none ↦ done cg
    | some value ↦ elim (ops.as_boolean value) [
      | none ↦ failed_assert
      | some b ↦ done (record cg { has_body_map = assign_key caller b cg.has_body_map })
    ]
  ]

  unfoldable pub enter_callees : String → List (String × J) → JsonCg → Built JsonCg
  enter_callees caller object cg = elim (get_array object "callees") [
    | none ↦ failed_assert
    | some calls ↦
        insert_names calls (value_or [] (find_key caller cg.directly_called_functions)) >>= λ names.
        done (record cg {
          directly_called_functions = assign_key caller names cg.directly_called_functions;
        })
  ]

  unfoldable pub enter_overriding : String → List (String × J) → JsonCg → Built JsonCg
  enter_overriding caller object cg = elim (get_array object "overriddenBy") [
    | none ↦ done cg
    | some [] ↦ done cg
    | some (function ∷ functions) ↦
        insert_names (function ∷ functions) (value_or [] (find_key caller cg.virtual_targets))
        >>= λ names.
            done (record cg { virtual_targets = assign_key caller names cg.virtual_targets })
  ]

  unfoldable pub construct_call_information : String → List (String × J) → JsonCg → Built JsonCg
  construct_call_information entry_caller j cg =
      elim (find_key entry_caller cg.directly_called_functions) [
        | some _ ↦ done cg
        | none ↦ elim (get_object j entry_caller) [
          | none ↦ done (mark_handled entry_caller cg)
          | some caller ↦
              enter_has_body entry_caller caller (mark_handled entry_caller cg)
              >>= enter_callees entry_caller caller
              >>= enter_overriding entry_caller caller
        ]
      ]

  unfoldable pub construct_all : List (String × J) → List (String × J) → JsonCg → Built JsonCg
  construct_all [] j cg = done cg
  construct_all ((entry_caller, _) ∷ entries) j cg =
      construct_call_information entry_caller j cg >>= construct_all entries j

  -- The constructor.
  unfoldable pub json_cg : J → Built JsonCg
  json_cg cg = elim (ops.as_object cg) [
    | none ↦ failed_assert
    | some tlobj ↦ construct_all tlobj tlobj empty_cg
  ]
