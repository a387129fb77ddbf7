-- ===== src/Passes/Filter/CallGraph/Ends.antt =====
-- The search for the functions that are reached from a function ends.
use type_art.Prelude.{
  ℕ, zero, suc, ◌+◌, ◌≤◌, ◌≡◌, inl, inr, refl, Bool, true, false, List, [], ◌∷◌, none, some, String,
  length, if◌then◌else◌, Bool-cases, Option-cases, arith,
}
use mathlib.Core.List.{Memᴰ}
use text.Mathlib.Text.{◌==◌ as str_eq}
use text.Mathlib.TextEquality.{eq_iff}
use type_art.Passes.IrTypes.{done}
use type_art.Passes.Filter.NameTables.{
  NameSet, find_key, has_name, insert_name, merge_names, erase_name, Memᴰ-has_name,
  Memᴰ-insert_name, Memᴰ-merge_names, length-merge_names, length-erase_name,
}
use type_art.Passes.Filter.CallGraph.{JsonCg, get_directly_called_function_names, reachable_loop}

-- `*begin()` is a name of the set.
abbrev pub IsBegin : (String → NameSet → String) → Type 0
IsBegin begin = (x : String) (rest : NameSet) → Memᴰ (begin x rest) (x ∷ rest)

module _ (cg : JsonCg) where
  abbrev pub called : String → NameSet
  called function = get_directly_called_function_names cg function true

  -- The calls of the functions that a table names and that are not yet in the result.
  abbrev unhandled : List (String × NameSet) → NameSet → ℕ
  unhandled [] ret = 0
  unhandled ((function, _) ∷ m) ret =
      unhandled m ret + (if has_name function ret then 0 else length (called function))

  -- Rounds enough for every search in the graph.
  abbrev pub call_bound : String → Bool → ℕ
  call_bound caller consider_overrides =
      unhandled cg.directly_called_functions []
      + length (get_directly_called_function_names cg caller consider_overrides)

  has_name-insert :
      (a name : String) (xs : NameSet)
      → has_name a xs ≡ true
      → has_name a (insert_name name xs) ≡ true
  has_name-insert a name xs h =
      ground (
        arith,
        Memᴰ-has_name a xs,
        Memᴰ-has_name a (insert_name name xs),
        Memᴰ-insert_name a name xs,
      )

  has_name-insert_self : (name : String) (xs : NameSet) → has_name name (insert_name name xs) ≡ true
  has_name-insert_self name xs =
      (Memᴰ-has_name name (insert_name name xs)).1 ((Memᴰ-insert_name name name xs).1 (inl refl))

  unhandled_mono :
      (m : List (String × NameSet)) (name : String) (ret : NameSet)
      → unhandled m (insert_name name ret) ≤ unhandled m ret
  unhandled_mono [] name ret = omega arith
  unhandled_mono ((function, _) ∷ m) name ret =
      ground (arith, has_name-insert function name ret, unhandled_mono m name ret)

  -- A function whose calls are added to the work list is handled by that.
  unhandled-insert :
      (m : List (String × NameSet)) (name : String) (ret callees : NameSet)
      → find_key name m ≡ some callees
      → has_name name ret ≡ false
      → unhandled m (insert_name name ret) + length (called name) ≤ unhandled m ret
  unfolding find_key
  unhandled-insert [] name ret callees k h = cc
  unhandled-insert ((function, _) ∷ m) name ret callees k h =
      elim (Bool-cases (str_eq function name)) [
        | inl e ↦
            let same : function ≡ name = (eq_iff function name).0 e in
            rw same (ground (arith, has_name-insert_self name ret, unhandled_mono m name ret))
        | inr e ↦
            let below = unhandled-insert m name ret callees (rw e at k) h in
            ground (arith, has_name-insert function name ret)
      ]

  called-none :
      (name : String)
      → find_key name cg.directly_called_functions ≡ none
      → get_directly_called_function_names cg name true ≡ []
  unfolding get_directly_called_function_names
  called-none name k = rw (k, get_directly_called_function_names) refl

  unhandled-called :
      (name : String) (ret : NameSet)
      → has_name name ret ≡ false
      → unhandled cg.directly_called_functions (insert_name name ret) + length (called name)
        ≤ unhandled cg.directly_called_functions ret
  unhandled-called name ret h = elim (Option-cases (find_key name cg.directly_called_functions)) [
    | inl none_called ↦
        rw (called-none name none_called)
          (omega (arith, unhandled_mono cg.directly_called_functions name ret))
    | inr (callees, k) ↦ unhandled-insert cg.directly_called_functions name ret callees k h
  ]

  module _ (begin : String → NameSet → String) (is_begin : IsBegin begin) where
    -- Each round takes a name off the work list, and adds those that a function calls only once.
    pub reachable_loop_ends :
        (fuel : ℕ) (ret worklist : NameSet)
        → unhandled cg.directly_called_functions ret + length worklist ≤ fuel
        → (result : NameSet) × (reachable_loop begin cg fuel ret worklist ≡ done result)
    unfolding reachable_loop
    reachable_loop_ends fuel ret [] h = (ret, refl)
    reachable_loop_ends zero ret (x ∷ worklist) h = absurd (omega arith)
    reachable_loop_ends (suc fuel) ret (x ∷ worklist) h =
        let name = begin x worklist in
        let at = is_begin x worklist in
        let merged = merge_names (x ∷ worklist) (called name) in
        let at' = (Memᴰ-merge_names name (x ∷ worklist) (called name)).1 (inl at) in
        elim (Bool-cases (has_name name ret)) [
          | inl known ↦
              let (result, e) =
                reachable_loop_ends fuel ret (erase_name name (x ∷ worklist))
                  (omega (arith, length-erase_name name (x ∷ worklist) at)) in
              (result, rw known e)
          | inr new ↦
              let (result, e) =
                reachable_loop_ends fuel (insert_name name ret) (erase_name name merged) (
                  omega (
                    arith,
                    length-erase_name name merged at',
                    unhandled-called name ret new,
                    length-merge_names (x ∷ worklist) (called name),
                  )) in
              (result, rw new e)
        ]
