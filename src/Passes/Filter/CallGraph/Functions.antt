-- ===== src/Passes/Filter/CallGraph/Functions.antt =====
-- What the constructor of a call graph enters for one function.
use type_art.Prelude.{◌≡◌, ◌≢◌, ◌↔◌, ◌⊎◌, inl, inr, refl, ◌∙◌, false, List, [], none, some, String}
use mathlib.Core.List.{Memᴰ}
use type_art.Passes.IrTypes.{done, ◌>>=◌}
use type_art.Passes.Filter.NameTables.{
  NameSet, find_key, assign_key, value_or, find_key-assign_self, find_key-assign_ne,
}
use type_art.Passes.Filter.CallGraph.{
  JsonCg, JsonOps, enter_has_body, enter_callees, enter_overriding, mark_handled,
  construct_call_information,
}
use type_art.Passes.Filter.CallGraph.Bodies.{has_body}
use type_art.Passes.Filter.CallGraph.Construction.{
  CallData, IsFunction, Describes, enter_has_body_lem, enter_callees_lem, enter_overriding_lem,
}

-- The tables of two graphs answer alike for a name.
pub record IsSameAt (cg cg' : JsonCg) (name : String) : Type 0 where
  pub calls :
      find_key name cg'.directly_called_functions ≡ find_key name cg.directly_called_functions
  pub targets : find_key name cg'.virtual_targets ≡ find_key name cg.virtual_targets
  pub bodies : find_key name cg'.has_body_map ≡ find_key name cg.has_body_map

pub record IsFresh (cg : JsonCg) (name : String) : Type 0 where
  pub calls : find_key name cg.directly_called_functions ≡ none
  pub targets : find_key name cg.virtual_targets ≡ none
  pub bodies : find_key name cg.has_body_map ≡ none

pub record IsEntered (d : CallData) (cg : JsonCg) (name : String) : Type 0 where
  pub names : NameSet
  pub calls : find_key name cg.directly_called_functions ≡ some names
  pub callees : (a : String) → Memᴰ a names ↔ Memᴰ a d.callees
  pub overriding :
      (a : String) → Memᴰ a (value_or [] (find_key name cg.virtual_targets)) ↔ Memᴰ a d.overriding
  pub bodies : has_body cg name ≡ d.body

module _ {J : Type 0} (ops : JsonOps J) (tlobj : List (String × J)) (doc : String → CallData)
    (describes : Describes ops tlobj doc) where
  mark_handled_lem :
      (name : String) (cg : JsonCg)
      → IsFresh cg name
      → doc name ≡ record { callees = []; overriding = []; body = false }
      → IsEntered (doc name) (mark_handled name cg) name
  mark_handled_lem name cg fresh e = rw e record {
    names = [];
    calls = find_key-assign_self name [] cg.directly_called_functions;
    callees = λ a. (λ m. m, λ m. m);
    overriding = λ a. rw fresh.targets (λ m. m, λ m. m);
    bodies = rw fresh.bodies refl;
  }

  mark_handled-IsSameAt :
      (name a : String) (cg : JsonCg) → name ≢ a → IsSameAt cg (mark_handled name cg) a
  mark_handled-IsSameAt name a cg ne = record {
    calls = find_key-assign_ne name a [] cg.directly_called_functions ne;
    targets = refl;
    bodies = refl;
  }

  enter_function :
      (name : String) (object : List (String × J)) (cg : JsonCg)
      → IsFresh cg name
      → IsFunction ops object (doc name)
      → (cg' : JsonCg) × ((enter_has_body ops name object (mark_handled name cg)
            >>= enter_callees ops name object
            >>= enter_overriding ops name object)
          ≡ done cg')
        × IsEntered (doc name) cg' name
        × ((a : String) → name ≢ a → IsSameAt cg cg' a)
  enter_function name object cg fresh h =
      let marked = mark_handled name cg in
      let (cg1, e1, calls1, targets1, body, bodies) =
        enter_has_body_lem ops name object (doc name) marked h fresh.bodies in
      let (names, e2, callees) =
        enter_callees_lem ops name object (doc name) cg1 h
          (rw calls1 (find_key-assign_self name [] cg.directly_called_functions)) in
      let cg2 = record cg1 {
        directly_called_functions = assign_key name names cg1.directly_called_functions;
      } in
      let (table, e3, overriding, others) =
        enter_overriding_lem ops name object (doc name) cg2 h (rw targets1 fresh.targets) in
      (
        record cg2 { virtual_targets = table },
        rw (e1, e2, e3) refl,
        record {
          names = names;
          calls = find_key-assign_self name names cg1.directly_called_functions;
          callees = callees;
          overriding = overriding;
          bodies = body;
        },
        λ a ne. record {
          calls =
              find_key-assign_ne name a names cg1.directly_called_functions ne
              ∙ rw calls1 (find_key-assign_ne name a [] cg.directly_called_functions ne);
          targets = others a ne ∙ rw targets1 refl;
          bodies = bodies a ne;
        },
      )

  construct_fresh :
      (name : String) (cg : JsonCg)
      → IsFresh cg name
      → (cg' : JsonCg) × (construct_call_information ops name tlobj cg ≡ done cg')
        × IsEntered (doc name) cg' name
        × ((a : String) → name ≢ a → IsSameAt cg cg' a)
  unfolding construct_call_information
  construct_fresh name cg fresh = elim (describes name) [
    | inl (e, d) ↦ (
      mark_handled name cg,
      rw (fresh.calls, e, construct_call_information) refl,
      mark_handled_lem name cg fresh d,
      λ a ne. mark_handled-IsSameAt name a cg ne,
    )
    | inr (object, e, h) ↦
        let (cg', done_all, entered, same) = enter_function name object cg fresh h in
        (cg', rw (fresh.calls, e, construct_call_information) done_all, entered, same)
  ]

  pub IsEntered-IsSameAt :
      (d : CallData) (name : String) (cg cg' : JsonCg)
      → IsSameAt cg cg' name
      → IsEntered d cg name
      → IsEntered d cg' name
  IsEntered-IsSameAt d name cg cg' s h = record {
    names = h.names;
    calls = s.calls ∙ h.calls;
    callees = h.callees;
    overriding = λ a. rw s.targets (h.overriding a);
    bodies = rw s.bodies h.bodies;
  }

  pub IsFresh-IsSameAt :
      (name : String) (cg cg' : JsonCg) → IsSameAt cg cg' name → IsFresh cg name → IsFresh cg' name
  IsFresh-IsSameAt name cg cg' s h = record {
    calls = s.calls ∙ h.calls;
    targets = s.targets ∙ h.targets;
    bodies = s.bodies ∙ h.bodies;
  }

  -- Each name is as in an empty graph, or has what the document says of it.
  abbrev pub IsBuilt : JsonCg → Type 0
  IsBuilt cg = (name : String) → IsFresh cg name ⊎ IsEntered (doc name) cg name

  pub construct_call_information_lem :
      (name : String) (cg : JsonCg)
      → IsBuilt cg
      → (cg' : JsonCg) × (construct_call_information ops name tlobj cg ≡ done cg')
        × IsEntered (doc name) cg' name
        × ((a : String) → name ≢ a → IsSameAt cg cg' a)
  unfolding construct_call_information
  construct_call_information_lem name cg built = elim (built name) [
    | inl fresh ↦ construct_fresh name cg fresh
    | inr entered ↦ (
      cg,
      rw (entered.calls, construct_call_information) refl,
      entered,
      λ a ne. record { calls = refl; targets = refl; bodies = refl },
    )
  ]
