-- ===== src/Runtime/System.antt =====
-- lib/runtime/Runtime.cpp: how the runtime system is set up. The environment variables and the
-- files come from outside; the log output is left out.
use type_art.Prelude.{
  ℕ, ◌≡◌, refl, Bool, true, [], Option, none, some, String, length, arith, ==_iff, Option-cases,
  inl, inr, ◌⊎◌, sym, subst, some_inj, ◌∙◌, none-ne-some, ◌↔◌,
}
use type_art.TypeLib.TypeDb.{TypeDb, empty_db, clear, get_struct_list}
use type_art.TypeLib.TypeDb.Invariant.{IsWellFormed, empty_db-IsWellFormed}
use type_art.TypeLib.TypeDb.Refinement.{register_all-IsWellFormed}
use type_art.TypeLib.TypeDb.Reload.{clear-IsWellFormed}
use type_art.TypeLib.YamlTraits.{yaml_input}
use type_art.TypeLib.TypeIo.{IoOps, load}
use type_art.Runtime.PointerMap.Order.{empty-IsSorted, lookup_empty}
use type_art.Runtime.Recorder.{RecorderOps}
use type_art.Runtime.Callbacks.Invariant.{IsConsistent}
use type_art.Runtime.Callbacks.{Runtime, set_scope}

abbrev default_type_file_name : String
default_type_file_name = "types.yaml"

-- The type file that the environment names: the current variable, or the deprecated one.
unfoldable pub type_file_name : (String → Option String) → Option String
type_file_name getenv = elim (getenv "TYPEART_TYPE_FILE") [
  | some file ↦ some file
  | none ↦ getenv "TA_TYPE_FILE"
]

-- The types that the constructor loads. `none` is the exit of the process: a file that the
-- environment names has to load.
unfoldable pub load_types :
    {F T X : Type 0} → IoOps F T X → F → (String → Option String) → Option TypeDb
unfolding type_file_name
load_types io files getenv = elim (type_file_name getenv) [
  | some file ↦
      let (loaded, db) = load io files empty_db file in
      elim loaded [ none ↦ none | some ok ↦ some db ]
  | none ↦ let (loaded, db) = load io files empty_db default_type_file_name in some db
]

-- The constructor. The flag of the thread is set while it runs, and then reset to its old value.
unfoldable pub runtime_system :
    {F T X S : Type 0}
    → IoOps F T X
    → F
    → (String → Option String)
    → RecorderOps S
    → S
    → ℕ
    → (ℕ → Bool)
    → Option (TypeDb × Runtime S)
unfolding load_types
runtime_system io files getenv ops r tid rt_scope =
    let rt_scope_was_set = rt_scope tid in
    let inside = set_scope rt_scope tid true in
    elim (load_types io files getenv) [
      | none ↦ none
      | some db ↦ some (
        db,
        record {
          tracker = record {
            wrapper = [];
            recorder = ops.inc_udef_types (length (get_struct_list db)) r;
            stack_vars = λ t. [];
          };
          rt_scope = set_scope inside tid rt_scope_was_set;
        },
      )
    ]

load-IsWellFormed :
    {F T X : Type 0} (io : IoOps F T X) (files : F) (db : TypeDb) (file : String)
    → IsWellFormed db
    → IsWellFormed (load io files db file).1
unfolding load
load-IsWellFormed io files db file v = elim (Option-cases (io.get_file files file)) [
  | inl e ↦ rw (e, load) v
  | inr (text, e) ↦
      rw (e, load)
        (register_all-IsWellFormed (clear db) (yaml_input io.yaml text).0 (clear-IsWellFormed db))
]

-- What holds of a runtime that is set up.
pub record IsInitial {S : Type 0} (ops : RecorderOps S) (r : S) (rt_scope : ℕ → Bool) (db : TypeDb)
    (rt : Runtime S) : Type 0 where
  pub types : IsWellFormed db
  pub allocations : IsConsistent rt.tracker.wrapper
  pub stacks : (tid : ℕ) → rt.tracker.stack_vars tid ≡ []
  pub flags : (tid : ℕ) → rt.rt_scope tid ≡ rt_scope tid
  pub recorded : rt.tracker.recorder ≡ ops.inc_udef_types (length (get_struct_list db)) r

module _ {F T X S : Type 0} (io : IoOps F T X) (files : F) (getenv : String → Option String)
    (ops : RecorderOps S) (r : S) (tid : ℕ) (rt_scope : ℕ → Bool) where
  Unreadable : Type 0
  Unreadable =
      (file : String) × (type_file_name getenv ≡ some file) × (io.get_file files file ≡ none)

  load_types_cases :
      (Unreadable × (load_types io files getenv ≡ none))
      ⊎ ((Unreadable → ⊥)
          × ((file : String) × (load_types io files getenv ≡ some (load io files empty_db file).1)))
  unfolding load_types Unreadable load
  load_types_cases = elim (Option-cases (type_file_name getenv)) [
    | inl unnamed ↦ inr (
      (λ (file, named, _). none-ne-some (sym unnamed ∙ named)),
      (default_type_file_name, ground arith),
    )
    | inr (file, named) ↦ elim (Option-cases (io.get_file files file)) [
      | inl e ↦ inl ((file, named, e), ground arith)
      | inr (text, e) ↦ inr ((λ (other, named', e'). ground arith), (file, ground arith))
    ]
  ]

  abbrev start : TypeDb → Runtime S
  start db = record {
    tracker = record {
      wrapper = [];
      recorder = ops.inc_udef_types (length (get_struct_list db)) r;
      stack_vars = λ t. [];
    };
    rt_scope = set_scope (set_scope rt_scope tid true) tid (rt_scope tid);
  }

  start-IsInitial : (db : TypeDb) → IsWellFormed db → IsInitial ops r rt_scope db (start db)
  start-IsInitial db v = record {
    types = v;
    allocations = record { sorted = empty-IsSorted; no_null = lookup_empty 0 };
    stacks = λ t. refl;
    flags = λ t. ground (arith, ==_iff tid t);
    recorded = refl;
  }

  -- If the constructor of the runtime system returns, the type database is well-formed, the map of
  -- allocations and all stacks are empty, the number of types is recorded, and each thread's flag
  -- is as it was.
  pub runtime_system-IsInitial :
      (db : TypeDb) (rt : Runtime S)
      → runtime_system io files getenv ops r tid rt_scope ≡ some (db, rt)
      → IsInitial ops r rt_scope db rt
  unfolding runtime_system
  runtime_system-IsInitial db rt e = elim load_types_cases [
    | inl (_, exits) ↦ absurd (ground arith)
    | inr (_, (file, loads)) ↦
        let types = (load io files empty_db file).1 in
        let built : runtime_system io files getenv ops r tid rt_scope ≡ some (types, start types) =
          ground arith in
        subst (λ x. IsInitial ops r rt_scope x.0 x.1) (some_inj (sym built ∙ e))
          (start-IsInitial types (load-IsWellFormed io files empty_db file empty_db-IsWellFormed))
  ]

  -- The constructor exits the process exactly if the environment names a type file that cannot be
  -- read.
  pub runtime_system-none :
      (runtime_system io files getenv ops r tid rt_scope ≡ none)
      ↔ ((file : String) × (type_file_name getenv ≡ some file) × (io.get_file files file ≡ none))
  unfolding runtime_system Unreadable
  runtime_system-none = elim load_types_cases [
    | inl (unreadable, exits) ↦ ((λ _. unreadable), (λ _. ground arith))
    | inr (readable, (file, loads)) ↦ ((λ e. absurd (ground arith)), (λ u. absurd (readable u)))
  ]
