-- ===== src/Tests/Types.antt =====
-- Registering, storing and loading types, and setting up the runtime.
use type_art.Prelude.{
  ℕ, ◌≡◌, ◌↔◌, refl, Bool, false, true, List, [], ◌∷◌, map, Option, some, none, some_inj, sym,
  String,
}
use type_art.Prelude.Int.{ℤ, pos, negsuc}
use type_art.TypeLib.YamlTraits.{
  Scalar, YamlOps, map_required, unknown_key, input_flag, output_flag, input_mapping,
  output_mapping, input_structs, yaml_input, yaml_output,
}
use type_art.TypeLib.YamlTraits.RoundTrip.{IsFaithfulYaml}
use type_art.Passes.Filter.NameTables.{find_key, has_name}
use type_art.TypeLib.TypeDb.{
  empty_db, clear, is_valid, find_id, register_struct, insert_id, get_struct_info, get_struct_list,
}
use type_art.TypeLib.TypeDb.Invariant.{
  IsWellFormed, empty_db-IsWellFormed, register_struct-IsWellFormed,
}
use type_art.TypeLib.TypeDb.Refinement.{
  register_all, first_with, or_else, get_struct_info-register_all,
}
use type_art.TypeLib.TypeDb.Reload.{register_all-get_struct_list}
use type_art.TypeLib.TypeIo.{IoOps, load, store, document, make_database}
use type_art.TypeLib.TypeIo.RoundTrip.{IsFaithful, load-store, make_database-store}
use type_art.Runtime.Recorder.Access.{AccessRecorder, access_recorder}
use type_art.Runtime.Recorder.Access
use type_art.Runtime.Callbacks.{Runtime, set_scope}
use type_art.Runtime.System.{
  load_types, runtime_system, type_file_name, IsInitial, runtime_system-IsInitial,
  runtime_system-none,
}
use type_art.Tests.Data.{inner, outer, types}

types-IsWellFormed : IsWellFormed types
types-IsWellFormed =
    register_struct-IsWellFormed (register_struct empty_db inner) outer
      (register_struct-IsWellFormed empty_db inner empty_db-IsWellFormed)

register_struct-IsWellFormed_example : IsWellFormed (register_struct empty_db inner)
register_struct-IsWellFormed_example =
    register_struct-IsWellFormed empty_db inner empty_db-IsWellFormed

get_struct_info-register_all_example :
    get_struct_info (register_all empty_db (inner ∷ outer ∷ inner ∷ [])) (pos 256)
    ≡ or_else
        (get_struct_info empty_db (pos 256))
        (first_with (pos 256) (inner ∷ outer ∷ inner ∷ []))
get_struct_info-register_all_example =
    get_struct_info-register_all empty_db (inner ∷ outer ∷ inner ∷ []) (pos 256)
      empty_db-IsWellFormed refl

register_all-get_struct_list_example :
    (get_struct_list (register_all (clear empty_db) (get_struct_list types))
      ≡ get_struct_list types)
    × (get_struct_info (register_all (clear empty_db) (get_struct_list types)) (pos 256)
        ≡ get_struct_info types (pos 256))
register_all-get_struct_list_example =
    register_all-get_struct_list types empty_db (pos 256) types-IsWellFormed

-- A document is the list of its entries, and a value what it was made of.
pub data Value : Type 0 where
  number : ℤ → Value
  size : ℕ → Value
  text : String → Value
  numbers : List ℤ → Value
  sizes : List ℕ → Value
  scalar : Scalar → Value

abbrev pub Document : Type 0
Document = List (List (String × Value))

abbrev int_of : Value → ℤ × Bool
int_of (number n) = (n, false)
int_of _ = (pos 0, true)

abbrev size_of : Value → ℕ × Bool
size_of (size n) = (n, false)
size_of _ = (0, true)

abbrev string_of : Value → String × Bool
string_of (text s) = (s, false)
string_of _ = ("", true)

abbrev ints_of : Value → List ℤ × Bool
ints_of (numbers ns) = (ns, false)
ints_of _ = ([], true)

abbrev sizes_of : Value → List ℕ × Bool
sizes_of (sizes ns) = (ns, false)
sizes_of _ = ([], true)

abbrev scalar_of : Value → Scalar × Bool
scalar_of (scalar s) = (s, false)
scalar_of _ = ([], true)

abbrev digits : ℤ → Scalar
digits (pos n) = n ∷ []
digits (negsuc n) = 45 ∷ n ∷ []

abbrev number_of : Scalar → Option ℤ
number_of (n ∷ []) = some (pos n)
number_of (_ ∷ n ∷ []) = some (negsuc n)
number_of _ = none

abbrev values : YamlOps Document Value
values = record {
  read_document = λ d. (map some d, false);
  write_document = λ d. d;
  empty_document = [];
  input_int = int_of;
  input_size = size_of;
  input_string = string_of;
  input_ints = ints_of;
  input_sizes = sizes_of;
  input_scalar = scalar_of;
  output_int = number;
  output_size = size;
  output_string = text;
  output_ints = numbers;
  output_sizes = sizes;
  output_scalar = scalar;
  decimal = digits;
  get_as_integer = number_of;
}

number_of-digits : (n : ℤ) → number_of (digits n) ≡ some n
number_of-digits (pos n) = refl
number_of-digits (negsuc n) = refl

values-IsFaithfulYaml : IsFaithfulYaml values
values-IsFaithfulYaml = record {
  document_back = λ d. refl;
  empty_back = refl;
  int_back = λ n. refl;
  size_back = λ n. refl;
  string_back = λ s. refl;
  ints_back = λ ns. refl;
  sizes_back = λ ns. refl;
  scalar_back = λ s. refl;
  decimal_back = number_of-digits;
}

-- One file.
abbrev pub one_file : IoOps (Option Document) Document Value
one_file = record {
  get_file = λ files name. files;
  put_file = λ files name d. some (some d);
  yaml = values;
}

pub one_file-IsFaithful : IsFaithful one_file
one_file-IsFaithful = record {
  read_back = λ files files' name d h. sym (some_inj h);
  yaml_back = values-IsFaithfulYaml;
}

load-store_example :
    let loaded =
      load one_file (some (document one_file (get_struct_list types))) empty_db "types.yaml" in
    (loaded.0 ≡ some true)
    × (get_struct_list loaded.1 ≡ get_struct_list types)
    × (get_struct_info loaded.1 (pos 257) ≡ get_struct_info types (pos 257))
unfolding store get_struct_list register_struct is_valid find_id insert_id
load-store_example =
    load-store one_file none (some (document one_file (get_struct_list types))) types empty_db
      "types.yaml" (pos 257) one_file-IsFaithful types-IsWellFormed refl

make_database-store_example :
    let made =
      make_database one_file (some (document one_file (get_struct_list types))) "types.yaml" in
    (made.1 ≡ false)
    × (get_struct_list made.0 ≡ get_struct_list types)
    × ((id : ℤ) → get_struct_info made.0 id ≡ get_struct_info types id)
unfolding store get_struct_list register_struct is_valid find_id insert_id
make_database-store_example =
    make_database-store one_file none (some (document one_file (get_struct_list types))) types
      "types.yaml" one_file-IsFaithful types-IsWellFormed refl

abbrev no_variables : String → Option String
no_variables name = none

abbrev built : Runtime AccessRecorder
built = record {
  tracker = record {
    wrapper = [];
    recorder = access_recorder.inc_udef_types 2 Access.initial;
    stack_vars = λ t. [];
  };
  rt_scope = set_scope (set_scope (λ t. false) 0 true) 0 false;
}

runtime_system_runs :
    runtime_system one_file
      (some (document one_file (inner ∷ outer ∷ [])))
      no_variables
      access_recorder
      Access.initial
      0
      (λ t. false)
    ≡ some (types, built)
unfolding runtime_system load_types type_file_name load register_all clear register_struct is_valid
    find_id insert_id get_struct_list map_required unknown_key input_flag output_flag input_mapping
    output_mapping input_structs yaml_input yaml_output find_key has_name
runtime_system_runs = refl

runtime_system-IsInitial_example : IsInitial access_recorder Access.initial (λ t. false) types built
runtime_system-IsInitial_example =
    runtime_system-IsInitial one_file (some (document one_file (inner ∷ outer ∷ []))) no_variables
      access_recorder Access.initial 0 (λ t. false) types built runtime_system_runs

runtime_system-none_example :
    (runtime_system one_file none
        (λ name. some "a.yaml")
        access_recorder
        Access.initial
        0
        (λ t. false)
      ≡ none)
    ↔ ((file : String) × (type_file_name (λ name. some "a.yaml") ≡ some file)
        × (one_file.get_file none file ≡ none))
runtime_system-none_example =
    runtime_system-none one_file none (λ name. some "a.yaml") access_recorder Access.initial 0
      (λ t. false)
