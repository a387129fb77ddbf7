-- ===== src/TypeLib/TypeDb.antt =====
-- lib/typelib/TypeDB.cpp and TypeDB.h: the registered structs, and an index from ids to positions.
pub mod Invariant
pub mod Kinds
pub mod Refinement
pub mod Reload
use type_art.Prelude.{
  ℕ, ◌-◌, Bool, true, false, not, ◌&&◌, ◌||◌, if◌then◌else◌, List, [], ◌∷◌, ◌++◌, Option, none,
  some, String, length, get_elem?, get_or,
}
use type_art.Prelude.Int.{ℤ, pos_part, ltb_ℤ, leb_ℤ, ◌==ℤ◌}
use type_art.TypeLib.Types.{
  StructTypeInfo, int8, num_valid_ids, unknown_type, num_reserved_ids, user_defined, llvm_vector,
  has_flag,
}

-- `std::unordered_map<int, int>`: `find`, and `insert`, which keeps an entry that is there.
abbrev pub IdIndex : Type 0
IdIndex = List (ℤ × ℕ)

unfoldable pub find_id : ℤ → IdIndex → Option ℕ
find_id id [] = none
find_id id ((k, i) ∷ m) = if k ==ℤ id then some i else find_id id m

unfoldable pub insert_id : ℤ → ℕ → IdIndex → IdIndex
insert_id id i m = elim (find_id id m) [ none ↦ (id, i) ∷ m | some _ ↦ m ]

pub record TypeDb : Type 0 where
  pub struct_info_vec : List StructTypeInfo
  pub typeid_to_list_index : IdIndex

abbrev pub empty_db : TypeDb
empty_db = record { struct_info_vec = []; typeid_to_list_index = [] }

abbrev builtin_names : List String
builtin_names =
    "int8" ∷ "int16" ∷ "int32" ∷ "int64" ∷ "half" ∷ "float" ∷ "double" ∷ "float128" ∷ "x86_float80"
    ∷ "ppc_float128" ∷ "pointer" ∷ []

-- The last entry is `sizeof(void*)`, of a 64-bit machine.
abbrev builtin_sizes : List ℕ
builtin_sizes = 1 ∷ 2 ∷ 4 ∷ 8 ∷ 2 ∷ 4 ∷ 8 ∷ 16 ∷ 16 ∷ 16 ∷ 8 ∷ []

abbrev pub unknown_struct_name : String
unknown_struct_name = "typeart_unknown_struct"

unfoldable pub clear : TypeDb → TypeDb
clear db = record db { struct_info_vec = []; typeid_to_list_index = [] }

abbrev pub is_builtin_type : ℤ → Bool
is_builtin_type id = leb_ℤ int8 id && ltb_ℤ id num_valid_ids

abbrev pub is_reserved_type : ℤ → Bool
is_reserved_type id = ltb_ℤ id num_reserved_ids

abbrev pub is_struct_type : ℤ → Bool
is_struct_type id = leb_ℤ num_reserved_ids id

abbrev pub is_unknown : ℤ → Bool
is_unknown id = id ==ℤ unknown_type

unfoldable pub is_valid : TypeDb → ℤ → Bool
is_valid db id =
    if is_builtin_type id
    then true
    else elim (find_id id db.typeid_to_list_index) [ none ↦ false | some _ ↦ true ]

-- `none` is the null pointer. That the index is in range is a theorem.
unfoldable pub get_struct_info : TypeDb → ℤ → Option StructTypeInfo
get_struct_info db id = elim (find_id id db.typeid_to_list_index) [
  | none ↦ none
  | some i ↦ get_elem? db.struct_info_vec i
]

unfoldable pub is_user_defined_type : TypeDb → ℤ → Bool
is_user_defined_type db id = elim (get_struct_info db id) [
  | none ↦ false
  | some s ↦ has_flag s user_defined
]

unfoldable pub is_vector_type : TypeDb → ℤ → Bool
is_vector_type db id = elim (get_struct_info db id) [
  | none ↦ false
  | some s ↦ has_flag s llvm_vector
]

unfoldable pub register_struct : TypeDb → StructTypeInfo → TypeDb
register_struct db s =
    if is_valid db s.type_id || not (is_struct_type s.type_id)
    then db
    else let vec = db.struct_info_vec ++ s ∷ [] in
      record db {
        struct_info_vec = vec;
        typeid_to_list_index = insert_id s.type_id (length vec - 1) db.typeid_to_list_index;
      }

unfoldable pub get_type_name : TypeDb → ℤ → String
get_type_name db id =
    if is_builtin_type id
    then get_or builtin_names (pos_part id) unknown_struct_name
    else if is_struct_type id
    then elim (get_struct_info db id) [ none ↦ unknown_struct_name | some s ↦ s.name ]
    else unknown_struct_name

unfoldable pub get_type_size : TypeDb → ℤ → ℕ
get_type_size db id =
    if is_reserved_type id
    then (if is_builtin_type id then get_or builtin_sizes (pos_part id) 0 else 0)
    else elim (get_struct_info db id) [ none ↦ 0 | some s ↦ s.extent ]

unfoldable pub get_struct_list : TypeDb → List StructTypeInfo
get_struct_list db = db.struct_info_vec
