-- ===== src/Passes/TypeHandlers.antt =====
-- lib/passes/typegen, StructTypeHandler and VectorTypeHandler: the names and ids of types in the
-- tables of a `TypeManager`.
use type_art.Prelude.{
  ℕ, ◌+◌, ◌==◌, not, List, [], ◌∷◌, Option, none, some, String, length, map, if◌then◌else◌,
}
use type_art.Prelude.Int.{ℤ, pos, ◌==ℤ◌, to_int}
use type_art.TypeLib.Types.{StructTypeInfo, pointer, unknown_type}
use type_art.TypeLib.TypeDb.{
  TypeDb, empty_db, register_struct, get_type_name, is_user_defined_type, is_vector_type,
}
use type_art.Passes.IrTypes.{
  IrOps, integer_ty, half_ty, float_ty, double_ty, fp128_ty, x86_fp80_ty, ppc_fp128_ty, pointer_ty,
  is_aggregate, Built, done, ◌>>=◌, ◌>>◌, assert,
}
use text.Mathlib.Text.{◌==◌ as str_eq}
use Prim.Native.String.{◌++◌ as str_append}

-- `llvm::StringMap<int>`: `find`, and `insert`, which keeps an entry that is there.
abbrev pub StructMap : Type 0
StructMap = List (String × ℤ)

unfoldable pub find_struct : String → StructMap → Option ℤ
find_struct name [] = none
find_struct name ((k, id) ∷ m) = if str_eq k name then some id else find_struct name m

unfoldable pub insert_struct : String → ℤ → StructMap → StructMap
insert_struct name id m = elim (find_struct name m) [ none ↦ (name, id) ∷ m | some _ ↦ m ]

pub record TypeManager : Type 0 where
  pub file : String
  pub type_db : TypeDb
  pub struct_map : StructMap
  pub struct_count : ℕ

abbrev pub new_manager : String → TypeManager
new_manager file = record { file = file; type_db = empty_db; struct_map = []; struct_count = 0 }

-- The count is not wrapped: 2 ^ 64 structs fit in no memory. The id is cast to an `int`.
unfoldable pub reserve_next_id : TypeManager → ℤ × TypeManager
reserve_next_id m = (to_int (256 + m.struct_count), record m { struct_count = m.struct_count + 1 })

-- `typeDB.registerStruct(info); structMap.insert({name, id});`
unfoldable pub add_struct : TypeManager → StructTypeInfo → TypeManager
add_struct m info = record m {
  type_db = register_struct m.type_db info;
  struct_map = insert_struct info.name info.type_id m.struct_map;
}

-- What the loop over a struct's elements adds to the three vectors of the layout.
pub record Member : Type 0 where
  pub offset : ℕ
  pub type_id : ℤ
  pub array_size : ℕ

unfoldable pub layout : ℤ → String → ℕ → List Member → ℕ → StructTypeInfo
layout id name extent members flag = record {
  type_id = id;
  name = name;
  extent = extent;
  num_members = length members;
  offsets = map (λ e. e.offset) members;
  member_types = map (λ e. e.type_id) members;
  array_sizes = map (λ e. e.array_size) members;
  flag = flag;
}

-- The cases of `get_builtin_typeid` for integers of so many bits.
abbrev pub integer_id : ℕ → ℤ
integer_id bits =
    if bits == 8
    then pos 0
    else if bits == 16
    then pos 1
    else if bits == 32
    then pos 2
    else if bits == 64
    then pos 3
    else unknown_type

abbrev pub known_vector_id : TypeManager → String → Option ℤ
known_vector_id m name = elim (find_struct name m.struct_map) [
  | none ↦ none
  | some id ↦ some (if is_vector_type m.type_db id then id else unknown_type)
]

abbrev pub or_unknown : Option ℤ → ℤ
or_unknown none = unknown_type
or_unknown (some id) = id

module _ {Ty : Type 0} (ir : IrOps Ty) where
  abbrev pub get_builtin_typeid : Ty → Option ℤ
  get_builtin_typeid t = elim (ir.kind t) [
    | integer_ty ↦ some (integer_id (ir.integer_bits t))
    | half_ty ↦ some (pos 4)
    | float_ty ↦ some (pos 5)
    | double_ty ↦ some (pos 6)
    | fp128_ty ↦ some (pos 7)
    | x86_fp80_ty ↦ some (pos 8)
    | ppc_fp128_ty ↦ some (pos 9)
    | pointer_ty ↦ some pointer
    | _ ↦ none
  ]

  -- `StructTypeHandler`
  unfoldable pub get_name : Ty → String
  get_name t =
      if ir.is_literal t
      then str_append "LiteralS" (ir.to_string (ir.address t))
      else ir.struct_name t

  unfoldable pub get_struct_id : TypeManager → Ty → Option ℤ
  get_struct_id m t = elim (find_struct (get_name t) m.struct_map) [
    | none ↦ none
    | some id ↦ some (if is_user_defined_type m.type_db id then id else unknown_type)
  ]

  -- `VectorTypeHandler`. `get_id` is the manager's `getTypeID`, by which the handler asks for the
  -- element's id. An element's data are its id and its name.
  abbrev pub get_vector_name : Ty → String → String
  get_vector_name t element_name =
      str_append (str_append (str_append "vec" (ir.to_string (ir.vector_num_elements t))) ":")
        element_name

  unfoldable pub get_element_data : (Ty → Built ℤ) → TypeManager → Ty → Built (Option (ℤ × String))
  get_element_data get_id m t = do
    assert (not (is_aggregate ir (ir.vector_element t)))
    id ← get_id (ir.vector_element t)
    done (if id ==ℤ unknown_type then none else some (id, get_type_name m.type_db id))

  unfoldable pub get_vector_id : (Ty → Built ℤ) → TypeManager → Ty → Built (Option ℤ)
  get_vector_id get_id m t = do
    element ← get_element_data get_id m t
    done (elim element [
      | none ↦ some unknown_type
      | some (id, name) ↦ known_vector_id m (get_vector_name t name)
    ])
