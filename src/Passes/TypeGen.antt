-- ===== src/Passes/TypeGen.antt =====
-- lib/passes/typegen/TypeManager.cpp: the ids and layouts that the compiler gives to the types of a
-- program.
pub mod Registry
pub mod Rule
pub mod Runs
pub mod Laws
pub mod Vectors
pub mod Lookup
pub mod Ends
pub mod Names
pub mod Structs
pub mod Exact
pub mod Target
pub mod Placement
pub mod Layouts
pub mod Laid
pub mod Describes
pub mod Resolvable
use type_art.Prelude.{
  ℕ, zero, suc, ◌-◌, ◌*◌, ◌^◌, ◌%◌, Bool, true, false, ◌||◌, List, [], ◌∷◌, Option, none, some,
  String, length, ltb, if◌then◌else◌,
}
use type_art.Prelude.Int.{ℤ}
use type_art.TypeLib.Types.{StructTypeInfo, int8, unknown_type, user_defined, llvm_vector}
use type_art.TypeLib.TypeDb.{get_struct_list}
use type_art.TypeLib.TypeIo
use type_art.TypeLib.TypeIo.{IoOps}
use type_art.Passes.IrTypes.{
  IrOps, fixed_vector_ty, struct_ty, is_array, is_struct, is_pointer, Built, done, failed_assert,
  out_of_fuel, ◌>>=◌,
}
use type_art.Passes.TypeUtil.{
  get_array_element_type, get_array_length_flattened, get_type_size_in_bytes,
}
use type_art.Passes.TypeHandlers.{
  StructMap, insert_struct, TypeManager, reserve_next_id, add_struct, Member, layout,
  get_builtin_typeid, get_name, get_struct_id, get_vector_name, get_element_data, get_vector_id,
  or_unknown,
}
use text.Mathlib.Text.{◌==◌ as str_eq}

-- `if (type_id) return type_id.getValue();`
abbrev pub unless_known : Option ℤ → TypeManager → Built (ℤ × TypeManager) → Built (ℤ × TypeManager)
unless_known (some id) m rest = done (id, m)
unless_known none m rest = rest

-- `if (!element_data) return TYPEART_UNKNOWN_TYPE;`
abbrev pub if_element :
    Option (ℤ × String)
    → TypeManager
    → (ℤ → String → Built (ℤ × TypeManager))
    → Built (ℤ × TypeManager)
if_element none m rest = done (unknown_type, m)
if_element (some (id, name)) m rest = rest id name

module _ {Ty : Type 0} (ir : IrOps Ty) where
  -- `getTypeID`, on fuel for vectors of vectors.
  unfoldable pub get_type_id : ℕ → TypeManager → Ty → Built ℤ
  get_type_id zero m t = out_of_fuel
  get_type_id (suc fuel) m t = elim (get_builtin_typeid ir t) [
    | some id ↦ done id
    | none ↦ elim (ir.kind t) [
      | fixed_vector_ty ↦ get_vector_id ir (get_type_id fuel m) m t >>= λ id. done (or_unknown id)
      | struct_ty ↦ done (or_unknown (get_struct_id ir m t))
      | _ ↦ done unknown_type
    ]
  ]

  -- The members of a vector's layout: its elements, and the padding behind them as bytes.
  abbrev pub vector_members : ℤ → ℕ → ℕ → ℕ → List Member
  vector_members element_id vector_bytes vector_size element_size =
      let usable_bytes = vector_size * element_size % 2 ^ 64 in
      let elements : Member = record {
        offset = 0;
        type_id = element_id;
        array_size = vector_size;
      } in
      if ltb usable_bytes vector_bytes
      then elements
        ∷ record { offset = usable_bytes; type_id = int8; array_size = vector_bytes - usable_bytes }
        ∷ []
      else elements ∷ []

  -- `getOrRegisterVector`
  unfoldable pub register_new_vector : ℕ → TypeManager → Ty → ℤ → String → Built (ℤ × TypeManager)
  register_new_vector fuel m t element_id element_name = do
    let (id, m') = reserve_next_id m
    element_size ← get_type_size_in_bytes ir fuel (ir.vector_element t)
    let members =
        vector_members element_id (ir.alloc_size t) (ir.vector_num_elements t) element_size
    let info = layout id (get_vector_name ir t element_name) (ir.alloc_size t) members llvm_vector
    done (id, add_struct m' info)

  unfoldable pub get_or_register_vector : ℕ → TypeManager → Ty → Built (ℤ × TypeManager)
  get_or_register_vector fuel m t = do
    known ← get_vector_id ir (get_type_id fuel m) m t
    unless_known known m (
        get_element_data ir (get_type_id fuel m) m t >>= λ element.
        if_element element m (register_new_vector fuel m t))

  -- The length of an array member, and the type of its elements.
  abbrev pub array_size_of : ℕ → Ty → Built ℕ
  array_size_of fuel member =
      if is_array ir member then get_array_length_flattened ir fuel member else done 1

  abbrev pub element_of : ℕ → Ty → Built Ty
  element_of fuel member =
      if is_array ir member then get_array_element_type ir fuel member else done member

  -- `getOrRegisterStruct`: one element of the struct, with `register` for the call of
  -- `getOrRegisterType`.
  module _ (register : TypeManager → Ty → Built (ℤ × TypeManager)) (fuel : ℕ) where
    unfoldable pub member_id : ℤ → String → TypeManager → Ty → Built (ℤ × TypeManager)
    member_id id name m member =
        if is_struct ir member
        then (if str_eq (get_name ir member) name then done (id, m) else register m member)
        else if ir.is_single_value member || is_pointer ir member
        then register m member
        else failed_assert

    unfoldable pub member_loop :
        ℤ → String → Ty → ℕ → TypeManager → List Ty → Built (List Member × TypeManager)
    member_loop id name t i m [] = done ([], m)
    member_loop id name t i m (member ∷ members) = do
      array_size ← array_size_of fuel member
      element ← element_of fuel member
      (type_id, m') ← member_id id name m element
      (rest, m'') ← member_loop id name t (suc i) m' members
      let first : Member = record {
        offset = ir.element_offset t i;
        type_id = type_id;
        array_size = array_size;
      }
      done (first ∷ rest, m'')

    unfoldable pub get_or_register_struct : TypeManager → Ty → Built (ℤ × TypeManager)
    get_or_register_struct m t =
        let (id, m') = reserve_next_id m in
        unless_known (get_struct_id ir m t) m (
          member_loop id (get_name ir t) t 0 m' (ir.struct_elements t) >>= λ (members, m'').
          let info = layout id (get_name ir t) (ir.struct_size t) members user_defined in
          done (id, add_struct m'' info))

  -- `getOrRegisterType`, on fuel for the depth to which structs lie in structs.
  unfoldable pub get_or_register_type : ℕ → TypeManager → Ty → Built (ℤ × TypeManager)
  get_or_register_type zero m t = out_of_fuel
  get_or_register_type (suc fuel) m t = elim (get_builtin_typeid ir t) [
    | some id ↦ done (id, m)
    | none ↦ elim (ir.kind t) [
      | fixed_vector_ty ↦ get_or_register_vector fuel m t
      | struct_ty ↦ get_or_register_struct (get_or_register_type fuel) fuel m t
      | _ ↦ done (unknown_type, m)
    ]
  ]

-- `TypeManager::load` and `store`; the Boolean is false where the error code is set.
abbrev pub name_all : StructMap → List StructTypeInfo → StructMap
name_all map [] = map
name_all map (s ∷ ss) = name_all (insert_struct s.name s.type_id map) ss

module _ {F T X : Type 0} (io : IoOps F T X) where
  unfoldable pub load : F → TypeManager → Bool × TypeManager
  load files m =
      let (loaded, db) = TypeIo.load io files m.type_db m.file in
      elim loaded [
        | none ↦ (false, record m { type_db = db })
        | some _ ↦
            let struct_map = name_all [] (get_struct_list db) in
            (
              true,
              record m { type_db = db; struct_map = struct_map; struct_count = length struct_map },
            )
      ]

  unfoldable pub store : F → TypeManager → Option F
  store files m = TypeIo.store io files m.type_db m.file
