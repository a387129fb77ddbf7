-- ===== src/Passes/TypeGen/Vectors.antt =====
-- What a registration does with a vector type.
use type_art.Prelude.{
  ℕ, suc, ◌≡◌, refl, inl, inr, false, Option, none, some, String, if◌then◌else◌, arith,
}
use mathlib.Core.Path.{fun_ext}
use type_art.Prelude.Int.{ℤ, ◌==ℤ◌}
use type_art.TypeLib.Types.{StructTypeInfo, unknown_type, llvm_vector}
use type_art.TypeLib.TypeDb.{get_type_name}
use type_art.Passes.IrTypes.{IrOps, TypeKind, fixed_vector_ty, is_array, is_aggregate, done}
use type_art.Passes.TypeUtil.{size_of_non_array, get_type_size_in_bytes}
use type_art.Passes.TypeHandlers.{
  TypeManager, reserve_next_id, add_struct, layout, get_builtin_typeid, get_element_data,
  get_vector_id, known_vector_id, get_vector_name,
}
use type_art.Passes.TypeGen.{
  unless_known, if_element, vector_members, get_type_id, register_new_vector,
  get_or_register_vector,
}
use type_art.Passes.TypeGen.Laws.{IsTyped}
use type_art.Passes.TypeGen.Rule.{IsBasic, basic_id, type_cases}

abbrev pub data_of : TypeManager → ℤ → Option (ℤ × String)
data_of m id = if id ==ℤ unknown_type then none else some (id, get_type_name m.type_db id)

module _ {Ty : Type 0} (ir : IrOps Ty) (rank : Ty → ℕ) (typed : IsTyped ir rank) where
  builtin-is_aggregate :
      (t : Ty) (k : TypeKind) (id : ℤ)
      → ir.kind t ≡ k
      → get_builtin_typeid ir t ≡ some id
      → is_aggregate ir t ≡ false
  builtin-is_aggregate t fixed_vector_ty id e b = ground arith
  builtin-is_aggregate t k id e b = ground arith

  -- A vector's elements have a built-in id, or `unknown_type`, whatever was registered.
  pub vector_element_id :
      (t : Ty)
      → ir.kind t ≡ fixed_vector_ty
      → IsBasic ir (ir.vector_element t) × (is_aggregate ir (ir.vector_element t) ≡ false)
  vector_element_id t e =
      let u = ir.vector_element t in
      let (id, b) = typed.vector_of t e in
      elim (type_cases ir u) [
        | inl basic ↦ (basic, builtin-is_aggregate u (ir.kind u) id refl b)
        | inr (inl v) ↦ absurd (ground arith)
        | inr (inr s) ↦ absurd (ground arith)
      ]

  abbrev pub id_of : TypeManager → Ty → Option (ℤ × String) → Option ℤ
  id_of m t none = some unknown_type
  id_of m t (some (id, name)) = known_vector_id m (get_vector_name ir t name)

  -- What the handler finds of a vector's element, at any fuel but 0.
  abbrev pub element_data : TypeManager → Ty → Option (ℤ × String)
  element_data m t = data_of m (basic_id ir (ir.vector_element t))

  pub get_element_data_lem :
      (fuel : ℕ) (m : TypeManager) (t : Ty)
      → ir.kind t ≡ fixed_vector_ty
      → get_element_data ir (get_type_id ir (suc fuel) m) m t ≡ done (element_data m t)
  unfolding get_element_data
  get_element_data_lem fuel m t e =
      let (basic, flat) = vector_element_id t e in rw flat (rw (basic.1 fuel m) refl)

  abbrev pub vector_id : TypeManager → Ty → Option ℤ
  vector_id m t = id_of m t (element_data m t)

  pub get_vector_id_lem :
      (fuel : ℕ) (m : TypeManager) (t : Ty)
      → ir.kind t ≡ fixed_vector_ty
      → get_vector_id ir (get_type_id ir (suc fuel) m) m t ≡ done (vector_id m t)
  unfolding get_vector_id
  get_vector_id_lem fuel m t e = rw (get_element_data_lem fuel m t e) refl

  abbrev pub vector_info : TypeManager → Ty → ℤ → String → StructTypeInfo
  vector_info m t element_id element_name =
      layout (reserve_next_id m).0 (get_vector_name ir t element_name) (ir.alloc_size t)
        (vector_members ir element_id (ir.alloc_size t) (ir.vector_num_elements t)
          (size_of_non_array ir (ir.vector_element t)))
        llvm_vector

  abbrev pub new_vector : TypeManager → Ty → ℤ → String → ℤ × TypeManager
  new_vector m t element_id element_name = (
    (reserve_next_id m).0,
    add_struct (reserve_next_id m).1 (vector_info m t element_id element_name),
  )

  register_new_vector_lem :
      (fuel : ℕ) (m : TypeManager) (t : Ty) (id : ℤ) (name : String)
      → ir.kind t ≡ fixed_vector_ty
      → register_new_vector ir fuel m t id name ≡ done (new_vector m t id name)
  unfolding register_new_vector get_type_size_in_bytes
  register_new_vector_lem fuel m t id name e =
      let (_, flat) = vector_element_id t e in
      let no_array : is_array ir (ir.vector_element t) ≡ false = ground arith in rw no_array refl

  pub get_or_register_vector_lem :
      (fuel : ℕ) (m : TypeManager) (t : Ty)
      → ir.kind t ≡ fixed_vector_ty
      → get_or_register_vector ir (suc fuel) m t
        ≡ unless_known
            (vector_id m t)
            m
            (if_element (element_data m t) m (λ id name. done (new_vector m t id name)))
  unfolding get_or_register_vector
  get_or_register_vector_lem fuel m t e =
      rw (get_vector_id_lem fuel m t e, get_element_data_lem fuel m t e)
        (rw (fun_ext (λ id. fun_ext (λ name. register_new_vector_lem (suc fuel) m t id name e)))
          refl)
