-- ===== src/Passes/TypeGen/Lookup.antt =====
-- The id of a type that is in the tables is the same in all later ones.
use type_art.Prelude.{
  ℕ, suc, ◌≡◌, refl, subst, sym, ◌⊎◌, inl, inr, true, none, some, String, not, bit_and, ◌==◌,
  Option-cases, arith,
}
use type_art.Prelude.Int.{ℤ, ◌==ℤ◌}
use type_art.TypeLib.Types.{StructTypeInfo, unknown_type, user_defined, llvm_vector, has_flag}
use type_art.TypeLib.TypeDb.{
  is_builtin_type, get_struct_info, get_type_name, is_user_defined_type, is_vector_type,
}
use type_art.Passes.IrTypes.{IrOps, TypeKind, fixed_vector_ty, struct_ty, done}
use type_art.Passes.TypeHandlers.{
  TypeManager, find_struct, get_name, get_struct_id, get_builtin_typeid, known_vector_id,
  get_vector_name, or_unknown,
}
use type_art.Passes.TypeGen.{get_type_id}
use type_art.Passes.TypeGen.Laws.{IsTyped}
use type_art.Passes.TypeGen.Registry.{IsConsistent, Retains}
use type_art.Passes.TypeGen.Rule.{basic_id}
use type_art.Passes.TypeGen.Vectors.{data_of, element_data, vector_id, get_vector_id_lem}

module _ (m m' : TypeManager) (c : IsConsistent m) (e : Retains m m') where
  -- The layout behind a name is the same later on.
  pub named_same :
      (name : String) (id : ℤ)
      → find_struct name m.struct_map ≡ some id
      → (s : StructTypeInfo) × (find_struct name m'.struct_map ≡ some id)
        × (get_struct_info m.type_db id ≡ some s)
        × (get_struct_info m'.type_db id ≡ some s)
  named_same name id h =
      let (s, found, _) = c.named name id h in (s, e.names name id h, found, e.finds id s found)

  pub get_struct_id-Retains :
      {Ty : Type 0} (ir : IrOps Ty) (t : Ty) (id : ℤ)
      → get_struct_id ir m t ≡ some id
      → get_struct_id ir m' t ≡ some id
  unfolding get_struct_id is_user_defined_type
  get_struct_id-Retains ir t id h = elim (Option-cases (find_struct (get_name ir t) m.struct_map)) [
    | inl absent ↦ absurd (ground arith)
    | inr (k, found) ↦ let (s, later, old, new) = named_same (get_name ir t) k found in ground arith
  ]

  known_vector_id-Retains :
      (name : String) (id : ℤ)
      → known_vector_id m name ≡ some id
      → known_vector_id m' name ≡ some id
  unfolding is_vector_type
  known_vector_id-Retains name id h = elim (Option-cases (find_struct name m.struct_map)) [
    | inl absent ↦ absurd (ground arith)
    | inr (k, found) ↦ let (s, later, old, new) = named_same name k found in ground arith
  ]

module _ {Ty : Type 0} (ir : IrOps Ty) where
  builtin_cases :
      (t : Ty) (k : TypeKind) (id : ℤ)
      → ir.kind t ≡ k
      → get_builtin_typeid ir t ≡ some id
      → (is_builtin_type id ≡ true) ⊎ ((id ==ℤ unknown_type) ≡ true)
  builtin_cases t fixed_vector_ty id e h = absurd (ground arith)
  builtin_cases t k id e h = ground arith

  -- An element's data do not depend on what is registered.
  data_of_same :
      (m m' : TypeManager) (id : ℤ)
      → (is_builtin_type id ≡ true) ⊎ ((id ==ℤ unknown_type) ≡ true)
      → data_of m id ≡ data_of m' id
  unfolding get_type_name
  data_of_same m m' id (inl builtin) = rw builtin refl
  data_of_same m m' id (inr unknown) = rw unknown refl

module _ {Ty : Type 0} (ir : IrOps Ty) (rank : Ty → ℕ) (typed : IsTyped ir rank) where
  pub element_data_same :
      (m m' : TypeManager) (t : Ty)
      → ir.kind t ≡ fixed_vector_ty
      → element_data ir rank typed m t ≡ element_data ir rank typed m' t
  element_data_same m m' t e =
      let u = ir.vector_element t in
      let (id, b) = typed.vector_of t e in
      let is : basic_id ir u ≡ id = ground arith in
      subst (λ k. data_of m k ≡ data_of m' k) (sym is)
        (data_of_same ir m m' id (builtin_cases ir u (ir.kind u) id refl b))

  pub vector_id-Retains :
      (m m' : TypeManager) (t : Ty) (id : ℤ)
      → IsConsistent m
      → Retains m m'
      → ir.kind t ≡ fixed_vector_ty
      → vector_id ir rank typed m t ≡ some id
      → vector_id ir rank typed m' t ≡ some id
  vector_id-Retains m m' t id c e v h =
      let same = element_data_same m m' t v in
      elim (Option-cases (element_data ir rank typed m t)) [
        | inl n ↦ rw (← same, n) (rw n at h)
        | inr ((k, name), d) ↦
            rw (← same, d)
              (known_vector_id-Retains m m' c e (get_vector_name ir t name) id (rw d at h))
      ]

  pub get_type_id-vector :
      (fuel : ℕ) (m : TypeManager) (t : Ty)
      → ir.kind t ≡ fixed_vector_ty
      → get_type_id ir (suc (suc fuel)) m t ≡ done (or_unknown (vector_id ir rank typed m t))
  unfolding get_type_id
  get_type_id-vector fuel m t e = ground (arith, get_vector_id_lem ir rank typed fuel m t e)

flag-has_flag :
    (s : StructTypeInfo) (bit : ℕ) → s.flag ≡ bit → has_flag s bit ≡ not (bit_and bit bit == 0)
flag-has_flag s bit e = rw e refl

pub get_struct_id-none :
    {Ty : Type 0} (ir : IrOps Ty) (m : TypeManager) (t : Ty)
    → find_struct (get_name ir t) m.struct_map ≡ none
    → get_struct_id ir m t ≡ none
unfolding get_struct_id
get_struct_id-none ir m t h = ground arith

pub known_vector_id-none :
    (m : TypeManager) (name : String)
    → find_struct name m.struct_map ≡ none
    → known_vector_id m name ≡ none
known_vector_id-none m name h = ground arith

-- A struct type has the id under its name if the layout there is one of a struct.
pub get_struct_id-found :
    {Ty : Type 0} (ir : IrOps Ty) (m : TypeManager) (t : Ty) (id : ℤ) (s : StructTypeInfo)
    → find_struct (get_name ir t) m.struct_map ≡ some id
    → get_struct_info m.type_db id ≡ some s
    → s.flag ≡ user_defined
    → get_struct_id ir m t ≡ some id
unfolding get_struct_id is_user_defined_type
get_struct_id-found ir m t id s found stored flag =
    ground (arith, flag-has_flag s user_defined flag)

pub known_vector_id-found :
    (m : TypeManager) (name : String) (id : ℤ) (s : StructTypeInfo)
    → find_struct name m.struct_map ≡ some id
    → get_struct_info m.type_db id ≡ some s
    → s.flag ≡ llvm_vector
    → known_vector_id m name ≡ some id
unfolding is_vector_type
known_vector_id-found m name id s found stored flag =
    ground (arith, flag-has_flag s llvm_vector flag)

pub get_type_id-struct :
    {Ty : Type 0} (ir : IrOps Ty) (fuel : ℕ) (m : TypeManager) (t : Ty)
    → ir.kind t ≡ struct_ty
    → get_type_id ir (suc fuel) m t ≡ done (or_unknown (get_struct_id ir m t))
unfolding get_type_id
get_type_id-struct ir fuel m t e = ground arith
