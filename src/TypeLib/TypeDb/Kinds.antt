-- ===== src/TypeLib/TypeDb/Kinds.antt =====
-- The size of a type by its kind.
use type_art.Prelude.{
  ℕ, get_elem?, ◌≡◌, ◌<◌, ◌⊎◌, inl, inr, Bool-cases, Option-cases, true, false, some, arith,
}
use type_art.Prelude.Int.{ℤ}
use type_art.TypeLib.Types.{StructTypeInfo}
use type_art.TypeLib.TypeDb.{
  TypeDb, find_id, is_struct_type, is_builtin_type, get_struct_info, get_type_size,
}

pub get_type_size-get_struct_info :
    (db : TypeDb) (id : ℤ) (s : StructTypeInfo)
    → is_struct_type id ≡ true
    → get_struct_info db id ≡ some s
    → get_type_size db id ≡ s.extent
unfolding get_type_size
get_type_size-get_struct_info db id s kind h = ground arith

-- A type of a known size is a built-in one or a registered struct.
pub get_type_size_cases :
    (db : TypeDb) (id : ℤ)
    → 0 < get_type_size db id
    → (is_builtin_type id ≡ true)
      ⊎ ((s : StructTypeInfo) × (is_struct_type id ≡ true)
          × (is_builtin_type id ≡ false)
          × (get_struct_info db id ≡ some s)
          × (get_type_size db id ≡ s.extent))
unfolding get_type_size
get_type_size_cases db id h = elim (Bool-cases (is_builtin_type id)) [
  | inl e ↦ inl e
  | inr e ↦ elim (Option-cases (get_struct_info db id)) [
    | inl none_found ↦ absurd (ground arith)
    | inr (s, known) ↦ inr (s, ground arith, e, known, ground arith)
  ]
]

-- A layout that is found stands in the vector.
pub get_struct_info-get_elem? :
    (db : TypeDb) (id : ℤ) (s : StructTypeInfo)
    → get_struct_info db id ≡ some s
    → (i : ℕ) × (get_elem? db.struct_info_vec i ≡ some s)
unfolding get_struct_info
get_struct_info-get_elem? db id s h = elim (Option-cases (find_id id db.typeid_to_list_index)) [
  | inl e ↦ absurd (ground arith)
  | inr (i, e) ↦ (i, ground arith)
]
