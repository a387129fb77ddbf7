-- ===== src/TypeLib/TypeDb/Invariant.antt =====
-- TypeDB: the index and the vector agree, and how `registerStruct` changes what a lookup finds.
use type_art.Prelude.{
  ℕ, ◌-◌, ◌≡◌, refl, sym, ◌∙◌, ◌⊎◌, inl, inr, true, false, not, ◌||◌, if◌then◌else◌, [], ◌∷◌, ◌++◌,
  none, some, none-ne-some, length, get_elem?, length-append, get_elem?-append_left,
  get_elem?-append_end, get_elem?-append_cases, Bool-cases, Option-cases, arith,
}
use type_art.Prelude.Int.{ℤ, ◌==ℤ◌, ==ℤ_iff}
use type_art.TypeLib.Types.{StructTypeInfo}
use type_art.TypeLib.TypeDb.{
  IdIndex, find_id, insert_id, TypeDb, empty_db, is_struct_type, is_valid, get_struct_info,
  register_struct,
}

pub record IsWellFormed (db : TypeDb) : Type 0 where
  pub sound :
      (id : ℤ) (i : ℕ)
      → find_id id db.typeid_to_list_index ≡ some i
      → (s : StructTypeInfo) × (get_elem? db.struct_info_vec i ≡ some s) × (s.type_id ≡ id)
  pub complete :
      (i : ℕ) (s : StructTypeInfo)
      → get_elem? db.struct_info_vec i ≡ some s
      → find_id s.type_id db.typeid_to_list_index ≡ some i
  pub structs :
      (id : ℤ) (i : ℕ) → find_id id db.typeid_to_list_index ≡ some i → is_struct_type id ≡ true

pub empty_db-IsWellFormed : IsWellFormed empty_db
unfolding find_id
empty_db-IsWellFormed = record {
  sound = λ id i h. cc;
  complete = λ i s h. cc;
  structs = λ id i h. cc;
}

find_id-insert_id :
    (id k : ℤ) (i : ℕ) (m : IdIndex)
    → find_id k m ≡ none
    → find_id id (insert_id k i m) ≡ (if k ==ℤ id then some i else find_id id m)
unfolding find_id insert_id
find_id-insert_id id k i m h = rw (h, insert_id) refl

-- The id of a struct that is registered anew is not in the index.
find_id_fresh :
    (db : TypeDb) (id : ℤ)
    → (is_valid db id || not (is_struct_type id)) ≡ false
    → (find_id id db.typeid_to_list_index ≡ none) × (is_struct_type id ≡ true)
unfolding is_valid
find_id_fresh db id h = ground arith

abbrev extended : TypeDb → StructTypeInfo → TypeDb
extended db s = record {
  struct_info_vec = db.struct_info_vec ++ s ∷ [];
  typeid_to_list_index =
      insert_id s.type_id (length (db.struct_info_vec ++ s ∷ []) - 1) db.typeid_to_list_index;
}

pub register_struct_cases :
    (db : TypeDb) (s : StructTypeInfo)
    → ((register_struct db s ≡ db)
        × ((is_valid db s.type_id || not (is_struct_type s.type_id)) ≡ true))
      ⊎ ((register_struct db s ≡ extended db s)
          × (find_id s.type_id db.typeid_to_list_index ≡ none)
          × (is_struct_type s.type_id ≡ true))
unfolding register_struct
register_struct_cases db s =
    elim (Bool-cases (is_valid db s.type_id || not (is_struct_type s.type_id))) [
      | inl e ↦ inl (rw e, e)
      | inr e ↦ let (absent, kind) = find_id_fresh db s.type_id e in inr (rw e, absent, kind)
    ]

module _ (db : TypeDb) (s : StructTypeInfo)
    (absent : find_id s.type_id db.typeid_to_list_index ≡ none) where
  find_id-extended :
      (id : ℤ)
      → find_id id (extended db s).typeid_to_list_index ≡ (
          if s.type_id ==ℤ id
          then some (length db.struct_info_vec)
          else find_id id db.typeid_to_list_index)
  find_id-extended id =
      rw
        (find_id-insert_id id s.type_id (length (db.struct_info_vec ++ s ∷ []) - 1)
          db.typeid_to_list_index absent)
        (ground (arith, length-append db.struct_info_vec (s ∷ [])))

  extended_sound :
      IsWellFormed db
      → (id : ℤ) (i : ℕ) → find_id id (extended db s).typeid_to_list_index ≡ some i
      → (t : StructTypeInfo) × (get_elem? (db.struct_info_vec ++ s ∷ []) i ≡ some t)
        × (t.type_id ≡ id)
  extended_sound v id i h = elim (Bool-cases (s.type_id ==ℤ id)) [
    | inl e ↦ (
      s,
      ground (arith, find_id-extended id, get_elem?-append_end db.struct_info_vec s),
      (==ℤ_iff s.type_id id).0 e,
    )
    | inr e ↦
        let (t, at, eq) = v.sound id i (ground (arith, find_id-extended id)) in
        (t, get_elem?-append_left db.struct_info_vec (s ∷ []) i at, eq)
  ]

  extended_complete :
      IsWellFormed db
      → (i : ℕ) (t : StructTypeInfo) → get_elem? (db.struct_info_vec ++ s ∷ []) i ≡ some t
      → find_id t.type_id (extended db s).typeid_to_list_index ≡ some i
  extended_complete v i t h = elim (get_elem?-append_cases db.struct_info_vec s i h) [
    | inl old ↦
        ground (arith, find_id-extended t.type_id, v.complete i t old, ==ℤ_iff s.type_id t.type_id)
    | inr (e, f) ↦ ground (arith, find_id-extended t.type_id, ==ℤ_iff s.type_id t.type_id)
  ]

  extended-structs :
      IsWellFormed db
      → is_struct_type s.type_id ≡ true
      → (id : ℤ) (i : ℕ) → find_id id (extended db s).typeid_to_list_index ≡ some i
      → is_struct_type id ≡ true
  extended-structs v kind id i h = elim (Bool-cases (s.type_id ==ℤ id)) [
    | inl e ↦ rw (← (==ℤ_iff s.type_id id).0 e) kind
    | inr e ↦ v.structs id i (ground (arith, find_id-extended id))
  ]

  pub get_struct_info-extended :
      IsWellFormed db
      → (id : ℤ)
      → get_struct_info (extended db s) id
        ≡ (if s.type_id ==ℤ id then some s else get_struct_info db id)
  unfolding get_struct_info
  get_struct_info-extended v id = elim (Bool-cases (s.type_id ==ℤ id)) [
    | inl e ↦ rw e (ground (arith, find_id-extended id, get_elem?-append_end db.struct_info_vec s))
    | inr e ↦ elim (Option-cases (find_id id db.typeid_to_list_index)) [
      | inl none_found ↦ ground (arith, find_id-extended id)
      | inr (i, found) ↦
          let (t, at, _) = v.sound id i found in
          ground
            (arith, find_id-extended id, get_elem?-append_left db.struct_info_vec (s ∷ []) i at)
    ]
  ]

-- `registerStruct` keeps a database well-formed: every indexed position holds the struct with that
-- id, every struct is indexed at its position, and only struct ids are indexed.
pub register_struct-IsWellFormed :
    (db : TypeDb) (s : StructTypeInfo) → IsWellFormed db → IsWellFormed (register_struct db s)
register_struct-IsWellFormed db s v = elim (register_struct_cases db s) [
  | inl (e, _) ↦ rw e v
  | inr (e, absent, kind) ↦ rw e (record {
    sound = extended_sound db s absent v;
    complete = extended_complete db s absent v;
    structs = extended-structs db s absent v kind;
  })
]

-- A struct whose id is found only after it was registered stands last.
pub register_struct-struct_info_vec :
    (db : TypeDb) (s : StructTypeInfo)
    → get_struct_info db s.type_id ≡ none
    → get_struct_info (register_struct db s) s.type_id ≡ some s
    → (register_struct db s).struct_info_vec ≡ db.struct_info_vec ++ s ∷ []
register_struct-struct_info_vec db s absent found = elim (register_struct_cases db s) [
  | inl (same, _) ↦ absurd (none-ne-some (sym absent ∙ rw same at found))
  | inr (e, _, _) ↦ rw e refl
]
