-- ===== src/TypeLib/TypeDb/Refinement.antt =====
-- TypeDB against its abstract view, a map from ids to layouts in which the first entry wins.
use type_art.Prelude.{
  ◌≡◌, refl, sym, ◌∙◌, inl, inr, Bool, true, false, not, ◌||◌, if◌then◌else◌, List, [], ◌∷◌, Option,
  none, some, Bool-cases, Option-cases, arith,
}
use type_art.Prelude.Int.{ℤ, ◌==ℤ◌, ==ℤ_iff}
use type_art.TypeLib.Types.{StructTypeInfo}
use type_art.TypeLib.TypeDb.{
  find_id, TypeDb, is_struct_type, is_valid, get_struct_info, register_struct,
}
use type_art.TypeLib.TypeDb.Invariant.{
  IsWellFormed, register_struct-IsWellFormed, register_struct_cases, get_struct_info-extended,
}

-- The loop of `io::load` over the structs that a file holds.
unfoldable pub register_all : TypeDb → List StructTypeInfo → TypeDb
register_all db [] = db
register_all db (s ∷ ss) = register_all (register_struct db s) ss

-- The first struct of a list that has an id.
abbrev pub first_with : ℤ → List StructTypeInfo → Option StructTypeInfo
first_with id [] = none
first_with id (s ∷ ss) = if s.type_id ==ℤ id then some s else first_with id ss

abbrev pub or_else {ℓ} : {A : Type ℓ} → Option A → Option A → Option A
or_else (some a) o = some a
or_else none o = o

-- In a well-formed database a struct id is valid exactly if a layout is found for it.
is_valid-get_struct_info :
    (db : TypeDb) (id : ℤ)
    → IsWellFormed db
    → is_struct_type id ≡ true
    → is_valid db id ≡ elim (get_struct_info db id) [ none ↦ false | some _ ↦ true ]
unfolding is_valid get_struct_info
is_valid-get_struct_info db id v kind = elim (Option-cases (find_id id db.typeid_to_list_index)) [
  | inl e ↦ ground arith
  | inr (i, e) ↦ let (s, at, _) = v.sound id i e in ground arith
]

pub register_all-IsWellFormed :
    (db : TypeDb) (ss : List StructTypeInfo) → IsWellFormed db → IsWellFormed (register_all db ss)
unfolding register_all
register_all-IsWellFormed db [] v = v
register_all-IsWellFormed db (s ∷ ss) v =
    register_all-IsWellFormed (register_struct db s) ss (register_struct-IsWellFormed db s v)

-- A layout that a well-formed database finds for an id carries that id, which is a struct id.
pub get_struct_info-type_id :
    (db : TypeDb) (id : ℤ) (s : StructTypeInfo)
    → IsWellFormed db
    → get_struct_info db id ≡ some s
    → (s.type_id ≡ id) × (is_struct_type id ≡ true)
unfolding get_struct_info
get_struct_info-type_id db id s v h = elim (Option-cases (find_id id db.typeid_to_list_index)) [
  | inl e ↦ absurd (ground arith)
  | inr (i, e) ↦ let (t, at, eq) = v.sound id i e in (ground arith, v.structs id i e)
]

or_else-none {ℓ} : {A : Type ℓ} (o : Option A) → or_else o none ≡ o
or_else-none none = refl
or_else-none (some a) = refl

or_else-if {ℓ} :
    {A : Type ℓ} (o : Option A) (b : Bool) (a : A) (p : Option A)
    → or_else (or_else o (if b then some a else none)) p ≡ or_else o (if b then some a else p)
or_else-if none true a p = refl
or_else-if none false a p = refl
or_else-if (some x) b a p = refl

-- A struct that is turned away has a layout already, if its id is a struct id.
layout_present :
    (db : TypeDb) (id : ℤ)
    → IsWellFormed db
    → is_struct_type id ≡ true
    → (is_valid db id || not (is_struct_type id)) ≡ true
    → (t : StructTypeInfo) × (get_struct_info db id ≡ some t)
layout_present db id v kind seen = elim (Option-cases (get_struct_info db id)) [
  | inl e ↦ absurd (ground (arith, is_valid-get_struct_info db id v kind))
  | inr found ↦ found
]

get_struct_info_absent :
    (db : TypeDb) (id : ℤ)
    → find_id id db.typeid_to_list_index ≡ none
    → get_struct_info db id ≡ none
unfolding get_struct_info
get_struct_info_absent db id e = rw (e, get_struct_info)

-- What a lookup finds after one registration: the old layout if there is one, else the new struct
-- if the id is its own and is a struct id.
pub get_struct_info-register_struct :
    (db : TypeDb) (s : StructTypeInfo) (id : ℤ)
    → IsWellFormed db
    → is_struct_type id ≡ true
    → get_struct_info (register_struct db s) id
      ≡ or_else (get_struct_info db id) (if s.type_id ==ℤ id then some s else none)
get_struct_info-register_struct db s id v kind = elim (register_struct_cases db s) [
  | inl (same, seen) ↦ rw same (elim (Bool-cases (s.type_id ==ℤ id)) [
    | inl e ↦
        let is_id = (==ℤ_iff s.type_id id).0 e in
        let (t, found) = layout_present db id v kind (rw is_id at seen) in rw found
    | inr e ↦ rw (e, or_else-none)
  ])
  | inr (new, absent, _) ↦ rw new (elim (Bool-cases (s.type_id ==ℤ id)) [
    | inl e ↦ ground (
      arith,
      ==ℤ_iff s.type_id id,
      get_struct_info-extended db s absent v id,
      get_struct_info_absent db s.type_id absent,
    )
    | inr e ↦ rw (get_struct_info-extended db s absent v id, e, or_else-none)
  ])
]

-- Whatever a file lists, a lookup of a struct id in a well-formed database that registers the list
-- finds the first layout listed with that id, behind what was registered before.
pub get_struct_info-register_all :
    (db : TypeDb) (ss : List StructTypeInfo) (id : ℤ)
    → IsWellFormed db
    → is_struct_type id ≡ true
    → get_struct_info (register_all db ss) id ≡ or_else (get_struct_info db id) (first_with id ss)
unfolding register_all
get_struct_info-register_all db [] id v kind = sym (or_else-none (get_struct_info db id))
get_struct_info-register_all db (s ∷ ss) id v kind =
    get_struct_info-register_all (register_struct db s) ss id (register_struct-IsWellFormed db s v)
      kind
    ∙ rw (get_struct_info-register_struct db s id v kind)
        (or_else-if (get_struct_info db id) (s.type_id ==ℤ id) s (first_with id ss))
