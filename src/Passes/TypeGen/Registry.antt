-- ===== src/Passes/TypeGen/Registry.antt =====
-- The tables of a `TypeManager` agree with each other, and grow without a change of what is there.
use type_art.Prelude.{
  ℕ, ◌+◌, ◌^◌, ◌≤◌, ◌<◌, ◌≡◌, ◌≢◌, refl, sym, ap, ◌∙◌, inl, inr, true, false, [], ◌∷◌, ◌++◌, Option,
  none, some, String, if◌then◌else◌, Bool-cases, Option-cases, arith,
}
use type_art.Prelude.Int.{ℤ, pos, ◌==ℤ◌, ==ℤ_iff}
use type_art.TypeLib.Types.{StructTypeInfo}
use type_art.TypeLib.TypeDb.{is_struct_type, get_struct_info}
use type_art.TypeLib.TypeDb.Invariant.{
  IsWellFormed, register_struct-IsWellFormed, register_struct-struct_info_vec,
}
use type_art.TypeLib.TypeDb.Refinement.{
  or_else, get_struct_info-register_struct, get_struct_info-type_id,
}
use type_art.Passes.TypeHandlers.{
  StructMap, find_struct, insert_struct, TypeManager, reserve_next_id, add_struct,
}
use text.Mathlib.Text.{◌==◌ as str_eq}
use text.Mathlib.TextEquality.{eq_iff}

pub find_struct-insert_struct :
    (name key : String) (id : ℤ) (m : StructMap)
    → find_struct name (insert_struct key id m)
      ≡ or_else (find_struct name m) (if str_eq key name then some id else none)
unfolding insert_struct find_struct
find_struct-insert_struct name key id m = elim (Option-cases (find_struct key m)) [
  | inl e ↦ ground (arith, eq_iff key name)
  | inr (old, e) ↦ ground (arith, eq_iff key name)
]

-- A layout stands behind each name, and each layout has an id that was given out.
pub record IsConsistent (m : TypeManager) : Type 0 where
  pub types : IsWellFormed m.type_db
  pub reserved :
      (id : ℤ) (s : StructTypeInfo)
      → get_struct_info m.type_db id ≡ some s
      → (k : ℕ) × (id ≡ pos (256 + k)) × (k < m.struct_count)
  pub named :
      (name : String) (id : ℤ)
      → find_struct name m.struct_map ≡ some id
      → (s : StructTypeInfo) × (get_struct_info m.type_db id ≡ some s) × (s.name ≡ name)

-- What was given out before stays as it was: the layouts, those not there yet included, and the
-- names.
pub record Extends (m m' : TypeManager) : Type 0 where
  pub count : m.struct_count ≤ m'.struct_count
  pub old :
      (k : ℕ)
      → k < m.struct_count
      → get_struct_info m'.type_db (pos (256 + k)) ≡ get_struct_info m.type_db (pos (256 + k))
  pub names :
      (name : String) (id : ℤ)
      → find_struct name m.struct_map ≡ some id
      → find_struct name m'.struct_map ≡ some id

pub Extends-refl : (m : TypeManager) → Extends m m
Extends-refl m = record { count = omega arith; old = λ k h. refl; names = λ name id h. h }

pub Extends-trans : {m m' m'' : TypeManager} → Extends m m' → Extends m' m'' → Extends m m''
Extends-trans e f = record {
  count = omega (arith, e.count, f.count);
  old = λ k h. f.old k (omega (arith, e.count)) ∙ e.old k h;
  names = λ name id h. f.names name id (e.names name id h);
}

-- A layout that was found is found later on.
pub Extends-get_struct_info :
    (m m' : TypeManager) (id : ℤ) (s : StructTypeInfo)
    → IsConsistent m
    → Extends m m'
    → get_struct_info m.type_db id ≡ some s
    → get_struct_info m'.type_db id ≡ some s
Extends-get_struct_info m m' id s c e h =
    let (k, is, lt) = c.reserved id s h in rw is (ground (arith, e.old k lt))

-- All that is found is found later on.
pub record Retains (m m' : TypeManager) : Type 0 where
  pub finds :
      (id : ℤ) (s : StructTypeInfo)
      → get_struct_info m.type_db id ≡ some s
      → get_struct_info m'.type_db id ≡ some s
  pub names :
      (name : String) (id : ℤ)
      → find_struct name m.struct_map ≡ some id
      → find_struct name m'.struct_map ≡ some id

pub Extends-Retains : (m m' : TypeManager) → IsConsistent m → Extends m m' → Retains m m'
Extends-Retains m m' c e = record {
  finds = λ id s. Extends-get_struct_info m m' id s c e;
  names = e.names;
}

pub reserve_next_id-IsConsistent :
    (m : TypeManager) → IsConsistent m → IsConsistent (reserve_next_id m).1
unfolding reserve_next_id
reserve_next_id-IsConsistent m c = record {
  types = c.types;
  reserved = λ id s h. let (k, is, lt) = c.reserved id s h in (k, is, omega arith);
  named = c.named;
}

pub reserve_next_id-Extends : (m : TypeManager) → Extends m (reserve_next_id m).1
unfolding reserve_next_id
reserve_next_id-Extends m = record {
  count = omega arith;
  old = λ k h. refl;
  names = λ name id h. h;
}

pub reserve_next_id_lem :
    (m : TypeManager)
    → 256 + m.struct_count < 2 ^ 31
    → (reserve_next_id m).0 ≡ pos (256 + m.struct_count)
unfolding reserve_next_id
reserve_next_id_lem m h = ground arith

or_else-none {ℓ} : {A : Type ℓ} (o : Option A) → or_else o none ≡ o
or_else-none none = refl
or_else-none (some a) = refl

other_id : (j k : ℕ) → j ≢ k → (pos (256 + k) ==ℤ pos (256 + j)) ≡ false
other_id j k ne = ground arith

pub find_struct-add_struct :
    (m : TypeManager) (info : StructTypeInfo) (name : String)
    → find_struct name (add_struct m info).struct_map
      ≡ or_else
          (find_struct name m.struct_map)
          (if str_eq info.name name then some info.type_id else none)
unfolding add_struct
find_struct-add_struct m info name =
    find_struct-insert_struct name info.name info.type_id m.struct_map

-- A layout is added under an id that was given out and has none yet.
module _ (m : TypeManager) (info : StructTypeInfo) (k : ℕ) (c : IsConsistent m)
    (is : info.type_id ≡ pos (256 + k)) (given : k < m.struct_count)
    (free : get_struct_info m.type_db (pos (256 + k)) ≡ none) where
  types : IsWellFormed (add_struct m info).type_db
  unfolding add_struct
  types = register_struct-IsWellFormed m.type_db info c.types

  pub get_struct_info-add_struct :
      (id : ℤ)
      → is_struct_type id ≡ true
      → get_struct_info (add_struct m info).type_db id
        ≡ or_else (get_struct_info m.type_db id) (if info.type_id ==ℤ id then some info else none)
  unfolding add_struct
  get_struct_info-add_struct id kind =
      get_struct_info-register_struct m.type_db info id c.types kind

  pub get_struct_info-add_struct_self :
      get_struct_info (add_struct m info).type_db info.type_id ≡ some info
  get_struct_info-add_struct_self = rw is (
      ground
        (arith, get_struct_info-add_struct (pos (256 + k)), ==ℤ_iff info.type_id (pos (256 + k))))

  pub get_struct_info-add_struct_ne :
      (j : ℕ)
      → j ≢ k
      → get_struct_info (add_struct m info).type_db (pos (256 + j))
        ≡ get_struct_info m.type_db (pos (256 + j))
  get_struct_info-add_struct_ne j ne =
      get_struct_info-add_struct (pos (256 + j)) (ground arith)
      ∙ rw (is, other_id j k ne) (or_else-none (get_struct_info m.type_db (pos (256 + j))))

  add_struct-reserved :
      (id : ℤ) (s : StructTypeInfo)
      → get_struct_info (add_struct m info).type_db id ≡ some s
      → (j : ℕ) × (id ≡ pos (256 + j)) × (j < (add_struct m info).struct_count)
  unfolding add_struct
  add_struct-reserved id s h =
      let (_, kind) = get_struct_info-type_id (add_struct m info).type_db id s (types) h in
      elim (Bool-cases (info.type_id ==ℤ id)) [
        | inl e ↦ (k, sym ((==ℤ_iff info.type_id id).0 e) ∙ is, given)
        | inr e ↦ c.reserved id s (ground (arith, get_struct_info-add_struct id kind))
      ]

  -- A layout that was found before stays.
  kept :
      (id : ℤ) (s : StructTypeInfo)
      → get_struct_info m.type_db id ≡ some s
      → get_struct_info (add_struct m info).type_db id ≡ some s
  kept id s h =
      let (_, kind) = get_struct_info-type_id m.type_db id s c.types h in
      get_struct_info-add_struct id kind ∙ rw h

  add_struct-named :
      (name : String) (id : ℤ)
      → find_struct name (add_struct m info).struct_map ≡ some id
      → (s : StructTypeInfo) × (get_struct_info (add_struct m info).type_db id ≡ some s)
        × (s.name ≡ name)
  add_struct-named name id h = elim (Option-cases (find_struct name m.struct_map)) [
    | inl e ↦
        let self : info.type_id ≡ id =
          ground (arith, find_struct-add_struct m info name, eq_iff info.name name) in
        let same : info.name ≡ name =
          ground (arith, find_struct-add_struct m info name, eq_iff info.name name) in
        (info, rw (← self) get_struct_info-add_struct_self, same)
    | inr (old, e) ↦
        let is_old : old ≡ id = ground (arith, find_struct-add_struct m info name) in
        let (s, found, called) = c.named name id (e ∙ ap some is_old) in
        (s, kept id s found, called)
  ]

  pub add_struct-IsConsistent : IsConsistent (add_struct m info)
  add_struct-IsConsistent = record {
    types = types;
    reserved = add_struct-reserved;
    named = add_struct-named;
  }

-- A struct gets the next id, its members are registered, and its layout is added.
module _ (m m' : TypeManager) (info : StructTypeInfo) (c : IsConsistent m) (c' : IsConsistent m')
    (e : Extends (reserve_next_id m).1 m') (is : info.type_id ≡ pos (256 + m.struct_count)) where
  unused : get_struct_info m.type_db (pos (256 + m.struct_count)) ≡ none
  unused = elim (Option-cases (get_struct_info m.type_db (pos (256 + m.struct_count)))) [
    | inl absent ↦ absent
    | inr (s, found) ↦ let (k, same, lt) = c.reserved _ s found in absurd (ground arith)
  ]

  given : m.struct_count < m'.struct_count
  unfolding reserve_next_id
  given = omega (arith, e.count)

  still_unused : get_struct_info m'.type_db (pos (256 + m.struct_count)) ≡ none
  unfolding reserve_next_id
  still_unused = e.old m.struct_count (omega arith) ∙ unused

  pub complete-IsConsistent : IsConsistent (add_struct m' info)
  complete-IsConsistent = add_struct-IsConsistent m' info m.struct_count c' is given still_unused

  counted : m.struct_count ≤ (add_struct m' info).struct_count
  unfolding add_struct
  counted = omega (arith, given)

  pub complete-Extends : Extends m (add_struct m' info)
  unfolding reserve_next_id
  complete-Extends = record {
    count = counted;
    old = λ k lt.
        get_struct_info-add_struct_ne m' info m.struct_count c' is given still_unused k
          (λ same. absurd (omega arith))
        ∙ e.old k (omega arith);
    names = λ name id h. find_struct-add_struct m' info name ∙ rw (e.names name id h) refl;
  }

  pub complete-get_struct_info :
      get_struct_info (add_struct m' info).type_db info.type_id ≡ some info
  complete-get_struct_info =
      get_struct_info-add_struct_self m' info m.struct_count c' is given still_unused

  pub complete-struct_info_vec :
      (add_struct m' info).type_db.struct_info_vec ≡ m'.type_db.struct_info_vec ++ info ∷ []
  unfolding add_struct
  complete-struct_info_vec =
      register_struct-struct_info_vec m'.type_db info (rw is still_unused) complete-get_struct_info

  pub complete_kept :
      (id : ℤ) (s : StructTypeInfo)
      → get_struct_info m'.type_db id ≡ some s
      → get_struct_info (add_struct m' info).type_db id ≡ some s
  complete_kept = kept m' info m.struct_count c' is given still_unused
