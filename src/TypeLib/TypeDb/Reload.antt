-- ===== src/TypeLib/TypeDb/Reload.antt =====
-- The structs of a database, registered again one by one.
use type_art.Prelude.{
  ℕ, ◌≡◌, refl, sym, ◌∙◌, ap, subst, true, false, List, [], ◌∷◌, ◌++◌, none, some, some_inj,
  none-ne-some, inl, inr, Option-cases, length, get_elem?, get_elem?-lt, get_elem?-append_left,
  get_elem?-append_at, append-nil, arith,
}
use type_art.Prelude.Int.{ℤ}
use type_art.TypeLib.Types.{StructTypeInfo}
use type_art.TypeLib.TypeDb.{
  TypeDb, find_id, clear, is_struct_type, is_valid, get_struct_info, register_struct,
  get_struct_list,
}
use type_art.TypeLib.TypeDb.Invariant.{
  IsWellFormed, empty_db-IsWellFormed, register_struct-IsWellFormed, register_struct_cases,
}
use type_art.TypeLib.TypeDb.Refinement.{register_all, register_all-IsWellFormed}

same_id :
    (db db' : TypeDb) (id : ℤ) (i : ℕ) (s : StructTypeInfo)
    → IsWellFormed db
    → IsWellFormed db'
    → find_id id db.typeid_to_list_index ≡ some i
    → get_elem? db.struct_info_vec i ≡ some s
    → get_elem? db'.struct_info_vec i ≡ some s
    → find_id id db'.typeid_to_list_index ≡ some i
same_id db db' id i s v v' f at at' =
    let (t, at_t, named) = v.sound id i f in
    let same : s ≡ t = some_inj (sym at ∙ at_t) in
    subst (λ k. find_id k db'.typeid_to_list_index ≡ some i) (ap (λ x. x.type_id) same ∙ named)
      (v'.complete i s at')

-- Two well-formed databases with the same structs agree on every id.
same_structs :
    (db db' : TypeDb) (id : ℤ)
    → IsWellFormed db
    → IsWellFormed db'
    → db'.struct_info_vec ≡ db.struct_info_vec
    → get_struct_info db' id ≡ get_struct_info db id
unfolding get_struct_info
same_structs db db' id v v' e = elim (Option-cases (find_id id db.typeid_to_list_index)) [
  | inr (i, f) ↦
      let (s, at, _) = v.sound id i f in
      let at' : get_elem? db'.struct_info_vec i ≡ some s = rw e at in
      let f' : find_id id db'.typeid_to_list_index ≡ some i = same_id db db' id i s v v' f at at' in
      ground (arith, e)
  | inl f ↦ elim (Option-cases (find_id id db'.typeid_to_list_index)) [
    | inl f' ↦ ground arith
    | inr (i, f') ↦
        let (s, at, _) = v'.sound id i f' in
        absurd (none-ne-some (sym f ∙ same_id db' db id i s v' v f' at (rw (sym e) at)))
  ]
]

-- A struct of a well-formed database is not yet in one that holds those before it.
not_yet :
    (db acc : TypeDb) (pre post : List StructTypeInfo) (s : StructTypeInfo)
    → IsWellFormed db
    → IsWellFormed acc
    → db.struct_info_vec ≡ pre ++ s ∷ post
    → acc.struct_info_vec ≡ pre
    → find_id s.type_id acc.typeid_to_list_index ≡ none
not_yet db acc pre post s v w e f =
    elim (Option-cases (find_id s.type_id acc.typeid_to_list_index)) [
      | inl absent ↦ absent
      | inr (i, found) ↦
          let (t, at, named) = w.sound s.type_id i found in
          let before : get_elem? pre i ≡ some t = rw (sym f) at in
          let in_db : get_elem? db.struct_info_vec i ≡ some t =
            rw e (get_elem?-append_left pre (s ∷ post) i before) in
          let here : get_elem? db.struct_info_vec (length pre) ≡ some s =
            rw e (get_elem?-append_at pre s post) in
          let same : i ≡ length pre = some_inj (
            sym
              (subst (λ k. find_id k db.typeid_to_list_index ≡ some i) named (v.complete i t in_db))
            ∙ v.complete (length pre) s here) in
          absurd (omega (arith, get_elem?-lt pre i before))
    ]

not_valid :
    (db : TypeDb) (id : ℤ)
    → is_struct_type id ≡ true
    → find_id id db.typeid_to_list_index ≡ none
    → is_valid db id ≡ false
unfolding is_valid
not_valid db id kind absent = ground arith

append-snoc :
    (xs : List StructTypeInfo) (y : StructTypeInfo) (zs : List StructTypeInfo)
    → xs ++ y ∷ zs ≡ (xs ++ y ∷ []) ++ zs
append-snoc [] y zs = refl
append-snoc (x ∷ xs) y zs = ap (λ l. x ∷ l) (append-snoc xs y zs)

register_struct_new :
    (db acc : TypeDb) (pre post : List StructTypeInfo) (s : StructTypeInfo)
    → IsWellFormed db
    → IsWellFormed acc
    → db.struct_info_vec ≡ pre ++ s ∷ post
    → acc.struct_info_vec ≡ pre
    → (register_struct acc s).struct_info_vec ≡ pre ++ s ∷ []
register_struct_new db acc pre post s v w e f = elim (register_struct_cases acc s) [
  | inl (same, seen) ↦
      let here : get_elem? db.struct_info_vec (length pre) ≡ some s =
        rw e (get_elem?-append_at pre s post) in
      let kind = v.structs s.type_id (length pre) (v.complete (length pre) s here) in
      absurd (ground (arith, not_valid acc s.type_id kind (not_yet db acc pre post s v w e f)))
  | inr (new, _, _) ↦ rw (new, f) refl
]

register_all-struct_info_vec :
    (db acc : TypeDb) (pre post : List StructTypeInfo)
    → IsWellFormed db
    → IsWellFormed acc
    → db.struct_info_vec ≡ pre ++ post
    → acc.struct_info_vec ≡ pre
    → (register_all acc post).struct_info_vec ≡ db.struct_info_vec
unfolding register_all
register_all-struct_info_vec db acc pre [] v w e f = f ∙ sym (append-nil pre) ∙ sym e
register_all-struct_info_vec db acc pre (s ∷ post) v w e f =
    register_all-struct_info_vec db (register_struct acc s) (pre ++ s ∷ []) post v
      (register_struct-IsWellFormed acc s w) (e ∙ append-snoc pre s post)
      (register_struct_new db acc pre post s v w e f)

pub clear-IsWellFormed : (db : TypeDb) → IsWellFormed (clear db)
unfolding clear
clear-IsWellFormed db = empty_db-IsWellFormed

-- The structs of a well-formed database, registered again from nothing, make a database with the
-- same structs in the same order, which answers every id in the same way.
pub register_all-get_struct_list :
    (db old : TypeDb) (id : ℤ)
    → IsWellFormed db
    → let again = register_all (clear old) (get_struct_list db) in
      (get_struct_list again ≡ get_struct_list db)
      × (get_struct_info again id ≡ get_struct_info db id)
unfolding get_struct_list clear
register_all-get_struct_list db old id v =
    let vec =
      register_all-struct_info_vec db (clear old) [] db.struct_info_vec v (clear-IsWellFormed old)
        refl refl in
    (
      vec,
      same_structs db (register_all (clear old) (get_struct_list db)) id v
          (register_all-IsWellFormed (clear old) (get_struct_list db) (clear-IsWellFormed old)) vec,
    )
