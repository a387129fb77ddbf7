-- ===== src/Passes/TypeGen/Layouts.antt =====
-- The layouts that a registration makes describe the types, as the runtime's resolution needs it.
use type_art.Prelude.{
  ℕ, ◌≡◌, sym, ◌∙◌, ◌⊎◌, inl, inr, [], ◌∷◌, ◌++◌, some, some_inj, String, length, length-append,
  get_elem?, get_elem?-append_left, get_elem?-append_cases, Option-cases, arith,
}
use type_art.Prelude.Int.{ℤ}
use type_art.TypeLib.Types.{StructTypeInfo, user_defined, llvm_vector}
use type_art.TypeLib.TypeDb.{get_struct_info}
use type_art.Passes.IrTypes.{IrOps, fixed_vector_ty, struct_ty}
use type_art.Passes.TypeHandlers.{TypeManager, find_struct, add_struct, get_name, get_vector_name}
use type_art.Passes.TypeGen.Registry.{IsConsistent, find_struct-add_struct}
use type_art.Passes.TypeGen.Placement.{Later, LayoutAt, LayoutAt-Later}
use text.Mathlib.TextEquality.{eq_iff}

module _ {Ty : Type 0} (ir : IrOps Ty) where
  -- The layouts stand in order, and those behind the names of types are of the types' sizes.
  pub record IsLaidOut (m : TypeManager) : Type 0 where
    pub layouts :
        (p : ℕ) (s : StructTypeInfo)
        → get_elem? m.type_db.struct_info_vec p ≡ some s
        → LayoutAt m.type_db p s
    pub structs :
        (t : Ty) (id : ℤ) (s : StructTypeInfo)
        → ir.kind t ≡ struct_ty
        → find_struct (get_name ir t) m.struct_map ≡ some id
        → get_struct_info m.type_db id ≡ some s
        → (s.extent ≡ ir.struct_size t) × (s.flag ≡ user_defined)
    pub vectors :
        (t : Ty) (element_name : String) (id : ℤ) (s : StructTypeInfo)
        → ir.kind t ≡ fixed_vector_ty
        → find_struct (get_vector_name ir t element_name) m.struct_map ≡ some id
        → get_struct_info m.type_db id ≡ some s
        → (s.extent ≡ ir.alloc_size t) × (s.flag ≡ llvm_vector)

module _ {Ty : Type 0} (ir : IrOps Ty) (m' : TypeManager) (info : StructTypeInfo)
    (c' : IsConsistent m')
    (found : get_struct_info (add_struct m' info).type_db info.type_id ≡ some info)
    (vec : (add_struct m' info).type_db.struct_info_vec ≡ m'.type_db.struct_info_vec ++ info ∷ [])
    (finds : (id : ℤ) (s : StructTypeInfo)
      → get_struct_info m'.type_db id ≡ some s
      → get_struct_info (add_struct m' info).type_db id ≡ some s) where
  pub add_struct-Later : Later m'.type_db (add_struct m' info).type_db
  add_struct-Later = record {
    finds = finds;
    kept = λ p s h. rw vec (get_elem?-append_left m'.type_db.struct_info_vec (info ∷ []) p h);
    longer = rw vec (omega (arith, length-append {0} m'.type_db.struct_info_vec (info ∷ [])));
  }

  -- What is found under a name afterwards was found before, or is the new layout.
  pub found_cases :
      (name : String) (id : ℤ) (s : StructTypeInfo)
      → find_struct name (add_struct m' info).struct_map ≡ some id
      → get_struct_info (add_struct m' info).type_db id ≡ some s
      → ((find_struct name m'.struct_map ≡ some id) × (get_struct_info m'.type_db id ≡ some s))
        ⊎ ((info.name ≡ name) × (s ≡ info))
  found_cases name id s h f = elim (Option-cases (find_struct name m'.struct_map)) [
    | inr (old, e) ↦
        let same : old ≡ id = ground (arith, find_struct-add_struct m' info name) in
        let e' : find_struct name m'.struct_map ≡ some id = rw (← same) e in
        let (t, before, _) = c'.named name id e' in inl (e', before ∙ sym (finds id t before) ∙ f)
    | inl e ↦
        let is : info.type_id ≡ id =
          ground (arith, find_struct-add_struct m' info name, eq_iff info.name name) in
        let same : info.name ≡ name =
          ground (arith, find_struct-add_struct m' info name, eq_iff info.name name) in
        inr (same, some_inj (sym f ∙ rw (← is) found))
  ]

  layouts_added :
      IsLaidOut ir m'
      → LayoutAt m'.type_db (length m'.type_db.struct_info_vec) info
      → (p : ℕ) (s : StructTypeInfo)
      → get_elem? (add_struct m' info).type_db.struct_info_vec p ≡ some s
      → LayoutAt (add_struct m' info).type_db p s
  layouts_added l at p s h =
      elim (get_elem?-append_cases m'.type_db.struct_info_vec info p (rw vec at h)) [
        | inl old ↦ LayoutAt-Later p s add_struct-Later (l.layouts p s old)
        | inr (e, f) ↦
            rw (e, f) (LayoutAt-Later (length m'.type_db.struct_info_vec) info add_struct-Later at)
      ]

  pub added-IsLaidOut :
      IsLaidOut ir m'
      → LayoutAt m'.type_db (length m'.type_db.struct_info_vec) info
      → ((t : Ty)
          → ir.kind t ≡ struct_ty
          → info.name ≡ get_name ir t
          → (info.extent ≡ ir.struct_size t) × (info.flag ≡ user_defined))
      → ((t : Ty) (element_name : String)
          → ir.kind t ≡ fixed_vector_ty
          → info.name ≡ get_vector_name ir t element_name
          → (info.extent ≡ ir.alloc_size t) × (info.flag ≡ llvm_vector))
      → IsLaidOut ir (add_struct m' info)
  added-IsLaidOut l at new_struct new_vector = record {
    layouts = layouts_added l at;
    structs = λ t id s kind h f. elim (found_cases (get_name ir t) id s h f) [
      | inl (old, before) ↦ l.structs t id s kind old before
      | inr (same, is) ↦ rw is (new_struct t kind same)
    ];
    vectors = λ t element_name id s kind h f.
        elim (found_cases (get_vector_name ir t element_name) id s h f) [
          | inl (old, before) ↦ l.vectors t element_name id s kind old before
          | inr (same, is) ↦ rw is (new_vector t element_name kind same)
        ];
  }
