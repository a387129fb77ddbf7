-- ===== src/Passes/TypeGen/Describes.antt =====
-- The tables of a registration, and the layouts that the runtime resolves addresses by.
use type_art.Prelude.{
  ℕ, zero, suc, ◌+◌, ◌*◌, ◌^◌, ◌≤◌, ◌<◌, ◌≡◌, refl, subst, sym, ◌∙◌, inl, inr, false, List, ◌∷◌,
  Option, none, some, some_inj, Bool-cases, none-ne-some, String, length, get_elem?, Option-cases,
  arith,
}
use type_art.Prelude.Int.{ℤ, pos, ◌==ℤ◌, ==ℤ_iff}
use type_art.TypeLib.Types.{StructTypeInfo, unknown_type, user_defined, llvm_vector}
use type_art.TypeLib.TypeDb.{TypeDb, get_struct_info, get_type_size}
use type_art.Passes.IrTypes.{IrOps, fixed_vector_ty, struct_ty, is_array, done}
use type_art.Passes.TypeUtil.{size_of_non_array}
use type_art.Passes.TypeHandlers.{
  TypeManager, find_struct, reserve_next_id, add_struct, Member, layout, get_name, get_vector_name,
  known_vector_id,
}
use type_art.Passes.TypeGen.{
  unless_known, if_element, vector_members, array_size_of, element_of, get_or_register_vector,
  get_or_register_type,
}
use type_art.Passes.TypeGen.Laws.{IsTyped, IsNamed}
use type_art.Passes.TypeGen.Registry.{IsConsistent}
use type_art.Passes.TypeGen.Rule.{
  Ensures, IsBasic, basic_id, IsRule, member_at, get_or_register_vector_zero,
  get_or_register_type_rule,
}
use type_art.Passes.TypeGen.Runs.{
  Grown-refl, Grown-trans, Grown-add_struct, get_struct_info-added, added_last,
}
use type_art.Passes.TypeGen.Vectors.{
  data_of, id_of, element_data, vector_id, vector_info, new_vector, vector_element_id,
  get_or_register_vector_lem,
}
use type_art.Passes.TypeGen.Lookup.{known_vector_id-found, known_vector_id-none}
use type_art.Passes.TypeGen.Ends.{element_of-flat}
use type_art.Passes.TypeGen.Names.{element_below}
use type_art.Passes.TypeGen.Target.{offset_or_end, IsTarget}
use type_art.Passes.TypeGen.Placement.{
  Later-refl, Later-trans, Sized, Sized-Later, LayoutAt, vector_layout-LayoutAt,
}
use type_art.Passes.TypeGen.Layouts.{IsLaidOut, add_struct-Later, added-IsLaidOut}
use type_art.Passes.TypeGen.Laid.{
  found-Sized, Fits, AtLaid, InLaid, array_fits, AtLaid-known, AtLaid-new, reserved-IsLaidOut,
  reserved_db,
}
use native.Mathlib.Nat.{lt_irrefl}

unknown_size : (db : TypeDb) → get_type_size db unknown_type ≡ 0
unfolding get_type_size
unknown_size db = refl

module _ {Ty : Type 0} (ir : IrOps Ty) (rank : Ty → ℕ) (typed : IsTyped ir rank)
    (named : IsNamed ir) (target : IsTarget ir) where
  AtLaid-basic :
      (m : TypeManager) (t : Ty)
      → IsBasic ir t
      → AtLaid ir rank typed named target t m (basic_id ir t) m
  AtLaid-basic m t b = record {
    grown = Grown-refl m;
    laid = λ c _ l. (
      l,
      Later-refl m.type_db,
      λ flat.
          let (size, reserved, positive) = target.basic_sizes m.type_db t b.2 b.3 flat in
          (positive, (size, inl reserved)),
    );
  }

  vector-Fits :
      (m : TypeManager) (t : Ty) (id : ℤ) (s : StructTypeInfo)
      → IsConsistent m
      → ir.kind t ≡ fixed_vector_ty
      → get_struct_info m.type_db id ≡ some s
      → s.extent ≡ ir.alloc_size t
      → Fits ir rank typed named target m t id
  vector-Fits m t id s c kind found extent flat =
      let (_, _, positive, _) = target.vector_sizes t kind in
      (
        positive,
        subst (Sized m.type_db (length m.type_db.struct_info_vec) id) extent
            (found-Sized m id s c found),
      )

  -- A vector's element has a size, so its id is known.
  element-Sized :
      (m : TypeManager) (t : Ty)
      → ir.kind t ≡ fixed_vector_ty
      → let element = ir.vector_element t in
        (0 < ir.alloc_size element)
        × Sized m.type_db
            (length m.type_db.struct_info_vec)
            (basic_id ir element)
            (ir.alloc_size element)
  element-Sized m t kind =
      let (basic, flat) = vector_element_id ir rank typed t kind in
      let no_array : is_array ir (ir.vector_element t) ≡ false = ground arith in
      let (size, reserved, positive) =
        target.basic_sizes m.type_db (ir.vector_element t) basic.2 basic.3 no_array in
      (positive, (size, inl reserved))

  abbrev ElementIs : TypeManager → Ty → Option (ℤ × String) → Type 0
  ElementIs m t none = ⊥
  ElementIs m t (some (id, name)) = id ≡ basic_id ir (ir.vector_element t)

  data_of-known :
      (m : TypeManager) (t : Ty) (id : ℤ)
      → id ≡ basic_id ir (ir.vector_element t)
      → 0 < get_type_size m.type_db id
      → ElementIs m t (data_of m id)
  data_of-known m t id is positive = elim (Bool-cases (id ==ℤ unknown_type)) [
    | inl e ↦
        let unknown = (==ℤ_iff id unknown_type).0 e in
        absurd (
          omega (
            arith,
            unknown_size m.type_db,
            subst (λ k. 0 < get_type_size m.type_db k) unknown positive,
          ))
    | inr e ↦ rw e is
  ]

  element_known :
      (m : TypeManager) (t : Ty)
      → ir.kind t ≡ fixed_vector_ty
      → ElementIs m t (element_data ir rank typed m t)
  element_known m t kind =
      let (positive, (size, _)) = element-Sized m t kind in
      data_of-known m t (basic_id ir (ir.vector_element t)) refl (rw size positive)

  known_vector :
      (m : TypeManager) (t : Ty) (name : String) (id : ℤ)
      → IsConsistent m
      → IsLaidOut ir m
      → ir.kind t ≡ fixed_vector_ty
      → known_vector_id m (get_vector_name ir t name) ≡ some id
      → (s : StructTypeInfo) × (get_struct_info m.type_db id ≡ some s)
        × (s.extent ≡ ir.alloc_size t)
  known_vector m t name id c l kind h =
      let full = get_vector_name ir t name in
      elim (Option-cases (find_struct full m.struct_map)) [
        | inl absent ↦ absurd (none-ne-some (sym (known_vector_id-none m full absent) ∙ h))
        | inr (k, e) ↦
            let (s, found, _) = c.named full k e in
            let (extent, flag) = l.vectors t name k s kind e found in
            let same : k ≡ id =
              some_inj (sym (known_vector_id-found m full k s e found flag) ∙ h) in
            (s, rw (← same) found, extent)
      ]

  vector-new_layout :
      (m : TypeManager) (t : Ty) (name : String)
      → ir.kind t ≡ fixed_vector_ty
      → (reserve_next_id m).0 ≡ pos (256 + m.struct_count)
      → LayoutAt m.type_db
          (length m.type_db.struct_info_vec)
          (vector_info ir rank typed m t (basic_id ir (ir.vector_element t)) name)
  vector-new_layout m t name kind id =
      let element = ir.vector_element t in
      let (bytes, fits, _, small) = target.vector_sizes t kind in
      let (positive, sized) = element-Sized m t kind in
      subst
        (λ k. LayoutAt m.type_db (length m.type_db.struct_info_vec) (
          layout k (get_vector_name ir t name) (ir.alloc_size t)
            (vector_members ir (basic_id ir element) (ir.alloc_size t) (ir.vector_num_elements t)
              (size_of_non_array ir element))
            llvm_vector))
        (sym id)
        (subst
          (λ n. LayoutAt m.type_db (length m.type_db.struct_info_vec) (
            layout (pos (256 + m.struct_count)) (get_vector_name ir t name) (ir.alloc_size t)
              (vector_members ir (basic_id ir element) (ir.alloc_size t) (ir.vector_num_elements t)
                n)
              llvm_vector))
          (sym bytes)
          (vector_layout-LayoutAt ir m.type_db (length m.type_db.struct_info_vec)
            (256 + m.struct_count) llvm_vector (ir.vector_num_elements t) (ir.alloc_size element)
            (ir.alloc_size t) (get_vector_name ir t name) (basic_id ir element) sized positive fits
            small))

  vector-new_name :
      (m : TypeManager) (t : Ty) (id : ℤ) (name : String)
      → ir.kind t ≡ fixed_vector_ty
      → let info = vector_info ir rank typed m t id name in
        ((u : Ty)
          → ir.kind u ≡ struct_ty
          → info.name ≡ get_name ir u
          → (info.extent ≡ ir.struct_size u) × (info.flag ≡ user_defined))
        × ((u : Ty) (element_name : String)
            → ir.kind u ≡ fixed_vector_ty
            → info.name ≡ get_vector_name ir u element_name
            → (info.extent ≡ ir.alloc_size u) × (info.flag ≡ llvm_vector))
  unfolding layout
  vector-new_name m t id name kind = (
    λ u kind' same. absurd (named.no_vector_name u t name kind' (sym same)),
    λ u element_name kind' same. (target.vector_names t u name element_name kind kind' same, refl),
  )

  AtLaid-vector :
      (m : TypeManager) (t : Ty) (known : Option ℤ) (element : Option (ℤ × String))
      → ir.kind t ≡ fixed_vector_ty
      → id_of ir rank typed m t element ≡ known
      → ElementIs m t element
      → Ensures (AtLaid ir rank typed named target t m) (
          unless_known known m
            (if_element element m (λ id name. done (new_vector ir rank typed m t id name))))
  unfolding layout
  AtLaid-vector m t known none kind h is = absurd is
  AtLaid-vector m t (some id) (some (element_id, name)) kind h is = record {
    grown = Grown-refl m;
    laid = λ c b l.
        let (s, found, extent) = known_vector m t name id c l kind h in
        (l, Later-refl m.type_db, vector-Fits m t id s c kind found extent);
  }
  AtLaid-vector m t none (some (element_id, name)) kind h is =
      let info = vector_info ir rank typed m t element_id name in
      let m₁ = (reserve_next_id m).1 in
      let grown = Grown-add_struct m m₁ info (Grown-refl m₁) refl in
      record {
        grown = grown;
        laid = λ c b l.
            let (vec, finds, id, c') = added_last m m₁ info (Grown-refl m₁) refl c b in
            let found = get_struct_info-added m m₁ info (Grown-refl m₁) refl c b in
            let (c'', _) = grown.keeps c b in
            let at =
              subst
                (λ k.
                  LayoutAt m₁.type_db (length m₁.type_db.struct_info_vec)
                    (vector_info ir rank typed m t k name))
                (sym is)
                (subst
                  (λ db.
                    LayoutAt db (length db.struct_info_vec)
                      (vector_info ir rank typed m t (basic_id ir (ir.vector_element t)) name))
                  (sym (reserved_db ir rank typed named target m))
                  (vector-new_layout m t name kind id)) in
            let (structs, vectors) = vector-new_name m t element_id name kind in
            (
              added-IsLaidOut ir m₁ info c' found vec finds
                  (reserved-IsLaidOut ir rank typed named target m l) at structs vectors,
              rw (reserved_db ir rank typed named target m) at
                  (add_struct-Later ir m₁ info c' found vec finds),
              vector-Fits (add_struct m₁ info) t info.type_id info c'' kind found refl,
            );
      }

  vector-AtLaid :
      (fuel : ℕ) (m : TypeManager) (t : Ty)
      → ir.kind t ≡ fixed_vector_ty
      → Ensures (AtLaid ir rank typed named target t m) (get_or_register_vector ir fuel m t)
  vector-AtLaid zero m t kind =
      get_or_register_vector_zero ir (AtLaid ir rank typed named target t m) m t
  vector-AtLaid (suc fuel) m t kind = rw (get_or_register_vector_lem ir rank typed fuel m t kind) (
      AtLaid-vector m t (vector_id ir rank typed m t) (element_data ir rank typed m t) kind refl
        (element_known m t kind))

  InLaid-next :
      (fuel : ℕ) (m m' m'' : TypeManager) (t u e : Ty) (i size : ℕ) (id : ℤ) (rest : List Member)
      → ir.kind t ≡ struct_ty
      → get_elem? (ir.struct_elements t) i ≡ some u
      → array_size_of ir fuel u ≡ done size
      → element_of ir fuel u ≡ done e
      → AtLaid ir rank typed named target e m id m'
      → InLaid ir rank typed named target t (suc i) m' rest m''
      → InLaid ir rank typed named target t i m (member_at ir t i id size ∷ rest) m''
  InLaid-next fuel m m' m'' t u e i size id rest kind at counted found f g = record {
    grown = Grown-trans f.grown g.grown;
    laid = λ c b l.
        let b' : 256 + m'.struct_count ≤ 2 ^ 31 = omega (arith, g.grown.count) in
        let (c', _) = f.grown.keeps c b' in
        let (l', later, fits) = f.laid c b' l in
        let (l'', later', placed) = g.laid c' b l' in
        let (_, flat) = element_of-flat ir rank typed fuel u e found in
        let (positive, sized) = fits flat in
        let room = array_fits ir rank typed named target fuel size u e counted found in
        let place : ir.element_offset t i + size * ir.alloc_size e
            ≤ offset_or_end ir t (suc i) (get_elem? (ir.struct_elements t) (suc i)) =
          omega (arith, target.elements_in_order t u i kind at) in
        (
          l'',
          Later-trans later later',
          (
            (u, at),
            refl,
            (
              ir.alloc_size e,
              positive,
              place,
              Sized-Later (length m'.type_db.struct_info_vec) (length m''.type_db.struct_info_vec)
                  id (ir.alloc_size e) later' later'.longer sized,
            ),
            placed,
          ),
        );
  }

  laid-IsRule : IsRule ir (AtLaid ir rank typed named target) (InLaid ir rank typed named target)
  laid-IsRule = record {
    basic = AtLaid-basic;
    vector = vector-AtLaid;
    known = AtLaid-known ir rank typed named target;
    new = λ m m' t members kind free f. AtLaid-new ir rank typed named target m m' t members kind f;
    end = λ m t i e. record { grown = Grown-refl m; laid = λ c b l. (l, Later-refl m.type_db, e) };
    self = λ fuel m m' t u e i size id rest kind at counted found struct same h. absurd (
        lt_irrefl (rank t) (
          subst (λ x. rank x < rank t) (named.one_name e t struct kind same)
            (element_below ir rank typed named fuel t u e i kind at found)));
    next = InLaid-next;
  }

  pub get_or_register_type-AtLaid :
      (fuel : ℕ) (m m' : TypeManager) (t : Ty) (id : ℤ)
      → get_or_register_type ir fuel m t ≡ done (id, m')
      → AtLaid ir rank typed named target t m id m'
  get_or_register_type-AtLaid fuel m m' t id e =
      subst (Ensures (AtLaid ir rank typed named target t m)) e (
        get_or_register_type_rule ir (AtLaid ir rank typed named target)
          (InLaid ir rank typed named target) laid-IsRule fuel m t)
