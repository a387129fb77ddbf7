-- ===== src/Passes/TypeGen/Laid.antt =====
-- Every step of a registration makes layouts that describe the types.
use type_art.Prelude.{
  ℕ, zero, suc, ◌+◌, ◌*◌, ◌%◌, ◌^◌, ◌≤◌, ◌<◌, ◌≡◌, refl, subst, sym, ap, ◌∙◌, inl, inr, false, List,
  some, some_inj, none-ne-some, String, length, get_elem?-lt, Bool-cases, Option-cases, arith,
}
use type_art.Prelude.Int.{ℤ, pos}
use type_art.TypeLib.Types.{StructTypeInfo, user_defined, llvm_vector}
use type_art.TypeLib.TypeDb.{get_struct_info}
use type_art.TypeLib.TypeDb.Kinds.{get_type_size-get_struct_info, get_struct_info-get_elem?}
use type_art.TypeLib.TypeDb.Refinement.{get_struct_info-type_id}
use type_art.Passes.IrTypes.{IrOps, fixed_vector_ty, struct_ty, is_array, done}
use type_art.Passes.TypeUtil.{get_array_element_type, flatten_length}
use type_art.Passes.TypeHandlers.{
  TypeManager, find_struct, reserve_next_id, add_struct, Member, layout, get_name, get_struct_id,
  get_vector_name,
}
use type_art.Passes.TypeGen.{array_size_of, element_of}
use type_art.Passes.TypeGen.Laws.{IsTyped, IsNamed}
use type_art.Passes.TypeGen.Registry.{IsConsistent, reserve_next_id-IsConsistent}
use type_art.Passes.TypeGen.Rule.{struct_info}
use type_art.Passes.TypeGen.Runs.{
  Grown, Grown-refl, Grown-add_struct, get_struct_info-added, added_last,
}
use type_art.Passes.TypeGen.Lookup.{get_struct_id-found, get_struct_id-none}
use type_art.Passes.TypeGen.Target.{IsTarget}
use type_art.Passes.TypeGen.Placement.{
  Later, Later-refl, Later-trans, Sized, LayoutAt, PlacedFrom, struct_layout-LayoutAt,
}
use type_art.Passes.TypeGen.Layouts.{IsLaidOut, add_struct-Later, added-IsLaidOut}
use native.Mathlib.Nat.{mod-le, mul-le-mul_right, mul_assoc}

-- A layout that is found is one of a known size, before the next position.
pub found-Sized :
    (m : TypeManager) (id : ℤ) (s : StructTypeInfo)
    → IsConsistent m
    → get_struct_info m.type_db id ≡ some s
    → Sized m.type_db (length m.type_db.struct_info_vec) id s.extent
found-Sized m id s c found =
    let (_, struct) = get_struct_info-type_id m.type_db id s c.types found in
    let (q, at) = get_struct_info-get_elem? m.type_db id s found in
    (
      get_type_size-get_struct_info m.type_db id s struct found,
      inr (s, q, struct, found, at, get_elem?-lt m.type_db.struct_info_vec q at),
    )

module _ {Ty : Type 0} (ir : IrOps Ty) (rank : Ty → ℕ) (typed : IsTyped ir rank)
    (named : IsNamed ir) (target : IsTarget ir) where
  -- A type's id stands for a type of its size that may be a member of the next layout.
  abbrev pub Fits : TypeManager → Ty → ℤ → Type 0
  Fits m t id =
      is_array ir t ≡ false
      → (0 < ir.alloc_size t)
        × Sized m.type_db (length m.type_db.struct_info_vec) id (ir.alloc_size t)

  pub record AtLaid (t : Ty) (m : TypeManager) (id : ℤ) (m' : TypeManager) : Type 0 where
    pub grown : Grown m m'
    pub laid :
        IsConsistent m
        → 256 + m'.struct_count ≤ 2 ^ 31
        → IsLaidOut ir m
        → IsLaidOut ir m' × Later m.type_db m'.type_db × Fits m' t id

  pub record InLaid (t : Ty) (i : ℕ) (m : TypeManager) (members : List Member) (m' : TypeManager)
      : Type 0 where
    pub grown : Grown m m'
    pub laid :
        IsConsistent m
        → 256 + m'.struct_count ≤ 2 ^ 31
        → IsLaidOut ir m
        → IsLaidOut ir m'
          × Later m.type_db m'.type_db
          × PlacedFrom ir m'.type_db (length m'.type_db.struct_info_vec) t i members

  -- The elements of an array fill it at most, whatever the length wraps to.
  pub flatten_length-fits :
      (fuel len n : ℕ) (t e : Ty)
      → flatten_length ir fuel len t ≡ done n
      → get_array_element_type ir fuel t ≡ done e
      → n * ir.alloc_size e ≤ len * ir.alloc_size t
  unfolding flatten_length get_array_element_type
  flatten_length-fits zero len n t e h f = absurd (ground arith)
  flatten_length-fits (suc fuel) len n t e h f = elim (Bool-cases (is_array ir t)) [
    | inl a ↦
        let inner = ir.alloc_size (ir.array_element t) in
        let num = ir.array_num_elements t in
        let rest =
          flatten_length-fits fuel (len * num % 2 ^ 32) n (ir.array_element t) e (rw a at h)
            (rw a at f) in
        let wraps : len * num % 2 ^ 32 * inner ≤ len * num * inner =
          mul-le-mul_right inner (mod-le (len * num) (2 ^ 32)) in
        rw (target.array_sizes t a) (rw (← mul_assoc len num inner) (omega arith))
    | inr a ↦
        let same : t ≡ e = ground arith in
        let all : len ≡ n = ground arith in rw (same, all) (omega arith)
  ]

  pub array_fits :
      (fuel n : ℕ) (u e : Ty)
      → array_size_of ir fuel u ≡ done n
      → element_of ir fuel u ≡ done e
      → n * ir.alloc_size e ≤ ir.alloc_size u
  array_fits fuel n u e h f = elim (Bool-cases (is_array ir u)) [
    | inl a ↦ omega (arith, flatten_length-fits fuel 1 n u e (rw a at h) (rw a at f))
    | inr a ↦
        let same : u ≡ e = ground arith in
        let one : 1 ≡ n = ground arith in rw (same, ← one) (omega arith)
  ]

  known_struct :
      (m : TypeManager) (t : Ty) (id : ℤ)
      → IsConsistent m
      → IsLaidOut ir m
      → ir.kind t ≡ struct_ty
      → get_struct_id ir m t ≡ some id
      → (s : StructTypeInfo) × (get_struct_info m.type_db id ≡ some s)
        × (s.extent ≡ ir.struct_size t)
  known_struct m t id c l kind h = elim (Option-cases (find_struct (get_name ir t) m.struct_map)) [
    | inl absent ↦ absurd (none-ne-some (sym (get_struct_id-none ir m t absent) ∙ h))
    | inr (k, e) ↦
        let (s, found, _) = c.named (get_name ir t) k e in
        let (extent, flag) = l.structs t k s kind e found in
        let same : k ≡ id = some_inj (sym (get_struct_id-found ir m t k s e found flag) ∙ h) in
        (s, rw (← same) found, extent)
  ]

  struct-Fits :
      (m : TypeManager) (t : Ty) (id : ℤ) (s : StructTypeInfo)
      → IsConsistent m
      → ir.kind t ≡ struct_ty
      → get_struct_info m.type_db id ≡ some s
      → s.extent ≡ ir.struct_size t
      → Fits m t id
  struct-Fits m t id s c kind found extent flat =
      let (same, positive, _) = target.struct_sizes t kind in
      (
        omega arith,
        subst (Sized m.type_db (length m.type_db.struct_info_vec) id) (extent ∙ sym same)
            (found-Sized m id s c found),
      )

  pub AtLaid-known :
      (m : TypeManager) (t : Ty) (id : ℤ)
      → ir.kind t ≡ struct_ty
      → get_struct_id ir m t ≡ some id
      → AtLaid t m id m
  AtLaid-known m t id kind h = record {
    grown = Grown-refl m;
    laid = λ c b l.
        let (s, found, extent) = known_struct m t id c l kind h in
        (l, Later-refl m.type_db, struct-Fits m t id s c kind found extent);
  }

  pub reserved-IsLaidOut : (m : TypeManager) → IsLaidOut ir m → IsLaidOut ir (reserve_next_id m).1
  unfolding reserve_next_id
  reserved-IsLaidOut m l = record { layouts = l.layouts; structs = l.structs; vectors = l.vectors }

  pub reserved_db : (m : TypeManager) → (reserve_next_id m).1.type_db ≡ m.type_db
  unfolding reserve_next_id
  reserved_db m = refl

  pub bound :
      (m : TypeManager) (info : StructTypeInfo)
      → 256 + (add_struct m info).struct_count ≤ 2 ^ 31
      → 256 + m.struct_count ≤ 2 ^ 31
  unfolding add_struct
  bound m info b = b

  struct-new_layout :
      (m m' : TypeManager) (t : Ty) (members : List Member)
      → ir.kind t ≡ struct_ty
      → (reserve_next_id m).0 ≡ pos (256 + m.struct_count)
      → PlacedFrom ir m'.type_db (length m'.type_db.struct_info_vec) t 0 members
      → LayoutAt m'.type_db (length m'.type_db.struct_info_vec) (struct_info ir m t members)
  struct-new_layout m m' t members kind id placed =
      let (_, _, small) = target.struct_sizes t kind in
      subst
        (λ k.
          LayoutAt m'.type_db (length m'.type_db.struct_info_vec)
            (layout k (get_name ir t) (ir.struct_size t) members user_defined))
        (sym id)
        (struct_layout-LayoutAt ir m'.type_db (length m'.type_db.struct_info_vec)
          (256 + m.struct_count) user_defined (get_name ir t) t members placed
          (target.first_element t kind) small)

  -- The new name is the struct's own, and no vector's.
  struct-new_name :
      (m : TypeManager) (t : Ty) (members : List Member)
      → ir.kind t ≡ struct_ty
      → let info = struct_info ir m t members in
        ((u : Ty)
          → ir.kind u ≡ struct_ty
          → info.name ≡ get_name ir u
          → (info.extent ≡ ir.struct_size u) × (info.flag ≡ user_defined))
        × ((u : Ty) (element_name : String)
            → ir.kind u ≡ fixed_vector_ty
            → info.name ≡ get_vector_name ir u element_name
            → (info.extent ≡ ir.alloc_size u) × (info.flag ≡ llvm_vector))
  unfolding layout
  struct-new_name m t members kind = (
    λ u kind' same. (ap ir.struct_size (named.one_name t u kind kind' same), refl),
    λ u element_name kind' same. absurd (named.no_vector_name t u element_name kind same),
  )

  pub AtLaid-new :
      (m m' : TypeManager) (t : Ty) (members : List Member)
      → ir.kind t ≡ struct_ty
      → InLaid t 0 (reserve_next_id m).1 members m'
      → AtLaid t m (reserve_next_id m).0 (add_struct m' (struct_info ir m t members))
  unfolding layout
  AtLaid-new m m' t members kind f =
      let info = struct_info ir m t members in
      let grown = Grown-add_struct m m' info f.grown refl in
      record {
        grown = grown;
        laid = λ c b l.
            let (vec, finds, id, c') = added_last m m' info f.grown refl c b in
            let found = get_struct_info-added m m' info f.grown refl c b in
            let (c'', _) = grown.keeps c b in
            let (l', later, placed) =
              f.laid (reserve_next_id-IsConsistent m c) (bound m' info b)
                (reserved-IsLaidOut m l) in
            let at = struct-new_layout m m' t members kind id placed in
            let (structs, vectors) = struct-new_name m t members kind in
            (
              added-IsLaidOut ir m' info c' found vec finds l' at structs vectors,
              Later-trans (rw (reserved_db m) at later)
                  (add_struct-Later ir m' info c' found vec finds),
              struct-Fits (add_struct m' info) t info.type_id info c'' kind found refl,
            );
      }
