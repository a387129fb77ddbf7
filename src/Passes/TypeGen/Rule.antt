-- ===== src/Passes/TypeGen/Rule.antt =====
-- A rule for what every step of a registration keeps.
use type_art.Prelude.{
  ℕ, zero, suc, ◌+◌, ◌≡◌, ◌≢◌, refl, sym, ap, ◌∙◌, ◌⊎◌, inl, inr, true, List, [], ◌∷◌, Option, none,
  some, String, get_elem?, ◌||◌, Bool-cases, Option-cases, arith,
}
use type_art.Prelude.Int.{ℤ}
use type_art.TypeLib.Types.{StructTypeInfo, user_defined}
use type_art.Passes.IrTypes.{
  IrOps, TypeKind, fixed_vector_ty, struct_ty, Built, done, failed_assert, out_of_fuel, ◌>>=◌,
  is_struct, is_pointer, is_aggregate,
}
use type_art.Passes.TypeHandlers.{
  TypeManager, reserve_next_id, add_struct, Member, layout, get_builtin_typeid, get_struct_id,
  get_vector_id, get_element_data, get_name, or_unknown,
}
use type_art.Passes.TypeGen.{
  array_size_of, element_of, get_type_id, get_or_register_vector, member_id, member_loop,
  get_or_register_struct, get_or_register_type,
}
use text.Mathlib.Text.{◌==◌ as str_eq}
use native.Mathlib.Nat.{zero-add}
use text.Mathlib.TextEquality.{eq_iff}

-- `P` of what a call returns, if it returns.
abbrev pub Ensures : {A : Type 0} → (A → TypeManager → Type 0) → Built (A × TypeManager) → Type 0
Ensures P (done (a, m)) = P a m
Ensures P failed_assert = Unit {0}
Ensures P out_of_fuel = Unit {0}

pub Ensures->>= :
    {A B : Type 0} (P : A → TypeManager → Type 0) (Q : B → TypeManager → Type 0)
    (r : Built (A × TypeManager)) (f : A × TypeManager → Built (B × TypeManager))
    → Ensures P r
    → ((a : A) (m : TypeManager) → P a m → Ensures Q (f (a, m)))
    → Ensures Q (r >>= f)
Ensures->>= P Q (done (a, m)) f h k = k a m h
Ensures->>= P Q failed_assert f h k = tt
Ensures->>= P Q out_of_fuel f h k = tt

pub Ensures-any :
    {A B : Type 0} (Q : B → TypeManager → Type 0) (r : Built A) (f : A → Built (B × TypeManager))
    → ((a : A) → r ≡ done a → Ensures Q (f a))
    → Ensures Q (r >>= f)
Ensures-any Q (done a) f k = k a refl
Ensures-any Q failed_assert f k = tt
Ensures-any Q out_of_fuel f k = tt

module _ {Ty : Type 0} (ir : IrOps Ty) where
  abbrev pub basic_id : Ty → ℤ
  basic_id t = or_unknown (get_builtin_typeid ir t)

  -- A type of any other kind has a fixed id, which `unknown_type` is if there is none for it.
  abbrev pub IsBasic : Ty → Type 0
  IsBasic t =
      ((fuel : ℕ) (m : TypeManager) → get_or_register_type ir (suc fuel) m t ≡ done (basic_id t, m))
      × ((fuel : ℕ) (m : TypeManager) → get_type_id ir (suc fuel) m t ≡ done (basic_id t))
      × (ir.kind t ≢ fixed_vector_ty)
      × (ir.kind t ≢ struct_ty)

  kind_cases :
      (t : Ty) (k : TypeKind)
      → ir.kind t ≡ k
      → IsBasic t ⊎ ((ir.kind t ≡ fixed_vector_ty) ⊎ (ir.kind t ≡ struct_ty))
  unfolding get_or_register_type get_type_id
  kind_cases t fixed_vector_ty e = inr (inl e)
  kind_cases t struct_ty e = inr (inr e)
  kind_cases t k e = inl (λ f m. ground arith, λ f m. ground arith, λ h. cc, λ h. cc)

  pub type_cases : (t : Ty) → IsBasic t ⊎ ((ir.kind t ≡ fixed_vector_ty) ⊎ (ir.kind t ≡ struct_ty))
  type_cases t = kind_cases t (ir.kind t) refl

  pub get_or_register_type-vector :
      (fuel : ℕ) (m : TypeManager) (t : Ty)
      → ir.kind t ≡ fixed_vector_ty
      → get_or_register_type ir (suc fuel) m t ≡ get_or_register_vector ir fuel m t
  unfolding get_or_register_type
  get_or_register_type-vector fuel m t e = ground arith

  pub get_or_register_type-struct :
      (fuel : ℕ) (m : TypeManager) (t : Ty)
      → ir.kind t ≡ struct_ty
      → get_or_register_type ir (suc fuel) m t
        ≡ get_or_register_struct ir (get_or_register_type ir fuel) fuel m t
  unfolding get_or_register_type
  get_or_register_type-struct fuel m t e = ground arith

  -- Without fuel a vector's element has no id.
  pub get_or_register_vector_zero :
      (Q : ℤ → TypeManager → Type 0) (m : TypeManager) (t : Ty)
      → Ensures Q (get_or_register_vector ir 0 m t)
  unfolding get_or_register_vector get_vector_id get_element_data get_type_id
  get_or_register_vector_zero Q m t = elim (Bool-cases (is_aggregate ir (ir.vector_element t))) [
    | inl e ↦ rw e tt
    | inr e ↦ rw e tt
  ]

  struct_kind :
      (t : Ty) (k : TypeKind) → ir.kind t ≡ k → is_struct ir t ≡ true → ir.kind t ≡ struct_ty
  struct_kind t struct_ty e h = e
  struct_kind t k e h = ground arith

  pub kind_struct : (t : Ty) → is_struct ir t ≡ true → ir.kind t ≡ struct_ty
  kind_struct t h = struct_kind t (ir.kind t) refl h

  abbrev pub member_at : Ty → ℕ → ℤ → ℕ → Member
  member_at t i id size = record { offset = ir.element_offset t i; type_id = id; array_size = size }

  abbrev pub struct_info : TypeManager → Ty → List Member → StructTypeInfo
  struct_info m t members =
      layout (reserve_next_id m).0 (get_name ir t) (ir.struct_size t) members user_defined

-- What the steps of a registration have to keep: `At t m id m'` of a call for a type that takes the
-- tables from `m` to `m'` and returns `id`, and `In t i m members m'` of the loop over the elements
-- of a struct from position `i` on.
pub record IsRule {Ty : Type 0} (ir : IrOps Ty) (At : Ty → TypeManager → ℤ → TypeManager → Type 0)
    (In : Ty → ℕ → TypeManager → List Member → TypeManager → Type 0) : Type 0 where
  pub basic : (m : TypeManager) (t : Ty) → IsBasic ir t → At t m (basic_id ir t) m
  pub vector :
      (fuel : ℕ) (m : TypeManager) (t : Ty)
      → ir.kind t ≡ fixed_vector_ty
      → Ensures (At t m) (get_or_register_vector ir fuel m t)
  pub known :
      (m : TypeManager) (t : Ty) (id : ℤ)
      → ir.kind t ≡ struct_ty
      → get_struct_id ir m t ≡ some id
      → At t m id m
  pub new :
      (m m' : TypeManager) (t : Ty) (members : List Member)
      → ir.kind t ≡ struct_ty
      → get_struct_id ir m t ≡ none
      → In t 0 (reserve_next_id m).1 members m'
      → At t m (reserve_next_id m).0 (add_struct m' (struct_info ir m t members))
  pub end :
      (m : TypeManager) (t : Ty) (i : ℕ) → get_elem? (ir.struct_elements t) i ≡ none → In t i m [] m
  pub self :
      (fuel : ℕ) (m m' : TypeManager) (t u e : Ty) (i size : ℕ) (id : ℤ) (rest : List Member)
      → ir.kind t ≡ struct_ty
      → get_elem? (ir.struct_elements t) i ≡ some u
      → array_size_of ir fuel u ≡ done size
      → element_of ir fuel u ≡ done e
      → ir.kind e ≡ struct_ty
      → get_name ir e ≡ get_name ir t
      → In t (suc i) m rest m'
      → In t i m (member_at ir t i id size ∷ rest) m'
  pub next :
      (fuel : ℕ) (m m' m'' : TypeManager) (t u e : Ty) (i size : ℕ) (id : ℤ) (rest : List Member)
      → ir.kind t ≡ struct_ty
      → get_elem? (ir.struct_elements t) i ≡ some u
      → array_size_of ir fuel u ≡ done size
      → element_of ir fuel u ≡ done e
      → At e m id m'
      → In t (suc i) m' rest m''
      → In t i m (member_at ir t i id size ∷ rest) m''

module _ {Ty : Type 0} (ir : IrOps Ty) (At : Ty → TypeManager → ℤ → TypeManager → Type 0)
    (In : Ty → ℕ → TypeManager → List Member → TypeManager → Type 0) (rule : IsRule ir At In) where
  module _ (register : TypeManager → Ty → Built (ℤ × TypeManager)) (fuel : ℕ)
      (registers : (m : TypeManager) (t : Ty) → Ensures (At t m) (register m t)) where
    shift : (i j : ℕ) → i + suc j ≡ suc i + j
    shift i j = omega arith

    at_start :
        (t : Ty) (i : ℕ) (o : Option Ty)
        → o ≡ get_elem? (ir.struct_elements t) (i + 0)
        → get_elem? (ir.struct_elements t) i ≡ o
    at_start t i o h = sym (h ∙ ap (get_elem? (ir.struct_elements t)) (omega arith))

    abbrev OwnOr : ℤ → String → TypeManager → Ty → ℤ → TypeManager → Type 0
    OwnOr id name m e id' m' =
        ((ir.kind e ≡ struct_ty) × (get_name ir e ≡ name) × (m' ≡ m)) ⊎ At e m id' m'

    -- The id of a member is the struct's own, or that of a registration.
    member_id_cases :
        (id : ℤ) (name : String) (m : TypeManager) (e : Ty)
        → Ensures (λ id' m'. OwnOr id name m e id' m') (member_id ir register fuel id name m e)
    unfolding member_id
    member_id_cases id name m e = elim (Bool-cases (is_struct ir e)) [
      | inl s ↦ rw s (elim (Bool-cases (str_eq (get_name ir e) name)) [
        | inl same ↦ rw same (inl (kind_struct ir e s, (eq_iff (get_name ir e) name).0 same, refl))
        | inr other ↦ rw other (weaken (register m e) (registers m e))
      ])
      | inr s ↦ rw s (elim (Bool-cases (ir.is_single_value e || is_pointer ir e)) [
        | inl single ↦ rw single (weaken (register m e) (registers m e))
        | inr other ↦ rw other tt
      ])
    ]
      where
        weaken :
            (r : Built (ℤ × TypeManager))
            → Ensures (At e m) r
            → Ensures (λ id' m'. OwnOr id name m e id' m') r
        weaken (done (id', m')) h = inr h
        weaken failed_assert h = tt
        weaken out_of_fuel h = tt

    member_loop_rule :
        (id : ℤ) (t : Ty) (i : ℕ) (m : TypeManager) (us : List Ty)
        → ir.kind t ≡ struct_ty
        → ((j : ℕ) → get_elem? us j ≡ get_elem? (ir.struct_elements t) (i + j))
        → Ensures (In t i m) (member_loop ir register fuel id (get_name ir t) t i m us)
    unfolding member_loop
    member_loop_rule id t i m [] kind at = rule.end m t i (at_start t i none (at 0))
    member_loop_rule id t i m (u ∷ us) kind at =
        let here : get_elem? (ir.struct_elements t) i ≡ some u = at_start t i (some u) (at 0) in
        let later = λ (j : ℕ). at (suc j) ∙ ap (get_elem? (ir.struct_elements t)) (shift i j) in
        Ensures-any (In t i m) (array_size_of ir fuel u) _ (λ size sized.
          Ensures-any (In t i m) (element_of ir fuel u) _ (λ e found.
            Ensures->>= (λ id' m'. OwnOr id (get_name ir t) m e id' m') (In t i m)
              (member_id ir register fuel id (get_name ir t) m e) _
              (member_id_cases id (get_name ir t) m e)
              (λ id' m' got.
                Ensures->>= (In t (suc i) m') (In t i m)
                  (member_loop ir register fuel id (get_name ir t) t (suc i) m' us) _
                  (member_loop_rule id t (suc i) m' us kind later)
                  (λ rest m'' h. elim got [
                    | inl (struct, same, stays) ↦
                        rule.self fuel m m'' t u e i size id' rest kind here sized found struct same
                          (rw (← stays) h)
                    | inr got' ↦
                        rule.next fuel m m' m'' t u e i size id' rest kind here sized found got' h
                  ]))))

    get_or_register_struct_rule :
        (m : TypeManager) (t : Ty)
        → ir.kind t ≡ struct_ty
        → Ensures (At t m) (get_or_register_struct ir register fuel m t)
    unfolding get_or_register_struct
    get_or_register_struct_rule m t kind = elim (Option-cases (get_struct_id ir m t)) [
      | inr (id, e) ↦ rw e (rule.known m t id kind e)
      | inl e ↦ rw e (
          Ensures->>= (In t 0 (reserve_next_id m).1) (At t m)
            (member_loop ir register fuel (reserve_next_id m).0 (get_name ir t) t 0
              (reserve_next_id m).1 (ir.struct_elements t))
            _
            (member_loop_rule (reserve_next_id m).0 t 0 (reserve_next_id m).1 (ir.struct_elements t)
              kind (λ j. rw zero-add))
            (λ members m' h. rule.new m m' t members kind e h))
    ]

  pub get_or_register_type_rule :
      (fuel : ℕ) (m : TypeManager) (t : Ty) → Ensures (At t m) (get_or_register_type ir fuel m t)
  unfolding get_or_register_type
  get_or_register_type_rule zero m t = tt
  get_or_register_type_rule (suc fuel) m t = elim (type_cases ir t) [
    | inl basic ↦ rw (basic.0 fuel m) (rule.basic m t basic)
    | inr (inl e) ↦ rw (get_or_register_type-vector ir fuel m t e) (rule.vector fuel m t e)
    | inr (inr e) ↦ rw (get_or_register_type-struct ir fuel m t e) (
        get_or_register_struct_rule (get_or_register_type ir fuel) fuel
          (get_or_register_type_rule fuel) m t e)
  ]
