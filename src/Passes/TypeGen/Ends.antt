-- ===== src/Passes/TypeGen/Ends.antt =====
-- A registration ends, and no assertion fails.
use type_art.Prelude.{
  ℕ, zero, suc, ◌+◌, ◌*◌, ◌%◌, ◌^◌, ◌≤◌, ◌<◌, ◌≡◌, refl, subst, inl, inr, ◌||◌, true, false, List,
  [], ◌∷◌, Option, none, some, String, Bool-cases, arith,
}
use type_art.Prelude.Int.{ℤ}
use type_art.Passes.IrTypes.{IrOps, struct_ty, is_array, is_struct, is_pointer, Built, done, ◌>>=◌}
use type_art.Passes.TypeUtil.{get_array_element_type, flatten_length}
use type_art.Passes.TypeHandlers.{TypeManager, reserve_next_id, get_name, get_struct_id}
use type_art.Passes.TypeGen.{
  unless_known, if_element, array_size_of, element_of, member_id, member_loop,
  get_or_register_struct, get_or_register_type,
}
use type_art.Passes.TypeGen.Laws.{All, IsTyped}
use type_art.Passes.TypeGen.Rule.{
  type_cases, get_or_register_type-vector, get_or_register_type-struct,
}
use type_art.Passes.TypeGen.Vectors.{
  get_or_register_vector_lem, vector_id, element_data, new_vector,
}
use text.Mathlib.Text.{◌==◌ as str_eq}

abbrev Returns {ℓ} : {A : Type ℓ} → Built A → Type ℓ
Returns {A = A} r = (a : A) × (r ≡ done a)

Returns->>= :
    {A B : Type 0} (r : Built A) (f : A → Built B)
    → Returns r
    → ((a : A) → Returns (f a))
    → Returns (r >>= f)
Returns->>= r f (a, e) k = rw e (k a)

module _ {Ty : Type 0} (ir : IrOps Ty) (rank : Ty → ℕ) (typed : IsTyped ir rank) where
  pub get_array_element_type-below :
      (fuel : ℕ) (t : Ty)
      → rank t < fuel
      → (e : Ty) × (get_array_element_type ir fuel t ≡ done e)
        × (rank e ≤ rank t)
        × (is_array ir e ≡ false)
  unfolding get_array_element_type
  get_array_element_type-below zero t h = elim h [ ]
  get_array_element_type-below (suc fuel) t h = elim (Bool-cases (is_array ir t)) [
    | inl a ↦
        let below = typed.array_below t a in
        let (e, found, le, flat) =
          get_array_element_type-below fuel (ir.array_element t) (omega arith) in
        (e, rw a found, omega arith, flat)
    | inr a ↦ (t, rw a, omega arith, a)
  ]

  get_array_element_type-flat :
      (fuel : ℕ) (t e : Ty)
      → get_array_element_type ir fuel t ≡ done e
      → (rank e ≤ rank t) × (is_array ir e ≡ false)
  unfolding get_array_element_type
  get_array_element_type-flat zero t e h = absurd (ground arith)
  get_array_element_type-flat (suc fuel) t e h = elim (Bool-cases (is_array ir t)) [
    | inl a ↦
        let below = typed.array_below t a in
        let (le, flat) = get_array_element_type-flat fuel (ir.array_element t) e (rw a at h) in
        (omega arith, flat)
    | inr a ↦ let same : t ≡ e = ground arith in rw (← same) (omega arith, a)
  ]

  pub element_of-flat :
      (fuel : ℕ) (t e : Ty)
      → element_of ir fuel t ≡ done e
      → (rank e ≤ rank t) × (is_array ir e ≡ false)
  element_of-flat fuel t e h = elim (Bool-cases (is_array ir t)) [
    | inl a ↦ get_array_element_type-flat fuel t e (rw a at h)
    | inr a ↦ let same : t ≡ e = ground arith in rw (← same) (omega arith, a)
  ]

  flatten_length-Returns :
      (fuel len : ℕ) (t : Ty) → rank t < fuel → Returns (flatten_length ir fuel len t)
  unfolding flatten_length
  flatten_length-Returns zero len t h = elim h [ ]
  flatten_length-Returns (suc fuel) len t h = elim (Bool-cases (is_array ir t)) [
    | inl a ↦
        let below = typed.array_below t a in
        rw a (
          flatten_length-Returns fuel (len * ir.array_num_elements t % 2 ^ 32) (ir.array_element t)
            (omega arith))
    | inr a ↦ (len, rw a)
  ]

  pub array_size_of-Returns :
      (fuel : ℕ) (t : Ty) → rank t < fuel → Returns (array_size_of ir fuel t)
  array_size_of-Returns fuel t h = elim (Bool-cases (is_array ir t)) [
    | inl a ↦ rw a (flatten_length-Returns fuel 1 t h)
    | inr a ↦ (1, rw a)
  ]

  pub element_of-below :
      (fuel : ℕ) (t : Ty)
      → rank t < fuel
      → (e : Ty) × (element_of ir fuel t ≡ done e) × (rank e ≤ rank t) × (is_array ir e ≡ false)
  element_of-below fuel t h = elim (Bool-cases (is_array ir t)) [
    | inl a ↦
        let (e, found, le, flat) = get_array_element_type-below fuel t h in
        (e, rw a found, le, flat)
    | inr a ↦ (t, rw a, omega arith, a)
  ]

  unless_known-Returns :
      (known : Option ℤ) (m : TypeManager) (rest : Built (ℤ × TypeManager))
      → Returns rest
      → Returns (unless_known known m rest)
  unless_known-Returns none m rest h = h
  unless_known-Returns (some id) m rest h = (_, refl)

  if_element-Returns :
      (element : Option (ℤ × String)) (m : TypeManager) (f : ℤ → String → ℤ × TypeManager)
      → Returns (if_element element m (λ id name. done (f id name)))
  if_element-Returns none m f = (_, refl)
  if_element-Returns (some (id, name)) m f = (_, refl)

  module _ (register : TypeManager → Ty → Built (ℤ × TypeManager)) (fuel bound : ℕ)
      (returns : (m : TypeManager) (e : Ty) → rank e < bound → Returns (register m e)) where
    member_id-Returns :
        (id : ℤ) (name : String) (m : TypeManager) (e : Ty)
        → rank e < bound
        → is_array ir e ≡ false
        → Returns (member_id ir register fuel id name m e)
    unfolding member_id
    member_id-Returns id name m e h flat = elim (Bool-cases (is_struct ir e)) [
      | inl s ↦ rw s (elim (Bool-cases (str_eq (get_name ir e) name)) [
        | inl same ↦ rw same (_, refl)
        | inr other ↦ rw other (returns m e h)
      ])
      | inr s ↦
          let single : (ir.is_single_value e || is_pointer ir e) ≡ true =
            rw (flat, s) at (typed.first_class e) in
          rw s (rw single (returns m e h))
    ]

    member_loop-Returns :
        (id : ℤ) (name : String) (t : Ty) (i : ℕ) (m : TypeManager) (us : List Ty)
        → bound ≤ fuel
        → All (λ u. rank u < bound) us
        → Returns (member_loop ir register fuel id name t i m us)
    unfolding member_loop
    member_loop-Returns id name t i m [] b h = (_, refl)
    member_loop-Returns id name t i m (u ∷ us) b (h, hs) =
        let (size, sized) = array_size_of-Returns fuel u (omega arith) in
        let (e, found, le, flat) = element_of-below fuel u (omega arith) in
        rw (sized, found)
          (Returns->>= (member_id ir register fuel id name m e) _
            (member_id-Returns id name m e (omega arith) flat)
            (λ (type_id, m').
              Returns->>= (member_loop ir register fuel id name t (suc i) m' us) _
                (member_loop-Returns id name t (suc i) m' us b hs) (λ rest. (_, refl))))

    get_or_register_struct-Returns :
        (m : TypeManager) (t : Ty)
        → rank t ≡ bound
        → bound ≤ fuel
        → ir.kind t ≡ struct_ty
        → Returns (get_or_register_struct ir register fuel m t)
    unfolding get_or_register_struct
    get_or_register_struct-Returns m t r b e = unless_known-Returns (get_struct_id ir m t) m _ (
        Returns->>=
          (member_loop ir register fuel (reserve_next_id m).0 (get_name ir t) t 0
            (reserve_next_id m).1 (ir.struct_elements t))
          _
          (member_loop-Returns (reserve_next_id m).0 (get_name ir t) t 0 (reserve_next_id m).1
            (ir.struct_elements t) b
            (subst (λ k. All (λ u. rank u < k) (ir.struct_elements t)) r (typed.member_below t e)))
          (λ rest. (_, refl)))

  type-Returns :
      (fuel : ℕ) (m : TypeManager) (t : Ty)
      → rank t + 1 < fuel
      → Returns (get_or_register_type ir fuel m t)
  type-Returns zero m t h = elim h [ ]
  type-Returns (suc zero) m t h = absurd (omega arith)
  type-Returns (suc (suc fuel)) m t h = elim (type_cases ir t) [
    | inl basic ↦ rw (basic.0 (suc fuel) m) (_, refl)
    | inr (inl e) ↦ rw (get_or_register_type-vector ir (suc fuel) m t e) (
        rw (get_or_register_vector_lem ir rank typed fuel m t e) (
          unless_known-Returns (vector_id ir rank typed m t) m _
            (if_element-Returns (element_data ir rank typed m t) m (new_vector ir rank typed m t))))
    | inr (inr e) ↦ rw (get_or_register_type-struct ir (suc fuel) m t e) (
        get_or_register_struct-Returns (get_or_register_type ir (suc fuel)) (suc fuel) (rank t)
          (λ m' u lt. type-Returns (suc fuel) m' u (omega arith)) m t refl (omega arith) e)
  ]

  -- For first-class types that do not lie in themselves `getOrRegisterType` returns an id, with a
  -- fuel greater by 2 than the nesting depth of the type, and no assertion fails.
  pub get_or_register_type-Returns :
      (fuel : ℕ) (m : TypeManager) (t : Ty)
      → rank t + 1 < fuel
      → (id : ℤ) × (m' : TypeManager) × (get_or_register_type ir fuel m t ≡ done (id, m'))
  get_or_register_type-Returns fuel m t h =
      let ((id, m'), e) = type-Returns fuel m t h in (id, m', e)
