-- ===== src/Passes/TypeGen/Structs.antt =====
-- The layout of a struct type, and how an array member is counted.
use type_art.Prelude.{
  ℕ, zero, suc, ◌+◌, ◌*◌, ◌/◌, ◌%◌, ◌^◌, ◌<◌, ◌≡◌, subst, sym, ap, ◌∙◌, inl, inr, true, false, List,
  [], ◌∷◌, none, some, get_elem?, Bool-cases, arith,
}
use type_art.Prelude.Int.{ℤ}
use type_art.TypeLib.Types.{StructTypeInfo, user_defined}
use type_art.Passes.IrTypes.{IrOps, is_array, done}
use type_art.Passes.TypeUtil.{get_array_element_type, flatten_length}
use type_art.Passes.TypeHandlers.{Member, layout, get_name}
use type_art.Passes.TypeGen.{array_size_of, element_of}
use native.Mathlib.Nat.{div-add-mod, add-mul-mod_self_left, mod-lt, mod-eq_of_lt}

module _ {Ty : Type 0} (ir : IrOps Ty) where
  -- An array type, of any number of dimensions, of `n` elements in all; another type is one
  -- element.
  pub data Flattens : Ty → ℕ → Ty → Type 0 where
    scalar : {t : Ty} → is_array ir t ≡ false → Flattens t 1 t
    array :
        {t e : Ty} {n : ℕ}
        → is_array ir t ≡ true
        → Flattens (ir.array_element t) n e
        → Flattens t (ir.array_num_elements t * n) e

  -- One member for each element of a struct from position `i` on, at its offset, with the id of
  -- the type in it and the number of those, as an `unsigned`.
  abbrev pub MembersOf : (Ty → ℤ → Type 0) → Ty → ℕ → List Member → Type 0
  MembersOf HasId t i [] = get_elem? (ir.struct_elements t) i ≡ none
  MembersOf HasId t i (member ∷ rest) =
      ((u e : Ty) × (n : ℕ) × (get_elem? (ir.struct_elements t) i ≡ some u)
        × Flattens u n e
        × (member.offset ≡ ir.element_offset t i)
        × (member.array_size ≡ n % 2 ^ 32)
        × HasId e member.type_id)
      × MembersOf HasId t (suc i) rest

  -- The layout of a struct type.
  pub record IsLayoutOf (HasId : Ty → ℤ → Type 0) (t : Ty) (s : StructTypeInfo) : Type 0 where
    pub members : List Member
    pub made : s ≡ layout s.type_id (get_name ir t) (ir.struct_size t) members user_defined
    pub each : MembersOf HasId t 0 members

  pub MembersOf-map :
      (P Q : Ty → ℤ → Type 0)
      → ((t : Ty) (id : ℤ) → P t id → Q t id)
      → (t : Ty) (i : ℕ) (members : List Member) → MembersOf P t i members
      → MembersOf Q t i members
  MembersOf-map P Q f t i [] h = h
  MembersOf-map P Q f t i (x ∷ rest) ((u, e, n, at, flat, offset, size, id), h) =
      ((u, e, n, at, flat, offset, size, f e x.type_id id), MembersOf-map P Q f t (suc i) rest h)

  pub IsLayoutOf-map :
      (P Q : Ty → ℤ → Type 0) (t : Ty) (s : StructTypeInfo)
      → ((t : Ty) (id : ℤ) → P t id → Q t id)
      → IsLayoutOf P t s
      → IsLayoutOf Q t s
  IsLayoutOf-map P Q t s f l = record {
    members = l.members;
    made = l.made;
    each = MembersOf-map P Q f t 0 l.members l.each;
  }

  mod-mul : (a b : ℕ) → a % 2 ^ 32 * b % 2 ^ 32 ≡ a * b % 2 ^ 32
  mod-mul a b =
      let whole : a * b ≡ a % 2 ^ 32 * b + 2 ^ 32 * (a / 2 ^ 32 * b) =
        ap (λ x. x * b) (sym (div-add-mod a (2 ^ 32))) ∙ omega arith in
      sym (rw whole (add-mul-mod_self_left (a % 2 ^ 32 * b) (2 ^ 32) (a / 2 ^ 32 * b)))

  flatten_length-Flattens :
      (fuel len n : ℕ) (t e : Ty)
      → flatten_length ir fuel len t ≡ done n
      → get_array_element_type ir fuel t ≡ done e
      → len < 2 ^ 32
      → (k : ℕ) × Flattens t k e × (n ≡ len * k % 2 ^ 32)
  unfolding flatten_length get_array_element_type
  flatten_length-Flattens zero len n t e h f small = absurd (ground arith)
  flatten_length-Flattens (suc fuel) len n t e h f small = elim (Bool-cases (is_array ir t)) [
    | inl a ↦
        let num = ir.array_num_elements t in
        let (k, flat, is) =
          flatten_length-Flattens fuel (len * num % 2 ^ 32) n (ir.array_element t) e (rw a at h)
            (rw a at f) (mod-lt (len * num) (omega arith)) in
        (num * k, array a flat, is ∙ mod-mul (len * num) k ∙ ap (λ x. x % 2 ^ 32) (omega arith))
    | inr a ↦
        let same : t ≡ e = ground arith in
        let all : len ≡ n = ground arith in
        (
          1,
          subst (Flattens t 1) same (scalar a),
          rw (← all) (sym (mod-eq_of_lt (omega arith) ∙ omega arith)),
        )
  ]

  pub array_size_of-Flattens :
      (fuel n : ℕ) (u e : Ty)
      → array_size_of ir fuel u ≡ done n
      → element_of ir fuel u ≡ done e
      → (k : ℕ) × Flattens u k e × (n ≡ k % 2 ^ 32)
  array_size_of-Flattens fuel n u e h f = elim (Bool-cases (is_array ir u)) [
    | inl a ↦
        let (k, flat, is) =
          flatten_length-Flattens fuel 1 n u e (rw a at h) (rw a at f) (omega arith) in
        (k, flat, is ∙ ap (λ x. x % 2 ^ 32) (omega arith))
    | inr a ↦
        let same : u ≡ e = ground arith in
        let one : 1 ≡ n = ground arith in (1, subst (Flattens u 1) same (scalar a), sym one)
  ]
