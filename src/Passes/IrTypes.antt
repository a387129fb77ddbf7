-- ===== src/Passes/IrTypes.antt =====
-- What the passes ask LLVM about a type and its layout on the target, and how a run of them ends.
use type_art.Prelude.{ℕ, Bool, true, false, ◌||◌, List, String}

-- `llvm::Type::TypeID`, as far as the passes tell the kinds apart.
pub data TypeKind : Type 0 where
  integer_ty half_ty float_ty double_ty fp128_ty x86_fp80_ty ppc_fp128_ty : TypeKind
  pointer_ty fixed_vector_ty scalable_vector_ty struct_ty array_ty other_ty : TypeKind

-- A type is a pointer to an object of LLVM, which holds one object for each type. The last five
-- fields are the answers of the data layout, `address` is the pointer as a number, and `to_string`
-- is `std::to_string`.
pub record IrOps (Ty : Type 0) : Type 0 where
  pub kind : Ty → TypeKind
  pub is_single_value : Ty → Bool
  pub integer_bits : Ty → ℕ
  pub struct_elements : Ty → List Ty
  pub array_num_elements : Ty → ℕ
  pub array_element : Ty → Ty
  pub vector_num_elements : Ty → ℕ
  pub vector_element : Ty → Ty
  pub is_literal : Ty → Bool
  pub struct_name : Ty → String
  pub address : Ty → ℕ
  pub to_string : ℕ → String
  pub scalar_size_in_bits : Ty → ℕ
  pub pointer_size_in_bits : ℕ
  pub alloc_size : Ty → ℕ
  pub element_offset : Ty → ℕ → ℕ
  pub struct_size : Ty → ℕ

module _ {Ty : Type 0} (ir : IrOps Ty) where
  abbrev pub is_array : Ty → Bool
  is_array t = elim (ir.kind t) [ array_ty ↦ true | _ ↦ false ]

  abbrev pub is_struct : Ty → Bool
  is_struct t = elim (ir.kind t) [ struct_ty ↦ true | _ ↦ false ]

  abbrev pub is_pointer : Ty → Bool
  is_pointer t = elim (ir.kind t) [ pointer_ty ↦ true | _ ↦ false ]

  abbrev pub is_vector : Ty → Bool
  is_vector t = elim (ir.kind t) [ fixed_vector_ty ↦ true | scalable_vector_ty ↦ true | _ ↦ false ]

  abbrev pub is_aggregate : Ty → Bool
  is_aggregate t = is_struct t || is_array t

-- `failed_assert` is an `assert` that does not hold; `out_of_fuel` is a search that did not end
-- within its fuel.
pub data Built {ℓ} (A : Type ℓ) : Type ℓ where
  done : A → Built A
  failed_assert : Built A
  out_of_fuel : Built A

infixl 5 ◌>>=◌ ◌>>◌
abbrev pub ◌>>=◌ {ℓ κ} : {A : Type ℓ} {B : Type κ} → Built A → (A → Built B) → Built B
done a >>= f = f a
failed_assert >>= f = failed_assert
out_of_fuel >>= f = out_of_fuel

abbrev pub ◌>>◌ {ℓ} : {B : Type ℓ} → Built (Unit {0}) → Built B → Built B
m >> k = m >>= λ _. k

abbrev pub assert : Bool → Built (Unit {0})
assert true = done tt
assert false = failed_assert
