-- ===== src/Passes/TypeGen/Laws.antt =====
-- What LLVM's documents say of the types of a program, as far as the registration relies on it.
use type_art.Prelude.{ℕ, ◌<◌, ◌≡◌, ◌≢◌, ◌||◌, true, List, [], ◌∷◌, some, String}
use type_art.Prelude.Int.{ℤ}
use type_art.Passes.IrTypes.{IrOps, fixed_vector_ty, struct_ty, is_array, is_struct, is_pointer}
use type_art.Passes.TypeHandlers.{get_builtin_typeid, get_name, get_vector_name}

abbrev pub All {ℓ κ} : {A : Type ℓ} → (A → Type κ) → List A → Type κ
All P [] = Unit
All P (x ∷ xs) = P x × All P xs

-- No type lies in itself, which `rank` measures; the types are first-class ones; a vector's
-- elements are integers, floats or pointers.
pub record IsTyped {Ty : Type 0} (ir : IrOps Ty) (rank : Ty → ℕ) : Type 0 where
  pub array_below : (t : Ty) → is_array ir t ≡ true → rank (ir.array_element t) < rank t
  pub member_below :
      (t : Ty) → ir.kind t ≡ struct_ty → All (λ u. rank u < rank t) (ir.struct_elements t)
  pub first_class :
      (t : Ty)
      → (is_array ir t || (is_struct ir t || (ir.is_single_value t || is_pointer ir t))) ≡ true
  pub vector_of :
      (t : Ty)
      → ir.kind t ≡ fixed_vector_ty
      → (id : ℤ) × (get_builtin_typeid ir (ir.vector_element t) ≡ some id)

-- Struct types have names of their own, which are none of those made up for vectors.
pub record IsNamed {Ty : Type 0} (ir : IrOps Ty) : Type 0 where
  pub one_name :
      (s t : Ty)
      → ir.kind s ≡ struct_ty
      → ir.kind t ≡ struct_ty
      → get_name ir s ≡ get_name ir t
      → s ≡ t
  pub no_vector_name :
      (s t : Ty) (element_name : String)
      → ir.kind s ≡ struct_ty
      → get_name ir s ≢ get_vector_name ir t element_name
