-- ===== src/Passes/TypeGen/Target.antt =====
-- The data layout of a target, as LLVM's documents describe it: sizes, and elements in order. The
-- types of a program are those that have an id here; there is no empty struct and, in a vector, no
-- type whose bits fill less than its bytes.
use type_art.Prelude.{
  ℕ, suc, ◌+◌, ◌*◌, ◌≤◌, ◌<◌, ◌≡◌, ◌≢◌, true, false, Option, none, some, String, get_elem?,
}
use type_art.TypeLib.TypeDb.{TypeDb, is_reserved_type, get_type_size}
use type_art.Passes.IrTypes.{IrOps, fixed_vector_ty, struct_ty, is_array}
use type_art.Passes.TypeUtil.{size_of_non_array}
use type_art.Passes.TypeHandlers.{get_vector_name}
use type_art.Passes.TypeGen.Rule.{basic_id}
use type_art.Runtime.Resolution.{word}

-- Where the element behind position `i` begins, or the struct ends.
abbrev pub offset_or_end : {Ty : Type 0} → IrOps Ty → Ty → ℕ → Option Ty → ℕ
offset_or_end ir t i none = ir.struct_size t
offset_or_end ir t i (some u) = ir.element_offset t i

pub record IsTarget {Ty : Type 0} (ir : IrOps Ty) : Type 0 where
  pub basic_sizes :
      (db : TypeDb) (t : Ty)
      → ir.kind t ≢ fixed_vector_ty
      → ir.kind t ≢ struct_ty
      → is_array ir t ≡ false
      → (get_type_size db (basic_id ir t) ≡ ir.alloc_size t)
        × (is_reserved_type (basic_id ir t) ≡ true)
        × (0 < ir.alloc_size t)
  pub array_sizes :
      (t : Ty)
      → is_array ir t ≡ true
      → ir.alloc_size t ≡ ir.array_num_elements t * ir.alloc_size (ir.array_element t)
  pub struct_sizes :
      (t : Ty)
      → ir.kind t ≡ struct_ty
      → (ir.alloc_size t ≡ ir.struct_size t) × (0 < ir.struct_size t) × (ir.struct_size t < word)
  pub first_element :
      (t : Ty)
      → ir.kind t ≡ struct_ty
      → (u : Ty) × (get_elem? (ir.struct_elements t) 0 ≡ some u) × (ir.element_offset t 0 ≡ 0)
  pub elements_in_order :
      (t u : Ty) (i : ℕ)
      → ir.kind t ≡ struct_ty
      → get_elem? (ir.struct_elements t) i ≡ some u
      → ir.element_offset t i + ir.alloc_size u
        ≤ offset_or_end ir t (suc i) (get_elem? (ir.struct_elements t) (suc i))
  pub vector_sizes :
      (t : Ty)
      → ir.kind t ≡ fixed_vector_ty
      → let element = ir.vector_element t in
        (size_of_non_array ir element ≡ ir.alloc_size element)
        × (ir.vector_num_elements t * ir.alloc_size element ≤ ir.alloc_size t)
        × (0 < ir.alloc_size t)
        × (ir.alloc_size t < word)
  pub vector_names :
      (t u : Ty) (name name' : String)
      → ir.kind t ≡ fixed_vector_ty
      → ir.kind u ≡ fixed_vector_ty
      → get_vector_name ir t name ≡ get_vector_name ir u name'
      → ir.alloc_size t ≡ ir.alloc_size u
