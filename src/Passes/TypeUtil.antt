-- ===== src/Passes/TypeUtil.antt =====
-- lib/passes/support/TypeUtil.cpp: array types taken apart, and sizes as an `unsigned`.
use type_art.Prelude.{ℕ, zero, suc, ◌*◌, ◌/◌, ◌%◌, ◌^◌, if◌then◌else◌}
use type_art.Passes.IrTypes.{
  IrOps, is_array, is_struct, is_pointer, is_vector, Built, done, out_of_fuel, ◌>>=◌,
}

module _ {Ty : Type 0} (ir : IrOps Ty) where
  -- The loops take fuel for the dimensions of the array.
  unfoldable pub get_array_element_type : ℕ → Ty → Built Ty
  get_array_element_type zero t = out_of_fuel
  get_array_element_type (suc fuel) t =
      let rest = get_array_element_type fuel (ir.array_element t) in
      if is_array ir t then rest else done t

  unfoldable pub flatten_length : ℕ → ℕ → Ty → Built ℕ
  flatten_length zero len t = out_of_fuel
  flatten_length (suc fuel) len t =
      let rest =
        flatten_length fuel (len * ir.array_num_elements t % 2 ^ 32) (ir.array_element t) in
      if is_array ir t then rest else done len

  abbrev pub get_array_length_flattened : ℕ → Ty → Built ℕ
  get_array_length_flattened fuel t = flatten_length fuel 1 t

  abbrev pub get_scalar_size_in_bytes : Ty → ℕ
  get_scalar_size_in_bytes t = ir.scalar_size_in_bits t / 8 % 2 ^ 32

  abbrev pub get_struct_size_in_bytes : Ty → ℕ
  get_struct_size_in_bytes t = ir.struct_size t % 2 ^ 32

  abbrev pub get_vector_size_in_bytes : Ty → ℕ
  get_vector_size_in_bytes t = ir.alloc_size t % 2 ^ 32

  abbrev pub get_pointer_size_in_bytes : ℕ
  get_pointer_size_in_bytes = ir.pointer_size_in_bits / 8 % 2 ^ 32

  -- `getTypeSizeInBytes` of a type that is no array, and of one that is.
  abbrev pub size_of_non_array : Ty → ℕ
  size_of_non_array t =
      if is_struct ir t
      then get_struct_size_in_bytes t
      else if is_pointer ir t
      then get_pointer_size_in_bytes
      else if is_vector ir t
      then get_vector_size_in_bytes t
      else get_scalar_size_in_bytes t

  unfoldable pub get_array_size_in_bytes : ℕ → Ty → Built ℕ
  get_array_size_in_bytes fuel t = do
    element ← get_array_element_type fuel t
    len ← get_array_length_flattened fuel t
    done (size_of_non_array element * len % 2 ^ 32)

  unfoldable pub get_type_size_in_bytes : ℕ → Ty → Built ℕ
  get_type_size_in_bytes fuel t =
      if is_array ir t then get_array_size_in_bytes fuel t else done (size_of_non_array t)
