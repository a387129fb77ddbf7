-- ===== src/TypeLib/Types.antt =====
-- lib/typelib/TypeInterface.h and lib/typelib/TypeDatabase.h: type ids and struct layouts.
-- A type id is a C `int`, here an integer; a `size_t` is a number.
use type_art.Prelude.{ℕ, ◌+◌, List, String, Bool, not, ◌==◌, bit_and}
use type_art.Prelude.Int.{ℤ, pos}

-- The values of `typeart_builtin_type` that tests compare with.
abbrev pub int8 : ℤ
int8 = pos 0

abbrev pub pointer : ℤ
pointer = pos 10

abbrev pub num_valid_ids : ℤ
num_valid_ids = pos (10 + 1)

abbrev pub unknown_type : ℤ
unknown_type = pos 255

abbrev pub num_reserved_ids : ℤ
num_reserved_ids = pos (255 + 1)

-- `StructTypeFlag`, as the bits of its underlying `int`.
abbrev pub user_defined : ℕ
user_defined = 1

abbrev pub llvm_vector : ℕ
llvm_vector = 2

pub record StructTypeInfo : Type 0 where
  pub type_id : ℤ
  pub name : String
  pub extent : ℕ
  pub num_members : ℕ
  pub offsets : List ℕ
  pub member_types : List ℤ
  pub array_sizes : List ℕ
  pub flag : ℕ

-- `(flag & bit) != 0`
abbrev pub has_flag : StructTypeInfo → ℕ → Bool
has_flag s bit = not (bit_and s.flag bit == 0)
