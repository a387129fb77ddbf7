-- ===== src/Runtime/Resolution/Begins.antt =====
-- What begins at an address of an allocation, as the registered layouts say.
use type_art.Prelude.{
  ℕ, ◌+◌, ◌-◌, ◌*◌, ◌/◌, ◌%◌, ◌<◌, ◌≡◌, refl, sym, subst, true, false, some, arith, division,
  division_unique,
}
use type_art.Prelude.Int.{ℤ}
use type_art.TypeLib.Types.{StructTypeInfo}
use type_art.TypeLib.TypeDb.{
  TypeDb, get_type_size, get_struct_info, is_struct_type, is_builtin_type,
}
use type_art.TypeLib.TypeDb.Kinds.{get_type_size-get_struct_info}
use type_art.Runtime.PointerMap.{PointerInfo}
use type_art.Runtime.Resolution.{
  resolve, word, get_element_type, add_byte_offset, get_type_info_internal,
}
use type_art.Runtime.Resolution.Layout.{Holds}
use type_art.Runtime.Resolution.Lookup.{IsAt, here, within}
use type_art.Runtime.Resolution.Containing.{IsBlock}

-- `Begins db info d t c`: at `d` bytes into an allocation there begins an element of a type, the
-- first of `c` in a row. It is an element of the allocation, or it lies within one, behind its
-- start.
pub data Begins (db : TypeDb) (info : PointerInfo) : ℕ → ℤ → ℕ → Type 0 where
  element :
      (k : ℕ)
      → k < info.count
      → Begins db info (k * get_type_size db info.type_id) info.type_id (info.count - k)
  nested :
      (s : StructTypeInfo) (k x : ℕ) (t : ℤ) (c : ℕ)
      → k < info.count
      → is_struct_type info.type_id ≡ true
      → get_struct_info db info.type_id ≡ some s
      → 0 < x
      → x < s.extent
      → Holds db s x t c
      → Begins db info (k * get_type_size db info.type_id + x) t c

module _ (db : TypeDb) (base_ptr : ℕ) (info : PointerInfo) (block : IsBlock db base_ptr info) where
  abbrev size : ℕ
  size = get_type_size db info.type_id

  pub Begins-IsAt :
      {d : ℕ} {t : ℤ} {c : ℕ} → Begins db info d t c → IsAt db d info.type_id info.count t c
  Begins-IsAt (element k lt) =
      let (quotient, rest) = division_unique k size 0 block.sized in
      let exact : k * size + 0 ≡ k * size = omega arith in
      here (rw (sym exact, quotient) lt) (rw (sym exact) rest) refl (rw (sym exact, quotient) refl)
  Begins-IsAt (nested s k x t c lt kind known some_x small h) =
      let (quotient, rest) =
        division_unique k size x
          (rw (get_type_size-get_struct_info db info.type_id s kind known) small) in
      within s (rw quotient lt) (rw rest some_x) kind known (rw rest h)

  pub IsAt-Begins :
      {d : ℕ} {t : ℤ} {c : ℕ} → IsAt db d info.type_id info.count t c → Begins db info d t c
  IsAt-Begins {d} (here lt rest e f) =
      let whole = division d size block.sized in
      rw (e, f)
        (subst (λ at. Begins db info at info.type_id (info.count - d / size)) (omega arith)
          (element (d / size) lt))
  IsAt-Begins {d} {t} {c} (within s lt rest kind known h) =
      let (whole, small) = division d size block.sized in
      subst (λ at. Begins db info at t c) whole
        (nested s (d / size) (d % size) t c lt kind known rest
          (rw (sym (get_type_size-get_struct_info db info.type_id s kind known)) small) h)

  -- The answer for an address behind the start of a struct is the one of the struct.
  pub resolve_element :
      (fuel : ℕ) (s : StructTypeInfo) (k x : ℕ)
      → k * size + x < info.count * size
      → 0 < x
      → x < s.extent
      → is_builtin_type info.type_id ≡ false
      → get_struct_info db info.type_id ≡ some s
      → get_element_type fuel db (base_ptr + (k * size + x)) info.type_id (info.count - k) x
        ≡ resolve fuel db (base_ptr + k * size) x s
  unfolding get_element_type add_byte_offset get_type_info_internal
  resolve_element fuel s k x room some_x small kind known =
      let real = block.real in
      let fits = block.small in
      let back : (base_ptr + (k * size + x) + (word - x)) % word ≡ base_ptr + k * size =
        omega arith in
      ground (arith, back)
