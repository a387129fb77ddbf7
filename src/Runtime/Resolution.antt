-- ===== src/Runtime/Resolution.antt =====
-- lib/runtime/TypeResolution.cpp: from an address and the allocation that holds it to the type at
-- the address. Log output is left out. A `size_t` is a number below 2 ^ 64, and arithmetic wraps.
pub mod Outcomes
pub mod Begins
pub mod Containing
pub mod Layout
pub mod Locate
pub mod Lookup
pub mod Member
pub mod Nesting
pub mod Reply
pub mod Unique
use type_art.Prelude.{
  ℕ, zero, suc, ◌+◌, ◌-◌, ◌*◌, ◌/◌, ◌%◌, ◌^◌, Bool, true, false, not, ◌&&◌, ◌==◌, ltb, leb,
  if◌then◌else◌, List, [], ◌∷◌, Option, none, some, String,
}
use type_art.Prelude.Int.{ℤ, pos, ltb_ℤ}
use type_art.TypeLib.Types.{StructTypeInfo}
use type_art.TypeLib.TypeDb.{
  TypeDb, is_builtin_type, is_reserved_type, is_struct_type, get_type_size,
}
use type_art.TypeLib.TypeDb
use type_art.Runtime.PointerMap.{PointerInfo}
use type_art.Runtime.Recorder.{RecorderOps}
use Outcomes.{
  Status, unknown_address, bad_alignment, bad_offset, wrong_kind, invalid_id, error, Outcome, done,
  status, fault, out_of_fuel, ◌>>=◌, ◌>>◌, require, unless_status, read,
}

abbrev pub word : ℕ
word = 2 ^ 64

-- `typeart_struct_layout`; a pointer to the first element of a vector is the vector.
pub record StructLayout : Type 0 where
  pub type_id : ℤ
  pub name : String
  pub extent : ℕ
  pub num_members : ℕ
  pub offsets : List ℕ
  pub member_types : List ℤ
  pub count : List ℕ

-- A byte offset is added modulo the word, so a negative one is its two's complement.
unfoldable pub add_byte_offset : ℕ → ℕ → Outcome ℕ
add_byte_offset addr offset = do require (not (addr == 0)); done ((addr + offset) % word)

pub substract_pointer : ℕ → ℕ → Outcome ℕ
substract_pointer addr_a addr_b = do
  require (not (addr_a == 0))
  require (not (addr_b == 0))
  done ((addr_a + word - addr_b) % word)

-- The loop of `get_member_index_at`; the first argument is how often it can still advance.
unfoldable pub member_loop : ℕ → List ℕ → ℕ → ℕ → Outcome ℕ
member_loop zero offsets offset member_index = done member_index
member_loop (suc rounds) offsets offset member_index = do
  next ← read offsets (suc member_index)
  elim (leb next offset) [
    | true ↦ member_loop rounds offsets offset (suc member_index)
    | false ↦ done member_index
  ]

unfoldable pub get_member_index_at : StructLayout → ℕ → Outcome ℕ
get_member_index_at l offset =
    if l.num_members == 0
    then done 0
    else read l.offsets (l.num_members - 1) >>= λ last.
        if ltb last offset
        then done (l.num_members - 1)
        else member_loop (l.num_members - 1) l.offsets offset 0

-- The four results of `getSubTypeInfo`.
pub record SubType : Type 0 where
  pub sub_type : ℤ
  pub base_addr : ℕ
  pub offset : ℕ
  pub count : ℕ

-- The part of `getSubTypeInfo` behind the search of the member: the member's type and offset
-- are known, and its count is read when the test of the bounds needs it.
unfoldable pub locate : TypeDb → ℕ → ℕ → ℤ → ℕ → Outcome ℕ → Outcome SubType
unfolding add_byte_offset
locate db base_addr offset member_type base_offset read_count =
    let internal_offset = (offset + word - base_offset) % word in
    let type_size = get_type_size db member_type in
    let offset_in_type_size = internal_offset / type_size in
    let new_offset = internal_offset % type_size in
    do
      require (not (type_size == 0))
      unless_status (not (new_offset == 0) && is_reserved_type member_type) bad_alignment
      member_count ← read_count
      unless_status (leb member_count offset_in_type_size) bad_alignment
      member_addr ← add_byte_offset base_addr base_offset
      done (record {
        sub_type = member_type;
        base_addr = member_addr;
        offset = new_offset;
        count = member_count - offset_in_type_size;
      })

unfoldable pub get_sub_type_info : TypeDb → ℕ → ℕ → StructLayout → Outcome SubType
get_sub_type_info db base_addr offset container = do
  unless_status (ltb_ℤ container.type_id (pos 0)) error
  unless_status (leb container.extent offset) bad_offset
  member_index ← get_member_index_at container offset
  member_type ← read container.member_types member_index
  base_offset ← read container.offsets member_index
  locate db base_addr offset member_type base_offset (read container.count member_index)

abbrev pub to_struct_layout_info : StructTypeInfo → StructLayout
to_struct_layout_info s = record {
  type_id = s.type_id;
  name = s.name;
  extent = s.extent;
  num_members = s.num_members;
  offsets = s.offsets;
  member_types = s.member_types;
  count = s.array_sizes;
}

-- `TypeResolution::getStructInfo`
unfoldable pub get_struct_info : TypeDb → ℤ → Outcome StructTypeInfo
get_struct_info db type_id =
    if not (is_struct_type type_id)
    then status wrong_kind
    else elim (TypeDb.get_struct_info db type_id) [
      | none ↦ status invalid_id
      | some result ↦ done result
    ]

-- The loop of `getTypeInfoInternal`, one nesting level of structs a round.
unfoldable pub resolve : ℕ → TypeDb → ℕ → ℕ → StructTypeInfo → Outcome (ℤ × ℕ)
resolve zero db base_addr offset s = out_of_fuel
resolve (suc fuel) db base_addr offset s = do
  sub ← get_sub_type_info db base_addr offset (to_struct_layout_info s)
  elim (sub.offset == 0) [
    | true ↦ done (sub.sub_type, sub.count)
    | false ↦
        get_struct_info db sub.sub_type >>= λ inner. resolve fuel db sub.base_addr sub.offset inner
  ]

pub get_type_info_internal : ℕ → TypeDb → ℕ → ℕ → StructTypeInfo → Outcome (ℤ × ℕ)
get_type_info_internal fuel db base_addr offset container = do
  require (ltb offset container.extent)
  resolve fuel db base_addr offset container

-- The count of elements from the address on, and the offset within the first of them.
pub get_containing_type_info : TypeDb → ℕ → ℕ → PointerInfo → Outcome (ℕ × ℕ)
unfolding add_byte_offset substract_pointer
get_containing_type_info db addr base_ptr info =
    let type_size = get_type_size db info.type_id in
    if base_ptr == addr
    then done (info.count, 0)
    else add_byte_offset base_ptr ((info.count * type_size) % word) >>= λ block_end.
        if leb block_end addr
        then (do
          byte_offset_to_base ← substract_pointer addr base_ptr
          require (not (type_size == 0))
          status unknown_address)
        else (do
          require (leb base_ptr addr)
          addr_dif ← substract_pointer addr base_ptr
          require (not (type_size == 0))
          done ((info.count + word - addr_dif / type_size) % word, addr_dif % type_size))

-- `getTypeInfo` behind the search of the containing element.
pub get_element_type : ℕ → TypeDb → ℕ → ℤ → ℕ → ℕ → Outcome (ℤ × ℕ)
get_element_type fuel db addr containing_type containing_type_count internal_byte_offset =
    if internal_byte_offset == 0
    then done (containing_type, containing_type_count)
    else if is_builtin_type containing_type
    then status bad_alignment
    else elim (TypeDb.get_struct_info db containing_type) [
      | none ↦ status invalid_id
      | some s ↦ add_byte_offset addr (word - internal_byte_offset) >>= λ containing_type_addr.
          get_type_info_internal fuel db containing_type_addr internal_byte_offset s
    ]

-- A missed address is recorded.
abbrev pub note_missing : {S : Type 0} → RecorderOps S → ℕ → Outcome (ℕ × ℕ) → S → S
note_missing ops addr (status unknown_address) r = ops.inc_addr_missing addr r
note_missing ops addr _ r = r

pub get_type_info :
    {S : Type 0} → RecorderOps S → ℕ → TypeDb → S → ℕ → ℕ → PointerInfo → Outcome (ℤ × ℕ) × S
get_type_info ops fuel db r addr base_ptr info =
    let containing = get_containing_type_info db addr base_ptr info in
    (
      containing >>= λ c. get_element_type fuel db addr info.type_id c.0 c.1,
      note_missing ops addr containing r,
    )
