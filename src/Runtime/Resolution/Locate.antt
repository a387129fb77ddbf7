-- ===== src/Runtime/Resolution/Locate.antt =====
-- One round of the resolution: the member that holds an offset, and the answer of `getSubTypeInfo`.
use type_art.Prelude.{
  ℕ, suc, ◌+◌, ◌-◌, ◌/◌, ◌%◌, ◌≤◌, ◌<◌, ◌≡◌, not, ◌&&◌, ◌||◌, ◌==◌, leb, inl, inr, if◌then◌else◌,
  get_or, get_or_cases, arith,
}
use type_art.Prelude.Int.{ℤ}
use type_art.TypeLib.Types.{StructTypeInfo}
use type_art.TypeLib.TypeDb.{TypeDb, is_reserved_type, get_type_size}
use type_art.Runtime.Resolution.Outcomes.{Outcome, done, status, bad_alignment, read}
use type_art.Runtime.Resolution.{
  SubType, locate, get_sub_type_info, get_member_index_at, to_struct_layout_info, word,
  add_byte_offset,
}
use type_art.Runtime.Resolution.Layout.{IsMember, IsLayout}
use type_art.Runtime.Resolution.Member.{IsMemberAt, get_member_index_at-IsMemberAt}

-- The member that an offset falls to.
pub record IsFound (s : StructTypeInfo) (offset i start : ℕ) (type : ℤ) (count : ℕ) : Type 0 where
  pub member : IsMember s i start type count
  pub below : start ≤ offset
  pub above : offset < get_or s.offsets (suc i) s.extent

module _ (db : TypeDb) (rank : ℤ → ℕ) (s : StructTypeInfo) (layout : IsLayout db rank s)
    (offset : ℕ) (inside : offset < s.extent) where
  next_above : (i : ℕ) → IsMemberAt s.offsets offset i → offset < get_or s.offsets (suc i) s.extent
  next_above i is = elim (get_or_cases s.offsets (suc i) s.extent) [
    | inl e ↦ is.above _ e
    | inr (_, e) ↦ omega arith
  ]

  pub find_member :
      (i start : ℕ) × (type : ℤ) × (count : ℕ) × (get_member_index_at
          (to_struct_layout_info s)
          offset
        ≡ done i)
      × IsFound s offset i start type count
  find_member =
      let (i, ends, is) =
        get_member_index_at-IsMemberAt (to_struct_layout_info s) offset 0 layout.members layout.head
          (omega arith) in
      let (start, at, le) = is.below in
      let (type, count, member, _, _, _) = layout.member i start at in
      (i, start, type, count, ends, record { member = member; below = le; above = next_above i is })

  abbrev pub located : ℕ → ℕ → ℤ → ℕ → Outcome SubType
  located base_addr start type count =
      let size = get_type_size db type in
      let x = offset - start in
      if not (x % size == 0) && is_reserved_type type || leb count (x / size)
      then status bad_alignment
      else done (record {
        sub_type = type;
        base_addr = base_addr + start;
        offset = x % size;
        count = count - x / size;
      })

  wrap_offset : (start : ℕ) → start ≤ offset → (offset + word - start) % word ≡ offset - start
  wrap_offset start le = let small = layout.size in omega arith

  wrap_base :
      (base_addr start : ℕ)
      → start ≤ offset
      → base_addr + offset < word
      → (base_addr + start) % word ≡ base_addr + start
  wrap_base base_addr start le small = omega arith

  locate_lem :
      (base_addr i start : ℕ) (type : ℤ) (count : ℕ)
      → IsFound s offset i start type count
      → 0 < get_type_size db type
      → 0 < base_addr
      → base_addr + offset < word
      → locate db base_addr offset type start (read s.array_sizes i)
        ≡ located base_addr start type count
  unfolding locate add_byte_offset
  locate_lem base_addr i start type count found sized real small =
      rw
        (
          wrap_offset start found.below,
          wrap_base base_addr start found.below small,
          found.member.count_at,
        )
        (ground arith)

  pub get_sub_type_info_lem :
      (base_addr i start : ℕ) (type : ℤ) (count : ℕ)
      → get_member_index_at (to_struct_layout_info s) offset ≡ done i
      → IsFound s offset i start type count
      → 0 < get_type_size db type
      → 0 < base_addr
      → base_addr + offset < word
      → get_sub_type_info db base_addr offset (to_struct_layout_info s)
        ≡ located base_addr start type count
  unfolding get_sub_type_info get_member_index_at
  get_sub_type_info_lem base_addr i start type count at found sized real small =
      let (n, struct) = layout.is_struct in
      rw
        (
          struct,
          at,
          found.member.type_at,
          found.member.offset_at,
          locate_lem base_addr i start type count found sized real small,
        )
        (ground arith)
