-- ===== src/Runtime/Resolution/Containing.antt =====
-- The search of the element of an allocation that holds an address: `getContainingTypeInfo`.
use type_art.Prelude.{
  ℕ, ◌+◌, ◌-◌, ◌*◌, ◌/◌, ◌%◌, ◌≤◌, ◌<◌, ◌≡◌, refl, ◌==◌, arith, division_unique, inl, inr,
  Bool-cases, ◌∙◌, subst, sym, ap, ltb, leb, below_multiple,
}
use native.Mathlib.Nat.{mul-le-mul_left, div-add-mod, mod-lt, mul_comm}
use type_art.TypeLib.TypeDb.{TypeDb, get_type_size}
use type_art.Runtime.PointerMap.{PointerInfo}
use type_art.Runtime.Resolution.Outcomes.{Outcome, done, status, unknown_address, fault}
use type_art.Runtime.Resolution.{word, get_containing_type_info, add_byte_offset, substract_pointer}

-- An allocation of elements of a known size within the address space, not at null.
pub record IsBlock (db : TypeDb) (base_ptr : ℕ) (info : PointerInfo) : Type 0 where
  pub sized : 0 < get_type_size db info.type_id
  pub nonempty : 0 < info.count
  pub real : 0 < base_ptr
  pub small : base_ptr + info.count * get_type_size db info.type_id < word

module _ (db : TypeDb) (base_ptr : ℕ) (info : PointerInfo) (block : IsBlock db base_ptr info) where
  abbrev size : ℕ
  size = get_type_size db info.type_id

  le_multiple : (k : ℕ) → k ≤ k * size
  le_multiple k =
      let sized = block.sized in omega (arith, mul-le-mul_left {m = 1} {n = size} k sized)

  block_end : (base_ptr + (info.count * size) % word) % word ≡ base_ptr + info.count * size
  block_end = let small = block.small in omega arith

  distance : (d : ℕ) → base_ptr + d < word → (base_ptr + d + word - base_ptr) % word ≡ d
  distance d small = omega arith

  elements_left : (k : ℕ) → k < info.count → (info.count + word - k) % word ≡ info.count - k
  elements_left k lt = let small = block.small in omega (arith, le_multiple info.count)

  -- The element that holds an address within the block.
  element_inside :
      (d : ℕ)
      → 0 < d
      → d < info.count * size
      → get_containing_type_info db (base_ptr + d) base_ptr info
        ≡ done ((info.count + word - d / size) % word, d % size)
  unfolding get_containing_type_info add_byte_offset substract_pointer
  element_inside d some_d lt =
      let small = block.small in
      let real = block.real in
      let sized = block.sized in rw (block_end, distance d (omega arith)) (ground arith)

  at_start : get_containing_type_info db base_ptr base_ptr info ≡ done (info.count, 0)
  unfolding get_containing_type_info
  at_start = ground arith

  -- An address `x` bytes into element `k` has the elements from that one on before it.
  pub get_containing_type_info_inside :
      (k x : ℕ)
      → k < info.count
      → x < get_type_size db info.type_id
      → get_containing_type_info db (base_ptr + k * get_type_size db info.type_id + x) base_ptr info
        ≡ done (info.count - k, x)
  unfolding get_containing_type_info add_byte_offset substract_pointer
  get_containing_type_info_inside k x lt small = elim (Bool-cases (k * size + x == 0)) [
    | inl e ↦
        let zero_x : x ≡ 0 = ground arith in
        let none_before : k ≡ 0 = ground (arith, le_multiple k) in
        let at_base : base_ptr + k * size + x ≡ base_ptr = ground arith in
        let all_left : info.count - k ≡ info.count = omega arith in
        rw (at_base, all_left, zero_x) at_start
    | inr e ↦
        let (quotient, rest) = division_unique k size x small in
        let into : get_containing_type_info db (base_ptr + (k * size + x)) base_ptr info
            ≡ done (info.count - k, x) =
          element_inside (k * size + x) (ground arith) (below_multiple k info.count size x lt small)
          ∙ rw (quotient, rest, elements_left k lt) refl in
        subst (λ a. get_containing_type_info db a base_ptr info ≡ done (info.count - k, x))
          (omega arith) into
  ]

  -- An address behind the last element is not in the allocation.
  pub get_containing_type_info_outside :
      (addr : ℕ)
      → base_ptr + info.count * get_type_size db info.type_id ≤ addr
      → addr < word
      → get_containing_type_info db addr base_ptr info ≡ status unknown_address
  unfolding get_containing_type_info add_byte_offset substract_pointer
  get_containing_type_info_outside addr out below =
      let small = block.small in
      let real = block.real in
      let sized = block.sized in
      rw (block_end) (ground (arith, le_multiple info.count, block.nonempty))

-- The element and the byte in it of a distance within the elements.
element_of_distance :
    (d count size : ℕ)
    → 0 < size
    → d < count * size
    → (k : ℕ) × (x : ℕ) × (k < count) × (x < size) × (d ≡ k * size + x)
element_of_distance d count size sized lt =
    let whole : d ≡ d / size * size + d % size =
      omega (arith, div-add-mod d size, mul_comm size (d / size)) in
    elim (Bool-cases (ltb (d / size) count)) [
      | inl e ↦ (d / size, d % size, ground arith, mod-lt d sized, whole)
      | inr e ↦
          let le : count ≤ d / size = ground arith in
          absurd (
            omega (
              arith,
              whole,
              mul-le-mul_left {m = count} {n = d / size} size le,
              mul_comm size count,
              mul_comm size (d / size),
            ))
    ]

-- What `getContainingTypeInfo` finds: the base itself, an address behind the base of a type of size
-- 0, an address behind the block, or the byte `x` of element `k`.
pub data IsContaining (db : TypeDb) (addr base_ptr : ℕ) (info : PointerInfo)
    : Outcome (ℕ × ℕ) → Type 0 where
  at_base : addr ≡ base_ptr → IsContaining db addr base_ptr info (done (info.count, 0))
  by_zero :
      get_type_size db info.type_id ≡ 0 → base_ptr < addr → IsContaining db addr base_ptr info fault
  behind :
      0 < get_type_size db info.type_id
      → base_ptr < addr
      → base_ptr + info.count * get_type_size db info.type_id ≤ addr
      → IsContaining db addr base_ptr info (status unknown_address)
  inside :
      (k x : ℕ)
      → k < info.count
      → x < get_type_size db info.type_id
      → base_ptr < addr
      → addr ≡ base_ptr + k * get_type_size db info.type_id + x
      → IsContaining db addr base_ptr info (done (info.count - k, x))

get_containing_type_info_unsized :
    (db : TypeDb) (addr base_ptr : ℕ) (info : PointerInfo)
    → get_type_size db info.type_id ≡ 0
    → 0 < base_ptr
    → base_ptr < addr
    → addr < word
    → get_containing_type_info db addr base_ptr info ≡ fault
unfolding get_containing_type_info add_byte_offset substract_pointer
get_containing_type_info_unsized db addr base_ptr info unsized real lt small = ground arith

get_containing_type_info_empty :
    (db : TypeDb) (addr base_ptr : ℕ) (info : PointerInfo)
    → info.count ≡ 0
    → 0 < get_type_size db info.type_id
    → 0 < base_ptr
    → base_ptr < addr
    → addr < word
    → get_containing_type_info db addr base_ptr info ≡ status unknown_address
unfolding get_containing_type_info add_byte_offset substract_pointer
get_containing_type_info_empty db addr base_ptr info none sized real lt small = ground arith

get_containing_type_info_block :
    (db : TypeDb) (addr base_ptr : ℕ) (info : PointerInfo)
    → IsBlock db base_ptr info
    → base_ptr < addr
    → addr < word
    → IsContaining db addr base_ptr info (get_containing_type_info db addr base_ptr info)
get_containing_type_info_block db addr base_ptr info block lt small =
    let size = get_type_size db info.type_id in
    elim (Bool-cases (leb (base_ptr + info.count * size) addr)) [
      | inl e ↦
          let out : base_ptr + info.count * size ≤ addr = ground arith in
          subst (IsContaining db addr base_ptr info)
            (sym (get_containing_type_info_outside db base_ptr info block addr out small))
            (behind block.sized lt out)
      | inr e ↦
          let into : addr - base_ptr < info.count * size = ground arith in
          let (k, x, below, byte, split) =
            element_of_distance (addr - base_ptr) info.count size block.sized into in
          let here : addr ≡ base_ptr + k * size + x = omega arith in
          subst (IsContaining db addr base_ptr info)
            (sym (
              ap (λ a. get_containing_type_info db a base_ptr info) here
              ∙ get_containing_type_info_inside db base_ptr info block k x below byte))
            (inside k x below byte lt here)
    ]

-- What `getContainingTypeInfo` answers on every branch, for an address at or behind a base that is
-- not null, of a block that ends within the address space: at the base the whole count; at any
-- other address of a type of size 0 it divides by 0, behind the block it answers
-- `UNKNOWN_ADDRESS`, and within the block it answers with the elements left from the one that
-- holds the address on, and the offset within that one.
pub get_containing_type_info-IsContaining :
    (db : TypeDb) (addr base_ptr : ℕ) (info : PointerInfo)
    → 0 < base_ptr
    → base_ptr ≤ addr
    → addr < word
    → base_ptr + info.count * get_type_size db info.type_id < word
    → IsContaining db addr base_ptr info (get_containing_type_info db addr base_ptr info)
unfolding get_containing_type_info
get_containing_type_info-IsContaining db addr base_ptr info real le small fits =
    elim (Bool-cases (base_ptr == addr)) [
      | inl e ↦ rw e (at_base (ground arith))
      | inr e ↦
          let lt : base_ptr < addr = ground arith in
          elim (Bool-cases (get_type_size db info.type_id == 0)) [
            | inl none ↦
                let zero_size : get_type_size db info.type_id ≡ 0 = ground arith in
                subst (IsContaining db addr base_ptr info)
                  (sym (
                    get_containing_type_info_unsized db addr base_ptr info zero_size real lt small))
                  (by_zero zero_size lt)
            | inr some_size ↦
                let sized : 0 < get_type_size db info.type_id = ground arith in
                elim (Bool-cases (info.count == 0)) [
                  | inl none ↦
                      let no_count : info.count ≡ 0 = ground arith in
                      subst (IsContaining db addr base_ptr info)
                        (sym (
                          get_containing_type_info_empty db addr base_ptr info no_count sized real
                            lt small))
                        (behind sized lt (rw no_count (omega arith)))
                  | inr some_count ↦
                      get_containing_type_info_block db addr base_ptr info
                        (record {
                          sized = sized;
                          nonempty = ground arith;
                          real = real;
                          small = fits;
                        })
                        lt small
                ]
          ]
    ]
