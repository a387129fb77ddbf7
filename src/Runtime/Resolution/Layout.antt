-- ===== src/Runtime/Resolution/Layout.antt =====
-- What lies in a struct, as its registered layouts say, and the layouts that describe one: nothing
-- here looks at how the runtime searches.
use type_art.Prelude.{
  ℕ, suc, ◌+◌, ◌-◌, ◌*◌, ◌≤◌, ◌<◌, ◌≡◌, true, some, get_elem?, get_or, length, ◌⊎◌,
}
use type_art.Prelude.Int.{ℤ, pos}
use type_art.TypeLib.Types.{StructTypeInfo}
use type_art.TypeLib.TypeDb.{
  TypeDb, is_reserved_type, is_struct_type, get_struct_info, get_type_size,
}
use type_art.Runtime.Resolution.{word}

-- Member `i` of a struct: `count` elements of a type from an offset on.
pub record IsMember (s : StructTypeInfo) (i offset : ℕ) (type : ℤ) (count : ℕ) : Type 0 where
  pub offset_at : get_elem? s.offsets i ≡ some offset
  pub type_at : get_elem? s.member_types i ≡ some type
  pub count_at : get_elem? s.array_sizes i ≡ some count

-- `Holds db s offset type count`: at the offset within a struct there begins an element of a
-- type, the first of `count` in a row. It is an element of a member, or it lies within one that
-- is itself a struct, behind that struct's start.
pub data Holds (db : TypeDb) : StructTypeInfo → ℕ → ℤ → ℕ → Type 0 where
  element :
      (s : StructTypeInfo) (i offset : ℕ) (type : ℤ) (count k : ℕ)
      → IsMember s i offset type count
      → k < count
      → Holds db s (offset + k * get_type_size db type) type (count - k)
  nested :
      (s inner : StructTypeInfo) (i offset : ℕ) (type : ℤ) (count k : ℕ) (inside : ℕ)
      (inner_type : ℤ) (inner_count : ℕ)
      → IsMember s i offset type count
      → k < count
      → is_struct_type type ≡ true
      → get_struct_info db type ≡ some inner
      → 0 < inside
      → inside < inner.extent
      → Holds db inner inside inner_type inner_count
      → Holds db s (offset + k * get_type_size db type + inside) inner_type inner_count

-- A member type is a reserved one, or a struct that nests less deep; a `rank` measures the depth.
abbrev pub Nests : TypeDb → (ℤ → ℕ) → StructTypeInfo → ℤ → Type 0
Nests db rank s type =
    (is_reserved_type type ≡ true)
    ⊎ ((inner : StructTypeInfo) × (is_struct_type type ≡ true)
        × (get_struct_info db type ≡ some inner)
        × (rank inner.type_id < rank s.type_id))

-- The member at a position has a type and a count, and ends before the next one begins, the last
-- one before the struct ends.
abbrev pub Placed : TypeDb → (ℤ → ℕ) → StructTypeInfo → ℕ → ℕ → Type 0
Placed db rank s i offset =
    (type : ℤ) × (count : ℕ) × IsMember s i offset type count
    × (0 < get_type_size db type)
    × (offset + count * get_type_size db type ≤ get_or s.offsets (suc i) s.extent)
    × Nests db rank s type

-- A layout as a compiler makes one: members in order, the first at the start, of types of a known
-- size.
pub record IsLayout (db : TypeDb) (rank : ℤ → ℕ) (s : StructTypeInfo) : Type 0 where
  pub is_struct : (id : ℕ) × (s.type_id ≡ pos id)
  pub members : s.num_members ≡ length s.offsets
  pub head : get_elem? s.offsets 0 ≡ some 0
  pub size : s.extent < word
  pub member : (i offset : ℕ) → get_elem? s.offsets i ≡ some offset → Placed db rank s i offset

abbrev pub AllLayouts : TypeDb → (ℤ → ℕ) → Type 0
AllLayouts db rank =
    (id : ℤ) (s : StructTypeInfo) → get_struct_info db id ≡ some s → IsLayout db rank s
