-- ===== src/Passes/TypeGen/Placement.antt =====
-- Layouts in the order in which they are registered: the members of one are of types before it.
use type_art.Prelude.{
  ℕ, zero, suc, ◌+◌, ◌-◌, ◌*◌, ◌%◌, ◌^◌, ◌≤◌, ◌<◌, ◌≡◌, refl, sym, ap, ◌∙◌, ◌⊎◌, inl, inr, true,
  List, [], ◌∷◌, none, some, some_inj, none-ne-some, String, length, length-map, get_elem?, get_or,
  map, ltb, ltb→lt, Bool-cases, arith,
}
use native.Mathlib.Nat.{mod-eq_of_lt}
use type_art.Prelude.Int.{ℤ, pos}
use type_art.TypeLib.Types.{StructTypeInfo, int8}
use type_art.TypeLib.TypeDb.{
  TypeDb, is_reserved_type, is_struct_type, get_struct_info, get_type_size,
}
use type_art.TypeLib.TypeDb.Kinds.{get_type_size-get_struct_info}
use type_art.Runtime.Resolution.{word}
use type_art.Runtime.Resolution.Layout.{IsMember}
use type_art.Passes.IrTypes.{IrOps}
use type_art.Passes.TypeHandlers.{Member, layout}
use type_art.Passes.TypeGen.{vector_members}
use type_art.Passes.TypeGen.Target.{offset_or_end}

-- A database that has all that an earlier one had, at the same places.
pub record Later (db db' : TypeDb) : Type 0 where
  pub finds :
      (id : ℤ) (s : StructTypeInfo)
      → get_struct_info db id ≡ some s
      → get_struct_info db' id ≡ some s
  pub kept :
      (p : ℕ) (s : StructTypeInfo)
      → get_elem? db.struct_info_vec p ≡ some s
      → get_elem? db'.struct_info_vec p ≡ some s
  pub longer : length db.struct_info_vec ≤ length db'.struct_info_vec

pub Later-refl : (db : TypeDb) → Later db db
Later-refl db = record { finds = λ id s h. h; kept = λ p s h. h; longer = omega arith }

pub Later-trans : {db db' db'' : TypeDb} → Later db db' → Later db' db'' → Later db db''
Later-trans l k = record {
  finds = λ id s h. k.finds id s (l.finds id s h);
  kept = λ p s h. k.kept p s (l.kept p s h);
  longer = omega (arith, l.longer, k.longer);
}

-- A reserved type, or a struct that stands before a position of the vector.
abbrev pub NestsBelow : TypeDb → ℕ → ℤ → Type 0
NestsBelow db p type =
    (is_reserved_type type ≡ true)
    ⊎ ((inner : StructTypeInfo) × (q : ℕ) × (is_struct_type type ≡ true)
        × (get_struct_info db type ≡ some inner)
        × (get_elem? db.struct_info_vec q ≡ some inner)
        × (q < p))

-- A type of a size that may be a member of a layout at a position.
abbrev pub Sized : TypeDb → ℕ → ℤ → ℕ → Type 0
Sized db p type size = (get_type_size db type ≡ size) × NestsBelow db p type

get_type_size_reserved :
    (db db' : TypeDb) (type : ℤ)
    → is_reserved_type type ≡ true
    → get_type_size db type ≡ get_type_size db' type
unfolding get_type_size
get_type_size_reserved db db' type h = rw h refl

pub Sized-Later :
    {db db' : TypeDb} (p p' : ℕ) (type : ℤ) (size : ℕ)
    → Later db db'
    → p ≤ p'
    → Sized db p type size
    → Sized db' p' type size
Sized-Later {db} {db'} p p' type size l le (sized, inl r) =
    (get_type_size_reserved db' db type r ∙ sized, inl r)
Sized-Later {db} {db'} p p' type size l le (sized, inr (inner, q, struct, found, at, lt)) =
    let found' = l.finds type inner found in
    (
      get_type_size-get_struct_info db' type inner struct found'
          ∙ sym (get_type_size-get_struct_info db type inner struct found)
          ∙ sized,
      inr (inner, q, struct, found', l.kept q inner at, omega arith),
    )

-- Member `i` of a layout at position `p`, as `Runtime.Resolution.Layout.Placed` has it.
abbrev pub PlacedAt : TypeDb → ℕ → StructTypeInfo → ℕ → ℕ → Type 0
PlacedAt db p s i offset =
    (type : ℤ) × (count size : ℕ) × IsMember s i offset type count
    × (0 < size)
    × (offset + count * size ≤ get_or s.offsets (suc i) s.extent)
    × Sized db p type size

pub record LayoutAt (db : TypeDb) (p : ℕ) (s : StructTypeInfo) : Type 0 where
  pub is_struct : (id : ℕ) × (s.type_id ≡ pos id)
  pub members : s.num_members ≡ length s.offsets
  pub head : get_elem? s.offsets 0 ≡ some 0
  pub size : s.extent < word
  pub member : (i offset : ℕ) → get_elem? s.offsets i ≡ some offset → PlacedAt db p s i offset

pub LayoutAt-Later :
    {db db' : TypeDb} (p : ℕ) (s : StructTypeInfo)
    → Later db db'
    → LayoutAt db p s
    → LayoutAt db' p s
LayoutAt-Later p s l h = record {
  is_struct = h.is_struct;
  members = h.members;
  head = h.head;
  size = h.size;
  member = λ i offset e.
      let (type, count, size, is, positive, fits, sized) = h.member i offset e in
      (type, count, size, is, positive, fits, Sized-Later p p type size l (omega arith) sized);
}

-- Members in order, each before the next and the last before the end.
abbrev pub InOrder : TypeDb → ℕ → ℕ → List Member → Type 0
InOrder db p extent [] = Unit {0}
InOrder db p extent (e ∷ rest) =
    ((size : ℕ) × (0 < size)
      × (e.offset + e.array_size * size ≤ get_or (map (λ e. e.offset) rest) 0 extent)
      × Sized db p e.type_id size)
    × InOrder db p extent rest

-- Where a layout has a member, it is placed.
members_placed :
    (db : TypeDb) (p extent j offset : ℕ) (members : List Member)
    → InOrder db p extent members
    → get_elem? (map (λ e. e.offset) members) j ≡ some offset
    → (type : ℤ) × (count size : ℕ) × (get_elem? (map (λ e. e.type_id) members) j ≡ some type)
      × (get_elem? (map (λ e. e.array_size) members) j ≡ some count)
      × (0 < size)
      × (offset + count * size ≤ get_or (map (λ e. e.offset) members) (suc j) extent)
      × Sized db p type size
members_placed db p extent j offset [] h e = absurd (ground arith)
members_placed db p extent zero offset (e ∷ rest) ((size, positive, fits, sized), hs) eq =
    (e.type_id, e.array_size, size, refl, refl, positive, rw (← some_inj eq) fits, sized)
members_placed db p extent (suc j) offset (e ∷ rest) (placed, hs) eq =
    members_placed db p extent j offset rest hs eq

layout-LayoutAt :
    (db : TypeDb) (p id flag extent : ℕ) (name : String) (members : List Member)
    → InOrder db p extent members
    → get_elem? (map (λ e. e.offset) members) 0 ≡ some 0
    → extent < word
    → LayoutAt db p (layout (pos id) name extent members flag)
unfolding layout
layout-LayoutAt db p id flag extent name members h first small = record {
  is_struct = (id, refl);
  members = sym (length-map members (λ e. e.offset));
  head = first;
  size = small;
  member = λ i offset e.
      let (type, count, size, type_at, count_at, positive, fits, sized) =
        members_placed db p extent i offset members h e in
      (
        type,
        count,
        size,
        record { offset_at = e; type_at = type_at; count_at = count_at },
        positive,
        fits,
        sized,
      );
}

byte : (db : TypeDb) (p : ℕ) → Sized db p int8 1
unfolding get_type_size
byte db p = (refl, inl refl)

module _ {Ty : Type 0} (ir : IrOps Ty) where
  -- The members that the loop over a struct's elements makes from position `i` on.
  abbrev pub PlacedFrom : TypeDb → ℕ → Ty → ℕ → List Member → Type 0
  PlacedFrom db p t i [] = get_elem? (ir.struct_elements t) i ≡ none
  PlacedFrom db p t i (e ∷ rest) =
      ((u : Ty) × (get_elem? (ir.struct_elements t) i ≡ some u))
      × (e.offset ≡ ir.element_offset t i)
      × ((size : ℕ) × (0 < size)
          × (e.offset + e.array_size * size
              ≤ offset_or_end ir t (suc i) (get_elem? (ir.struct_elements t) (suc i)))
          × Sized db p e.type_id size)
      × PlacedFrom db p t (suc i) rest

  pub PlacedFrom-Later :
      {db db' : TypeDb} (p p' : ℕ) (t : Ty) (i : ℕ) (members : List Member)
      → Later db db'
      → p ≤ p'
      → PlacedFrom db p t i members
      → PlacedFrom db' p' t i members
  PlacedFrom-Later p p' t i [] l le h = h
  PlacedFrom-Later p p' t i (e ∷ rest) l le (at, offset, (size, positive, fits, sized), hs) = (
    at,
    offset,
    (size, positive, fits, Sized-Later p p' e.type_id size l le sized),
    PlacedFrom-Later p p' t (suc i) rest l le hs,
  )

  next_offset :
      (db : TypeDb) (p : ℕ) (t : Ty) (i : ℕ) (members : List Member)
      → PlacedFrom db p t i members
      → get_or (map (λ e. e.offset) members) 0 (ir.struct_size t)
        ≡ offset_or_end ir t i (get_elem? (ir.struct_elements t) i)
  next_offset db p t i [] h = rw h refl
  next_offset db p t i (e ∷ rest) ((u, at), offset, _, _) = rw at offset

  PlacedFrom-InOrder :
      (db : TypeDb) (p : ℕ) (t : Ty) (i : ℕ) (members : List Member)
      → PlacedFrom db p t i members
      → InOrder db p (ir.struct_size t) members
  PlacedFrom-InOrder db p t i [] h = tt
  PlacedFrom-InOrder db p t i (e ∷ rest) (_, _, (size, positive, fits, sized), hs) = (
    (size, positive, rw (next_offset db p t (suc i) rest hs) fits, sized),
    PlacedFrom-InOrder db p t (suc i) rest hs,
  )

  pub struct_layout-LayoutAt :
      (db : TypeDb) (p id flag : ℕ) (name : String) (t : Ty) (members : List Member)
      → PlacedFrom db p t 0 members
      → (u : Ty) × (get_elem? (ir.struct_elements t) 0 ≡ some u) × (ir.element_offset t 0 ≡ 0)
      → ir.struct_size t < word
      → LayoutAt db p (layout (pos id) name (ir.struct_size t) members flag)
  struct_layout-LayoutAt db p id flag name t members h (u, first, start) small =
      layout-LayoutAt db p id flag (ir.struct_size t) name members
        (PlacedFrom-InOrder db p t 0 members h) (first_offset members h) small
    where
      first_offset :
          (ms : List Member)
          → PlacedFrom db p t 0 ms
          → get_elem? (map (λ e. e.offset) ms) 0 ≡ some 0
      first_offset [] none_there = absurd (none-ne-some (sym none_there ∙ first))
      first_offset (e ∷ rest) (_, at, _, _) = ap some (at ∙ start)

  -- A vector's elements, and the padding behind them.
  pub vector_layout-LayoutAt :
      (db : TypeDb) (p id flag count size extent : ℕ) (name : String) (element_id : ℤ)
      → Sized db p element_id size
      → 0 < size
      → count * size ≤ extent
      → extent < word
      → LayoutAt db p
          (layout (pos id) name extent (vector_members ir element_id extent count size) flag)
  vector_layout-LayoutAt db p id flag count size extent name element_id sized positive fits small =
      let usable : count * size % 2 ^ 64 ≡ count * size = mod-eq_of_lt (omega arith) in
      elim (Bool-cases (ltb (count * size) extent)) [
        | inl padded ↦
            let padding : count * size + (extent - count * size) * 1 ≤ extent =
              omega (arith, ltb→lt (count * size) extent padded) in
            rw (usable, padded)
              (layout-LayoutAt db p id flag extent name _
                ((size, positive, omega arith, sized), ((1, omega arith, padding, byte db p), tt))
                refl small)
        | inr full ↦
            rw (usable, full)
              (layout-LayoutAt db p id flag extent name _ ((size, positive, omega arith, sized), tt)
                refl small)
      ]
