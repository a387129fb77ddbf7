-- ===== src/Tests/Data.antt =====
-- Two structs, one nested in the other, as a compiler lays them out on a 64-bit machine.
use type_art.Prelude.{
  ℕ, zero, suc, ◌≡◌, refl, ◌==◌, [], ◌∷◌, some, some_inj, subst, get_elem?, inl, inr, arith,
  if◌then◌else◌,
}
use type_art.Prelude.Int.{ℤ, pos, negsuc}
use type_art.TypeLib.Types.{StructTypeInfo, user_defined}
use type_art.TypeLib.TypeDb.{
  TypeDb, empty_db, find_id, insert_id, register_struct, get_struct_info, get_type_size, is_valid,
}
use type_art.TypeLib.TypeDb.Kinds.{get_struct_info-get_elem?}
use type_art.Runtime.Resolution.Layout.{IsLayout, AllLayouts, Placed}

-- struct Inner { int a; double b; };
abbrev pub inner : StructTypeInfo
inner = record {
  type_id = pos 256;
  name = "struct.Inner";
  extent = 16;
  num_members = 2;
  offsets = 0 ∷ 8 ∷ [];
  member_types = pos 2 ∷ pos 6 ∷ [];
  array_sizes = 1 ∷ 1 ∷ [];
  flag = user_defined;
}

-- struct Outer { Inner x[2]; float c[2]; };
abbrev pub outer : StructTypeInfo
outer = record {
  type_id = pos 257;
  name = "struct.Outer";
  extent = 40;
  num_members = 2;
  offsets = 0 ∷ 32 ∷ [];
  member_types = pos 256 ∷ pos 5 ∷ [];
  array_sizes = 2 ∷ 2 ∷ [];
  flag = user_defined;
}

abbrev pub types : TypeDb
types = register_struct (register_struct empty_db inner) outer

abbrev pub depth : ℤ → ℕ
depth (pos n) = if n == 257 then 1 else 0
depth (negsuc n) = 0

inner_members :
    (i offset : ℕ) → get_elem? inner.offsets i ≡ some offset → Placed types depth inner i offset
unfolding get_type_size
inner_members zero offset at = (
  pos 2,
  1,
  record { offset_at = at; type_at = refl; count_at = refl },
  omega arith,
  omega (arith, some_inj at),
  inl refl,
)
inner_members (suc zero) offset at = (
  pos 6,
  1,
  record { offset_at = at; type_at = refl; count_at = refl },
  omega arith,
  omega (arith, some_inj at),
  inl refl,
)
inner_members (suc (suc i)) offset at = cc

outer_members :
    (i offset : ℕ) → get_elem? outer.offsets i ≡ some offset → Placed types depth outer i offset
unfolding get_type_size register_struct is_valid find_id insert_id get_struct_info
outer_members zero offset at = (
  pos 256,
  2,
  record { offset_at = at; type_at = refl; count_at = refl },
  omega arith,
  omega (arith, some_inj at),
  inr (inner, refl, refl, omega arith),
)
outer_members (suc zero) offset at = (
  pos 5,
  2,
  record { offset_at = at; type_at = refl; count_at = refl },
  omega arith,
  omega (arith, some_inj at),
  inl refl,
)
outer_members (suc (suc i)) offset at = cc

inner-IsLayout : IsLayout types depth inner
inner-IsLayout = record {
  is_struct = (256, refl);
  members = refl;
  head = refl;
  size = omega arith;
  member = inner_members;
}

pub outer-IsLayout : IsLayout types depth outer
outer-IsLayout = record {
  is_struct = (257, refl);
  members = refl;
  head = refl;
  size = omega arith;
  member = outer_members;
}

by_position :
    (i : ℕ) (s : StructTypeInfo)
    → get_elem? (inner ∷ outer ∷ []) i ≡ some s
    → IsLayout types depth s
by_position zero s h = subst (IsLayout types depth) (some_inj h) inner-IsLayout
by_position (suc zero) s h = subst (IsLayout types depth) (some_inj h) outer-IsLayout
by_position (suc (suc i)) s h = cc

pub types-AllLayouts : AllLayouts types depth
unfolding register_struct is_valid find_id insert_id get_struct_info
types-AllLayouts id s h = let (i, at) = get_struct_info-get_elem? types id s h in by_position i s at
