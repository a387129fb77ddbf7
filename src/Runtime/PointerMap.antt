-- ===== src/Runtime/PointerMap.antt =====
-- lib/runtime/RuntimeData.h and AllocMapWrapper.h: the map from base addresses to allocations.
-- `std::map` is its entries in the order of their keys, and an iterator is a position.
pub mod Order
pub mod Contents
pub mod Floor
use type_art.Prelude.{
  ℕ, zero, suc, ◌-◌, Bool, not, ◌||◌, ◌==◌, ltb, if◌then◌else◌, List, [], ◌∷◌, Option, none, some,
  length, get_elem?,
}
use type_art.Prelude.Int.{ℤ, negsuc, ◌==ℤ◌}

-- A `MemAddr` is a number, and the null pointer is 0.
pub record PointerInfo : Type 0 where
  pub type_id : ℤ
  pub count : ℕ
  pub debug : ℕ

-- `PointerInfo{}`, with the member initialisers.
abbrev pub default_info : PointerInfo
default_info = record { type_id = negsuc 0; count = 0; debug = 0 }

abbrev pub PointerMap : Type 0
PointerMap = List (ℕ × PointerInfo)

-- `map.find(addr)`, dereferenced.
unfoldable pub lookup : ℕ → PointerMap → Option PointerInfo
lookup addr [] = none
lookup addr ((k, v) ∷ m) = if k == addr then some v else lookup addr m

-- `map.lower_bound(addr)`: the position of the first key that is not less; the length is `end()`.
unfoldable pub lower_bound : ℕ → PointerMap → ℕ
lower_bound addr [] = 0
lower_bound addr ((k, v) ∷ m) = if ltb k addr then suc (lower_bound addr m) else 0

-- `map[addr]` for writing: an absent key gets a default entry first.
unfoldable pub subscript : ℕ → PointerMap → PointerMap
subscript addr [] = (addr, default_info) ∷ []
subscript addr ((k, v) ∷ m) =
    if ltb k addr
    then (k, v) ∷ subscript addr m
    else if k == addr
    then (k, v) ∷ m
    else (addr, default_info) ∷ (k, v) ∷ m

-- A write through the reference that `map[addr]` returns.
unfoldable pub assign : ℕ → PointerInfo → PointerMap → PointerMap
assign addr data' [] = []
assign addr data' ((k, v) ∷ m) = if k == addr then (k, data') ∷ m else (k, v) ∷ assign addr data' m

unfoldable pub erase : ℕ → PointerMap → PointerMap
erase addr [] = []
erase addr ((k, v) ∷ m) = if k == addr then m else (k, v) ∷ erase addr m

-- The test that `MapOp::put` makes on the entry it is about to overwrite.
abbrev pub was_set : Option PointerInfo → Bool
was_set none = Bool.false
was_set (some def) = not (def.type_id ==ℤ negsuc 0)

-- `MapOp::put`: the new map, and whether an entry was overridden.
unfoldable pub put : PointerMap → ℕ → PointerInfo → PointerMap × Bool
put m addr data' = let m' = subscript addr m in (assign addr data' m', was_set (lookup addr m'))

-- `empty() || addr < begin()->first`
unfoldable pub precedes : ℕ → PointerMap → Bool
precedes addr [] = Bool.true
precedes addr ((k, v) ∷ m) = ltb addr k

-- `it` points at `addr` exactly, or its predecessor is the base.
unfoldable pub exact_or_prev : ℕ → PointerMap → ℕ → Option (ℕ × PointerInfo)
exact_or_prev addr m it = elim (get_elem? m it) [
  | none ↦ none
  | some (k, v) ↦ if k == addr then some (k, v) else get_elem? m (it - 1)
]

-- `MapOp::find`: the entry of the greatest base address that is not above `addr`.
unfoldable pub find : PointerMap → ℕ → Option (ℕ × PointerInfo)
find m addr =
    if precedes addr m
    then none
    else let it = lower_bound addr m in
      if it == length m then get_elem? m (length m - 1) else exact_or_prev addr m it

-- `MapOp::remove`: the new map, and the entry that was removed.
unfoldable pub remove : PointerMap → ℕ → PointerMap × Option PointerInfo
remove m addr = elim (lookup addr m) [
  | none ↦ (m, none)
  | some removed ↦ (erase addr m, some removed)
]

-- `MapOp::bulk_op<remove>` over a range of addresses: the callback folds over a state.
unfoldable pub remove_range {ℓ} :
    {S : Type ℓ} → (S → Option PointerInfo → ℕ → S) → List ℕ → PointerMap → S → PointerMap × S
remove_range log [] m s = (m, s)
remove_range log (addr ∷ addrs) m s =
    let (m', removed) = remove m addr in remove_range log addrs m' (log s removed addr)
