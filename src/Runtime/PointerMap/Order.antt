-- ===== src/Runtime/PointerMap/Order.antt =====
-- The keys of the map ascend, which every operation keeps.
use type_art.Prelude.{ℕ, suc, ◌≤◌, ◌<◌, ◌≡◌, refl, List, [], ◌∷◌, Option, none, arith}
use type_art.Runtime.PointerMap.{
  PointerInfo, PointerMap, lookup, subscript, assign, erase, put, remove, remove_range,
}

-- The keys ascend strictly, from `lo` on.
abbrev pub Ascends : ℕ → PointerMap → Type 0
Ascends lo [] = Unit
Ascends lo ((k, v) ∷ m) = (lo ≤ k) × Ascends (suc k) m

abbrev pub IsSorted : PointerMap → Type 0
IsSorted = Ascends 0

pub Ascends-mono : {i j : ℕ} (m : PointerMap) → i ≤ j → Ascends j m → Ascends i m
Ascends-mono [] h a = tt
Ascends-mono ((k, v) ∷ m) h a = (omega arith, a.1)

subscript-Ascends :
    (lo addr : ℕ) (m : PointerMap) → lo ≤ addr → Ascends lo m → Ascends lo (subscript addr m)
unfolding subscript
subscript-Ascends lo addr [] h a = (h, tt)
subscript-Ascends lo addr ((k, v) ∷ m) h a = ground (arith, subscript-Ascends (suc k) addr m)

assign-Ascends :
    (lo addr : ℕ) (v : PointerInfo) (m : PointerMap) → Ascends lo m → Ascends lo (assign addr v m)
unfolding assign
assign-Ascends lo addr v [] a = tt
assign-Ascends lo addr v ((k, w) ∷ m) a = ground (arith, assign-Ascends (suc k) addr v m)

erase-Ascends : (lo addr : ℕ) (m : PointerMap) → Ascends lo m → Ascends lo (erase addr m)
unfolding erase
erase-Ascends lo addr [] a = tt
erase-Ascends lo addr ((k, w) ∷ m) a =
    ground (arith, erase-Ascends (suc k) addr m, Ascends-mono {i = lo} {j = suc k} m)

pub put-IsSorted :
    (m : PointerMap) (addr : ℕ) (v : PointerInfo) → IsSorted m → IsSorted (put m addr v).0
unfolding put
put-IsSorted m addr v a =
    assign-Ascends 0 addr v (subscript addr m) (subscript-Ascends 0 addr m (omega arith) a)

pub remove-IsSorted : (m : PointerMap) (addr : ℕ) → IsSorted m → IsSorted (remove m addr).0
unfolding remove
remove-IsSorted m addr a = ground (arith, erase-Ascends 0 addr m)

pub remove_range-IsSorted {ℓ} :
    {S : Type ℓ} (log : S → Option PointerInfo → ℕ → S) (addrs : List ℕ) (m : PointerMap) (s : S)
    → IsSorted m
    → IsSorted (remove_range log addrs m s).0
unfolding remove_range
remove_range-IsSorted log [] m s a = a
remove_range-IsSorted log (addr ∷ addrs) m s a =
    remove_range-IsSorted log addrs (remove m addr).0 (log s (remove m addr).1 addr)
      (remove-IsSorted m addr a)

-- A key below the first one is absent.
pub lookup_below : (addr lo : ℕ) (m : PointerMap) → Ascends lo m → addr < lo → lookup addr m ≡ none
unfolding lookup
lookup_below addr lo [] a h = refl
lookup_below addr lo ((k, v) ∷ m) a h = ground (arith, lookup_below addr (suc k) m)

pub empty-IsSorted : IsSorted []
empty-IsSorted = tt

pub lookup_empty : (addr : ℕ) → lookup addr [] ≡ none
unfolding lookup
lookup_empty addr = refl
