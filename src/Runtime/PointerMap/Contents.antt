-- ===== src/Runtime/PointerMap/Contents.antt =====
-- What the map holds after `put` and `remove`, and that its contents determine it.
use type_art.Prelude.{
  ℕ, suc, ◌+◌, ◌≡◌, refl, ◌∙◌, ◌==◌, ◌||◌, Bool, false, if◌then◌else◌, List, [], ◌∷◌, Option, none,
  some, length, arith,
}
use type_art.Runtime.PointerMap.{
  PointerInfo, PointerMap, default_info, lookup, subscript, assign, erase, was_set, put, remove,
  remove_range,
}
use type_art.Runtime.PointerMap.Order.{
  Ascends, IsSorted, Ascends-mono, lookup_below, put-IsSorted, remove-IsSorted,
}

abbrev or_default : Option PointerInfo → PointerInfo
or_default none = default_info
or_default (some v) = v

lookup-subscript :
    (lo addr j : ℕ) (m : PointerMap)
    → Ascends lo m
    → lookup j (subscript addr m)
      ≡ (if addr == j then some (or_default (lookup addr m)) else lookup j m)
unfolding lookup subscript
lookup-subscript lo addr j [] a = ground arith
lookup-subscript lo addr j ((k, v) ∷ m) a =
    ground (arith, lookup-subscript (suc k) addr j m a.1, lookup_below addr (suc k) m a.1)

lookup-assign :
    (addr j : ℕ) (d : PointerInfo) (m : PointerMap)
    → lookup j (assign addr d m) ≡ elim (lookup addr m) [
      | none ↦ lookup j m
      | some _ ↦ (if addr == j then some d else lookup j m)
    ]
unfolding lookup assign
lookup-assign addr j d [] = refl
lookup-assign addr j d ((k, v) ∷ m) = ground (arith, lookup-assign addr j d m)

lookup-erase :
    (lo addr j : ℕ) (m : PointerMap)
    → Ascends lo m
    → lookup j (erase addr m) ≡ (if addr == j then none else lookup j m)
unfolding lookup erase
lookup-erase lo addr j [] a = ground arith
lookup-erase lo addr j ((k, v) ∷ m) a =
    ground (arith, lookup-erase (suc k) addr j m a.1, lookup_below addr (suc k) m a.1)

-- In a sorted map `put` sets the entry of its address and of no other.
pub lookup-put :
    (m : PointerMap) (addr j : ℕ) (d : PointerInfo)
    → IsSorted m
    → lookup j (put m addr d).0 ≡ (if addr == j then some d else lookup j m)
unfolding put
lookup-put m addr j d a = ground (
  arith,
  lookup-assign addr j d (subscript addr m),
  lookup-subscript 0 addr j m a,
  lookup-subscript 0 addr addr m a,
)

-- In a sorted map `put` reports an override exactly if its address had an entry with a type id
-- other than the default.
pub put-overridden :
    (m : PointerMap) (addr : ℕ) (d : PointerInfo)
    → IsSorted m
    → (put m addr d).1 ≡ was_set (lookup addr m)
unfolding put
put-overridden m addr d a = ground (arith, lookup-subscript 0 addr addr m a)

-- In a sorted map `remove` takes out the entry of its address and of no other.
pub lookup-remove :
    (m : PointerMap) (addr j : ℕ)
    → IsSorted m
    → lookup j (remove m addr).0 ≡ (if addr == j then none else lookup j m)
unfolding remove
lookup-remove m addr j a = ground (arith, lookup-erase 0 addr j m a)

pub removed-lookup : (m : PointerMap) (addr : ℕ) → (remove m addr).1 ≡ lookup addr m
unfolding remove
removed-lookup m addr = ground arith

-- How `put` and `remove` change the number of entries.
length-assign : (addr : ℕ) (d : PointerInfo) (m : PointerMap) → length (assign addr d m) ≡ length m
unfolding assign
length-assign addr d [] = refl
length-assign addr d ((k, v) ∷ m) = ground (arith, length-assign addr d m)

length-subscript :
    (lo addr : ℕ) (m : PointerMap)
    → Ascends lo m
    → length (subscript addr m) ≡ elim (lookup addr m) [ none ↦ suc (length m) | some _ ↦ length m ]
unfolding subscript lookup
length-subscript lo addr [] a = refl
length-subscript lo addr ((k, v) ∷ m) a =
    ground (arith, length-subscript (suc k) addr m a.1, lookup_below addr (suc k) m a.1)

pub length-put :
    (m : PointerMap) (addr : ℕ) (d : PointerInfo)
    → IsSorted m
    → length (put m addr d).0 ≡ elim (lookup addr m) [ none ↦ suc (length m) | some _ ↦ length m ]
unfolding put
length-put m addr d a = length-assign addr d (subscript addr m) ∙ length-subscript 0 addr m a

length-erase :
    (addr : ℕ) (m : PointerMap)
    → length m
      ≡ elim (lookup addr m) [ none ↦ length (erase addr m) | some _ ↦ suc (length (erase addr m)) ]
unfolding erase lookup
length-erase addr [] = refl
length-erase addr ((k, v) ∷ m) = ground (arith, length-erase addr m)

pub length-remove :
    (m : PointerMap) (addr : ℕ)
    → length m ≡ elim (lookup addr m) [
      | none ↦ length (remove m addr).0
      | some _ ↦ suc (length (remove m addr).0)
    ]
unfolding remove
length-remove m addr = ground (arith, length-erase addr m)

module _ (lo k l : ℕ) (v w : PointerInfo) (m n : PointerMap) (a : Ascends lo ((k, v) ∷ m))
    (b : Ascends lo ((l, w) ∷ n))
    (h : (j : ℕ) → lookup j ((k, v) ∷ m) ≡ lookup j ((l, w) ∷ n)) where
  heads_eq : (k ≡ l) × (some v ≡ some w)
  unfolding lookup
  heads_eq = ground (arith, h k, h l, lookup_below k (suc l) n b.1, lookup_below l (suc k) m a.1)

  tails_eq : (j : ℕ) → lookup j m ≡ lookup j n
  unfolding lookup
  tails_eq j =
      ground (arith, h j, heads_eq, lookup_below j (suc k) m a.1, lookup_below j (suc l) n b.1)

-- Two sorted maps with the same contents are equal.
pub sorted_ext :
    (lo : ℕ) (m n : PointerMap)
    → Ascends lo m
    → Ascends lo n
    → ((j : ℕ) → lookup j m ≡ lookup j n)
    → m ≡ n
unfolding lookup
sorted_ext lo [] [] a b h = refl
sorted_ext lo [] ((k, v) ∷ n) a b h = absurd (ground (arith, h k))
sorted_ext lo ((k, v) ∷ m) [] a b h = absurd (ground (arith, h k))
sorted_ext lo ((k, v) ∷ m) ((l, w) ∷ n) a b h =
    let (same_key, same_value) = heads_eq lo k l v w m n a b h in
    let tails =
      sorted_ext (suc k) m n a.1 (Ascends-mono n (omega arith) b.1)
        (tails_eq lo k l v w m n a b h) in
    cc

-- Removing an address that was just put restores the map, if the address was not in it.
pub remove-put :
    (m : PointerMap) (addr : ℕ) (d : PointerInfo)
    → IsSorted m
    → lookup addr m ≡ none
    → (remove (put m addr d).0 addr).0 ≡ m
remove-put m addr d a absent =
    sorted_ext 0 _ m (remove-IsSorted _ addr (put-IsSorted m addr d a)) a λ j. ground (
      arith,
      lookup-remove (put m addr d).0 addr j (put-IsSorted m addr d a),
      lookup-put m addr j d a,
    )

unfoldable pub contains : ℕ → List ℕ → Bool
contains j [] = false
contains j (a ∷ as') = a == j || contains j as'

-- A range of removals takes out exactly its addresses.
pub lookup-remove_range :
    {S : Type 0} (log : S → Option PointerInfo → ℕ → S) (as' : List ℕ) (m : PointerMap) (r : S)
    (j : ℕ)
    → IsSorted m
    → lookup j (remove_range log as' m r).0 ≡ (if contains j as' then none else lookup j m)
unfolding remove_range contains
lookup-remove_range log [] m r j s = refl
lookup-remove_range log (a ∷ as') m r j s =
    lookup-remove_range log as' (remove m a).0 (log r (remove m a).1 a) j (remove-IsSorted m a s)
    ∙ ground (arith, lookup-remove m a j s)

pub remove_absent : (m : PointerMap) (addr : ℕ) → lookup addr m ≡ none → remove m addr ≡ (m, none)
unfolding remove
remove_absent m addr e = rw (e, remove)

-- The number of entries that a removal takes out.
abbrev pub removals : Option PointerInfo → ℕ
removals none = 0
removals (some _) = 1

pub length-removals :
    (m : PointerMap) (addr : ℕ) → length m ≡ length (remove m addr).0 + removals (remove m addr).1
length-removals m addr = ground (arith, length-remove m addr, removed-lookup m addr)

-- What the callback of a range of removals keeps of its state, the whole range keeps.
pub remove_range_inv {ℓ} :
    {S : Type 0} (P : S → Type ℓ) (log : S → Option PointerInfo → ℕ → S)
    → ((s : S) (removed : Option PointerInfo) (addr : ℕ) → P s → P (log s removed addr))
    → (as' : List ℕ) (m : PointerMap) (s : S) → P s
    → P (remove_range log as' m s).1
unfolding remove_range
remove_range_inv P log keep [] m s p = p
remove_range_inv P log keep (a ∷ as') m s p =
    remove_range_inv P log keep as' (remove m a).0 (log s (remove m a).1 a)
      (keep s (remove m a).1 a p)
