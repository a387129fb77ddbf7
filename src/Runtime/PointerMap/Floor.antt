-- ===== src/Runtime/PointerMap/Floor.antt =====
-- The base address search of `MapOp::find`.
use type_art.Prelude.{
  ℕ, suc, ◌≤◌, ◌<◌, ◌≡◌, refl, ◌∙◌, inl, inr, ltb, if◌then◌else◌, [], ◌∷◌, Option, none, some,
  Bool-cases, arith,
}
use type_art.Runtime.PointerMap.{
  PointerInfo, PointerMap, lookup, lower_bound, precedes, exact_or_prev, find,
}
use type_art.Runtime.PointerMap.Order.{Ascends, IsSorted, lookup_below}

-- What a base address search has to return.
abbrev pub IsFloor : PointerMap → ℕ → Option (ℕ × PointerInfo) → Type 0
IsFloor m addr none = (j : ℕ) (w : PointerInfo) → lookup j m ≡ some w → addr < j
IsFloor m addr (some (k, v)) =
    (lookup k m ≡ some v)
    × (k ≤ addr)
    × ((j : ℕ) (w : PointerInfo) → lookup j m ≡ some w → j ≤ addr → j ≤ k)

-- The search by one pass.
floor : ℕ → Option (ℕ × PointerInfo) → PointerMap → Option (ℕ × PointerInfo)
floor addr best [] = best
floor addr best ((k, v) ∷ m) = if ltb addr k then best else floor addr (some (k, v)) m

lower_bound-zero :
    (addr k : ℕ) (v : PointerInfo) (m : PointerMap) → addr ≤ k → lower_bound addr ((k, v) ∷ m) ≡ 0
unfolding lower_bound
lower_bound-zero addr k v m h = ground arith

-- Below an entry that is not above the address, the first entry does not matter.
find-cons :
    (addr k l : ℕ) (v w : PointerInfo) (m : PointerMap)
    → k < addr
    → l ≤ addr
    → find ((k, v) ∷ (l, w) ∷ m) addr ≡ find ((l, w) ∷ m) addr
unfolding find precedes lower_bound exact_or_prev
find-cons addr k l v w m p q = ground arith

find_single : (addr k : ℕ) (v : PointerInfo) → k ≤ addr → find ((k, v) ∷ []) addr ≡ some (k, v)
unfolding find precedes lower_bound exact_or_prev
find_single addr k v p = ground arith

find_between :
    (addr k l : ℕ) (v w : PointerInfo) (m : PointerMap)
    → k ≤ addr
    → addr < l
    → find ((k, v) ∷ (l, w) ∷ m) addr ≡ some (k, v)
unfolding find precedes lower_bound exact_or_prev
find_between addr k l v w m p q = ground arith

find-floor :
    (addr k : ℕ) (v : PointerInfo) (m : PointerMap)
    → k ≤ addr
    → Ascends (suc k) m
    → find ((k, v) ∷ m) addr ≡ floor addr (some (k, v)) m
unfolding floor
find-floor addr k v [] p a = find_single addr k v p
find-floor addr k v ((l, w) ∷ m) p a = elim (Bool-cases (ltb addr l)) [
  | inl above ↦ rw above (find_between addr k l v w m p (ground arith))
  | inr below ↦ rw below (
      find-cons addr k l v w m (ground arith) (ground arith)
      ∙ find-floor addr l w m (ground arith) a.1)
]

IsFloor-cons :
    (addr k l : ℕ) (v w : PointerInfo) (m : PointerMap) (r : Option (ℕ × PointerInfo))
    → Ascends (suc k) m
    → lookup l m ≡ some w
    → l ≤ addr
    → IsFloor m addr r
    → IsFloor ((k, v) ∷ m) addr r
unfolding lookup
IsFloor-cons addr k l v w m none a e p f = absurd (ground (arith, f l w e))
IsFloor-cons addr k l v w m (some (b, u)) a e p (f, q, g) = (
  ground (arith, lookup_below b (suc k) m a),
  q,
  λ j t h le. ground (arith, g j t, lookup_below b (suc k) m a),
)

IsFloor-between :
    (addr k l : ℕ) (v w : PointerInfo) (m : PointerMap)
    → k ≤ addr
    → addr < l
    → Ascends (suc k) ((l, w) ∷ m)
    → IsFloor ((k, v) ∷ (l, w) ∷ m) addr (some (k, v))
unfolding lookup
IsFloor-between addr k l v w m p q a =
    (ground arith, p, λ j t h le. ground (arith, lookup_below j (suc l) m a.1))

-- The pass keeps the best entry so far.
floor-IsFloor :
    (addr k : ℕ) (v : PointerInfo) (m : PointerMap)
    → k ≤ addr
    → Ascends (suc k) m
    → IsFloor ((k, v) ∷ m) addr (floor addr (some (k, v)) m)
unfolding floor lookup
floor-IsFloor addr k v [] p a = (ground arith, p, λ j w h q. ground arith)
floor-IsFloor addr k v ((l, w) ∷ m) p a = elim (Bool-cases (ltb addr l)) [
  | inl above ↦ rw above (IsFloor-between addr k l v w m p (ground arith) a)
  | inr below ↦ rw below (
      IsFloor-cons addr k l v w ((l, w) ∷ m) (floor addr (some (l, w)) m) a (ground arith)
        (ground arith) (floor-IsFloor addr l w m (ground arith) a.1))
]

IsFloor-first :
    (addr k : ℕ) (v : PointerInfo) (m : PointerMap)
    → addr < k
    → IsSorted ((k, v) ∷ m)
    → IsFloor ((k, v) ∷ m) addr none
unfolding lookup
IsFloor-first addr k v m p a j w h = ground (arith, lookup_below j (suc k) m a.1)

find_first :
    (addr k : ℕ) (v : PointerInfo) (m : PointerMap) → addr < k → find ((k, v) ∷ m) addr ≡ none
unfolding find precedes
find_first addr k v m p = ground arith

find_empty : (addr : ℕ) → find [] addr ≡ none
unfolding find precedes
find_empty addr = refl

-- In a sorted map `find` returns the entry of the greatest base address that is not above the
-- address, and nothing exactly if all are above it.
pub find-IsFloor : (m : PointerMap) (addr : ℕ) → IsSorted m → IsFloor m addr (find m addr)
unfolding lookup
find-IsFloor [] addr a = rw (find_empty addr) (λ j w h. cc)
find-IsFloor ((k, v) ∷ m) addr a = elim (Bool-cases (ltb addr k)) [
  | inl below ↦
      rw (find_first addr k v m (ground arith)) (IsFloor-first addr k v m (ground arith) a)
  | inr above ↦
      rw (find-floor addr k v m (ground arith) a.1) (floor-IsFloor addr k v m (ground arith) a.1)
]

-- An entry with no other base between it and the address is the one found.
pub find_base :
    (m : PointerMap) (addr k : ℕ) (v : PointerInfo)
    → IsSorted m
    → lookup k m ≡ some v
    → k ≤ addr
    → ((j : ℕ) (w : PointerInfo) → lookup j m ≡ some w → j ≤ addr → j ≤ k)
    → find m addr ≡ some (k, v)
find_base m addr k v a held le last = floor_unique (find m addr) (find-IsFloor m addr a)
  where
    floor_unique : (r : Option (ℕ × PointerInfo)) → IsFloor m addr r → r ≡ some (k, v)
    floor_unique none f = absurd (omega (arith, f k v held))
    floor_unique (some (b, u)) (e, p, f) =
        let same : b ≡ k = omega (arith, last b u e p, f k v held le) in cc
