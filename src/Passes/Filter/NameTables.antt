-- ===== src/Passes/Filter/NameTables.antt =====
-- `std::unordered_map` and `std::unordered_set` with strings as keys, as lists. The order in which a
-- set is walked is not specified, so nothing relies on the order of such a list.
use type_art.Prelude.{
  suc, ◌+◌, ◌≤◌, ◌≡◌, ◌≢◌, ◌↔◌, ◌⊎◌, inl, inr, refl, sym, subst, Bool, true, false, List, [], ◌∷◌,
  Option, none, some, String, length, if◌then◌else◌, Bool-cases, Option-cases, arith,
}
use mathlib.Core.Logic.{⊎_elim}
use mathlib.Core.List.{Memᴰ}
use mathlib.Core.List.Memᴰ
use text.Mathlib.Text.{◌==◌ as str_eq}
use text.Mathlib.TextEquality.{eq_iff}

module _ {ℓ} {A : Type ℓ} where
  unfoldable pub find_key : String → List (String × A) → Option A
  find_key key [] = none
  find_key key ((k, v) ∷ m) = if str_eq k key then some v else find_key key m

  -- `m[key] = v`
  unfoldable pub assign_key : String → A → List (String × A) → List (String × A)
  assign_key key v [] = (key, v) ∷ []
  assign_key key v ((k, w) ∷ m) = if str_eq k key then (k, v) ∷ m else (k, w) ∷ assign_key key v m

  -- What `m[key]` refers to, and `m` with the default entered if the key was not there.
  abbrev pub value_or : A → Option A → A
  value_or d none = d
  value_or d (some v) = v

  unfoldable pub subscript_key : A → String → List (String × A) → A × List (String × A)
  subscript_key d key m = elim (find_key key m) [ none ↦ (d, assign_key key d m) | some v ↦ (v, m) ]

abbrev pub NameSet : Type 0
NameSet = List String

unfoldable pub has_name : String → NameSet → Bool
has_name name [] = false
has_name name (x ∷ xs) = if str_eq x name then true else has_name name xs

unfoldable pub insert_name : String → NameSet → NameSet
insert_name name xs = if has_name name xs then xs else name ∷ xs

-- `xs.merge(ys)`
unfoldable pub merge_names : NameSet → NameSet → NameSet
merge_names xs [] = xs
merge_names xs (y ∷ ys) = merge_names (insert_name y xs) ys

-- `xs.erase(xs.find(name))`, in a set that has the name.
unfoldable pub erase_name : String → NameSet → NameSet
erase_name name [] = []
erase_name name (x ∷ xs) = if str_eq x name then xs else x ∷ erase_name name xs

pub str_eq_refl : (s : String) → str_eq s s ≡ true
str_eq_refl s = (eq_iff s s).1 refl

pub str_eq-ne : (s t : String) → s ≢ t → str_eq s t ≡ false
str_eq-ne s t ne = elim (Bool-cases (str_eq s t)) [
  | inl e ↦ absurd (ne ((eq_iff s t).0 e))
  | inr e ↦ e
]

module _ {ℓ} {A : Type ℓ} where
  pub find_key-assign_self :
      (key : String) (v : A) (m : List (String × A)) → find_key key (assign_key key v m) ≡ some v
  unfolding find_key assign_key
  find_key-assign_self key v [] = rw (str_eq_refl key) refl
  find_key-assign_self key v ((k, w) ∷ m) = elim (Bool-cases (str_eq k key)) [
    | inl e ↦ rw (e, e) refl
    | inr e ↦ rw (e, e) (find_key-assign_self key v m)
  ]

  pub find_key-assign_ne :
      (key other : String) (v : A) (m : List (String × A))
      → key ≢ other
      → find_key other (assign_key key v m) ≡ find_key other m
  unfolding find_key assign_key
  find_key-assign_ne key other v [] ne = rw (str_eq-ne key other ne) refl
  find_key-assign_ne key other v ((k, w) ∷ m) ne =
      ground (arith, eq_iff k key, eq_iff k other, find_key-assign_ne key other v m ne)

module _ {ℓ} {A : Type ℓ} where
  -- A read answers what is there, and makes an entry of the default if nothing is.
  pub subscript_key_lem :
      (d : A) (key : String) (m : List (String × A))
      → ((subscript_key d key m).0 ≡ value_or d (find_key key m))
        × ((other : String)
            → find_key other (subscript_key d key m).1
              ≡ (if str_eq key other then some (value_or d (find_key key m)) else find_key other m))
  unfolding subscript_key
  subscript_key_lem d key m = elim (Option-cases (find_key key m)) [
    | inl missing ↦
        rw (missing, subscript_key)
          ((
            refl,
            λ other. elim (Bool-cases (str_eq key other)) [
              | inl e ↦
                  let same : key ≡ other = (eq_iff key other).0 e in
                  rw (e, sym same, find_key-assign_self key d m) refl
              | inr e ↦
                  rw (e, find_key-assign_ne key other d m (λ s. cc (e, (eq_iff key other).1 s)))
                    refl
            ],
          ))
    | inr (b, there) ↦
        rw (there, subscript_key)
          ((
            refl,
            λ other. elim (Bool-cases (str_eq key other)) [
              | inl e ↦ rw (e, sym ((eq_iff key other).0 e)) there
              | inr e ↦ rw e refl
            ],
          ))
  ]

pub Memᴰ-cons : (a x : String) (xs : NameSet) → Memᴰ a (x ∷ xs) ↔ ((a ≡ x) ⊎ Memᴰ a xs)
Memᴰ-cons a x xs = (Memᴰ.cases_cons, ⊎_elim Memᴰ.head Memᴰ.tail)

pub Memᴰ-has_name : (name : String) (xs : NameSet) → (has_name name xs ≡ true) ↔ Memᴰ name xs
unfolding has_name
Memᴰ-has_name name [] = (λ h. cc, λ h. absurd (Memᴰ.not-nil h))
Memᴰ-has_name name (x ∷ xs) =
    ground (arith, eq_iff x name, Memᴰ-cons name x xs, Memᴰ-has_name name xs)

pub Memᴰ-insert_name :
    (a name : String) (xs : NameSet) → Memᴰ a (insert_name name xs) ↔ ((a ≡ name) ⊎ Memᴰ a xs)
unfolding insert_name
Memᴰ-insert_name a name xs = elim (Bool-cases (has_name name xs)) [
  | inl e ↦
      rw e
        (inr, ⊎_elim (λ s. subst (λ b. Memᴰ b xs) (sym s) ((Memᴰ-has_name name xs).0 e)) (λ m. m))
  | inr e ↦ rw e (Memᴰ-cons a name xs)
]

pub Memᴰ-merge_names :
    (a : String) (xs ys : NameSet) → Memᴰ a (merge_names xs ys) ↔ (Memᴰ a xs ⊎ Memᴰ a ys)
unfolding merge_names
Memᴰ-merge_names a xs [] = (inl, ⊎_elim (λ m. m) (λ m. absurd (Memᴰ.not-nil m)))
Memᴰ-merge_names a xs (y ∷ ys) =
    ground
      (arith, Memᴰ-merge_names a (insert_name y xs) ys, Memᴰ-insert_name a y xs, Memᴰ-cons a y ys)

pub Memᴰ-erase_name : (a name : String) (xs : NameSet) → Memᴰ a (erase_name name xs) → Memᴰ a xs
unfolding erase_name
Memᴰ-erase_name a name [] h = h
Memᴰ-erase_name a name (x ∷ xs) h =
    ground (arith, Memᴰ-cons a x xs, Memᴰ-cons a x (erase_name name xs), Memᴰ-erase_name a name xs)

pub Memᴰ-erase_ne :
    (a name : String) (xs : NameSet) → a ≢ name → Memᴰ a xs → Memᴰ a (erase_name name xs)
unfolding erase_name
Memᴰ-erase_ne a name [] ne h = h
Memᴰ-erase_ne a name (x ∷ xs) ne h = ground (
  arith,
  eq_iff x name,
  Memᴰ-cons a x xs,
  Memᴰ-cons a x (erase_name name xs),
  Memᴰ-erase_ne a name xs ne,
)

pub length-insert_name :
    (name : String) (xs : NameSet) → length (insert_name name xs) ≤ suc (length xs)
unfolding insert_name
length-insert_name name xs = ground arith

pub length-merge_names : (xs ys : NameSet) → length (merge_names xs ys) ≤ length xs + length ys
unfolding merge_names
length-merge_names xs [] = omega arith
length-merge_names xs (y ∷ ys) =
    omega (arith, length-merge_names (insert_name y xs) ys, length-insert_name y xs)

pub length-erase_name :
    (name : String) (xs : NameSet) → Memᴰ name xs → suc (length (erase_name name xs)) ≡ length xs
unfolding erase_name
length-erase_name name [] h = absurd (Memᴰ.not-nil h)
length-erase_name name (x ∷ xs) h =
    ground (arith, eq_iff x name, Memᴰ-cons name x xs, length-erase_name name xs)
