-- ===== src/Runtime/Resolution/Lookup.antt =====
-- One level of nesting in the relation `Holds`: which member an offset falls to is unique, so what
-- the struct holds there is decided by that member.
use type_art.Prelude.{
  ℕ, zero, suc, ◌+◌, ◌-◌, ◌*◌, ◌/◌, ◌%◌, ◌≤◌, ◌<◌, ◌≡◌, refl, sym, true, inl, inr, ==_iff, ◌==◌,
  ◌∙◌, ltb, ltb→lt, Bool-cases, some, some_inj, get_elem?, get_or, get_or-some, get_elem?-lt,
  get_elem?_of_lt, arith, division_unique, division, subst, below_multiple,
}
use type_art.Prelude.Int.{ℤ}
use type_art.TypeLib.Types.{StructTypeInfo}
use type_art.TypeLib.TypeDb.{TypeDb, is_struct_type, get_struct_info, get_type_size}
use type_art.TypeLib.TypeDb.Kinds.{get_type_size-get_struct_info}
use type_art.Runtime.Resolution.Layout.{Nests, IsMember, IsLayout, Holds, element, nested}
use type_art.Runtime.Resolution.Locate.{IsFound}

-- What begins at an offset that falls to a member of `count` elements of a type: the distance from
-- the member's start is a whole number of elements, or the rest is inside a nested struct.
pub data IsAt (db : TypeDb) (x : ℕ) (type : ℤ) (count : ℕ) (t : ℤ) (c : ℕ) : Type 0 where
  here :
      x / get_type_size db type < count
      → x % get_type_size db type ≡ 0
      → t ≡ type
      → c ≡ count - x / get_type_size db type
      → IsAt db x type count t c
  within :
      (inner : StructTypeInfo)
      → x / get_type_size db type < count
      → 0 < x % get_type_size db type
      → is_struct_type type ≡ true
      → get_struct_info db type ≡ some inner
      → Holds db inner (x % get_type_size db type) t c
      → IsAt db x type count t c

element_at : (o k n x a : ℕ) → x < n → a ≡ o + k * n + x → ((a - o) / n ≡ k) × ((a - o) % n ≡ x)
element_at o k n x a small e =
    let shift : a - o ≡ k * n + x = omega arith in rw shift (division_unique k n x small)

module _ (db : TypeDb) (rank : ℤ → ℕ) (s : StructTypeInfo) (layout : IsLayout db rank s) where
  -- A member ends before a later one starts.
  starts_ascend :
      (i j : ℕ) {p : ℕ}
      → i < j
      → get_elem? s.offsets j ≡ some p
      → get_or s.offsets (suc i) s.extent ≤ p
  starts_ascend i zero lt h = absurd (omega arith)
  starts_ascend i (suc j) {p} lt h = elim (Bool-cases (i == j)) [
    | inl e ↦
        omega (arith, get_or-some s.offsets (suc i) s.extent {a = p} (rw ((==_iff i j).0 e) h))
    | inr e ↦
        let (q, at) = get_elem?_of_lt s.offsets j (omega (arith, get_elem?-lt s.offsets _ h)) in
        let (_, _, _, _, ends, _) = layout.member j q at in
        omega (arith, starts_ascend i j (ground arith) at, get_or-some s.offsets (suc j) s.extent h)
  ]

  not_later :
      {offset i j o p : ℕ} {t u : ℤ} {c e : ℕ}
      → IsFound s offset i o t c
      → IsFound s offset j p u e
      → j ≤ i
  not_later {offset} {i} {j} f g = elim (Bool-cases (ltb i j)) [
    | inl lt ↦
        absurd
          (omega (arith, starts_ascend i j (ltb→lt i j lt) g.member.offset_at, f.above, g.below))
    | inr le ↦ ground arith
  ]

  same_index :
      {offset i j o p : ℕ} {t u : ℤ} {c e : ℕ}
      → IsFound s offset i o t c
      → IsFound s offset j p u e
      → i ≡ j
  same_index f g = omega (arith, not_later f g, not_later g f)

  same_member :
      {offset i j o p : ℕ} {t u : ℤ} {c e : ℕ}
      → IsFound s offset i o t c
      → IsFound s offset j p u e
      → (o ≡ p) × (t ≡ u) × (c ≡ e)
  same_member {i} {j} f g = (
    some_inj (sym f.member.offset_at ∙ rw (same_index f g) g.member.offset_at),
    some_inj (sym f.member.type_at ∙ rw (same_index f g) g.member.type_at),
    some_inj (sym f.member.count_at ∙ rw (same_index f g) g.member.count_at),
  )

  pub member_fits :
      {i offset : ℕ} {type : ℤ} {count : ℕ}
      → IsMember s i offset type count
      → (0 < get_type_size db type)
        × (offset + count * get_type_size db type ≤ get_or s.offsets (suc i) s.extent)
        × Nests db rank s type
  member_fits {i} {offset} {type} {count} m =
      let (t, c, n, sized, ends, nests) = layout.member i offset m.offset_at in
      rw (some_inj (sym m.type_at ∙ n.type_at), some_inj (sym m.count_at ∙ n.count_at))
        (sized, ends, nests)

  element-IsFound :
      {i start : ℕ} {type : ℤ} {count : ℕ}
      → IsMember s i start type count
      → (k x : ℕ) {offset : ℕ} → k < count
      → x < get_type_size db type
      → offset ≡ start + k * get_type_size db type + x
      → IsFound s offset i start type count
  element-IsFound m k x lt small e = record {
    member = m;
    below = omega arith;
    above = omega (arith, (member_fits m).1, below_multiple _ _ _ x lt small);
  }

  pub Holds-IsAt :
      {offset i start : ℕ} {type : ℤ} {count : ℕ} {t : ℤ} {c : ℕ}
      → IsFound s offset i start type count
      → Holds db s offset t c
      → IsAt db (offset - start) type count t c
  Holds-IsAt found (element _ j o u e k member lt) =
      let (eo, et, ec) =
        same_member found (element-IsFound member k 0 lt (member_fits member).0 (omega arith)) in
      let (quotient, rest) =
        element_at o k (get_type_size db u) 0 (o + k * get_type_size db u) (member_fits member).0
          (omega arith) in
      rw (eo, et, ec) (here (rw quotient lt) rest refl (rw quotient refl))
  Holds-IsAt found (nested _ inner j o u e k x t c member lt kind known some_x small h) =
      let fits : x < get_type_size db u =
        rw (get_type_size-get_struct_info db u inner kind known) small in
      let (eo, et, ec) = same_member found (element-IsFound member k x lt fits refl) in
      let (quotient, rest) = element_at o k (get_type_size db u) x _ fits refl in
      rw (eo, et, ec) (within inner (rw quotient lt) (rw rest some_x) kind known (rw rest h))

  pub IsAt-Holds :
      {offset i start : ℕ} {type : ℤ} {count : ℕ} {t : ℤ} {c : ℕ}
      → IsFound s offset i start type count
      → IsAt db (offset - start) type count t c
      → Holds db s offset t c
  IsAt-Holds {offset} {i} {start} {type} {count} found (here lt rest e f) =
      let whole = division (offset - start) (get_type_size db type) (member_fits found.member).0 in
      rw (e, f)
        (subst (λ at. Holds db s at type (count - (offset - start) / get_type_size db type))
          (omega (arith, found.below)) (element s i start type count _ found.member lt))
  IsAt-Holds {offset} {i} {start} {type} {count} {t} {c} found (within inner lt rest kind known h) =
      let (whole, small) =
        division (offset - start) (get_type_size db type) (member_fits found.member).0 in
      subst (λ at. Holds db s at t c) (omega (arith, found.below))
        (nested s inner i start type count _ _ t c found.member lt kind known rest
          (rw (sym (get_type_size-get_struct_info db type inner kind known)) small) h)
