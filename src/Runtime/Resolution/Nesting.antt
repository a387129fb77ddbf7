-- ===== src/Runtime/Resolution/Nesting.antt =====
-- The whole resolution within a struct, `getTypeInfoInternal`, against the relation `Holds`.
use type_art.Prelude.{
  ℕ, zero, suc, ◌+◌, ◌-◌, ◌/◌, ◌%◌, ◌<◌, ◌≡◌, refl, sym, subst, ◌∙◌, Bool, true, false, ◌==◌, ◌||◌,
  leb, inl, inr, some, some_inj, arith, Bool-cases, division,
}
use type_art.Prelude.Int.{ℤ}
use type_art.TypeLib.Types.{StructTypeInfo}
use type_art.TypeLib.TypeDb.{TypeDb, is_struct_type, is_reserved_type, get_type_size}
use type_art.TypeLib.TypeDb
use type_art.TypeLib.TypeDb.Kinds.{get_type_size-get_struct_info}
use type_art.Runtime.Resolution.Outcomes.{Outcome, done, status, bad_alignment, ◌>>=◌}
use type_art.Runtime.Resolution.{
  SubType, word, get_member_index_at, get_struct_info, resolve, to_struct_layout_info,
}
use type_art.Runtime.Resolution.Layout.{IsLayout, AllLayouts, Holds}
use type_art.Runtime.Resolution.Locate.{IsFound, find_member, located, get_sub_type_info_lem}
use type_art.Runtime.Resolution.Lookup.{here, within, Holds-IsAt, IsAt-Holds, member_fits}

-- The answer to a query of an offset in a struct: what begins there, or a misalignment if nothing
-- does.
pub data IsAnswer (db : TypeDb) (s : StructTypeInfo) (offset : ℕ) : Outcome (ℤ × ℕ) → Type 0 where
  present : (t : ℤ) (c : ℕ) → Holds db s offset t c → IsAnswer db s offset (done (t, c))
  absent : ((t : ℤ) (c : ℕ) → ¬ Holds db s offset t c) → IsAnswer db s offset (status bad_alignment)

-- The step of the loop that follows `getSubTypeInfo`.
abbrev continue : ℕ → TypeDb → SubType → Outcome (ℤ × ℕ)
continue fuel db sub = elim (sub.offset == 0) [
  | true ↦ done (sub.sub_type, sub.count)
  | false ↦
      get_struct_info db sub.sub_type >>= λ inner. resolve fuel db sub.base_addr sub.offset inner
]

||-true : (b : Bool) → (b || true) ≡ true
||-true true = refl
||-true false = refl

not_reserved : (id : ℤ) → is_struct_type id ≡ true → is_reserved_type id ≡ false
not_reserved id k = ground arith

kinds_differ : (id : ℤ) → is_reserved_type id ≡ true → is_struct_type id ≡ true → ⊥
kinds_differ id r k = ground arith

module _ (db : TypeDb) (rank : ℤ → ℕ) (s : StructTypeInfo) (layout : IsLayout db rank s)
    {offset i start : ℕ} {type : ℤ} {count : ℕ} (f : IsFound s offset i start type count) where
  abbrev x : ℕ
  x = offset - start

  abbrev size : ℕ
  size = get_type_size db type

  padding : leb count (x / size) ≡ true → (t : ℤ) (c : ℕ) → ¬ Holds db s offset t c
  padding out t c h = elim (Holds-IsAt db rank s layout f h) [
    | here lt _ _ _ ↦ ground arith
    | within _ lt _ _ _ _ ↦ ground arith
  ]

  misaligned :
      (x % size == 0) ≡ false
      → is_reserved_type type ≡ true
      → (t : ℤ) (c : ℕ) → ¬ Holds db s offset t c
  misaligned rest reserved t c h = elim (Holds-IsAt db rank s layout f h) [
    | here _ e _ _ ↦ ground arith
    | within _ _ _ kind _ _ ↦ kinds_differ type reserved kind
  ]

  module _ (inner : StructTypeInfo) (rest : (x % size == 0) ≡ false)
      (bounded : leb count (x / size) ≡ false) (kind : is_struct_type type ≡ true)
      (known : TypeDb.get_struct_info db type ≡ some inner) where
    nested-IsAnswer :
        {o : Outcome (ℤ × ℕ)} → IsAnswer db inner (x % size) o → IsAnswer db s offset o
    nested-IsAnswer (present t c h) =
        present t c
          (IsAt-Holds db rank s layout f (within inner (ground arith) (ground arith) kind known h))
    nested-IsAnswer (absent nothing) = absent (λ t c h. elim (Holds-IsAt db rank s layout f h) [
      | here _ e _ _ ↦ ground arith
      | within other _ _ _ known_too h ↦
          nothing t c (subst (λ y. Holds db y (x % size) t c) (some_inj (sym known_too ∙ known)) h)
    ])

    continue_nested :
        (fuel base_addr : ℕ)
        → continue fuel db (record {
          sub_type = type;
          base_addr = base_addr;
          offset = x % size;
          count = count - x / size;
        })
          ≡ resolve fuel db base_addr (x % size) inner
    unfolding get_struct_info
    continue_nested fuel base_addr = ground arith

  continue_aligned :
      (x % size == 0) ≡ true
      → (fuel base_addr : ℕ)
      → continue fuel db (record {
        sub_type = type;
        base_addr = base_addr;
        offset = x % size;
        count = count - x / size;
      })
        ≡ done (type, count - x / size)
  continue_aligned rest fuel base_addr = ground arith

  module _ (inside : offset < s.extent)
      (at : get_member_index_at (to_struct_layout_info s) offset ≡ done i) (base_addr : ℕ)
      (real : 0 < base_addr) (small : base_addr + offset < word) where
    resolve-located :
        (fuel : ℕ)
        → resolve (suc fuel) db base_addr offset s
          ≡ located db rank s layout offset inside base_addr start type count >>= continue fuel db
    unfolding resolve
    resolve-located fuel =
        rw
          (get_sub_type_info_lem db rank s layout offset inside base_addr i start type count at f
            (member_fits db rank s layout f.member).0 real small)
          refl

module _ (db : TypeDb) (rank : ℤ → ℕ) (all : AllLayouts db rank) where
  -- For well-formed layouts, an offset within a struct, a fuel above the struct's rank and a base
  -- that is not null, the struct being within the address space up to the offset, the loop of
  -- `getTypeInfoInternal` ends. It answers a type and a count that the relation `Holds` has at the
  -- offset, or a misalignment if it has none there.
  pub resolve-IsAnswer :
      (fuel : ℕ) (s : StructTypeInfo) (base_addr offset : ℕ)
      → IsLayout db rank s
      → rank s.type_id < fuel
      → offset < s.extent
      → 0 < base_addr
      → base_addr + offset < word
      → IsAnswer db s offset (resolve fuel db base_addr offset s)
  unfolding resolve
  resolve-IsAnswer zero s base_addr offset layout deep inside real small = absurd (omega arith)
  resolve-IsAnswer (suc fuel) s base_addr offset layout deep inside real small =
      let (i, start, type, count, at, f) = find_member db rank s layout offset inside in
      let (sized, _, nests) = member_fits db rank s layout f.member in
      let size = get_type_size db type in
      let (whole, rest) = division (offset - start) size sized in
      rw (resolve-located db rank s layout f inside at base_addr real small fuel)
        (elim (Bool-cases (leb count ((offset - start) / size))) [
          | inl out ↦ rw (out, ||-true) (absent (padding db rank s layout f out))
          | inr bounded ↦ elim (Bool-cases ((offset - start) % size == 0)) [
            | inl aligned ↦
                rw
                  (
                    bounded,
                    aligned,
                    continue_aligned db rank s layout f aligned fuel (base_addr + start),
                  )
                  (present type (count - (offset - start) / size)
                    (IsAt-Holds db rank s layout f (here (ground arith) (ground arith) refl refl)))
            | inr unaligned ↦ elim nests [
              | inl reserved ↦
                  rw (unaligned, reserved)
                    (absent (misaligned db rank s layout f unaligned reserved))
              | inr (inner, kind, known, deeper) ↦
                  rw (not_reserved type kind, bounded, unaligned)
                    (rw
                      (continue_nested db rank s layout f inner unaligned bounded kind known fuel
                        (base_addr + start))
                      (nested-IsAnswer db rank s layout f inner unaligned bounded kind known (
                        resolve-IsAnswer fuel inner (base_addr + start) ((offset - start) % size)
                          (all type inner known) (omega arith)
                          (rw (sym (get_type_size-get_struct_info db type inner kind known)) rest)
                          (omega arith) (omega (arith, f.below, whole)))))
            ]
          ]
        ])
