-- ===== src/Runtime/Resolution/Unique.antt =====
-- At most one type begins at an address, so a query finds the one that does.
use type_art.Prelude.{
  ℕ, zero, suc, ◌+◌, ◌-◌, ◌*◌, ◌%◌, ◌<◌, ◌≡◌, refl, sym, ◌∙◌, subst, some, true, inl, inr, arith,
  division, some_inj, lt_of_quotient,
}
use type_art.Prelude.Int.{ℤ}
use type_art.TypeLib.Types.{StructTypeInfo}
use type_art.TypeLib.TypeDb.{TypeDb, get_type_size, get_struct_info, is_struct_type}
use type_art.TypeLib.TypeDb.Kinds.{get_type_size-get_struct_info}
use type_art.Runtime.PointerMap.{PointerInfo}
use type_art.Runtime.Recorder.{RecorderOps}
use type_art.Runtime.Resolution.Outcomes.{Outcome, done}
use type_art.Runtime.Resolution.{get_type_info}
use type_art.Runtime.Resolution.Layout.{Nests, IsLayout, AllLayouts, Holds}
use type_art.Runtime.Resolution.Locate.{find_member}
use type_art.Runtime.Resolution.Lookup.{IsAt, here, within, Holds-IsAt, member_fits}
use type_art.Runtime.Resolution.Containing.{IsBlock}
use type_art.Runtime.Resolution.Begins.{Begins, Begins-IsAt}
use type_art.Runtime.Resolution.Reply.{IsReply, begins, misaligned, outside, get_type_info-IsReply}

module _ (db : TypeDb) (rank : ℤ → ℕ) (all : AllLayouts db rank) where
  IsAt-unique :
      {x : ℕ} {type : ℤ} {count : ℕ} {t u : ℤ} {c e : ℕ}
      → ((s : StructTypeInfo)
          → is_struct_type type ≡ true
          → get_struct_info db type ≡ some s
          → Holds db s (x % get_type_size db type) t c
          → Holds db s (x % get_type_size db type) u e
          → (t ≡ u) × (c ≡ e))
      → IsAt db x type count t c
      → IsAt db x type count u e
      → (t ≡ u) × (c ≡ e)
  IsAt-unique deeper (here _ _ a b) (here _ _ f g) = (a ∙ sym f, b ∙ sym g)
  IsAt-unique deeper (here _ whole _ _) (within _ _ rest _ _ _) = absurd (omega arith)
  IsAt-unique deeper (within _ _ rest _ _ _) (here _ whole _ _) = absurd (omega arith)
  IsAt-unique {x} {type} {count} {t} {u} {c} {e} deeper (within s _ _ kind known h)
        (within s' _ _ _ known' h') =
      deeper s kind known h
        (subst (λ y. Holds db y (x % get_type_size db type) u e) (some_inj (sym known' ∙ known)) h')

  deeper_rank :
      (s : StructTypeInfo) (type : ℤ) (inner : StructTypeInfo) (fuel : ℕ)
      → rank s.type_id < suc fuel
      → Nests db rank s type
      → is_struct_type type ≡ true
      → get_struct_info db type ≡ some inner
      → rank inner.type_id < fuel
  deeper_rank s type inner fuel deep (inl reserved) kind known = absurd (ground arith)
  deeper_rank s type inner fuel deep (inr (inner', _, known', lower)) kind known =
      let same : inner' ≡ inner = some_inj (sym known' ∙ known) in rw (sym same) (omega arith)

  Holds-unique :
      (fuel : ℕ) (s : StructTypeInfo) (offset : ℕ) {t u : ℤ} {c e : ℕ}
      → IsLayout db rank s
      → rank s.type_id < fuel
      → offset < s.extent
      → Holds db s offset t c
      → Holds db s offset u e
      → (t ≡ u) × (c ≡ e)
  Holds-unique zero s offset layout deep inside h k = absurd (omega arith)
  Holds-unique (suc fuel) s offset layout deep inside h k =
      let (i, start, type, count, at, f) = find_member db rank s layout offset inside in
      let (sized, _, nests) = member_fits db rank s layout f.member in
      IsAt-unique
        (λ inner kind known a b.
          Holds-unique fuel inner ((offset - start) % get_type_size db type) (all type inner known)
            (deeper_rank s type inner fuel deep nests kind known)
            (rw (sym (get_type_size-get_struct_info db type inner kind known))
              (division (offset - start) (get_type_size db type) sized).1)
            a b)
        (Holds-IsAt db rank s layout f h) (Holds-IsAt db rank s layout f k)

  module _ (base_ptr : ℕ) (info : PointerInfo) (block : IsBlock db base_ptr info) where
    Begins-unique :
        {d : ℕ} {t u : ℤ} {c e : ℕ}
        → Begins db info d t c
        → Begins db info d u e
        → (t ≡ u) × (c ≡ e)
    Begins-unique {d} a b =
        IsAt-unique
          (λ s kind known h k.
            Holds-unique (suc (rank s.type_id)) s (d % get_type_size db info.type_id)
              (all info.type_id s known) (omega arith)
              (rw (sym (get_type_size-get_struct_info db info.type_id s kind known))
                (division d (get_type_size db info.type_id) block.sized).1)
              h k)
          (Begins-IsAt db base_ptr info block a) (Begins-IsAt db base_ptr info block b)

    Begins-inside :
        {d : ℕ} {t : ℤ} {c : ℕ}
        → Begins db info d t c
        → d < info.count * get_type_size db info.type_id
    Begins-inside {d} b = elim (Begins-IsAt db base_ptr info block b) [
      | here lt _ _ _ ↦ lt_of_quotient d info.count _ block.sized lt
      | within _ lt _ _ _ _ ↦ lt_of_quotient d info.count _ block.sized lt
    ]

    module _ {S : Type 0} (ops : RecorderOps S) (r : S) (fuel : ℕ)
        (deep : (s : StructTypeInfo)
          → get_struct_info db info.type_id ≡ some s
          → rank s.type_id < fuel) where
      reply-Begins :
          {d : ℕ} {t : ℤ} {c : ℕ} {reply : Outcome (ℤ × ℕ) × S}
          → Begins db info d t c
          → IsReply ops db base_ptr info r d reply
          → reply ≡ (done (t, c), r)
      reply-Begins b (begins u e a) =
          let (same_type, same_count) = Begins-unique a b in rw (same_type, same_count) refl
      reply-Begins b (misaligned inside nothing) = absurd (nothing _ _ b)
      reply-Begins b (outside far) = absurd (omega (arith, Begins-inside b))

      -- For well-formed layouts, a block of a known type, not empty, not at null and within the
      -- address space, and a fuel above the nesting depth, `getTypeInfo` at an address at which an
      -- element begins answers that element's type and the number of such elements from there on,
      -- and records nothing.
      pub get_type_info-Begins :
          {d : ℕ} {t : ℤ} {c : ℕ}
          → Begins db info d t c
          → get_type_info ops fuel db r (base_ptr + d) base_ptr info ≡ (done (t, c), r)
      get_type_info-Begins {d} b = reply-Begins b (
          get_type_info-IsReply ops db rank all r base_ptr info block fuel deep d
            (omega (arith, Begins-inside b, block.small)))
