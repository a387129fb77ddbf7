-- ===== src/Runtime/Interface/Queries.antt =====
-- What the queries answer about tracked allocations, and what they leave as it was.
use type_art.Prelude.{
  ℕ, ◌+◌, ◌≤◌, ◌<◌, ◌≡◌, refl, subst, false, inl, inr, some, Option-cases, arith, ==_iff,
}
use type_art.Prelude.Int.{ℤ}
use type_art.TypeLib.Types.{StructTypeInfo}
use type_art.TypeLib.TypeDb.{TypeDb, get_struct_info}
use type_art.Runtime.PointerMap.{PointerMap, PointerInfo, lookup, find}
use type_art.Runtime.PointerMap.Order.{IsSorted}
use type_art.Runtime.PointerMap.Floor.{find_base, find-IsFloor, IsFloor}
use type_art.Runtime.Recorder.{RecorderOps}
use type_art.Runtime.Tracker.{Tracker, find_base_alloc, on_alloc}
use type_art.Runtime.Tracker.Alloc.{tracked, on_alloc-wrapper, lookup-tracked, tracked-IsSorted}
use type_art.Runtime.Callbacks.{body, alloc, callback, Runtime}
use type_art.Runtime.Resolution.Outcomes.{done, status, unknown_address}
use type_art.Runtime.Resolution.Layout.{AllLayouts}
use type_art.Runtime.Resolution.Containing.{IsBlock}
use type_art.Runtime.Resolution.Begins.{Begins}
use type_art.Runtime.Resolution.Unique.{get_type_info-Begins}
use type_art.Runtime.Interface.{
  guarded, query_type, typeart_get_type, typeart_get_type_id, typeart_get_type_length,
}

-- A query leaves each thread's flag as it was.
pub guarded-rt_scope :
    {S A : Type 0} (tid : ℕ) (body : Tracker S → A × Tracker S) (rt : Runtime S) (other : ℕ)
    → (guarded tid body rt).1.rt_scope other ≡ rt.rt_scope other
unfolding guarded
guarded-rt_scope tid body rt other = ground (arith, ==_iff tid other)

not_above :
    (m : PointerMap) (addr : ℕ)
    → ((j : ℕ) (w : PointerInfo) → lookup j m ≡ some w → addr < j)
    → (found : ℕ × PointerInfo) → IsFloor m addr (some found)
    → ⊥
not_above m addr above (k, v) (held, le, _) = omega (arith, above k v held)

callback_alloc :
    {S : Type 0} (ops : RecorderOps S) (db : TypeDb) (tid addr : ℕ) (id : ℤ) (count ret : ℕ)
    (rt rt' : Runtime S)
    → rt.rt_scope tid ≡ false
    → callback ops db tid (alloc addr id count ret) rt ≡ some rt'
    → rt'.tracker ≡ on_alloc ops db tid rt.tracker addr id count ret
unfolding callback body
callback_alloc ops db tid addr id count ret rt rt' out run = ground arith

module _ {S : Type 0} (ops : RecorderOps S) (fuel : ℕ) (db : TypeDb) where
  query_type-kept :
      (addr : ℕ) (t : Tracker S)
      → ((query_type ops fuel db addr t).1.wrapper ≡ t.wrapper)
        × ((query_type ops fuel db addr t).1.stack_vars ≡ t.stack_vars)
  unfolding query_type find_base_alloc
  query_type-kept addr t = ground arith

  -- A type query changes neither the map of allocations nor any thread's stack nor any flag,
  -- whatever it answers.
  pub typeart_get_type-kept :
      (tid addr other : ℕ) (rt : Runtime S)
      → let rt' = (typeart_get_type ops fuel db tid addr rt).1 in
        (rt'.tracker.wrapper ≡ rt.tracker.wrapper)
        × (rt'.tracker.stack_vars ≡ rt.tracker.stack_vars)
        × (rt'.rt_scope other ≡ rt.rt_scope other)
  unfolding typeart_get_type guarded
  typeart_get_type-kept tid addr other rt =
      let (a, b) = query_type-kept addr rt.tracker in
      (a, b, guarded-rt_scope tid (query_type ops fuel db addr) rt other)

  -- The id and the length are the two halves of the type.
  pub typeart_get_type_halves :
      (tid addr : ℕ) (rt : Runtime S) (t : ℤ) (c : ℕ)
      → (typeart_get_type ops fuel db tid addr rt).0 ≡ done (t, c)
      → ((typeart_get_type_id ops fuel db tid addr rt).0 ≡ done t)
        × ((typeart_get_type_length ops fuel db tid addr rt).0 ≡ done c)
  unfolding typeart_get_type typeart_get_type_id typeart_get_type_length
  typeart_get_type_halves tid addr rt t c e = (rw e refl, rw e refl)

  -- In a sorted map whose bases are all above an address `typeart_get_type` answers that the
  -- address is unknown.
  pub typeart_get_type_below :
      (tid addr : ℕ) (rt : Runtime S)
      → IsSorted rt.tracker.wrapper
      → ((j : ℕ) (w : PointerInfo) → lookup j rt.tracker.wrapper ≡ some w → addr < j)
      → (typeart_get_type ops fuel db tid addr rt).0 ≡ status unknown_address
  unfolding typeart_get_type guarded query_type find_base_alloc
  typeart_get_type_below tid addr rt s above = elim (Option-cases (find rt.tracker.wrapper addr)) [
    | inl e ↦ ground arith
    | inr (found, e) ↦ absurd (
        not_above rt.tracker.wrapper addr above found
          (subst (IsFloor rt.tracker.wrapper addr) e (find-IsFloor rt.tracker.wrapper addr s)))
  ]

  module _ (rank : ℤ → ℕ) (all : AllLayouts db rank) (base : ℕ) (info : PointerInfo)
      (block : IsBlock db base info)
      (deep : (s : StructTypeInfo)
        → get_struct_info db info.type_id ≡ some s
        → rank s.type_id < fuel)
      {d : ℕ} {t : ℤ} {c : ℕ} (b : Begins db info d t c) (tid : ℕ) (rt : Runtime S)
      (s : IsSorted rt.tracker.wrapper) where
    pub typeart_get_type-Begins :
        lookup base rt.tracker.wrapper ≡ some info
        → ((j : ℕ) (w : PointerInfo)
            → lookup j rt.tracker.wrapper ≡ some w
            → j ≤ base + d
            → j ≤ base)
        → (typeart_get_type ops fuel db tid (base + d) rt).0 ≡ done (t, c)
    unfolding typeart_get_type guarded query_type find_base_alloc
    typeart_get_type-Begins held last = ground (
      arith,
      find_base rt.tracker.wrapper (base + d) base info s held (omega arith) last,
      get_type_info-Begins db rank all base info block ops
          (ops.inc_used_in_request (base + d) rt.tracker.recorder) fuel deep b,
    )

  -- A thread outside the runtime reports a block of a known type, not empty, not at null and
  -- within the address space; the map is sorted and has no base between the block's and the
  -- address asked for. Then `typeart_get_type`, called by any thread at an address of the block
  -- where by the well-formed layouts an element begins, answers that element's type and the number
  -- of such elements from there on, with a fuel above the nesting depth.
  pub typeart_get_type-callback :
      (rank : ℤ → ℕ) (base : ℕ) (info : PointerInfo) {d : ℕ} {t : ℤ} {c : ℕ} (tid asking : ℕ)
      (rt rt' : Runtime S)
      → AllLayouts db rank
      → IsBlock db base info
      → ((s : StructTypeInfo) → get_struct_info db info.type_id ≡ some s → rank s.type_id < fuel)
      → IsSorted rt.tracker.wrapper
      → rt.rt_scope tid ≡ false
      → callback ops db tid (alloc base info.type_id info.count info.debug) rt ≡ some rt'
      → ((j : ℕ) (w : PointerInfo) → lookup j rt.tracker.wrapper ≡ some w → j ≤ base + d → j ≤ base)
      → Begins db info d t c
      → (typeart_get_type ops fuel db asking (base + d) rt').0 ≡ done (t, c)
  typeart_get_type-callback rank base info {d} tid asking rt rt' all block deep s out run last b =
      let real = block.real in
      let e = callback_alloc ops db tid base info.type_id info.count info.debug rt rt' out run in
      let m : rt'.tracker.wrapper
          ≡ tracked rt.tracker.wrapper base info.type_id info.count info.debug =
        rw e (on_alloc-wrapper ops db rt.tracker base info.type_id info.count info.debug tid) in
      typeart_get_type-Begins rank all base info block deep b asking rt'
        (rw m (tracked-IsSorted rt.tracker.wrapper base info.type_id info.count info.debug s))
        (rw m (
          ground (
            arith,
            lookup-tracked rt.tracker.wrapper base base info.type_id info.count info.debug s,
          )))
        (λ j w h le. ground (
          arith,
          lookup-tracked rt.tracker.wrapper base j info.type_id info.count info.debug s,
          last j w,
          rw m at h,
        ))
