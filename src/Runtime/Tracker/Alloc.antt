-- ===== src/Runtime/Tracker/Alloc.antt =====
-- What one allocation does to the map, the status, and the thread's stack, on every branch of
-- `doAlloc`.
use type_art.Prelude.{
  ℕ, ◌+◌, ◌≡◌, ◌≢◌, false, ◌==◌, if◌then◌else◌, [], ◌∷◌, ◌++◌, some, inl, inr, Bool-cases, arith,
}
use type_art.Prelude.Int.{ℤ}
use type_art.TypeLib.TypeDb.{TypeDb, is_valid}
use type_art.Runtime.PointerMap.{PointerMap, lookup, was_set, put}
use type_art.Runtime.PointerMap.Order.{IsSorted, put-IsSorted}
use type_art.Runtime.PointerMap.Contents.{lookup-put, put-overridden}
use type_art.Runtime.Recorder.{RecorderOps}
use type_art.Runtime.Tracker.{
  Tracker, set_stack, addr_skipped, do_alloc, on_alloc, on_alloc_stack, on_alloc_global,
}

-- The map after an allocation.
abbrev pub tracked : PointerMap → ℕ → ℤ → ℕ → ℕ → PointerMap
tracked m addr id count ret =
    if addr == 0 then m else (put m addr (record { type_id = id; count = count; debug = ret })).0

-- The status, as the sum of its flags.
abbrev pub alloc_status : TypeDb → PointerMap → ℕ → ℤ → ℕ → ℕ
alloc_status db m addr id count =
    1
    + (if is_valid db id then 0 else 128)
    + (if count == 0 then 16 else 0)
    + (if addr == 0
        then (if count == 0 then 36 else 12)
        else (if was_set (lookup addr m) then 66 else 2))

module _ {S : Type 0} (ops : RecorderOps S) (db : TypeDb) (t : Tracker S) (addr : ℕ) (id : ℤ)
    (count ret : ℕ) where
  pub do_alloc-wrapper :
      (do_alloc ops db t addr id count ret).1.wrapper ≡ tracked t.wrapper addr id count ret
  unfolding do_alloc
  do_alloc-wrapper = ground arith

  pub do_alloc-stack_vars : (do_alloc ops db t addr id count ret).1.stack_vars ≡ t.stack_vars
  unfolding do_alloc
  do_alloc-stack_vars = ground arith

  -- In a sorted map the status of `doAlloc` is, on every branch, the sum of the flags that
  -- `alloc_status` lists: an unknown id, a count of 0, a null address, a re-used address.
  pub do_alloc-status :
      IsSorted t.wrapper
      → (do_alloc ops db t addr id count ret).0 ≡ alloc_status db t.wrapper addr id count
  unfolding do_alloc
  do_alloc-status s =
      ground (
        arith,
        put-overridden t.wrapper addr (record { type_id = id; count = count; debug = ret }) s,
      )

  -- No status of `doAlloc` is `ADDR_SKIPPED` alone, so the callbacks' test for it always passes.
  pub do_alloc-ne-addr_skipped : (do_alloc ops db t addr id count ret).0 ≢ addr_skipped
  unfolding do_alloc
  do_alloc-ne-addr_skipped = ground arith

  pub status_passes : ((do_alloc ops db t addr id count ret).0 == addr_skipped) ≡ false
  status_passes = ground (arith, do_alloc-ne-addr_skipped)

  -- Every callback stores the entry, a null address apart, and leaves the other threads' stacks.
  pub on_alloc-wrapper :
      (tid : ℕ)
      → (on_alloc ops db tid t addr id count ret).wrapper ≡ tracked t.wrapper addr id count ret
  unfolding on_alloc
  on_alloc-wrapper tid = ground (arith, do_alloc-wrapper)

  pub on_alloc-stack_vars :
      (tid : ℕ) → (on_alloc ops db tid t addr id count ret).stack_vars ≡ t.stack_vars
  unfolding on_alloc
  on_alloc-stack_vars tid = ground (arith, do_alloc-stack_vars)

  pub on_alloc_global-wrapper :
      (on_alloc_global ops db t addr id count ret).wrapper ≡ tracked t.wrapper addr id count ret
  unfolding on_alloc_global
  on_alloc_global-wrapper = ground (arith, do_alloc-wrapper)

  pub on_alloc_global-stack_vars :
      (on_alloc_global ops db t addr id count ret).stack_vars ≡ t.stack_vars
  unfolding on_alloc_global
  on_alloc_global-stack_vars = ground (arith, do_alloc-stack_vars)

  pub on_alloc_stack-wrapper :
      (tid : ℕ)
      → (on_alloc_stack ops db tid t addr id count ret).wrapper
        ≡ tracked t.wrapper addr id count ret
  unfolding on_alloc_stack
  on_alloc_stack-wrapper tid = ground (arith, do_alloc-wrapper)

  -- The stack callback pushes its address whatever it is, null included.
  pub on_alloc_stack-stack_vars :
      (tid : ℕ)
      → (on_alloc_stack ops db tid t addr id count ret).stack_vars
        ≡ set_stack t.stack_vars tid (t.stack_vars tid ++ addr ∷ [])
  unfolding on_alloc_stack
  on_alloc_stack-stack_vars tid =
      rw (status_passes, on_alloc_stack) (ground (arith, do_alloc-stack_vars))

-- What a lookup finds in the map after an allocation.
pub lookup-tracked :
    (m : PointerMap) (addr j : ℕ) (id : ℤ) (count ret : ℕ)
    → IsSorted m
    → lookup j (tracked m addr id count ret) ≡ (
        if addr == 0
        then lookup j m
        else (if addr == j
            then some (record { type_id = id; count = count; debug = ret })
            else lookup j m))
lookup-tracked m addr j id count ret s =
    ground (arith, lookup-put m addr j (record { type_id = id; count = count; debug = ret }) s)

pub tracked-IsSorted :
    (m : PointerMap) (addr : ℕ) (id : ℤ) (count ret : ℕ)
    → IsSorted m
    → IsSorted (tracked m addr id count ret)
tracked-IsSorted m addr id count ret s = elim (Bool-cases (addr == 0)) [
  | inl null ↦ rw null s
  | inr real ↦ rw real (put-IsSorted m addr _ s)
]
