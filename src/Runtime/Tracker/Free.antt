-- ===== src/Runtime/Tracker/Free.antt =====
-- Freeing a heap allocation: what `onFreeHeap` does on each branch.
use type_art.Prelude.{ℕ, ◌≡◌, ◌≢◌, ◌∙◌, ◌==◌, none, some, inl, inr, Bool-cases, Option-cases, arith}
use type_art.Prelude.Int.{ℤ}
use type_art.TypeLib.TypeDb.{TypeDb}
use type_art.Runtime.PointerMap.{PointerInfo, lookup, remove}
use type_art.Runtime.PointerMap.Order.{IsSorted}
use type_art.Runtime.PointerMap.Contents.{removed-lookup, remove_absent, remove-put, lookup-remove}
use type_art.Runtime.Recorder.{RecorderOps}
use type_art.Runtime.Tracker.{Tracker, on_alloc, on_free_heap}
use type_art.Runtime.Tracker.Alloc.{tracked, lookup-tracked, on_alloc-wrapper}

module _ {S : Type 0} (ops : RecorderOps S) (tid : ℕ) (t : Tracker S) (addr : ℕ) where
  -- A null address, or one that is not in the map, changes nothing and is not counted.
  pub on_free_heap_missing : lookup addr t.wrapper ≡ none → on_free_heap ops tid t addr ≡ t
  unfolding on_free_heap
  on_free_heap_missing e = ground (arith, remove_absent t.wrapper addr e)

  -- An address in the map leaves it, and the free is counted under the type of its entry.
  pub on_free_heap_found :
      (info : PointerInfo)
      → addr ≢ 0
      → lookup addr t.wrapper ≡ some info
      → on_free_heap ops tid t addr ≡ record t {
        wrapper = (remove t.wrapper addr).0;
        recorder = ops.dec_heap_alloc (ops.inc_heap_free tid info.type_id info.count t.recorder);
      }
  unfolding on_free_heap
  on_free_heap_found info h e = ground (arith, removed-lookup t.wrapper addr)

  pub on_free_heap-wrapper :
      lookup 0 t.wrapper ≡ none → (on_free_heap ops tid t addr).wrapper ≡ (remove t.wrapper addr).0
  on_free_heap-wrapper z = elim (Option-cases (lookup addr t.wrapper)) [
    | inl e ↦ rw (on_free_heap_missing e, remove_absent t.wrapper addr e)
    | inr (info, e) ↦ rw (on_free_heap_found info (λ null. cc) e)
  ]

  pub on_free_heap-stack_vars : (on_free_heap ops tid t addr).stack_vars ≡ t.stack_vars
  unfolding on_free_heap
  on_free_heap-stack_vars = ground arith

-- In a sorted map without null, a second free of an address changes nothing and counts nothing.
pub on_free_heap_twice :
    {S : Type 0} (ops : RecorderOps S) (tid : ℕ) (t : Tracker S) (addr : ℕ)
    → IsSorted t.wrapper
    → lookup 0 t.wrapper ≡ none
    → on_free_heap ops tid (on_free_heap ops tid t addr) addr ≡ on_free_heap ops tid t addr
on_free_heap_twice ops tid t addr s z =
    on_free_heap_missing ops tid (on_free_heap ops tid t addr) addr (
      rw (on_free_heap-wrapper ops tid t addr z)
        (ground (arith, lookup-remove t.wrapper addr addr s)))

module _ {S : Type 0} (ops : RecorderOps S) (db : TypeDb) (tid : ℕ) (t : Tracker S) (addr : ℕ)
    (id : ℤ) (count ret : ℕ) where
  tracked-NoNull :
      IsSorted t.wrapper
      → lookup 0 t.wrapper ≡ none
      → lookup 0 (tracked t.wrapper addr id count ret) ≡ none
  tracked-NoNull s z = ground (arith, lookup-tracked t.wrapper addr 0 id count ret s)

  remove-tracked :
      IsSorted t.wrapper
      → lookup addr t.wrapper ≡ none
      → (remove (tracked t.wrapper addr id count ret) addr).0 ≡ t.wrapper
  remove-tracked s fresh = elim (Bool-cases (addr == 0)) [
    | inl null ↦ rw (null, remove_absent t.wrapper addr fresh)
    | inr real ↦ rw real (remove-put t.wrapper addr _ s fresh)
  ]

  -- In a sorted map without null, a free of a heap allocation at an address that was not in the
  -- map leaves the map as it was before the allocation.
  pub on_free_heap-on_alloc :
      IsSorted t.wrapper
      → lookup addr t.wrapper ≡ none
      → lookup 0 t.wrapper ≡ none
      → (on_free_heap ops tid (on_alloc ops db tid t addr id count ret) addr).wrapper ≡ t.wrapper
  on_free_heap-on_alloc s fresh z =
      on_free_heap-wrapper ops tid (on_alloc ops db tid t addr id count ret) addr
        (rw (on_alloc-wrapper ops db t addr id count ret tid) (tracked-NoNull s z))
      ∙ rw (on_alloc-wrapper ops db t addr id count ret tid) (remove-tracked s fresh)
