-- ===== src/Runtime/Callbacks/Invariant.antt =====
-- What every callback keeps of the map of allocations, whatever recorder is built in.
use type_art.Prelude.{ℕ, ◌≡◌, List, [], ◌∷◌, none, some, arith}
use type_art.Prelude.Int.{ℤ}
use type_art.TypeLib.TypeDb.{TypeDb}
use type_art.Runtime.PointerMap.{PointerMap, lookup}
use type_art.Runtime.PointerMap.Order.{IsSorted, remove-IsSorted}
use type_art.Runtime.PointerMap.Contents.{lookup-remove}
use type_art.Runtime.Recorder.{RecorderOps}
use type_art.Runtime.Tracker.{Tracker, on_free_heap, leave}
use type_art.Runtime.Tracker.Alloc.{
  tracked, lookup-tracked, tracked-IsSorted, on_alloc-wrapper, on_alloc_stack-wrapper,
  on_alloc_global-wrapper,
}
use type_art.Runtime.Tracker.Free.{on_free_heap-wrapper}
use type_art.Runtime.Tracker.Leave.{leave-IsSorted, lookup-leave}
use type_art.Runtime.Callbacks.{
  Callback, alloc, alloc_stack, alloc_global, alloc_omp, alloc_stack_omp, free, free_omp,
  leave_scope, leave_scope_omp, Runtime, run,
}
use type_art.Runtime.Callbacks.Runs.{AllCallbacks, Allocates, Kept, run_kept}

-- The keys of the map ascend, and null is none of them.
pub record IsConsistent (m : PointerMap) : Type 0 where
  pub sorted : IsSorted m
  pub no_null : lookup 0 m ≡ none

tracked-IsConsistent :
    (m : PointerMap) (addr : ℕ) (id : ℤ) (count ret : ℕ)
    → IsConsistent m
    → IsConsistent (tracked m addr id count ret)
tracked-IsConsistent m addr id count ret c = record {
  sorted = tracked-IsSorted m addr id count ret c.sorted;
  no_null = ground (arith, lookup-tracked m addr 0 id count ret c.sorted);
}

module _ {S : Type 0} (ops : RecorderOps S) (db : TypeDb) (tid : ℕ) (t : Tracker S)
    (c : IsConsistent t.wrapper) where
  on_free_heap-IsConsistent : (addr : ℕ) → IsConsistent (on_free_heap ops tid t addr).wrapper
  on_free_heap-IsConsistent addr = rw (on_free_heap-wrapper ops tid t addr c.no_null) (record {
    sorted = remove-IsSorted t.wrapper addr c.sorted;
    no_null = ground (arith, lookup-remove t.wrapper addr 0 c.sorted);
  })

  leave-IsConsistent : (k : ℕ) → IsConsistent (leave ops tid t k).wrapper
  leave-IsConsistent k = record {
    sorted = leave-IsSorted ops tid t k c.sorted;
    no_null = ground (arith, lookup-leave ops tid t k 0 c.sorted);
  }

  pub Kept-IsConsistent : Kept ops db (λ id. Unit) (λ u. IsConsistent u.wrapper) tid t
  Kept-IsConsistent = record {
    by_alloc = λ addr id count ret _.
        rw (on_alloc-wrapper ops db t addr id count ret tid)
          (tracked-IsConsistent t.wrapper addr id count ret c);
    by_alloc_stack = λ addr id count ret _.
        rw (on_alloc_stack-wrapper ops db t addr id count ret tid)
          (tracked-IsConsistent t.wrapper addr id count ret c);
    by_alloc_global = λ addr id count ret _.
        rw (on_alloc_global-wrapper ops db t addr id count ret)
          (tracked-IsConsistent t.wrapper addr id count ret c);
    by_free = on_free_heap-IsConsistent;
    by_leave = λ k _. leave-IsConsistent k;
    by_omp_heap = λ u p. p;
    by_omp_stack = λ u p. p;
    by_omp_free = λ u p. p;
  }

any_id : (cb : Callback) → Allocates (λ id. Unit) cb
any_id (alloc addr id count ret) = tt
any_id (alloc_stack addr id count ret) = tt
any_id (alloc_global addr id count ret) = tt
any_id (alloc_omp addr id count ret) = tt
any_id (alloc_stack_omp addr id count ret) = tt
any_id (free addr ret) = tt
any_id (free_omp addr ret) = tt
any_id (leave_scope count ret) = tt
any_id (leave_scope_omp count ret) = tt

pub any_ids : (cbs : List (ℕ × Callback)) → AllCallbacks (Allocates (λ id. Unit)) cbs
any_ids [] = tt
any_ids ((tid, cb) ∷ cbs) = (any_id cb, any_ids cbs)

-- A history of callbacks, by any number of threads, that runs to its end keeps the map's keys
-- ascending and null out of it.
pub run-IsConsistent :
    {S : Type 0} (ops : RecorderOps S) (db : TypeDb) (cbs : List (ℕ × Callback))
    (rt rt' : Runtime S)
    → run ops db cbs rt ≡ some rt'
    → IsConsistent rt.tracker.wrapper
    → IsConsistent rt'.tracker.wrapper
run-IsConsistent {S} ops db cbs rt rt' h c =
    run_kept ops db (λ id. Unit) (λ u. IsConsistent u.wrapper)
      (λ tid t ok. Kept-IsConsistent ops db tid t ok) cbs rt rt' (any_ids cbs) h c
