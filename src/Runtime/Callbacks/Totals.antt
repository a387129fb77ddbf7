-- ===== src/Runtime/Callbacks/Totals.antt =====
-- The totals that the soft counters report at exit, after any history of callbacks.
use type_art.Prelude.{ℕ, ◌≡◌, false, List, some, arith}
use type_art.Prelude.Int.{ℤ, negsuc, ◌==ℤ◌}
use type_art.TypeLib.TypeDb.{TypeDb}
use type_art.Runtime.PointerMap.{PointerMap}
use type_art.Runtime.PointerMap.Order.{IsSorted}
use type_art.Runtime.PointerMap.Contents.{lookup-remove}
use type_art.Runtime.Recorder.Access.{AccessRecorder, access_recorder}
use type_art.Runtime.Tracker.{Tracker, on_free_heap, leave}
use type_art.Runtime.Tracker.Alloc.{
  tracked, lookup-tracked, on_alloc-wrapper, on_alloc_stack-wrapper, on_alloc_global-wrapper,
}
use type_art.Runtime.Tracker.Free.{on_free_heap-wrapper}
use type_art.Runtime.Tracker.Leave.{lookup-leave}
use type_art.Runtime.Tracker.Accounting.{
  AllSet, IsBalanced, on_alloc-IsBalanced, on_alloc_stack-IsBalanced, on_alloc_global-IsBalanced,
  on_free_heap-IsBalanced, leave-IsBalanced,
}
use type_art.Runtime.Callbacks.{Callback, Runtime, run}
use type_art.Runtime.Callbacks.Runs.{AllCallbacks, Allocates, Kept, run_kept}
use type_art.Runtime.Callbacks.Invariant.{IsConsistent, Kept-IsConsistent}

-- A type id that `put` can tell from that of a default entry.
abbrev pub IsTypeId : ℤ → Type 0
IsTypeId id = (id ==ℤ negsuc 0) ≡ false

pub record Accounts (t : Tracker AccessRecorder) : Type 0 where
  pub consistent : IsConsistent t.wrapper
  pub all_set : AllSet t.wrapper
  pub balanced : IsBalanced t

tracked-AllSet :
    (m : PointerMap) (addr : ℕ) (id : ℤ) (count ret : ℕ)
    → IsSorted m
    → AllSet m
    → IsTypeId id
    → AllSet (tracked m addr id count ret)
tracked-AllSet m addr id count ret s set i k v h =
    ground (arith, lookup-tracked m addr k id count ret s, set k v)

module _ (db : TypeDb) (tid : ℕ) (t : Tracker AccessRecorder) (a : Accounts t) where
  on_free_heap-AllSet : (addr : ℕ) → AllSet (on_free_heap access_recorder tid t addr).wrapper
  on_free_heap-AllSet addr =
      rw (on_free_heap-wrapper access_recorder tid t addr a.consistent.no_null)
        (λ k v h. ground (arith, lookup-remove t.wrapper addr k a.consistent.sorted, a.all_set k v))

  leave-AllSet : (n : ℕ) → AllSet (leave access_recorder tid t n).wrapper
  leave-AllSet n k v h =
      ground (arith, lookup-leave access_recorder tid t n k a.consistent.sorted, a.all_set k v)

  Kept-Accounts : Kept access_recorder db IsTypeId Accounts tid t
  Kept-Accounts =
      let k = Kept-IsConsistent access_recorder db tid t a.consistent in
      let s = a.consistent.sorted in
      record {
        by_alloc = λ addr id count ret i. record {
          consistent = k.by_alloc addr id count ret tt;
          all_set =
              rw (on_alloc-wrapper access_recorder db t addr id count ret tid)
                (tracked-AllSet t.wrapper addr id count ret s a.all_set i);
          balanced = on_alloc-IsBalanced db t addr id count ret s a.all_set tid a.balanced;
        };
        by_alloc_stack = λ addr id count ret i. record {
          consistent = k.by_alloc_stack addr id count ret tt;
          all_set =
              rw (on_alloc_stack-wrapper access_recorder db t addr id count ret tid)
                (tracked-AllSet t.wrapper addr id count ret s a.all_set i);
          balanced = on_alloc_stack-IsBalanced db t addr id count ret s a.all_set tid a.balanced;
        };
        by_alloc_global = λ addr id count ret i. record {
          consistent = k.by_alloc_global addr id count ret tt;
          all_set =
              rw (on_alloc_global-wrapper access_recorder db t addr id count ret)
                (tracked-AllSet t.wrapper addr id count ret s a.all_set i);
          balanced = on_alloc_global-IsBalanced db t addr id count ret s a.all_set a.balanced;
        };
        by_free = λ addr. record {
          consistent = k.by_free addr;
          all_set = on_free_heap-AllSet addr;
          balanced = on_free_heap-IsBalanced tid t addr a.consistent.no_null a.balanced;
        };
        by_leave = λ n le. record {
          consistent = k.by_leave n le;
          all_set = leave-AllSet n;
          balanced = leave-IsBalanced tid t n a.balanced;
        };
        by_omp_heap =
            λ u p. record { consistent = p.consistent; all_set = p.all_set; balanced = p.balanced };
        by_omp_stack =
            λ u p. record { consistent = p.consistent; all_set = p.all_set; balanced = p.balanced };
        by_omp_free =
            λ u p. record { consistent = p.consistent; all_set = p.all_set; balanced = p.balanced };
      }

-- A history that runs to its end and whose allocations have type ids other than -1 keeps this: the
-- allocations counted (heap, stack and global) are the entries of the map, the frees counted (heap
-- and stack), the addresses counted as re-used, and the null addresses, counted with a length or
-- without.
pub run-Accounts :
    (db : TypeDb) (cbs : List (ℕ × Callback)) (rt rt' : Runtime AccessRecorder)
    → AllCallbacks (Allocates IsTypeId) cbs
    → run access_recorder db cbs rt ≡ some rt'
    → Accounts rt.tracker
    → Accounts rt'.tracker
run-Accounts db cbs rt rt' i h a =
    run_kept access_recorder db IsTypeId Accounts (λ tid t ok. Kept-Accounts db tid t ok) cbs rt rt'
      i h a
