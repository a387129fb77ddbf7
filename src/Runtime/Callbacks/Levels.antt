-- ===== src/Runtime/Callbacks/Levels.antt =====
-- The current levels and the maxima of the soft counters, after any history of callbacks.
use type_art.Prelude.{ℕ, ◌≡◌, refl, List, some}
use type_art.TypeLib.TypeDb.{TypeDb}
use type_art.Runtime.Recorder.Access.{AccessRecorder, access_recorder}
use type_art.Runtime.Tracker.{Tracker}
use type_art.Runtime.Tracker.LevelSteps.{
  SameLevels, SameLevels-HeapLevel, Levels, on_alloc-Levels, on_alloc_stack-Levels,
  on_alloc_global-Levels, on_free_heap-Levels, leave-Levels,
}
use type_art.Runtime.Callbacks.{Callback, Runtime, run}
use type_art.Runtime.Callbacks.Runs.{Kept, run_kept}
use type_art.Runtime.Callbacks.Invariant.{IsConsistent, Kept-IsConsistent, any_ids}

pub record ConsistentLevels (t : Tracker AccessRecorder) : Type 0 where
  pub consistent : IsConsistent t.wrapper
  pub levels : Levels t

omp_Levels :
    (t : Tracker AccessRecorder) (r : AccessRecorder)
    → SameLevels t.recorder r
    → ConsistentLevels t
    → ConsistentLevels (record t { recorder = r })
omp_Levels t r same c = record {
  consistent = c.consistent;
  levels = record {
    heap = SameLevels-HeapLevel t.recorder r same c.levels.heap;
    stack = rw same.4 c.levels.stack;
  };
}

Kept-ConsistentLevels :
    (db : TypeDb) (tid : ℕ) (t : Tracker AccessRecorder)
    → ConsistentLevels t
    → Kept access_recorder db (λ id. Unit) ConsistentLevels tid t
Kept-ConsistentLevels db tid t c =
    let k = Kept-IsConsistent access_recorder db tid t c.consistent in
    record {
      by_alloc = λ addr id count ret i. record {
        consistent = k.by_alloc addr id count ret i;
        levels = on_alloc-Levels db tid t c.levels addr id count ret;
      };
      by_alloc_stack = λ addr id count ret i. record {
        consistent = k.by_alloc_stack addr id count ret i;
        levels = on_alloc_stack-Levels db tid t c.levels addr id count ret;
      };
      by_alloc_global = λ addr id count ret i. record {
        consistent = k.by_alloc_global addr id count ret i;
        levels = on_alloc_global-Levels db tid t c.levels addr id count ret;
      };
      by_free = λ addr. record {
        consistent = k.by_free addr;
        levels = on_free_heap-Levels db tid t c.levels c.consistent.no_null addr;
      };
      by_leave = λ n le. record {
        consistent = k.by_leave n le;
        levels = leave-Levels db tid t c.levels n le;
      };
      by_omp_heap = λ u p. omp_Levels u _ (refl, refl, refl, refl, refl) p;
      by_omp_stack = λ u p. omp_Levels u _ (refl, refl, refl, refl, refl) p;
      by_omp_free = λ u p. omp_Levels u _ (refl, refl, refl, refl, refl) p;
    }

-- A history that runs to its end keeps this: the current number of heap allocations is what was
-- counted less what was freed, the maximum is not below it, and each thread's current number of
-- stack allocations is the size of its stack of variables.
pub run-ConsistentLevels :
    (db : TypeDb) (cbs : List (ℕ × Callback)) (rt rt' : Runtime AccessRecorder)
    → run access_recorder db cbs rt ≡ some rt'
    → ConsistentLevels rt.tracker
    → ConsistentLevels rt'.tracker
run-ConsistentLevels db cbs rt rt' h c =
    run_kept access_recorder db (λ id. Unit) ConsistentLevels
      (λ tid t ok. Kept-ConsistentLevels db tid t ok) cbs rt rt' (any_ids cbs) h c
