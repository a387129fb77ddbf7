-- ===== src/Runtime/Tracker/LevelSteps.antt =====
-- The current levels and the maxima: every operation of the tracker keeps them.
use type_art.Prelude.{ℕ, ◌-◌, ◌≤◌, ◌≡◌, none, inl, inr, Option-cases, length, drop, arith}
use type_art.Prelude.Int.{ℤ}
use type_art.TypeLib.TypeDb.{TypeDb}
use type_art.Runtime.PointerMap.{lookup, remove_range}
use type_art.Runtime.Recorder.Access
use type_art.Runtime.Recorder.Access.{AccessRecorder, access_recorder}
use type_art.Runtime.Tracker.{
  Tracker, do_alloc, on_alloc, on_alloc_stack, on_alloc_global, on_free_heap, leave, log_stack_free,
}
use type_art.Runtime.Tracker.Alloc.{status_passes, do_alloc-stack_vars}
use type_art.Runtime.Tracker.Free.{on_free_heap_missing, on_free_heap_found}
use type_art.Runtime.Tracker.Levels.{
  HeapLevel, inc_heap_alloc-HeapLevel, free-HeapLevel, log_stack_free-HeapLevel, StackLevel,
  log_stack_free-StackLevel, inc_heap_alloc-StackLevel, free-StackLevel, inc_stack_alloc-StackLevel,
  dec_stack_alloc-StackLevel,
}
use type_art.Runtime.PointerMap.Contents.{remove_range_inv}

-- Both levels, of a tracker.
pub record Levels (t : Tracker AccessRecorder) : Type 0 where
  pub heap : HeapLevel t.recorder
  pub stack : StackLevel t.recorder t.stack_vars

-- The counters that the levels read are those of the other recorder.
abbrev pub SameLevels : AccessRecorder → AccessRecorder → Type 0
SameLevels r r' =
    (r'.cur_heap_allocs ≡ r.cur_heap_allocs)
    × (r'.max_heap_allocs ≡ r.max_heap_allocs)
    × (r'.heap_allocs ≡ r.heap_allocs)
    × (r'.heap_allocs_free ≡ r.heap_allocs_free)
    × (r'.thread_recorders ≡ r.thread_recorders)

pub SameLevels-HeapLevel : (r r' : AccessRecorder) → SameLevels r r' → HeapLevel r → HeapLevel r'
SameLevels-HeapLevel r r' (c, m, a, f, _) h = record {
  current = rw (c, a, f) h.current;
  maximum = rw (c, m) h.maximum;
}

do_alloc-SameLevels :
    (db : TypeDb) (t : Tracker AccessRecorder) (addr : ℕ) (id : ℤ) (count ret : ℕ)
    → SameLevels t.recorder (do_alloc access_recorder db t addr id count ret).1.recorder
unfolding do_alloc
do_alloc-SameLevels db t addr id count ret = ground arith

module _ (db : TypeDb) (tid : ℕ) (t : Tracker AccessRecorder) (l : Levels t) where
  do_alloc-Levels :
      (addr : ℕ) (id : ℤ) (count ret : ℕ)
      → Levels (do_alloc access_recorder db t addr id count ret).1
  do_alloc-Levels addr id count ret =
      let same = do_alloc-SameLevels db t addr id count ret in
      record {
        heap = SameLevels-HeapLevel _ _ same l.heap;
        stack = rw (do_alloc-stack_vars access_recorder db t addr id count ret, same.4) l.stack;
      }

  pub on_alloc-Levels :
      (addr : ℕ) (id : ℤ) (count ret : ℕ)
      → Levels (on_alloc access_recorder db tid t addr id count ret)
  unfolding on_alloc
  on_alloc-Levels addr id count ret =
      let done = do_alloc-Levels addr id count ret in
      rw (status_passes access_recorder db t addr id count ret, on_alloc)
        (record {
          heap = inc_heap_alloc-HeapLevel tid id count _ done.heap;
          stack = inc_heap_alloc-StackLevel _ tid id count _ done.stack;
        })

  pub on_alloc_stack-Levels :
      (addr : ℕ) (id : ℤ) (count ret : ℕ)
      → Levels (on_alloc_stack access_recorder db tid t addr id count ret)
  unfolding on_alloc_stack Access.inc_stack_alloc
  on_alloc_stack-Levels addr id count ret =
      let done = do_alloc-Levels addr id count ret in
      rw (status_passes access_recorder db t addr id count ret, on_alloc_stack)
        (record {
          heap = record { current = done.heap.current; maximum = done.heap.maximum };
          stack =
              inc_stack_alloc-StackLevel _ tid addr id count
                (do_alloc access_recorder db t addr id count ret).1.recorder done.stack;
        })

  pub on_alloc_global-Levels :
      (addr : ℕ) (id : ℤ) (count ret : ℕ)
      → Levels (on_alloc_global access_recorder db t addr id count ret)
  unfolding on_alloc_global Access.inc_global_alloc
  on_alloc_global-Levels addr id count ret =
      let done = do_alloc-Levels addr id count ret in
      rw (status_passes access_recorder db t addr id count ret, on_alloc_global)
        (record {
          heap = record { current = done.heap.current; maximum = done.heap.maximum };
          stack = done.stack;
        })

  pub on_free_heap-Levels :
      lookup 0 t.wrapper ≡ none → (addr : ℕ) → Levels (on_free_heap access_recorder tid t addr)
  on_free_heap-Levels z addr = elim (Option-cases (lookup addr t.wrapper)) [
    | inl e ↦ rw (on_free_heap_missing access_recorder tid t addr e) l
    | inr (info, e) ↦
        rw (on_free_heap_found access_recorder tid t addr info (λ null. cc) e) (record {
          heap = free-HeapLevel tid info.type_id info.count t.recorder l.heap;
          stack = free-StackLevel t.stack_vars tid info.type_id info.count t.recorder l.stack;
        })
  ]

  pub leave-Levels :
      (k : ℕ) → k ≤ length (t.stack_vars tid) → Levels (leave access_recorder tid t k)
  unfolding leave Access.dec_stack_alloc
  leave-Levels k le =
      let vars = drop (length (t.stack_vars tid) - k) (t.stack_vars tid) in
      let after = (remove_range (log_stack_free access_recorder tid) vars t.wrapper t.recorder).1 in
      let heap =
        remove_range_inv HeapLevel (log_stack_free access_recorder tid)
          (log_stack_free-HeapLevel tid) vars t.wrapper t.recorder l.heap in
      let stack =
        remove_range_inv (λ r. StackLevel r t.stack_vars) (log_stack_free access_recorder tid)
          (log_stack_free-StackLevel t.stack_vars tid) vars t.wrapper t.recorder l.stack in
      record {
        heap = record { current = heap.current; maximum = heap.maximum };
        stack = dec_stack_alloc-StackLevel t.stack_vars tid k after le stack;
      }
