-- ===== src/Runtime/Tracker/Levels.antt =====
-- The current levels and the maxima that the soft counters keep.
use type_art.Prelude.{
  ℕ, ◌-◌, ◌≤◌, ◌≡◌, List, [], ◌∷◌, ◌++◌, Option, none, some, ==_iff, length, length-append,
  length-take, take, arith,
}
use type_art.Prelude.Int.{ℤ, pos, ◌+ℤ◌, ◌-ℤ◌, ◌≤ℤ◌}
use type_art.Runtime.PointerMap.{PointerInfo}
use type_art.Runtime.Recorder.Thread
use type_art.Runtime.Recorder.Access
use type_art.Runtime.Recorder.Access.{AccessRecorder, access_recorder}
use type_art.Runtime.Recorder.Sums.{thread_recorder, thread_recorder-on_thread}
use type_art.Runtime.Tracker.{set_stack, log_stack_free}

-- The current number of heap allocations is what was counted less what was freed, and the maximum
-- is never below it.
pub record HeapLevel (r : AccessRecorder) : Type 0 where
  pub current : r.cur_heap_allocs +ℤ pos r.heap_allocs_free ≡ pos r.heap_allocs
  pub maximum : r.cur_heap_allocs ≤ℤ r.max_heap_allocs

pub inc_heap_alloc-HeapLevel :
    (tid : ℕ) (id : ℤ) (count : ℕ) (r : AccessRecorder)
    → HeapLevel r
    → HeapLevel (Access.inc_heap_alloc tid id count r)
unfolding Access.inc_heap_alloc ◌+ℤ◌
inc_heap_alloc-HeapLevel tid id count r h = ground arith

pub free-HeapLevel :
    (tid : ℕ) (id : ℤ) (count : ℕ) (r : AccessRecorder)
    → HeapLevel r
    → HeapLevel (Access.dec_heap_alloc (Access.inc_heap_free tid id count r))
unfolding Access.dec_heap_alloc Access.inc_heap_free ◌+ℤ◌ ◌-ℤ◌
free-HeapLevel tid id count r h = ground arith

pub log_stack_free-HeapLevel :
    (tid : ℕ) (r : AccessRecorder) (removed : Option PointerInfo) (addr : ℕ)
    → HeapLevel r
    → HeapLevel (log_stack_free access_recorder tid r removed addr)
unfolding Access.inc_stack_free
log_stack_free-HeapLevel tid r none addr h = h
log_stack_free-HeapLevel tid r (some info) addr h = record {
  current = h.current;
  maximum = h.maximum;
}

-- A thread's current number of stack allocations is the size of its stack.
abbrev pub StackLevel : AccessRecorder → (ℕ → List ℕ) → Type 0
StackLevel r stacks =
    (u : ℕ) → (thread_recorder u r.thread_recorders).cur_stack_allocs ≡ pos (length (stacks u))

pub log_stack_free-StackLevel :
    (stacks : ℕ → List ℕ) (tid : ℕ) (r : AccessRecorder) (removed : Option PointerInfo) (addr : ℕ)
    → StackLevel r stacks
    → StackLevel (log_stack_free access_recorder tid r removed addr) stacks
unfolding Access.inc_stack_free Thread.inc_stack_free
log_stack_free-StackLevel stacks tid r none addr h u = h u
log_stack_free-StackLevel stacks tid r (some info) addr h u = ground (
  arith,
  h u,
  h tid,
  ==_iff tid u,
  thread_recorder-on_thread (Thread.inc_stack_free info.count) tid u r.thread_recorders,
)

pub inc_heap_alloc-StackLevel :
    (stacks : ℕ → List ℕ) (tid : ℕ) (id : ℤ) (count : ℕ) (r : AccessRecorder)
    → StackLevel r stacks
    → StackLevel (Access.inc_heap_alloc tid id count r) stacks
unfolding Access.inc_heap_alloc Thread.inc_heap_alloc
inc_heap_alloc-StackLevel stacks tid id count r h u = ground (
  arith,
  h u,
  h tid,
  ==_iff tid u,
  thread_recorder-on_thread (Thread.inc_heap_alloc count) tid u r.thread_recorders,
)

pub free-StackLevel :
    (stacks : ℕ → List ℕ) (tid : ℕ) (id : ℤ) (count : ℕ) (r : AccessRecorder)
    → StackLevel r stacks
    → StackLevel (Access.dec_heap_alloc (Access.inc_heap_free tid id count r)) stacks
unfolding Access.dec_heap_alloc Access.inc_heap_free Thread.inc_heap_free
free-StackLevel stacks tid id count r h u = ground (
  arith,
  h u,
  h tid,
  ==_iff tid u,
  thread_recorder-on_thread (Thread.inc_heap_free count) tid u r.thread_recorders,
)

pub inc_stack_alloc-StackLevel :
    (stacks : ℕ → List ℕ) (tid addr : ℕ) (id : ℤ) (count : ℕ) (r : AccessRecorder)
    → StackLevel r stacks
    → StackLevel
        (Access.inc_stack_alloc tid id count r)
        (set_stack stacks tid (stacks tid ++ addr ∷ []))
unfolding Access.inc_stack_alloc Thread.inc_stack_alloc ◌+ℤ◌
inc_stack_alloc-StackLevel stacks tid addr id count r h u = ground (
  arith,
  h u,
  h tid,
  ==_iff tid u,
  length-append (stacks tid) (addr ∷ []),
  thread_recorder-on_thread (Thread.inc_stack_alloc count) tid u r.thread_recorders,
)

pub dec_stack_alloc-StackLevel :
    (stacks : ℕ → List ℕ) (tid k : ℕ) (r : AccessRecorder)
    → k ≤ length (stacks tid)
    → StackLevel r stacks
    → StackLevel
        (Access.dec_stack_alloc tid k r)
        (set_stack stacks tid (take (length (stacks tid) - k) (stacks tid)))
unfolding Access.dec_stack_alloc Thread.dec_stack_alloc ◌-ℤ◌
dec_stack_alloc-StackLevel stacks tid k r le h u = ground (
  arith,
  h u,
  h tid,
  ==_iff tid u,
  length-take (length (stacks tid) - k) (stacks tid),
  thread_recorder-on_thread (Thread.dec_stack_alloc k) tid u r.thread_recorders,
)
