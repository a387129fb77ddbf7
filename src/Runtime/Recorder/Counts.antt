-- ===== src/Runtime/Recorder/Counts.antt =====
-- What each operation of `AccessRecorder` adds to the totals of allocations and frees.
use type_art.Prelude.{ℕ, ◌+◌, ◌≡◌, refl, arith}
use type_art.Prelude.Int.{ℤ}
use type_art.Runtime.Recorder.Thread
use type_art.Runtime.Recorder.Thread.{ThreadRecorder}
use type_art.Runtime.Recorder.Access.{
  AccessRecorder, ThreadRecorderMap, on_thread, sum_threads, inc_heap_alloc, inc_stack_alloc,
  inc_global_alloc, inc_stack_free, inc_heap_free, dec_heap_alloc, dec_stack_alloc,
  get_stack_allocs, get_stack_allocs_free,
}
use type_art.Runtime.Recorder.Sums.{sum_threads-on_thread}

-- Counted allocations, counted frees, and allocations that made no new entry.
abbrev pub allocs_counted : AccessRecorder → ℕ
allocs_counted r = r.heap_allocs + get_stack_allocs r + r.global_allocs

abbrev pub frees_counted : AccessRecorder → ℕ
frees_counted r = r.heap_allocs_free + get_stack_allocs_free r

abbrev pub skips_counted : AccessRecorder → ℕ
skips_counted r = r.addr_reuses + r.null_alloc + r.null_and_zero_alloc

-- `r'` has counted `a` more allocations and `f` more frees than `r`.
abbrev pub Counts : ℕ → ℕ → AccessRecorder → AccessRecorder → Type 0
Counts a f r r' =
    (allocs_counted r' ≡ allocs_counted r + a)
    × (frees_counted r' ≡ frees_counted r + f)
    × (skips_counted r' ≡ skips_counted r)

-- How an operation on the calling thread's counters changes the two sums over all threads.
stack_sums :
    (g : ThreadRecorder → ThreadRecorder) (a f tid : ℕ) (m : ThreadRecorderMap)
    → ((t : ThreadRecorder)
        → ((g t).stack_allocs ≡ t.stack_allocs + a)
          × ((g t).stack_allocs_free ≡ t.stack_allocs_free + f))
    → (sum_threads (λ t. t.stack_allocs) (on_thread g tid m)
        ≡ sum_threads (λ t. t.stack_allocs) m + a)
      × (sum_threads (λ t. t.stack_allocs_free) (on_thread g tid m)
          ≡ sum_threads (λ t. t.stack_allocs_free) m + f)
stack_sums g a f tid m h = (
  sum_threads-on_thread (λ t. t.stack_allocs) g a tid m refl (λ t. (h t).0),
  sum_threads-on_thread (λ t. t.stack_allocs_free) g f tid m refl (λ t. (h t).1),
)

pub inc_heap_alloc-Counts :
    (tid : ℕ) (id : ℤ) (count : ℕ) (r : AccessRecorder)
    → Counts 1 0 r (inc_heap_alloc tid id count r)
unfolding inc_heap_alloc Thread.inc_heap_alloc
inc_heap_alloc-Counts tid id count r =
    let sums =
      stack_sums (Thread.inc_heap_alloc count) 0 0 tid r.thread_recorders (λ t. omega arith) in
    (omega arith, omega arith, omega arith)

pub inc_stack_alloc-Counts :
    (tid : ℕ) (id : ℤ) (count : ℕ) (r : AccessRecorder)
    → Counts 1 0 r (inc_stack_alloc tid id count r)
unfolding inc_stack_alloc Thread.inc_stack_alloc
inc_stack_alloc-Counts tid id count r =
    let sums =
      stack_sums (Thread.inc_stack_alloc count) 1 0 tid r.thread_recorders (λ t. omega arith) in
    (omega arith, omega arith, omega arith)

pub inc_stack_free-Counts :
    (tid : ℕ) (id : ℤ) (count : ℕ) (r : AccessRecorder)
    → Counts 0 1 r (inc_stack_free tid id count r)
unfolding inc_stack_free Thread.inc_stack_free
inc_stack_free-Counts tid id count r =
    let sums =
      stack_sums (Thread.inc_stack_free count) 0 1 tid r.thread_recorders (λ t. omega arith) in
    (omega arith, omega arith, omega arith)

pub inc_heap_free-Counts :
    (tid : ℕ) (id : ℤ) (count : ℕ) (r : AccessRecorder)
    → Counts 0 1 r (inc_heap_free tid id count r)
unfolding inc_heap_free Thread.inc_heap_free
inc_heap_free-Counts tid id count r =
    let sums =
      stack_sums (Thread.inc_heap_free count) 0 0 tid r.thread_recorders (λ t. omega arith) in
    (omega arith, omega arith, omega arith)

pub dec_stack_alloc-Counts :
    (tid amount : ℕ) (r : AccessRecorder) → Counts 0 0 r (dec_stack_alloc tid amount r)
unfolding dec_stack_alloc Thread.dec_stack_alloc
dec_stack_alloc-Counts tid amount r =
    let sums =
      stack_sums (Thread.dec_stack_alloc amount) 0 0 tid r.thread_recorders (λ t. omega arith) in
    (omega arith, omega arith, omega arith)

pub inc_global_alloc-Counts :
    (id : ℤ) (count : ℕ) (r : AccessRecorder) → Counts 1 0 r (inc_global_alloc id count r)
unfolding inc_global_alloc
inc_global_alloc-Counts id count r = omega arith

pub dec_heap_alloc-Counts : (r : AccessRecorder) → Counts 0 0 r (dec_heap_alloc r)
unfolding dec_heap_alloc
dec_heap_alloc-Counts r = omega arith
