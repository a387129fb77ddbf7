-- ===== src/Runtime/Recorder/Access.antt =====
-- `AccessRecorder` of lib/runtime/AccessCounter.h. Each of its locks is held within one operation,
-- so an operation is one step here.
use type_art.Prelude.{ℕ, suc, ◌+◌, ◌==◌, if◌then◌else◌, List, [], ◌∷◌}
use type_art.Prelude.Int.{ℤ, pos, ◌+ℤ◌, ◌-ℤ◌, ◌==ℤ◌}
use type_art.Runtime.Recorder.{RecorderOps}
use type_art.Runtime.Recorder.Thread
use type_art.Runtime.Recorder.Thread.{ThreadRecorder, update_max, inc_if_array}

-- `std::unordered_map<int, Counter>`, and `++map[id]`.
abbrev pub TypeCountMap : Type 0
TypeCountMap = List (ℤ × ℕ)

unfoldable pub count_of : ℤ → TypeCountMap → ℕ
count_of id [] = 0
count_of id ((k, n) ∷ m) = if k ==ℤ id then n else count_of id m

unfoldable pub inc_count : ℤ → TypeCountMap → TypeCountMap
inc_count id [] = (id, 1) ∷ []
inc_count id ((k, n) ∷ m) = if k ==ℤ id then (k, suc n) ∷ m else (k, n) ∷ inc_count id m

-- `std::unordered_set<MemAddr>::insert`
unfoldable pub insert_address : ℕ → List ℕ → List ℕ
insert_address addr [] = addr ∷ []
insert_address addr (a ∷ as') = if a == addr then a ∷ as' else a ∷ insert_address addr as'

-- `std::unordered_map<std::thread::id, ThreadRecorder>`: an operation on `threadRecorders[tid]`.
abbrev pub ThreadRecorderMap : Type 0
ThreadRecorderMap = List (ℕ × ThreadRecorder)

unfoldable pub on_thread :
    (ThreadRecorder → ThreadRecorder) → ℕ → ThreadRecorderMap → ThreadRecorderMap
on_thread f tid [] = (tid, f Thread.initial) ∷ []
on_thread f tid ((k, t) ∷ m) = if k == tid then (k, f t) ∷ m else (k, t) ∷ on_thread f tid m

pub record AccessRecorder : Type 0 where
  pub heap_allocs : ℕ
  pub global_allocs : ℕ
  pub max_heap_allocs : ℤ
  pub cur_heap_allocs : ℤ
  pub addr_reuses : ℕ
  pub addr_missing : ℕ
  pub addr_checked : ℕ
  pub heap_array : ℕ
  pub global_array : ℕ
  pub heap_allocs_free : ℕ
  pub heap_array_free : ℕ
  pub null_alloc : ℕ
  pub zero_alloc : ℕ
  pub null_and_zero_alloc : ℕ
  pub num_udef_types : ℕ
  pub omp_stack : ℕ
  pub omp_heap : ℕ
  pub omp_heap_free : ℕ
  pub thread_recorders : ThreadRecorderMap
  pub missing : List ℕ
  pub seen : List ℕ
  pub stack_alloc : TypeCountMap
  pub heap_alloc : TypeCountMap
  pub global_alloc : TypeCountMap
  pub stack_free : TypeCountMap
  pub heap_free : TypeCountMap

abbrev pub initial : AccessRecorder
initial = record {
  heap_allocs = 0;
  global_allocs = 0;
  max_heap_allocs = pos 0;
  cur_heap_allocs = pos 0;
  addr_reuses = 0;
  addr_missing = 0;
  addr_checked = 0;
  heap_array = 0;
  global_array = 0;
  heap_allocs_free = 0;
  heap_array_free = 0;
  null_alloc = 0;
  zero_alloc = 0;
  null_and_zero_alloc = 0;
  num_udef_types = 0;
  omp_stack = 0;
  omp_heap = 0;
  omp_heap_free = 0;
  thread_recorders = [];
  missing = [];
  seen = [];
  stack_alloc = [];
  heap_alloc = [];
  global_alloc = [];
  stack_free = [];
  heap_free = [];
}

unfoldable pub inc_heap_alloc : ℕ → ℤ → ℕ → AccessRecorder → AccessRecorder
inc_heap_alloc tid id count r =
    let cur = r.cur_heap_allocs +ℤ pos 1 in
    record r {
      cur_heap_allocs = cur;
      max_heap_allocs = update_max r.max_heap_allocs cur;
      heap_allocs = suc r.heap_allocs;
      heap_array = inc_if_array count r.heap_array;
      thread_recorders = on_thread (Thread.inc_heap_alloc count) tid r.thread_recorders;
      heap_alloc = inc_count id r.heap_alloc;
    }

unfoldable pub inc_stack_alloc : ℕ → ℤ → ℕ → AccessRecorder → AccessRecorder
inc_stack_alloc tid id count r = record r {
  thread_recorders = on_thread (Thread.inc_stack_alloc count) tid r.thread_recorders;
  stack_alloc = inc_count id r.stack_alloc;
}

unfoldable pub inc_global_alloc : ℤ → ℕ → AccessRecorder → AccessRecorder
inc_global_alloc id count r = record r {
  global_allocs = suc r.global_allocs;
  global_array = inc_if_array count r.global_array;
  global_alloc = inc_count id r.global_alloc;
}

unfoldable pub inc_stack_free : ℕ → ℤ → ℕ → AccessRecorder → AccessRecorder
inc_stack_free tid id count r = record r {
  thread_recorders = on_thread (Thread.inc_stack_free count) tid r.thread_recorders;
  stack_free = inc_count id r.stack_free;
}

unfoldable pub inc_heap_free : ℕ → ℤ → ℕ → AccessRecorder → AccessRecorder
inc_heap_free tid id count r = record r {
  heap_allocs_free = suc r.heap_allocs_free;
  heap_array_free = inc_if_array count r.heap_array_free;
  thread_recorders = on_thread (Thread.inc_heap_free count) tid r.thread_recorders;
  heap_free = inc_count id r.heap_free;
}

unfoldable pub dec_heap_alloc : AccessRecorder → AccessRecorder
dec_heap_alloc r = record r { cur_heap_allocs = r.cur_heap_allocs -ℤ pos 1 }

unfoldable pub dec_stack_alloc : ℕ → ℕ → AccessRecorder → AccessRecorder
dec_stack_alloc tid amount r = record r {
  thread_recorders = on_thread (Thread.dec_stack_alloc amount) tid r.thread_recorders;
}

unfoldable pub inc_used_in_request : ℕ → AccessRecorder → AccessRecorder
inc_used_in_request addr r = record r {
  addr_checked = suc r.addr_checked;
  seen = insert_address addr r.seen;
}

unfoldable pub inc_addr_missing : ℕ → AccessRecorder → AccessRecorder
inc_addr_missing addr r = record r {
  addr_missing = suc r.addr_missing;
  missing = insert_address addr r.missing;
}

-- The operations that bump one counter stand in the record itself.
abbrev pub access_recorder : RecorderOps AccessRecorder
access_recorder = record {
  inc_heap_alloc = inc_heap_alloc;
  inc_stack_alloc = inc_stack_alloc;
  inc_global_alloc = inc_global_alloc;
  inc_used_in_request = inc_used_in_request;
  dec_heap_alloc = dec_heap_alloc;
  dec_stack_alloc = dec_stack_alloc;
  inc_addr_reuse = λ r. record r { addr_reuses = suc r.addr_reuses };
  inc_addr_missing = inc_addr_missing;
  inc_stack_free = inc_stack_free;
  inc_heap_free = inc_heap_free;
  inc_null_addr = λ r. record r { null_alloc = suc r.null_alloc };
  inc_zero_length_addr = λ r. record r { zero_alloc = suc r.zero_alloc };
  inc_zero_length_and_null_addr = λ r. record r { null_and_zero_alloc = suc r.null_and_zero_alloc };
  inc_udef_types = λ count r. record r { num_udef_types = r.num_udef_types + count };
  inc_omp_context_stack = λ r. record r { omp_stack = suc r.omp_stack };
  inc_omp_context_heap = λ r. record r { omp_heap = suc r.omp_heap };
  inc_omp_context_free = λ r. record r { omp_heap_free = suc r.omp_heap_free };
}

-- The sums and maxima over the threads that the getters return.
unfoldable pub sum_threads : (ThreadRecorder → ℕ) → ThreadRecorderMap → ℕ
sum_threads f [] = 0
sum_threads f ((k, t) ∷ m) = f t + sum_threads f m

abbrev pub get_stack_allocs : AccessRecorder → ℕ
get_stack_allocs r = sum_threads (λ t. t.stack_allocs) r.thread_recorders

abbrev pub get_stack_allocs_free : AccessRecorder → ℕ
get_stack_allocs_free r = sum_threads (λ t. t.stack_allocs_free) r.thread_recorders
