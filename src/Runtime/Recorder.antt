-- ===== src/Runtime/Recorder.antt =====
-- lib/runtime/AccessCounter.h: the interface of a recorder, which the tracker and the type queries
-- call, and the recorder that counts nothing. The calling thread's id is an argument of the
-- operations that keep a counter for each thread.
pub mod Thread
pub mod Access
pub mod Sums
pub mod Counts
use type_art.Prelude.{ℕ}
use type_art.Prelude.Int.{ℤ}

pub record RecorderOps (S : Type 0) : Type 0 where
  pub inc_heap_alloc : ℕ → ℤ → ℕ → S → S
  pub inc_stack_alloc : ℕ → ℤ → ℕ → S → S
  pub inc_global_alloc : ℤ → ℕ → S → S
  pub inc_used_in_request : ℕ → S → S
  pub dec_heap_alloc : S → S
  pub dec_stack_alloc : ℕ → ℕ → S → S
  pub inc_addr_reuse : S → S
  pub inc_addr_missing : ℕ → S → S
  pub inc_stack_free : ℕ → ℤ → ℕ → S → S
  pub inc_heap_free : ℕ → ℤ → ℕ → S → S
  pub inc_null_addr : S → S
  pub inc_zero_length_addr : S → S
  pub inc_zero_length_and_null_addr : S → S
  pub inc_udef_types : ℕ → S → S
  pub inc_omp_context_stack : S → S
  pub inc_omp_context_heap : S → S
  pub inc_omp_context_free : S → S

-- `NoneRecorder`: no state, and nothing happens.
abbrev pub none_recorder : RecorderOps (Unit {0})
none_recorder = record {
  inc_heap_alloc = λ tid id count s. s;
  inc_stack_alloc = λ tid id count s. s;
  inc_global_alloc = λ id count s. s;
  inc_used_in_request = λ addr s. s;
  dec_heap_alloc = λ s. s;
  dec_stack_alloc = λ tid amount s. s;
  inc_addr_reuse = λ s. s;
  inc_addr_missing = λ addr s. s;
  inc_stack_free = λ tid id count s. s;
  inc_heap_free = λ tid id count s. s;
  inc_null_addr = λ s. s;
  inc_zero_length_addr = λ s. s;
  inc_zero_length_and_null_addr = λ s. s;
  inc_udef_types = λ count s. s;
  inc_omp_context_stack = λ s. s;
  inc_omp_context_heap = λ s. s;
  inc_omp_context_free = λ s. s;
}
