-- ===== src/Runtime/Recorder/Thread.antt =====
-- `ThreadRecorder` of lib/runtime/AccessCounter.h. A counter that only grows is a number; one that
-- can fall is an integer. Counters do not wrap.
use type_art.Prelude.{ℕ, suc, ltb, if◌then◌else◌}
use type_art.Prelude.Int.{ℤ, pos, ltb_ℤ, ◌+ℤ◌, ◌-ℤ◌}

-- `updateMax`, run to its end with no other thread in between.
abbrev pub update_max : ℤ → ℤ → ℤ
update_max prev_max new_val = if ltb_ℤ prev_max new_val then new_val else prev_max

-- `if (count > 1) ++array`
abbrev pub inc_if_array : ℕ → ℕ → ℕ
inc_if_array count n = if ltb 1 count then suc n else n

pub record ThreadRecorder : Type 0 where
  pub heap_allocs : ℕ
  pub heap_array : ℕ
  pub heap_allocs_free : ℕ
  pub heap_array_free : ℕ
  pub stack_allocs : ℕ
  pub cur_stack_allocs : ℤ
  pub max_stack_allocs : ℤ
  pub stack_array : ℕ
  pub stack_allocs_free : ℕ
  pub stack_array_free : ℕ

abbrev pub initial : ThreadRecorder
initial = record {
  heap_allocs = 0;
  heap_array = 0;
  heap_allocs_free = 0;
  heap_array_free = 0;
  stack_allocs = 0;
  cur_stack_allocs = pos 0;
  max_stack_allocs = pos 0;
  stack_array = 0;
  stack_allocs_free = 0;
  stack_array_free = 0;
}

unfoldable pub inc_heap_alloc : ℕ → ThreadRecorder → ThreadRecorder
inc_heap_alloc count t = record t {
  heap_allocs = suc t.heap_allocs;
  heap_array = inc_if_array count t.heap_array;
}

unfoldable pub inc_heap_free : ℕ → ThreadRecorder → ThreadRecorder
inc_heap_free count t = record t {
  heap_allocs_free = suc t.heap_allocs_free;
  heap_array_free = inc_if_array count t.heap_array_free;
}

unfoldable pub inc_stack_alloc : ℕ → ThreadRecorder → ThreadRecorder
inc_stack_alloc count t = record t {
  cur_stack_allocs = t.cur_stack_allocs +ℤ pos 1;
  stack_allocs = suc t.stack_allocs;
  stack_array = inc_if_array count t.stack_array;
}

unfoldable pub inc_stack_free : ℕ → ThreadRecorder → ThreadRecorder
inc_stack_free count t = record t {
  stack_allocs_free = suc t.stack_allocs_free;
  stack_array_free = inc_if_array count t.stack_array_free;
}

unfoldable pub dec_stack_alloc : ℕ → ThreadRecorder → ThreadRecorder
dec_stack_alloc amount t = record t {
  max_stack_allocs = update_max t.max_stack_allocs t.cur_stack_allocs;
  cur_stack_allocs = t.cur_stack_allocs -ℤ pos amount;
}
