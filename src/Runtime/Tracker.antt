-- ===== src/Runtime/Tracker.antt =====
-- lib/runtime/AllocationTracking.cpp and AllocationTracking.h: the allocation callbacks. The log
-- output is left out. The state is what all threads share, and each thread's stack of variables.
pub mod Alloc
pub mod Free
pub mod Leave
pub mod Scope
pub mod Accounting
pub mod Levels
pub mod LevelSteps
use Prim.Native.Nat.{bit_or}
use type_art.Prelude.{
  ℕ, ◌-◌, ◌≡◌, Bool, true, false, not, ◌==◌, if◌then◌else◌, List, [], ◌∷◌, ◌++◌, Option, none, some,
  length, take, drop,
}
use type_art.Prelude.Int.{ℤ, pos, negsuc, ltb_ℤ, to_int}
use type_art.TypeLib.TypeDb.{TypeDb, is_valid}
use type_art.Runtime.PointerMap.{PointerInfo, PointerMap, put, remove, find, remove_range}
use type_art.Runtime.Recorder.{RecorderOps}

-- `AllocState` and `FreeState`, as the bits of their underlying `unsigned`.
abbrev pub no_init : ℕ
no_init = 1

abbrev pub ok_state : ℕ
ok_state = 2

abbrev pub addr_skipped : ℕ
addr_skipped = 4

abbrev pub null_ptr : ℕ
null_ptr = 8

abbrev pub zero_count : ℕ
zero_count = 16

abbrev pub null_zero : ℕ
null_zero = 32

abbrev pub addr_reuse : ℕ
addr_reuse = 64

abbrev pub unknown_id : ℕ
unknown_id = 128

abbrev pub unreg_addr : ℕ
unreg_addr = 16

pub record Tracker (S : Type 0) : Type 0 where
  pub wrapper : PointerMap
  pub recorder : S
  -- `threadData.stackVars` of each thread, the newest entry last
  pub stack_vars : ℕ → List ℕ

abbrev pub set_stack : (ℕ → List ℕ) → ℕ → List ℕ → ℕ → List ℕ
set_stack stacks tid vars t = if tid == t then vars else stacks t

module _ {S : Type 0} (ops : RecorderOps S) where
  -- `doAlloc`, when the address is not null or the count is not 0: the entry is stored.
  unfoldable pub store_alloc : Tracker S → ℕ → ℤ → ℕ → ℕ → ℕ → ℕ × Tracker S
  store_alloc t addr id count ret status =
      let (m, overridden) =
        put t.wrapper addr (record { type_id = id; count = count; debug = ret }) in
      if overridden
      then (
        bit_or (bit_or status addr_reuse) ok_state,
        record t { wrapper = m; recorder = ops.inc_addr_reuse t.recorder },
      )
      else (bit_or status ok_state, record t { wrapper = m })

  unfoldable pub do_alloc : TypeDb → Tracker S → ℕ → ℤ → ℕ → ℕ → ℕ × Tracker S
  unfolding store_alloc
  do_alloc db t addr id count ret =
      let status = if is_valid db id then no_init else bit_or no_init unknown_id in
      if count == 0
      then (let counted = record t { recorder = ops.inc_zero_length_addr t.recorder } in
          let status' = bit_or status zero_count in
          if addr == 0
          then (
            bit_or (bit_or status' null_zero) addr_skipped,
            record counted { recorder = ops.inc_zero_length_and_null_addr counted.recorder },
          )
          else store_alloc counted addr id count ret status')
      else if addr == 0
      then (
        bit_or (bit_or status null_ptr) addr_skipped,
        record t { recorder = ops.inc_null_addr t.recorder },
      )
      else store_alloc t addr id count ret status

  unfoldable pub on_alloc : TypeDb → ℕ → Tracker S → ℕ → ℤ → ℕ → ℕ → Tracker S
  on_alloc db tid t addr id count ret =
      let (status, t') = do_alloc db t addr id count ret in
      if not (status == addr_skipped)
      then record t' { recorder = ops.inc_heap_alloc tid id count t'.recorder }
      else t'

  unfoldable pub on_alloc_stack : TypeDb → ℕ → Tracker S → ℕ → ℤ → ℕ → ℕ → Tracker S
  on_alloc_stack db tid t addr id count ret =
      let (status, t') = do_alloc db t addr id count ret in
      if not (status == addr_skipped)
      then record t' {
        stack_vars = set_stack t'.stack_vars tid (t'.stack_vars tid ++ addr ∷ []);
        recorder = ops.inc_stack_alloc tid id count t'.recorder;
      }
      else t'

  unfoldable pub on_alloc_global : TypeDb → Tracker S → ℕ → ℤ → ℕ → ℕ → Tracker S
  on_alloc_global db t addr id count ret =
      let (status, t') = do_alloc db t addr id count ret in
      if not (status == addr_skipped)
      then record t' { recorder = ops.inc_global_alloc id count t'.recorder }
      else t'

  unfoldable pub do_free_heap : ℕ → Tracker S → ℕ → ℕ × Tracker S
  do_free_heap tid t addr =
      if addr == 0
      then (bit_or addr_skipped null_ptr, t)
      else let (m, removed) = remove t.wrapper addr in
        elim removed [
          | none ↦ (bit_or addr_skipped unreg_addr, record t { wrapper = m })
          | some info ↦ (
            ok_state,
            record t {
              wrapper = m;
              recorder = ops.inc_heap_free tid info.type_id info.count t.recorder;
            },
          )
        ]

  unfoldable pub on_free_heap : ℕ → Tracker S → ℕ → Tracker S
  unfolding do_free_heap
  on_free_heap tid t addr =
      let (status, t') = do_free_heap tid t addr in
      if ok_state == status then record t' { recorder = ops.dec_heap_alloc t'.recorder } else t'

  -- The callback that `onLeaveScope` hands to `remove_range`.
  abbrev pub log_stack_free : ℕ → S → Option PointerInfo → ℕ → S
  log_stack_free tid r none addr = r
  log_stack_free tid r (some removed) addr = ops.inc_stack_free tid removed.type_id removed.count r

  -- The newest `k` variables of the thread leave the map and the stack.
  unfoldable pub leave : ℕ → Tracker S → ℕ → Tracker S
  leave tid t k =
      let vars = t.stack_vars tid in
      let start_pos = length vars - k in
      let (m, r) = remove_range (log_stack_free tid) (drop start_pos vars) t.wrapper t.recorder in
      record t {
        wrapper = m;
        stack_vars = set_stack t.stack_vars tid (take start_pos vars);
        recorder = ops.dec_stack_alloc tid k r;
      }

  -- `none` is undefined behaviour: a negative count, with which the range ends before it starts.
  unfoldable pub on_leave_scope : ℕ → Tracker S → ℤ → Option (Tracker S)
  on_leave_scope tid t alloca_count =
      let size = to_int (length (t.stack_vars tid)) in
      let clamped = if ltb_ℤ size alloca_count then size else alloca_count in
      elim clamped [ pos k ↦ some (leave tid t k) | negsuc k ↦ none ]

  unfoldable pub find_base_alloc : Tracker S → ℕ → Option (ℕ × PointerInfo)
  find_base_alloc t addr = find t.wrapper addr
