-- ===== src/Runtime/Callbacks.antt =====
-- The callbacks that instrumented code calls (lib/runtime/CallbackInterface.h, the functions at the
-- end of AllocationTracking.cpp) and their guard, `RTGuard` of Runtime.h.
mod Runs
pub mod Guard
pub mod Invariant
pub mod Totals
pub mod Levels
pub mod Progress
use type_art.Prelude.{ℕ, Bool, true, false, ◌==◌, if◌then◌else◌, List, [], ◌∷◌, Option, none, some}
use type_art.Prelude.Int.{ℤ}
use type_art.TypeLib.TypeDb.{TypeDb}
use type_art.Runtime.Recorder.{RecorderOps}
use type_art.Runtime.Tracker.{
  Tracker, on_alloc, on_alloc_stack, on_alloc_global, on_free_heap, on_leave_scope,
}

-- The last argument of each is the return address, `__builtin_return_address(0)`.
pub data Callback : Type 0 where
  alloc alloc_stack alloc_global alloc_omp alloc_stack_omp : ℕ → ℤ → ℕ → ℕ → Callback
  free free_omp : ℕ → ℕ → Callback
  leave_scope leave_scope_omp : ℤ → ℕ → Callback

-- `rt_scope` is the thread-local flag that is set while a thread is inside the runtime.
pub record Runtime (S : Type 0) : Type 0 where
  pub tracker : Tracker S
  pub rt_scope : ℕ → Bool

abbrev pub set_scope : (ℕ → Bool) → ℕ → Bool → ℕ → Bool
set_scope scopes tid b t = if tid == t then b else scopes t

module _ {S : Type 0} (ops : RecorderOps S) (db : TypeDb) (tid : ℕ) where
  -- What the callback does between the guard's construction and its destruction.
  unfoldable pub body : Callback → Tracker S → Option (Tracker S)
  body (alloc addr id count ret) t = some (on_alloc ops db tid t addr id count ret)
  body (alloc_stack addr id count ret) t = some (on_alloc_stack ops db tid t addr id count ret)
  body (alloc_global addr id count ret) t = some (on_alloc_global ops db t addr id count ret)
  body (free addr ret) t = some (on_free_heap ops tid t addr)
  body (leave_scope alloca_count ret) t = on_leave_scope ops tid t alloca_count
  body (alloc_omp addr id count ret) t =
      let t' = on_alloc ops db tid t addr id count ret in
      some (record t' { recorder = ops.inc_omp_context_heap t'.recorder })
  body (alloc_stack_omp addr id count ret) t =
      let t' = on_alloc_stack ops db tid t addr id count ret in
      some (record t' { recorder = ops.inc_omp_context_stack t'.recorder })
  body (free_omp addr ret) t =
      let t' = on_free_heap ops tid t addr in
      some (record t' { recorder = ops.inc_omp_context_free t'.recorder })
  body (leave_scope_omp alloca_count ret) t = on_leave_scope ops tid t alloca_count

  -- The guard: nothing is tracked if the thread is inside the runtime already. Otherwise the flag
  -- is set for the body, and reset behind it.
  unfoldable pub callback : Callback → Runtime S → Option (Runtime S)
  callback cb rt = if rt.rt_scope tid then some rt else elim (body cb rt.tracker) [
    | none ↦ none
    | some t ↦
        some
          (record { tracker = t; rt_scope = set_scope (set_scope rt.rt_scope tid true) tid false })
  ]

-- A history: callbacks of several threads, in the order in which they take the locks.
unfoldable pub run :
    {S : Type 0} → RecorderOps S → TypeDb → List (ℕ × Callback) → Runtime S → Option (Runtime S)
run ops db [] rt = some rt
run ops db ((tid, cb) ∷ cbs) rt = elim (callback ops db tid cb rt) [
  | none ↦ none
  | some rt' ↦ run ops db cbs rt'
]
