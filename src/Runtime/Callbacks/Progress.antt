-- ===== src/Runtime/Callbacks/Progress.antt =====
-- A history runs to its end if no scope is left with a negative count and no stack of variables
-- reaches the limit of an `int`.
use type_art.Prelude.{
  ℕ, ◌+◌, ◌-◌, ◌^◌, ◌≤◌, ◌<◌, ◌≡◌, refl, true, false, ==_iff, ltb, ltb→lt, List, [], ◌∷◌, some, inl,
  inr, Bool-cases, length, length-append, length-take, arith,
}
use type_art.Prelude.Int.{ℤ, pos, negsuc}
use type_art.TypeLib.TypeDb.{TypeDb}
use type_art.Runtime.Recorder.{RecorderOps}
use type_art.Runtime.Tracker.{
  Tracker, on_alloc, on_alloc_stack, on_alloc_global, leave, on_leave_scope,
}
use type_art.Runtime.Tracker.Alloc.{
  on_alloc-stack_vars, on_alloc_global-stack_vars, on_alloc_stack-stack_vars,
}
use type_art.Runtime.Tracker.Free.{on_free_heap-stack_vars}
use type_art.Runtime.Tracker.Scope.{on_leave_scope_le, on_leave_scope_excess}
use type_art.Runtime.Callbacks.{
  Callback, alloc, alloc_stack, alloc_global, alloc_omp, alloc_stack_omp, free, free_omp,
  leave_scope, leave_scope_omp, Runtime, set_scope, body, callback, run,
}
use type_art.Runtime.Callbacks.Runs.{AllCallbacks}

-- The count with which a scope is left is not negative.
abbrev pub LeavesForward : Callback → Type 0
LeavesForward (leave_scope (negsuc k) ret) = ⊥
LeavesForward (leave_scope_omp (negsuc k) ret) = ⊥
LeavesForward _ = Unit

module _ {S : Type 0} (ops : RecorderOps S) (db : TypeDb) (tid : ℕ) (t : Tracker S) where
  -- A tracker whose stacks are at most one variable longer than those of `t`.
  abbrev Grown : Tracker S → Type 0
  Grown t' = (u : ℕ) → length (t'.stack_vars u) ≤ length (t.stack_vars u) + 1

  leave-Grown : (k : ℕ) → Grown (leave ops tid t k)
  unfolding leave
  leave-Grown k u =
      ground (arith, length-take (length (t.stack_vars tid) - k) (t.stack_vars tid), ==_iff tid u)

  on_alloc_stack-Grown :
      (addr : ℕ) (id : ℤ) (count ret : ℕ) → Grown (on_alloc_stack ops db tid t addr id count ret)
  on_alloc_stack-Grown addr id count ret u =
      rw (on_alloc_stack-stack_vars ops db t addr id count ret tid)
        (ground (arith, length-append (t.stack_vars tid) (addr ∷ []), ==_iff tid u))

  on_leave_scope-Grown :
      (k : ℕ)
      → length (t.stack_vars tid) < 2 ^ 31
      → (t' : Tracker S) × (on_leave_scope ops tid t (pos k) ≡ some t') × Grown t'
  on_leave_scope-Grown k small = elim (Bool-cases (ltb (length (t.stack_vars tid)) k)) [
    | inl more ↦ (
      _,
      on_leave_scope_excess ops tid t k (ltb→lt _ _ more) small,
      leave-Grown (length (t.stack_vars tid)),
    )
    | inr fewer ↦ (_, on_leave_scope_le ops tid t k (ground arith) small, leave-Grown k)
  ]

  body-Grown :
      (cb : Callback)
      → LeavesForward cb
      → length (t.stack_vars tid) < 2 ^ 31
      → (t' : Tracker S) × (body ops db tid cb t ≡ some t') × Grown t'
  unfolding body
  body-Grown (alloc addr id count ret) ok small = (
    on_alloc ops db tid t addr id count ret,
    refl,
    λ u. rw (on_alloc-stack_vars ops db t addr id count ret tid) (omega arith),
  )
  body-Grown (alloc_global addr id count ret) ok small = (
    on_alloc_global ops db t addr id count ret,
    refl,
    λ u. rw (on_alloc_global-stack_vars ops db t addr id count ret) (omega arith),
  )
  body-Grown (alloc_stack addr id count ret) ok small =
      (on_alloc_stack ops db tid t addr id count ret, refl, on_alloc_stack-Grown addr id count ret)
  body-Grown (alloc_omp addr id count ret) ok small =
      (_, refl, λ u. rw (on_alloc-stack_vars ops db t addr id count ret tid) (omega arith))
  body-Grown (alloc_stack_omp addr id count ret) ok small =
      (_, refl, on_alloc_stack-Grown addr id count ret)
  body-Grown (free addr ret) ok small =
      (_, refl, λ u. rw (on_free_heap-stack_vars ops tid t addr) (omega arith))
  body-Grown (free_omp addr ret) ok small =
      (_, refl, λ u. rw (on_free_heap-stack_vars ops tid t addr) (omega arith))
  body-Grown (leave_scope (pos k) ret) ok small = on_leave_scope-Grown k small
  body-Grown (leave_scope_omp (pos k) ret) ok small = on_leave_scope-Grown k small
  body-Grown (leave_scope (negsuc k) ret) ok small = absurd ok
  body-Grown (leave_scope_omp (negsuc k) ret) ok small = absurd ok

module _ {S : Type 0} (ops : RecorderOps S) (db : TypeDb) where
  callback-Grown :
      (tid : ℕ) (cb : Callback) (rt : Runtime S)
      → LeavesForward cb
      → length (rt.tracker.stack_vars tid) < 2 ^ 31
      → (rt' : Runtime S) × (callback ops db tid cb rt ≡ some rt')
        × Grown ops db tid rt.tracker rt'.tracker
  unfolding callback
  callback-Grown tid cb rt ok small = elim (Bool-cases (rt.rt_scope tid)) [
    | inl nested ↦ (rt, ground arith, λ u. omega arith)
    | inr outside ↦
        let (t, e, grown) = body-Grown ops db tid rt.tracker cb ok small in
        (
          record { tracker = t; rt_scope = set_scope (set_scope rt.rt_scope tid true) tid false },
          ground arith,
          grown,
        )
  ]

  -- A history of callbacks runs to its end, if no scope is left with a negative count, and if no
  -- thread's stack of variables could reach 2 ^ 31 entries by as many more as there are callbacks.
  pub run-some :
      (cbs : List (ℕ × Callback)) (rt : Runtime S)
      → AllCallbacks LeavesForward cbs
      → ((u : ℕ) → length (rt.tracker.stack_vars u) + length cbs < 2 ^ 31)
      → (rt' : Runtime S) × (run ops db cbs rt ≡ some rt')
  unfolding run
  run-some [] rt ok small = (rt, refl)
  run-some ((tid, cb) ∷ cbs) rt (ok, oks) small =
      let (mid, e, grown) = callback-Grown tid cb rt ok (omega (arith, small tid)) in
      let (rt', f) = run-some cbs mid oks (λ u. omega (arith, small u, grown u)) in
      (rt', ground arith)
