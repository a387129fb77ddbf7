-- ===== src/Runtime/Callbacks/Runs.antt =====
-- Histories of callbacks: induction over the callbacks of a run.
use type_art.Prelude.{
  ℕ, ◌≤◌, length, sym, ◌≡◌, List, [], ◌∷◌, some, inl, inr, Bool-cases, Option-cases, arith, subst,
  some_inj,
}
use type_art.Prelude.Int.{ℤ}
use type_art.TypeLib.TypeDb.{TypeDb}
use type_art.Runtime.Recorder.{RecorderOps}
use type_art.Runtime.Tracker.{
  Tracker, on_alloc, on_alloc_stack, on_alloc_global, on_free_heap, leave, on_leave_scope,
}
use type_art.Runtime.Tracker.Leave.{on_leave_scope-leave}
use type_art.Runtime.Callbacks.{
  Callback, alloc, alloc_stack, alloc_global, alloc_omp, alloc_stack_omp, free, free_omp,
  leave_scope, leave_scope_omp, Runtime, body, callback, run,
}

abbrev pub AllCallbacks : (Callback → Type 0) → List (ℕ × Callback) → Type 0
AllCallbacks Q [] = Unit
AllCallbacks Q ((tid, cb) ∷ cbs) = Q cb × AllCallbacks Q cbs

-- The type ids of a callback's allocations.
abbrev pub Allocates : (ℤ → Type 0) → Callback → Type 0
Allocates I (alloc addr id count ret) = I id
Allocates I (alloc_stack addr id count ret) = I id
Allocates I (alloc_global addr id count ret) = I id
Allocates I (alloc_omp addr id count ret) = I id
Allocates I (alloc_stack_omp addr id count ret) = I id
Allocates I (free addr ret) = Unit
Allocates I (free_omp addr ret) = Unit
Allocates I (leave_scope count ret) = Unit
Allocates I (leave_scope_omp count ret) = Unit

-- A property of trackers that each of the tracker's operations establishes at `t`, and that does
-- not depend on the OpenMP counters.
pub record Kept {S : Type 0} (ops : RecorderOps S) (db : TypeDb) (I : ℤ → Type 0)
    (P : Tracker S → Type 0) (tid : ℕ) (t : Tracker S) : Type 0 where
  pub by_alloc :
      (addr : ℕ) (id : ℤ) (count ret : ℕ) → I id → P (on_alloc ops db tid t addr id count ret)
  pub by_alloc_stack :
      (addr : ℕ) (id : ℤ) (count ret : ℕ) → I id → P (on_alloc_stack ops db tid t addr id count ret)
  pub by_alloc_global :
      (addr : ℕ) (id : ℤ) (count ret : ℕ) → I id → P (on_alloc_global ops db t addr id count ret)
  pub by_free : (addr : ℕ) → P (on_free_heap ops tid t addr)
  pub by_leave : (k : ℕ) → k ≤ length (t.stack_vars tid) → P (leave ops tid t k)
  pub by_omp_heap :
      (u : Tracker S) → P u → P (record u { recorder = ops.inc_omp_context_heap u.recorder })
  pub by_omp_stack :
      (u : Tracker S) → P u → P (record u { recorder = ops.inc_omp_context_stack u.recorder })
  pub by_omp_free :
      (u : Tracker S) → P u → P (record u { recorder = ops.inc_omp_context_free u.recorder })

module _ {S : Type 0} (ops : RecorderOps S) (db : TypeDb) (I : ℤ → Type 0)
    (P : Tracker S → Type 0) where
  leave_scope_kept :
      (tid : ℕ) (t t' : Tracker S) (count : ℤ)
      → Kept ops db I P tid t
      → on_leave_scope ops tid t count ≡ some t'
      → P t'
  leave_scope_kept tid t t' count kept h =
      let (k, le, e) = on_leave_scope-leave ops tid t count h in
      subst P (sym e) (kept.by_leave k le)

  body_kept :
      (tid : ℕ) (cb : Callback) (t t' : Tracker S)
      → Kept ops db I P tid t
      → Allocates I cb
      → body ops db tid cb t ≡ some t'
      → P t'
  unfolding body
  body_kept tid (alloc addr id count ret) t t' kept i h =
      subst P (some_inj h) (kept.by_alloc addr id count ret i)
  body_kept tid (alloc_stack addr id count ret) t t' kept i h =
      subst P (some_inj h) (kept.by_alloc_stack addr id count ret i)
  body_kept tid (alloc_global addr id count ret) t t' kept i h =
      subst P (some_inj h) (kept.by_alloc_global addr id count ret i)
  body_kept tid (alloc_omp addr id count ret) t t' kept i h =
      subst P (some_inj h) (kept.by_omp_heap _ (kept.by_alloc addr id count ret i))
  body_kept tid (alloc_stack_omp addr id count ret) t t' kept i h =
      subst P (some_inj h) (kept.by_omp_stack _ (kept.by_alloc_stack addr id count ret i))
  body_kept tid (free addr ret) t t' kept i h = subst P (some_inj h) (kept.by_free addr)
  body_kept tid (free_omp addr ret) t t' kept i h =
      subst P (some_inj h) (kept.by_omp_free _ (kept.by_free addr))
  body_kept tid (leave_scope count ret) t t' kept i h = leave_scope_kept tid t t' count kept h
  body_kept tid (leave_scope_omp count ret) t t' kept i h = leave_scope_kept tid t t' count kept h

module _ {S : Type 0} (ops : RecorderOps S) (db : TypeDb) where
  -- What every allowed callback keeps, a run of such callbacks keeps.
  pub run_inv {ℓ} :
      (Q : Callback → Type 0) (P : Runtime S → Type ℓ)
      → ((tid : ℕ) (cb : Callback) (rt rt' : Runtime S)
          → Q cb
          → callback ops db tid cb rt ≡ some rt'
          → P rt
          → P rt')
      → (cbs : List (ℕ × Callback)) (rt rt' : Runtime S) → AllCallbacks Q cbs
      → run ops db cbs rt ≡ some rt'
      → P rt
      → P rt'
  unfolding run
  run_inv Q P step [] rt rt' q h p = subst P (some_inj h) p
  run_inv Q P step ((tid, cb) ∷ cbs) rt rt' q h p =
      elim (Option-cases (callback ops db tid cb rt)) [
        | inl e ↦ absurd (ground arith)
        | inr (mid, e) ↦
            run_inv Q P step cbs mid rt' q.1 (rw (e, run) at h) (step tid cb rt mid q.0 e p)
      ]

  -- What the bodies keep of the tracker, a callback keeps.
  pub callback_inv {ℓ} :
      (P : Tracker S → Type ℓ) (tid : ℕ) (cb : Callback) (rt rt' : Runtime S)
      → ((t : Tracker S) → body ops db tid cb rt.tracker ≡ some t → P t)
      → callback ops db tid cb rt ≡ some rt'
      → P rt.tracker
      → P rt'.tracker
  unfolding callback
  callback_inv P tid cb rt rt' keep h p = elim (Bool-cases (rt.rt_scope tid)) [
    | inl nested ↦ subst (λ (x : Runtime S). P x.tracker) (some_inj (rw (nested, callback) at h)) p
    | inr outside ↦ elim (Option-cases (body ops db tid cb rt.tracker)) [
      | inl e ↦ absurd (ground arith)
      | inr (t, e) ↦
          subst (λ (x : Runtime S). P x.tracker) (some_inj (rw (outside, e, callback) at h))
            (keep t e)
    ]
  ]

-- The rule for invariants: what the operations keep of a tracker, every history keeps.
pub run_kept :
    {S : Type 0} (ops : RecorderOps S) (db : TypeDb) (I : ℤ → Type 0) (P : Tracker S → Type 0)
    → ((tid : ℕ) (t : Tracker S) → P t → Kept ops db I P tid t)
    → (cbs : List (ℕ × Callback)) (rt rt' : Runtime S) → AllCallbacks (Allocates I) cbs
    → run ops db cbs rt ≡ some rt'
    → P rt.tracker
    → P rt'.tracker
run_kept ops db I P keep cbs rt rt' =
    run_inv ops db (Allocates I) (λ x. P x.tracker)
      (λ tid cb x x' i e p.
        callback_inv ops db P tid cb x x'
          (λ t b. body_kept ops db I P tid cb x.tracker t (keep tid x.tracker p) i b) e p)
      cbs rt rt'
