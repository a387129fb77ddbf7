-- ===== src/Runtime/Callbacks/Guard.antt =====
-- The guard of the callbacks: allocations that the runtime itself makes are not tracked, and the
-- flag is as before when a callback returns.
use type_art.Prelude.{ℕ, ◌≡◌, refl, ◌∙◌, true, false, List, [], ◌∷◌, some, ==_iff, arith}
use type_art.TypeLib.TypeDb.{TypeDb}
use type_art.Runtime.Recorder.{RecorderOps}
use type_art.Runtime.Tracker.{Tracker}
use type_art.Runtime.Callbacks.{Callback, Runtime, set_scope, body, callback, run}
use type_art.Runtime.Callbacks.Runs.{AllCallbacks, run_inv}

all_allowed : (cbs : List (ℕ × Callback)) → AllCallbacks (λ cb. Unit {0}) cbs
all_allowed [] = tt
all_allowed ((tid, cb) ∷ cbs) = (tt, all_allowed cbs)

module _ {S : Type 0} (ops : RecorderOps S) (db : TypeDb) where
  -- Inside the runtime a callback does nothing.
  pub callback_nested :
      (tid : ℕ) (cb : Callback) (rt : Runtime S)
      → rt.rt_scope tid ≡ true
      → callback ops db tid cb rt ≡ some rt
  unfolding callback
  callback_nested tid cb rt h = rw (h, callback)

  -- Outside it runs its body.
  pub callback_outside :
      (tid : ℕ) (cb : Callback) (rt : Runtime S) {t : Tracker S}
      → rt.rt_scope tid ≡ false
      → body ops db tid cb rt.tracker ≡ some t
      → callback ops db tid cb rt
        ≡ some (record {
          tracker = t;
          rt_scope = set_scope (set_scope rt.rt_scope tid true) tid false;
        })
  unfolding callback
  callback_outside tid cb rt h e = rw (h, e, callback)

  callback-rt_scope :
      (tid : ℕ) (cb : Callback) (rt rt' : Runtime S) (other : ℕ)
      → callback ops db tid cb rt ≡ some rt'
      → rt'.rt_scope other ≡ rt.rt_scope other
  unfolding callback
  callback-rt_scope tid cb rt rt' other h = ground (arith, ==_iff tid other)

  -- After a history that runs to its end each thread's flag is as it was before.
  pub run-rt_scope :
      (cbs : List (ℕ × Callback)) (rt rt' : Runtime S) (other : ℕ)
      → run ops db cbs rt ≡ some rt'
      → rt'.rt_scope other ≡ rt.rt_scope other
  run-rt_scope cbs rt rt' other h =
      run_inv ops db (λ cb. Unit {0}) (λ x. x.rt_scope other ≡ rt.rt_scope other)
        (λ tid cb x x' _ e same. callback-rt_scope tid cb x x' other e ∙ same) cbs rt rt'
        (all_allowed cbs) h refl
