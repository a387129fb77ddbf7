-- ===== src/Runtime/Recorder/Sums.antt =====
-- The per-thread counters of `AccessRecorder`, summed over the threads.
use type_art.Prelude.{ℕ, ◌+◌, ◌≡◌, ◌==◌, if◌then◌else◌, [], ◌∷◌, arith}
use type_art.Runtime.Recorder.Thread
use type_art.Runtime.Recorder.Thread.{ThreadRecorder}
use type_art.Runtime.Recorder.Access.{ThreadRecorderMap, on_thread, sum_threads}

-- If a counter is 0 at first, an operation that adds `d` to the counter of a thread adds `d` to
-- its sum over all threads.
pub sum_threads-on_thread :
    (f : ThreadRecorder → ℕ) (g : ThreadRecorder → ThreadRecorder) (d tid : ℕ)
    (m : ThreadRecorderMap)
    → f Thread.initial ≡ 0
    → ((t : ThreadRecorder) → f (g t) ≡ f t + d)
    → sum_threads f (on_thread g tid m) ≡ sum_threads f m + d
unfolding sum_threads on_thread
sum_threads-on_thread f g d tid [] z h = omega (arith, h Thread.initial)
sum_threads-on_thread f g d tid ((k, t) ∷ m) z h =
    ground (arith, h t, sum_threads-on_thread f g d tid m z h)

-- What a thread's own recorder is; a thread that never called has an initial one.
unfoldable pub thread_recorder : ℕ → ThreadRecorderMap → ThreadRecorder
thread_recorder tid [] = Thread.initial
thread_recorder tid ((k, t) ∷ m) = if k == tid then t else thread_recorder tid m

pub thread_recorder-on_thread :
    (g : ThreadRecorder → ThreadRecorder) (tid other : ℕ) (m : ThreadRecorderMap)
    → thread_recorder other (on_thread g tid m)
      ≡ (if tid == other then g (thread_recorder tid m) else thread_recorder other m)
unfolding thread_recorder on_thread
thread_recorder-on_thread g tid other [] = ground arith
thread_recorder-on_thread g tid other ((k, t) ∷ m) =
    ground (arith, thread_recorder-on_thread g tid other m)
