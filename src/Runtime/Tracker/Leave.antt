-- ===== src/Runtime/Tracker/Leave.antt =====
-- Leaving a scope: how many variables `onLeaveScope` drops, and what it leaves in the map.
use type_art.Prelude.{
  ℕ, ◌-◌, ◌≤◌, ◌≡◌, refl, sym, if◌then◌else◌, Option, none, some, some_inj, none-ne-some, length,
  drop, arith,
}
use type_art.Prelude.Int.{ℤ, pos, negsuc, ltb_ℤ, to_int}
use type_art.Runtime.PointerMap.{lookup}
use type_art.Runtime.PointerMap.Order.{IsSorted, remove_range-IsSorted}
use type_art.Runtime.PointerMap.Contents.{contains, lookup-remove_range}
use type_art.Runtime.Recorder.{RecorderOps}
use type_art.Runtime.Tracker.{Tracker, leave, on_leave_scope}

abbrev clamp : ℕ → ℤ → ℤ
clamp size count = if ltb_ℤ (to_int size) count then to_int size else count

clamp_le : (size : ℕ) (count : ℤ) (k : ℕ) → clamp size count ≡ pos k → k ≤ size
clamp_le size count k h = ground arith

module _ {S : Type 0} (ops : RecorderOps S) (tid : ℕ) (t : Tracker S) where
  -- A call that returns has dropped no more variables than the thread has.
  pub on_leave_scope-leave :
      (alloca_count : ℤ) {t' : Tracker S}
      → on_leave_scope ops tid t alloca_count ≡ some t'
      → (k : ℕ) × (k ≤ length (t.stack_vars tid)) × (t' ≡ leave ops tid t k)
  unfolding on_leave_scope
  on_leave_scope-leave alloca_count {t'} h =
      go (clamp (length (t.stack_vars tid)) alloca_count) refl h
    where
      go :
          (c : ℤ)
          → clamp (length (t.stack_vars tid)) alloca_count ≡ c
          → elim c as (λ x. Option (Tracker S)) [
            | pos k ↦ some (leave ops tid t k)
            | negsuc k ↦ none
          ]
            ≡ some t'
          → (k : ℕ) × (k ≤ length (t.stack_vars tid)) × (t' ≡ leave ops tid t k)
      go (pos k) e g = (k, clamp_le (length (t.stack_vars tid)) alloca_count k e, sym (some_inj g))
      go (negsuc k) e g = absurd (none-ne-some g)

  module _ (k : ℕ) where
    pub leave-IsSorted : IsSorted t.wrapper → IsSorted (leave ops tid t k).wrapper
    unfolding leave
    leave-IsSorted s =
        remove_range-IsSorted _ (drop (length (t.stack_vars tid) - k) (t.stack_vars tid)) t.wrapper
          t.recorder s

    -- An address leaves the map exactly if it is among the dropped variables.
    pub lookup-leave :
        (j : ℕ)
        → IsSorted t.wrapper
        → lookup j (leave ops tid t k).wrapper ≡ (
            if contains j (drop (length (t.stack_vars tid) - k) (t.stack_vars tid))
            then none
            else lookup j t.wrapper)
    unfolding leave
    lookup-leave j s =
        lookup-remove_range _ (drop (length (t.stack_vars tid) - k) (t.stack_vars tid)) t.wrapper
          t.recorder j s
