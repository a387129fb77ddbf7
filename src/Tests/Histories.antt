-- ===== src/Tests/Histories.antt =====
-- A history of callbacks: a heap block, a stack variable, the end of the scope, the free.
use type_art.Prelude.{
  ℕ, ◌≡◌, refl, false, true, List, [], ◌∷◌, some, none-ne-some, sym, ◌∙◌, arith, Bool,
}
use type_art.Prelude.Int.{pos, ◌+ℤ◌}
use type_art.TypeLib.TypeDb.{is_valid, find_id, register_struct, insert_id}
use type_art.Runtime.PointerMap.{lookup, subscript, assign, put}
use type_art.Runtime.PointerMap.Order.{empty-IsSorted, lookup_empty}
use type_art.Runtime.Recorder.Sums.{thread_recorder}
use type_art.Runtime.Recorder.Access.{AccessRecorder, access_recorder, on_thread, sum_threads}
use type_art.Runtime.Recorder.Access
use type_art.Runtime.Tracker.{
  Tracker, on_alloc, on_alloc_stack, on_free_heap, leave, on_leave_scope, do_alloc, store_alloc,
}
use type_art.Runtime.Callbacks.{
  Callback, alloc, alloc_stack, free, leave_scope, Runtime, set_scope, body, callback, run,
}
use type_art.Runtime.Callbacks.Guard.{run-rt_scope}
use type_art.Runtime.Callbacks.Invariant.{IsConsistent, run-IsConsistent}
use type_art.Runtime.Callbacks.Totals.{Accounts, run-Accounts}
use type_art.Runtime.Callbacks.Levels.{ConsistentLevels, run-ConsistentLevels}
use type_art.Runtime.Callbacks.Progress.{run-some}
use type_art.Tests.Data.{types}

abbrev start : Runtime AccessRecorder
start = record {
  tracker = record { wrapper = []; recorder = Access.initial; stack_vars = λ t. [] };
  rt_scope = λ t. false;
}

abbrev history : List (ℕ × Callback)
history =
    (0, alloc 4096 (pos 257) 4 77)
    ∷ (0, alloc_stack 16384 (pos 2) 1 78)
    ∷ (0, leave_scope (pos 1) 79)
    ∷ (0, free 4096 80)
    ∷ []

abbrev end_tracker : Tracker AccessRecorder
end_tracker =
    on_free_heap access_recorder 0
      (leave access_recorder 0
        (on_alloc_stack access_recorder types 0
          (on_alloc access_recorder types 0 start.tracker 4096 (pos 257) 4 77) 16384 (pos 2) 1 78)
        1)
      4096

abbrev reset : (ℕ → Bool) → ℕ → Bool
reset f = set_scope (set_scope f 0 true) 0 false

abbrev end : Runtime AccessRecorder
end = record { tracker = end_tracker; rt_scope = reset (reset (reset (reset start.rt_scope))) }

history_runs : run access_recorder types history start ≡ some end
unfolding run callback body on_leave_scope on_alloc on_alloc_stack do_alloc store_alloc put lookup
    subscript assign is_valid find_id register_struct insert_id
history_runs = refl

start-IsConsistent : IsConsistent start.tracker.wrapper
start-IsConsistent = record { sorted = empty-IsSorted; no_null = lookup_empty 0 }

start-Accounts : Accounts start.tracker
unfolding sum_threads
start-Accounts = record {
  consistent = start-IsConsistent;
  all_set = λ k v h. absurd (none-ne-some (sym (lookup_empty k) ∙ h));
  balanced = refl;
}

start-ConsistentLevels : ConsistentLevels start.tracker
unfolding thread_recorder ◌+ℤ◌
start-ConsistentLevels = record {
  consistent = start-IsConsistent;
  levels = record { heap = record { current = refl; maximum = ground arith }; stack = λ u. refl };
}

run-IsConsistent_example : IsConsistent end.tracker.wrapper
run-IsConsistent_example =
    run-IsConsistent access_recorder types history start end history_runs start-IsConsistent

run-Accounts_example : Accounts end.tracker
run-Accounts_example =
    run-Accounts types history start end (refl, (refl, (tt, (tt, tt)))) history_runs start-Accounts

run-ConsistentLevels_example : ConsistentLevels end.tracker
run-ConsistentLevels_example =
    run-ConsistentLevels types history start end history_runs start-ConsistentLevels

run-rt_scope_example : end.rt_scope 0 ≡ false
run-rt_scope_example = run-rt_scope access_recorder types history start end 0 history_runs

run-some_example :
    (rt' : Runtime AccessRecorder) × (run access_recorder types history start ≡ some rt')
run-some_example =
    run-some access_recorder types history start (tt, (tt, (tt, (tt, tt)))) (λ u. omega arith)
