-- ===== src/Tests/Allocations.antt =====
-- Allocations, frees and scopes of a small program.
use type_art.Prelude.{ℕ, ◌≡◌, ◌≢◌, refl, List, [], ◌∷◌, some, arith}
use type_art.Prelude.Int.{pos}
use type_art.Runtime.PointerMap.{PointerInfo, PointerMap, lookup, put, find, remove}
use type_art.Runtime.PointerMap.Order.{IsSorted, empty-IsSorted, lookup_empty}
use type_art.Runtime.PointerMap.Floor.{IsFloor, find-IsFloor}
use type_art.Runtime.PointerMap.Contents.{lookup-put, lookup-remove}
use type_art.Runtime.Recorder.Access.{
  AccessRecorder, access_recorder, count_of, inc_count, on_thread, sum_threads,
}
use type_art.Runtime.Recorder.Access
use type_art.Runtime.Tracker.{
  Tracker, addr_skipped, do_alloc, on_alloc, on_free_heap, on_leave_scope,
}
use type_art.Runtime.Tracker.Alloc.{alloc_status, do_alloc-status, do_alloc-ne-addr_skipped}
use type_art.Runtime.Tracker.Free.{on_free_heap-on_alloc, on_free_heap_twice}
use type_art.Runtime.Tracker.Scope.{Variable, enter, on_leave_scope-enter}
use type_art.Tests.Data.{types}

abbrev heap_info : PointerInfo
heap_info = record { type_id = pos 257; count = 4; debug = 77 }

abbrev stack_info : PointerInfo
stack_info = record { type_id = pos 2; count = 1; debug = 78 }

abbrev two_entries : PointerMap
two_entries = (4096, heap_info) ∷ (8192, stack_info) ∷ []

two_entries-IsSorted : IsSorted two_entries
two_entries-IsSorted = (omega arith, (omega arith, tt))

find-IsFloor_example : IsFloor two_entries 5000 (find two_entries 5000)
find-IsFloor_example = find-IsFloor two_entries 5000 two_entries-IsSorted

lookup-put_example : lookup 4096 (put two_entries 4096 stack_info).0 ≡ some stack_info
lookup-put_example = lookup-put two_entries 4096 4096 stack_info two_entries-IsSorted

lookup-remove_example : lookup 8192 (remove two_entries 4096).0 ≡ lookup 8192 two_entries
lookup-remove_example = lookup-remove two_entries 4096 8192 two_entries-IsSorted

abbrev tracker : Tracker AccessRecorder
tracker = record { wrapper = []; recorder = Access.initial; stack_vars = λ t. [] }

do_alloc-status_example :
    (do_alloc access_recorder types tracker 4096 (pos 257) 4 77).0
    ≡ alloc_status types [] 4096 (pos 257) 4
do_alloc-status_example =
    do_alloc-status access_recorder types tracker 4096 (pos 257) 4 77 empty-IsSorted

do_alloc-ne-addr_skipped_example :
    (do_alloc access_recorder types tracker 0 (pos 257) 4 77).0 ≢ addr_skipped
do_alloc-ne-addr_skipped_example =
    do_alloc-ne-addr_skipped access_recorder types tracker 0 (pos 257) 4 77

on_free_heap-on_alloc_example :
    (on_free_heap access_recorder 0
      (on_alloc access_recorder types 0 tracker 4096 (pos 257) 4 77)
      4096).wrapper
    ≡ []
on_free_heap-on_alloc_example =
    on_free_heap-on_alloc access_recorder types 0 tracker 4096 (pos 257) 4 77 empty-IsSorted
      (lookup_empty 4096) (lookup_empty 0)

abbrev filled : Tracker AccessRecorder
filled = record { wrapper = two_entries; recorder = Access.initial; stack_vars = λ t. [] }

on_free_heap_twice_example :
    on_free_heap access_recorder 0 (on_free_heap access_recorder 0 filled 4096) 4096
    ≡ on_free_heap access_recorder 0 filled 4096
unfolding lookup
on_free_heap_twice_example =
    on_free_heap_twice access_recorder 0 filled 4096 two_entries-IsSorted refl

abbrev variables : List Variable
variables =
    (record { addr = 16384; type_id = pos 2; count = 1; ret = 78 })
    ∷ (record { addr = 12288; type_id = pos 6; count = 3; ret = 79 })
    ∷ []

on_leave_scope-enter_example :
    (t' : Tracker AccessRecorder) × (on_leave_scope access_recorder 0
        (enter access_recorder types 0 variables filled)
        (pos 2)
      ≡ some t')
    × (t'.wrapper ≡ two_entries)
    × ((other : ℕ) → t'.stack_vars other ≡ [])
unfolding lookup
on_leave_scope-enter_example =
    on_leave_scope-enter access_recorder types 0 filled variables two_entries-IsSorted
      (refl, (refl, tt)) (omega arith)
