-- ===== src/Runtime/Tracker/Accounting.antt =====
-- The soft counters of an `AccessRecorder` account for every entry of the map.
use type_art.Prelude.{
  ℕ, ◌+◌, ◌-◌, ◌≡◌, refl, ap, ◌∙◌, true, false, List, [], ◌∷◌, Option, none, some, inl, inr,
  Option-cases, length, drop, arith,
}
use type_art.Prelude.Int.{ℤ, negsuc, ◌==ℤ◌}
use type_art.TypeLib.TypeDb.{TypeDb}
use type_art.Runtime.PointerMap.{PointerInfo, PointerMap, lookup, was_set, remove, remove_range}
use type_art.Runtime.PointerMap.Order.{IsSorted}
use type_art.Runtime.PointerMap.Contents.{
  put-overridden, length-put, removed-lookup, length-removals, removals,
}
use type_art.Runtime.Recorder.Access
use type_art.Runtime.Recorder.Access.{
  AccessRecorder, access_recorder, get_stack_allocs, get_stack_allocs_free,
}
use type_art.Runtime.Recorder.Counts.{
  allocs_counted, frees_counted, skips_counted, Counts, inc_heap_alloc-Counts,
  inc_stack_alloc-Counts, inc_global_alloc-Counts, inc_stack_free-Counts, inc_heap_free-Counts,
  dec_stack_alloc-Counts, dec_heap_alloc-Counts,
}
use type_art.Runtime.Tracker.Alloc.{status_passes}
use type_art.Runtime.Tracker.Free.{on_free_heap_missing, on_free_heap_found}
use type_art.Runtime.Tracker.{
  Tracker, do_alloc, on_alloc, on_alloc_stack, on_alloc_global, on_free_heap, leave, log_stack_free,
}

-- No entry has the type id -1, by which `put` tells an entry that was never set.
abbrev pub AllSet : PointerMap → Type 0
AllSet m = (k : ℕ) (v : PointerInfo) → lookup k m ≡ some v → (v.type_id ==ℤ negsuc 0) ≡ false

abbrev pub IsBalanced : Tracker AccessRecorder → Type 0
IsBalanced t =
    allocs_counted t.recorder
    ≡ length t.wrapper + frees_counted t.recorder + skips_counted t.recorder

was_set-AllSet :
    (m : PointerMap) (addr : ℕ)
    → AllSet m
    → was_set (lookup addr m) ≡ elim (lookup addr m) [ none ↦ false | some _ ↦ true ]
was_set-AllSet m addr h = elim (Option-cases (lookup addr m)) [
  | inl e ↦ rw e
  | inr (v, e) ↦ rw (e, h addr v e)
]

module _ (db : TypeDb) (t : Tracker AccessRecorder) (addr : ℕ) (id : ℤ) (count ret : ℕ)
    (s : IsSorted t.wrapper) (set : AllSet t.wrapper) where
  -- Every call of `doAlloc` makes an entry or counts why it made none.
  pub do_alloc-accounts :
      let t' = (do_alloc access_recorder db t addr id count ret).1 in
      (length t'.wrapper + skips_counted t'.recorder
        ≡ length t.wrapper + skips_counted t.recorder + 1)
      × (allocs_counted t'.recorder ≡ allocs_counted t.recorder)
      × (frees_counted t'.recorder ≡ frees_counted t.recorder)
  unfolding do_alloc
  do_alloc-accounts =
      let d : PointerInfo = record { type_id = id; count = count; debug = ret } in
      ground (
        arith,
        put-overridden t.wrapper addr d s,
        length-put t.wrapper addr d s,
        was_set-AllSet t.wrapper addr set,
      )

  pub on_alloc-IsBalanced :
      (tid : ℕ) → IsBalanced t → IsBalanced (on_alloc access_recorder db tid t addr id count ret)
  unfolding on_alloc
  on_alloc-IsBalanced tid b =
      let t' = (do_alloc access_recorder db t addr id count ret).1 in
      rw (status_passes access_recorder db t addr id count ret, on_alloc)
        (omega (arith, do_alloc-accounts, inc_heap_alloc-Counts tid id count t'.recorder))

  pub on_alloc_stack-IsBalanced :
      (tid : ℕ)
      → IsBalanced t
      → IsBalanced (on_alloc_stack access_recorder db tid t addr id count ret)
  unfolding on_alloc_stack
  on_alloc_stack-IsBalanced tid b =
      let t' = (do_alloc access_recorder db t addr id count ret).1 in
      rw (status_passes access_recorder db t addr id count ret, on_alloc_stack)
        (omega (arith, do_alloc-accounts, inc_stack_alloc-Counts tid id count t'.recorder))

  pub on_alloc_global-IsBalanced :
      IsBalanced t → IsBalanced (on_alloc_global access_recorder db t addr id count ret)
  unfolding on_alloc_global
  on_alloc_global-IsBalanced b =
      let t' = (do_alloc access_recorder db t addr id count ret).1 in
      rw (status_passes access_recorder db t addr id count ret, on_alloc_global)
        (omega (arith, do_alloc-accounts, inc_global_alloc-Counts id count t'.recorder))

log_stack_free-Counts :
    (tid : ℕ) (r : AccessRecorder) (removed : Option PointerInfo) (addr : ℕ)
    → Counts 0 (removals removed) r (log_stack_free access_recorder tid r removed addr)
log_stack_free-Counts tid r none addr = omega arith
log_stack_free-Counts tid r (some info) addr = inc_stack_free-Counts tid info.type_id info.count r

-- A range of removals counts one stack free for each entry that it takes out.
remove_range-accounts :
    (tid : ℕ) (as' : List ℕ) (m : PointerMap) (r : AccessRecorder)
    → let after = remove_range (log_stack_free access_recorder tid) as' m r in
      (length after.0 + frees_counted after.1 ≡ length m + frees_counted r)
      × (allocs_counted after.1 ≡ allocs_counted r)
      × (skips_counted after.1 ≡ skips_counted r)
unfolding remove_range
remove_range-accounts tid [] m r = (refl, refl, refl)
remove_range-accounts tid (a ∷ as') m r =
    let r' = log_stack_free access_recorder tid r (remove m a).1 a in
    let here = log_stack_free-Counts tid r (remove m a).1 a in
    let rest = remove_range-accounts tid as' (remove m a).0 r' in
    let entries = length-removals m a in (omega arith, omega arith, omega arith)

pub leave-IsBalanced :
    (tid : ℕ) (t : Tracker AccessRecorder) (k : ℕ)
    → IsBalanced t
    → IsBalanced (leave access_recorder tid t k)
unfolding leave
leave-IsBalanced tid t k b =
    let vars = drop (length (t.stack_vars tid) - k) (t.stack_vars tid) in
    let after = remove_range (log_stack_free access_recorder tid) vars t.wrapper t.recorder in
    omega (
      arith,
      remove_range-accounts tid vars t.wrapper t.recorder,
      dec_stack_alloc-Counts tid k after.1,
    )

pub on_free_heap-IsBalanced :
    (tid : ℕ) (t : Tracker AccessRecorder) (addr : ℕ)
    → lookup 0 t.wrapper ≡ none
    → IsBalanced t
    → IsBalanced (on_free_heap access_recorder tid t addr)
on_free_heap-IsBalanced tid t addr z b = elim (Option-cases (lookup addr t.wrapper)) [
  | inl e ↦ rw (on_free_heap_missing access_recorder tid t addr e) b
  | inr (info, e) ↦
      let r' = Access.inc_heap_free tid info.type_id info.count t.recorder in
      let freed = inc_heap_free-Counts tid info.type_id info.count t.recorder in
      let fell = dec_heap_alloc-Counts r' in
      let entries = length-removals t.wrapper addr in
      let one = ap removals (removed-lookup t.wrapper addr ∙ e) in
      rw (on_free_heap_found access_recorder tid t addr info (λ null. cc) e) (omega arith)
]
