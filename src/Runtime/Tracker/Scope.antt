-- ===== src/Runtime/Tracker/Scope.antt =====
-- A scope: the stack variables that a function registers, and the `onLeaveScope` that drops them.
use type_art.Prelude.{
  ℕ, ◌-◌, ◌<◌, ◌^◌, ◌≡◌, refl, sym, ap, ◌∙◌, true, false, ◌==◌, if◌then◌else◌, List, [], ◌∷◌, ◌++◌,
  none, some, map, inl, inr, Bool-cases, ==_iff, ◌≤◌, length, length-append, take, drop,
  append_assoc, append-nil, arith,
}
use type_art.Prelude.Int.{ℤ, pos, to_int}
use type_art.TypeLib.TypeDb.{TypeDb}
use type_art.Runtime.PointerMap.{PointerMap, lookup, remove_range}
use type_art.Runtime.PointerMap.Order.{IsSorted, remove_range-IsSorted}
use type_art.Runtime.PointerMap.Contents.{contains, lookup-remove_range, sorted_ext}
use type_art.Runtime.Recorder.{RecorderOps}
use type_art.Runtime.Tracker.{Tracker, on_alloc_stack, leave, log_stack_free, on_leave_scope}
use type_art.Runtime.Tracker.Alloc.{
  lookup-tracked, tracked-IsSorted, on_alloc_stack-wrapper, on_alloc_stack-stack_vars,
}

pub record Variable : Type 0 where
  pub addr : ℕ
  pub type_id : ℤ
  pub count : ℕ
  pub ret : ℕ

abbrev pub addrs : List Variable → List ℕ
addrs = map (λ v. v.addr)

-- None of the addresses is in the map.
abbrev pub AllAbsent : PointerMap → List ℕ → Type 0
AllAbsent m [] = Unit
AllAbsent m (a ∷ as') = (lookup a m ≡ none) × AllAbsent m as'

==_refl : (n : ℕ) → (n == n) ≡ true
==_refl n = ground arith

module _ {S : Type 0} (ops : RecorderOps S) (db : TypeDb) (tid : ℕ) where
  -- A function registers its variables, in order.
  pub enter : List Variable → Tracker S → Tracker S
  enter [] t = t
  enter (v ∷ vs) t = enter vs (on_alloc_stack ops db tid t v.addr v.type_id v.count v.ret)

  enter-IsSorted :
      (vs : List Variable) (t : Tracker S) → IsSorted t.wrapper → IsSorted (enter vs t).wrapper
  unfolding enter
  enter-IsSorted [] t s = s
  enter-IsSorted (v ∷ vs) t s =
      enter-IsSorted vs (on_alloc_stack ops db tid t v.addr v.type_id v.count v.ret) (
        rw (on_alloc_stack-wrapper ops db t v.addr v.type_id v.count v.ret tid)
          (tracked-IsSorted t.wrapper v.addr v.type_id v.count v.ret s))

  enter-stack_vars :
      (vs : List Variable) (t : Tracker S)
      → (enter vs t).stack_vars tid ≡ t.stack_vars tid ++ addrs vs
  unfolding enter
  enter-stack_vars [] t = sym (append-nil (t.stack_vars tid))
  enter-stack_vars (v ∷ vs) t =
      enter-stack_vars vs (on_alloc_stack ops db tid t v.addr v.type_id v.count v.ret)
      ∙ rw (on_alloc_stack-stack_vars ops db t v.addr v.type_id v.count v.ret tid, ==_refl tid)
          (append_assoc (t.stack_vars tid) (v.addr ∷ []) (addrs vs))

  enter-other :
      (vs : List Variable) (t : Tracker S) (other : ℕ)
      → (tid == other) ≡ false
      → (enter vs t).stack_vars other ≡ t.stack_vars other
  unfolding enter
  enter-other [] t other h = refl
  enter-other (v ∷ vs) t other h =
      enter-other vs (on_alloc_stack ops db tid t v.addr v.type_id v.count v.ret) other h
      ∙ rw (on_alloc_stack-stack_vars ops db t v.addr v.type_id v.count v.ret tid, h) refl

  -- Only the scope's own addresses get an entry.
  lookup-enter :
      (vs : List Variable) (t : Tracker S) (j : ℕ)
      → IsSorted t.wrapper
      → contains j (addrs vs) ≡ false
      → lookup j (enter vs t).wrapper ≡ lookup j t.wrapper
  unfolding enter contains
  lookup-enter [] t j s h = refl
  lookup-enter (v ∷ vs) t j s h =
      let t' = on_alloc_stack ops db tid t v.addr v.type_id v.count v.ret in
      let e = on_alloc_stack-wrapper ops db t v.addr v.type_id v.count v.ret tid in
      lookup-enter vs t' j (rw e (tracked-IsSorted t.wrapper v.addr v.type_id v.count v.ret s))
        (ground arith)
      ∙ rw e (ground (arith, lookup-tracked t.wrapper v.addr j v.type_id v.count v.ret s))

-- The last part of a list, and what is left without it.
drop-append {ℓ} : {A : Type ℓ} (xs ys : List A) → drop (length xs) (xs ++ ys) ≡ ys
drop-append [] ys = refl
drop-append (x ∷ xs) ys = drop-append xs ys

take-append {ℓ} : {A : Type ℓ} (xs ys : List A) → take (length xs) (xs ++ ys) ≡ xs
take-append [] ys = refl
take-append (x ∷ xs) ys = ap (◌∷◌ x) (take-append xs ys)

start_pos {ℓ} : {A : Type ℓ} (xs ys : List A) → length (xs ++ ys) - length ys ≡ length xs
start_pos xs ys = omega (arith, length-append xs ys)

lookup_absent :
    (m : PointerMap) (as' : List ℕ) (j : ℕ)
    → AllAbsent m as'
    → contains j as' ≡ true
    → lookup j m ≡ none
unfolding contains
lookup_absent m [] j h c = cc
lookup_absent m (a ∷ as') j h c = ground (arith, lookup_absent m as' j h.1)

to_int_small : (n : ℕ) → n < 2 ^ 31 → to_int n ≡ pos n
to_int_small n h = ground arith

module _ {S : Type 0} (ops : RecorderOps S) (tid : ℕ) (t : Tracker S) (k : ℕ) where
  pub on_leave_scope_le :
      k ≤ length (t.stack_vars tid)
      → length (t.stack_vars tid) < 2 ^ 31
      → on_leave_scope ops tid t (pos k) ≡ some (leave ops tid t k)
  unfolding on_leave_scope
  on_leave_scope_le h small =
      rw (to_int_small (length (t.stack_vars tid)) small, on_leave_scope) (ground arith)

  -- A count above the size of the stack drops the whole stack.
  pub on_leave_scope_excess :
      length (t.stack_vars tid) < k
      → length (t.stack_vars tid) < 2 ^ 31
      → on_leave_scope ops tid t (pos k) ≡ some (leave ops tid t (length (t.stack_vars tid)))
  unfolding on_leave_scope
  on_leave_scope_excess h small =
      rw (to_int_small (length (t.stack_vars tid)) small, on_leave_scope) (ground arith)

module _ {S : Type 0} (ops : RecorderOps S) (db : TypeDb) (tid : ℕ) (t : Tracker S)
    (vs : List Variable) (s : IsSorted t.wrapper) (fresh : AllAbsent t.wrapper (addrs vs)) where
  leave_removes :
      (leave ops tid (enter ops db tid vs t) (length (addrs vs))).wrapper
      ≡ (remove_range
          (log_stack_free ops tid)
          (addrs vs)
          (enter ops db tid vs t).wrapper
          (enter ops db tid vs t).recorder).0
  unfolding leave
  leave_removes = rw (
    enter-stack_vars ops db tid vs t,
    start_pos (t.stack_vars tid) (addrs vs),
    drop-append (t.stack_vars tid) (addrs vs),
  )

  restored :
      (j : ℕ)
      → (if contains j (addrs vs) then none else lookup j (enter ops db tid vs t).wrapper)
        ≡ lookup j t.wrapper
  restored j =
      ground (arith, lookup-enter ops db tid vs t j s, lookup_absent t.wrapper (addrs vs) j fresh)

  -- A function that leaves with as many variables as it registered, at addresses that were not
  -- in the map, leaves the map of allocations as it was before the call.
  pub leave-enter-wrapper :
      (leave ops tid (enter ops db tid vs t) (length (addrs vs))).wrapper ≡ t.wrapper
  leave-enter-wrapper =
      leave_removes
      ∙ sorted_ext 0 _ t.wrapper
          (remove_range-IsSorted _ (addrs vs) _ _ (enter-IsSorted ops db tid vs t s)) s
          λ j.
            lookup-remove_range _ (addrs vs) _ _ j (enter-IsSorted ops db tid vs t s) ∙ restored j

  pub leave-enter-stack_vars :
      (other : ℕ)
      → (leave ops tid (enter ops db tid vs t) (length (addrs vs))).stack_vars other
        ≡ t.stack_vars other
  unfolding leave
  leave-enter-stack_vars other = elim (Bool-cases (tid == other)) [
    | inl same ↦ rw (
      same,
      enter-stack_vars ops db tid vs t,
      start_pos (t.stack_vars tid) (addrs vs),
      take-append (t.stack_vars tid) (addrs vs),
      (==_iff tid other).0 same,
    )
    | inr differs ↦ rw (differs, enter-other ops db tid vs t other differs)
  ]

  on_leave_scope-leave_entered :
      length (t.stack_vars tid ++ addrs vs) < 2 ^ 31
      → on_leave_scope ops tid (enter ops db tid vs t) (pos (length (addrs vs)))
        ≡ some (leave ops tid (enter ops db tid vs t) (length (addrs vs)))
  on_leave_scope-leave_entered h =
      on_leave_scope_le ops tid (enter ops db tid vs t) (length (addrs vs))
        (rw (enter-stack_vars ops db tid vs t)
          (omega (arith, length-append (t.stack_vars tid) (addrs vs))))
        (rw (enter-stack_vars ops db tid vs t) h)

  -- In a sorted map, a function that registers variables at addresses that are not in the map, and
  -- then leaves its scope with their number, leaves the map of allocations and every thread's
  -- stack as they were before the call. The stack must not reach 2 ^ 31 variables.
  pub on_leave_scope-enter :
      length (t.stack_vars tid ++ addrs vs) < 2 ^ 31
      → (t' : Tracker S) × (on_leave_scope ops tid (enter ops db tid vs t) (pos (length (addrs vs)))
          ≡ some t')
        × (t'.wrapper ≡ t.wrapper)
        × ((other : ℕ) → t'.stack_vars other ≡ t.stack_vars other)
  on_leave_scope-enter h = (
    leave ops tid (enter ops db tid vs t) (length (addrs vs)),
    on_leave_scope-leave_entered h,
    leave-enter-wrapper,
    leave-enter-stack_vars,
  )
