-- ===== src/Passes/Filter/CallGraph/Worklist.antt =====
-- The search for the functions that are reached from a function.
use type_art.Prelude.{
  ℕ, zero, suc, ◌≤◌, ◌≡◌, ◌⊎◌, inl, inr, refl, sym, subst, Bool, true, [], ◌∷◌, String, Bool-cases,
  arith,
}
use mathlib.Core.Logic.{⊎_elim}
use mathlib.Core.List.{Memᴰ}
use mathlib.Core.List.Memᴰ
use text.Mathlib.Text.{◌==◌ as str_eq}
use text.Mathlib.TextEquality.{eq_iff}
use type_art.Passes.IrTypes.{done}
use type_art.Passes.Filter.NameTables.{
  NameSet, has_name, insert_name, merge_names, erase_name, Memᴰ-has_name, Memᴰ-insert_name,
  Memᴰ-merge_names, Memᴰ-erase_name, Memᴰ-erase_ne,
}
use type_art.Passes.Filter.CallGraph.{
  JsonCg, get_directly_called_function_names, reachable_loop, get_reachable_functions,
}
use type_art.Passes.Filter.CallGraph.Ends.{IsBegin, called, call_bound, reachable_loop_ends}

-- A chain of one or more calls; with `first` the overriding functions of the caller count as well.
pub data Reaches (cg : JsonCg) (first : Bool) (caller : String) : String → Type 0 where
  call :
      {callee : String}
      → Memᴰ callee (get_directly_called_function_names cg caller first)
      → Reaches cg first caller callee
  further :
      {function callee : String}
      → Reaches cg first caller function
      → Memᴰ callee (get_directly_called_function_names cg function true)
      → Reaches cg first caller callee

module _ (cg : JsonCg) (begin : String → NameSet → String) (is_begin : IsBegin begin) where
  module _ (first : Bool) (caller : String) where
    -- What holds between the rounds of the search from `caller`.
    record IsSearch (ret worklist : NameSet) : Type 0 where
      sound : (a : String) → Memᴰ a ret ⊎ Memᴰ a worklist → Reaches cg first caller a
      started :
          (a : String)
          → Memᴰ a (get_directly_called_function_names cg caller first)
          → Memᴰ a ret ⊎ Memᴰ a worklist
      closed : (a b : String) → Memᴰ a ret → Memᴰ b (called cg a) → Memᴰ b ret ⊎ Memᴰ b worklist

    IsSearch-erase :
        (name : String) (ret worklist : NameSet)
        → Memᴰ name ret
        → IsSearch ret worklist
        → IsSearch ret (erase_name name worklist)
    IsSearch-erase name ret worklist at h =
        let kept : (a : String)
            → Memᴰ a ret ⊎ Memᴰ a worklist
            → Memᴰ a ret ⊎ Memᴰ a (erase_name name worklist) =
          λ a m. elim (Bool-cases (str_eq a name)) [
            | inl e ↦ inl (subst (λ b. Memᴰ b ret) (sym ((eq_iff a name).0 e)) at)
            | inr e ↦
                ⊎_elim inl
                  (λ w. inr (Memᴰ-erase_ne a name worklist (λ s. cc (e, (eq_iff a name).1 s)) w)) m
          ] in
        record {
          sound = λ a m. h.sound a (⊎_elim inl (λ w. inr (Memᴰ-erase_name a name worklist w)) m);
          started = λ a m. kept a (h.started a m);
          closed = λ a b m c. kept b (h.closed a b m c);
        }

    IsSearch-new :
        (name : String) (ret worklist : NameSet)
        → Memᴰ name worklist
        → IsSearch ret worklist
        → IsSearch (insert_name name ret) (merge_names worklist (called cg name))
    IsSearch-new name ret worklist at h =
        let ins = λ (a : String). Memᴰ-insert_name a name ret in
        let mer = λ (a : String). Memᴰ-merge_names a worklist (called cg name) in
        let kept : (a : String)
            → Memᴰ a ret ⊎ Memᴰ a worklist
            → Memᴰ a (insert_name name ret) ⊎ Memᴰ a (merge_names worklist (called cg name)) =
          λ a. ⊎_elim (λ m. inl ((ins a).1 (inr m))) (λ w. inr ((mer a).1 (inl w))) in
        let to_name = h.sound name (inr at) in
        record {
          sound = λ a.
              ⊎_elim
                (λ m.
                  ⊎_elim (λ s. subst (Reaches cg first caller) (sym s) to_name)
                    (λ r. h.sound a (inl r)) ((ins a).0 m))
                (λ w. ⊎_elim (λ o. h.sound a (inr o)) (further to_name) ((mer a).0 w));
          started = λ a m. kept a (h.started a m);
          closed = λ a b m c.
              ⊎_elim (λ s. inr ((mer b).1 (inr (subst (λ f. Memᴰ b (called cg f)) s c))))
                (λ r. kept b (h.closed a b r c)) ((ins a).0 m);
        }

    reachable_loop-IsSearch :
        (fuel : ℕ) (ret worklist result : NameSet)
        → IsSearch ret worklist
        → reachable_loop begin cg fuel ret worklist ≡ done result
        → IsSearch result []
    unfolding reachable_loop
    reachable_loop-IsSearch fuel ret [] result h e = subst (λ r. IsSearch r []) (ground arith) h
    reachable_loop-IsSearch zero ret (x ∷ worklist) result h e = absurd cc
    reachable_loop-IsSearch (suc fuel) ret (x ∷ worklist) result h e =
        let name = begin x worklist in
        let at = is_begin x worklist in
        elim (Bool-cases (has_name name ret)) [
          | inl known ↦
              reachable_loop-IsSearch fuel ret (erase_name name (x ∷ worklist)) result
                (IsSearch-erase name ret (x ∷ worklist) ((Memᴰ-has_name name ret).0 known) h)
                (rw known at e)
          | inr new ↦
              reachable_loop-IsSearch fuel (insert_name name ret)
                (erase_name name (merge_names (x ∷ worklist) (called cg name))) result
                (IsSearch-erase name (insert_name name ret)
                  (merge_names (x ∷ worklist) (called cg name))
                  ((Memᴰ-insert_name name name ret).1 (inl refl))
                  (IsSearch-new name ret (x ∷ worklist) at h))
                (rw new at e)
        ]

    IsSearch-complete :
        (ret : NameSet) → IsSearch ret [] → {a : String} → Reaches cg first caller a → Memᴰ a ret
    IsSearch-complete ret h (call m) =
        ⊎_elim (λ r. r) (λ w. absurd (Memᴰ.not-nil w)) (h.started _ m)
    IsSearch-complete ret h (further {function} {callee} p m) =
        ⊎_elim (λ r. r) (λ w. absurd (Memᴰ.not-nil w))
          (h.closed function callee (IsSearch-complete ret h p) m)

    -- With a fuel not below `call_bound` and sets walked in any order `get_reachable_functions`
    -- ends, and returns exactly the functions to which a chain of one or more calls leads from the
    -- caller. The overriding functions of a virtual one count as called, for the caller itself
    -- only if they are asked for.
    pub get_reachable_functions-Reaches :
        (fuel : ℕ)
        → call_bound cg caller first ≤ fuel
        → (result : NameSet) × (get_reachable_functions begin cg fuel caller first ≡ done result)
          × ((a : String)
              → (Memᴰ a result → Reaches cg first caller a)
                × (Reaches cg first caller a → Memᴰ a result))
    unfolding get_reachable_functions
    get_reachable_functions-Reaches fuel h =
        let direct = get_directly_called_function_names cg caller first in
        let (result, e) = reachable_loop_ends cg begin is_begin fuel [] direct h in
        let start : IsSearch [] direct = record {
          sound = λ a. ⊎_elim (λ m. absurd (Memᴰ.not-nil m)) call;
          started = λ a m. inr m;
          closed = λ a b m c. absurd (Memᴰ.not-nil m);
        } in
        let end = reachable_loop-IsSearch fuel [] direct result start e in
        (result, e, λ a. (λ m. end.sound a (inl m), IsSearch-complete result end))
