-- ===== src/Passes/DefUseChain.antt =====
-- lib/passes/support/DefUseChain.h: the traversal of the uses of a value. The working set is a
-- list with its last element first, and null is 0.
pub mod Uses
pub mod Steps
pub mod Finds
use type_art.Prelude.{
  ℕ, zero, suc, ◌==◌, Bool, true, false, ◌||◌, List, [], ◌∷◌, Option, none, some, if◌then◌else◌,
}
use type_art.Passes.IrTypes.{Built, done, out_of_fuel, ◌>>=◌}
use type_art.Passes.Filter.IrPath.{ValueOps, is_among}

pub data ChainMatch : Type 0 where
  no_match matched cancel skip : ChainMatch

pub record Chain : Type 0 where
  pub working_set : List ℕ
  pub seen_set : List ℕ

unfoldable pub add_to_work_s : ℕ → Chain → Chain
add_to_work_s v chain =
    if v == 0 || is_among v chain.seen_set
    then chain
    else record { working_set = v ∷ chain.working_set; seen_set = v ∷ chain.seen_set }

unfoldable pub add_to_work : List ℕ → Chain → Chain
add_to_work [] chain = chain
add_to_work (v ∷ vals) chain = add_to_work vals (add_to_work_s v chain)

-- `search` is the direction, `should_search` false for constant data; a callback is a step on what
-- it captures. To `cancel` is no more than to match, since the `break` leaves the `switch` only.
module _ {S : Type 0} (search : ℕ → Option (List ℕ)) (should_search : ℕ → Bool)
    (callback : S → ℕ → S × ChainMatch) where
  unfoldable pub apply_search : ℕ → Chain → Chain
  apply_search val chain = elim (search val) [ none ↦ chain | some value ↦ add_to_work value chain ]

  abbrev pub after_match : ChainMatch → ℕ → Chain → Chain
  after_match m user chain = elim m [
    | skip ↦ chain
    | _ ↦ if should_search user then apply_search user chain else chain
  ]

  unfoldable pub traverse_loop : ℕ → S → List ℕ → List ℕ → Built S
  traverse_loop fuel s [] seen = done s
  traverse_loop zero s (user ∷ working) seen = out_of_fuel
  traverse_loop (suc fuel) s (user ∷ working) seen =
      let (s', m) = callback s user in
      let chain = after_match m user (record { working_set = working; seen_set = seen }) in
      traverse_loop fuel s' chain.working_set chain.seen_set

  unfoldable pub do_traverse : ℕ → S → ℕ → Built S
  do_traverse fuel s start =
      let chain = apply_search start (record { working_set = []; seen_set = [] }) in
      traverse_loop fuel s chain.working_set chain.seen_set

-- A traversal that looks for a value, as the callbacks of `isTempAlloc` and `allocaReachesTask` do.
abbrev pub look_for : (ℕ → Bool) → Bool → ℕ → Bool × ChainMatch
look_for test found user = if test user then (true, cancel) else (found, no_match)

unfoldable pub find_use : (ℕ → Option (List ℕ)) → (ℕ → Bool) → (ℕ → Bool) → ℕ → ℕ → Built Bool
find_use search should_search test fuel start =
    do_traverse search should_search (look_for test) fuel false start
