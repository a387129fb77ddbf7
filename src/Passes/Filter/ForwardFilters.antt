-- ===== src/Passes/Filter/ForwardFilters.antt =====
-- lib/passes/filter/StdForwardFilter.cpp and CGForwardFilter.cpp: what the two filters answer at a
-- call. `temp_alloc` and `reaches_task` are the answers of `isTempAlloc` and, for an `alloca` of a
-- struct, of `allocaReachesTask`.
pub mod Standard
use type_art.Prelude.{
  ℕ, ◌==◌, Bool, true, false, not, ◌&&◌, ◌||◌, List, [], ◌∷◌, Option, none, some, if◌then◌else◌,
}
use type_art.Passes.Filter.IrPath.{ValueOps, IrPath, CallsitePath}
use type_art.Passes.Filter.BaseFilter.{
  FilterAnalysis, skip, continue, keep, filtered, follow_def, Handler, OmpHelper,
}
use type_art.Passes.Filter.CallGraph.{
  ReachabilityResult, reaches, maybe_reaches, never_reaches, unknown,
}
use type_art.Passes.Filter.CallSites.{
  ArgCorrelation, exact_mismatch, global_mismatch, MatchResult, match, should_skip, should_continue,
  CallOps, oracle_match, is_omp_executor, is_omp_helper, is_omp_task_related, get_microtask,
  can_discard_microtask_arg, correlate2void, calls_nothing, declared_calls,
}

abbrev pub is_match : MatchResult → Bool
is_match result = elim result [ match ↦ true | _ ↦ false ]

-- The answer where a name matches.
abbrev pub by_correlation : ArgCorrelation → FilterAnalysis
by_correlation result = elim result [
  | global_mismatch ↦ continue
  | exact_mismatch ↦ continue
  | _ ↦ keep
]

abbrev pub by_oracle : MatchResult → FilterAnalysis
by_oracle result = elim result [ should_skip ↦ skip | should_continue ↦ continue | _ ↦ keep ]

-- `CallsitePath::empty`
abbrev pub is_empty_path : CallsitePath → Bool
is_empty_path fpath = elim fpath.intermediate_path [
  | [] ↦ elim fpath.terminating_path.path [ [] ↦ true | _ ∷ _ ↦ false ]
  | _ ∷ _ ↦ false
]

abbrev pub has_task_call : (ℕ → Bool) → List ℕ → Bool
has_task_call is_task [] = false
has_task_call is_task (c ∷ calls) = is_task c || has_task_call is_task calls

abbrev pub deep_matches : Option (ℕ → MatchResult) → ℕ → Bool
deep_matches none current = true
deep_matches (some deep_matcher) current = is_match (deep_matcher current)

module _ (ops : CallOps) (temp_alloc reaches_task : ℕ → Bool) where
  module _ (matcher : ℕ → MatchResult) (deep_matcher : Option (ℕ → MatchResult)) where
    -- `ForwardFilterImpl`
    unfoldable pub std_precheck : ℕ → ℕ → CallsitePath → FilterAnalysis
    std_precheck in_value start fpath =
        if start == 0
        then continue
        else if calls_nothing ops (ops.instructions start)
        then filtered
        else if not (is_empty_path fpath)
        then continue
        else if temp_alloc in_value || reaches_task in_value
        then filtered
        else continue

    unfoldable pub std_decl : ℕ → IrPath → FilterAnalysis
    std_decl current p =
        if is_match (matcher current) && deep_matches deep_matcher current
        then by_correlation (correlate2void ops current p)
        else by_oracle (oracle_match ops current)

    unfoldable pub std_def : ℕ → IrPath → FilterAnalysis
    std_def current p =
        if is_match (matcher current)
        then (if deep_matches deep_matcher current
            then by_correlation (correlate2void ops current p)
            else keep)
        else follow_def

    abbrev pub forward_filter : Handler
    forward_filter = record {
      precheck = some std_precheck;
      indirect = none;
      intrinsic = none;
      decl = some std_decl;
      def = some std_def;
    }

  -- `CGFilterImpl`; `reached` is what the call graph answers for the called function.
  module _ (reached : ℕ → ReachabilityResult) (deep_matcher : Option (ℕ → MatchResult)) where
    unfoldable pub cg_precheck : ℕ → ℕ → CallsitePath → FilterAnalysis
    cg_precheck in_value start fpath =
        if start == 0
        then continue
        else if calls_nothing ops (ops.instructions start)
        then filtered
        else if is_empty_path fpath && (temp_alloc in_value || reaches_task in_value)
        then filtered
        else if has_task_call (is_omp_task_related ops)
            (declared_calls ops (ops.instructions start))
        then keep
        else continue

    abbrev pub by_reachability : ReachabilityResult → FilterAnalysis
    by_reachability result = elim result [
      | reaches ↦ keep
      | never_reaches ↦ skip
      | maybe_reaches ↦ filtered
      | unknown ↦ continue
    ]

    unfoldable pub cg_decl : ℕ → IrPath → FilterAnalysis
    cg_decl current p = elim deep_matcher [
      | none ↦ by_reachability (reached current)
      | some matcher ↦
          if is_match (matcher current)
          then by_correlation (correlate2void ops current p)
          else by_reachability (reached current)
    ]

    abbrev pub cg_filter : Handler
    cg_filter = record {
      precheck = some cg_precheck;
      indirect = none;
      intrinsic = none;
      decl = some cg_decl;
      def = some cg_decl;
    }

-- `OmpContext`; `task_store` is the answer of `isTaskRelatedStore`.
abbrev pub omp_context : CallOps → (ℕ → Bool) → OmpHelper
omp_context ops task_store = record {
  with_omp = true;
  is_omp_executor = is_omp_executor ops;
  is_omp_helper = is_omp_helper ops;
  is_task_related_store = task_store;
  can_discard_microtask_arg = can_discard_microtask_arg ops;
  get_microtask = get_microtask ops;
}
