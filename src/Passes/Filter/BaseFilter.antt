-- ===== src/Passes/Filter/BaseFilter.antt =====
-- lib/passes/filter/FilterBase.h: the search from a value along its uses, and into the functions
-- that it is passed to. The template's parameters are those of the section.
pub mod Walk
pub mod Successors
pub mod Keeps
pub mod Safe
use type_art.Prelude.{
  ℕ, zero, suc, ◌==◌, Bool, true, false, not, ◌&&◌, ◌||◌, List, [], ◌∷◌, ◌++◌, Option, none, some,
  if◌then◌else◌,
}
use type_art.Passes.IrTypes.{Built, done, failed_assert, out_of_fuel, ◌>>=◌}
use type_art.Passes.Filter.IrPath.{
  ValueOps, IrPath, empty_path, get_end, pop, contains, CallsitePath, callsite_path,
  get_current_func, push_final, pop_call, push, push_call, contains_call,
}

pub data FilterAnalysis : Type 0 where
  skip continue keep filtered follow_def : FilterAnalysis

-- A `CallSiteHandler`; what it does not support is `none`.
pub record Handler : Type 0 where
  pub precheck : Option (ℕ → ℕ → CallsitePath → FilterAnalysis)
  pub indirect : Option (ℕ → IrPath → FilterAnalysis)
  pub intrinsic : Option (ℕ → IrPath → FilterAnalysis)
  pub decl : Option (ℕ → IrPath → FilterAnalysis)
  pub def : Option (ℕ → IrPath → FilterAnalysis)

-- An `OmpHelper`; for `EmptyContext` `with_omp` is false.
pub record OmpHelper : Type 0 where
  pub with_omp : Bool
  pub is_omp_executor : ℕ → Bool
  pub is_omp_helper : ℕ → Bool
  pub is_task_related_store : ℕ → Bool
  pub can_discard_microtask_arg : ℕ → IrPath → Bool
  pub get_microtask : ℕ → Option ℕ

abbrev pub supported :
    Option (ℕ → IrPath → FilterAnalysis) → FilterAnalysis → ℕ → IrPath → FilterAnalysis
supported none otherwise val path = otherwise
supported (some analysis) otherwise val path = analysis val path

module _ (ir : ValueOps) (handler : Handler) (omp : OmpHelper) (search : ℕ → IrPath → List ℕ) where
  unfoldable pub callsite_decl : ℕ → IrPath → FilterAnalysis
  callsite_decl val path =
      if ir.is_intrinsic val
      then supported handler.intrinsic skip val path
      else if omp.with_omp && omp.is_omp_executor val
      then follow_def
      else if omp.with_omp && omp.is_omp_helper val
      then skip
      else supported handler.decl keep val path

  unfoldable pub callsite : ℕ → IrPath → FilterAnalysis
  callsite val path =
      if not (ir.is_call val)
      then continue
      else if ir.called_function val == 0
      then supported handler.indirect keep val path
      else if ir.is_declaration (ir.called_function val)
      then callsite_decl val path
      else supported handler.def keep val path

  -- A search's result: whether to filter the value, the path, and the paths to definitions.
  abbrev pub Searched : Type 0
  Searched = Bool × IrPath × List IrPath

  -- The loop of `DFSfilter`, with `dfs` for the call of itself, and the `pop` behind it.
  unfoldable pub visit_successors :
      (ℕ → IrPath → List IrPath → Built Searched) → List ℕ → IrPath → List IrPath → Built Searched
  visit_successors dfs [] path plist = done (true, pop path, plist)
  visit_successors dfs (successor ∷ successors) path plist =
      let next = visit_successors dfs successors path plist in
      let further = dfs successor path plist >>= λ (filter, path', plist').
      if filter
      then visit_successors dfs successors path' plist'
      else done (false, path', plist') in
      if omp.with_omp && omp.is_task_related_store successor
      then done (false, push ir successor path, plist)
      else if contains successor path
      then next
      else further

  unfoldable pub dfs_filter : ℕ → ℕ → IrPath → List IrPath → Built Searched
  dfs_filter zero current path plist = out_of_fuel
  dfs_filter (suc fuel) current path plist =
      let path' = push ir current path in
      let followed = visit_successors (dfs_filter fuel) (search current path') path' in
      if current == 0 then done (false, path, plist) else elim (callsite current path') [
        | keep ↦ done (false, path', plist)
        | skip ↦ done (true, pop path', plist)
        | follow_def ↦ followed (plist ++ path' ∷ [])
        | _ ↦ followed plist
      ]

  module _ (args : ℕ → IrPath → List ℕ) where
    -- The loops of `DFSFuncFilter`, with `dfs` for the call of itself.
    unfoldable pub visit_args :
        (ℕ → CallsitePath → Built (Bool × CallsitePath))
        → List ℕ
        → CallsitePath
        → Built (Bool × CallsitePath)
    visit_args dfs [] fpath = done (true, fpath)
    visit_args dfs (arg ∷ argv) fpath = dfs arg fpath >>= λ (filter, fpath').
        if filter then visit_args dfs argv fpath' else done (false, fpath')

    -- The path with which a call is entered. The push of a null function fails an assertion.
    abbrev pub path_into : ℕ → IrPath → Built IrPath
    path_into c path2def =
        if omp.with_omp && omp.is_omp_executor c
        then elim (omp.get_microtask c) [
          | none ↦ done path2def
          | some outlined ↦
              if outlined == 0 then failed_assert else done (push ir outlined path2def)
        ]
        else done path2def

    unfoldable pub is_passed_over : ℕ → IrPath → CallsitePath → Bool
    is_passed_over c path2def fpath =
        contains_call ir c fpath
        || (omp.with_omp && omp.is_omp_executor c && omp.can_discard_microtask_arg c path2def)

    unfoldable pub visit_definitions :
        (ℕ → CallsitePath → Built (Bool × CallsitePath))
        → List IrPath
        → CallsitePath
        → Built (Bool × CallsitePath)
    visit_definitions dfs [] fpath = done (true, pop_call fpath)
    visit_definitions dfs (path2def ∷ paths) fpath =
        let next = visit_definitions dfs paths fpath in
        elim (get_end path2def) [
          | none ↦ next
          | some c ↦
              let entered =
                path_into c path2def
                >>= (λ path'. visit_args dfs (args c path2def) (push_call ir path' fpath))
                >>= λ (filter, fpath').
                    if filter then visit_definitions dfs paths fpath' else done (false, fpath') in
              if is_passed_over c path2def fpath then next else entered
        ]

    abbrev pub checked : ℕ → CallsitePath → FilterAnalysis
    checked current fpath = elim handler.precheck [
      | none ↦ continue
      | some precheck ↦
          if get_current_func fpath == 0
          then continue
          else precheck current (get_current_func fpath) fpath
    ]

    unfoldable pub dfs_func_filter : ℕ → ℕ → ℕ → CallsitePath → Built (Bool × CallsitePath)
    dfs_func_filter depth zero current fpath = out_of_fuel
    dfs_func_filter depth (suc fuel) current fpath =
        let searched = dfs_filter depth current empty_path [] >>= λ (filter, p, def_path).
        if filter
        then visit_definitions (dfs_func_filter depth fuel) def_path fpath
        else done (false, push_final p fpath) in
        elim (checked current fpath) [
          | filtered ↦ done (true, pop_call fpath)
          | keep ↦ done (false, fpath)
          | _ ↦ searched
        ]

    -- `filter`, from the function `start_f`.
    unfoldable pub filter : ℕ → ℕ → ℕ → ℕ → Built Bool
    filter depth fuel start_f in_value =
        if in_value == 0
        then done false
        else dfs_func_filter depth fuel in_value (callsite_path start_f) >>= λ (filter, _).
            done filter
