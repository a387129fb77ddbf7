-- ===== src/Passes/Filter/CallSites.antt =====
-- lib/passes/filter/FilterUtil.h, Matcher.h and the OpenMP names of OmpUtil.h: what the filters ask
-- about a call.
use type_art.Prelude.{
  ℕ, suc, ◌-◌, ◌==◌, Bool, true, false, not, ◌&&◌, ◌||◌, List, [], ◌∷◌, Option, none, some, String,
  if◌then◌else◌, ltb, leb,
}
use text.Mathlib.Text.{starts_with, ◌==◌ as str_eq}
use Prim.Native.String.{len, slice}
use type_art.Passes.MemOps.{kind}
use type_art.Passes.Filter.NameTables.{has_name}
use type_art.Passes.Filter.IrPath.{ValueOps, IrPath, get_end_prev}

-- `StringRef::endswith`
abbrev pub ends_with : String → String → Bool
ends_with s t = leb (len t) (len s) && str_eq (slice s (len s - len t) (len s)) t

pub data ArgCorrelation : Type 0 where
  no_match exact exact_mismatch global global_mismatch : ArgCorrelation

pub data MatchResult : Type 0 where
  match no_match should_skip should_continue : MatchResult

abbrev pub continue_set : List String
continue_set =
    "sqrt" ∷ "cos" ∷ "sin" ∷ "pow" ∷ "fabs" ∷ "abs" ∷ "log" ∷ "fscanf" ∷ "cbrt" ∷ "gettimeofday"
    ∷ []

abbrev pub skip_set : List String
skip_set =
    "printf" ∷ "sprintf" ∷ "snprintf" ∷ "fprintf" ∷ "puts" ∷ "__cxa_atexit" ∷ "fopen" ∷ "fclose"
    ∷ "scanf" ∷ "strtol" ∷ "srand" ∷ []

-- `FunctionOracleMatcher`, for the demangled name of a function.
unfoldable pub match_name : String → MatchResult
match_name name =
    if has_name name continue_set
    then should_continue
    else if has_name name skip_set
    then should_skip
    else if starts_with name "__typeart_"
    then should_skip
    else elim (kind name) [
      | some _ ↦ should_skip
      | none ↦
          if starts_with name "__ubsan" || starts_with name "__asan" || starts_with name "__msan"
          then should_continue
          else no_match
    ]

-- The position of a value among the arguments of a call.
abbrev pub position_of : ℕ → List ℕ → Option ℕ
position_of v [] = none
position_of v (a ∷ rest) =
    if a == v then some 0 else elim (position_of v rest) [ none ↦ none | some n ↦ some (suc n) ]

-- What else LLVM answers: `argument f n` is the pointer `f->arg_begin() + n`, `captured` a call's
-- operand without its pointer casts as a function, null if that is none.
pub record CallOps : Type 0 where
  pub values : ValueOps
  pub is_indirect_call : ℕ → Bool
  pub argument : ℕ → ℕ → ℕ
  pub captured : ℕ → ℕ → ℕ
  pub instructions : ℕ → List ℕ
  pub demangle : String → String

module _ (ops : CallOps) where
  -- `util::demangle` of the name of the function that a call names; nothing for an indirect call.
  abbrev pub called_name : ℕ → Option String
  called_name c =
      if ops.values.called_function c == 0
      then none
      else some (ops.values.function_name (ops.values.called_function c))

  abbrev pub oracle_match : ℕ → MatchResult
  oracle_match c = elim (called_name c) [
    | none ↦ no_match
    | some name ↦ match_name (ops.demangle name)
  ]

  abbrev pub is_called : String → ℕ → Bool
  is_called start c = elim (called_name c) [ none ↦ false | some name ↦ starts_with name start ]

  abbrev pub is_omp_executor : ℕ → Bool
  is_omp_executor c = is_called "__kmpc_fork_call" c

  abbrev pub is_omp_task_alloc : ℕ → Bool
  is_omp_task_alloc c = is_called "__kmpc_omp_task_alloc" c

  abbrev pub is_omp_task_call : ℕ → Bool
  is_omp_task_call c = elim (called_name c) [
    | none ↦ false
    | some name ↦ ends_with name "__kmpc_omp_task"
  ]

  abbrev pub is_omp_task_related : ℕ → Bool
  is_omp_task_related c = is_called "__kmpc_omp_task" c

  abbrev pub is_omp_helper : ℕ → Bool
  is_omp_helper c = not (is_omp_executor c) && (is_called "__kmpc" c || is_called "omp_" c)

  -- Null for an operand that is no function.
  unfoldable pub get_microtask : ℕ → Option ℕ
  get_microtask c =
      if is_omp_executor c
      then some (ops.captured c 2)
      else if is_omp_task_alloc c
      then some (ops.captured c 5)
      else none

  unfoldable pub can_discard_microtask_arg : ℕ → IrPath → Bool
  can_discard_microtask_arg c path = elim (get_end_prev path) [
    | none ↦ false
    | some in_value ↦ elim (position_of in_value (ops.values.call_args c)) [
      | none ↦ false
      | some arg_num ↦
          if is_omp_executor c
          then leb arg_num 2
          else if is_omp_task_alloc c
          then leb arg_num 5
          else if is_omp_task_call c
          then leb arg_num 2
          else false
    ]
  ]

  abbrev pub get_arg_offset_to_microtask : ℕ → ℕ → ℕ
  get_arg_offset_to_microtask c d = if ltb d 1 then d else if is_omp_executor c then d - 1 else d

  -- `findArg`; a pointer to an argument is never null. Behind a null function the pointer is not
  -- defined, and the search that asks for it ends with a failed assertion.
  abbrev pub argument_at : ℕ → ℕ → ℕ
  argument_at c arg_num =
      let named = ops.argument (ops.values.called_function c) arg_num in
      if is_omp_executor c
      then elim (get_microtask c) [
        | none ↦ named
        | some outlined ↦ ops.argument outlined (get_arg_offset_to_microtask c arg_num)
      ]
      else named

  unfoldable pub find_arg : ℕ → IrPath → Option ℕ
  find_arg c p = elim (get_end_prev p) [
    | none ↦ none
    | some in_value ↦ elim (position_of in_value (ops.values.call_args c)) [
      | none ↦ none
      | some arg_num ↦ some (argument_at c arg_num)
    ]
  ]

  unfoldable pub args : ℕ → IrPath → List ℕ
  args c p = if ops.is_indirect_call c then [] else elim (find_arg c p) [
    | some arg ↦ arg ∷ []
    | none ↦ ops.values.function_args (ops.values.called_function c)
  ]

  abbrev pub any_arg : (ℕ → Bool) → List ℕ → Bool
  any_arg is_type [] = false
  any_arg is_type (a ∷ rest) = is_type a || any_arg is_type rest

  unfoldable pub correlate : (ℕ → Bool) → ℕ → IrPath → ArgCorrelation
  correlate is_type c p = elim (find_arg c p) [
    | none ↦ if any_arg is_type (ops.values.call_args c) then global else global_mismatch
    | some arg ↦ if is_type arg then exact else exact_mismatch
  ]

  abbrev pub correlate2void : ℕ → IrPath → ArgCorrelation
  correlate2void c p = correlate ops.values.has_void_pointer_type c p

  -- `FunctionAnalysis::analyze`, as far as the filters use it: whether a function calls anything,
  -- and its calls of declared functions.
  unfoldable pub calls_nothing : List ℕ → Bool
  calls_nothing [] = true
  calls_nothing (i ∷ rest) = if ops.values.is_call i then false else calls_nothing rest

  unfoldable pub declared_calls : List ℕ → List ℕ
  declared_calls [] = []
  declared_calls (i ∷ rest) =
      if ops.values.is_call i
        && not (ops.values.called_function i == 0)
        && not (ops.values.is_intrinsic i)
        && ops.values.is_declaration (ops.values.called_function i)
      then i ∷ declared_calls rest
      else declared_calls rest
