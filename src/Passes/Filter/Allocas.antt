-- ===== src/Passes/Filter/Allocas.antt =====
-- `isTempAlloc` of lib/passes/filter/FilterUtil.h and `allocaReachesTask` of OmpUtil.h: what the
-- filters ask about an `alloca` before they search.
use type_art.Prelude.{ℕ, ◌==◌, Bool, false, not, ◌&&◌, ◌||◌, List, none, some, if◌then◌else◌}
use text.Mathlib.Text.{starts_with}
use type_art.Passes.IrTypes.{Built, done}
use type_art.Passes.DefUseChain.{find_use}
use type_art.Passes.Filter.IrPath.{is_among}
use type_art.Passes.Filter.CallSites.{CallOps, is_called}

-- What LLVM answers about an `alloca`: its type, and the function that it stands in.
pub record AllocaOps : Type 0 where
  pub calls : CallOps
  pub allocated_is_pointer : ℕ → Bool
  pub allocated_is_struct : ℕ → Bool
  pub function_of : ℕ → ℕ
  pub is_constant_data : ℕ → Bool

module _ (ops : AllocaOps) where
  -- `util::omp::isOmpContext`
  abbrev pub is_omp_context : ℕ → Bool
  is_omp_context f =
      let name = ops.calls.demangle (ops.calls.values.function_name f) in
      not (f == 0)
      && (starts_with name ".omp" || starts_with name "__kmpc" || starts_with name "__omp")

  abbrev pub should_search : ℕ → Bool
  should_search user = not (ops.is_constant_data user)

  abbrev pub stores_argument : ℕ → ℕ → Bool
  stores_argument f v = elim (ops.calls.values.store_operands v) [
    | none ↦ false
    | some (value_operand, _) ↦ is_among value_operand (ops.calls.values.function_args f)
  ]

  unfoldable pub is_temp_alloc : ℕ → ℕ → Built Bool
  is_temp_alloc fuel in_value =
      let stored =
        find_use (λ v. some (ops.calls.values.users v)) should_search
          (stores_argument (ops.function_of in_value)) fuel in_value in
      if ops.calls.values.is_alloca in_value && ops.allocated_is_pointer in_value
      then stored
      else done false

  -- `traverse_custom`: behind a store the search goes on with the value that is stored.
  abbrev pub users_of_stored : ℕ → List ℕ
  users_of_stored v = elim (ops.calls.values.store_operands v) [
    | none ↦ ops.calls.values.users v
    | some (value_operand, _) ↦ ops.calls.values.users value_operand
  ]

  abbrev pub is_task_call : ℕ → Bool
  is_task_call v = ops.calls.values.is_call v && is_called ops.calls "__kmpc_omp_task(" v

  unfoldable pub alloca_reaches_task : ℕ → ℕ → Built Bool
  alloca_reaches_task fuel alloc =
      let found = find_use (λ v. some (users_of_stored v)) should_search is_task_call fuel alloc in
      if is_omp_context (ops.function_of alloc) then found else done false
