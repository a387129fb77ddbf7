-- ===== src/Passes/Filter/IrPath.antt =====
-- lib/passes/filter/IRPath.h and IRSearch.h: paths of values, chains of calls, and the values that
-- follow a value. A value is a pointer, as a number, and null is 0. The vectors are lists with
-- their last element first.
use type_art.Prelude.{
  ℕ, ◌+◌, ◌==◌, Bool, false, not, ◌&&◌, ◌||◌, List, [], ◌∷◌, Option, none, some, String,
  if◌then◌else◌, ltb,
}

-- What LLVM answers about a value; `called_function` of a call is 0 if it is indirect, and
-- `store_operands` of a store are the value and the pointer.
pub record ValueOps : Type 0 where
  pub is_phi : ℕ → Bool
  pub is_alloca : ℕ → Bool
  pub is_function : ℕ → Bool
  pub has_pointer_type : ℕ → Bool
  pub has_void_pointer_type : ℕ → Bool
  pub store_operands : ℕ → Option (ℕ × ℕ)
  pub users : ℕ → List ℕ
  pub is_call : ℕ → Bool
  pub called_function : ℕ → ℕ
  pub call_args : ℕ → List ℕ
  pub is_intrinsic : ℕ → Bool
  pub is_declaration : ℕ → Bool
  pub function_args : ℕ → List ℕ
  pub function_name : ℕ → String

pub record IrPath : Type 0 where
  pub path : List ℕ
  pub phi_cache : List (ℕ × ℕ)

abbrev pub empty_path : IrPath
empty_path = record { path = []; phi_cache = [] }

unfoldable pub phi_count : ℕ → List (ℕ × ℕ) → ℕ
phi_count n [] = 0
phi_count n ((v, count) ∷ cache) = if v == n then count else phi_count n cache

-- `++(phi_cache[n])`
unfoldable pub count_phi : ℕ → List (ℕ × ℕ) → List (ℕ × ℕ)
count_phi n [] = (n, 1) ∷ []
count_phi n ((v, count) ∷ cache) =
    if v == n then (v, count + 1) ∷ cache else (v, count) ∷ count_phi n cache

abbrev pub get_end : IrPath → Option ℕ
get_end p = elim p.path [ [] ↦ none | n ∷ _ ↦ some n ]

abbrev pub get_end_prev : IrPath → Option ℕ
get_end_prev p = elim p.path [ [] ↦ none | _ ∷ rest ↦ elim rest [ [] ↦ none | n ∷ _ ↦ some n ] ]

abbrev pub drop_last {ℓ} : {A : Type ℓ} → List A → List A
drop_last [] = []
drop_last (_ ∷ rest) = rest

unfoldable pub pop : IrPath → IrPath
pop p = record p { path = drop_last p.path }

abbrev pub is_among : ℕ → List ℕ → Bool
is_among n [] = false
is_among n (v ∷ vs) = v == n || is_among n vs

abbrev pub contains : ℕ → IrPath → Bool
contains n p = is_among n p.path

-- `CallsitePath`: a function and the path that leads to its call, for each call.
pub record CallsitePath : Type 0 where
  pub start : ℕ
  pub terminating_path : IrPath
  pub intermediate_path : List (ℕ × IrPath)

abbrev pub callsite_path : ℕ → CallsitePath
callsite_path root = record { start = root; terminating_path = empty_path; intermediate_path = [] }

abbrev pub get_current_func : CallsitePath → ℕ
get_current_func p = elim p.intermediate_path [ [] ↦ p.start | (f, _) ∷ _ ↦ f ]

abbrev pub push_final : IrPath → CallsitePath → CallsitePath
push_final p fpath = record fpath { terminating_path = p }

unfoldable pub pop_call : CallsitePath → CallsitePath
pop_call p = record p { intermediate_path = drop_last p.intermediate_path }

abbrev pub calls_function : ℕ → List (ℕ × IrPath) → Bool
calls_function f [] = false
calls_function f ((g, _) ∷ nodes) = g == f || calls_function f nodes

module _ (ir : ValueOps) where
  unfoldable pub push : ℕ → IrPath → IrPath
  push n p = record {
    path = n ∷ p.path;
    phi_cache = if ir.is_phi n then count_phi n p.phi_cache else p.phi_cache;
  }

  unfoldable pub push_call : IrPath → CallsitePath → CallsitePath
  push_call p fpath = elim (get_end p) [
    | none ↦ fpath
    | some csite ↦
        let f = if ir.is_function csite then csite else ir.called_function csite in
        record fpath { intermediate_path = (f, p) ∷ fpath.intermediate_path }
  ]

  unfoldable pub contains_call : ℕ → CallsitePath → Bool
  contains_call c fpath =
      let f = ir.called_function c in
      (not (f == 0) && (f == fpath.start)) || calls_function f fpath.intermediate_path

  -- `DefaultSearch::search`
  abbrev pub search_store : ℕ → ℕ → IrPath → List ℕ
  search_store value_operand pointer p =
      if ir.is_alloca pointer && not (ir.has_pointer_type value_operand)
      then []
      else if contains pointer p
      then []
      else pointer ∷ []

  unfoldable pub search : ℕ → IrPath → List ℕ
  search val p =
      if ir.is_phi val && ltb 1 (phi_count val p.phi_cache)
      then []
      else elim (ir.store_operands val) [
        | none ↦ ir.users val
        | some (value_operand, pointer) ↦ search_store value_operand pointer p
      ]
