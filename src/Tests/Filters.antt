-- ===== src/Tests/Filters.antt =====
-- A variable whose address goes through a store to a call of `MPI_Send`.
use type_art.Prelude.{
  ℕ, ◌==◌, ◌≡◌, ◌≢◌, inl, inr, refl, sym, ap, some_inj, none-ne-some, Bool-cases, Bool, true, false,
  not, ◌&&◌, ◌||◌, List, [], ◌∷◌, Option, none, some, if◌then◌else◌, arith,
}
use mathlib.Core.List.{Memᴰ}
use mathlib.Core.List.Memᴰ
use type_art.Passes.IrTypes.{done}
use type_art.Passes.Filter.IrPath.{IrPath, empty_path, callsite_path, is_among, search}
use type_art.Passes.Filter.BaseFilter.{
  Handler, OmpHelper, callsite, callsite_decl, checked, dfs_filter, filter,
}
use type_art.Passes.Filter.BaseFilter.Walk.{no_phi, IsFinite, Leads, here, step, Keeps, at_call}
use type_art.Passes.Filter.BaseFilter.Successors.{Finds}
use type_art.Passes.Filter.BaseFilter.Keeps.{dfs_filter-Keeps}
use type_art.Passes.Filter.BaseFilter.Safe.{is_filtered, filter-Keeps}
use type_art.Passes.DefUseChain.{find_use}
use type_art.Passes.DefUseChain.Finds.{Found, find_use-Uses}
use type_art.Passes.Filter.CallSites.{
  CallOps, MatchResult, match, no_match, args, correlate, find_arg,
}
use type_art.Passes.Filter.ForwardFilters.{forward_filter, omp_context, std_decl}
use type_art.Passes.Filter.ForwardFilters.Standard.{IsProgram, forward_filter-IsFinite}

-- 1 is an `alloca`, 2 a store of its address to 3, which 4 loads; 9 is a phi node of it; 5 is the call of 6, `MPI_Send`,
-- in the function 7.
abbrev ops : CallOps
ops = record {
  values = record {
    is_phi = λ v. v == 9;
    is_alloca = λ v. v == 1 || v == 3;
    is_function = λ v. v == 6 || v == 7;
    has_pointer_type = λ _. true;
    has_void_pointer_type = λ _. true;
    store_operands = λ v. if v == 2 then some (1, 3) else none;
    users = λ v.
        if v == 1
        then 2 ∷ 9 ∷ []
        else if v == 3
        then 2 ∷ 4 ∷ []
        else if v == 4
        then 5 ∷ []
        else if v == 9
        then 4 ∷ []
        else [];
    is_call = λ v. v == 5;
    called_function = λ v. if v == 5 then 6 else 0;
    call_args = λ _. 4 ∷ [];
    is_intrinsic = λ _. false;
    is_declaration = λ v. v == 6;
    function_args = λ _. 8 ∷ [];
    function_name = λ v. if v == 6 then "MPI_Send" else "main";
  };
  is_indirect_call = λ _. false;
  argument = λ f n. 8;
  captured = λ c n. 0;
  instructions = λ _. 1 ∷ 2 ∷ 3 ∷ 4 ∷ 5 ∷ [];
  demangle = λ name. name;
}

abbrev never : ℕ → Bool
never _ = false

abbrev matcher : ℕ → MatchResult
matcher c = if c == 5 then match else no_match

abbrev handler : Handler
handler = forward_filter ops never never matcher none

abbrev omp : OmpHelper
omp = omp_context ops never

abbrev program : List ℕ
program = 1 ∷ 2 ∷ 3 ∷ 4 ∷ 5 ∷ 9 ∷ []

is_among-Memᴰ : (v : ℕ) (vs : List ℕ) → is_among v vs ≡ true → Memᴰ v vs
is_among-Memᴰ v [] h = absurd (ground arith)
is_among-Memᴰ v (w ∷ vs) h = elim (Bool-cases (w == v)) [
  | inl e ↦ Memᴰ.head (ground arith)
  | inr e ↦ Memᴰ.tail (is_among-Memᴰ v vs (ground arith))
]

abbrev is_within : List ℕ → Bool
is_within [] = true
is_within (v ∷ vs) = is_among v program && is_within vs

is_within-Memᴰ : (vs : List ℕ) → is_within vs ≡ true → (v : ℕ) → Memᴰ v vs → Memᴰ v program
is_within-Memᴰ [] h v m = absurd (Memᴰ.not-nil m)
is_within-Memᴰ (w ∷ vs) h v m = elim (Memᴰ.cases_cons m) [
  | inl same ↦ is_among-Memᴰ v program (rw same (ground arith))
  | inr rest ↦ is_within-Memᴰ vs (ground arith) v rest
]

users_in_program : (n user : ℕ) → Memᴰ user (ops.values.users n) → Memᴰ user program
users_in_program n user m = elim (Bool-cases (n == 1)) [
  | inl e ↦ is_within-Memᴰ (2 ∷ 9 ∷ []) refl user (rw e at m)
  | inr e1 ↦ elim (Bool-cases (n == 3)) [
    | inl e ↦ is_within-Memᴰ (2 ∷ 4 ∷ []) refl user (rw (e1, e) at m)
    | inr e3 ↦ elim (Bool-cases (n == 4)) [
      | inl e ↦ is_within-Memᴰ (5 ∷ []) refl user (rw (e1, e3, e) at m)
      | inr e4 ↦ elim (Bool-cases (n == 9)) [
        | inl e ↦ is_within-Memᴰ (4 ∷ []) refl user (rw (e1, e3, e4, e) at m)
        | inr e9 ↦ absurd (Memᴰ.not-nil (rw (e1, e3, e4, e9) at m))
      ]
    ]
  ]
]

pointers_in_program :
    (n value pointer : ℕ)
    → ops.values.store_operands n ≡ some (value, pointer)
    → Memᴰ pointer program
pointers_in_program n value pointer h = elim (Bool-cases (n == 2)) [
  | inl e ↦
      let same : pointer ≡ 3 = sym (ap (λ (v : ℕ × ℕ). v.1) (some_inj (rw e at h))) in
      Memᴰ.tail (Memᴰ.tail (Memᴰ.head same))
  | inr e ↦ absurd (none-ne-some (rw e at h))
]

abbrev no_zero : List ℕ → Bool
no_zero [] = true
no_zero (v ∷ vs) = not (v == 0) && no_zero vs

no_zero-Memᴰ : (vs : List ℕ) (n : ℕ) → no_zero vs ≡ true → Memᴰ n vs → n ≢ 0
no_zero-Memᴰ [] n h m z = absurd (Memᴰ.not-nil m)
no_zero-Memᴰ (v ∷ vs) n h m z = elim (Memᴰ.cases_cons m) [
  | inl same ↦ ground arith
  | inr rest ↦ no_zero-Memᴰ vs n (ground arith) rest z
]

program-IsProgram : IsProgram ops.values program
program-IsProgram = record {
  users_in = users_in_program;
  pointers_in = pointers_in_program;
  no_null = λ n m. no_zero-Memᴰ program n refl m;
}

program-IsFinite : IsFinite ops.values handler omp (search ops.values) program
program-IsFinite =
    forward_filter-IsFinite ops never never never matcher none program program-IsProgram

dfs_filter-Keeps_example :
    (filter : Bool) × (p : IrPath) × (plist : List IrPath) × (dfs_filter ops.values handler omp
        (search ops.values)
        6
        1
        empty_path
        []
      ≡ done (filter, p, plist))
    × (filter ≡ true → p.path ≡ [])
    × Finds ops.values handler omp (search ops.values) program program-IsFinite (1 ∷ []) filter
dfs_filter-Keeps_example =
    dfs_filter-Keeps ops.values handler omp (search ops.values) program program-IsFinite 6 1
      (Memᴰ.head refl) (omega arith)

to_send :
    Leads ops.values handler omp
      (search ops.values)
      (no_phi ops.values handler omp (search ops.values))
      (1 ∷ [])
      (5 ∷ 4 ∷ 3 ∷ 2 ∷ 1 ∷ [])
unfolding callsite search
to_send = step refl refl (Memᴰ.head refl) refl (
    step refl refl (Memᴰ.head refl) refl (
      step refl refl (Memᴰ.tail (Memᴰ.head refl)) refl (step refl refl (Memᴰ.head refl) refl here)))

send-Keeps :
    Keeps ops.values handler omp
      (search ops.values)
      (no_phi ops.values handler omp (search ops.values))
      (5 ∷ 4 ∷ 3 ∷ 2 ∷ 1 ∷ [])
unfolding callsite callsite_decl std_decl correlate find_arg
send-Keeps = at_call refl

filter-Keeps_example :
    filter ops.values handler omp (search ops.values) (args ops) 6 1 7 1
    ≡ done (
        is_filtered
          (checked ops.values handler omp (search ops.values) (args ops) 1 (callsite_path 7)))
filter-Keeps_example =
    filter-Keeps ops.values handler omp (search ops.values) program program-IsFinite (args ops) 6 0
      7 1 (5 ∷ 4 ∷ 3 ∷ 2 ∷ 1 ∷ []) (Memᴰ.head refl) (omega arith) to_send send-Keeps

abbrev all_users : ℕ → Option (List ℕ)
all_users v = some (ops.values.users v)

abbrev always : ℕ → Bool
always _ = true

find_use-Uses_example :
    (f : Bool) × (find_use all_users always ops.values.is_call 6 3 ≡ done f)
    × Found all_users always ops.values.is_call 3 program users_in_program f
find_use-Uses_example =
    find_use-Uses all_users always ops.values.is_call 3 program users_in_program 6 (omega arith)
