-- ===== src/Passes/MemOps.antt =====
-- lib/passes/analysis/MemOpData.h: the functions that allocate and free memory, by name.
use type_art.Prelude.{List, [], ◌∷◌, Option, none, some, String}
use type_art.Passes.Filter.NameTables.{find_key}

pub data MemOpKind : Type 0 where
  new_like malloc_like aligned_alloc_like calloc_like realloc_like free_like delete_like : MemOpKind

abbrev pub alloc_map : List (String × MemOpKind)
alloc_map =
    ("malloc", malloc_like)
    ∷ ("calloc", calloc_like)
    ∷ ("realloc", realloc_like)
    ∷ ("aligned_alloc", aligned_alloc_like)
    ∷ ("_Znwm", new_like)
    ∷ ("_Znwj", new_like)
    ∷ ("_Znam", new_like)
    ∷ ("_Znaj", new_like)
    ∷ ("_ZnwjRKSt9nothrow_t", malloc_like)
    ∷ ("_ZnwmRKSt9nothrow_t", malloc_like)
    ∷ ("_ZnajRKSt9nothrow_t", malloc_like)
    ∷ ("_ZnamRKSt9nothrow_t", malloc_like)
    ∷ ("_ZnwjSt11align_val_t", new_like)
    ∷ ("_ZnwjSt11align_val_tRKSt9nothrow_t", malloc_like)
    ∷ ("_ZnwmSt11align_val_t", new_like)
    ∷ ("_ZnwmSt11align_val_tRKSt9nothrow_t", malloc_like)
    ∷ ("_ZnajSt11align_val_t", new_like)
    ∷ ("_ZnajSt11align_val_tRKSt9nothrow_t", malloc_like)
    ∷ ("_ZnamSt11align_val_t", new_like)
    ∷ ("_ZnamSt11align_val_tRKSt9nothrow_t", malloc_like)
    ∷ []

abbrev pub dealloc_map : List (String × MemOpKind)
dealloc_map =
    ("free", free_like)
    ∷ ("_ZdlPv", delete_like)
    ∷ ("_ZdaPv", delete_like)
    ∷ ("_ZdlPvj", delete_like)
    ∷ ("_ZdlPvm", delete_like)
    ∷ ("_ZdlPvRKSt9nothrow_t", delete_like)
    ∷ ("_ZdaPvj", delete_like)
    ∷ ("_ZdaPvm", delete_like)
    ∷ ("_ZdaPvRKSt9nothrow_t", delete_like)
    ∷ ("_ZdaPvSt11align_val_tRKSt9nothrow_t", delete_like)
    ∷ ("_ZdlPvSt11align_val_tRKSt9nothrow_t", delete_like)
    ∷ ("_ZdlPvjSt11align_val_t", delete_like)
    ∷ ("_ZdlPvmSt11align_val_t", delete_like)
    ∷ ("_ZdaPvjSt11align_val_t", delete_like)
    ∷ ("_ZdaPvmSt11align_val_t", delete_like)
    ∷ []

abbrev pub alloc_kind : String → Option MemOpKind
alloc_kind function = find_key function alloc_map

abbrev pub dealloc_kind : String → Option MemOpKind
dealloc_kind function = find_key function dealloc_map

unfoldable pub kind : String → Option MemOpKind
kind function = elim (alloc_kind function) [ some k ↦ some k | none ↦ dealloc_kind function ]
