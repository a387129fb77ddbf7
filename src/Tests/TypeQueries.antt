-- ===== src/Tests/TypeQueries.antt =====
-- Queries of addresses within an array of nested structs.
use type_art.Prelude.{
  ◌*◌, none-ne-some, ◌≤◌, ℕ, ◌+◌, ◌≡◌, ◌<◌, refl, true, false, [], some, some_inj, arith, sym,
  subst, ◌∙◌,
}
use type_art.Prelude.Int.{pos}
use type_art.TypeLib.Types.{StructTypeInfo}
use type_art.TypeLib.TypeDb.{
  find_id, insert_id, register_struct, get_struct_info, get_type_size, is_valid,
}
use type_art.TypeLib.TypeDb
use type_art.Runtime.PointerMap.{PointerInfo, lookup}
use type_art.Runtime.PointerMap.Order.{empty-IsSorted, lookup_empty}
use type_art.Runtime.Recorder.{none_recorder}
use type_art.Runtime.Tracker.{on_alloc}
use type_art.Runtime.Callbacks.{set_scope, Runtime, alloc, callback, body}
use type_art.Runtime.Resolution.Outcomes.{done, status, unknown_address}
use type_art.Runtime.Resolution.{
  word, resolve, get_sub_type_info, get_member_index_at, member_loop, locate, add_byte_offset,
  get_type_info, get_containing_type_info, to_struct_layout_info,
}
use type_art.Runtime.Resolution
use type_art.Runtime.Resolution.Layout.{Holds, element, nested}
use type_art.Runtime.Resolution.Member.{IsMemberAt, get_member_index_at-IsMemberAt}
use type_art.Runtime.Resolution.Nesting.{IsAnswer, resolve-IsAnswer}
use type_art.Runtime.Resolution.Containing.{
  IsBlock, IsContaining, get_containing_type_info-IsContaining,
}
use type_art.Runtime.Resolution.Begins.{Begins}
use type_art.Runtime.Resolution.Reply.{IsReply, get_type_info-IsReply}
use type_art.Runtime.Resolution.Unique.{get_type_info-Begins}
use type_art.Runtime.Interface.{typeart_get_type}
use type_art.Runtime.Interface.Queries.{
  typeart_get_type-kept, typeart_get_type-callback, typeart_get_type_below,
}
use type_art.Tests.Data.{inner, outer, types, depth, outer-IsLayout, types-AllLayouts}

abbrev info : PointerInfo
info = record { type_id = pos 257; count = 4; debug = 77 }

block : IsBlock types 4096 info
unfolding register_struct is_valid find_id insert_id TypeDb.get_struct_info get_type_size
block = record {
  sized = omega arith;
  nonempty = omega arith;
  real = omega arith;
  small = omega arith;
}

-- The `double` of an `Inner` is 8 bytes behind its start.
inner_at_8 : Holds types inner 8 (pos 6) 1
unfolding get_type_size
inner_at_8 =
    element inner 1 8 (pos 6) 1 0 (record { offset_at = refl; type_at = refl; count_at = refl })
      (omega arith)

-- The one of the second `Inner` is 24 bytes behind the start of an `Outer`.
outer_at_24 : Holds types outer 24 (pos 6) 1
unfolding register_struct is_valid find_id insert_id TypeDb.get_struct_info get_type_size
outer_at_24 =
    nested outer inner 0 0 (pos 256) 2 1 8 (pos 6) 1
      (record { offset_at = refl; type_at = refl; count_at = refl }) (omega arith) refl refl
      (omega arith) (omega arith) inner_at_8

-- In the second `Outer` of the array.
array_at_64 : Begins types info 64 (pos 6) 1
unfolding register_struct is_valid find_id insert_id TypeDb.get_struct_info get_type_size
array_at_64 =
    Begins.nested outer 1 24 (pos 6) 1 (omega arith) refl refl (omega arith) (omega arith)
      outer_at_24

enough_fuel :
    (s : StructTypeInfo) → TypeDb.get_struct_info types (pos 257) ≡ some s → depth s.type_id < 2
unfolding register_struct is_valid find_id insert_id TypeDb.get_struct_info
enough_fuel s h = subst (λ x. depth x.type_id < 2) (some_inj h) (omega arith)

resolve_runs : resolve 2 types 4096 24 outer ≡ done (pos 6, 1)
unfolding resolve get_sub_type_info get_member_index_at member_loop locate add_byte_offset
    Resolution.get_struct_info register_struct is_valid find_id insert_id TypeDb.get_struct_info
    get_type_size
resolve_runs = refl

resolve-IsAnswer_example : IsAnswer types outer 24 (resolve 2 types 4096 24 outer)
resolve-IsAnswer_example =
    resolve-IsAnswer types depth types-AllLayouts 2 outer 4096 24 outer-IsLayout (omega arith)
      (omega arith) (omega arith) (omega arith)

get_member_index_at_example :
    (j : ℕ) × (get_member_index_at (to_struct_layout_info outer) 24 ≡ done j)
    × IsMemberAt outer.offsets 24 j
get_member_index_at_example =
    get_member_index_at-IsMemberAt (to_struct_layout_info outer) 24 0 refl refl (omega arith)

get_type_info-Begins_example :
    get_type_info none_recorder 2 types tt (4096 + 64) 4096 info ≡ (done (pos 6, 1), tt)
get_type_info-Begins_example =
    get_type_info-Begins types depth types-AllLayouts 4096 info block none_recorder tt 2 enough_fuel
      array_at_64

get_type_info-IsReply_example :
    IsReply none_recorder types 4096 info tt 64
      (get_type_info none_recorder 2 types tt (4096 + 64) 4096 info)
get_type_info-IsReply_example =
    get_type_info-IsReply none_recorder types depth types-AllLayouts tt 4096 info block 2
      enough_fuel 64 (omega arith)

tests_fit : 4096 + 1 * get_type_size types (pos 255) < word
unfolding get_type_size
tests_fit = omega arith

get_containing_type_info-IsContaining_example :
    IsContaining types 4100 4096
      (record { type_id = pos 255; count = 1; debug = 77 })
      (get_containing_type_info types 4100 4096
        (record { type_id = pos 255; count = 1; debug = 77 }))
get_containing_type_info-IsContaining_example =
    get_containing_type_info-IsContaining types 4100 4096
      (record { type_id = pos 255; count = 1; debug = 77 }) (omega arith) (omega arith)
      (omega arith) tests_fit

abbrev idle : Runtime (Unit {0})
idle = record {
  tracker = record { wrapper = []; recorder = tt; stack_vars = λ t. [] };
  rt_scope = λ t. false;
}

abbrev after_alloc : Runtime (Unit {0})
after_alloc = record {
  tracker = on_alloc none_recorder types 0 idle.tracker 4096 (pos 257) 4 77;
  rt_scope = set_scope (set_scope idle.rt_scope 0 true) 0 false;
}

alloc_returns : callback none_recorder types 0 (alloc 4096 (pos 257) 4 77) idle ≡ some after_alloc
unfolding callback body
alloc_returns = refl

nothing_tracked :
    (j : ℕ) (w : PointerInfo) → lookup j idle.tracker.wrapper ≡ some w → j ≤ 4160 → j ≤ 4096
nothing_tracked j w h le = absurd (none-ne-some (sym (lookup_empty j) ∙ h))

typeart_get_type-callback_example :
    (typeart_get_type none_recorder 2 types 1 (4096 + 64) after_alloc).0 ≡ done (pos 6, 1)
typeart_get_type-callback_example =
    typeart_get_type-callback none_recorder 2 types depth 4096 info 0 1 idle after_alloc
      types-AllLayouts block enough_fuel empty-IsSorted refl alloc_returns nothing_tracked
      array_at_64

typeart_get_type_below_example :
    (typeart_get_type none_recorder 2 types 1 4160 idle).0 ≡ status unknown_address
typeart_get_type_below_example =
    typeart_get_type_below none_recorder 2 types 1 4160 idle empty-IsSorted
      (λ j w h. absurd (none-ne-some (sym (lookup_empty j) ∙ h)))

typeart_get_type-kept_example :
    let rt' = (typeart_get_type none_recorder 2 types 1 4160 idle).1 in
    (rt'.tracker.wrapper ≡ []) × (rt'.tracker.stack_vars ≡ (λ t. [])) × (rt'.rt_scope 1 ≡ false)
typeart_get_type-kept_example = typeart_get_type-kept none_recorder 2 types 1 4160 1 idle
