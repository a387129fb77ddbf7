-- ===== src/Runtime/Interface.antt =====
-- lib/runtime/RuntimeInterface.h: the queries that a client calls, which stand at the end of
-- TypeResolution.cpp. What a query writes through its pointers is part of its result. `tid` is
-- the calling thread, `fuel` bounds the nesting of structs.
pub mod Queries
use type_art.Prelude.{
  ℕ, ◌+◌, ◌-◌, ◌^◌, Bool, true, false, ◌||◌, ◌==◌, if◌then◌else◌, List, [], ◌∷◌, ◌++◌, Option, none,
  some, String, length,
}
use type_art.Prelude.Int.{ℤ, pos, negsuc}
use type_art.TypeLib.Types.{StructTypeInfo, int8}
use type_art.TypeLib.TypeDb.{
  TypeDb, get_type_name, is_vector_type, is_valid, is_reserved_type, is_builtin_type,
  is_struct_type, is_user_defined_type, get_type_size,
}
use type_art.Runtime.PointerMap.{PointerInfo}
use type_art.Runtime.Recorder.{RecorderOps}
use type_art.Runtime.Tracker.{Tracker, on_alloc, find_base_alloc}
use type_art.Runtime.Callbacks.{Runtime, set_scope}
use type_art.Runtime.Resolution.Outcomes.{
  Outcome, Status, done, status, unknown_address, error, fault, out_of_fuel, ◌>>=◌,
}
use type_art.Runtime.Resolution.{
  StructLayout, SubType, get_type_info, get_containing_type_info, get_sub_type_info,
  get_struct_info, to_struct_layout_info,
}

-- What is written for an id that is no registered struct.
abbrev pub no_layout : StructLayout
no_layout = record {
  type_id = negsuc (2 ^ 31 - 1);
  name = "";
  extent = 0;
  num_members = 0;
  offsets = [];
  member_types = [];
  count = [];
}

abbrev pub layout_for : Outcome StructTypeInfo → StructLayout
layout_for (done s) = to_struct_layout_info s
layout_for _ = no_layout

pub query_struct_layout : TypeDb → ℤ → Outcome (Unit {0}) × StructLayout
query_struct_layout db type_id =
    let found = get_struct_info db type_id in (found >>= λ s. done tt, layout_for found)

-- `RTGuard` around a query, which does not look whether it should track.
pub guarded : {S A : Type 0} → ℕ → (Tracker S → A × Tracker S) → Runtime S → A × Runtime S
guarded tid body rt =
    let already_in_rt = rt.rt_scope tid in
    let inside = set_scope rt.rt_scope tid true in
    let (a, t) = body rt.tracker in
    (
      a,
      record {
        tracker = t;
        rt_scope = if already_in_rt then inside else set_scope inside tid false;
      },
    )

module _ {S : Type 0} (ops : RecorderOps S) (fuel : ℕ) (db : TypeDb) where
  pub query_type : ℕ → Tracker S → Outcome (ℤ × ℕ) × Tracker S
  query_type addr t =
      let counted = ops.inc_used_in_request addr t.recorder in
      elim (find_base_alloc ops t addr) [
        | none ↦ (status unknown_address, record t { recorder = counted })
        | some (base, info) ↦
            let (result, r) = get_type_info ops fuel db counted addr base info in
            (result, record t { recorder = r })
      ]

  pub typeart_get_type : ℕ → ℕ → Runtime S → Outcome (ℤ × ℕ) × Runtime S
  typeart_get_type tid addr rt = guarded tid (query_type addr) rt

  pub typeart_get_type_length : ℕ → ℕ → Runtime S → Outcome ℕ × Runtime S
  typeart_get_type_length tid addr rt =
      let (result, rt') = guarded tid (query_type addr) rt in (result >>= λ r. done r.1, rt')

  pub typeart_get_type_id : ℕ → ℕ → Runtime S → Outcome ℤ × Runtime S
  typeart_get_type_id tid addr rt =
      let (result, rt') = guarded tid (query_type addr) rt in (result >>= λ r. done r.0, rt')

  -- Written are the type and the base, if an allocation is found, and with a result the count and
  -- the byte offset.
  pub typeart_get_containing_type :
      ℕ → ℕ → Runtime S → (Option (ℤ × ℕ) × Outcome (ℕ × ℕ)) × Runtime S
  typeart_get_containing_type tid addr rt =
      guarded tid
        (λ t. elim (find_base_alloc ops t addr) [
          | none ↦ ((none, status unknown_address), t)
          | some (base, info) ↦
              ((some (info.type_id, base), get_containing_type_info db addr base info), t)
        ])
        rt

  pub typeart_get_subtype : ℕ → ℕ → ℕ → StructLayout → Runtime S → Outcome SubType × Runtime S
  typeart_get_subtype tid base_addr offset container_layout rt =
      guarded tid (λ t. (get_sub_type_info db base_addr offset container_layout, t)) rt

  -- The layout is written only if the address has a type.
  pub typeart_resolve_type_addr :
      ℕ → ℕ → Runtime S → (Outcome (Unit {0}) × Option StructLayout) × Runtime S
  typeart_resolve_type_addr tid addr rt =
      guarded tid
        (λ t.
          let (result, t') = query_type addr t in
          elim result [
            | done (type_id, size) ↦
                let (found, layout) = query_struct_layout db type_id in ((found, some layout), t')
            | status s ↦ ((status s, none), t')
            | fault ↦ ((fault, none), t')
            | out_of_fuel ↦ ((out_of_fuel, none), t')
          ])
        rt

  pub typeart_resolve_type_id : ℕ → ℤ → Runtime S → (Outcome (Unit {0}) × StructLayout) × Runtime S
  typeart_resolve_type_id tid type_id rt = guarded tid (λ t. (query_struct_layout db type_id, t)) rt

  -- The return address that is written, and the status.
  pub typeart_get_return_address : ℕ → ℕ → Runtime S → (Outcome (Unit {0}) × ℕ) × Runtime S
  typeart_get_return_address tid addr rt =
      guarded tid
        (λ t. elim (find_base_alloc ops t addr) [
          | none ↦ ((status unknown_address, 0), t)
          | some (base, info) ↦ ((done tt, info.debug), t)
        ])
        rt

  -- A copy of a string at an address that `malloc` returned, which is null if it failed; the copy
  -- is tracked. The result is the address and what is stored there.
  pub string2char : ℕ → ℕ → ℕ → List ℕ → Tracker S → (ℕ × List ℕ) × Tracker S
  string2char tid ret_addr string_copy src t =
      let source_length = length src + 1 in
      if string_copy == 0 then ((0, []), t) else (
        (string_copy, src ++ 0 ∷ []),
        on_alloc ops db tid t string_copy int8 source_length ret_addr,
      )

  -- What the search for a source location finds, and the addresses that `malloc` returns for the
  -- three copies, come from outside. The result is the status and what is written.
  pub typeart_get_source_location :
      ℕ
      → ℕ
      → Option (List ℕ × List ℕ × List ℕ)
      → ℕ
      → ℕ
      → ℕ
      → Runtime S
      → (Outcome (Unit {0}) × List (ℕ × List ℕ)) × Runtime S
  typeart_get_source_location tid ret_addr source_loc copy_a copy_b copy_c rt =
      guarded tid
        (λ t. elim source_loc [
          | none ↦ ((status unknown_address, []), t)
          | some loc ↦
              let (file, t1) = string2char tid ret_addr copy_a loc.0 t in
              let (function, t2) = string2char tid ret_addr copy_b loc.1 t1 in
              let (line, t3) = string2char tid ret_addr copy_c loc.2 t2 in
              let written = file ∷ function ∷ line ∷ [] in
              if file.0 == 0 || function.0 == 0 || line.0 == 0
              then ((status error, written), t3)
              else ((done tt, written), t3)
        ])
        rt

  pub typeart_get_type_name : ℕ → ℤ → Runtime S → String × Runtime S
  typeart_get_type_name tid type_id rt = guarded tid (λ t. (get_type_name db type_id, t)) rt

  pub typeart_is_vector_type : ℕ → ℤ → Runtime S → Bool × Runtime S
  typeart_is_vector_type tid type_id rt = guarded tid (λ t. (is_vector_type db type_id, t)) rt

  pub typeart_is_valid_type : ℕ → ℤ → Runtime S → Bool × Runtime S
  typeart_is_valid_type tid type_id rt = guarded tid (λ t. (is_valid db type_id, t)) rt

  pub typeart_is_reserved_type : ℕ → ℤ → Runtime S → Bool × Runtime S
  typeart_is_reserved_type tid type_id rt = guarded tid (λ t. (is_reserved_type type_id, t)) rt

  pub typeart_is_builtin_type : ℕ → ℤ → Runtime S → Bool × Runtime S
  typeart_is_builtin_type tid type_id rt = guarded tid (λ t. (is_builtin_type type_id, t)) rt

  pub typeart_is_struct_type : ℕ → ℤ → Runtime S → Bool × Runtime S
  typeart_is_struct_type tid type_id rt = guarded tid (λ t. (is_struct_type type_id, t)) rt

  pub typeart_is_userdefined_type : ℕ → ℤ → Runtime S → Bool × Runtime S
  typeart_is_userdefined_type tid type_id rt =
      guarded tid (λ t. (is_user_defined_type db type_id, t)) rt

  pub typeart_get_type_size : ℕ → ℤ → Runtime S → ℕ × Runtime S
  typeart_get_type_size tid type_id rt = guarded tid (λ t. (get_type_size db type_id, t)) rt
