-- ===== src/Runtime/Resolution/Reply.antt =====
-- `getTypeInfo` as a whole: the type at an address, given the allocation at or before it.
use type_art.Prelude.{
  ℕ, ◌+◌, ◌-◌, ◌*◌, ◌/◌, ◌%◌, ◌≤◌, ◌<◌, ◌≡◌, refl, sym, ◌∙◌, subst, ◌==◌, true, false, some, inl,
  inr, Bool-cases, arith, division, quotient_lt, ltb→lt, some_inj, ltb,
}
use type_art.Prelude.Int.{ℤ}
use type_art.TypeLib.Types.{StructTypeInfo}
use type_art.TypeLib.TypeDb.{
  TypeDb, get_type_size, get_struct_info, is_struct_type, is_builtin_type,
}
use type_art.TypeLib.TypeDb.Kinds.{get_type_size_cases}
use type_art.Runtime.PointerMap.{PointerInfo}
use type_art.Runtime.Recorder.{RecorderOps}
use type_art.Runtime.Resolution.Outcomes.{Outcome, done, status, unknown_address, bad_alignment}
use type_art.Runtime.Resolution.{
  word, resolve, get_element_type, get_type_info, get_containing_type_info,
}
use type_art.Runtime.Resolution.Layout.{AllLayouts, Holds}
use type_art.Runtime.Resolution.Lookup.{here, within}
use type_art.Runtime.Resolution.Nesting.{IsAnswer, present, absent, resolve-IsAnswer}
use type_art.Runtime.Resolution.Containing.{
  IsBlock, get_containing_type_info_inside, get_containing_type_info_outside,
}
use type_art.Runtime.Resolution.Begins.{Begins, Begins-IsAt, IsAt-Begins, resolve_element}

-- What a query `d` bytes behind the base of an allocation answers and records: the element that
-- begins there; a misalignment, if none does; or an unknown address, which is recorded.
pub data IsReply {S : Type 0} (ops : RecorderOps S) (db : TypeDb) (base_ptr : ℕ)
    (info : PointerInfo) (r : S) (d : ℕ) : (Outcome (ℤ × ℕ) × S) → Type 0 where
  begins :
      (t : ℤ) (c : ℕ) → Begins db info d t c → IsReply ops db base_ptr info r d (done (t, c), r)
  misaligned :
      d < info.count * get_type_size db info.type_id
      → ((t : ℤ) (c : ℕ) → ¬ Begins db info d t c)
      → IsReply ops db base_ptr info r d (status bad_alignment, r)
  outside :
      info.count * get_type_size db info.type_id ≤ d
      → IsReply ops db base_ptr info r d
          (status unknown_address, ops.inc_addr_missing (base_ptr + d) r)

builtin_struct : (id : ℤ) → is_builtin_type id ≡ true → is_struct_type id ≡ true → ⊥
builtin_struct id b k = ground arith

get_element_type_exact :
    (db : TypeDb) (fuel addr : ℕ) (type : ℤ) (count x : ℕ)
    → (x == 0) ≡ true
    → get_element_type fuel db addr type count x ≡ done (type, count)
unfolding get_element_type
get_element_type_exact db fuel addr type count x e = rw e refl

get_element_type_builtin :
    (db : TypeDb) (fuel addr : ℕ) (type : ℤ) (count x : ℕ)
    → (x == 0) ≡ false
    → is_builtin_type type ≡ true
    → get_element_type fuel db addr type count x ≡ status bad_alignment
unfolding get_element_type
get_element_type_builtin db fuel addr type count x e b = rw (e, b) refl

module _ {S : Type 0} (ops : RecorderOps S) (db : TypeDb) (rank : ℤ → ℕ) (all : AllLayouts db rank)
    (r : S) (base_ptr : ℕ) (info : PointerInfo) (block : IsBlock db base_ptr info) (fuel : ℕ)
    (deep : (s : StructTypeInfo)
      → get_struct_info db info.type_id ≡ some s
      → rank s.type_id < fuel) where
  abbrev size : ℕ
  size = get_type_size db info.type_id

  module _ (d : ℕ) (inside : d < info.count * size) where
    element_answer : Outcome (ℤ × ℕ)
    element_answer =
        get_element_type fuel db (base_ptr + d) info.type_id (info.count - d / size) (d % size)

    get_type_info_inside :
        get_type_info ops fuel db r (base_ptr + d) base_ptr info ≡ (element_answer, r)
    unfolding get_type_info element_answer
    get_type_info_inside =
        let (whole, rest) = division d size block.sized in
        let at : base_ptr + d / size * size + d % size ≡ base_ptr + d = omega arith in
        let containing : get_containing_type_info db (base_ptr + d) base_ptr info
            ≡ done (info.count - d / size, d % size) =
          subst
            (λ a.
              get_containing_type_info db a base_ptr info ≡ done (info.count - d / size, d % size))
            at
            (get_containing_type_info_inside db base_ptr info block (d / size) (d % size)
              (quotient_lt d info.count size block.sized inside) rest) in
        rw containing refl

    resolves :
        (s : StructTypeInfo)
        → is_builtin_type info.type_id ≡ false
        → get_struct_info db info.type_id ≡ some s
        → size ≡ s.extent
        → (d % size == 0) ≡ false
        → element_answer ≡ resolve fuel db (base_ptr + d / size * size) (d % size) s
    unfolding element_answer
    resolves s other known extent e =
        let (whole, rest) = division d size block.sized in
        subst
          (λ a.
            get_element_type fuel db (base_ptr + a) info.type_id (info.count - d / size) (d % size)
            ≡ resolve fuel db (base_ptr + d / size * size) (d % size) s)
          whole
          (resolve_element db base_ptr info block fuel s (d / size) (d % size) (rw whole inside)
            (ground arith) (rw (sym extent) rest) other known)

    Begins-whole : (d % size == 0) ≡ true → Begins db info d info.type_id (info.count - d / size)
    Begins-whole e =
        IsAt-Begins db base_ptr info block
          (here (quotient_lt d info.count size block.sized inside) (ground arith) refl refl)

    misaligned_builtin :
        is_builtin_type info.type_id ≡ true
        → (d % size == 0) ≡ false
        → (t : ℤ) (c : ℕ) → ¬ Begins db info d t c
    misaligned_builtin kind e t c b = elim (Begins-IsAt db base_ptr info block b) [
      | here _ whole _ _ ↦ ground arith
      | within _ _ _ struct _ _ ↦ builtin_struct info.type_id kind struct
    ]

    module _ (s : StructTypeInfo) (kind : is_struct_type info.type_id ≡ true)
        (known : get_struct_info db info.type_id ≡ some s) (e : (d % size == 0) ≡ false) where
      answer-IsReply :
          {o : Outcome (ℤ × ℕ)}
          → IsAnswer db s (d % size) o
          → IsReply ops db base_ptr info r d (o, r)
      answer-IsReply (present t c h) = begins t c (
          IsAt-Begins db base_ptr info block (
            within s (quotient_lt d info.count size block.sized inside) (ground arith) kind known
              h))
      answer-IsReply (absent nothing) = misaligned inside (λ t c b.
          elim (Begins-IsAt db base_ptr info block b) [
            | here _ whole _ _ ↦ ground arith
            | within other _ _ _ known_too h ↦
                nothing t c
                  (subst (λ y. Holds db y (d % size) t c) (some_inj (sym known_too ∙ known)) h)
          ])

    element_answer-IsReply : IsReply ops db base_ptr info r d (element_answer, r)
    unfolding element_answer
    element_answer-IsReply =
        let (whole, rest) = division d size block.sized in
        elim (Bool-cases (d % size == 0)) [
          | inl e ↦
              rw
                (get_element_type_exact db fuel (base_ptr + d) info.type_id (info.count - d / size)
                  (d % size) e)
                (begins info.type_id (info.count - d / size) (Begins-whole e))
          | inr e ↦ elim (get_type_size_cases db info.type_id block.sized) [
            | inl builtin ↦
                rw
                  (get_element_type_builtin db fuel (base_ptr + d) info.type_id
                    (info.count - d / size) (d % size) e builtin)
                  (misaligned inside (misaligned_builtin builtin e))
            | inr (s, kind, other, known, extent) ↦
                let room : d / size * size + d % size < info.count * size = omega arith in
                let small = block.small in
                rw (resolves s other known extent e) (
                  answer-IsReply s kind known e (
                    resolve-IsAnswer db rank all fuel s (base_ptr + d / size * size) (d % size)
                      (all info.type_id s known) (deep s known) (rw (sym extent) rest) (omega arith)
                      (omega arith)))
          ]
        ]

  get_type_info_outside :
      (d : ℕ)
      → info.count * size ≤ d
      → base_ptr + d < word
      → get_type_info ops fuel db r (base_ptr + d) base_ptr info
        ≡ (status unknown_address, ops.inc_addr_missing (base_ptr + d) r)
  unfolding get_type_info
  get_type_info_outside d far room =
      rw (get_containing_type_info_outside db base_ptr info block (base_ptr + d) (omega arith) room)
        refl

  -- For well-formed layouts, a block of a known type, not empty, not at null and within the
  -- address space, and a fuel above the nesting depth, `getTypeInfo` at an address from the base
  -- on always answers, with no failed assertion, division by 0 or read out of range: what begins
  -- at the address; a misalignment, if the address is in the block and nothing begins there; an
  -- unknown address, if it is behind the block. It records a missed address in the last case and
  -- nothing in the others.
  pub get_type_info-IsReply :
      (d : ℕ)
      → base_ptr + d < word
      → IsReply ops db base_ptr info r d (get_type_info ops fuel db r (base_ptr + d) base_ptr info)
  get_type_info-IsReply d room = elim (Bool-cases (ltb d (info.count * size))) [
    | inl lt ↦
        rw (get_type_info_inside d (ltb→lt d (info.count * size) lt))
          (element_answer-IsReply d (ltb→lt d (info.count * size) lt))
    | inr le ↦
        let far : info.count * size ≤ d = ground arith in
        rw (get_type_info_outside d far room) (outside far)
  ]
