-- ===== src/Runtime/Resolution/Member.antt =====
-- The search of the member at an offset: `get_member_index_at`.
use type_art.Prelude.{
  if◌then◌else◌, ℕ, zero, suc, ◌+◌, ◌-◌, ◌≤◌, ◌<◌, ◌≡◌, refl, ltb, leb, inl, inr, Bool-cases, List,
  some, length, get_elem?, get_elem?-lt, get_elem?_of_lt, arith,
}
use type_art.Runtime.Resolution.Outcomes.{done}
use type_art.Runtime.Resolution.{StructLayout, member_loop, get_member_index_at}

-- A member that starts at or before an offset, the next one, if there is one, starting behind it.
pub record IsMemberAt (offsets : List ℕ) (offset i : ℕ) : Type 0 where
  pub below : (o : ℕ) × (get_elem? offsets i ≡ some o) × (o ≤ offset)
  pub above : (o : ℕ) → get_elem? offsets (suc i) ≡ some o → offset < o

member_loop_next :
    (rounds : ℕ) (offsets : List ℕ) (offset i next : ℕ)
    → get_elem? offsets (suc i) ≡ some next
    → member_loop (suc rounds) offsets offset i
      ≡ (if leb next offset then member_loop rounds offsets offset (suc i) else done i)
unfolding member_loop
member_loop_next rounds offsets offset i next found = ground arith

-- The loop advances past every start that is not behind the offset, and reads in range.
pub member_loop-IsMemberAt :
    (rounds : ℕ) (offsets : List ℕ) (offset i o : ℕ)
    → suc (rounds + i) ≡ length offsets
    → get_elem? offsets i ≡ some o
    → o ≤ offset
    → (j : ℕ) × (member_loop rounds offsets offset i ≡ done j) × IsMemberAt offsets offset j
unfolding member_loop
member_loop-IsMemberAt zero offsets offset i o size at le = (
  i,
  refl,
  record {
    below = (o, at, le);
    above = λ p e. absurd (omega (arith, get_elem?-lt offsets (suc i) e));
  },
)
member_loop-IsMemberAt (suc rounds) offsets offset i o size at le =
    let (next, found) = get_elem?_of_lt offsets (suc i) (omega arith) in
    elim (Bool-cases (leb next offset)) [
      | inl e ↦
          let (j, ends, is) =
            member_loop-IsMemberAt rounds offsets offset (suc i) next (omega arith) found
              (ground arith) in
          (j, rw (member_loop_next rounds offsets offset i next found, e) ends, is)
      | inr e ↦ (
        i,
        rw (member_loop_next rounds offsets offset i next found, e) refl,
        record { below = (o, at, le); above = λ p f. ground arith },
      )
    ]

get_member_index_at-some :
    (l : StructLayout) (offset last : ℕ)
    → 0 < l.num_members
    → get_elem? l.offsets (l.num_members - 1) ≡ some last
    → get_member_index_at l offset ≡ (
        if ltb last offset
        then done (l.num_members - 1)
        else member_loop (l.num_members - 1) l.offsets offset 0)
unfolding get_member_index_at
get_member_index_at-some l offset last h found = ground arith

-- If there are as many members as offsets, and the first one starts at or before the offset,
-- `get_member_index_at` reads in range and finds a member that starts at or before the offset, the
-- next one, if there is one, starting behind it.
pub get_member_index_at-IsMemberAt :
    (l : StructLayout) (offset o : ℕ)
    → l.num_members ≡ length l.offsets
    → get_elem? l.offsets 0 ≡ some o
    → o ≤ offset
    → (j : ℕ) × (get_member_index_at l offset ≡ done j) × IsMemberAt l.offsets offset j
unfolding get_member_index_at
get_member_index_at-IsMemberAt l offset o size at le =
    let some_members = get_elem?-lt l.offsets 0 at in
    let (last, found) = get_elem?_of_lt l.offsets (l.num_members - 1) (omega arith) in
    elim (Bool-cases (ltb last offset)) [
      | inl e ↦ (
        l.num_members - 1,
        rw (get_member_index_at-some l offset last (omega arith) found, e) refl,
        record {
          below = (last, found, ground arith);
          above = λ p f. absurd (omega (arith, get_elem?-lt l.offsets (suc (l.num_members - 1)) f));
        },
      )
      | inr e ↦
          let (j, ends, is) =
            member_loop-IsMemberAt (l.num_members - 1) l.offsets offset 0 o (omega arith) at le in
          (j, rw (get_member_index_at-some l offset last (omega arith) found, e) ends, is)
    ]
