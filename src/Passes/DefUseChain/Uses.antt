-- ===== src/Passes/DefUseChain/Uses.antt =====
-- The values that the uses of a value lead to, and what is added to the working set.
use type_art.Prelude.{
  ℕ, ◌+◌, ◌≤◌, ◌==◌, ==_iff, ◌≡◌, ◌≢◌, ◌↔◌, ◌⊎◌, inl, inr, refl, sym, subst, ◌∙◌, Bool, true, List,
  [], ◌∷◌, Option, length, Bool-cases, arith,
}
use mathlib.Core.Logic.{⊎_elim}
use mathlib.Core.List.{Memᴰ}
use mathlib.Core.List.Memᴰ
use type_art.Passes.Filter.NameTables.{value_or}
use type_art.Passes.Filter.IrPath.{is_among}
use type_art.Passes.Filter.BaseFilter.Walk.{unvisited, unvisited-lt}
use type_art.Passes.DefUseChain.{Chain, add_to_work_s, add_to_work}

pub is_among-Memᴰ : (n : ℕ) (vs : List ℕ) → (is_among n vs ≡ true) ↔ Memᴰ n vs
is_among-Memᴰ n [] = (λ h. cc, λ m. absurd (Memᴰ.not-nil m))
is_among-Memᴰ n (v ∷ vs) = (
  λ h. elim (Bool-cases (v == n)) [
    | inl e ↦ Memᴰ.head (sym ((==_iff v n).0 e))
    | inr e ↦ Memᴰ.tail ((is_among-Memᴰ n vs).0 (rw e at h))
  ],
  λ m. elim (Memᴰ.cases_cons m) [
    | inl s ↦ ground arith
    | inr rest ↦ ground (arith, (is_among-Memᴰ n vs).1 rest)
  ],
)

-- The values that a search goes on with.
abbrev pub nexts : (ℕ → Option (List ℕ)) → ℕ → List ℕ
nexts search v = value_or [] (search v)

pub data Uses (search : ℕ → Option (List ℕ)) (should_search : ℕ → Bool) (start : ℕ)
    : ℕ → Type 0 where
  first : {v : ℕ} → Memᴰ v (nexts search start) → v ≢ 0 → Uses search should_search start v
  next :
      {u v : ℕ}
      → Uses search should_search start u
      → should_search u ≡ true
      → Memᴰ v (nexts search u)
      → v ≢ 0
      → Uses search should_search start v

-- What adding values does to the two sets.
pub record IsAdded (values vals : List ℕ) (c c' : Chain) : Type 0 where
  pub kept : (a : ℕ) → Memᴰ a c.seen_set → Memᴰ a c'.seen_set
  pub entered : (a : ℕ) → Memᴰ a vals → a ≢ 0 → Memᴰ a c'.seen_set
  pub only :
      (a : ℕ)
      → Memᴰ a c'.seen_set
      → Memᴰ a c.seen_set ⊎ ((Memᴰ a vals × (a ≢ 0)) × Memᴰ a c'.working_set)
  pub waiting : (a : ℕ) → Memᴰ a c.working_set → Memᴰ a c'.working_set
  pub added : (a : ℕ) → Memᴰ a c'.working_set → Memᴰ a c.working_set ⊎ Memᴰ a c'.seen_set
  pub smaller :
      unvisited values c'.seen_set + length c'.working_set
      ≤ unvisited values c.seen_set + length c.working_set

IsAdded-trans :
    (values vals : List ℕ) (v : ℕ) (c c' c'' : Chain)
    → IsAdded values (v ∷ []) c c'
    → IsAdded values vals c' c''
    → IsAdded values (v ∷ vals) c c''
IsAdded-trans values vals v c c' c'' one rest = record {
  kept = λ a m. rest.kept a (one.kept a m);
  entered = λ a m n. elim (Memᴰ.cases_cons m) [
    | inl s ↦ rest.kept a (one.entered a (Memᴰ.head s) n)
    | inr m' ↦ rest.entered a m' n
  ];
  only = λ a m. elim (rest.only a m) [
    | inl m' ↦ elim (one.only a m') [
      | inl old ↦ inl old
      | inr ((new, n), w) ↦ inr ((Memᴰ.head (Memᴰ.eq_of_singleton new), n), rest.waiting a w)
    ]
    | inr ((new, n), w) ↦ inr ((Memᴰ.tail new, n), w)
  ];
  waiting = λ a m. rest.waiting a (one.waiting a m);
  added = λ a m. elim (rest.added a m) [
    | inl m' ↦ ⊎_elim inl (λ s. inr (rest.kept a s)) (one.added a m')
    | inr s ↦ inr s
  ];
  smaller = omega (arith, one.smaller, rest.smaller);
}

IsAdded-same :
    (values : List ℕ) (v : ℕ) (c : Chain)
    → (v ≢ 0 → Memᴰ v c.seen_set)
    → IsAdded values (v ∷ []) c c
IsAdded-same values v c h = record {
  kept = λ a m. m;
  entered = λ a m n.
      let s = Memᴰ.eq_of_singleton m in subst (λ b. Memᴰ b c.seen_set) (sym s) (h (λ z. n (cc)));
  only = λ a m. inl m;
  waiting = λ a m. m;
  added = λ a m. inl m;
  smaller = omega arith;
}

add_to_work_s-IsAdded :
    (values : List ℕ) (v : ℕ) (c : Chain)
    → Memᴰ v values
    → IsAdded values (v ∷ []) c (add_to_work_s v c)
unfolding add_to_work_s
add_to_work_s-IsAdded values v c m = elim (Bool-cases (v == 0)) [
  | inl null ↦ rw null (IsAdded-same values v c (λ n. absurd (n ((==_iff v 0).0 null))))
  | inr nn ↦ elim (Bool-cases (is_among v c.seen_set)) [
    | inl known ↦
        rw (nn, known) (IsAdded-same values v c (λ n. (is_among-Memᴰ v c.seen_set).0 known))
    | inr new ↦
        rw (nn, new)
          (record {
            kept = λ a s. Memᴰ.tail s;
            entered = λ a s n. Memᴰ.head (Memᴰ.eq_of_singleton s);
            only = λ a s. elim (Memᴰ.cases_cons s) [
              | inl e ↦ inr ((Memᴰ.head e, λ z. cc (nn, (==_iff v 0).1 (sym e ∙ z))), Memᴰ.head e)
              | inr old ↦ inl old
            ];
            waiting = λ a w. Memᴰ.tail w;
            added =
                λ a w. elim (Memᴰ.cases_cons w) [ inl e ↦ inr (Memᴰ.head e) | inr old ↦ inl old ];
            smaller = omega (arith, unvisited-lt values c.seen_set v m new);
          })
  ]
]

pub add_to_work-IsAdded :
    (values vals : List ℕ) (c : Chain)
    → ((v : ℕ) → Memᴰ v vals → Memᴰ v values)
    → IsAdded values vals c (add_to_work vals c)
unfolding add_to_work
add_to_work-IsAdded values [] c h = record {
  kept = λ a m. m;
  entered = λ a m n. absurd (Memᴰ.not-nil m);
  only = λ a m. inl m;
  waiting = λ a m. m;
  added = λ a m. inl m;
  smaller = omega arith;
}
add_to_work-IsAdded values (v ∷ vals) c h =
    IsAdded-trans values vals v c (add_to_work_s v c) (add_to_work vals (add_to_work_s v c))
      (add_to_work_s-IsAdded values v c (h v (Memᴰ.head refl)))
      (add_to_work-IsAdded values vals (add_to_work_s v c) (λ u m. h u (Memᴰ.tail m)))
