-- ===== src/Passes/Filter/CallGraph/Bodies.antt =====
-- The bodies of a call graph, and the loop of `reachable` over the functions found.
use type_art.Prelude.{
  ◌≡◌, ◌⊎◌, inl, inr, refl, ap, ◌∙◌, Bool, true, false, not, ◌&&◌, ◌||◌, [], ◌∷◌, some, String,
  if◌then◌else◌, Bool-cases, arith,
}
use mathlib.Core.Logic.{⊎_elim}
use mathlib.Core.List.{Memᴰ}
use mathlib.Core.List.Memᴰ
use text.Mathlib.Text.{◌==◌ as str_eq}
use text.Mathlib.TextEquality.{eq_iff}
use type_art.Passes.Filter.NameTables.{NameSet, find_key, value_or, subscript_key_lem}
use type_art.Passes.Filter.CallGraph.{
  maybe_reaches, never_reaches, JsonCg, read_has_body, and_has_body, match_loop, count_source,
  without_match,
}

-- Whether the graph knows a body of a function.
abbrev pub has_body : JsonCg → String → Bool
has_body cg name = value_or false (find_key name cg.has_body_map)

abbrev pub is_empty : NameSet → Bool
is_empty [] = true
is_empty (_ ∷ _) = false

-- Another graph with the same calls and the same bodies, in which the names that were looked up are
-- entered: one that was not there without a body.
pub record HasLookedUp (looked_up : String → Bool) (cg cg' : JsonCg) : Type 0 where
  pub calls : cg'.directly_called_functions ≡ cg.directly_called_functions
  pub targets : cg'.virtual_targets ≡ cg.virtual_targets
  pub entries :
      (name : String)
      → find_key name cg'.has_body_map
        ≡ (if looked_up name then some (has_body cg name) else find_key name cg.has_body_map)

pub HasLookedUp-has_body :
    {looked_up : String → Bool} {cg cg' : JsonCg} (name : String)
    → HasLookedUp looked_up cg cg'
    → has_body cg' name ≡ has_body cg name
HasLookedUp-has_body {looked_up = looked_up} name a = elim (Bool-cases (looked_up name)) [
  | inl e ↦ ap (value_or false) (a.entries name) ∙ rw e refl
  | inr e ↦ ap (value_or false) (a.entries name) ∙ rw e refl
]

pub HasLookedUp-trans :
    {r r' : String → Bool} {cg cg' cg'' : JsonCg}
    → HasLookedUp r cg cg'
    → HasLookedUp r' cg' cg''
    → HasLookedUp (λ n. r n || r' n) cg cg''
HasLookedUp-trans {r = r} {r' = r'} a b = record {
  calls = b.calls ∙ a.calls;
  targets = b.targets ∙ a.targets;
  entries = λ n. b.entries n ∙ elim (Bool-cases (r' n)) [
    | inl e ↦ rw e (ground (arith, HasLookedUp-has_body n a))
    | inr e ↦ rw e (ground (arith, a.entries n))
  ];
}

pub HasLookedUp-same :
    {r r' : String → Bool} {cg cg' : JsonCg}
    → ((n : String) → r n ≡ r' n)
    → HasLookedUp r cg cg'
    → HasLookedUp r' cg cg'
HasLookedUp-same same a = record {
  calls = a.calls;
  targets = a.targets;
  entries = λ n. a.entries n ∙ rw (same n) refl;
}

HasLookedUp-none : (cg : JsonCg) → HasLookedUp (λ n. false) cg cg
HasLookedUp-none cg = record { calls = refl; targets = refl; entries = λ n. refl }

read_has_body-HasLookedUp :
    (name : String) (cg : JsonCg) → HasLookedUp (str_eq name) cg (read_has_body name cg).1
unfolding read_has_body
read_has_body-HasLookedUp name cg = record {
  calls = refl;
  targets = refl;
  entries = λ n.
      (subscript_key_lem false name cg.has_body_map).1 n ∙ elim (Bool-cases (str_eq name n)) [
        | inl e ↦ rw (e, (eq_iff name n).0 e) refl
        | inr e ↦ rw e refl
      ];
}

read_has_body-answer : (name : String) (cg : JsonCg) → (read_has_body name cg).0 ≡ has_body cg name
unfolding read_has_body
read_has_body-answer name cg = (subscript_key_lem false name cg.has_body_map).0

and_has_body-HasLookedUp :
    (b : Bool) (name : String) (cg : JsonCg)
    → HasLookedUp (λ n. b && str_eq name n) cg (and_has_body b name cg).1
unfolding and_has_body
and_has_body-HasLookedUp false name cg = HasLookedUp-none cg
and_has_body-HasLookedUp true name cg = read_has_body-HasLookedUp name cg

and_has_body-answer :
    (b : Bool) (name : String) (cg : JsonCg) → (and_has_body b name cg).0 ≡ (b && has_body cg name)
unfolding and_has_body
and_has_body-answer false name cg = refl
and_has_body-answer true name cg = read_has_body-answer name cg

pub count_source-HasLookedUp :
    (source : String) (reachables : NameSet) (cg : JsonCg)
    → HasLookedUp (str_eq source) cg (count_source source reachables cg)
unfolding count_source
count_source-HasLookedUp source [] cg =
    let read = read_has_body-HasLookedUp source cg in
    elim (Bool-cases (read_has_body source cg).0) [
      | inl e ↦ rw e record { calls = read.calls; targets = read.targets; entries = read.entries }
      | inr e ↦ rw e record { calls = read.calls; targets = read.targets; entries = read.entries }
    ]
count_source-HasLookedUp source (x ∷ xs) cg =
    let read = read_has_body-HasLookedUp source cg in
    elim (Bool-cases (read_has_body source cg).0) [
      | inl e ↦ rw e record { calls = read.calls; targets = read.targets; entries = read.entries }
      | inr e ↦ rw e record { calls = read.calls; targets = read.targets; entries = read.entries }
    ]

pub without_match-HasLookedUp :
    (source : String) (b : Bool) (cg : JsonCg)
    → HasLookedUp (λ n. b && str_eq source n) cg (without_match source b cg).1
unfolding without_match
without_match-HasLookedUp source false cg = HasLookedUp-none cg
without_match-HasLookedUp source true cg = read_has_body-HasLookedUp source cg

pub without_match-answer :
    (source : String) (b : Bool) (cg : JsonCg)
    → (without_match source b cg).0
      ≡ (if b && has_body cg source then never_reaches else maybe_reaches)
unfolding without_match
without_match-answer source false cg = refl
without_match-answer source true cg = rw (read_has_body-answer source cg) refl

module _ (regex_matches : String → String → Bool → Bool) (target : String)
    (case_sensitive short_circuit : Bool) where
  -- The loop looks the pattern up for the first name, and not at all without names.
  pub match_loop-HasLookedUp :
      (matches b : Bool) (cg : JsonCg) (names : NameSet)
      → HasLookedUp
          (λ n. b && (not (is_empty names) && str_eq target n))
          cg
          (match_loop regex_matches target case_sensitive short_circuit matches b cg names).1
  unfolding match_loop
  match_loop-HasLookedUp matches b cg [] =
      HasLookedUp-same (λ n. ground arith) (HasLookedUp-none cg)
  match_loop-HasLookedUp matches b cg (x ∷ names) =
      let matches' = matches || regex_matches target x case_sensitive in
      let one = and_has_body-HasLookedUp b target cg in
      let known = and_has_body-answer b target cg in
      elim (Bool-cases (matches' && short_circuit)) [
        | inl e ↦ rw e (HasLookedUp-same (λ n. refl) one)
        | inr e ↦ rw e (
            HasLookedUp-same (λ n. ground (arith, known))
              (HasLookedUp-trans one (match_loop-HasLookedUp matches' _ _ names)))
      ]

  match_loop-matched :
      (b : Bool) (cg : JsonCg) (names : NameSet)
      → (match_loop regex_matches target case_sensitive short_circuit true b cg names).0.0 ≡ true
  unfolding match_loop
  match_loop-matched b cg [] = refl
  match_loop-matched b cg (x ∷ names) =
      ground
        (arith, match_loop-matched (and_has_body b target cg).0 (and_has_body b target cg).1 names)

  -- The loop looks at each name, and ends early at most with a match.
  pub match_loop_cases :
      (b : Bool) (cg : JsonCg) (names : NameSet)
      → let looked =
          match_loop regex_matches target case_sensitive short_circuit false b cg names in
        ((looked.0.0 ≡ true)
          × (a : String) × Memᴰ a names
          × (regex_matches target a case_sensitive ≡ true))
        ⊎ ((looked.0.0 ≡ false)
            × ((a : String) → Memᴰ a names → regex_matches target a case_sensitive ≡ false)
            × (looked.0.1 ≡ (b && (is_empty names || has_body cg target))))
  unfolding match_loop
  match_loop_cases b cg [] = inr (refl, (λ a m. absurd (Memᴰ.not-nil m)), ground arith)
  match_loop_cases b cg (x ∷ names) =
      let b' = (and_has_body b target cg).0 in
      let cg' = (and_has_body b target cg).1 in
      elim (Bool-cases (regex_matches target x case_sensitive)) [
        | inl v ↦
            let found : (match_loop regex_matches target case_sensitive short_circuit false b cg
                  (x ∷ names)).0.0
                ≡ true =
              rw v (ground (arith, match_loop-matched b' cg' names)) in
            inl (found, x, Memᴰ.head refl, v)
        | inr v ↦ rw v (elim (match_loop_cases b' cg' names) [
          | inl (t, a, m, r) ↦ inl (t, a, Memᴰ.tail m, r)
          | inr (f, no_match, bodies) ↦ inr (
            f,
            λ a m. ⊎_elim (λ s. rw s v) (no_match a) (Memᴰ.cases_cons m),
            ground (
              arith,
              bodies,
              and_has_body-answer b target cg,
              HasLookedUp-has_body target (and_has_body-HasLookedUp b target cg),
            ),
          )
        ])
      ]
