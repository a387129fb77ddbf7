-- ===== src/Passes/TypeGen/Names.antt =====
-- The id that a registration returns is the one that `getTypeID` answers from then on.
use type_art.Prelude.{
  ℕ, zero, suc, ◌+◌, ◌^◌, ◌≤◌, ◌<◌, ◌≡◌, refl, subst, sym, ◌∙◌, ◌⊎◌, inl, inr, List, [], ◌∷◌,
  Option, none, some, some_inj, String, get_elem?, Option-cases, arith,
}
use type_art.Prelude.Int.{ℤ}
use type_art.TypeLib.Types.{StructTypeInfo}
use type_art.Passes.IrTypes.{IrOps, fixed_vector_ty, struct_ty, done}
use type_art.Passes.TypeHandlers.{
  TypeManager, find_struct, reserve_next_id, add_struct, Member, layout, get_name, get_struct_id,
  get_vector_name,
}
use type_art.Passes.TypeGen.{
  unless_known, if_element, get_type_id, element_of, get_or_register_vector, get_or_register_struct,
  get_or_register_type,
}
use type_art.Passes.TypeGen.Laws.{All, IsTyped, IsNamed}
use type_art.Passes.TypeGen.Registry.{
  IsConsistent, Extends, Retains, Extends-Retains, find_struct-add_struct,
}
use type_art.Passes.TypeGen.Rule.{
  Ensures, get_or_register_vector_zero, get_or_register_type-vector, get_or_register_type-struct,
  IsRule, IsBasic, basic_id, struct_info, get_or_register_type_rule,
}
use type_art.Passes.TypeGen.Runs.{
  Grown, Grown-refl, Grown-trans, Grown-add_struct, get_struct_info-added,
}
use type_art.Passes.TypeGen.Vectors.{
  element_data, vector_id, vector_info, new_vector, get_or_register_vector_lem,
}
use type_art.Passes.TypeGen.Ends.{element_of-flat}
use type_art.Passes.TypeGen.Lookup.{
  get_struct_id-found, known_vector_id-found, get_struct_id-Retains, vector_id-Retains,
  get_type_id-vector, get_type_id-struct, element_data_same,
}
use native.Mathlib.Nat.{lt_irrefl}
use text.Mathlib.TextEquality.{eq_iff}

pub All-get_elem? {ℓ κ} :
    {A : Type ℓ} (P : A → Type κ) (xs : List A) (i : ℕ) (a : A)
    → All P xs
    → get_elem? xs i ≡ some a
    → P a
All-get_elem? P [] i a h e = cc
All-get_elem? P (x ∷ xs) zero a (h, hs) e = subst P (some_inj e) h
All-get_elem? P (x ∷ xs) (suc i) a (h, hs) e = All-get_elem? P xs i a hs e

module _ {Ty : Type 0} (ir : IrOps Ty) (rank : Ty → ℕ) (typed : IsTyped ir rank)
    (named : IsNamed ir) where
  -- A name that is given to a struct type of a smaller rank, or to a vector.
  abbrev pub IsMade : ℕ → String → Type 0
  IsMade k name =
      ((w : Ty) × (ir.kind w ≡ struct_ty) × (name ≡ get_name ir w) × (rank w < k))
      ⊎ ((w : Ty) × (element_name : String) × (name ≡ get_vector_name ir w element_name))

  IsMade-mono : {j k : ℕ} {name : String} → j ≤ k → IsMade j name → IsMade k name
  IsMade-mono le (inl (w, e, n, lt)) = inl (w, e, n, omega arith)
  IsMade-mono le (inr v) = inr v

  abbrev pub IsKnown : TypeManager → String → Type 0
  IsKnown m name = (id : ℤ) × (find_struct name m.struct_map ≡ some id)

  pub record Made (k : ℕ) (m m' : TypeManager) : Type 0 where
    pub grown : Grown m m'
    pub names : (name : String) → IsKnown m' name → IsKnown m name ⊎ IsMade k name

  Made-refl : (k : ℕ) (m : TypeManager) → Made k m m
  Made-refl k m = record { grown = Grown-refl m; names = λ name h. inl h }

  Made-trans :
      {j k : ℕ} {m m' m'' : TypeManager} → j ≤ k → Made j m m' → Made k m' m'' → Made k m m''
  Made-trans le f g = record {
    grown = Grown-trans f.grown g.grown;
    names = λ name h. elim (g.names name h) [
      | inr made ↦ inr made
      | inl old ↦ elim (f.names name old) [ inl o ↦ inl o | inr made ↦ inr (IsMade-mono le made) ]
    ];
  }

  Made-add_struct :
      (j k : ℕ) (m m' : TypeManager) (info : StructTypeInfo)
      → j ≤ k
      → Made j (reserve_next_id m).1 m'
      → info.type_id ≡ (reserve_next_id m).0
      → IsMade k info.name
      → Made k m (add_struct m' info)
  unfolding reserve_next_id
  Made-add_struct j k m m' info le f is made = record {
    grown = Grown-add_struct m m' info f.grown is;
    names = λ name (id, h). elim (Option-cases (find_struct name m'.struct_map)) [
      | inr (old, e) ↦ elim (f.names name (old, e)) [
        | inl o ↦ inl o
        | inr made' ↦ inr (IsMade-mono le made')
      ]
      | inl e ↦
          let same : info.name ≡ name =
            ground (arith, find_struct-add_struct m' info name, eq_iff info.name name) in
          inr (subst (IsMade k) same made)
    ];
  }

  -- The name of a struct is not given away while its members are registered.
  name_unused :
      (m m' : TypeManager) (t : Ty)
      → ir.kind t ≡ struct_ty
      → find_struct (get_name ir t) m.struct_map ≡ none
      → Made (rank t) m m'
      → find_struct (get_name ir t) m'.struct_map ≡ none
  name_unused m m' t kind free f = elim (Option-cases (find_struct (get_name ir t) m'.struct_map)) [
    | inl e ↦ e
    | inr (id, e) ↦ elim (f.names (get_name ir t) (id, e)) [
      | inl (old, known) ↦ absurd (ground arith)
      | inr (inl (w, struct, same, lt)) ↦ absurd (
          lt_irrefl (rank t)
            (subst (λ u. rank u < rank t) (sym (named.one_name t w kind struct same)) lt))
      | inr (inr (w, element_name, same)) ↦ absurd (named.no_vector_name t w element_name kind same)
    ]
  ]

  -- What is found of a type in the tables.
  abbrev pub IsFound : TypeManager → Ty → ℤ → Type 0
  IsFound m t id =
      (IsBasic ir t × (id ≡ basic_id ir t))
      ⊎ ((ir.kind t ≡ fixed_vector_ty) × (vector_id ir rank typed m t ≡ some id))
      ⊎ ((ir.kind t ≡ struct_ty) × (get_struct_id ir m t ≡ some id))

  pub IsFound-get_type_id :
      (fuel : ℕ) (m : TypeManager) (t : Ty) (id : ℤ)
      → IsFound m t id
      → get_type_id ir (suc (suc fuel)) m t ≡ done id
  IsFound-get_type_id fuel m t id (inl (b, is)) = b.1 (suc fuel) m ∙ rw is
  IsFound-get_type_id fuel m t id (inr (inl (v, h))) =
      get_type_id-vector ir rank typed fuel m t v ∙ rw h refl
  IsFound-get_type_id fuel m t id (inr (inr (s, h))) =
      get_type_id-struct ir (suc fuel) m t s ∙ rw h refl

  -- A type that is found is not registered again.
  IsFound-get_or_register_type :
      (fuel : ℕ) (m : TypeManager) (t : Ty) (id : ℤ)
      → IsFound m t id
      → get_or_register_type ir (suc (suc fuel)) m t ≡ done (id, m)
  unfolding get_or_register_struct
  IsFound-get_or_register_type fuel m t id (inl (b, is)) = b.0 (suc fuel) m ∙ rw is
  IsFound-get_or_register_type fuel m t id (inr (inl (v, h))) =
      get_or_register_type-vector ir (suc fuel) m t v
      ∙ get_or_register_vector_lem ir rank typed fuel m t v
      ∙ rw h refl
  IsFound-get_or_register_type fuel m t id (inr (inr (s, h))) =
      get_or_register_type-struct ir (suc fuel) m t s ∙ rw h refl

  pub IsFound-Retains :
      (m m' : TypeManager) (t : Ty) (id : ℤ)
      → IsConsistent m
      → Retains m m'
      → IsFound m t id
      → IsFound m' t id
  IsFound-Retains m m' t id c e (inl b) = inl b
  IsFound-Retains m m' t id c e (inr (inl (v, h))) =
      inr (inl (v, vector_id-Retains ir rank typed m m' t id c e v h))
  IsFound-Retains m m' t id c e (inr (inr (s, h))) =
      inr (inr (s, get_struct_id-Retains m m' c e ir t id h))

  pub record AtNamed (t : Ty) (m : TypeManager) (id : ℤ) (m' : TypeManager) : Type 0 where
    pub made : Made (suc (rank t)) m m'
    pub known : IsConsistent m → 256 + m'.struct_count ≤ 2 ^ 31 → IsFound m' t id

  abbrev pub InNamed : Ty → ℕ → TypeManager → List Member → TypeManager → Type 0
  InNamed t i m members m' = Made (rank t) m m'

  -- A layout that was added under a new name is found by the name, and behind its id.
  find_struct_new :
      (m : TypeManager) (info : StructTypeInfo)
      → find_struct info.name m.struct_map ≡ none
      → find_struct info.name (add_struct m info).struct_map ≡ some info.type_id
  find_struct_new m info e =
      ground (arith, find_struct-add_struct m info info.name, eq_iff info.name info.name)

  struct_known :
      (m m' : TypeManager) (t : Ty) (members : List Member)
      → ir.kind t ≡ struct_ty
      → get_struct_id ir m t ≡ none
      → Made (rank t) (reserve_next_id m).1 m'
      → IsConsistent m
      → let m'' = add_struct m' (struct_info ir m t members) in
        256 + m''.struct_count ≤ 2 ^ 31 → IsFound m'' t (reserve_next_id m).0
  unfolding get_struct_id layout reserve_next_id
  struct_known m m' t members kind free f c b =
      let info = struct_info ir m t members in
      let absent : find_struct (get_name ir t) m.struct_map ≡ none = ground arith in
      let found = find_struct_new m' info (name_unused (reserve_next_id m).1 m' t kind absent f) in
      let stored = get_struct_info-added m m' info f.grown refl c b in
      inr (
        inr
          (kind, get_struct_id-found ir (add_struct m' info) t info.type_id info found stored refl))

  vector_known :
      (m : TypeManager) (t : Ty) (element_id : ℤ) (element_name : String)
      → ir.kind t ≡ fixed_vector_ty
      → vector_id ir rank typed m t ≡ none
      → element_data ir rank typed m t ≡ some (element_id, element_name)
      → IsConsistent m
      → let (id, m') = new_vector ir rank typed m t element_id element_name in
        256 + m'.struct_count ≤ 2 ^ 31 → IsFound m' t id
  unfolding layout reserve_next_id
  vector_known m t element_id element_name v h d c b =
      let info = vector_info ir rank typed m t element_id element_name in
      let m₁ = (reserve_next_id m).1 in
      let m' = add_struct m₁ info in
      let absent : find_struct info.name m.struct_map ≡ none = ground arith in
      let found = find_struct_new m₁ info absent in
      let stored = get_struct_info-added m m₁ info (Grown-refl m₁) refl c b in
      let later : element_data ir rank typed m' t ≡ some (element_id, element_name) =
        element_data_same ir rank typed m' m t v ∙ d in
      inr
        (inl (v, rw later (known_vector_id-found m' info.name info.type_id info found stored refl)))

  pub vector_cases :
      (m : TypeManager) (t : Ty) (known : Option ℤ) (element : Option (ℤ × String))
      → ir.kind t ≡ fixed_vector_ty
      → vector_id ir rank typed m t ≡ known
      → element_data ir rank typed m t ≡ element
      → Ensures (AtNamed t m) (
          unless_known known m
            (if_element element m (λ id name. done (new_vector ir rank typed m t id name))))
  unfolding layout reserve_next_id
  vector_cases m t (some id) element v h d = record {
    made = Made-refl (suc (rank t)) m;
    known = λ c b. inr (inl (v, h));
  }
  vector_cases m t none none v h d = absurd (ground arith)
  vector_cases m t none (some (element_id, element_name)) v h d = record {
    made =
        Made-add_struct (suc (rank t)) (suc (rank t)) m (reserve_next_id m).1
          (vector_info ir rank typed m t element_id element_name) (omega arith)
          (Made-refl (suc (rank t)) (reserve_next_id m).1) refl (inr (t, element_name, refl));
    known = vector_known m t element_id element_name v h d;
  }

  pub vector-AtNamed :
      (fuel : ℕ) (m : TypeManager) (t : Ty)
      → ir.kind t ≡ fixed_vector_ty
      → Ensures (AtNamed t m) (get_or_register_vector ir fuel m t)
  vector-AtNamed zero m t v = get_or_register_vector_zero ir (AtNamed t m) m t
  vector-AtNamed (suc fuel) m t v =
      rw (get_or_register_vector_lem ir rank typed fuel m t v) (
        vector_cases m t (vector_id ir rank typed m t) (element_data ir rank typed m t) v refl refl)

  -- A type that lies in a struct, as an element or in an array, has a smaller rank.
  pub element_below :
      (fuel : ℕ) (t u e : Ty) (i : ℕ)
      → ir.kind t ≡ struct_ty
      → get_elem? (ir.struct_elements t) i ≡ some u
      → element_of ir fuel u ≡ done e
      → rank e < rank t
  element_below fuel t u e i kind at found =
      let inner : rank u < rank t =
        All-get_elem? (λ x. rank x < rank t) (ir.struct_elements t) i u (typed.member_below t kind)
          at in
      let (le, _) = element_of-flat ir rank typed fuel u e found in omega arith

  pub named-IsRule : IsRule ir AtNamed InNamed
  unfolding layout
  named-IsRule = record {
    basic = λ m t b. record { made = Made-refl (suc (rank t)) m; known = λ c bound. inl (b, refl) };
    vector = vector-AtNamed;
    known = λ m t id kind k. record {
      made = Made-refl (suc (rank t)) m;
      known = λ c b. inr (inr (kind, k));
    };
    new = λ m m' t members kind free f. record {
      made =
          Made-add_struct (rank t) (suc (rank t)) m m' (struct_info ir m t members) (omega arith) f
            refl (inl (t, kind, refl, omega arith));
      known = struct_known m m' t members kind free f;
    };
    end = λ m t i e. Made-refl (rank t) m;
    self = λ fuel m m' t u e i size id rest a b c d f g h. h;
    next = λ fuel m m' m'' t u e i size id rest kind at _ found g h.
        Made-trans (omega (arith, element_below fuel t u e i kind at found)) g.made h;
  }

  -- For types with names of their own, consistent tables and ids that fit an `int`: the id that
  -- `getOrRegisterType` returns for a type is what `getTypeID` answers, and what a registration of
  -- the type returns without a change of the tables, in any tables that extend those it left.
  pub get_or_register_type-get_type_id :
      (fuel later : ℕ) (m m' m'' : TypeManager) (t : Ty) (id : ℤ)
      → IsConsistent m
      → get_or_register_type ir fuel m t ≡ done (id, m')
      → 256 + m'.struct_count ≤ 2 ^ 31
      → Extends m' m''
      → (get_type_id ir (suc (suc later)) m'' t ≡ done id)
        × (get_or_register_type ir (suc (suc later)) m'' t ≡ done (id, m''))
  get_or_register_type-get_type_id fuel later m m' m'' t id c e b x =
      let at : AtNamed t m id m' =
        subst (Ensures (AtNamed t m)) e
          (get_or_register_type_rule ir AtNamed InNamed named-IsRule fuel m t) in
      let (c', _) = at.made.grown.keeps c b in
      let found = IsFound-Retains m' m'' t id c' (Extends-Retains m' m'' c' x) (at.known c b) in
      (IsFound-get_type_id later m'' t id found, IsFound-get_or_register_type later m'' t id found)
