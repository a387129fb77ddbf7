-- ===== src/Passes/TypeGen/Exact.antt =====
-- Every step of a registration makes the layouts of the struct types themselves.
use type_art.Prelude.{
  ℕ, zero, suc, ◌+◌, ◌^◌, ◌≤◌, ◌<◌, ◌≡◌, refl, subst, sym, inl, inr, List, ◌∷◌, Option, none, some,
  String, get_elem?, arith,
}
use type_art.Prelude.Int.{ℤ}
use type_art.TypeLib.Types.{StructTypeInfo}
use type_art.TypeLib.TypeDb.{get_struct_info}
use type_art.Passes.IrTypes.{IrOps, fixed_vector_ty, struct_ty, done}
use type_art.Passes.TypeHandlers.{
  TypeManager, find_struct, reserve_next_id, add_struct, Member, layout, get_name, get_struct_id,
}
use type_art.Passes.TypeGen.{
  unless_known, if_element, array_size_of, element_of, get_or_register_vector, get_or_register_type,
}
use type_art.Passes.TypeGen.Laws.{IsTyped, IsNamed}
use type_art.Passes.TypeGen.Registry.{
  IsConsistent, Retains, Extends-Retains, reserve_next_id-IsConsistent, reserve_next_id-Extends,
  find_struct-add_struct,
}
use type_art.Passes.TypeGen.Rule.{
  Ensures, IsRule, basic_id, member_at, struct_info, get_or_register_vector_zero,
  get_or_register_type_rule,
}
use type_art.Passes.TypeGen.Runs.{Grown, Grown-refl, get_struct_info-added, added_last}
use type_art.Passes.TypeGen.Vectors.{
  element_data, vector_id, vector_info, new_vector, get_or_register_vector_lem,
}
use type_art.Passes.TypeGen.Layouts.{found_cases}
use type_art.Passes.TypeGen.Names.{
  IsFound, IsFound-Retains, AtNamed, InNamed, named-IsRule, vector_cases, element_below,
}
use type_art.Passes.TypeGen.Structs.{MembersOf, IsLayoutOf, IsLayoutOf-map, array_size_of-Flattens}
use native.Mathlib.Nat.{lt_irrefl}

module _ {Ty : Type 0} (ir : IrOps Ty) (rank : Ty → ℕ) (typed : IsTyped ir rank)
    (named : IsNamed ir) where
  abbrev Found : TypeManager → Ty → ℤ → Type 0
  Found = IsFound ir rank typed named

  -- The layout behind the name of a struct type is that of the type.
  abbrev pub Exact : TypeManager → Type 0
  Exact m =
      (t : Ty) (id : ℤ) (s : StructTypeInfo)
      → ir.kind t ≡ struct_ty
      → find_struct (get_name ir t) m.struct_map ≡ some id
      → get_struct_info m.type_db id ≡ some s
      → IsLayoutOf ir (Found m) t s

  abbrev IsExact : TypeManager → TypeManager → Type 0
  IsExact m m' = IsConsistent m → 256 + m'.struct_count ≤ 2 ^ 31 → Exact m → Exact m'

  pub record AtExact (t : Ty) (m : TypeManager) (id : ℤ) (m' : TypeManager) : Type 0 where
    pub at : AtNamed ir rank typed named t m id m'
    pub exact : IsExact m m'

  record InExact (t : Ty) (i : ℕ) (m : TypeManager) (members : List Member) (m' : TypeManager)
      : Type 0 where
    made : InNamed ir rank typed named t i m members m'
    exact :
        IsConsistent m
        → 256 + m'.struct_count ≤ 2 ^ 31
        → Exact m
        → Exact m' × MembersOf ir (Found m') t i members

  AtExact-same :
      (t : Ty) (m : TypeManager) (id : ℤ) → AtNamed ir rank typed named t m id m → AtExact t m id m
  AtExact-same t m id h = record { at = h; exact = λ c b x. x }

  InExact-next :
      (fuel : ℕ) (m m' m'' : TypeManager) (t u e : Ty) (i size : ℕ) (id : ℤ) (rest : List Member)
      → ir.kind t ≡ struct_ty
      → get_elem? (ir.struct_elements t) i ≡ some u
      → array_size_of ir fuel u ≡ done size
      → element_of ir fuel u ≡ done e
      → AtExact e m id m'
      → InExact t (suc i) m' rest m''
      → InExact t i m (member_at ir t i id size ∷ rest) m''
  InExact-next fuel m m' m'' t u e i size id rest kind there counted found f g = record {
    made =
        (named-IsRule ir rank typed named).next fuel m m' m'' t u e i size id rest kind there
          counted found f.at g.made;
    exact = λ c b x.
        let b' : 256 + m'.struct_count ≤ 2 ^ 31 = omega (arith, g.made.grown.count) in
        let (c', _) = f.at.made.grown.keeps c b' in
        let (_, later) = g.made.grown.keeps c' b in
        let (x'', members) = g.exact c' b (f.exact c b' x) in
        let (n, flat, is) = array_size_of-Flattens ir fuel size u e counted found in
        let known =
          IsFound-Retains ir rank typed named m' m'' e id c' (Extends-Retains m' m'' c' later)
            (f.at.known c b') in
        (x'', ((u, e, n, there, flat, refl, is, known), members));
  }

  -- A layout is added, which is that of the struct types with its name.
  Exact-add_struct :
      (m m₁ : TypeManager) (info : StructTypeInfo)
      → Grown (reserve_next_id m).1 m₁
      → info.type_id ≡ (reserve_next_id m).0
      → IsConsistent m
      → 256 + (add_struct m₁ info).struct_count ≤ 2 ^ 31
      → Exact m₁
      → ((t : Ty)
          → ir.kind t ≡ struct_ty
          → info.name ≡ get_name ir t
          → IsLayoutOf ir (Found m₁) t info)
      → Exact (add_struct m₁ info)
  Exact-add_struct m m₁ info grown is c b x new t id s kind h f =
      let found = get_struct_info-added m m₁ info grown is c b in
      let (vec, finds, _, c₁) = added_last m m₁ info grown is c b in
      let keeps : Retains m₁ (add_struct m₁ info) = record {
        finds = finds;
        names = λ name k e. ground (arith, find_struct-add_struct m₁ info name);
      } in
      let later = λ (e : Ty) (k : ℤ) (known : Found m₁ e k).
        IsFound-Retains ir rank typed named m₁ (add_struct m₁ info) e k c₁ keeps known in
      elim (found_cases ir m₁ info c₁ found vec finds (get_name ir t) id s h f) [
        | inl (old, before) ↦
            IsLayoutOf-map ir (Found m₁) (Found (add_struct m₁ info)) t s later
              (x t id s kind old before)
        | inr (same, is_new) ↦ rw is_new (
            IsLayoutOf-map ir (Found m₁) (Found (add_struct m₁ info)) t info later
              (new t kind same))
      ]

  reserved-Exact : (m : TypeManager) → IsConsistent m → Exact m → Exact (reserve_next_id m).1
  unfolding reserve_next_id
  reserved-Exact m c x t id s kind h f =
      IsLayoutOf-map ir (Found m) (Found (reserve_next_id m).1) t s
        (λ e k known.
          IsFound-Retains ir rank typed named m (reserve_next_id m).1 e k c
            (Extends-Retains m (reserve_next_id m).1 c (reserve_next_id-Extends m)) known)
        (x t id s kind h f)

  AtExact-new :
      (m m' : TypeManager) (t : Ty) (members : List Member)
      → ir.kind t ≡ struct_ty
      → get_struct_id ir m t ≡ none
      → InExact t 0 (reserve_next_id m).1 members m'
      → AtExact t m (reserve_next_id m).0 (add_struct m' (struct_info ir m t members))
  unfolding layout add_struct
  AtExact-new m m' t members kind free f = record {
    at = (named-IsRule ir rank typed named).new m m' t members kind free f.made;
    exact = λ c b x.
        let (x', each) = f.exact (reserve_next_id-IsConsistent m c) b (reserved-Exact m c x) in
        let info = struct_info ir m t members in
        Exact-add_struct m m' info f.made.grown refl c b x' (λ w kind' same.
          subst (λ v. IsLayoutOf ir (Found m') v info) (named.one_name t w kind kind' same)
            (record { members = members; made = refl; each = each }));
  }

  AtExact-vector :
      (m : TypeManager) (t : Ty) (known : Option ℤ) (element : Option (ℤ × String))
      → ir.kind t ≡ fixed_vector_ty
      → vector_id ir rank typed m t ≡ known
      → element_data ir rank typed m t ≡ element
      → Ensures (AtExact t m) (
          unless_known known m
            (if_element element m (λ id name. done (new_vector ir rank typed m t id name))))
  unfolding layout
  AtExact-vector m t (some id) element kind v d =
      AtExact-same t m id (vector_cases ir rank typed named m t (some id) element kind v d)
  AtExact-vector m t none none kind v d =
      AtExact-same t m _ (vector_cases ir rank typed named m t none none kind v d)
  AtExact-vector m t none (some (element_id, name)) kind v d = record {
    at = vector_cases ir rank typed named m t none (some (element_id, name)) kind v d;
    exact = λ c b x.
        Exact-add_struct m (reserve_next_id m).1 (vector_info ir rank typed m t element_id name)
          (Grown-refl (reserve_next_id m).1) refl c b (reserved-Exact m c x)
          (λ w kind' same. absurd (named.no_vector_name w t name kind' (sym same)));
  }

  vector-AtExact :
      (fuel : ℕ) (m : TypeManager) (t : Ty)
      → ir.kind t ≡ fixed_vector_ty
      → Ensures (AtExact t m) (get_or_register_vector ir fuel m t)
  vector-AtExact zero m t kind = get_or_register_vector_zero ir (AtExact t m) m t
  vector-AtExact (suc fuel) m t kind = rw (get_or_register_vector_lem ir rank typed fuel m t kind) (
      AtExact-vector m t (vector_id ir rank typed m t) (element_data ir rank typed m t) kind refl
        refl)

  exact-IsRule : IsRule ir AtExact InExact
  exact-IsRule = record {
    basic = λ m t basic.
        AtExact-same t m (basic_id ir t) ((named-IsRule ir rank typed named).basic m t basic);
    vector = vector-AtExact;
    known = λ m t id kind k.
        AtExact-same t m id ((named-IsRule ir rank typed named).known m t id kind k);
    new = AtExact-new;
    end = λ m t i e. record {
      made = (named-IsRule ir rank typed named).end m t i e;
      exact = λ c b x. (x, e);
    };
    self = λ fuel m m' t u e i size id rest kind at counted found struct same h. absurd (
        lt_irrefl (rank t) (
          subst (λ x. rank x < rank t) (named.one_name e t struct kind same)
            (element_below ir rank typed named fuel t u e i kind at found)));
    next = InExact-next;
  }

  pub get_or_register_type-AtExact :
      (fuel : ℕ) (m m' : TypeManager) (t : Ty) (id : ℤ)
      → get_or_register_type ir fuel m t ≡ done (id, m')
      → AtExact t m id m'
  get_or_register_type-AtExact fuel m m' t id e =
      subst (Ensures (AtExact t m)) e
        (get_or_register_type_rule ir AtExact InExact exact-IsRule fuel m t)
