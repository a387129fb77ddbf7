-- ===== src/Passes/TypeGen/Runs.antt =====
-- A registration keeps the tables consistent, whatever types it meets.
use type_art.Prelude.{
  ℕ, ◌+◌, ◌^◌, ◌≤◌, ◌<◌, ◌≡◌, refl, subst, ◌∙◌, List, [], ◌∷◌, ◌++◌, Option, none, some, String,
  arith,
}
use type_art.Prelude.Int.{ℤ, pos}
use type_art.TypeLib.Types.{StructTypeInfo}
use type_art.TypeLib.TypeDb.{get_struct_info}
use type_art.Passes.IrTypes.{IrOps, Built, done}
use type_art.Passes.TypeUtil.{get_type_size_in_bytes}
use type_art.Passes.TypeHandlers.{
  TypeManager, reserve_next_id, add_struct, Member, layout, get_vector_id, get_element_data,
}
use type_art.Passes.TypeGen.{
  unless_known, if_element, get_type_id, register_new_vector, get_or_register_vector,
  get_or_register_type,
}
use type_art.Passes.TypeGen.Registry.{
  IsConsistent, Extends, Extends-refl, Extends-trans, reserve_next_id-IsConsistent,
  reserve_next_id_lem, complete-IsConsistent, complete-Extends, complete-get_struct_info,
  complete-struct_info_vec, complete_kept,
}
use type_art.Passes.TypeGen.Rule.{
  Ensures, Ensures-any, IsRule, struct_info, get_or_register_type_rule,
}

-- The count of ids grows, and while the ids fit an `int` the tables stay consistent.
pub record Grown (m m' : TypeManager) : Type 0 where
  pub count : m.struct_count ≤ m'.struct_count
  pub keeps : IsConsistent m → 256 + m'.struct_count ≤ 2 ^ 31 → IsConsistent m' × Extends m m'

pub Grown-refl : (m : TypeManager) → Grown m m
Grown-refl m = record { count = omega arith; keeps = λ c b. (c, Extends-refl m) }

pub Grown-trans : {m m' m'' : TypeManager} → Grown m m' → Grown m' m'' → Grown m m''
Grown-trans g h = record {
  count = omega (arith, g.count, h.count);
  keeps = λ c b.
      let (c', e) = g.keeps c (omega (arith, h.count)) in
      let (c'', e') = h.keeps c' b in (c'', Extends-trans e e');
}

module _ (m m' : TypeManager) (info : StructTypeInfo) (g : Grown (reserve_next_id m).1 m')
    (is : info.type_id ≡ (reserve_next_id m).0) where
  counts :
      (m.struct_count < m'.struct_count) × ((add_struct m' info).struct_count ≡ m'.struct_count)
  unfolding reserve_next_id add_struct
  counts = (omega (arith, g.count), refl)

  pub Grown-add_struct : Grown m (add_struct m' info)
  Grown-add_struct = record {
    count = omega (arith, counts);
    keeps = λ c b.
        let (lt, same) = counts in
        let id = is ∙ reserve_next_id_lem m (omega arith) in
        let (c', e) = g.keeps (reserve_next_id-IsConsistent m c) (omega arith) in
        (complete-IsConsistent m m' info c c' e id, complete-Extends m m' info c c' e id);
  }

  -- The layout that was added is found.
  pub get_struct_info-added :
      IsConsistent m
      → 256 + (add_struct m' info).struct_count ≤ 2 ^ 31
      → get_struct_info (add_struct m' info).type_db info.type_id ≡ some info
  get_struct_info-added c b =
      let (lt, same) = counts in
      let id = is ∙ reserve_next_id_lem m (omega arith) in
      let (c', e) = g.keeps (reserve_next_id-IsConsistent m c) (omega arith) in
      complete-get_struct_info m m' info c c' e id

  -- What an addition does to the vector of layouts, and to those that were there.
  pub added_last :
      IsConsistent m
      → 256 + (add_struct m' info).struct_count ≤ 2 ^ 31
      → ((add_struct m' info).type_db.struct_info_vec ≡ m'.type_db.struct_info_vec ++ info ∷ [])
        × ((id : ℤ) (s : StructTypeInfo)
            → get_struct_info m'.type_db id ≡ some s
            → get_struct_info (add_struct m' info).type_db id ≡ some s)
        × (info.type_id ≡ pos (256 + m.struct_count))
        × IsConsistent m'
  added_last c b =
      let (lt, same) = counts in
      let id = is ∙ reserve_next_id_lem m (omega arith) in
      let (c', e) = g.keeps (reserve_next_id-IsConsistent m c) (omega arith) in
      (complete-struct_info_vec m m' info c c' e id, complete_kept m m' info c c' e id, id, c')

module _ {Ty : Type 0} (ir : IrOps Ty) where
  unless_known-Grown :
      (known : Option ℤ) (m : TypeManager) (rest : Built (ℤ × TypeManager))
      → Ensures (λ _ m'. Grown m m') rest
      → Ensures (λ _ m'. Grown m m') (unless_known known m rest)
  unless_known-Grown none m rest h = h
  unless_known-Grown (some id) m rest h = Grown-refl m

  if_element-Grown :
      (element : Option (ℤ × String)) (m : TypeManager)
      (rest : ℤ → String → Built (ℤ × TypeManager))
      → ((id : ℤ) (name : String) → Ensures (λ _ m'. Grown m m') (rest id name))
      → Ensures (λ _ m'. Grown m m') (if_element element m rest)
  if_element-Grown none m rest h = Grown-refl m
  if_element-Grown (some (id, name)) m rest h = h id name

  register_new_vector-Grown :
      (fuel : ℕ) (m : TypeManager) (t : Ty) (id : ℤ) (name : String)
      → Ensures (λ _ m'. Grown m m') (register_new_vector ir fuel m t id name)
  unfolding register_new_vector layout
  register_new_vector-Grown fuel m t id name =
      Ensures-any (λ _ m'. Grown m m') (get_type_size_in_bytes ir fuel (ir.vector_element t)) _
        (λ size _. Grown-add_struct m (reserve_next_id m).1 _ (Grown-refl _) refl)

  get_or_register_vector-Grown :
      (fuel : ℕ) (m : TypeManager) (t : Ty)
      → Ensures (λ _ m'. Grown m m') (get_or_register_vector ir fuel m t)
  unfolding get_or_register_vector
  get_or_register_vector-Grown fuel m t =
      Ensures-any (λ _ m'. Grown m m') (get_vector_id ir (get_type_id ir fuel m) m t) _
        (λ known _. unless_known-Grown known m _ (
          Ensures-any (λ _ m'. Grown m m') (get_element_data ir (get_type_id ir fuel m) m t) _
            (λ element _. if_element-Grown element m _ (register_new_vector-Grown fuel m t))))

  abbrev pub AtGrown : Ty → TypeManager → ℤ → TypeManager → Type 0
  AtGrown t m id m' = Grown m m'

  abbrev InGrown : Ty → ℕ → TypeManager → List Member → TypeManager → Type 0
  InGrown t i m members m' = Grown m m'

  Grown-IsRule : IsRule ir AtGrown InGrown
  unfolding layout
  Grown-IsRule = record {
    basic = λ m t b. Grown-refl m;
    vector = λ fuel m t e. get_or_register_vector-Grown fuel m t;
    known = λ m t id e k. Grown-refl m;
    new = λ m m' t members e a g. Grown-add_struct m m' (struct_info ir m t members) g refl;
    end = λ m t i e. Grown-refl m;
    self = λ fuel m m' t u e i size id rest a b c d f g h. h;
    next = λ fuel m m' m'' t u e i size id rest a b c d g h. Grown-trans g h;
  }

  pub get_or_register_type-Grown :
      (fuel : ℕ) (m : TypeManager) (t : Ty)
      → Ensures (λ _ m'. Grown m m') (get_or_register_type ir fuel m t)
  get_or_register_type-Grown = get_or_register_type_rule ir AtGrown InGrown Grown-IsRule

  -- In consistent tables a registration that returns, while the ids fit an `int`, leaves
  -- consistent tables: a layout behind each name, and only ids that were given out; and every
  -- layout and every name that was there is there as before.
  pub get_or_register_type-IsConsistent :
      (fuel : ℕ) (m m' : TypeManager) (t : Ty) (id : ℤ)
      → IsConsistent m
      → get_or_register_type ir fuel m t ≡ done (id, m')
      → 256 + m'.struct_count ≤ 2 ^ 31
      → IsConsistent m' × Extends m m'
  get_or_register_type-IsConsistent fuel m m' t id c e b =
      let g : Grown m m' =
        subst (Ensures (λ _ m''. Grown m m'')) e (get_or_register_type-Grown fuel m t) in
      g.keeps c b
