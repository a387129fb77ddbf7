-- ===== src/Passes/TypeGen/Resolvable.antt =====
-- Of whatever types a compiler registers, the runtime loads the layouts, and can resolve addresses
-- by them.
use type_art.Prelude.{ℕ, suc, ◌+◌, ◌^◌, ◌≤◌, ◌≡◌, none, some, String, arith}
use type_art.Prelude.Int.{ℤ}
use type_art.TypeLib.TypeDb.{TypeDb, find_id, get_struct_info}
use type_art.TypeLib.TypeDb.Invariant.{empty_db-IsWellFormed}
use type_art.TypeLib.TypeIo
use type_art.Passes.IrTypes.{IrOps, done}
use type_art.Passes.TypeHandlers.{TypeManager, new_manager, find_struct}
use type_art.Passes.TypeGen.{get_type_id, get_or_register_type}
use type_art.Passes.TypeGen.Laws.{IsTyped, IsNamed}
use type_art.Passes.TypeGen.Registry.{IsConsistent}
use type_art.Passes.TypeGen.Target.{IsTarget}
use type_art.Passes.TypeGen.Layouts.{IsLaidOut}
use type_art.Passes.TypeGen.Exact.{Exact}
use type_art.Passes.TypeGen.Describes.{get_or_register_type-AtLaid}

-- The position of the layout behind an id.
abbrev pub position : TypeDb → ℤ → ℕ
position db id = elim (find_id id db.typeid_to_list_index) [ none ↦ 0 | some p ↦ p ]

pub new_manager-IsConsistent : (file : String) → IsConsistent (new_manager file)
unfolding find_id find_struct get_struct_info
new_manager-IsConsistent file = record {
  types = empty_db-IsWellFormed;
  reserved = λ id s h. cc;
  named = λ name id h. cc;
}

new_manager-IsLaidOut :
    {Ty : Type 0} (ir : IrOps Ty) (file : String) → IsLaidOut ir (new_manager file)
unfolding find_struct
new_manager-IsLaidOut ir file = record {
  layouts = λ p s h. cc;
  structs = λ t id s kind h f. cc;
  vectors = λ t name id s kind h f. cc;
}

-- `getTypeID` answers the id of a type.
abbrev pub HasId : {Ty : Type 0} → IrOps Ty → TypeManager → Ty → ℤ → Type 0
HasId ir m t id = (fuel : ℕ) → get_type_id ir (suc (suc fuel)) m t ≡ done id

-- The tables after any number of registrations, of any types in any order.
pub data Registers {Ty : Type 0} (ir : IrOps Ty) (m : TypeManager) : TypeManager → Type 0 where
  start : Registers ir m m
  register :
      {m' m'' : TypeManager} (fuel : ℕ) (t : Ty) (id : ℤ)
      → Registers ir m m'
      → get_or_register_type ir fuel m' t ≡ done (id, m'')
      → Registers ir m m''

module _ {Ty : Type 0} (ir : IrOps Ty) (rank : Ty → ℕ) (typed : IsTyped ir rank)
    (named : IsNamed ir) (target : IsTarget ir) where
  pub Registers-IsLaidOut :
      (file : String) {m : TypeManager}
      → Registers ir (new_manager file) m
      → 256 + m.struct_count ≤ 2 ^ 31
      → IsConsistent m × IsLaidOut ir m
  Registers-IsLaidOut file start b = (new_manager-IsConsistent file, new_manager-IsLaidOut ir file)
  Registers-IsLaidOut file (register {m'} {m''} fuel t id r e) b =
      let step = get_or_register_type-AtLaid ir rank typed named target fuel m' m'' t id e in
      let (c, l) = Registers-IsLaidOut file r (omega (arith, step.grown.count)) in
      let (c', _) = step.grown.keeps c b in let (l', _, _) = step.laid c b l in (c', l')
