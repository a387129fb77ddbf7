-- ===== src/Tests/Registrations.antt =====
-- A nested struct type is registered, stored and loaded by the runtime.
use type_art.Prelude.{◌≡◌, refl, [], ◌∷◌, arith}
use type_art.Prelude.Int.{ℤ, pos}
use type_art.TypeLib.TypeDb.{
  register_struct, is_valid, find_id, insert_id, get_struct_info, get_type_name,
  is_user_defined_type, is_vector_type,
}
use type_art.TypeLib.TypeIo
use type_art.Passes.IrTypes.{done}
use type_art.Passes.TypeUtil.{get_array_element_type, flatten_length, get_type_size_in_bytes}
use type_art.Passes.TypeHandlers.{
  TypeManager, new_manager, find_struct, insert_struct, reserve_next_id, add_struct, layout,
  get_name, get_struct_id, get_element_data, get_vector_id,
}
use type_art.Passes.TypeGen.{
  get_type_id, register_new_vector, get_or_register_vector, member_id, member_loop,
  get_or_register_struct, get_or_register_type,
}
use type_art.Passes.TypeGen.Registry.{IsConsistent, Extends, Extends-refl}
use type_art.Passes.TypeGen.Runs.{get_or_register_type-IsConsistent}
use type_art.Passes.TypeGen.Ends.{get_or_register_type-Returns}
use type_art.Passes.TypeGen.Names.{get_or_register_type-get_type_id}
use type_art.Passes.TypeGen.Resolvable.{new_manager-IsConsistent}
use type_art.Tests.Compiler.{target, depth, outer, target-IsTyped, target-IsNamed}

abbrev before : TypeManager
before = new_manager "types.yaml"

abbrev after : TypeManager
after = record {
  file = "types.yaml";
  type_db = record {
    struct_info_vec =
        record {
          type_id = pos 257;
          name = "struct.inner";
          extent = 16;
          num_members = 2;
          offsets = 0 ∷ 8 ∷ [];
          member_types = pos 2 ∷ pos 6 ∷ [];
          array_sizes = 1 ∷ 1 ∷ [];
          flag = 1;
        }
        ∷ record {
          type_id = pos 258;
          name = "vec3:float";
          extent = 16;
          num_members = 2;
          offsets = 0 ∷ 12 ∷ [];
          member_types = pos 5 ∷ pos 0 ∷ [];
          array_sizes = 3 ∷ 4 ∷ [];
          flag = 2;
        }
        ∷ record {
          type_id = pos 256;
          name = "struct.outer";
          extent = 48;
          num_members = 4;
          offsets = 0 ∷ 8 ∷ 24 ∷ 32 ∷ [];
          member_types = pos 0 ∷ pos 257 ∷ pos 0 ∷ pos 258 ∷ [];
          array_sizes = 1 ∷ 1 ∷ 3 ∷ 1 ∷ [];
          flag = 1;
        }
        ∷ [];
    typeid_to_list_index = (pos 256, 2) ∷ (pos 258, 1) ∷ (pos 257, 0) ∷ [];
  };
  struct_map = ("struct.outer", pos 256) ∷ ("vec3:float", pos 258) ∷ ("struct.inner", pos 257) ∷ [];
  struct_count = 3;
}

-- The struct, the one in it and the vector get ids and layouts, the padding of the vector included.
registered : get_or_register_type target 5 before outer ≡ done (pos 256, after)
unfolding find_struct insert_struct reserve_next_id add_struct layout get_name get_struct_id
    get_element_data get_vector_id get_type_id register_new_vector get_or_register_vector member_id
    member_loop get_or_register_struct get_or_register_type get_array_element_type flatten_length
    get_type_size_in_bytes register_struct is_valid find_id insert_id get_struct_info get_type_name
    is_user_defined_type is_vector_type
registered = refl

get_or_register_type-IsConsistent_example : IsConsistent after × Extends before after
get_or_register_type-IsConsistent_example =
    get_or_register_type-IsConsistent target 5 before after outer (pos 256)
      (new_manager-IsConsistent "types.yaml") registered (omega arith)

get_or_register_type-get_type_id_example :
    (get_type_id target 2 after outer ≡ done (pos 256))
    × (get_or_register_type target 2 after outer ≡ done (pos 256, after))
get_or_register_type-get_type_id_example =
    get_or_register_type-get_type_id target depth target-IsTyped target-IsNamed 5 0 before after
      after outer (pos 256) (new_manager-IsConsistent "types.yaml") registered (omega arith)
      (Extends-refl after)

get_or_register_type-Returns_example :
    (id : ℤ) × (m : TypeManager) × (get_or_register_type target 4 before outer ≡ done (id, m))
get_or_register_type-Returns_example =
    get_or_register_type-Returns target depth target-IsTyped 4 before outer (omega arith)
