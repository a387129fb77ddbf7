-- ===== src/TypeLib/YamlTraits/RoundTrip.antt =====
-- What the YAML traits write they read back.
use type_art.Prelude.{ℕ, ◌≡◌, refl, false, List, [], ◌∷◌, map, some, String, arith}
use type_art.Prelude.Int.{ℤ}
use type_art.TypeLib.Types.{StructTypeInfo}
use type_art.Passes.Filter.NameTables.{find_key, has_name}
use type_art.TypeLib.YamlTraits.{
  Scalar, YamlOps, int_of_flag, flag_of_int, output_flag, input_flag, map_required, unknown_key,
  input_mapping, output_mapping, input_structs, yaml_input, yaml_output,
}

-- What the round trip needs of LLVM: a document of mappings is read as it was written, and so are
-- numbers, strings, sequences of numbers and the characters of a scalar; and the decimal digits of
-- a number are read as this number.
pub record IsFaithfulYaml {T X : Type 0} (yaml : YamlOps T X) : Type 0 where
  pub document_back :
      (entries : List (List (String × X)))
      → yaml.read_document (yaml.write_document entries) ≡ (map some entries, false)
  pub empty_back : yaml.read_document yaml.empty_document ≡ ([], false)
  pub int_back : (n : ℤ) → yaml.input_int (yaml.output_int n) ≡ (n, false)
  pub size_back : (n : ℕ) → yaml.input_size (yaml.output_size n) ≡ (n, false)
  pub string_back : (s : String) → yaml.input_string (yaml.output_string s) ≡ (s, false)
  pub ints_back : (ns : List ℤ) → yaml.input_ints (yaml.output_ints ns) ≡ (ns, false)
  pub sizes_back : (ns : List ℕ) → yaml.input_sizes (yaml.output_sizes ns) ≡ (ns, false)
  pub scalar_back : (s : Scalar) → yaml.input_scalar (yaml.output_scalar s) ≡ (s, false)
  pub decimal_back : (n : ℤ) → yaml.get_as_integer (yaml.decimal n) ≡ some n

flag_of_int-int_of_flag : (flag : ℕ) → flag_of_int (int_of_flag flag) ≡ flag
flag_of_int-int_of_flag flag = ground arith

module _ {T X : Type 0} (yaml : YamlOps T X) (ok : IsFaithfulYaml yaml) where
  input_flag-output_flag : (flag : ℕ) → input_flag yaml (output_flag yaml flag) ≡ flag
  unfolding input_flag output_flag
  input_flag-output_flag flag =
      rw (input_flag, ok.decimal_back (int_of_flag flag)) (flag_of_int-int_of_flag flag)

  input_mapping-output_mapping :
      (info : StructTypeInfo) → input_mapping yaml (output_mapping yaml info) ≡ (info, false)
  unfolding input_mapping output_mapping map_required find_key unknown_key has_name
  input_mapping-output_mapping info =
      rw
        (
          ok.int_back info.type_id,
          ok.string_back info.name,
          ok.size_back info.extent,
          ok.size_back info.num_members,
          ok.sizes_back info.offsets,
          ok.ints_back info.member_types,
          ok.sizes_back info.array_sizes,
          ok.scalar_back (output_flag yaml info.flag),
          input_flag-output_flag info.flag,
        )
        refl

  input_structs-output_mapping :
      (types : List StructTypeInfo)
      → input_structs yaml (map some (map (output_mapping yaml) types)) ≡ (types, false)
  unfolding input_structs
  input_structs-output_mapping [] = refl
  input_structs-output_mapping (s ∷ types) =
      rw (input_mapping-output_mapping s, input_structs-output_mapping types) refl

  pub yaml_input-yaml_output :
      (types : List StructTypeInfo) → yaml_input yaml (yaml_output yaml types) ≡ (types, false)
  unfolding yaml_input yaml_output
  yaml_input-yaml_output types =
      rw (ok.document_back (map (output_mapping yaml) types)) (input_structs-output_mapping types)

  pub yaml_input-empty_document : yaml_input yaml yaml.empty_document ≡ ([], false)
  unfolding yaml_input input_structs
  yaml_input-empty_document = rw ok.empty_back refl
