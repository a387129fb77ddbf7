-- ===== src/TypeLib/YamlTraits.antt =====
-- The YAML traits of lib/typelib/TypeIO.cpp: how the struct layouts stand in a type file. The YAML
-- reader and writer and the conversions of numbers and strings are LLVM's and come from outside.
pub mod RoundTrip
use type_art.Prelude.{
  ℕ, ◌-◌, ◌^◌, Bool, true, false, not, ◌&&◌, ◌||◌, List, [], ◌∷◌, map, Option, none, some, String,
  if◌then◌else◌, ltb, leb,
}
use type_art.Prelude.Int.{ℤ, pos, negsuc}
use type_art.TypeLib.Types.{StructTypeInfo, user_defined}
use type_art.Passes.Filter.NameTables.{find_key, has_name}

-- The characters of a scalar.
abbrev pub Scalar : Type 0
Scalar = List ℕ

-- `T` is the text of a file, `X` a value in a document. A Boolean tells of an error. The conversions
-- give what they have read even with one. `read_document` gives the entries of the sequence that
-- the document is, and none for an entry that is no mapping; the empty document has no entries.
-- `decimal` is what `raw_ostream` prints, `get_as_integer` is `StringRef::getAsInteger` with radix 0.
pub record YamlOps (T X : Type 0) : Type 0 where
  pub read_document : T → List (Option (List (String × X))) × Bool
  pub write_document : List (List (String × X)) → T
  pub empty_document : T
  pub input_int : X → ℤ × Bool
  pub input_size : X → ℕ × Bool
  pub input_string : X → String × Bool
  pub input_ints : X → List ℤ × Bool
  pub input_sizes : X → List ℕ × Bool
  pub input_scalar : X → Scalar × Bool
  pub output_int : ℤ → X
  pub output_size : ℕ → X
  pub output_string : String → X
  pub output_ints : List ℤ → X
  pub output_sizes : List ℕ → X
  pub output_scalar : Scalar → X
  pub decimal : ℤ → Scalar
  pub get_as_integer : Scalar → Option ℤ

-- A conversion between a flag, as its bits, and its value as an `int`.
abbrev pub int_of_flag : ℕ → ℤ
int_of_flag value =
    if leb (2 ^ 31) value && ltb value (2 ^ 32) then negsuc (2 ^ 32 - 1 - value) else pos value

abbrev pub flag_of_int : ℤ → ℕ
flag_of_int (pos n) = n
flag_of_int (negsuc n) = 2 ^ 32 - 1 - n

abbrev empty_info : StructTypeInfo
empty_info = record {
  type_id = pos 0;
  name = "";
  extent = 0;
  num_members = 0;
  offsets = [];
  member_types = [];
  array_sizes = [];
  flag = 0;
}

abbrev field_names : List String
field_names =
    "id" ∷ "name" ∷ "extent" ∷ "member_count" ∷ "offsets" ∷ "types" ∷ "sizes" ∷ "flags" ∷ []

module _ {T X : Type 0} (yaml : YamlOps T X) where
  -- `ScalarTraits<StructTypeFlag>`
  unfoldable pub output_flag : ℕ → Scalar
  output_flag value = yaml.decimal (int_of_flag value)

  unfoldable pub input_flag : Scalar → ℕ
  input_flag scalar = elim (yaml.get_as_integer scalar) [
    | none ↦ user_defined
    | some flag ↦ flag_of_int flag
  ]

  abbrev pub input_flag_value : X → ℕ × Bool
  input_flag_value value =
      let (scalar, failed) = yaml.input_scalar value in (input_flag scalar, failed)

  -- `IO::mapRequired` of a reader, which does nothing behind an error, and meets one if the key is
  -- missing.
  unfoldable pub map_required :
      {A : Type 0} → String → (X → A × Bool) → A → List (String × X) → Bool → A × Bool
  map_required key input old fields true = (old, true)
  map_required key input old fields false = elim (find_key key fields) [
    | none ↦ (old, true)
    | some value ↦ input value
  ]

  -- A key in the mapping that was not asked for is an error.
  unfoldable pub unknown_key : List (String × X) → Bool
  unknown_key [] = false
  unknown_key ((key, value) ∷ fields) = not (has_name key field_names) || unknown_key fields

  -- `MappingTraits<StructTypeInfo>::mapping`, of a reader and of a writer.
  unfoldable pub input_mapping : List (String × X) → StructTypeInfo × Bool
  input_mapping fields =
      let (type_id, e1) = map_required "id" yaml.input_int (pos 0) fields false in
      let (name, e2) = map_required "name" yaml.input_string "" fields e1 in
      let (extent, e3) = map_required "extent" yaml.input_size 0 fields e2 in
      let (num_members, e4) = map_required "member_count" yaml.input_size 0 fields e3 in
      let (offsets, e5) = map_required "offsets" yaml.input_sizes [] fields e4 in
      let (member_types, e6) = map_required "types" yaml.input_ints [] fields e5 in
      let (array_sizes, e7) = map_required "sizes" yaml.input_sizes [] fields e6 in
      let (flag, e8) = map_required "flags" input_flag_value 0 fields e7 in
      (
        record {
          type_id = type_id;
          name = name;
          extent = extent;
          num_members = num_members;
          offsets = offsets;
          member_types = member_types;
          array_sizes = array_sizes;
          flag = flag;
        },
        e8 || unknown_key fields,
      )

  unfoldable pub output_mapping : StructTypeInfo → List (String × X)
  output_mapping info =
      ("id", yaml.output_int info.type_id)
      ∷ ("name", yaml.output_string info.name)
      ∷ ("extent", yaml.output_size info.extent)
      ∷ ("member_count", yaml.output_size info.num_members)
      ∷ ("offsets", yaml.output_sizes info.offsets)
      ∷ ("types", yaml.output_ints info.member_types)
      ∷ ("sizes", yaml.output_sizes info.array_sizes)
      ∷ ("flags", yaml.output_scalar (output_flag info.flag))
      ∷ []

  -- `in >> structures`: an error ends the reading, with the struct that it was met in as the last.
  unfoldable pub input_structs : List (Option (List (String × X))) → List StructTypeInfo × Bool
  input_structs [] = ([], false)
  input_structs (none ∷ entries) = (empty_info ∷ [], true)
  input_structs (some fields ∷ entries) =
      let (info, failed) = input_mapping fields in
      let (structures, failed') = input_structs entries in
      if failed then (info ∷ [], true) else (info ∷ structures, failed')

  unfoldable pub yaml_input : T → List StructTypeInfo × Bool
  yaml_input text =
      let (entries, failed) = yaml.read_document text in
      if failed then ([], true) else input_structs entries

  -- `out << types`
  unfoldable pub yaml_output : List StructTypeInfo → T
  yaml_output types = yaml.write_document (map output_mapping types)
