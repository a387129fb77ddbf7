-- ===== src/TypeLib/TypeIo.antt =====
-- lib/typelib/TypeIO.cpp and `make_database` of lib/typelib/TypeDB.cpp: the database as a YAML file.
-- Files come from outside. The log output is left out.
pub mod RoundTrip
use type_art.Prelude.{Bool, true, false, not, List, [], ◌∷◌, Option, none, some, String}
use type_art.TypeLib.Types.{StructTypeInfo}
use type_art.TypeLib.YamlTraits.{YamlOps, yaml_input, yaml_output}
use type_art.TypeLib.TypeDb.{TypeDb, empty_db, clear, get_struct_list}
use type_art.TypeLib.TypeDb.Refinement.{register_all}

-- `F` is the state of the files, `T` the text of one, `X` a value in a YAML document. `none` is an
-- error of the operating system.
pub record IoOps (F T X : Type 0) : Type 0 where
  pub get_file : F → String → Option T
  pub put_file : F → String → T → Option F
  pub yaml : YamlOps T X

module _ {F T X : Type 0} (io : IoOps F T X) where
  -- The result is `none` for an error code, which leaves the database as it was.
  unfoldable pub load : F → TypeDb → String → Option Bool × TypeDb
  load files db file = elim (io.get_file files file) [
    | none ↦ (none, db)
    | some mem_buffer ↦
        let (structures, failed) = yaml_input io.yaml mem_buffer in
        (some (not failed), register_all (clear db) structures)
  ]

  abbrev pub document : List StructTypeInfo → T
  document [] = io.yaml.empty_document
  document (s ∷ ss) = yaml_output io.yaml (s ∷ ss)

  unfoldable pub store : F → TypeDb → String → Option F
  store files db file = io.put_file files file (document (get_struct_list db))

  -- The second component tells whether the error code is set.
  unfoldable pub make_database : F → String → TypeDb × Bool
  make_database files file =
      let (loaded, type_db) = load files empty_db file in
      elim loaded [ none ↦ (type_db, true) | some _ ↦ (type_db, false) ]
