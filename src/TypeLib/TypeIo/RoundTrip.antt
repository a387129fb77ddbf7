-- ===== src/TypeLib/TypeIo/RoundTrip.antt =====
-- A database that is stored and loaded again is the same to every lookup.
use type_art.Prelude.{arith, ◌≡◌, refl, true, false, List, [], ◌∷◌, some, String}
use type_art.Prelude.Int.{ℤ, pos}
use type_art.TypeLib.Types.{StructTypeInfo}
use type_art.TypeLib.TypeDb.{TypeDb, empty_db, clear, get_struct_info, get_struct_list}
use type_art.TypeLib.TypeDb.Invariant.{IsWellFormed}
use type_art.TypeLib.TypeDb.Refinement.{register_all}
use type_art.TypeLib.TypeDb.Reload.{register_all-get_struct_list}
use type_art.TypeLib.YamlTraits.{yaml_input}
use type_art.TypeLib.YamlTraits.RoundTrip.{
  IsFaithfulYaml, yaml_input-yaml_output, yaml_input-empty_document,
}
use type_art.TypeLib.TypeIo.{IoOps, load, store, document, make_database}

-- What the round trip needs of files and LLVM's YAML: a file that was written is read back, and so
-- are documents, numbers and strings.
pub record IsFaithful {F T X : Type 0} (io : IoOps F T X) : Type 0 where
  pub read_back :
      (files files' : F) (file : String) (t : T)
      → io.put_file files file t ≡ some files'
      → io.get_file files' file ≡ some t
  pub yaml_back : IsFaithfulYaml io.yaml

document-yaml_input :
    {F T X : Type 0} (io : IoOps F T X) (ss : List StructTypeInfo)
    → IsFaithful io
    → yaml_input io.yaml (document io ss) ≡ (ss, false)
document-yaml_input io [] ok = yaml_input-empty_document io.yaml ok.yaml_back
document-yaml_input io (s ∷ ss) ok = yaml_input-yaml_output io.yaml ok.yaml_back (s ∷ ss)

pub load_stored :
    {F T X : Type 0} (io : IoOps F T X) (files files' : F) (db old : TypeDb) (file : String)
    → IsFaithful io
    → store io files db file ≡ some files'
    → load io files' old file ≡ (some true, register_all (clear old) (get_struct_list db))
unfolding load store
load_stored io files files' db old file ok stored = ground (
  arith,
  ok.read_back files files' file (document io (get_struct_list db)) stored,
  document-yaml_input io (get_struct_list db) ok,
)

-- If files are read as they were written, and LLVM reads documents, numbers and strings as it has
-- written them, what a well-formed database stores without an error is loaded without one, into
-- any database, which then holds the same structs in the same order and answers every id in the
-- same way.
pub load-store :
    {F T X : Type 0} (io : IoOps F T X) (files files' : F) (db old : TypeDb) (file : String)
    (id : ℤ)
    → IsFaithful io
    → IsWellFormed db
    → store io files db file ≡ some files'
    → let (result, again) = load io files' old file in
      (result ≡ some true)
      × (get_struct_list again ≡ get_struct_list db)
      × (get_struct_info again id ≡ get_struct_info db id)
load-store io files files' db old file id ok v stored =
    let (same, answers) = register_all-get_struct_list db old id v in
    rw (load_stored io files files' db old file ok stored) (refl, same, answers)

make_database_loaded :
    {F T X : Type 0} (io : IoOps F T X) (files : F) (file : String)
    → (load io files empty_db file).0 ≡ some true
    → make_database io files file ≡ ((load io files empty_db file).1, false)
unfolding make_database
make_database_loaded io files file loaded = rw (loaded, make_database) refl

-- If files are read as they were written, and LLVM reads documents, numbers and strings as it has
-- written them, `make_database` on a file that a well-formed database was stored in without an
-- error has no error, and its database holds the same structs in the same order and answers every
-- id in the same way.
pub make_database-store :
    {F T X : Type 0} (io : IoOps F T X) (files files' : F) (db : TypeDb) (file : String)
    → IsFaithful io
    → IsWellFormed db
    → store io files db file ≡ some files'
    → let (made, failed) = make_database io files' file in
      (failed ≡ false)
      × (get_struct_list made ≡ get_struct_list db)
      × ((id : ℤ) → get_struct_info made id ≡ get_struct_info db id)
make_database-store io files files' db file ok v stored =
    let (loaded, same, answers) = load-store io files files' db empty_db file (pos 0) ok v stored in
    rw (make_database_loaded io files' file loaded) (
      refl,
      same,
      λ id.
          let (_, _, answer) = load-store io files files' db empty_db file id ok v stored in answer,
    )
