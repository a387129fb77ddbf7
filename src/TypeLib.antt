-- ===== src/TypeLib.antt =====
-- The type library, lib/typelib: the database of type layouts that compiler pass and runtime share.
pub mod Types
pub mod TypeDb
pub mod YamlTraits
pub mod TypeIo
