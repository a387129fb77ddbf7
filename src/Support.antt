-- ===== src/Support.antt =====
-- The support library, lib/support.
pub mod Table
