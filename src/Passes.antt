-- ===== src/Passes.antt =====
-- The compiler passes, lib/passes.
pub mod IrTypes
pub mod TypeUtil
pub mod TypeHandlers
pub mod TypeGen
pub mod Filter
pub mod MemOps
pub mod DefUseChain
