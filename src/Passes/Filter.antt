-- ===== src/Passes/Filter.antt =====
-- lib/passes/filter: the filters that keep allocations from being tracked.
pub mod NameTables
pub mod CallGraph
pub mod IrPath
pub mod CallSites
pub mod Allocas
pub mod ForwardFilters
pub mod BaseFilter
