-- ===== src/Tests.antt =====
-- Concrete types and allocations, and every theorem of the list of results applied to them.
pub mod Data
pub mod Allocations
pub mod Histories
pub mod Report
pub mod TypeQueries
pub mod Types
pub mod Compiler
pub mod Registrations
pub mod CallGraphs
pub mod Filters
