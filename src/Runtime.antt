-- ===== src/Runtime.antt =====
-- The runtime library, lib/runtime: it tracks allocations and answers type queries.
pub mod PointerMap
pub mod Recorder
pub mod Tracker
pub mod Callbacks
pub mod Resolution
pub mod Interface
pub mod System
pub mod Report
