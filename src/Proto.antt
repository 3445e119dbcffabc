-- ===== src/Proto.antt =====
-- crates/parity-proto: what the drivers and the runner speak.
pub mod Json
pub mod Class
pub mod Base64
pub mod Observation
pub mod Diff
pub mod Trace
pub mod Project
pub mod Command
