-- ===== src/Gate.antt =====
-- crates/parity-gate: the metadata store of the evaluation gate.
pub mod Prefix
pub mod Race
pub mod Batch
pub mod Commit
pub mod Scan
