-- ===== src/Driver.antt =====
-- crates/rust-driver: the driver of client-rust.
pub mod Mapping
pub mod Paging
pub mod Probe
pub mod Exec
