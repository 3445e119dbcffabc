-- ===== src/Harness.antt =====
-- crates/harness: the cluster under test, with no client in it.
pub mod Memcomparable
pub mod Fixtures
pub mod SplitWait
pub mod Corpus
pub mod CrossRegion
pub mod Pd
