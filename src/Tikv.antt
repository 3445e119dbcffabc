-- ===== src/Tikv.antt =====
-- What the harness uses of the crate tikv-client, which is not part of this repository: the names
-- of its error variants, and the operations of its clients as parameters.
pub mod Error
pub mod Client
