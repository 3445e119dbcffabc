-- ===== src/Tests.antt =====
-- Runs of the models at concrete inputs.
mod Commit
mod Data
mod Paging
mod Scan
mod Project
mod Command
mod Runner
mod Driver
mod Harness
mod Pd
