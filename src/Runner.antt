-- ===== src/Runner.antt =====
-- crates/parity-runner: the runner of scenarios.
pub mod Substitute
pub mod Files
pub mod Scenario
pub mod Process
pub mod Execute
pub mod Retry
pub mod Main
pub mod Cli
