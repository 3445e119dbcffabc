-- ===== src/Runner/Files.antt =====
-- The files that `run_scenario` of crates/parity-runner/src/main.rs writes, as paths.
use client_rust_test.Base.{◌++◌, Bytes, text}

unfoldable pub trace_file : Bytes → Bytes → Bytes
trace_file scenario run =
    text "results/traces/" ++ (scenario ++ (text "." ++ (run ++ text ".json")))

unfoldable pub divergence_file : Bytes → Bytes
divergence_file scenario = text "results/divergence." ++ (scenario ++ text ".json")
