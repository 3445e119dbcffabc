-- ===== src/Runner/Main.antt =====
-- A scenario from its file to its reports, `run_scenario` of crates/parity-runner/src/main.rs. What
-- it prints changes nothing that it answers, and is left out.
pub mod Traced
pub mod Complete
pub mod Evidence
pub mod Compared
pub mod Told
use client_rust_test.Base.{
  ◌-◌, Option, none, some, List, [], ◌∷◌, Bool, true, false, Bytes, text, map,
}
use client_rust_test.Base.Map.{Map, get, insert}
use client_rust_test.Base.Result.{Result, ok, err, Call, ◌>>=◌, ◌>>◌, pure, lift}
use client_rust_test.Base.Check.{ok_or, find, is_none, forbid_some, map_err}
use client_rust_test.Proto.Json.{Json}
use client_rust_test.Proto.Trace.{Trace}
use client_rust_test.Proto.Project.{Spec, project}
use client_rust_test.Proto.Diff.{Canonical, Divergence, diff}
use client_rust_test.Runner.Files.{trace_file, divergence_file}
use client_rust_test.Runner.Scenario.{Scenario, Run, Invalid, validate}
use client_rust_test.Runner.Process.{Environment, RunnerError, relabel}
use client_rust_test.Runner.Execute.{Binaries, Inadmissible, execute}
use client_rust_test.Runner.Retry.{max_attempts, retry}

pub record Report : Type 0 where
  pub schema : Bytes
  pub scenario : Bytes
  pub gap : Bytes
  pub provenance : Json
  pub oracle : Bytes
  pub subject : Bytes
  pub divergences : List Divergence

pub data ScenarioError : Type 0 where
  -- A file that cannot be read, parsed or written
  file : Bytes → ScenarioError
  invalid : Invalid → ScenarioError
  runner : RunnerError → ScenarioError
  no_trace : Bytes → ScenarioError
  -- The panics: of an index that no entry has, and of a path that the projection does not know
  no_entry : Bytes → ScenarioError
  unknown_path : ScenarioError

-- The file system, with the writing and reading of JSON
pub record Disk (World : Type 0) : Type 1 where
  pub FilePath : Type 0
  pub read_scenario : FilePath → Call World Bytes Scenario
  pub create_traces_dir : Call World Bytes (Unit {0})
  pub write_trace : Bytes → Trace → Call World Bytes (Unit {0})
  pub write_report : Bytes → Report → Call World Bytes (Unit {0})
  pub to_json : Json → Bytes

unfoldable pub report_of : Scenario → Json → Bytes → Bytes → Canonical → Canonical → Report
report_of s provenance a b oracle subject = record {
  schema = text "parity-divergence/v1";
  scenario = s.name;
  gap = s.gap;
  provenance = provenance;
  oracle = a;
  subject = b;
  divergences = diff oracle subject;
}

module _ (env : Environment) (disk : Disk env.World) where
  -- `Scenario::load`
  unfoldable pub load : disk.FilePath → Call env.World ScenarioError Scenario
  load path = do
    s ← relabel ScenarioError.file (disk.read_scenario path)
    lift (map_err ScenarioError.invalid (validate env.from_value s))
    pure s

  -- One run of the loop: its trace, or `none`
  unfoldable pub run_once :
      Scenario → Binaries env → Json → Run → Call env.World ScenarioError (Option Trace)
  unfolding retry
  run_once s bins provenance run = do
    lift (forbid_some (find (λ r. is_none (get r run.bind)) s.roles) ScenarioError.no_entry)
    relabel ScenarioError.runner (retry (execute env s run bins provenance) (max_attempts - 1))

  -- After the attempts at a run
  unfoldable pub keep_trace :
      Scenario
      → Run
      → Map Trace
      → (Map Trace → Call env.World ScenarioError (Option (Map Trace)))
      → Option Trace
      → Call env.World ScenarioError (Option (Map Trace))
  keep_trace s run traces continue none = pure none
  keep_trace s run traces continue (some trace) = do
    relabel ScenarioError.file (disk.write_trace (trace_file s.name run.name) trace)
    continue (insert run.name trace traces)

  -- The loop over the runs; `none` once one is inadmissible
  unfoldable pub run_all :
      Scenario
      → Binaries env
      → Json
      → List Run
      → Map Trace
      → Call env.World ScenarioError (Option (Map Trace))
  unfolding run_once keep_trace
  run_all s bins provenance [] traces = pure (some traces)
  run_all s bins provenance (run ∷ runs) traces = do
    trace ← run_once s bins provenance run
    keep_trace s run traces (λ more. run_all s bins provenance runs more) trace

  unfoldable pub compare :
      Scenario → Json → Bytes → Bytes → Map Trace → Call env.World ScenarioError Bool
  compare s provenance a b traces = do
    ta ← lift (ok_or (get a traces) (ScenarioError.no_trace a))
    tb ← lift (ok_or (get b traces) (ScenarioError.no_trace b))
    let spec : Spec = record { also_compare = s.also_compare }
    oracle ← lift (ok_or (project disk.to_json ta spec) ScenarioError.unknown_path)
    subject ← lift (ok_or (project disk.to_json tb spec) ScenarioError.unknown_path)
    relabel ScenarioError.file
        (disk.write_report (divergence_file s.name) (report_of s provenance a b oracle subject))
    pure true

  -- `&scenario.compare[0]` and `&scenario.compare[1]`
  unfoldable pub compare_named :
      Scenario → Json → List Bytes → Option (Map Trace) → Call env.World ScenarioError Bool
  unfolding compare
  compare_named s provenance names none = pure false
  compare_named s provenance (a ∷ b ∷ more) (some traces) = compare s provenance a b traces
  compare_named s provenance (a ∷ []) (some traces) = lift (err (ScenarioError.no_entry []))
  compare_named s provenance [] (some traces) = lift (err (ScenarioError.no_entry []))

  unfoldable pub run_scenario :
      disk.FilePath → Binaries env → Json → Call env.World ScenarioError Bool
  unfolding load run_all compare_named
  run_scenario path bins provenance = do
    s ← load path
    relabel ScenarioError.file disk.create_traces_dir
    traces ← run_all s bins provenance s.runs []
    compare_named s provenance s.compare traces
