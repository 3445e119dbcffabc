-- ===== src/Runner/Execute.antt =====
-- One run of a scenario, crates/parity-runner/src/run.rs. An error is the constructor that names its
-- message; a run that is evidence of nothing says why in the same way.
pub mod Spawned
pub mod Recorded
pub mod Outcome
pub mod Precondition
use client_rust_test.Base.{
  ℕ, Option, none, some, List, [], ◌∷◌, ◌++◌, Bool, true, false, not, if◌then◌else◌, Bytes,
  bytes_eq, text, is_utf8,
}
use client_rust_test.Base.Map.{Map, get, insert}
use client_rust_test.Base.Result.{Result, ok, err, Call, ◌>>=◌, ◌>>◌, pure, lift}
use client_rust_test.Base.Check.{ok_or, attempt, is_none, map_err}
use client_rust_test.Proto.Json.{Json}
use client_rust_test.Proto.Class.{inadmissible_reason}
use client_rust_test.Proto.Observation.{Observation}
use client_rust_test.Proto.Trace.{RoleBinding, Trace, inadmissible, is_transient}
use client_rust_test.Proto.Trace
use client_rust_test.Harness.Fixtures.{unique_prefix}
use client_rust_test.Runner.Substitute.{substitute}
use client_rust_test.Runner.Scenario.{
  Scenario, Run, Step, Assert, Failure, check, is_op, op_of, ms_of,
}
use client_rust_test.Runner.Process.{Environment, RunnerError, Response, Driver, spawn, send}

-- Why a run is evidence of nothing.
pub data Why : Type 0 where
  precondition : (step : Bytes) → Failure → Why
  observations : List Bytes → Why

pub record Inadmissible : Type 0 where
  pub run : Bytes
  pub why : Why
  pub transient : Bool

abbrev pub trace_schema : Bytes
trace_schema = text "parity-trace/v1"

-- `cmd_op`
unfoldable pub cmd_op : Json → Bytes
cmd_op cmd = elim (op_of cmd) [ none ↦ text "?" | some o ↦ o ]

unfoldable pub precondition_failure : Assert → Observation → Option Failure
unfolding check
precondition_failure assert obs =
    if not (is_none (inadmissible_reason obs.class)) then none else check assert obs

-- The failure of the precondition that a step has, if it has one
unfoldable pub failed_assert : Option Assert → Observation → Option Failure
unfolding precondition_failure
failed_assert none obs = none
failed_assert (some assert) obs = precondition_failure assert obs

module _ (env : Environment) where
  pub record Binaries : Type 0 where
    pub rust : env.Binary
    pub go : env.Binary

  -- `Binaries::get`
  unfoldable pub binary_of : Binaries → Bytes → Result RunnerError env.Binary
  binary_of bins driver =
      if bytes_eq driver (text "rust")
      then ok bins.rust
      else if bytes_eq driver (text "go")
      then ok bins.go
      else err (RunnerError.unknown_driver driver)

  -- One driver process per role
  unfoldable pub spawn_roles :
      Run → Binaries → List Bytes → Map (Driver env) → Call env.World RunnerError (Map (Driver env))
  unfolding binary_of spawn
  spawn_roles run bins [] drivers = pure drivers
  spawn_roles run bins (role ∷ roles) drivers = do
    driver_name ← lift (ok_or (get role run.bind) (RunnerError.unbound_role run.name role))
    bin ← lift (binary_of bins driver_name)
    d ← spawn env driver_name bin
    spawn_roles run bins roles (insert role d drivers)

  unfoldable pub bindings : Map (Driver env) → List Bytes → Result RunnerError (List RoleBinding)
  bindings drivers [] = ok []
  bindings drivers (r ∷ roles) = attempt (ok_or (get r drivers) (RunnerError.no_entry r)) (λ d.
      attempt (bindings drivers roles)
        (λ later. ok (record { role = r; driver = d.hello.driver; hello = d.hello } ∷ later)))

  -- A command of a step, under the prefix of the run
  unfoldable pub observe :
      Map (Driver env) → Bytes → Step → Call env.World RunnerError (Bytes × Observation)
  unfolding substitute send
  observe drivers prefix step = do
    role ← lift (ok_or step.role (RunnerError.no_role step.id))
    driver ← lift (ok_or (get role drivers) (RunnerError.no_driver step.id role))
    cmd ← lift (map_err (RunnerError.bad_command step.id) (env.from_value step.cmd))
    resp ← send env driver (substitute cmd prefix)
    obs ← lift (ok_or resp.observation (RunnerError.no_observation step.id))
    pure (role, obs)

  abbrev pub failed : Run → Step → Failure → Inadmissible
  failed run step why = record {
    run = run.name;
    why = Why.precondition step.id why;
    transient = false;
  }

  abbrev pub recorded : Step → Bytes → Observation → Trace.Step
  recorded step role obs = record {
    id = step.id;
    role = role;
    op = cmd_op step.cmd;
    observation = obs;
  }

  abbrev Steps : Type 0
  Steps = Call env.World RunnerError (Result Inadmissible (List Trace.Step))

  -- The end of a step: its precondition failed, or it is recorded and the run goes on.
  unfoldable pub after_assert :
      Run
      → Step
      → List Trace.Step
      → Bytes × Observation
      → (List Trace.Step → Steps)
      → Option Failure
      → Steps
  after_assert run step steps seen continue (some why) = pure (err (failed run step why))
  after_assert run step steps seen continue none =
      continue (steps ++ recorded step seen.0 seen.1 ∷ [])

  -- The loop over the steps; `steps` are those recorded so far.
  unfoldable pub run_steps : Run → Map (Driver env) → Bytes → List Step → List Trace.Step → Steps
  unfolding observe failed_assert after_assert
  run_steps run drivers prefix [] steps = pure (ok steps)
  run_steps run drivers prefix (step ∷ rest) steps =
      if is_op (text "sleep") step.cmd
      then (do
        ms ← lift (ok_or (ms_of step.cmd) (RunnerError.no_ms step.id))
        (λ w. (ok tt, env.sleep ms w))
        run_steps run drivers prefix rest steps)
      else (do
        seen ← observe drivers prefix step
        after_assert run step steps seen (λ so_far. run_steps run drivers prefix rest so_far)
            (failed_assert step.assert seen.1))

  -- The end of a run, from its trace and the reasons that it is evidence of nothing
  unfoldable pub judge : Run → Trace → List Bytes → Result Inadmissible Trace
  judge run trace [] = ok trace
  judge run trace (bad ∷ more) = err (record {
    run = run.name;
    why = Why.observations (bad ∷ more);
    transient = is_transient trace;
  })

  abbrev pub finish :
      (List Trace.Step → Trace)
      → Run
      → Result Inadmissible (List Trace.Step)
      → Result Inadmissible Trace
  finish trace run (err bad) = err bad
  finish trace run (ok steps) = judge run (trace steps) (inadmissible (trace steps))

  abbrev pub trace_of : Scenario → Run → Json → Bytes → List RoleBinding → List Trace.Step → Trace
  trace_of scenario run provenance prefix roles steps = record {
    schema = trace_schema;
    scenario = scenario.name;
    run = run.name;
    provenance = provenance;
    roles = roles;
    prefix = prefix;
    steps = steps;
  }

  -- A run under its prefix
  unfoldable pub under_prefix :
      Scenario
      → Run
      → Binaries
      → Json
      → Bytes
      → Call env.World RunnerError (Result Inadmissible Trace)
  unfolding spawn_roles bindings run_steps judge
  under_prefix scenario run bins provenance prefix = do
    lift (if is_utf8 prefix then ok tt else err RunnerError.prefix_not_utf8)
    drivers ← spawn_roles run bins scenario.roles []
    roles ← lift (bindings drivers scenario.roles)
    steps ← run_steps run drivers prefix scenario.steps []
    pure (
        finish (λ recorded_steps. trace_of scenario run provenance prefix roles recorded_steps) run
          steps)

  unfoldable pub execute :
      Scenario → Run → Binaries → Json → Call env.World RunnerError (Result Inadmissible Trace)
  unfolding under_prefix
  execute scenario run bins provenance w =
      let (nanos, w') = env.nanos w in
      under_prefix scenario run bins provenance (unique_prefix scenario.name nanos) w'
