-- ===== src/Tests/Runner.antt =====
-- A scenario at a concrete input, run by drivers that answer every command with `ok`.
use client_rust_test.Base.{
  ℕ, List, zero, suc, bytes_eq, bytes_lt, decimal, is_blank, is_utf8, ◌+◌, ◌≤◌, ◌≡◌, ◌≢◌, ◌⊎◌, ◌↔◌,
  inl, refl, none, some, [], ◌∷◌, true, false, if◌then◌else◌, Bytes, text,
}
use client_rust_test.Base.Result.{Result, ok, err, Call, Outcome}
use client_rust_test.Proto.Json.{Json, Fields, member, as_str, as_u64, as_object, size}
use client_rust_test.Proto.Project
use client_rust_test.Proto.Class.{Class, is_admissible, inadmissible_reason}
use client_rust_test.Proto.Command
use client_rust_test.Proto.Command.{Command, KeyArg, args}
use client_rust_test.Proto.Trace.{Hello}
use client_rust_test.Proto.Observation.{Observation}
use client_rust_test.Runner.Scenario.{Scenario, Run, Assert, is_op, validate}
use client_rust_test.Runner.Scenario.Exact.{IsValid, validate-IsValid}
use client_rust_test.Runner.Scenario.{
  validate_bound, find_run, validate_step, validate_run, active_roles, validate_sleep,
  validate_command, is_plain_name, op_of, ms_of,
}
use client_rust_test.Runner.Scenario.Plain.{trace_file-is_plain_name}
use client_rust_test.Runner.Process.{Environment, Response, protocol_version}
use client_rust_test.Runner.Execute.{Binaries, Inadmissible, Why, precondition_failure, execute}
use client_rust_test.Runner.Execute.Spawned.{IsOutside}
use client_rust_test.Runner.Execute.Outcome.{Ends, execute-validate}
use client_rust_test.Runner.Execute.Precondition.{Meets, precondition_failure-Meets}
use client_rust_test.Runner.Retry.{retry, after_attempt}
use client_rust_test.Runner.Retry.Bounded.{Attempted, answer, GaveUp, retry-Attempted}
use client_rust_test.Runner.Main.{Disk, run_scenario}
use client_rust_test.Runner.Cli.{Shell, scenarios, main}
use client_rust_test.Runner.Cli.Exit.{Succeeds, after_all, main-Succeeds}
use client_rust_test.Runner.Main.Evidence.{IsMade}
use client_rust_test.Base.Map.{Map, get}
use client_rust_test.Runner.Main.Compared.{Ran}
use client_rust_test.Runner.Main.Told.{Reported, run_scenario-Told}
use client_rust_test.Proto.Trace.{Trace, inadmissible}
use client_rust_test.Proto.Project.{project}
use client_rust_test.Harness.Fixtures.{unique_prefix}
use client_rust_test.Runner.Main.Traced.{IsReported}
use client_rust_test.Runner.Main.Complete.{run_scenario-IsReported}

abbrev cmd_get : Json
cmd_get = Json.object (Fields.field (text "op") (Json.string (text "get")) Fields.end)

abbrev cmd_sleep : Json
cmd_sleep = Json.object (
    Fields.field (text "op") (Json.string (text "sleep"))
      (Fields.field (text "ms") (Json.number 5) Fields.end))

abbrev scenario : Scenario
scenario = record {
  schema = text "parity-scenario/v1";
  name = text "n";
  doc = [];
  gap = text "G-0000";
  roles = text "r" ∷ [];
  runs =
      record { name = text "oracle"; bind = (text "r", text "go") ∷ [] }
      ∷ record { name = text "subject"; bind = (text "r", text "rust") ∷ [] }
      ∷ [];
  compare = text "oracle" ∷ text "subject" ∷ [];
  also_compare = [];
  steps =
      record { id = text "a"; role = some (text "r"); cmd = cmd_get; assert = none; why = none }
      ∷ record { id = text "b"; role = none; cmd = cmd_sleep; assert = none; why = some (text "x") }
      ∷ [];
}

abbrev from_value : Json → Result Bytes Command
from_value v =
    if is_op (text "get") v then ok (Command.get (text "s") (KeyArg.utf8 (text "k"))) else err []

scenario-validate : validate from_value scenario ≡ ok tt
unfolding validate validate_bound find_run validate_step validate_run active_roles validate_sleep
    validate_command is_plain_name op_of ms_of text bytes_eq member as_str Project.validate args
    Command.validate as_u64 as_object size is_blank
scenario-validate = refl

validate-IsValid_example : (validate from_value scenario ≡ ok tt) ↔ IsValid from_value scenario
validate-IsValid_example = validate-IsValid from_value scenario

trace_file-is_plain_name_example : (text "a" ≡ text "a") × (text "b-1" ≡ text "b-1")
unfolding is_plain_name text
trace_file-is_plain_name_example =
    trace_file-is_plain_name (text "a") (text "b-1") (text "a") (text "b-1") refl refl refl refl
      refl

abbrev greeting : Hello
greeting = record {
  driver = text "go";
  protocol = protocol_version;
  client = record { name = []; version = []; replaced = false };
  features = [];
  config = [];
}

abbrev obs_of : Class → Observation
obs_of c = record {
  class = c;
  value = none;
  locks = [];
  start_ts = none;
  commit_ts = none;
  error_count = none;
  proto = none;
  native = none;
  checksum = none;
}

abbrev reply : Command → Response
reply Command.hello = record { hello = some greeting; observation = none }
reply _ = record { hello = none; observation = some (obs_of Class.ok) }

-- The world is the clock.
abbrev env : Environment
env = record {
  World = ℕ;
  Binary = Unit;
  Process = Unit;
  from_value = from_value;
  start = λ binary w. (ok binary, w);
  exchange = λ process cmd w. (ok (reply cmd), w);
  sleep = λ ms w. ms + w;
  nanos = λ w. (w, suc w);
}

abbrev bins : Binaries env
bins = record { rust = tt; go = tt }

abbrev oracle : Run
oracle = record { name = text "oracle"; bind = (text "r", text "go") ∷ [] }

execute-validate_example :
    Outcome (Ends env scenario oracle) IsOutside (execute env scenario oracle bins Json.null 7).0
execute-validate_example =
    execute-validate env scenario oracle bins Json.null scenario-validate (inl refl) 7

-- Two traces or one: the run is moved once, and then ends.
abbrev moving : Call ℕ Bytes (Result Inadmissible ℕ)
moving zero = (ok (err (record { run = []; why = Why.observations []; transient = true })), 1)
moving (suc n) = (ok (ok 5), 2)

retry-Attempted_example :
    (n : ℕ) × (r : Result Inadmissible ℕ) × Attempted moving n 0 r 2
    × (n ≤ 2)
    × (answer moving r ≡ some 5)
    × GaveUp moving 2 n r
unfolding retry after_attempt
retry-Attempted_example = retry-Attempted moving 2 0 2 (some 5) refl

abbrev disk : Disk ℕ
disk = record {
  FilePath = Unit;
  read_scenario = λ path w. (ok scenario, w);
  create_traces_dir = λ w. (ok tt, w);
  write_trace = λ path trace w. (ok tt, w);
  write_report = λ path report w. (ok tt, w);
  to_json = λ p. [];
}

run_scenario-IsReported_example :
    Outcome (λ answer. Unit {0}) IsReported (run_scenario env disk tt bins Json.null 7).0
run_scenario-IsReported_example = run_scenario-IsReported env disk tt bins Json.null 7

abbrev no_locks : Assert
no_locks = record { lock_count = some 0; class = none }

precondition_failure-Meets_example :
    (precondition_failure no_locks (obs_of Class.ok) ≡ none)
    ↔ ((is_admissible Class.ok ≡ false) ⊎ Meets no_locks (obs_of Class.ok))
precondition_failure-Meets_example = precondition_failure-Meets no_locks (obs_of Class.ok)

scenario_runs : (run_scenario env disk tt bins Json.null 7).0 ≡ ok true
unfolding run_scenario validate validate_bound find_run validate_step validate_run active_roles
    validate_sleep validate_command is_plain_name op_of ms_of text bytes_eq member as_str
    Project.validate args Command.validate as_u64 as_object size is_blank execute is_utf8
    inadmissible inadmissible_reason is_admissible project unique_prefix decimal bytes_lt
scenario_runs = refl

run_scenario-Told_example :
    (s : Scenario) × (traces : Map Trace) × (w' : ℕ) × (validate env.from_value s ≡ ok tt)
    × Ran env disk Json.null tt bins 7 s traces w'
    × ((a : Bytes) × (b : Bytes) × (more : List Bytes) × (s.compare ≡ a ∷ b ∷ more)
        × ((ta : Trace) × (tb : Trace) × (get a traces ≡ some ta)
            × (get b traces ≡ some tb)
            × IsMade env disk s Json.null bins a ta
            × IsMade env disk s Json.null bins b tb
            × Reported env disk Json.null s a b ta tb w'
                (run_scenario env disk tt bins Json.null 7).1))
run_scenario-Told_example = run_scenario-Told env disk Json.null tt bins 7 scenario_runs

-- A call that names one file and checks nothing else
abbrev shell : Shell env disk
shell = record {
  args = text "scenarios/n.json" ∷ [];
  entries = λ w. (none, w);
  read_to_string = λ path w. (ok (text "null"), w);
  from_str = λ raw. ok Json.null;
  var_rust = none;
  var_go = none;
  path_of = λ path. tt;
  binary_at = λ path. tt;
}

main-Succeeds_example :
    (((main env disk shell 7).0 ≡ 0) ↔ (
      ((scenarios env disk shell 7).0 ≢ [])
      × Succeeds env disk shell (scenarios env disk shell 7).0 (scenarios env disk shell 7).1))
    × ((main env disk shell 7).1
        ≡ after_all env disk shell (scenarios env disk shell 7).0 (scenarios env disk shell 7).1)
main-Succeeds_example = main-Succeeds env disk shell 7
