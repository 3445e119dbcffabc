-- ===== src/Runner/Cli.antt =====
-- The command line of the runner, `main` of crates/parity-runner/src/main.rs, up to its exit code,
-- with `load_provenance` of crates/parity-runner/src/run.rs. The arguments, the environment, the
-- files and the directory of scenarios are parameters; a path is its bytes.
pub mod Exit
use client_rust_test.Base.{
  ℕ, ◌-◌, Option, none, some, List, [], ◌∷◌, ◌++◌, map, keep, Bool, true, false, ◌&&◌, ltb,
  if◌then◌else◌, Bytes, bytes_eq, text, length, drop,
}
use client_rust_test.Base.Map.{sort}
use client_rust_test.Base.Result.{Result, ok, err, Call, ◌>>=◌, lift}
use client_rust_test.Base.Check.{map_err}
use client_rust_test.Proto.Json.{Json}
use client_rust_test.Runner.Scenario.{Scenario}
use client_rust_test.Runner.Process.{Environment, relabel}
use client_rust_test.Runner.Execute.{Binaries}
use client_rust_test.Runner.Main.{Disk, ScenarioError, load, run_scenario}

abbrev is_check : List Bytes → Bool
is_check [] = false
is_check (a ∷ args) = bytes_eq a (text "--check")

-- `extension()` of a file's name is `json`.
unfoldable pub is_json : Bytes → Bool
is_json name = ltb 5 (length name) && bytes_eq (drop (length name - 5) name) (text ".json")

-- `filter_map(Result::ok)`
abbrev pub readable : List (Option Bytes) → List Bytes
readable [] = []
readable (none ∷ entries) = readable entries
readable (some name ∷ entries) = name ∷ readable entries

-- The files of `read_dir("scenarios")`, where `none` is an error of it, or of an entry.
unfoldable pub scenario_files : Option (List (Option Bytes)) → List Bytes
unfolding is_json
scenario_files none = []
scenario_files (some entries) =
    sort (map (λ name. text "scenarios/" ++ name) (keep is_json (readable entries)))

abbrev pub or_else : Option Bytes → Bytes → Bytes
or_else none other = other
or_else (some value) other = value

abbrev pub exit_code : Bool → ℕ
exit_code bad = if bad then 1 else 0

-- Why there is no provenance: the file was not read, or it is no JSON.
pub data Unproven : Type 0 where
  unreadable not_json : Bytes → Unproven

module _ (env : Environment) (disk : Disk env.World) where
  pub record Shell : Type 0 where
    pub args : List Bytes
    pub entries : env.World → Option (List (Option Bytes)) × env.World
    pub read_to_string : Bytes → Call env.World Bytes Bytes
    pub from_str : Bytes → Result Bytes Json
    pub var_rust : Option Bytes
    pub var_go : Option Bytes
    pub path_of : Bytes → disk.FilePath
    pub binary_at : Bytes → env.Binary

  module _ (shell : Shell) where
    abbrev pub check_only : Bool
    check_only = is_check shell.args

    -- The scenarios named, or else those of the directory
    unfoldable pub chosen : List Bytes → env.World → List Bytes × env.World
    unfolding scenario_files
    chosen [] w = let (entries, w') = shell.entries w in (scenario_files entries, w')
    chosen (a ∷ args) w = (a ∷ args, w)

    unfoldable pub scenarios : env.World → List Bytes × env.World
    unfolding chosen
    scenarios w = chosen (if check_only then drop 1 shell.args else shell.args) w

    abbrev pub binaries : Binaries env
    binaries = record {
      rust = shell.binary_at (or_else shell.var_rust (text "target/debug/parity-driver-rust"));
      go = shell.binary_at (or_else shell.var_go (text "target/parity-driver-go"));
    }

    abbrev pub is_bad : {A : Type 0} → Result ScenarioError A → Bool
    is_bad (ok s) = false
    is_bad (err e) = true

    -- The loop of `--check`; `bad` says that a scenario before was.
    unfoldable pub check_all : List Bytes → Bool → env.World → Bool × env.World
    check_all [] bad w = (bad, w)
    check_all (path ∷ paths) bad w =
        let (r, w') = load env disk (shell.path_of path) w in
        check_all paths (if is_bad r then true else bad) w'

    abbrev pub is_failure : Result ScenarioError Bool → Bool
    is_failure (ok true) = false
    is_failure (ok false) = true
    is_failure (err e) = true

    -- The loop over the scenarios; `failed` says that one before was not answered with a result.
    unfoldable pub run_each : Json → List Bytes → Bool → env.World → Bool × env.World
    run_each provenance [] failed w = (failed, w)
    run_each provenance (path ∷ paths) failed w =
        let (r, w') = run_scenario env disk (shell.path_of path) binaries provenance w in
        run_each provenance paths (if is_failure r then true else failed) w'

    -- `load_provenance` of crates/parity-runner/src/run.rs
    unfoldable pub load_provenance : Call env.World Unproven Json
    load_provenance = do
      raw ← relabel unreadable (shell.read_to_string (text "results/provenance.json"))
      lift (map_err not_json (shell.from_str raw))

    abbrev pub with_provenance : List Bytes → Result Unproven Json × env.World → ℕ × env.World
    with_provenance paths (err e, w) = (1, w)
    with_provenance paths (ok provenance, w) =
        let (failed, w') = run_each provenance paths false w in (exit_code failed, w')

    -- What `main` does with the scenarios
    unfoldable pub run_chosen : List Bytes → env.World → ℕ × env.World
    unfolding check_all load_provenance run_each
    run_chosen [] w = (1, w)
    run_chosen (path ∷ paths) w =
        if check_only
        then (let (bad, w') = check_all (path ∷ paths) false w in (exit_code bad, w'))
        else with_provenance (path ∷ paths) (load_provenance w)

    unfoldable pub main : env.World → ℕ × env.World
    unfolding scenarios run_chosen
    main w = let (paths, w') = scenarios w in run_chosen paths w'
