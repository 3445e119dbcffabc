-- ===== src/Runner/Main/Complete.antt =====
-- How a scenario can end.
use client_rust_test.Base.{
  ◌≡◌, refl, sym, ◌∙◌, Option, none, some, List, [], ◌∷◌, Bytes, All, All-In, In,
}
use client_rust_test.Base.Map.{Map, get}
use client_rust_test.Base.Result.{Result, ok, err, lift, Outcome, Ensures, bind-Ensures}
use client_rust_test.Base.Check.{ok_or, map_err}
use client_rust_test.Proto.Json.{Json}
use client_rust_test.Proto.Trace.{Trace}
use client_rust_test.Proto.Project.{Spec, project}
use client_rust_test.Proto.Command.{Command}
use client_rust_test.Proto.Project.Paths.{project-validate}
use client_rust_test.Runner.Scenario.{Scenario, Run, Invalid, validate}
use client_rust_test.Runner.Scenario.Sound.{RunSound}
use client_rust_test.Runner.Scenario.Accepted.{validate-IsSound, IsSound, KnownPaths}
use client_rust_test.Runner.Files.{divergence_file}
use client_rust_test.Runner.Process.{Environment, relabel}
use client_rust_test.Runner.Execute.{Binaries}
use client_rust_test.Runner.Execute.Spawned.{Has}
use client_rust_test.Runner.Main.{
  Disk, ScenarioError, report_of, load, run_all, compare, compare_named, run_scenario,
}
use client_rust_test.Runner.Main.Traced.{IsReported, ensure_file, Adds, ensure-All}

module _ (env : Environment) (disk : Disk env.World) (s : Scenario) (provenance : Json) where
  ensure_found :
      {A : Type 0} (o : Option A) (e : ScenarioError)
      → ((a : A) × (o ≡ some a))
      → Ensures {W = env.World} (λ a. Unit {0}) IsReported (lift (ok_or o e))
  ensure_found none e (a, h) w = absurd (cc)
  ensure_found (some x) e h w = tt

  ensure_compare :
      (a b : Bytes) (traces : Map Trace)
      → KnownPaths s
      → Has traces a
      → Has traces b
      → Ensures (λ o. Unit {0}) IsReported (compare env disk s provenance a b traces)
  unfolding compare
  ensure_compare a b traces known has_a has_b =
      let spec : Spec = record { also_compare = s.also_compare } in
      bind-Ensures (λ t. Unit {0}) (λ o. Unit {0}) IsReported
        (lift (ok_or (get a traces) (ScenarioError.no_trace a))) _
        (ensure_found (get a traces) _ has_a)
        (λ ta p.
          bind-Ensures (λ t. Unit {0}) (λ o. Unit {0}) IsReported
            (lift (ok_or (get b traces) (ScenarioError.no_trace b))) _
            (ensure_found (get b traces) _ has_b)
            (λ tb q.
              bind-Ensures (λ t. Unit {0}) (λ o. Unit {0}) IsReported
                (lift (ok_or (project disk.to_json ta spec) ScenarioError.unknown_path)) _
                (ensure_found _ _ (project-validate disk.to_json ta spec known))
                (λ oracle r.
                  bind-Ensures (λ t. Unit {0}) (λ o. Unit {0}) IsReported
                    (lift (ok_or (project disk.to_json tb spec) ScenarioError.unknown_path)) _
                    (ensure_found _ _ (project-validate disk.to_json tb spec known))
                    (λ subject t.
                      bind-Ensures (λ u. Unit {0}) (λ o. Unit {0}) IsReported
                        (relabel ScenarioError.file (
                          disk.write_report (divergence_file s.name)
                            (report_of s provenance a b oracle subject)))
                        _
                        (ensure_file (
                          disk.write_report (divergence_file s.name)
                            (report_of s provenance a b oracle subject)))
                        (λ u v w. tt)))))

  compared :
      validate env.from_value s ≡ ok tt
      → (a : Run) × (b : Run) × In a s.runs
        × In b s.runs
        × (s.compare ≡ a.name ∷ b.name ∷ [])
        × KnownPaths s
  compared accepted =
      let (
        plain,
        run_names,
        apart,
        ids,
        steps,
        runs,
        paths,
        (a, b, m_a, m_b, pair, ways, contrast),
      ) =
        validate-IsSound env.from_value s accepted in
      (a, b, m_a, m_b, pair, paths)

  ensure_named :
      (names : List Bytes) (o : Option (Map Trace))
      → validate env.from_value s ≡ ok tt
      → s.compare ≡ names
      → Adds env disk s provenance [] s.runs o
      → Ensures (λ b. Unit {0}) IsReported (compare_named env disk s provenance names o)
  unfolding compare_named
  ensure_named names none accepted same added = λ w. tt
  ensure_named [] (some traces) accepted same added =
      let (a, b, m_a, m_b, pair, known) = compared accepted in absurd (cc)
  ensure_named (x ∷ []) (some traces) accepted same added =
      let (a, b, m_a, m_b, pair, known) = compared accepted in absurd (cc)
  ensure_named (x ∷ y ∷ more) (some traces) accepted same added =
      let (a, b, m_a, m_b, pair, known) = compared accepted in
      let both : x ∷ y ∷ more ≡ a.name ∷ b.name ∷ [] = sym same ∙ pair in
      let first : x ≡ a.name = cc in
      let second : y ≡ b.name = cc in
      ensure_compare x y traces known (rw first (All-In _ a s.runs added.1 m_a))
        (rw second (All-In _ b s.runs added.1 m_b))

module _ (env : Environment) (disk : Disk env.World) where
  pub ensure_load :
      (path : disk.FilePath)
      → Ensures (λ s. validate env.from_value s ≡ ok tt) IsReported (load env disk path)
  unfolding load
  ensure_load path =
      bind-Ensures (λ s. Unit {0}) (λ s. validate env.from_value s ≡ ok tt) IsReported
        (relabel ScenarioError.file (disk.read_scenario path)) _
        (ensure_file (disk.read_scenario path))
        (λ s p.
          bind-Ensures (λ u. validate env.from_value s ≡ ok tt)
            (λ s. validate env.from_value s ≡ ok tt) IsReported
            (lift (map_err ScenarioError.invalid (validate env.from_value s))) _
            (λ w. judged (validate env.from_value s) refl) (λ u q w. q))
    where
      judged :
          {X : Result Invalid Unit} (r : Result Invalid Unit)
          → X ≡ r
          → Outcome (λ u. X ≡ ok tt) IsReported (map_err ScenarioError.invalid r)
      judged (ok u) e = e
      judged (err i) e = tt

  -- Whatever scenario file it is given, the runner ends with an answer or with an error of that file
  -- or another file, of the scenario's checks, or of a driver process: it never lacks a trace that
  -- it is to compare, never indexes what is not there, and never projects to an unknown path.
  pub run_scenario-IsReported :
      (path : disk.FilePath) (bins : Binaries env) (provenance : Json)
      → Ensures (λ answer. Unit {0}) IsReported (run_scenario env disk path bins provenance)
  unfolding run_scenario
  run_scenario-IsReported path bins provenance =
      bind-Ensures (λ s. validate env.from_value s ≡ ok tt) (λ o. Unit {0}) IsReported
        (load env disk path) _ (ensure_load path)
        (λ s accepted.
          bind-Ensures (λ u. Unit {0}) (λ o. Unit {0}) IsReported
            (relabel ScenarioError.file disk.create_traces_dir) _
            (ensure_file disk.create_traces_dir)
            (λ u p.
              bind-Ensures (Adds env disk s provenance [] s.runs) (λ o. Unit {0}) IsReported
                (run_all env disk s bins provenance s.runs []) _
                (ensure-All env disk s provenance bins s.runs [] accepted (λ r m. m)
                  (sound_runs env.from_value s (validate-IsSound env.from_value s accepted)))
                (λ traces added.
                  ensure_named env disk s provenance s.compare traces accepted refl added)))
    where
      sound_runs :
          (f : Json → Result Bytes Command) (s : Scenario)
          → IsSound f s
          → All (RunSound s.roles) s.runs
      sound_runs f s (plain, run_names, apart, ids, steps, runs, paths, contrast) = runs
