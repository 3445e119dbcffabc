-- ===== src/Runner/Main/Told.antt =====
-- What the report of `run_scenario`, crates/parity-runner/src/main.rs, tells of the two runs.
use mathlib.Core.Path.{subst}
use client_rust_test.Base.{◌≡◌, ◌≢◌, sym, ◌∙◌, ◌↔◌, some, List, ◌∷◌, true, Bytes, In}
use client_rust_test.Base.Result.{ok}
use client_rust_test.Base.Check.{Distinct}
use client_rust_test.Base.Accept.{Distinct-keep}
use client_rust_test.Proto.Json.{Json}
use client_rust_test.Proto.Trace.{Trace}
use client_rust_test.Proto.Project.{project}
use client_rust_test.Proto.Project.Shown.{RunShows}
use client_rust_test.Proto.Project.Reported.{project-RunShows}
use client_rust_test.Proto.Diff.{Canonical, Divergence}
use client_rust_test.Proto.Diff.Exact.{value_at}
use client_rust_test.Runner.Scenario.{Scenario, Step, validate}
use client_rust_test.Runner.Scenario.Accepted.{validate-IsSound}
use client_rust_test.Runner.Files.{divergence_file}
use client_rust_test.Runner.Process.{Environment}
use client_rust_test.Runner.Execute.{Binaries}
use client_rust_test.Runner.Main.{Disk, Report, run_scenario}
use client_rust_test.Runner.Main.Evidence.{IsEvidence, IsMade}
use client_rust_test.Runner.Main.Compared.{Ran, run_scenario-Written}
use client_rust_test.Base.Map.{Map, get}

-- The report lists a difference of what two runs show at a step and a path if and only if there is
-- one.
abbrev pub Told : Trace → Trace → Report → Type 0
Told ta tb report =
    (id path x y : Bytes)
    → RunShows ta id path x
    → RunShows tb id path y
    → In (record { step = id; path = path; oracle = x; subject = y }) report.divergences ↔ (x ≢ y)

module _ (env : Environment) (disk : Disk env.World) (provenance : Json) where
  -- What the projection of a run's evidence shows.
  evidence-RunShows :
      (s : Scenario) (name : Bytes) (t : Trace) (m : Canonical)
      → validate env.from_value s ≡ ok tt
      → IsEvidence s name t
      → project disk.to_json t (record { also_compare = s.also_compare }) ≡ some m
      → (id path x : Bytes) → RunShows t id path x
      → value_at m id path ≡ x
  evidence-RunShows s name t m accepted (admissible, scenario, run, roles, same) projected id path x
        shows =
      let (plain, run_names, names, distinct, steps, runs, paths, rest) =
        validate-IsSound env.from_value s accepted in
      let own =
        subst Distinct (sym same) (Distinct-keep (λ (step : Step). step.id) _ s.steps distinct) in
      let (n, e, shown) =
        project-RunShows disk.to_json t (record { also_compare = s.also_compare }) paths own in
      subst (λ c. value_at c id path ≡ x) (unique n m (sym e ∙ projected)) (shown id path x shows)
    where
      unique : (a b : Canonical) → some a ≡ some b → a ≡ b
      unique a b q = cc

  -- The report of two traces, under the names of the scenario and the runs.
  abbrev pub Labelled : Scenario → Bytes → Bytes → Report → Type 0
  Labelled s a b report =
      (report.scenario ≡ s.name)
      × (report.gap ≡ s.gap)
      × (report.provenance ≡ provenance)
      × (report.oracle ≡ a)
      × (report.subject ≡ b)

  -- The report of two traces is the last that is written, from world `w` to world `w'`, and tells
  -- how they differ.
  abbrev pub Reported : Scenario → Bytes → Bytes → Trace → Trace → env.World → env.World → Type 0
  Reported s a b ta tb w w' =
      (report : Report) × Labelled s a b report
      × (disk.write_report (divergence_file s.name) report w ≡ (ok tt, w'))
      × Told ta tb report

  -- The runner answers that a scenario produced a result only if this happened. The scenario was
  -- loaded from the file and accepted by `validate`. Its runs, from there on, ended with a map of
  -- traces. `compare` names two runs, and the two traces of the map under these names are compared,
  -- each of which `execute` answers with, in some world, for the run of its name: it is admissible, of this
  -- scenario and this run, with a driver for each role and with all steps that execute a command, in
  -- order. The last thing done was to write a report under the scenario's name, with the provenance
  -- given and the two runs named. Wherever the two traces show a text at a step and a path, the
  -- report has a divergence there with these texts if and only if they are not the same.
  pub run_scenario-Told :
      (path : disk.FilePath) (bins : Binaries env) (w : env.World)
      → (run_scenario env disk path bins provenance w).0 ≡ ok true
      → (s : Scenario) × (traces : Map Trace) × (w' : env.World) × (validate env.from_value s
          ≡ ok tt)
        × Ran env disk provenance path bins w s traces w'
        × ((a : Bytes) × (b : Bytes) × (more : List Bytes) × (s.compare ≡ a ∷ b ∷ more)
            × ((ta : Trace) × (tb : Trace) × (get a traces ≡ some ta)
                × (get b traces ≡ some tb)
                × IsMade env disk s provenance bins a ta
                × IsMade env disk s provenance bins b tb
                × Reported s a b ta tb w' (run_scenario env disk path bins provenance w).1))
  run_scenario-Told path bins w h =
      let (s, traces, w', accepted, ran, compares) =
        run_scenario-Written env disk provenance path bins w h in
      let (a, b, more, pair, (ta, tb, fa, fb, ma, mb, written)) = compares in
      let (oracle, subject, report, po, ps, (n, g, p, o, u, exact), last) = written in
      let told : Told ta tb report = λ id path x y shows_a shows_b.
        let d : Divergence = record { step = id; path = path; oracle = x; subject = y } in
        (
          λ i. ((exact d).0 i).2,
          λ ne. (exact d).1 (
            sym (evidence-RunShows s a ta oracle accepted ma.0 po id path x shows_a),
            sym (evidence-RunShows s b tb subject accepted mb.0 ps id path y shows_b),
            ne,
          ),
        ) in
      (
        s,
        traces,
        w',
        accepted,
        ran,
        (a, b, more, pair, (ta, tb, fa, fb, ma, mb, (report, (n, g, p, o, u), last, told))),
      )
