-- ===== src/Runner/Main/Compared.antt =====
-- What a comparison of `run_scenario`, crates/parity-runner/src/main.rs, has compared and written.
use mathlib.Core.Path.{subst}
use client_rust_test.Base.{
  In, ◌↔◌, ◌≡◌, refl, sym, ap, ◌∙◌, Option, none, some, List, [], ◌∷◌, Bool, true, Bytes,
}
use client_rust_test.Base.Map.{Map, get}
use client_rust_test.Base.Result.{
  Result, ok, err, Call, ◌>>=◌, ◌>>◌, pure, lift, bind_ok, Outcome_ok,
}
use client_rust_test.Base.Check.{ok_or, map_err}
use client_rust_test.Proto.Json.{Json}
use client_rust_test.Proto.Trace.{Trace}
use client_rust_test.Proto.Project.{project}
use client_rust_test.Proto.Diff.{Canonical, Divergence}
use client_rust_test.Proto.Diff.Exact.{Differs, diff-Differs}
use client_rust_test.Runner.Scenario.{Scenario, validate}
use client_rust_test.Runner.Files.{divergence_file}
use client_rust_test.Runner.Process.{Environment, relabel}
use client_rust_test.Runner.Execute.{Binaries}
use client_rust_test.Runner.Main.{
  Disk, Report, ScenarioError, report_of, load, run_all, compare, compare_named, run_scenario,
}
use client_rust_test.Runner.Main.Traced.{IsReported}
use client_rust_test.Runner.Main.Complete.{ensure_load}
use client_rust_test.Runner.Main.Evidence.{IsMade, Holds, Any, Evidenced, run_all-Evidenced}

module _ (env : Environment) (disk : Disk env.World) (provenance : Json) where
  -- A report of exactly the differences of two traces, under the names of the scenario and the runs.
  abbrev pub Reports : Scenario → Bytes → Bytes → Canonical → Canonical → Report → Type 0
  Reports s a b oracle subject report =
      (report.scenario ≡ s.name)
      × (report.gap ≡ s.gap)
      × (report.provenance ≡ provenance)
      × (report.oracle ≡ a)
      × (report.subject ≡ b)
      × ((d : Divergence) → In d report.divergences ↔ Differs oracle subject d)

  -- The report of two traces is the last that is written, from world `w` to world `w'`.
  abbrev pub Written : Scenario → Bytes → Bytes → Trace → Trace → env.World → env.World → Type 0
  Written s a b ta tb w w' =
      (oracle : Canonical) × (subject : Canonical) × (report : Report) × (project disk.to_json ta
          (record { also_compare = s.also_compare })
        ≡ some oracle)
      × (project disk.to_json tb (record { also_compare = s.also_compare }) ≡ some subject)
      × Reports s a b oracle subject report
      × (disk.write_report (divergence_file s.name) report w ≡ (ok tt, w'))

  -- What a search finds, and the call after it.
  found_ok :
      {A : Type 0} (o : Option A) (e : ScenarioError) (f : A → Call env.World ScenarioError Bool)
      (w : env.World)
      → ((lift (ok_or o e) >>= f) w).0 ≡ ok true
      → (x : A) × (o ≡ some x) × ((lift (ok_or o e) >>= f) w ≡ f x w)
  found_ok none e f w h = absurd (cc)
  found_ok (some x) e f w h = (x, refl, refl)

  -- The parts of `compare`, from the last on
  module _ (s : Scenario) (a b : Bytes) where
    abbrev write_part : Canonical → Canonical → Call env.World ScenarioError Bool
    write_part oracle subject =
        relabel ScenarioError.file
          (disk.write_report (divergence_file s.name) (report_of s provenance a b oracle subject))
        >> pure true

    abbrev subject_part : Trace → Canonical → Call env.World ScenarioError Bool
    subject_part tb oracle =
        lift (
          ok_or (project disk.to_json tb (record { also_compare = s.also_compare }))
            ScenarioError.unknown_path)
        >>= λ subject. write_part oracle subject

    abbrev oracle_part : Trace → Trace → Call env.World ScenarioError Bool
    oracle_part ta tb =
        lift (
          ok_or (project disk.to_json ta (record { also_compare = s.also_compare }))
            ScenarioError.unknown_path)
        >>= subject_part tb

    abbrev second_part : Map Trace → Trace → Call env.World ScenarioError Bool
    second_part traces ta =
        lift (ok_or (get b traces) (ScenarioError.no_trace b)) >>= oracle_part ta

    write_part_ok :
        (oracle subject : Canonical) (w : env.World)
        → (write_part oracle subject w).0 ≡ ok true
        → disk.write_report (divergence_file s.name) (report_of s provenance a b oracle subject) w
          ≡ (ok tt, (write_part oracle subject w).1)
    write_part_ok oracle subject w h =
        go
          (disk.write_report (divergence_file s.name) (report_of s provenance a b oracle subject) w)
          h
      where
        go :
            (r : Result Bytes Unit × env.World)
            → (((λ (v : env.World). (map_err ScenarioError.file r.0, r.1)) >> pure true) w).0
              ≡ ok true
            → r ≡ (
              ok tt,
              (((λ (v : env.World). (map_err ScenarioError.file r.0, r.1)) >> pure true) w).1,
            )
        go (ok u, w') q = refl
        go (err x, w') q = absurd (cc)

  compare-Written :
      (s : Scenario) (a b : Bytes) (traces : Map Trace) (w : env.World)
      → (compare env disk s provenance a b traces w).0 ≡ ok true
      → (ta : Trace) × (tb : Trace) × (get a traces ≡ some ta)
        × (get b traces ≡ some tb)
        × Written s a b ta tb w (compare env disk s provenance a b traces w).1
  unfolding compare report_of
  compare-Written s a b traces w h =
      let (ta, e1, p1) =
        found_ok (get a traces) (ScenarioError.no_trace a) (second_part s a b traces) w h in
      let h1 = sym (ap (λ (r : Result ScenarioError Bool × env.World). r.0) p1) ∙ h in
      let (tb, e2, p2) =
        found_ok (get b traces) (ScenarioError.no_trace b) (oracle_part s a b ta) w h1 in
      let h2 = sym (ap (λ (r : Result ScenarioError Bool × env.World). r.0) p2) ∙ h1 in
      let (oracle, e3, p3) =
        found_ok (project disk.to_json ta (record { also_compare = s.also_compare }))
          ScenarioError.unknown_path (subject_part s a b tb) w h2 in
      let h3 = sym (ap (λ (r : Result ScenarioError Bool × env.World). r.0) p3) ∙ h2 in
      let (subject, e4, p4) =
        found_ok (project disk.to_json tb (record { also_compare = s.also_compare }))
          ScenarioError.unknown_path (write_part s a b oracle) w h3 in
      let h4 = sym (ap (λ (r : Result ScenarioError Bool × env.World). r.0) p4) ∙ h3 in
      let ends = ap (λ (r : Result ScenarioError Bool × env.World). r.1) (p1 ∙ p2 ∙ p3 ∙ p4) in
      (
        ta,
        tb,
        e1,
        e2,
        (
          oracle,
          subject,
          report_of s provenance a b oracle subject,
          e3,
          e4,
          (refl, refl, refl, refl, refl, diff-Differs oracle subject),
          write_part_ok s a b oracle subject w h4 ∙ ap (λ (v : env.World). (ok tt, v)) (sym ends),
        ),
      )

  -- The runs of the scenario that the file holds, from the call in world `w` to world `w'`, with the
  -- traces that they end with.
  abbrev pub Ran :
      disk.FilePath → Binaries env → env.World → Scenario → Map Trace → env.World → Type 0
  Ran path bins w s traces w' =
      ((load env disk path w).0 ≡ ok s)
      × (run_all env disk s bins provenance s.runs []
            (disk.create_traces_dir (load env disk path w).1).1
          ≡ (ok (some traces), w'))

  -- Both runs that are compared are among the traces, as evidence, and their report is written.
  abbrev pub Compares : Binaries env → Scenario → Map Trace → env.World → env.World → Type 0
  Compares bins s traces w w' =
      (a : Bytes) × (b : Bytes) × (more : List Bytes) × (s.compare ≡ a ∷ b ∷ more)
      × ((ta : Trace) × (tb : Trace) × (get a traces ≡ some ta)
          × (get b traces ≡ some tb)
          × IsMade env disk s provenance bins a ta
          × IsMade env disk s provenance bins b tb
          × Written s a b ta tb w w')

  named-Compares :
      (bins : Binaries env) (s : Scenario) (o : Option (Map Trace)) (w : env.World)
      → Holds (Evidenced env disk s provenance bins) o
      → (compare_named env disk s provenance s.compare o w).0 ≡ ok true
      → (traces : Map Trace) × (o ≡ some traces)
        × Compares bins s traces w (compare_named env disk s provenance s.compare o w).1
  unfolding compare_named
  named-Compares bins s none w kept h = absurd (cc)
  named-Compares bins s (some traces) w kept h = go s.compare refl h
    where
      go :
          (names : List Bytes)
          → s.compare ≡ names
          → (compare_named env disk s provenance names (some traces) w).0 ≡ ok true
          → (found : Map Trace) × (some traces ≡ some found)
            × ((a : Bytes) × (b : Bytes) × (more : List Bytes) × (s.compare ≡ a ∷ b ∷ more)
                × ((ta : Trace) × (tb : Trace) × (get a found ≡ some ta)
                    × (get b found ≡ some tb)
                    × IsMade env disk s provenance bins a ta
                    × IsMade env disk s provenance bins b tb
                    × Written s a b ta tb w
                        (compare_named env disk s provenance names (some traces) w).1))
      go [] e q = absurd (cc)
      go (a ∷ []) e q = absurd (cc)
      go (a ∷ b ∷ more) e q =
          let (ta, tb, fa, fb, written) = compare-Written s a b traces w q in
          (traces, refl, (a, b, more, e, (ta, tb, fa, fb, kept a ta fa, kept b tb fb, written)))

  -- After `load`
  abbrev loaded : Binaries env → Scenario → Call env.World ScenarioError Bool
  loaded bins s =
      relabel ScenarioError.file disk.create_traces_dir
      >> (run_all env disk s bins provenance s.runs []
          >>= compare_named env disk s provenance s.compare)

  -- The runner answers that a scenario produced a result only if this happened: the scenario was
  -- loaded from the file and accepted by `validate`; its runs ended with traces; `compare` names two
  -- of them, each of which is evidence that `execute` answered with for the run of that name; and
  -- the last thing done was to write the report of exactly the differences of their projections,
  -- under the scenario's name, with the provenance given and the two runs named.
  pub run_scenario-Written :
      (path : disk.FilePath) (bins : Binaries env) (w : env.World)
      → (run_scenario env disk path bins provenance w).0 ≡ ok true
      → (s : Scenario) × (traces : Map Trace) × (w' : env.World) × (validate env.from_value s
          ≡ ok tt)
        × Ran path bins w s traces w'
        × Compares bins s traces w' (run_scenario env disk path bins provenance w).1
  unfolding run_scenario
  run_scenario-Written path bins w h =
      let (s, e1, p1) = bind_ok (load env disk path) (loaded bins) w true h in
      let accepted =
        Outcome_ok (λ s. validate env.from_value s ≡ ok tt) IsReported (load env disk path w).0 s
          (ensure_load env disk path w) e1 in
      let w1 = (load env disk path w).1 in
      let h1 = sym (ap (λ (r : Result ScenarioError Bool × env.World). r.0) p1) ∙ h in
      let (u, e2, p2) =
        bind_ok (relabel ScenarioError.file disk.create_traces_dir)
          (λ u.
            run_all env disk s bins provenance s.runs []
            >>= compare_named env disk s provenance s.compare)
          w1 true h1 in
      let w2 = (relabel ScenarioError.file disk.create_traces_dir w1).1 in
      let h2 = sym (ap (λ (r : Result ScenarioError Bool × env.World). r.0) p2) ∙ h1 in
      let (o, e3, p3) =
        bind_ok (run_all env disk s bins provenance s.runs [])
          (compare_named env disk s provenance s.compare) w2 true h2 in
      let w3 = (run_all env disk s bins provenance s.runs [] w2).1 in
      let h3 = sym (ap (λ (r : Result ScenarioError Bool × env.World). r.0) p3) ∙ h2 in
      let kept =
        Outcome_ok (Holds (Evidenced env disk s provenance bins)) Any
          (run_all env disk s bins provenance s.runs [] w2).0 o
          (run_all-Evidenced env disk s provenance bins s.runs [] accepted (λ r m. m)
            (λ k t q. absurd (cc)) w2)
          e3 in
      let (traces, all, compares) = named-Compares bins s o w3 kept h3 in
      let ends = ap (λ (r : Result ScenarioError Bool × env.World). r.1) (p1 ∙ p2 ∙ p3) in
      (
        s,
        traces,
        w3,
        accepted,
        (e1, ap (λ (r : Result ScenarioError (Option (Map Trace))). (r, w3)) (e3 ∙ ap ok all)),
        subst (Compares bins s traces w3) (sym ends) compares,
      )
