-- ===== src/Runner/Execute/Outcome.antt =====
-- How a run of an accepted scenario can end.
use client_rust_test.Base.{
  ◌≡◌, ◌⊎◌, inl, inr, refl, sym, ap, List, [], ◌∷◌, map, true, false, if◌then◌else◌, Bool-cases,
  Bytes, is_utf8, All, All-In, In,
}
use client_rust_test.Base.Result.{Result, ok, err, lift, Outcome, Ensures, bind-Ensures}
use client_rust_test.Proto.Json.{Json}
use client_rust_test.Proto.Trace.{RoleBinding, Trace, inadmissible, is_transient}
use client_rust_test.Proto.Trace
use client_rust_test.Runner.Scenario.{Scenario, validate, Run}
use client_rust_test.Runner.Scenario.Sound.{StepSound, RunSound}
use client_rust_test.Runner.Scenario.Accepted.{validate-IsSound}
use client_rust_test.Runner.Scenario.Plain.{plain-IsAscii}
use client_rust_test.Harness.Fixtures.{unique_prefix}
use client_rust_test.Harness.Fixtures.Ascii.{is_utf8-unique_prefix}
use client_rust_test.Runner.Process.{Environment, RunnerError}
use client_rust_test.Runner.Execute.{
  Why, Inadmissible, Binaries, spawn_roles, bindings, run_steps, judge, finish, trace_of,
  under_prefix, execute,
}
use client_rust_test.Runner.Execute.Spawned.{IsOutside, Bound, Kept, spawn_all, bindings_ok}
use client_rust_test.Runner.Execute.Recorded.{awake, step_ids, ids, Recorded, steps-Recorded}

module _ (env : Environment) where
  -- An admissible trace of this run with the steps in order, or the reason that there is none.
  abbrev pub Ends : Scenario → Run → Result Inadmissible Trace → Type 0
  Ends s run =
      Outcome
        (λ (trace : Trace).
          (inadmissible trace ≡ [])
          × (trace.scenario ≡ s.name)
          × (trace.run ≡ run.name)
          × (map (λ (b : RoleBinding). b.role) trace.roles ≡ s.roles)
          × (ids trace.steps ≡ step_ids (awake s.steps)))
        (λ (bad : Inadmissible).
          (bad.run ≡ run.name)
          × ((bad.transient ≡ false)
              ⊎ ((trace : Trace) × (is_transient trace ≡ true)
                  × (bad.why ≡ Why.observations (inadmissible trace)))))

  judged :
      (s : Scenario) (run : Run) (trace : Trace)
      → trace.scenario ≡ s.name
      → trace.run ≡ run.name
      → map (λ (b : RoleBinding). b.role) trace.roles ≡ s.roles
      → ids trace.steps ≡ step_ids (awake s.steps)
      → (reasons : List Bytes) → inadmissible trace ≡ reasons
      → Ends s run (judge env run trace reasons)
  unfolding judge
  judged s run trace a b c d [] e = (e, a, b, c, d)
  judged s run trace a b c d (bad ∷ more) e = (
    refl,
    elim (Bool-cases (is_transient trace)) [
      | inl y ↦ inr (trace, y, ap Why.observations (sym e))
      | inr n ↦ inl n
    ],
  )

  finished :
      (s : Scenario) (run : Run) (provenance : Json) (prefix : Bytes) (roles : List RoleBinding)
      → map (λ (b : RoleBinding). b.role) roles ≡ s.roles
      → (steps : Result Inadmissible (List Trace.Step))
      → Recorded run (step_ids (awake s.steps)) steps
      → Ends s run (finish env (trace_of env s run provenance prefix roles) run steps)
  finished s run provenance prefix roles named (ok steps) done =
      judged s run (trace_of env s run provenance prefix roles steps) refl refl named done
        (inadmissible (trace_of env s run provenance prefix roles steps)) refl
  finished s run provenance prefix roles named (err bad) (same, fatal) = (same, inl fatal)

  ends :
      (s : Scenario) (run : Run) (bins : Binaries env) (provenance : Json) (prefix : Bytes)
      → All (StepSound env.from_value s.roles) s.steps
      → Bound env run s.roles
      → is_utf8 prefix ≡ true
      → Ensures (Ends s run) IsOutside (under_prefix env s run bins provenance prefix)
  unfolding under_prefix
  ends s run bins provenance prefix sound bound well_formed =
      bind-Ensures (λ x. Unit {0}) (Ends s run) IsOutside
        (lift (if is_utf8 prefix then ok tt else err RunnerError.prefix_not_utf8)) _
        (λ w. rw well_formed tt)
        (λ u p.
          bind-Ensures (Kept env [] s.roles) (Ends s run) IsOutside
            (spawn_roles env run bins s.roles []) _ (spawn_all env run bins s.roles [] bound)
            (λ drivers kept.
              let (roles, e, named) = bindings_ok env drivers s.roles kept.1 in
              bind-Ensures (λ x. x ≡ roles) (Ends s run) IsOutside
                (lift (bindings env drivers s.roles)) _ (λ w. rw e refl)
                (λ bound_roles same.
                  bind-Ensures (Recorded run (step_ids (awake s.steps))) (Ends s run) IsOutside
                    (run_steps env run drivers prefix s.steps []) _
                    (steps-Recorded env run drivers prefix s.roles s.steps [] kept.1 sound)
                    (λ steps done w.
                      finished s run provenance prefix bound_roles (rw same named) steps done))))

  -- However a run of a scenario that `validate` accepted ends: an error is one of the driver
  -- processes', which did not start, did not greet in the runner's protocol, lost a message, or
  -- answered a command without an observation. Without an error the run has a trace of the scenario
  -- and the run, admissible, with a driver for each role and with all steps that execute a command,
  -- in order; or it is inadmissible, and then transient only for a trace that has a region error.
  pub execute-validate :
      (s : Scenario) (run : Run) (bins : Binaries env) (provenance : Json)
      → validate env.from_value s ≡ ok tt
      → In run s.runs
      → Ensures (Ends s run) IsOutside (execute env s run bins provenance)
  unfolding execute
  execute-validate s run bins provenance accepted here w =
      let (plain_name, run_names, apart, different, steps, runs, paths, contrast) =
        validate-IsSound env.from_value s accepted in
      let bound = All-In (RunSound s.roles) run s.runs runs here in
      let nanos = (env.nanos w).0 in
      let prefix = unique_prefix s.name nanos in
      ends s run bins provenance prefix steps bound.0
        (is_utf8-unique_prefix s.name nanos (plain-IsAscii s.name plain_name)) (env.nanos w).1
