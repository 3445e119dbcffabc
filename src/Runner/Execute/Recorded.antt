-- ===== src/Runner/Execute/Recorded.antt =====
-- The steps that a run records.
use client_rust_test.Base.{
  ◌≡◌, inl, inr, refl, sym, ap, Option, none, some, List, [], ◌∷◌, ◌++◌, map, Bool, true, false,
  not, if◌then◌else◌, Bytes, text, All, All-In, keep, append-nil,
}
use mathlib.Core.Path.{subst}
use mathlib.Core.Bool.{true≢false}
use client_rust_test.Base.Map.{Map, get}
use client_rust_test.Base.Result.{
  Result, ok, Call, ◌>>=◌, ◌>>◌, lift, Outcome, Ensures, bind-Ensures,
}
use client_rust_test.Base.Check.{ok_or, map_err}
use client_rust_test.Proto.Observation.{Observation}
use client_rust_test.Proto.Trace.{RoleBinding, Trace, inadmissible, is_transient}
use client_rust_test.Proto.Trace
use client_rust_test.Runner.Substitute.{substitute}
use client_rust_test.Runner.Scenario.{Run, Step, Failure, is_op, ms_of}
use client_rust_test.Runner.Scenario.Sound.{IsCommand, StepSound}
use client_rust_test.Runner.Process.{Environment, RunnerError, Driver, send_to, send}
use client_rust_test.Runner.Execute.{
  Inadmissible, observe, run_steps, failed_assert, after_assert, recorded,
}
use client_rust_test.Runner.Execute.Spawned.{
  IsOutside, Has, ensure_some, ensure-IsOutside, ensure_process,
}

-- The steps that execute a command.
abbrev pub awake : List Step → List Step
awake = keep (λ (s : Step). not (is_op (text "sleep") s.cmd))

abbrev pub step_ids : List Step → List Bytes
step_ids = map (λ (s : Step). s.id)

abbrev pub ids : List Trace.Step → List Bytes
ids = map (λ (s : Trace.Step). s.id)

-- All steps recorded, in order; or a precondition that failed, which no retry mends.
abbrev pub Recorded : Run → List Bytes → Result Inadmissible (List Trace.Step) → Type 0
Recorded run expected =
    Outcome (λ steps. ids steps ≡ expected)
      (λ (bad : Inadmissible). (bad.run ≡ run.name) × (bad.transient ≡ false))

pub keep_no :
    (p : Step → Bool) (step : Step) (steps : List Step)
    → p step ≡ false
    → keep p (step ∷ steps) ≡ keep p steps
keep_no p step steps e = rw e refl

pub keep_yes :
    (p : Step → Bool) (step : Step) (steps : List Step)
    → p step ≡ true
    → keep p (step ∷ steps) ≡ step ∷ keep p steps
keep_yes p step steps e = rw e refl

pub one_more :
    (before : List Trace.Step) (s : Trace.Step) (step : Step) (steps : List Step)
    → is_op (text "sleep") step.cmd ≡ false
    → s.id ≡ step.id
    → ids (before ++ s ∷ []) ++ step_ids (awake steps)
      ≡ ids before ++ step_ids (awake (step ∷ steps))
one_more before s step steps e same =
    rw (keep_yes (λ (x : Step). not (is_op (text "sleep") x.cmd)) step steps (ap not e))
      (push before)
  where
    push :
        (before : List Trace.Step)
        → ids (before ++ s ∷ []) ++ step_ids (awake steps)
          ≡ ids before ++ step.id ∷ step_ids (awake steps)
    push [] = rw same refl
    push (b ∷ before) = rw (push before) refl

module _ (env : Environment) where
  pub observe-IsOutside :
      (drivers : Map (Driver env)) (prefix : Bytes) (roles : List Bytes) (step : Step)
      → All (Has drivers) roles
      → IsCommand env.from_value roles step
      → Ensures (λ x. Unit {0}) IsOutside (observe env drivers prefix step)
  unfolding observe send
  observe-IsOutside drivers prefix roles step has
        (awake, not_hello, (role, named, declared, (cmd, parsed, valid, paged))) =
      let (driver, found) = All-In (Has drivers) role roles has declared in
      bind-Ensures (λ x. x ≡ role) (λ x. Unit {0}) IsOutside
        (lift (ok_or step.role (RunnerError.no_role step.id))) _
        (ensure_some step.role _ role named)
        (λ r same.
          bind-Ensures (λ x. Unit {0}) (λ x. Unit {0}) IsOutside
            (lift (ok_or (get r drivers) (RunnerError.no_driver step.id r))) _
            (λ w. weak (get r drivers) _ driver (rw same found))
            (λ d p.
              bind-Ensures (λ x. Unit {0}) (λ x. Unit {0}) IsOutside
                (lift (map_err (RunnerError.bad_command step.id) (env.from_value step.cmd))) _
                (λ w. rw parsed tt)
                (λ c q.
                  bind-Ensures (λ x. Unit {0}) (λ x. Unit {0}) IsOutside
                    (send_to env d.name d.child (substitute c prefix)) _
                    (ensure_process d.name (env.exchange d.child (substitute c prefix)))
                    (λ resp s.
                      bind-Ensures (λ x. Unit {0}) (λ x. Unit {0}) IsOutside
                        (lift (ok_or resp.observation (RunnerError.no_observation step.id))) _
                        (ensure-IsOutside resp.observation (RunnerError.no_observation step.id) tt)
                        (λ obs t w. tt)))))
    where
      weak :
          {A : Type 0} (o : Option A) (e : RunnerError) (a : A)
          → o ≡ some a
          → Outcome (λ x. Unit {0}) IsOutside (ok_or o e)
      weak none e a h = absurd (cc)
      weak (some x) e a h = tt

  pub chosen_true :
      {A : Type 0} (P : A → Type 0) (Q : RunnerError → Type 0) (b : Bool)
      (x y : Call env.World RunnerError A)
      → b ≡ true
      → Ensures P Q x
      → Ensures P Q (if b then x else y)
  chosen_true P Q true x y e h = h
  chosen_true P Q false x y e h = absurd (true≢false (sym e))

  pub chosen_false :
      {A : Type 0} (P : A → Type 0) (Q : RunnerError → Type 0) (b : Bool)
      (x y : Call env.World RunnerError A)
      → b ≡ false
      → Ensures P Q y
      → Ensures P Q (if b then x else y)
  chosen_false P Q true x y e h = absurd (true≢false e)
  chosen_false P Q false x y e h = h

  pub after_recorded :
      (run : Run) (drivers : Map (Driver env)) (prefix : Bytes) (step : Step) (steps : List Step)
      (before : List Trace.Step) (seen : Bytes × Observation)
      → is_op (text "sleep") step.cmd ≡ false
      → Ensures
          (Recorded run
            (ids (before ++ recorded env step seen.0 seen.1 ∷ []) ++ step_ids (awake steps)))
          IsOutside
          (run_steps env run drivers prefix steps (before ++ recorded env step seen.0 seen.1 ∷ []))
      → (o : Option Failure)
      → Ensures (Recorded run (ids before ++ step_ids (awake (step ∷ steps)))) IsOutside (
          after_assert env run step before seen
            (λ so_far. run_steps env run drivers prefix steps so_far)
            o)
  unfolding after_assert
  after_recorded run drivers prefix step steps before seen e ih (some why) = λ w. (refl, refl)
  after_recorded run drivers prefix step steps before seen e ih none =
      subst
        (λ expected.
          Ensures (Recorded run expected) IsOutside (
            run_steps env run drivers prefix steps
              (before ++ recorded env step seen.0 seen.1 ∷ [])))
        (one_more before (recorded env step seen.0 seen.1) step steps e refl) ih

  pub steps-Recorded :
      (run : Run) (drivers : Map (Driver env)) (prefix : Bytes) (roles : List Bytes)
      (steps : List Step) (before : List Trace.Step)
      → All (Has drivers) roles
      → All (StepSound env.from_value roles) steps
      → Ensures
          (Recorded run (ids before ++ step_ids (awake steps)))
          IsOutside
          (run_steps env run drivers prefix steps before)
  unfolding run_steps
  steps-Recorded run drivers prefix roles [] before has sound = λ w. sym (append-nil (ids before))
  steps-Recorded run drivers prefix roles (step ∷ steps) before has
        (inl (sleeps, (ms, timed)), sound) =
      chosen_true (Recorded run (ids before ++ step_ids (awake (step ∷ steps)))) IsOutside
        (is_op (text "sleep") step.cmd) _ _ sleeps
        (subst
          (λ expected. Ensures (Recorded run (ids before ++ step_ids expected)) IsOutside (do
            ms' ← lift (ok_or (ms_of step.cmd) (RunnerError.no_ms step.id))
            (λ w. (ok tt, env.sleep ms' w))
            run_steps env run drivers prefix steps before))
          (sym (keep_no _ step steps (ap not sleeps)))
          (bind-Ensures (λ x. x ≡ ms) (Recorded run (ids before ++ step_ids (awake steps)))
            IsOutside (lift (ok_or (ms_of step.cmd) (RunnerError.no_ms step.id))) _
            (ensure_some (ms_of step.cmd) _ ms timed)
            (λ m same w.
              steps-Recorded run drivers prefix roles steps before has sound (env.sleep m w))))
  steps-Recorded run drivers prefix roles (step ∷ steps) before has (inr command, sound) =
      chosen_false (Recorded run (ids before ++ step_ids (awake (step ∷ steps)))) IsOutside
        (is_op (text "sleep") step.cmd) _ _ command.0
        (bind-Ensures (λ x. Unit {0}) (Recorded run (ids before ++ step_ids (awake (step ∷ steps))))
          IsOutside (observe env drivers prefix step) _
          (observe-IsOutside drivers prefix roles step has command)
          (λ seen p.
            after_recorded run drivers prefix step steps before seen command.0
              (steps-Recorded run drivers prefix roles steps
                (before ++ recorded env step seen.0 seen.1 ∷ []) has sound)
              (failed_assert step.assert seen.1)))
