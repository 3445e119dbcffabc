-- ===== src/Runner/Main/Evidence.antt =====
-- The traces that `run_scenario`, crates/parity-runner/src/main.rs, keeps are evidence.
use mathlib.Core.Path.{subst}
use client_rust_test.Base.{
  ℕ, zero, suc, ◌-◌, ◌≡◌, inl, inr, refl, sym, ◌∙◌, Option, none, some, List, [], ◌∷◌, map,
  Bool-cases, Bytes, bytes_eq, bytes_eq→eq, In, if-either,
}
use client_rust_test.Base.Map.{Map, get, insert, get-insert_self, get-insert_ne}
use client_rust_test.Base.Result.{Result, ok, err, Call, pure, lift, Outcome, Ensures, bind-Ensures}
use client_rust_test.Base.Check.{find, is_none, forbid_some, map_err}
use client_rust_test.Proto.Json.{Json}
use client_rust_test.Proto.Trace.{Trace, RoleBinding, inadmissible}
use client_rust_test.Runner.Scenario.{Scenario, Run, validate}
use client_rust_test.Runner.Files.{trace_file}
use client_rust_test.Runner.Process.{Environment, relabel, RunnerError}
use client_rust_test.Runner.Execute.{Binaries, Inadmissible, execute}
use client_rust_test.Runner.Execute.Recorded.{ids, step_ids, awake}
use client_rust_test.Runner.Execute.Spawned.{IsOutside}
use client_rust_test.Runner.Execute.Outcome.{Ends, execute-validate}
use client_rust_test.Runner.Retry.{max_attempts, after_attempt, retry}
use client_rust_test.Runner.Main.{Disk, ScenarioError, run_once, keep_trace, run_all}

-- A trace that a run of the scenario ended with, as `execute` makes it.
abbrev pub IsEvidence : Scenario → Bytes → Trace → Type 0
IsEvidence s name trace =
    (inadmissible trace ≡ [])
    × (trace.scenario ≡ s.name)
    × (trace.run ≡ name)
    × (map (λ (b : RoleBinding). b.role) trace.roles ≡ s.roles)
    × (ids trace.steps ≡ step_ids (awake s.steps))

abbrev pub Holds : {A : Type 0} → (A → Type 0) → Option A → Type 0
Holds P none = Unit
Holds P (some a) = P a

-- Errors are not what this is about.
abbrev pub Any : {E : Type 0} → E → Type 0
Any e = Unit

module _ {W E A : Type 0} (P : A → Type 0) (R : Inadmissible → Type 0)
    (execute : Call W E (Result Inadmissible A)) where
  after-Ensures :
      (again : Call W E (Option A))
      → Ensures (Holds P) Any again
      → (r : Result Inadmissible A) → Outcome P R r
      → Ensures (Holds P) Any (after_attempt execute again r)
  unfolding after_attempt
  after-Ensures again q (ok trace) h = λ w. h
  after-Ensures again q (err bad) h =
      if-either (Ensures (Holds P) Any) bad.transient again (pure none) q (λ w. tt)

  retry-Ensures :
      (left : ℕ) → Ensures (Outcome P R) Any execute → Ensures (Holds P) Any (retry execute left)
  unfolding retry
  retry-Ensures zero h =
      bind-Ensures (Outcome P R) (Holds P) Any execute _ h
        (λ r p. after-Ensures (pure none) (λ w. tt) r p)
  retry-Ensures (suc left) h =
      bind-Ensures (Outcome P R) (Holds P) Any execute _ h
        (λ r p. after-Ensures (retry execute left) (retry-Ensures left h) r p)

anyway : {W E A : Type 0} (m : Call W E A) → Ensures (λ a. Unit {0}) Any m
anyway {W} {E} {A} m w = go (m w).0
  where
    go : (r : Result E A) → Outcome (λ a. Unit {0}) Any r
    go (ok a) = tt
    go (err e) = tt

relabelled :
    {W E F A : Type 0} (P : A → Type 0) (Q : E → Type 0) (f : E → F) (m : Call W E A)
    → Ensures P Q m
    → Ensures P Any (relabel f m)
relabelled {W} {E} {F} {A} P Q f m h w = go (m w).0 (h w)
  where
    go : (r : Result E A) → Outcome P Q r → Outcome P Any (map_err f r)
    go (ok a) p = p
    go (err e) q = tt

module _ (env : Environment) (disk : Disk env.World) (s : Scenario) (provenance : Json)
    (bins : Binaries env) where
  -- Evidence that `execute` has answered with, for the run of that name.
  abbrev pub IsMade : Bytes → Trace → Type 0
  IsMade name trace =
      IsEvidence s name trace
      × ((run : Run) × In run s.runs
          × (run.name ≡ name)
          × ((w : env.World) × ((execute env s run bins provenance w).0 ≡ ok (ok trace))))

  once-IsMade :
      (run : Run)
      → validate env.from_value s ≡ ok tt
      → In run s.runs
      → Ensures (Holds (IsMade run.name)) Any (run_once env disk s bins provenance run)
  unfolding run_once
  once-IsMade run accepted here =
      bind-Ensures (λ u. Unit {0}) (Holds (IsMade run.name)) Any
        (lift (forbid_some (find (λ r. is_none (get r run.bind)) s.roles) ScenarioError.no_entry)) _
        (anyway (
          lift (forbid_some (find (λ r. is_none (get r run.bind)) s.roles) ScenarioError.no_entry)))
        (λ u p.
          relabelled (Holds (IsMade run.name)) Any ScenarioError.runner
            (retry (execute env s run bins provenance) (max_attempts - 1))
            (retry-Ensures (IsMade run.name) (λ bad. Unit {0}) (execute env s run bins provenance)
              (max_attempts - 1)
              (λ w.
                weaken w (execute env s run bins provenance w).0 refl
                  (execute-validate env s run bins provenance accepted here w))))
    where
      weaken :
          (w : env.World) (r : Result RunnerError (Result Inadmissible Trace))
          → (execute env s run bins provenance w).0 ≡ r
          → Outcome (Ends env s run) IsOutside r
          → Outcome (Outcome (IsMade run.name) (λ bad. Unit {0})) Any r
      weaken w (ok (ok trace)) q e = (e, (run, here, refl, (w, q)))
      weaken w (ok (err bad)) q e = tt
      weaken w (err x) q e = tt

  -- Every trace that is kept is evidence, of the run that it is kept under.
  abbrev pub Evidenced : Map Trace → Type 0
  Evidenced traces = (k : Bytes) (t : Trace) → get k traces ≡ some t → IsMade k t

  kept_one :
      (run : Run) (trace : Trace) (traces : Map Trace)
      → IsMade run.name trace
      → Evidenced traces
      → Evidenced (insert run.name trace traces)
  kept_one run trace traces one all k t found = elim (Bool-cases (bytes_eq run.name k)) [
    | inl y ↦
        let same : run.name ≡ k = bytes_eq→eq run.name k y in
        subst (λ j. IsMade j t) same
          (subst (IsMade run.name)
            (some_inj trace t (
              sym (get-insert_self run.name trace traces)
              ∙ subst (λ j. get j (insert run.name trace traces) ≡ some t) (sym same) found))
            one)
    | inr n ↦ all k t (sym (get-insert_ne k run.name trace traces n) ∙ found)
  ]
    where
      some_inj : (a b : Trace) → some a ≡ some b → a ≡ b
      some_inj a b q = cc

  keep-Evidenced :
      (run : Run) (traces : Map Trace)
      (go_on : Map Trace → Call env.World ScenarioError (Option (Map Trace)))
      → Evidenced traces
      → ((more : Map Trace) → Evidenced more → Ensures (Holds Evidenced) Any (go_on more))
      → (o : Option Trace) → Holds (IsMade run.name) o
      → Ensures (Holds Evidenced) Any (keep_trace env disk s run traces go_on o)
  unfolding keep_trace
  keep-Evidenced run traces go_on all ih none h = λ w. tt
  keep-Evidenced run traces go_on all ih (some trace) h =
      bind-Ensures (λ u. Unit {0}) (Holds Evidenced) Any
        (relabel ScenarioError.file (disk.write_trace (trace_file s.name run.name) trace)) _
        (anyway (relabel ScenarioError.file (disk.write_trace (trace_file s.name run.name) trace)))
        (λ u p. ih (insert run.name trace traces) (kept_one run trace traces h all))

  pub run_all-Evidenced :
      (runs : List Run) (before : Map Trace)
      → validate env.from_value s ≡ ok tt
      → ((r : Run) → In r runs → In r s.runs)
      → Evidenced before
      → Ensures (Holds Evidenced) Any (run_all env disk s bins provenance runs before)
  unfolding run_all
  run_all-Evidenced [] before accepted here all = λ w. all
  run_all-Evidenced (run ∷ runs) before accepted here all =
      bind-Ensures (Holds (IsMade run.name)) (Holds Evidenced) Any
        (run_once env disk s bins provenance run) _ (once-IsMade run accepted (here run (inl refl)))
        (λ o h.
          keep-Evidenced run before (run_all env disk s bins provenance runs) all
            (λ more e. run_all-Evidenced runs more accepted (λ r m. here r (inr m)) e) o h)
