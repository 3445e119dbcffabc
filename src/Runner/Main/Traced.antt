-- ===== src/Runner/Main/Traced.antt =====
-- The runs of an accepted scenario, and the errors that a scenario can end with.
use client_rust_test.Base.{
  ℕ, zero, suc, ◌-◌, ◌≡◌, refl, sym, ap, Option, none, some, List, [], ◌∷◌, Bytes, if-either, All,
  All-mono, In, inl, inr,
}
use mathlib.Core.Path.{subst}
use client_rust_test.Base.Map.{Map, get, insert, get-insert_self}
use client_rust_test.Base.Result.{Result, ok, err, Call, pure, lift, Outcome, Ensures, bind-Ensures}
use client_rust_test.Base.Check.{find, is_none, forbid_some, map_err, pass_find}
use client_rust_test.Proto.Json.{Json}
use client_rust_test.Proto.Trace.{Trace}
use client_rust_test.Runner.Scenario.{Scenario, Run, validate}
use client_rust_test.Runner.Scenario.Sound.{RunSound}
use client_rust_test.Runner.Files.{trace_file}
use client_rust_test.Runner.Process.{Environment, relabel}
use client_rust_test.Runner.Execute.{Binaries, Inadmissible, execute}
use client_rust_test.Runner.Execute.Spawned.{IsOutside, Has, Has-insert, Ensures-mono}
use client_rust_test.Runner.Execute.Outcome.{execute-validate}
use client_rust_test.Runner.Retry.{max_attempts, after_attempt, retry}
use client_rust_test.Runner.Main.{Disk, ScenarioError, run_once, keep_trace, run_all}

-- The errors that a scenario is told: its file, what `validate` found, or a driver process.
abbrev pub IsReported : ScenarioError → Type 0
IsReported (ScenarioError.file message) = Unit
IsReported (ScenarioError.invalid i) = Unit
IsReported (ScenarioError.runner e) = IsOutside e
IsReported _ = ⊥

pub relabel-Ensures :
    {W E F A : Type 0} (P : A → Type 0) (Q : E → Type 0) (R : F → Type 0) (f : E → F)
    (m : Call W E A)
    → Ensures P Q m
    → ((e : E) → Q e → R (f e))
    → Ensures P R (relabel f m)
relabel-Ensures {W} {E} {F} {A} P Q R f m h into w = go (m w).0 (h w)
  where
    go : (r : Result E A) → Outcome P Q r → Outcome P R (map_err f r)
    go (ok a) p = p
    go (err e) q = into e q

pub ensure_file :
    {W A : Type 0} (m : Call W Bytes A)
    → Ensures (λ a. Unit {0}) IsReported (relabel ScenarioError.file m)
ensure_file {W} {A} m w = go (m w).0
  where
    go : (r : Result Bytes A) → Outcome (λ a. Unit {0}) IsReported (map_err ScenarioError.file r)
    go (ok a) = tt
    go (err e) = tt

module _ {W E A : Type 0} (Q : E → Type 0) (execute : Call W E (Result Inadmissible A)) where
  after-Ensures :
      (again : Call W E (Option A))
      → Ensures (λ o. Unit {0}) Q again
      → (r : Result Inadmissible A) → Ensures (λ o. Unit {0}) Q (after_attempt execute again r)
  unfolding after_attempt
  after-Ensures again q (ok trace) = λ w. tt
  after-Ensures again q (err bad) =
      if-either (Ensures (λ o. Unit {0}) Q) bad.transient again (pure none) q (λ w. tt)

  retry-Ensures :
      (left : ℕ)
      → Ensures (λ r. Unit {0}) Q execute
      → Ensures (λ o. Unit {0}) Q (retry execute left)
  unfolding retry
  retry-Ensures zero h =
      bind-Ensures (λ r. Unit {0}) (λ o. Unit {0}) Q execute _ h
        (λ r p. after-Ensures (pure none) (λ w. tt) r)
  retry-Ensures (suc left) h =
      bind-Ensures (λ r. Unit {0}) (λ o. Unit {0}) Q execute _ h
        (λ r p. after-Ensures (retry execute left) (retry-Ensures left h) r)

module _ (env : Environment) (disk : Disk env.World) (s : Scenario) (provenance : Json) where
  ensure_once :
      (bins : Binaries env) (run : Run)
      → validate env.from_value s ≡ ok tt
      → In run s.runs
      → RunSound s.roles run
      → Ensures (λ o. Unit {0}) IsReported (run_once env disk s bins provenance run)
  unfolding run_once
  ensure_once bins run accepted here bound =
      bind-Ensures (λ u. Unit {0}) (λ o. Unit {0}) IsReported
        (lift (forbid_some (find (λ r. is_none (get r run.bind)) s.roles) ScenarioError.no_entry)) _
        (λ w.
          subst (Outcome (λ u. Unit {0}) IsReported)
            (sym (
              pass_find (λ r. is_none (get r run.bind)) ScenarioError.no_entry s.roles
                (All-mono _ _ s.roles (λ r (d, e, known). ap is_none e) bound.0)))
            tt)
        (λ u p.
          relabel-Ensures (λ o. Unit {0}) IsOutside IsReported ScenarioError.runner
            (retry (execute env s run bins provenance) (max_attempts - 1))
            (retry-Ensures IsOutside (execute env s run bins provenance) (max_attempts - 1) (
              Ensures-mono _ (λ r. Unit {0}) IsOutside (execute env s run bins provenance)
                (execute-validate env s run bins provenance accepted here) (λ r q. tt)))
            (λ e q. q))

  -- The traces of all runs, with those before.
  abbrev pub Adds : Map Trace → List Run → Option (Map Trace) → Type 0
  Adds before runs none = Unit
  Adds before runs (some traces) =
      ((k : Bytes) → Has before k → Has traces k) × All (λ (r : Run). Has traces r.name) runs

  add_one :
      (before : Map Trace) (run : Run) (runs : List Run) (trace : Trace) (o : Option (Map Trace))
      → Adds (insert run.name trace before) runs o
      → Adds before (run ∷ runs) o
  add_one before run runs trace none h = tt
  add_one before run runs trace (some traces) (keeps, rest) = (
    λ k has. keeps k (Has-insert before run.name k trace has),
    (keeps run.name (trace, get-insert_self run.name trace before), rest),
  )

  kept :
      (before : Map Trace) (run : Run) (runs : List Run)
      (go_on : Map Trace → Call env.World ScenarioError (Option (Map Trace)))
      → ((more : Map Trace) → Ensures (Adds more runs) IsReported (go_on more))
      → (o : Option Trace)
      → Ensures (Adds before (run ∷ runs)) IsReported (keep_trace env disk s run before go_on o)
  unfolding keep_trace
  kept before run runs go_on ih none = λ w. tt
  kept before run runs go_on ih (some trace) =
      bind-Ensures (λ u. Unit {0}) (Adds before (run ∷ runs)) IsReported
        (relabel ScenarioError.file (disk.write_trace (trace_file s.name run.name) trace)) _
        (ensure_file (disk.write_trace (trace_file s.name run.name) trace))
        (λ u p.
          Ensures-mono (Adds (insert run.name trace before) runs) _ IsReported
            (go_on (insert run.name trace before)) (ih (insert run.name trace before))
            (λ o h. add_one before run runs trace o h))

  pub ensure-All :
      (bins : Binaries env) (runs : List Run) (before : Map Trace)
      → validate env.from_value s ≡ ok tt
      → ((r : Run) → In r runs → In r s.runs)
      → All (RunSound s.roles) runs
      → Ensures (Adds before runs) IsReported (run_all env disk s bins provenance runs before)
  unfolding run_all
  ensure-All bins [] before accepted here sound = λ w. (λ k h. h, tt)
  ensure-All bins (run ∷ runs) before accepted here sound =
      bind-Ensures (λ o. Unit {0}) (Adds before (run ∷ runs)) IsReported
        (run_once env disk s bins provenance run) _
        (ensure_once bins run accepted (here run (inl refl)) sound.0)
        (λ o p.
          kept before run runs (run_all env disk s bins provenance runs)
            (λ more. ensure-All bins runs more accepted (λ r m. here r (inr m)) sound.1) o)
