-- ===== src/Runner/Cli/Exit.antt =====
-- What the exit code of the runner says: `main` of crates/parity-runner/src/main.rs.
use mathlib.Core.Path.{subst}
use mathlib.Core.Bool.{true≢false}
use client_rust_test.Base.{
  ◌≡◌, ◌≢◌, ◌↔◌, refl, sym, List, [], ◌∷◌, Bool, true, false, Bytes, if◌then◌else◌, arith,
}
use client_rust_test.Base.Result.{Result, Call, ok, err}
use client_rust_test.Proto.Json.{Json}
use client_rust_test.Runner.Scenario.{Scenario}
use client_rust_test.Runner.Process.{Environment}
use client_rust_test.Runner.Main.{Disk, ScenarioError, load, run_scenario}
use client_rust_test.Runner.Cli.{
  Shell, check_only, scenarios, binaries, is_bad, check_all, is_failure, run_each, exit_code,
  load_provenance, Unproven, with_provenance, run_chosen, main,
}

-- One more turn of a loop that remembers a failure.
one_more :
    (t bad : Bool) (G P : Type 0) (next : Bool → Bool)
    → ((t ≡ false) ↔ G)
    → ((b : Bool) → (next b ≡ false) ↔ ((b ≡ false) × P))
    → (next (if t then true else bad) ≡ false) ↔ ((bad ≡ false) × (G × P))
one_more true bad G P next good rest =
    (λ h. absurd (true≢false ((rest true).0 h).0), λ (b, (g, p)). absurd (true≢false (good.1 g)))
one_more false bad G P next good rest =
    (λ h. let (b, p) = (rest bad).0 h in (b, (good.0 refl, p)), λ (b, (g, p)). (rest bad).1 (b, p))

module _ (env : Environment) (disk : Disk env.World) (shell : Shell env disk) where
  -- Each scenario loads, one after the other.
  abbrev pub Loads : List Bytes → env.World → Type 0
  Loads [] w = Unit
  Loads (path ∷ paths) w =
      ((s : Scenario) × ((load env disk (shell.path_of path) w).0 ≡ ok s))
      × Loads paths (load env disk (shell.path_of path) w).1

  -- Each scenario is answered with a result, one after the other.
  abbrev pub Produces : Json → List Bytes → env.World → Type 0
  Produces provenance [] w = Unit
  Produces provenance (path ∷ paths) w =
      ((run_scenario env disk (shell.path_of path) (binaries env disk shell) provenance w).0
        ≡ ok true)
      × Produces provenance paths
          (run_scenario env disk (shell.path_of path) (binaries env disk shell) provenance w).1

  -- What the mode asks of the scenarios
  abbrev pub Succeeds : List Bytes → env.World → Type 0
  Succeeds paths w =
      if check_only env disk shell
      then Loads paths w
      else ((provenance : Json) × ((load_provenance env disk shell w).0 ≡ ok provenance)
          × Produces provenance paths (load_provenance env disk shell w).1)

  loaded :
      (r : Result ScenarioError Scenario)
      → (is_bad env disk shell r ≡ false) ↔ ((s : Scenario) × (r ≡ ok s))
  loaded (ok s) = (λ h. (s, refl), λ h. refl)
  loaded (err e) = (λ h. absurd (true≢false h), λ (s, h). absurd (cc))

  produced : (r : Result ScenarioError Bool) → (is_failure env disk shell r ≡ false) ↔ (r ≡ ok true)
  produced (ok true) = (λ h. refl, λ h. refl)
  produced (ok false) = (λ h. absurd (true≢false h), λ h. absurd (cc))
  produced (err e) = (λ h. absurd (true≢false h), λ h. absurd (cc))

  check_all-Loads :
      (paths : List Bytes) (bad : Bool) (w : env.World)
      → ((check_all env disk shell paths bad w).0 ≡ false) ↔ ((bad ≡ false) × Loads paths w)
  unfolding check_all
  check_all-Loads [] bad w = (λ h. (h, tt), λ h. h.0)
  check_all-Loads (path ∷ paths) bad w =
      let (r, w') = load env disk (shell.path_of path) w in
      one_more (is_bad env disk shell r) bad ((s : Scenario) × (r ≡ ok s)) (Loads paths w')
        (λ b. (check_all env disk shell paths b w').0) (loaded r) (λ b. check_all-Loads paths b w')

  run_each-Produces :
      (provenance : Json) (paths : List Bytes) (failed : Bool) (w : env.World)
      → ((run_each env disk shell provenance paths failed w).0 ≡ false)
        ↔ ((failed ≡ false) × Produces provenance paths w)
  unfolding run_each
  run_each-Produces provenance [] failed w = (λ h. (h, tt), λ h. h.0)
  run_each-Produces provenance (path ∷ paths) failed w =
      let (r, w') =
        run_scenario env disk (shell.path_of path) (binaries env disk shell) provenance w in
      one_more (is_failure env disk shell r) failed (r ≡ ok true) (Produces provenance paths w')
        (λ b. (run_each env disk shell provenance paths b w').0) (produced r)
        (λ b. run_each-Produces provenance paths b w')

  exit_code-zero : (bad : Bool) → (exit_code bad ≡ 0) ↔ (bad ≡ false)
  exit_code-zero true = (λ h. absurd (omega (arith, h)), λ h. absurd (true≢false h))
  exit_code-zero false = (λ h. refl, λ h. refl)

  checked :
      (paths : List Bytes) (w : env.World)
      → (exit_code (check_all env disk shell paths false w).0 ≡ 0) ↔ Loads paths w
  checked paths w = (
    λ h. ((check_all-Loads paths false w).0 ((exit_code-zero _).0 h)).1,
    λ h. (exit_code-zero _).1 ((check_all-Loads paths false w).1 (refl, h)),
  )

  answered :
      (paths : List Bytes) (r : Result Unproven Json × env.World)
      → ((with_provenance env disk shell paths r).0 ≡ 0)
        ↔ ((provenance : Json) × (r.0 ≡ ok provenance) × Produces provenance paths r.1)
  answered paths (err e, w) = (λ h. absurd (omega (arith, h)), λ (p, q, z). absurd (cc))
  answered paths (ok provenance, w) = (
    λ h. (
      provenance,
      refl,
      ((run_each-Produces provenance paths false w).0 ((exit_code-zero _).0 h)).1,
    ),
    λ (p, q, h). (exit_code-zero _).1 (
        (run_each-Produces provenance paths false w).1
          (refl, subst (λ x. Produces x paths w) (sym (same p q)) h)),
  )
    where
      same : (p : Json) → ◌≡◌ {A = Result Unproven Json} (ok provenance) (ok p) → provenance ≡ p
      same p q = cc

  run_chosen-Succeeds :
      (paths : List Bytes) (w : env.World)
      → ((run_chosen env disk shell paths w).0 ≡ 0) ↔ ((paths ≢ []) × Succeeds paths w)
  unfolding run_chosen
  run_chosen-Succeeds [] w = (λ h. absurd (omega (arith, h)), λ (ne, h). absurd (ne refl))
  run_chosen-Succeeds (path ∷ paths) w = split (check_only env disk shell)
    where
      split :
          (b : Bool)
          → ((if b
                then (
                  exit_code (check_all env disk shell (path ∷ paths) false w).0,
                  (check_all env disk shell (path ∷ paths) false w).1,
                )
                else with_provenance env disk shell
                    (path ∷ paths)
                    (load_provenance env disk shell w)).0
              ≡ 0)
            ↔ (((path ∷ paths) ≢ [])
                × (if b
                    then Loads (path ∷ paths) w
                    else ((provenance : Json) × ((load_provenance env disk shell w).0
                          ≡ ok provenance)
                        × Produces provenance (path ∷ paths) (load_provenance env disk shell w).1)))
      split true = (
        λ h. (λ e. cc, (checked (path ∷ paths) w).0 h),
        λ (ne, h). (checked (path ∷ paths) w).1 h,
      )
      split false = (
        λ h. (λ e. cc, (answered (path ∷ paths) (load_provenance env disk shell w)).0 h),
        λ (ne, h). (answered (path ∷ paths) (load_provenance env disk shell w)).1 h,
      )

  -- The world after a call for each path, one after the other, whatever the answers.
  abbrev pub after_each :
      {E A : Type 0} → (Bytes → Call env.World E A) → List Bytes → env.World → env.World
  after_each call [] w = w
  after_each call (path ∷ paths) w = after_each call paths (call path w).1

  abbrev pub after_runs : List Bytes → Result Unproven Json × env.World → env.World
  after_runs paths (err e, w) = w
  after_runs paths (ok provenance, w) =
      after_each
        (λ path. run_scenario env disk (shell.path_of path) (binaries env disk shell) provenance)
        paths w

  -- The world in which the mode leaves the scenarios
  abbrev pub after_all : List Bytes → env.World → env.World
  after_all [] w = w
  after_all (path ∷ paths) w =
      if check_only env disk shell
      then after_each (λ p. load env disk (shell.path_of p)) (path ∷ paths) w
      else after_runs (path ∷ paths) (load_provenance env disk shell w)

  check_all-after_each :
      (paths : List Bytes) (bad : Bool) (w : env.World)
      → (check_all env disk shell paths bad w).1
        ≡ after_each (λ p. load env disk (shell.path_of p)) paths w
  unfolding check_all
  check_all-after_each [] bad w = refl
  check_all-after_each (path ∷ paths) bad w = check_all-after_each paths _ _

  run_each-after_each :
      (provenance : Json) (paths : List Bytes) (failed : Bool) (w : env.World)
      → (run_each env disk shell provenance paths failed w).1 ≡ after_runs paths (ok provenance, w)
  unfolding run_each
  run_each-after_each provenance [] failed w = refl
  run_each-after_each provenance (path ∷ paths) failed w = run_each-after_each provenance paths _ _

  with_provenance-after_runs :
      (paths : List Bytes) (r : Result Unproven Json × env.World)
      → (with_provenance env disk shell paths r).1 ≡ after_runs paths r
  with_provenance-after_runs paths (err e, w) = refl
  with_provenance-after_runs paths (ok provenance, w) = run_each-after_each provenance paths false w

  run_chosen-after_all :
      (paths : List Bytes) (w : env.World)
      → (run_chosen env disk shell paths w).1 ≡ after_all paths w
  unfolding run_chosen
  run_chosen-after_all [] w = refl
  run_chosen-after_all (path ∷ paths) w = split (check_only env disk shell)
    where
      split :
          (b : Bool)
          → (if b
              then (
                exit_code (check_all env disk shell (path ∷ paths) false w).0,
                (check_all env disk shell (path ∷ paths) false w).1,
              )
              else with_provenance env disk shell
                  (path ∷ paths)
                  (load_provenance env disk shell w)).1
            ≡ (if b
                then after_each (λ p. load env disk (shell.path_of p)) (path ∷ paths) w
                else after_runs (path ∷ paths) (load_provenance env disk shell w))
      split true = check_all-after_each (path ∷ paths) false w
      split false = with_provenance-after_runs (path ∷ paths) (load_provenance env disk shell w)

  -- The runner exits with 0 exactly if there is a scenario to run and, for `--check`, each of them
  -- loads; or, without it, the provenance is read and each scenario, one after the other, is
  -- answered with a result. Whatever the exit code, the world at the end is the one after these
  -- calls: for `--check`, the loading of every scenario; without it, if there is a scenario, the
  -- read of the provenance and, where that succeeds, the running of every scenario, one after the
  -- other, also after one that failed.
  pub main-Succeeds :
      (w : env.World)
      → (((main env disk shell w).0 ≡ 0) ↔ (
          ((scenarios env disk shell w).0 ≢ [])
          × Succeeds (scenarios env disk shell w).0 (scenarios env disk shell w).1))
        × ((main env disk shell w).1
            ≡ after_all (scenarios env disk shell w).0 (scenarios env disk shell w).1)
  unfolding main
  main-Succeeds w = (
    run_chosen-Succeeds (scenarios env disk shell w).0 (scenarios env disk shell w).1,
    run_chosen-after_all (scenarios env disk shell w).0 (scenarios env disk shell w).1,
  )
