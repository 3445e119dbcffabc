-- ===== src/Runner/Scenario/Exact.antt =====
-- Exactly which scenarios `Scenario::validate` of crates/parity-runner/src/scenario.rs accepts.
use mathlib.Core.Path.{subst}
use client_rust_test.Base.{
  ◌≡◌, ◌↔◌, inl, inr, refl, ap, sym, ◌∙◌, Option, none, some, List, [], ◌∷◌, map, Bool, Bool-cases,
  true, false, ◌&&◌, Bytes, bytes_eq, bytes_eq→eq, bytes_eq_refl, text, All, All-In, All-mono, In,
  all, arith,
}
use client_rust_test.Base.Map.{get}
use client_rust_test.Base.Result.{Result, ok}
use client_rust_test.Base.Check.{
  attempt, forbid, find, seq_ok, attempt_ok, forbid_ok, for_each_ok, pass_find, Distinct,
  each_new_ok, not-false,
}
use client_rust_test.Base.Accept.{
  pass_forbid, pass_seq, pass_attempt, pass_for_each, pass_each_new, find-Distinct,
}
use client_rust_test.Proto.Json.{Json}
use client_rust_test.Proto.Command.{Command}
use client_rust_test.Runner.Scenario.{
  Run, Step, Scenario, Invalid, scenario_schema, is_empty, active_roles, find_run, validate_step,
  validate_bound, validate_compare, validate, driver_eq, oracle_first, known_drivers, validate_run,
}
use client_rust_test.Runner.Scenario.Accepted.{
  IsSound, KnownPaths, Executes, Oriented, validate-IsSound, active-Executes,
}
use client_rust_test.Runner.Scenario.Stated.{
  StepStated, DriversKnown, pass_step, step_stated, known-DriversKnown, pass_run,
}

module _ (from_value : Json → Result Bytes Command) where
  abbrev pub IsValid : Scenario → Type 0
  IsValid s =
      (s.schema ≡ scenario_schema)
      × IsSound from_value s
      × All (StepStated s.roles) s.steps
      × All DriversKnown s.runs

In-is_empty : (r : Bytes) (xs : List Bytes) → In r xs → is_empty xs ≡ false
In-is_empty r [] m = absurd m
In-is_empty r (x ∷ xs) m = refl

all-In : (p : Bytes → Bool) (xs : List Bytes) (r : Bytes) → In r xs → p r ≡ false → all p xs ≡ false
all-In p [] r m h = absurd m
all-In p (x ∷ xs) r (inl e) h = rw (ap p (sym e), h) refl
all-In p (x ∷ xs) r (inr m) h = rw (all-In p xs r m h) (and_false (p x))
  where
    and_false : (b : Bool) → (b && false) ≡ false
    and_false b = ground arith

every : {A : Type 0} (P : A → Type 0) (xs : List A) → ((x : A) → In x xs → P x) → All P xs
every P [] h = tt
every P (x ∷ xs) h = (h x (inl refl), every P xs (λ y m. h y (inr m)))

driver_eq_refl : (d : Option Bytes) → driver_eq d d ≡ true
driver_eq_refl none = refl
driver_eq_refl (some d) = bytes_eq_refl d

oracle_first-Oriented :
    (a b : Run) (role : Bytes) → Oriented a b role → oracle_first a.bind b.bind role ≡ true
unfolding bytes_eq text
oracle_first-Oriented a b role (inl e) = rw (e, driver_eq_refl (get role b.bind)) refl
oracle_first-Oriented a b role (inr (from, to)) = rw (from, to) refl

module _ (from_value : Json → Result Bytes Command) where
  stated_bound :
      (s : Scenario) (a b : Bytes) (run_a run_b : Run)
      → validate_bound from_value s a b run_a.bind run_b.bind ≡ ok tt
      → All (StepStated s.roles) s.steps × All DriversKnown s.runs
  unfolding validate_bound
  stated_bound s a b run_a run_b h =
      let (some_command, h1) = seq_ok _ _ tt h in
      let (known, h2) = seq_ok _ _ tt h1 in
      let (contrast, h3) = seq_ok _ _ tt h2 in
      let (paths, h4) = seq_ok _ _ tt h3 in
      let (steps, h5) = seq_ok _ _ tt h4 in
      let (good, different, apart) = each_new_ok _ _ _ [] s.steps steps in
      (
        All-mono _ _ s.steps (step_stated from_value s.roles) good,
        All-mono _ _ s.runs known-DriversKnown (for_each_ok _ s.runs known),
      )

  stated_compare :
      (s : Scenario) (names : List Bytes)
      → validate_compare from_value s names ≡ ok tt
      → All (StepStated s.roles) s.steps × All DriversKnown s.runs
  stated_compare s [] h = absurd (cc)
  stated_compare s (a ∷ []) h = absurd (cc)
  stated_compare s (a ∷ b ∷ c ∷ names) h = absurd (cc)
  stated_compare s (a ∷ b ∷ []) h =
      let with_a : Run → Run → Result Invalid Unit =
        λ run_a run_b. validate_bound from_value s a b run_a.bind run_b.bind in
      let (different, h1) = seq_ok (forbid (bytes_eq a b) (Invalid.same_run a)) _ tt h in
      let (names, h2) =
        seq_ok _
          (attempt (find_run s a) (λ run_a. attempt (find_run s b) (λ run_b. with_a run_a run_b)))
          tt h1 in
      let (run_a, found_a, h3) =
        attempt_ok (find_run s a) (λ r. attempt (find_run s b) (λ run_b. with_a r run_b)) tt h2 in
      let (run_b, found_b, h4) = attempt_ok (find_run s b) (λ r. with_a run_a r) tt h3 in
      stated_bound s a b run_a run_b h4

  pass_bound :
      (s : Scenario) (a b : Run)
      → Distinct (map (λ (step : Step). step.id) s.steps)
      → All (λ step. validate_step from_value s.roles step ≡ ok tt) s.steps
      → All (λ r. known_drivers r ≡ ok tt) s.runs
      → All (λ r. validate_run s.roles r ≡ ok tt) s.runs
      → KnownPaths s
      → ((role : Bytes) → Executes s role → Oriented a b role)
      → ((role : Bytes) × Executes s role
          × (get role a.bind ≡ some (text "go"))
          × (get role b.bind ≡ some (text "rust")))
      → validate_bound from_value s a.name b.name a.bind b.bind ≡ ok tt
  unfolding validate_bound bytes_eq text
  pass_bound s a b different steps known runs paths oriented (role, executes, from, to) =
      let active = (active-Executes s role).1 executes in
      pass_seq _ _ tt (pass_forbid _ Invalid.no_command (In-is_empty role _ active)) (
        pass_seq _ _ tt (pass_for_each known_drivers s.runs known) (
          pass_seq _ _ tt
            (pass_forbid _ _ (
              all-In (λ r. driver_eq (get r a.bind) (get r b.bind)) (active_roles s.steps) role
                active (rw (from, to) refl)))
            (pass_seq _ _ tt (pass_forbid _ _ (rw paths refl)) (
              pass_seq _ _ tt
                (pass_each_new (λ (step : Step). step.id) _ (validate_step from_value s.roles) []
                  s.steps steps different (λ k m n. n))
                (pass_seq _ _ tt (pass_for_each (validate_run s.roles) s.runs runs) (
                  pass_find _ _ (active_roles s.steps) (
                    every _ (active_roles s.steps) (λ r m.
                      rw (oracle_first-Oriented a b r (oriented r ((active-Executes s r).0 m)))
                        refl))))))))

  one_name :
      (s : Scenario) (a b : Run)
      → Distinct (map (λ (r : Run). r.name) s.runs)
      → In a s.runs
      → In b s.runs
      → a.name ≡ b.name
      → a ≡ b
  one_name s a b d m n e = some_inj (
      sym (find-Distinct (λ (r : Run). r.name) s.runs a d m)
      ∙ subst (λ k. find (λ (r : Run). bytes_eq r.name k) s.runs ≡ some b) (sym e)
          (find-Distinct (λ (r : Run). r.name) s.runs b d n))
    where
      some_inj : some a ≡ some b → a ≡ b
      some_inj q = cc

  -- Runs that bind a role to two drivers have two names.
  two_names :
      (s : Scenario) (a b : Run) (role : Bytes)
      → Distinct (map (λ (r : Run). r.name) s.runs)
      → In a s.runs
      → In b s.runs
      → get role a.bind ≡ some (text "go")
      → get role b.bind ≡ some (text "rust")
      → bytes_eq a.name b.name ≡ false
  unfolding text
  two_names s a b role d m n from to = elim (Bool-cases (bytes_eq a.name b.name)) [
    | inr differ ↦ differ
    | inl same ↦ absurd (
        go_rust (
          sym from
          ∙ ap (λ (r : Run). get role r.bind) (one_name s a b d m n (bytes_eq→eq _ _ same))
          ∙ to))
  ]
    where
      go_rust : some (text "go") ≡ some (text "rust") → ⊥
      go_rust q = cc

  pass_compare :
      (s : Scenario) (a b : Run)
      → Distinct (map (λ (r : Run). r.name) s.runs)
      → In a s.runs
      → In b s.runs
      → bytes_eq a.name b.name ≡ false
      → validate_bound from_value s a.name b.name a.bind b.bind ≡ ok tt
      → validate_compare from_value s (a.name ∷ b.name ∷ []) ≡ ok tt
  unfolding find_run
  pass_compare s a b d m n differ bound =
      pass_seq _ _ tt (pass_forbid _ (Invalid.same_run a.name) differ) (
        pass_seq _ _ tt
          (pass_each_new (λ (r : Run). r.name) _ (λ r. ok tt) [] s.runs
            (every _ s.runs (λ r i. refl)) d (λ k i x. x))
          (pass_attempt (find_run s a.name) _ a tt
            (rw (find-Distinct (λ (r : Run). r.name) s.runs a d m) refl)
            (pass_attempt (find_run s b.name) _ b tt
              (rw (find-Distinct (λ (r : Run). r.name) s.runs b d n) refl) bound)))

  valid : (s : Scenario) → validate from_value s ≡ ok tt → IsValid from_value s
  unfolding validate
  valid s h =
      let (schema, h1) = seq_ok _ _ tt h in
      let (name, h2) = seq_ok _ _ tt h1 in
      let (run_names, h3) = seq_ok _ (validate_compare from_value s s.compare) tt h2 in
      let (steps, drivers) = stated_compare s s.compare h3 in
      (
        bytes_eq→eq _ _ (not-false _ (forbid_ok _ _ schema)),
        validate-IsSound from_value s h,
        steps,
        drivers,
      )

  accepted : (s : Scenario) → IsValid from_value s → validate from_value s ≡ ok tt
  unfolding validate
  accepted s
        (
          schema,
          (
            name,
            run_names,
            names,
            ids,
            steps,
            runs,
            paths,
            (a, b, m, n, pair, oriented, (role, executes, from, to)),
          ),
          stated,
          drivers,
        ) =
      pass_seq _ _ tt (pass_forbid _ _ (rw (schema, bytes_eq_refl scenario_schema) refl)) (
        pass_seq _ _ tt (pass_forbid _ (Invalid.scenario_name s.name) (rw name refl)) (
          pass_seq _ _ tt (pass_find _ _ s.runs (All-mono _ _ s.runs (λ r e. rw e refl) run_names))
            (rw pair (
              pass_compare s a b names m n (two_names s a b role names m n from to) (
                pass_bound s a b ids
                  (every _ s.steps (λ step i.
                    pass_step from_value s.roles step (All-In _ step s.steps steps i)
                      (All-In _ step s.steps stated i)))
                  (every _ s.runs (λ r i.
                    (pass_run s.roles r (All-In _ r s.runs runs i)
                      (All-In _ r s.runs drivers i)).0))
                  (every _ s.runs (λ r i.
                    (pass_run s.roles r (All-In _ r s.runs runs i)
                      (All-In _ r s.runs drivers i)).1))
                  paths oriented (role, executes, from, to))))))

  -- `validate` accepts a scenario exactly if: its schema is the known one; its name and those of its
  -- runs are plain; no two runs share a name and no two steps an id; each step is a sleep of two fields
  -- with a time, which says why, or a command that parses, is not `hello`, and has arguments that
  -- decode and a batch size that is not 0; the role of a step is declared, and a command has one; each
  -- run binds every declared role, no other role, and to `rust` or `go` only; the extra paths to
  -- compare are known; and `compare` names two of the runs, which bind each role that executes a
  -- command alike or to `go` in the first and `rust` in the second, the latter for at least one such
  -- role.
  pub validate-IsValid : (s : Scenario) → (validate from_value s ≡ ok tt) ↔ IsValid from_value s
  validate-IsValid s = (valid s, accepted s)
