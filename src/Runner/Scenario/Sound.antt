-- ===== src/Runner/Scenario/Sound.antt =====
-- What a scenario that `validate` accepts promises to the runner.
use client_rust_test.Base.{
  ◌≡◌, ◌⊎◌, inl, inr, Option, none, some, List, true, false, not, if◌then◌else◌, Bool-cases, Bytes,
  text, All, All-In, All-mono, In,
}
use mathlib.Core.Path.{subst}
use client_rust_test.Base.Map.{get, get_In, keys}
use client_rust_test.Base.Result.{Result, ok, err}
use client_rust_test.Base.Check.{
  forbid_some, member_of, seq_ok, attempt_ok, forbid_ok, for_each_ok, find_none, member_of-In,
  is_none-false, map_err_ok, or_false, not-false, and_not-false,
}
use client_rust_test.Proto.Json.{Json}
use client_rust_test.Proto.Command.{Command, args}
use client_rust_test.Proto.Command
use client_rust_test.Runner.Scenario.{
  Run, Step, Invalid, is_op, ms_of, is_driver, is_empty_batch, validate_sleep, validate_command,
  validate_step, validate_run, known_drivers, undeclared,
}

-- A step of the runner's own, with a time that is a number.
abbrev pub IsSleep : Step → Type 0
IsSleep step = (is_op (text "sleep") step.cmd ≡ true) × ((ms : _) × (ms_of step.cmd ≡ some ms))

module _ (from_value : Json → Result Bytes Command) where
  -- A command whose arguments decode, and that does not scan in pages of no lock.
  abbrev pub IsExecutable : Step → Type 0
  IsExecutable step =
      (cmd : Command) × (from_value step.cmd ≡ ok cmd)
      × All (λ arg. Command.validate arg ≡ true) (args cmd)
      × (is_empty_batch cmd ≡ false)

  -- A step of a declared role, with a command that a driver can execute.
  abbrev pub IsCommand : List Bytes → Step → Type 0
  IsCommand roles step =
      (is_op (text "sleep") step.cmd ≡ false)
      × (is_op (text "hello") step.cmd ≡ false)
      × ((role : Bytes) × (step.role ≡ some role) × In role roles × IsExecutable step)

  abbrev pub StepSound : List Bytes → Step → Type 0
  StepSound roles step = IsSleep step ⊎ IsCommand roles step

-- Every declared role is bound to a driver that exists, and no other role is bound.
abbrev pub RunSound : List Bytes → Run → Type 0
RunSound roles run =
    All (λ role. (d : Bytes) × (get role run.bind ≡ some d) × (is_driver d ≡ true)) roles
    × All (λ bound. In bound roles) (keys run.bind)

sleep_sound : (step : Step) → validate_sleep step ≡ ok tt → (ms : _) × (ms_of step.cmd ≡ some ms)
unfolding validate_sleep
sleep_sound step h = is_none-false _ (or_false _ _ (forbid_ok _ _ (seq_ok _ _ tt h).0)).0

pub undeclared_none :
    (roles : List Bytes) (role : Option Bytes) (r : Bytes) (e : Bytes → Invalid)
    → role ≡ some r
    → forbid_some (undeclared roles role) e ≡ ok tt
    → In r roles
undeclared_none roles none r e same h = absurd (cc)
undeclared_none roles (some q) r e same h = elim (Bool-cases (member_of roles q)) [
  | inl y ↦ subst (λ x. In x roles) (some_inj same) (member_of-In roles q y)
  | inr n ↦
      absurd (stopped (subst (λ b. forbid_some (if not b then some q else none) e ≡ ok tt) n h))
]
  where
    some_inj : some q ≡ some r → q ≡ r
    some_inj p = cc

    stopped : err (e q) ≡ ok tt → ⊥
    stopped p = absurd (cc)

module _ (from_value : Json → Result Bytes Command) where
  command_sound :
      (step : Step) → validate_command from_value step ≡ ok tt → IsExecutable from_value step
  unfolding validate_command
  command_sound step h =
      let (cmd, parsed, checked) = attempt_ok _ _ tt h in
      let (valid, paged) = seq_ok _ _ tt checked in
      (
        cmd,
        map_err_ok _ _ cmd parsed,
        All-mono _ _ (args cmd) (λ arg q. not-false _ (forbid_ok _ _ q))
            (for_each_ok _ (args cmd) valid),
        forbid_ok _ _ paged,
      )

  -- What the checks of one step leave.
  pub step_sound :
      (roles : List Bytes) (step : Step)
      → validate_step from_value roles step ≡ ok tt
      → StepSound from_value roles step
  unfolding validate_step
  step_sound roles step h =
      let (roled, h1) = seq_ok _ _ tt h in
      let (declared, h2) = seq_ok _ _ tt h1 in
      let (not_hello, last) = seq_ok _ _ tt h2 in
      elim (Bool-cases (is_op (text "sleep") step.cmd)) [
        | inl y ↦ inl (
          y,
          sleep_sound step (
              subst
                (λ b. (if b then validate_sleep step else validate_command from_value step) ≡ ok tt)
                y last),
        )
        | inr n ↦
            let (role, bound) =
              is_none-false step.role (and_not-false _ _ (forbid_ok _ _ roled) n) in
            inr (
              n,
              forbid_ok _ _ not_hello,
              (
                role,
                bound,
                undeclared_none roles step.role role (Invalid.undeclared_role step.id) bound
                    declared,
                command_sound step (
                    subst
                      (λ b.
                        (if b then validate_sleep step else validate_command from_value step)
                        ≡ ok tt)
                      n last),
              ),
            )
      ]

-- What the checks of one run leave.
pub run_sound :
    (roles : List Bytes) (run : Run)
    → known_drivers run ≡ ok tt
    → validate_run roles run ≡ ok tt
    → RunSound roles run
unfolding validate_run
run_sound roles run known h =
    let (bound, declared) = seq_ok _ _ tt h in
    (
      All-mono _ _ roles
          (λ role e.
            let (d, found) = is_none-false (get role run.bind) e in
            (
              d,
              found,
              not-false _ (
                  All-In _ (role, d) run.bind (find_none _ _ run.bind known)
                    (get_In role run.bind d found)),
            ))
          (find_none _ _ roles bound),
      All-mono _ _ (keys run.bind) (λ k e. member_of-In roles k (not-false _ e))
          (find_none _ _ (keys run.bind) declared),
    )
