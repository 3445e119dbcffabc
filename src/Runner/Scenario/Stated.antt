-- ===== src/Runner/Scenario/Stated.antt =====
-- Exactly which steps and runs `Scenario::validate` of crates/parity-runner/src/scenario.rs accepts.
use mathlib.Core.Path.{subst}
use client_rust_test.Base.{
  ◌≡◌, inl, inr, refl, ℕ, Option, none, some, List, Bool, true, false, not, ◌&&◌, ◌==◌, Bytes,
  bytes_eq, bytes_eq→eq, text, is_blank, if◌then◌else◌, All, All-mono, In, arith,
}
use client_rust_test.Base.Map.{keys}
use client_rust_test.Base.Result.{Result, ok}
use client_rust_test.Base.Check.{
  forbid_some, is_none, In-member_of, seq_ok, forbid_ok, find_none, pass_find, not-false, or_false,
}
use client_rust_test.Base.Accept.{pass_forbid, pass_seq, pass_for_each}
use client_rust_test.Proto.Json.{Json, Fields, as_object, size}
use client_rust_test.Proto.Command.{Command, args}
use client_rust_test.Runner.Scenario.{
  Run, Step, Invalid, is_op, op_of, undeclared, is_driver, validate_sleep, validate_command,
  validate_step, known_drivers, validate_run,
}
use client_rust_test.Runner.Scenario.Sound.{
  undeclared_none, StepSound, RunSound, IsSleep, IsExecutable,
}

-- A sleep has two fields, and says why; and a step's role is declared, a sleep's too.
abbrev pub StepStated : List Bytes → Step → Type 0
StepStated roles step =
    ((role : Bytes) → step.role ≡ some role → In role roles)
    × (is_op (text "sleep") step.cmd ≡ true
        → ((o : Fields) × (as_object step.cmd ≡ some o) × (size o ≡ 2))
          × ((why : Bytes) × (step.why ≡ some why) × (is_blank why ≡ false)))

-- Each binding, also one that a role's first hides, is of a driver that exists.
abbrev pub DriversKnown : Run → Type 0
DriversKnown run = All (λ (e : Bytes × Bytes). is_driver e.1 ≡ true) run.bind

validate_sleep-Stated :
    (step : Step)
    → validate_sleep step ≡ ok tt
    → ((o : Fields) × (as_object step.cmd ≡ some o) × (size o ≡ 2))
      × ((why : Bytes) × (step.why ≡ some why) × (is_blank why ≡ false))
unfolding validate_sleep
validate_sleep-Stated step h =
    let (form, reason) = seq_ok _ _ tt h in
    (
      two (as_object step.cmd) (or_false _ _ (forbid_ok _ _ form)).1,
      why step.why (forbid_ok _ _ reason),
    )
  where
    two :
        (f : Option Fields)
        → not ((elim f as (λ x. ℕ) [ none ↦ 0 | some o ↦ size o ]) == 2) ≡ false
        → (o : Fields) × (f ≡ some o) × (size o ≡ 2)
    two none q = absurd (cc)
    two (some o) q = (o, refl, ground arith)

    why :
        (w : Option Bytes)
        → (elim w as (λ x. Bool) [ none ↦ true | some w ↦ is_blank w ]) ≡ false
        → (t : Bytes) × (w ≡ some t) × (is_blank t ≡ false)
    why none q = absurd (cc)
    why (some t) q = (t, refl, q)

pass_sleep :
    (step : Step)
    → IsSleep step
    → ((o : Fields) × (as_object step.cmd ≡ some o) × (size o ≡ 2))
      × ((why : Bytes) × (step.why ≡ some why) × (is_blank why ≡ false))
    → validate_sleep step ≡ ok tt
unfolding validate_sleep
pass_sleep step (sleeps, (ms, timed)) ((o, object, two), (why, said, not_blank)) =
    rw (timed, object, two, said, not_blank) refl

sleep-hello : (cmd : Json) → is_op (text "sleep") cmd ≡ true → is_op (text "hello") cmd ≡ false
unfolding bytes_eq text
sleep-hello cmd h = other (op_of cmd) h
  where
    other :
        (o : Option Bytes)
        → (elim o as (λ x. Bool) [ none ↦ false | some o ↦ bytes_eq o (text "sleep") ]) ≡ true
        → (elim o as (λ x. Bool) [ none ↦ false | some o ↦ bytes_eq o (text "hello") ]) ≡ false
    other none q = refl
    other (some o) q = rw (bytes_eq→eq o (text "sleep") q) refl

pass_undeclared :
    (roles : List Bytes) (role : Option Bytes) (e : Bytes → Invalid)
    → ((r : Bytes) → role ≡ some r → In r roles)
    → forbid_some (undeclared roles role) e ≡ ok tt
pass_undeclared roles none e h = refl
pass_undeclared roles (some r) e h = rw (In-member_of roles r (h r refl)) refl

module _ (from_value : Json → Result Bytes Command) where
  pass_command :
      (step : Step) → IsExecutable from_value step → validate_command from_value step ≡ ok tt
  unfolding validate_command
  pass_command step (cmd, parsed, decoded, paged) = rw parsed (
      pass_seq _ _ tt
        (pass_for_each _ (args cmd) (All-mono _ _ (args cmd) (λ arg v. rw v refl) decoded))
        (pass_forbid _ _ paged))

  pub pass_step :
      (roles : List Bytes) (step : Step)
      → StepSound from_value roles step
      → StepStated roles step
      → validate_step from_value roles step ≡ ok tt
  unfolding validate_step
  pass_step roles step (inl (sleeps, timed)) (declared, stated) =
      rw (sleeps, sleep-hello step.cmd sleeps)
        (pass_seq _ _ tt (pass_forbid _ _ (and_false (is_none step.role))) (
          pass_seq _ _ tt (pass_undeclared roles step.role _ declared)
            (pass_sleep step (sleeps, timed) (stated sleeps))))
    where
      and_false : (b : Bool) → (b && false) ≡ false
      and_false b = ground arith
  pass_step roles step (inr (awake, greets, (role, bound, listed, runs))) (declared, stated) =
      rw (awake, greets, bound, In-member_of roles role listed) (pass_command step runs)

  pub step_stated :
      (roles : List Bytes) (step : Step)
      → validate_step from_value roles step ≡ ok tt
      → StepStated roles step
  unfolding validate_step
  step_stated roles step h =
      let (roled, h1) = seq_ok _ _ tt h in
      let (declared, h2) = seq_ok _ _ tt h1 in
      let (greets, last) = seq_ok _ _ tt h2 in
      (
        λ role e. undeclared_none roles step.role role (Invalid.undeclared_role step.id) e declared,
        λ sleeps. validate_sleep-Stated step (
            subst
              (λ b. (if b then validate_sleep step else validate_command from_value step) ≡ ok tt)
              sleeps last),
      )

pub known-DriversKnown : (run : Run) → known_drivers run ≡ ok tt → DriversKnown run
known-DriversKnown run h = All-mono _ _ run.bind (λ e q. not-false _ q) (find_none _ _ run.bind h)

pub pass_run :
    (roles : List Bytes) (run : Run)
    → RunSound roles run
    → DriversKnown run
    → (known_drivers run ≡ ok tt) × (validate_run roles run ≡ ok tt)
unfolding validate_run
pass_run roles run (bound, declared) known = (
  pass_find _ _ run.bind (All-mono _ _ run.bind (λ e q. rw q refl) known),
  pass_seq _ _ tt
      (pass_find _ _ roles (All-mono _ _ roles (λ role (d, found, q). rw found refl) bound))
      (pass_find _ _ (keys run.bind)
        (All-mono _ _ (keys run.bind) (λ k m. rw (In-member_of roles k m) refl) declared)),
)
