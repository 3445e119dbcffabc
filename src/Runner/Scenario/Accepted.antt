-- ===== src/Runner/Scenario/Accepted.antt =====
-- What a scenario that `validate` accepts promises to the runner and to the comparison.
use client_rust_test.Base.{
  ◌≡◌, ◌↔◌, ◌⊎◌, inl, inr, refl, ap, sym, ◌∙◌, Option, none, some, List, [], ◌∷◌, map, Bool, true,
  false, not, ◌&&◌, ◌||◌, Bytes, bytes_eq, bytes_eq→eq, text, All, All-In, All-mono, In, In-keep,
  arith,
}
use mathlib.Core.Bool.{true≢false}
use client_rust_test.Base.Map.{get, In-dedup-sort, In-flat_map}
use client_rust_test.Base.Result.{Result, ok}
use client_rust_test.Base.Check.{
  ◌>>>◌, attempt, forbid, each_new, seq_ok, attempt_ok, forbid_ok, ok_or_ok, for_each_ok, find_none,
  find-In, Distinct, all-false, each_new_ok, not-false,
}
use client_rust_test.Proto.Json.{Json}
use client_rust_test.Proto.Project
use client_rust_test.Proto.Command.{Command}
use client_rust_test.Runner.Scenario.{
  Run, Step, Scenario, Invalid, is_plain_name, is_op, active_roles, find_run, validate_bound,
  validate_compare, validate, driver_eq, oracle_first, listed, known_drivers, validate_run,
}
use client_rust_test.Runner.Scenario.Sound.{StepSound, RunSound, step_sound, run_sound}

-- Some step executes a command in the role.
abbrev pub Executes : Scenario → Bytes → Type 0
Executes s role =
    (step : Step) × In step s.steps
    × (is_op (text "sleep") step.cmd ≡ false)
    × (step.role ≡ some role)

-- The first run is the oracle's: a role goes to the same driver in both, or from `go` to `rust`.
abbrev pub Oriented : Run → Run → Bytes → Type 0
Oriented a b role =
    (get role a.bind ≡ get role b.bind)
    ⊎ ((get role a.bind ≡ some (text "go")) × (get role b.bind ≡ some (text "rust")))

-- The two runs are defined, and some executing role tells them apart.
abbrev pub Contrasts : Scenario → Type 0
Contrasts s =
    (a : Run) × (b : Run) × In a s.runs
    × In b s.runs
    × (s.compare ≡ a.name ∷ b.name ∷ [])
    × ((role : Bytes) → Executes s role → Oriented a b role)
    × ((role : Bytes) × Executes s role
        × (get role a.bind ≡ some (text "go"))
        × (get role b.bind ≡ some (text "rust")))

-- The paths to compare besides the default ones are known.
abbrev pub KnownPaths : Scenario → Type 0
KnownPaths s = Project.validate (record { also_compare = s.also_compare }) ≡ true

module _ (from_value : Json → Result Bytes Command) where
  abbrev pub IsSound : Scenario → Type 0
  IsSound s =
      (is_plain_name s.name ≡ true)
      × All (λ (r : Run). is_plain_name r.name ≡ true) s.runs
      × Distinct (map (λ (r : Run). r.name) s.runs)
      × Distinct (map (λ (step : Step). step.id) s.steps)
      × All (StepSound from_value s.roles) s.steps
      × All (RunSound s.roles) s.runs
      × KnownPaths s
      × Contrasts s

In-listed : (r : Bytes) (o : Option Bytes) → In r (listed o) ↔ (o ≡ some r)
In-listed r none = (λ m. absurd m, λ e. absurd (cc))
In-listed r (some q) = (λ m. elim m [ inl e ↦ cc | inr t ↦ absurd t ], λ e. inl (cc))

not-true : (b : Bool) → not b ≡ true → b ≡ false
not-true b h = ground arith

pub active-Executes :
    (s : Scenario) (role : Bytes) → In role (active_roles s.steps) ↔ Executes s role
unfolding active_roles
active-Executes s role = (
  λ m.
      let (step, kept, here) = (In-flat_map _ role _).0 ((In-dedup-sort role _).0 m) in
      let (there, awake) = (In-keep _ step s.steps).0 kept in
      (step, there, not-true _ awake, (In-listed role step.role).0 here),
  λ (step, there, awake, e). (In-dedup-sort role _).1 (
      (In-flat_map _ role _).1
        (step, (In-keep _ step s.steps).1 (there, ap not awake), (In-listed role step.role).1 e)),
)

driver_eq→eq : (a b : Option Bytes) → driver_eq a b ≡ true → a ≡ b
driver_eq→eq none none h = refl
driver_eq→eq none (some b) h = absurd (cc)
driver_eq→eq (some a) none h = absurd (cc)
driver_eq→eq (some a) (some b) h = cc (bytes_eq→eq a b h)

or_cases : (a b d : Bool) → (a || (b && d)) ≡ true → (a ≡ true) ⊎ ((b ≡ true) × (d ≡ true))
or_cases true b d h = inl refl
or_cases false b d h = inr (ground arith, ground arith)

way :
    (a b : Run) (role : Bytes)
    → oracle_first a.bind b.bind role ≡ true
    → (driver_eq (get role a.bind) (get role b.bind) ≡ true)
      ⊎ ((get role a.bind ≡ some (text "go")) × (get role b.bind ≡ some (text "rust")))
way a b role h =
    let from = driver_eq (get role a.bind) (some (text "go")) in
    let to = driver_eq (get role b.bind) (some (text "rust")) in
    elim (or_cases (driver_eq (get role a.bind) (get role b.bind)) from to h) [
      | inl same ↦ inl same
      | inr (f, t) ↦ inr (driver_eq→eq (get role a.bind) _ f, driver_eq→eq (get role b.bind) _ t)
    ]

oriented : (a b : Run) (role : Bytes) → oracle_first a.bind b.bind role ≡ true → Oriented a b role
oriented a b role h = elim (way a b role h) [
  | inl same ↦ inl (driver_eq→eq _ _ same)
  | inr both ↦ inr both
]

-- A role that the runs bind differently is bound to `go` in the first and to `rust` in the second.
opposed :
    (a b : Run) (role : Bytes)
    → driver_eq (get role a.bind) (get role b.bind) ≡ false
    → oracle_first a.bind b.bind role ≡ true
    → (get role a.bind ≡ some (text "go")) × (get role b.bind ≡ some (text "rust"))
opposed a b role differs h = elim (way a b role h) [
  | inl same ↦ absurd (true≢false (sym same ∙ differs))
  | inr both ↦ both
]

runs_sound :
    (roles : List Bytes) (runs : List Run)
    → All (λ r. known_drivers r ≡ ok tt) runs
    → All (λ r. validate_run roles r ≡ ok tt) runs
    → All (RunSound roles) runs
runs_sound roles [] known h = tt
runs_sound roles (r ∷ runs) known h =
    (run_sound roles r known.0 h.0, runs_sound roles runs known.1 h.1)

module _ (from_value : Json → Result Bytes Command) where
  -- What the checks on the two runs compared leave.
  bound_sound :
      (s : Scenario) (a b : Run)
      → In a s.runs
      → In b s.runs
      → s.compare ≡ a.name ∷ b.name ∷ []
      → validate_bound from_value s a.name b.name a.bind b.bind ≡ ok tt
      → Distinct (map (λ (step : Step). step.id) s.steps)
        × All (StepSound from_value s.roles) s.steps
        × All (RunSound s.roles) s.runs
        × KnownPaths s
        × Contrasts s
  unfolding validate_bound
  bound_sound s a b m_a m_b pair h =
      let (some_command, h1) = seq_ok _ _ tt h in
      let (known, h2) = seq_ok _ _ tt h1 in
      let (contrast, h3) = seq_ok _ _ tt h2 in
      let (paths, h4) = seq_ok _ _ tt h3 in
      let (steps, h5) = seq_ok _ _ tt h4 in
      let (runs, direction) = seq_ok _ _ tt h5 in
      let (good, different, apart) = each_new_ok _ _ _ [] s.steps steps in
      let forward = find_none _ _ (active_roles s.steps) direction in
      let (role, active, differs) = all-false _ (active_roles s.steps) (forbid_ok _ _ contrast) in
      (
        different,
        All-mono _ _ s.steps (step_sound from_value s.roles) good,
        runs_sound s.roles s.runs (for_each_ok _ s.runs known) (for_each_ok _ s.runs runs),
        not-false _ (forbid_ok _ _ paths),
        (
          a,
          b,
          m_a,
          m_b,
          pair,
          λ r e. oriented a b r (not-false _ (All-In _ r _ forward ((active-Executes s r).1 e))),
          (
            role,
            (active-Executes s role).0 active,
            (opposed a b role differs (not-false _ (All-In _ role _ forward active))).0,
            (opposed a b role differs (not-false _ (All-In _ role _ forward active))).1,
          ),
        ),
      )

  named :
      (s : Scenario) (want : Bytes) (r : Run)
      → find_run s want ≡ ok r
      → In r s.runs × (r.name ≡ want)
  unfolding find_run
  named s want r h =
      let (m, e) = find-In _ s.runs r (ok_or_ok _ _ r h) in (m, bytes_eq→eq r.name want e)

  compare_sound :
      (s : Scenario) (names : List Bytes)
      → s.compare ≡ names
      → validate_compare from_value s names ≡ ok tt
      → Distinct (map (λ (r : Run). r.name) s.runs)
        × Distinct (map (λ (step : Step). step.id) s.steps)
        × All (StepSound from_value s.roles) s.steps
        × All (RunSound s.roles) s.runs
        × KnownPaths s
        × Contrasts s
  compare_sound s [] e h = absurd (cc)
  compare_sound s (a ∷ []) e h = absurd (cc)
  compare_sound s (a ∷ b ∷ c ∷ names) e h = absurd (cc)
  compare_sound s (a ∷ b ∷ []) e h =
      let with_a : Run → Run → Result Invalid Unit =
        λ run_a run_b. validate_bound from_value s a b run_a.bind run_b.bind in
      let found : Result Invalid Unit =
        attempt (find_run s a) (λ run_a. attempt (find_run s b) (λ run_b. with_a run_a run_b)) in
      let named_once : Result Invalid Unit =
        each_new (λ (r : Run). r.name) (λ (r : Run). Invalid.duplicate_run r.name) (λ r. ok tt) []
          s.runs in
      let (different, h1) =
        seq_ok (forbid (bytes_eq a b) (Invalid.same_run a)) (named_once >>> found) tt h in
      let (names, h2) = seq_ok named_once found tt h1 in
      let (run_a, found_a, h3) =
        attempt_ok (find_run s a) (λ r. attempt (find_run s b) (λ run_b. with_a r run_b)) tt h2 in
      let (run_b, found_b, h4) = attempt_ok (find_run s b) (λ r. with_a run_a r) tt h3 in
      let (m_a, name_a) = named s a run_a found_a in
      let (m_b, name_b) = named s b run_b found_b in
      let rest : validate_bound from_value s run_a.name run_b.name run_a.bind run_b.bind ≡ ok tt =
        rw (name_a, name_b) h4 in
      let pair : s.compare ≡ run_a.name ∷ run_b.name ∷ [] = rw (name_a, name_b) e in
      let (good, apart, fresh) =
        each_new_ok (λ (r : Run). r.name) (λ (r : Run). Invalid.duplicate_run r.name) (λ r. ok tt)
          [] s.runs names in
      let (ids, steps, runs, paths, contrast) = bound_sound s run_a run_b m_a m_b pair rest in
      (apart, ids, steps, runs, paths, contrast)

  -- A scenario that `validate` accepts: its name and those of its runs are plain; no two runs share
  -- a name and no two steps an id; each step is a sleep with a time, or a command of a declared role
  -- that parses, is not `hello`, and has arguments that decode and a batch size that is not 0; each
  -- run binds every declared role to `rust` or `go` and no other role; the extra paths to compare are
  -- known; and `compare` names two of the runs, which bind each role that executes a command alike or to `go` in the first and `rust`
  -- in the second, the latter for at least one such role.
  pub validate-IsSound : (s : Scenario) → validate from_value s ≡ ok tt → IsSound from_value s
  unfolding validate
  validate-IsSound s h =
      let (schema, h1) = seq_ok _ _ tt h in
      let (name, h2) = seq_ok _ _ tt h1 in
      let (run_names, h3) = seq_ok _ _ tt h2 in
      let (apart, ids, steps, runs, paths, contrast) = compare_sound s s.compare refl h3 in
      (
        not-false _ (forbid_ok _ _ name),
        All-mono _ _ s.runs (λ r e. not-false _ e) (find_none _ _ s.runs run_names),
        apart,
        ids,
        steps,
        runs,
        paths,
        contrast,
      )
