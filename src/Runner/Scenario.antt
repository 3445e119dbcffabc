-- ===== src/Runner/Scenario.antt =====
-- Scenarios, crates/parity-runner/src/scenario.rs: their data and the checks that a scenario passes
-- before anything runs. An error is the constructor that names its message, with what it quotes.
pub mod Plain
pub mod Sound
pub mod Accepted
pub mod Stated
pub mod Exact
use client_rust_test.Base.{
  ℕ, Option, none, some, List, [], ◌∷◌, Bool, true, false, not, ◌&&◌, ◌||◌, ◌==◌, ltb, leb, Bytes,
  bytes_eq, text, all, length, map, keep, is_blank, if◌then◌else◌,
}
use client_rust_test.Base.Map.{Map, get, keys, sort, dedup, flat_map}
use client_rust_test.Base.Result.{Result, ok, err}
use client_rust_test.Base.Check.{
  ◌>>>◌, attempt, forbid, forbid_some, ok_or, is_none, map_err, for_each, find, member_of, each_new,
}
use client_rust_test.Proto.Json.{Json, member, as_str, as_u64, as_object, size}
use client_rust_test.Proto.Class.{tag}
use client_rust_test.Proto.Observation.{Observation}
use client_rust_test.Proto.Project.{Spec}
use client_rust_test.Proto.Project
use client_rust_test.Proto.Command.{Command, KeyArg, args}
use client_rust_test.Proto.Command

abbrev scenario_schema : Bytes
scenario_schema = text "parity-scenario/v1"

pub record Run : Type 0 where
  pub name : Bytes
  -- From role to driver.
  pub bind : Map Bytes

pub record Assert : Type 0 where
  pub lock_count : Option ℕ
  pub class : Option Bytes

pub record Step : Type 0 where
  pub id : Bytes
  pub role : Option Bytes
  pub cmd : Json
  pub assert : Option Assert
  pub why : Option Bytes

pub record Scenario : Type 0 where
  pub schema : Bytes
  pub name : Bytes
  pub doc : Bytes
  pub gap : Bytes
  pub roles : List Bytes
  pub runs : List Run
  pub compare : List Bytes
  pub also_compare : List Bytes
  pub steps : List Step

-- Why a precondition failed.
pub data Failure : Type 0 where
  locks : (expected observed : ℕ) → Failure
  class : (expected observed : Bytes) → Failure

unfoldable pub check_class : Option Bytes → Observation → Option Failure
check_class none obs = none
check_class (some want) obs =
    if not (bytes_eq (tag obs.class) want) then some (Failure.class want (tag obs.class)) else none

unfoldable pub check_count : Option ℕ → Option Failure → Observation → Option Failure
check_count none next obs = next
check_count (some want) next obs =
    if not (length obs.locks == want) then some (Failure.locks want (length obs.locks)) else next

-- `Assert::check`
unfoldable pub check : Assert → Observation → Option Failure
unfolding check_class check_count
check a obs = check_count a.lock_count (check_class a.class obs) obs

pub data Invalid : Type 0 where
  schema scenario_name run_name : Bytes → Invalid
  not_two_runs : List Bytes → Invalid
  same_run duplicate_run undefined_run : Bytes → Invalid
  no_command : Invalid
  unknown_driver : (run role driver : Bytes) → Invalid
  no_contrast : (a b : Bytes) (active : List Bytes) → Invalid
  unknown_path : List Bytes → Invalid
  duplicate_step no_role : Bytes → Invalid
  undeclared_role : (step role : Bytes) → Invalid
  handshake sleep_form sleep_reason : Bytes → Invalid
  bad_command : (step message : Bytes) → Invalid
  bad_argument no_batch : Bytes → Invalid
  unbound_role undeclared_binding : (run role : Bytes) → Invalid
  wrong_way : (role a b : Bytes) → Invalid

abbrev pub plain_byte : ℕ → Bool
plain_byte c = (leb 97 c && leb c 122) || ((leb 48 c && leb c 57) || (c == 45))

unfoldable pub is_plain_name : Bytes → Bool
is_plain_name [] = false
is_plain_name (c ∷ cs) = not (c == 45) && (plain_byte c && all plain_byte cs)

-- `cmd.get("op").and_then(|o| o.as_str())`
unfoldable pub op_of : Json → Option Bytes
op_of cmd = elim (member (text "op") cmd) [ none ↦ none | some o ↦ as_str o ]

abbrev pub is_op : Bytes → Json → Bool
is_op name cmd = elim (op_of cmd) [ none ↦ false | some o ↦ bytes_eq o name ]

-- `cmd.get("ms").and_then(|m| m.as_u64())`
unfoldable pub ms_of : Json → Option ℕ
ms_of cmd = elim (member (text "ms") cmd) [ none ↦ none | some m ↦ as_u64 m ]

abbrev pub listed : Option Bytes → List Bytes
listed none = []
listed (some r) = r ∷ []

-- The roles that execute a command, as a set.
unfoldable pub active_roles : List Step → List Bytes
active_roles steps = dedup (
    sort (
      flat_map (λ (s : Step). listed s.role)
        (keep (λ (s : Step). not (is_op (text "sleep") s.cmd)) steps)))

abbrev is_empty : List Bytes → Bool
is_empty [] = true
is_empty (x ∷ xs) = false

abbrev pub driver_eq : Option Bytes → Option Bytes → Bool
driver_eq none none = true
driver_eq none (some b) = false
driver_eq (some a) none = false
driver_eq (some a) (some b) = bytes_eq a b

abbrev pub is_driver : Bytes → Bool
is_driver d = bytes_eq d (text "rust") || bytes_eq d (text "go")

-- The `sleep` of the runner
unfoldable pub validate_sleep : Step → Result Invalid Unit
validate_sleep step =
    forbid
      (is_none (ms_of step.cmd)
        || not (elim (as_object step.cmd) [ none ↦ 0 | some o ↦ size o ] == 2))
      (Invalid.sleep_form step.id)
    >>> forbid (elim step.why [ none ↦ true | some w ↦ is_blank w ]) (Invalid.sleep_reason step.id)

abbrev pub is_empty_batch : Command → Bool
is_empty_batch (Command.scan_locks client start end batch_size) = batch_size == 0
is_empty_batch _ = false

abbrev pub undeclared : List Bytes → Option Bytes → Option Bytes
undeclared roles none = none
undeclared roles (some role) = if not (member_of roles role) then some role else none

-- The check of one run against the declared roles
unfoldable pub validate_run : List Bytes → Run → Result Invalid Unit
validate_run roles run =
    forbid_some (find (λ role. is_none (get role run.bind)) roles) (Invalid.unbound_role run.name)
    >>> forbid_some (find (λ bound. not (member_of roles bound)) (keys run.bind))
        (Invalid.undeclared_binding run.name)

unfoldable pub find_run : Scenario → Bytes → Result Invalid Run
find_run s want =
    ok_or (find (λ (r : Run). bytes_eq r.name want) s.runs) (Invalid.undefined_run want)

abbrev pub oracle_first : Map Bytes → Map Bytes → Bytes → Bool
oracle_first bind_a bind_b r =
    driver_eq (get r bind_a) (get r bind_b)
    || (driver_eq (get r bind_a) (some (text "go"))
        && driver_eq (get r bind_b) (some (text "rust")))

abbrev pub known_drivers : Run → Result Invalid Unit
known_drivers run =
    forbid_some (find (λ (e : Bytes × Bytes). not (is_driver e.1)) run.bind)
      (λ e. Invalid.unknown_driver run.name e.0 e.1)

-- `serde_json::from_value` of a command is a parameter.
module _ (from_value : Json → Result Bytes Command) where
  unfoldable pub validate_command : Step → Result Invalid Unit
  validate_command step =
      attempt (map_err (Invalid.bad_command step.id) (from_value step.cmd)) (λ cmd.
        for_each (λ arg. forbid (not (Command.validate arg)) (Invalid.bad_argument step.id))
          (args cmd)
        >>> forbid (is_empty_batch cmd) (Invalid.no_batch step.id))

  -- The body of the loop over the steps, after the check of the id
  unfoldable pub validate_step : List Bytes → Step → Result Invalid Unit
  unfolding validate_sleep validate_command
  validate_step roles step =
      forbid (is_none step.role && not (is_op (text "sleep") step.cmd)) (Invalid.no_role step.id)
      >>> forbid_some (undeclared roles step.role) (Invalid.undeclared_role step.id)
      >>> forbid (is_op (text "hello") step.cmd) (Invalid.handshake step.id)
      >>> (if is_op (text "sleep") step.cmd then validate_sleep step else validate_command step)

  -- The checks from the active roles on
  unfoldable pub validate_bound :
      Scenario → Bytes → Bytes → Map Bytes → Map Bytes → Result Invalid Unit
  unfolding validate_step validate_run active_roles
  validate_bound s a b bind_a bind_b =
      let active = active_roles s.steps in
      forbid (is_empty active) Invalid.no_command
      >>> for_each known_drivers s.runs
      >>> forbid (all (λ r. driver_eq (get r bind_a) (get r bind_b)) active)
          (Invalid.no_contrast a b active)
      >>> forbid (not (Project.validate (record { also_compare = s.also_compare })))
          (Invalid.unknown_path s.also_compare)
      >>> each_new (λ (step : Step). step.id) (λ (step : Step). Invalid.duplicate_step step.id)
          (validate_step s.roles) [] s.steps
      >>> for_each (validate_run s.roles) s.runs
      >>> forbid_some (find (λ r. not (oracle_first bind_a bind_b r)) active)
          (λ r. Invalid.wrong_way r a b)

  abbrev pub validate_compare : Scenario → List Bytes → Result Invalid Unit
  validate_compare s (a ∷ b ∷ []) =
      forbid (bytes_eq a b) (Invalid.same_run a)
      >>> each_new (λ (r : Run). r.name) (λ (r : Run). Invalid.duplicate_run r.name) (λ r. ok tt) []
          s.runs
      >>> attempt (find_run s a)
          (λ run_a. attempt (find_run s b) (λ run_b. validate_bound s a b run_a.bind run_b.bind))
  validate_compare s names = err (Invalid.not_two_runs names)

  -- `Scenario::validate`
  unfoldable pub validate : Scenario → Result Invalid Unit
  unfolding validate_bound find_run
  validate s =
      forbid (not (bytes_eq s.schema scenario_schema)) (Invalid.schema s.schema)
      >>> forbid (not (is_plain_name s.name)) (Invalid.scenario_name s.name)
      >>> forbid_some (find (λ (r : Run). not (is_plain_name r.name)) s.runs)
          (λ (r : Run). Invalid.run_name r.name)
      >>> validate_compare s s.compare
