-- ===== src/Runner/Process.antt =====
-- A driver's process and the conversation with it, crates/parity-runner/src/driver.rs. The processes,
-- the pipes, the clock and the reading of commands are the environment's; an error is the constructor
-- that names its message.
use client_rust_test.Base.{ℕ, Option, Bytes, bytes_eq, text, not}
use client_rust_test.Base.Result.{Result, Call, ◌>>=◌, ◌>>◌, pure, lift}
use client_rust_test.Base.Check.{ok_or, forbid, map_err}
use client_rust_test.Proto.Json.{Json}
use client_rust_test.Proto.Command.{Command}
use client_rust_test.Proto.Observation.{Observation}
use client_rust_test.Proto.Trace.{Hello}

abbrev pub protocol_version : Bytes
protocol_version = text "parity-cmd/v1"

pub record Response : Type 0 where
  pub hello : Option Hello
  pub observation : Option Observation

pub data RunnerError : Type 0 where
  -- The process: it did not start, or a message to it or from it was lost or unreadable.
  process : (name message : Bytes) → RunnerError
  no_hello : Bytes → RunnerError
  drifted : (name theirs : Bytes) → RunnerError
  unbound_role : (run role : Bytes) → RunnerError
  unknown_driver : Bytes → RunnerError
  -- The panic of an index that no entry has.
  no_entry : Bytes → RunnerError
  prefix_not_utf8 : RunnerError
  no_ms no_role : Bytes → RunnerError
  no_driver : (step role : Bytes) → RunnerError
  bad_command : (step message : Bytes) → RunnerError
  no_observation : Bytes → RunnerError

pub record Environment : Type 1 where
  pub World : Type 0
  pub Binary : Type 0
  pub Process : Type 0
  -- `serde_json::from_value`
  pub from_value : Json → Result Bytes Command
  -- The child process of a binary, with its pipes
  pub start : Binary → Call World Bytes Process
  -- One line to the process and one back
  pub exchange : Process → Command → Call World Bytes Response
  pub sleep : ℕ → World → World
  -- The clock, in nanoseconds
  pub nanos : World → ℕ × World

-- A call whose error is renamed.
abbrev pub relabel : {W E F A : Type 0} → (E → F) → Call W E A → Call W F A
relabel f m w = let (r, w') = m w in (map_err f r, w')

module _ (env : Environment) where
  pub record Driver : Type 0 where
    pub name : Bytes
    pub hello : Hello
    pub child : env.Process

  unfoldable pub send_to : Bytes → env.Process → Command → Call env.World RunnerError Response
  send_to name child cmd = relabel (RunnerError.process name) (env.exchange child cmd)

  -- `Driver::send`
  unfoldable pub send : Driver → Command → Call env.World RunnerError Response
  unfolding send_to
  send d cmd = send_to d.name d.child cmd

  -- `Driver::spawn`
  unfoldable pub spawn : Bytes → env.Binary → Call env.World RunnerError Driver
  unfolding send_to
  spawn name binary = do
    child ← relabel (RunnerError.process name) (env.start binary)
    resp ← send_to name child Command.hello
    hello ← lift (ok_or resp.hello (RunnerError.no_hello name))
    lift (
        forbid (not (bytes_eq hello.protocol protocol_version))
          (RunnerError.drifted name hello.protocol))
    pure (record { name = name; hello = hello; child = child })
