-- ===== src/Driver/Exec/Log.antt =====
-- The driver's main loop, crates/rust-driver/src/main.rs, and what its log says of the sessions.
use client_rust_test.Base.{
  ℕ, ◌≡◌, refl, ◌∙◌, ap, Option, none, some, List, [], ◌∷◌, ◌++◌, Bool, false, Bool-cases, inl, inr,
  Bytes, is_blank, if◌then◌else◌, text,
}
use client_rust_test.Base.Map.{get}
use client_rust_test.Base.Result.{Result, ok, err}
use client_rust_test.Proto.Observation.{driver_error_obs}
use client_rust_test.Proto.Command.{Command}
use client_rust_test.Driver.Probe.{Api, Build}
use client_rust_test.Driver.Exec.{Response, State, new_driver, execute}
use client_rust_test.Driver.Exec.Sessions.{live_after, execute-live_after}
use client_rust_test.Driver.Exec.Open.{is_some}

-- A line that was answered, with its command if it was one.
pub record Entry : Type 0 where
  pub command : Option Command
  pub response : Response

module _ (build : Build) (api : Api) (rounds : ℕ) (from_str : Bytes → Result Bytes Command) where
  abbrev pub respond :
      Result Bytes Command → State build api rounds → Entry × State build api rounds
  respond (ok cmd) s =
      let (resp, s') = execute build api rounds cmd s in
      (record { command = some cmd; response = resp }, s')
  respond (err e) s = (
    record {
      command = none;
      response = record {
        hello = none;
        observation = some (driver_error_obs (text "malformed command: " ++ e));
      };
    },
    s,
  )

  -- The loop over the lines; the log has an entry for each response that is written.
  unfoldable pub serve : List Bytes → State build api rounds → List Entry × State build api rounds
  serve [] s = ([], s)
  serve (line ∷ lines) s =
      let skipped = serve lines s in
      let (entry, s') = respond (from_str line) s in
      let (log, last) = serve lines s' in if is_blank line then skipped else (entry ∷ log, last)

  abbrev after_entry : Bytes → Option Command → Response → Bool → Bool
  after_entry k none resp was = was
  after_entry k (some cmd) resp was = live_after k cmd resp was

  -- Whether a log leaves the session `k` open, by the commands and the classes of the responses.
  abbrev pub open_in : Bytes → List Entry → Bool → Bool
  open_in k [] was = was
  open_in k (e ∷ log) was = open_in k log (after_entry k e.command e.response was)

  respond-after :
      (k : Bytes) (r : Result Bytes Command) (s : State build api rounds)
      → is_some (get k (respond r s).1.0.txns)
        ≡ after_entry k (respond r s).0.command (respond r s).0.response (is_some (get k s.0.txns))
  respond-after k (ok cmd) s = execute-live_after build api rounds k cmd s
  respond-after k (err e) s = refl

  serves :
      (k : Bytes) (lines : List Bytes) (s : State build api rounds)
      → is_some (get k (serve lines s).1.0.txns)
        ≡ open_in k (serve lines s).0 (is_some (get k s.0.txns))
  unfolding serve
  serves k [] s = refl
  serves k (line ∷ lines) s = elim (Bool-cases (is_blank line)) [
    | inl y ↦ rw y (serves k lines s)
    | inr n ↦ rw n (
        serves k lines (respond (from_str line) s).1
        ∙ ap (λ was. open_in k (serve lines (respond (from_str line) s).1).0 was)
            (respond-after k (from_str line) s))
  ]

  -- Whatever lines a fresh driver is given, it has a transaction for a session exactly if its log
  -- says that the session is open: the last `begin` of it that was answered `ok` came after every
  -- `commit`, `rollback` and `abandon` of it.
  pub serve-open_in :
      (k : Bytes) (lines : List Bytes) (w : api.World)
      → is_some (get k (serve lines (new_driver build api rounds, w)).1.0.txns)
        ≡ open_in k (serve lines (new_driver build api rounds, w)).0 false
  serve-open_in k lines w = serves k lines (new_driver build api rounds, w)
