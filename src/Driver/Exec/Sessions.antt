-- ===== src/Driver/Exec/Sessions.antt =====
-- Which sessions the driver has, after one command.
use client_rust_test.Base.{
  ℕ, ◌≡◌, ◌⊎◌, inl, inr, refl, ◌∙◌, ap, Option, none, some, Bool, true, false, ◌||◌, if◌then◌else◌,
  Bool-cases, Option-cases, Bytes, bytes_eq, bytes_eq→eq,
}
use mathlib.Core.Path.{subst}
use client_rust_test.Base.Map.{get, insert, remove}
use client_rust_test.Base.Result.{Result, Result-cases, ◌>>=◌, Keeps, bind-Keeps, bind_step}
use client_rust_test.Proto.Observation.{Observation, new_obs, ok_obs, driver_error_obs}
use client_rust_test.Proto.Command.{Command, TxnMode}
use client_rust_test.Driver.Probe.{Api, Build}
use client_rust_test.Driver.Exec.Unknown.{Unknown, execute-Unknown}
use client_rust_test.Driver.Exec.Keeps.{KeepsSessions, Txns, arm-Keeps}
use client_rust_test.Driver.Exec.{
  Driver, Response, State, Stop, Arm, arm, take_session, mode_options, client_call, classified,
  execute,
}
use client_rust_test.Driver.Mapping.Failed.{is_ok, classify-is_ok}
use client_rust_test.Driver.Exec.Open.{is_some, opened_after, unopened, closed}

-- Whether a response reports a success.
abbrev pub answers_ok : Option Observation → Bool
answers_ok none = false
answers_ok (some obs) = is_ok obs.class

-- What a command and its response say of the session `k`, open or not before it: a `begin` of it
-- that succeeds opens it, a `commit`, `rollback` or `abandon` of it closes it, whatever the answer.
abbrev pub live_after : Bytes → Command → Response → Bool → Bool
live_after k (Command.begin session client mode) resp was =
    if bytes_eq session k then was || answers_ok resp.observation else was
live_after k (Command.commit session) resp was = if bytes_eq session k then false else was
live_after k (Command.rollback session) resp was = if bytes_eq session k then false else was
live_after k (Command.abandon session) resp was = if bytes_eq session k then false else was
live_after k _ resp was = was

module _ (build : Build) (api : Api) (rounds : ℕ) where
  abbrev pub has : Bytes → State build api rounds → Bool
  has k s = is_some (get k s.0.txns)

  abbrev pub after : Command → State build api rounds → State build api rounds
  after cmd s = (execute build api rounds cmd s).1

  abbrev pub answer : Command → State build api rounds → Response
  answer cmd s = (execute build api rounds cmd s).0

  -- An arm that never changes the sessions.
  abbrev Same : {A : Type 0} → Arm build api rounds A → Type 0
  Same m = (s : State build api rounds) → (m s).1.0.txns ≡ s.0.txns

  Begins : Bytes → State build api rounds → Response × State build api rounds → Type 0
  Begins session s (resp, s') =
      ((answers_ok resp.observation ≡ false) × (s'.0.txns ≡ s.0.txns))
      ⊎ ((txn : api.Transaction) × (answers_ok resp.observation ≡ true)
          × (s'.0.txns ≡ insert session txn s.0.txns))

  begin-Begins :
      (session client : Bytes) (mode : TxnMode) (s : State build api rounds)
      → Begins session s (execute build api rounds (Command.begin session client mode) s)
  unfolding execute arm Begins ok_obs new_obs driver_error_obs
  begin-Begins session client mode (d, w) = elim (Option-cases (get client d.clients)) [
    | inl e ↦ rw e (inl (refl, refl))
    | inr (c, e) ↦
        rw e
          (elim (Result-cases (api.begin_with_options c (mode_options build api rounds mode) w).0) [
            | inl (txn, q) ↦ rw q (inr (txn, refl, refl))
            | inr (x, q) ↦ rw q (inl (classify-is_ok _ _ x, refl))
          ])
  ]

  begun :
      (k session : Bytes) (s : State build api rounds) (r : Response × State build api rounds)
      → Begins session s r
      → has k r.1 ≡ (if bytes_eq session k then has k s || answers_ok r.0.observation else has k s)
  unfolding Begins
  begun k session s (resp, s') (inl (failed, same)) =
      ap (λ m. is_some (get k m)) same ∙ unopened k session (has k s) _ failed
  begun k session s (resp, s') (inr (txn, opened, same)) =
      ap (λ m. is_some (get k m)) same ∙ opened_after k session txn s.0.txns _ opened

  Closes : Bytes → State build api rounds → State build api rounds → Type 0
  Closes session s s' =
      ((get session s.0.txns ≡ none) × (s'.0.txns ≡ s.0.txns))
      ⊎ (s'.0.txns ≡ remove session s.0.txns)

  untouched :
      (cmd : Command) (d : Driver build api rounds) (w : api.World)
      → Unknown build api rounds cmd d
      → (after cmd (d, w)).0.txns ≡ d.txns
  untouched cmd d w h =
      ap (λ (r : Response × State build api rounds). r.1.0.txns)
        (execute-Unknown build api rounds cmd d w h).1

  ended :
      (k session : Bytes) (s s' : State build api rounds)
      → Closes session s s'
      → has k s' ≡ (if bytes_eq session k then false else has k s)
  unfolding Closes
  ended k session s s' (inr gone) = ap (λ m. is_some (get k m)) gone ∙ closed k session s.0.txns
  ended k session s s' (inl (none_there, same)) =
      ap (λ m. is_some (get k m)) same ∙ elim (Bool-cases (bytes_eq session k)) [
        | inl y ↦
            rw y
              (ap is_some (subst (λ j. get j s.0.txns ≡ none) (bytes_eq→eq session k y) none_there))
        | inr n ↦ rw n refl
      ]

  taken :
      (session : Bytes) (d : Driver build api rounds) (w : api.World) (txn : api.Transaction)
      (rest : api.Transaction → Arm build api rounds Observation)
      → get session d.txns ≡ some txn
      → ((t : api.Transaction) → Keeps (Txns build api rounds (remove session d.txns)) (rest t))
      → ((take_session build api rounds session >>= rest) (d, w)).1.0.txns ≡ remove session d.txns
  unfolding take_session
  taken session d w txn rest e keeps =
      ap (λ (r : Result Stop Observation × State build api rounds). r.1.0.txns)
        (bind_step (take_session build api rounds session) rest (d, w) txn (rw e refl))
      ∙ keeps txn (take_session build api rounds session (d, w)).1 (rw e refl)

  commit-Closes :
      (session : Bytes) (s : State build api rounds)
      → Closes session s (after (Command.commit session) s)
  unfolding execute arm Closes
  commit-Closes session (d, w) = elim (Option-cases (get session d.txns)) [
    | inl e ↦ inl (e, untouched (Command.commit session) d w e)
    | inr (txn, e) ↦ inr (
        taken session d w txn _ e (λ t.
          bind-Keeps (Txns build api rounds (remove session d.txns))
            (client_call build api rounds (classified build api rounds) (api.commit t)) _ (λ s e. e)
            (λ ts s h. h)))
  ]

  rollback-Closes :
      (session : Bytes) (s : State build api rounds)
      → Closes session s (after (Command.rollback session) s)
  unfolding execute arm Closes
  rollback-Closes session (d, w) = elim (Option-cases (get session d.txns)) [
    | inl e ↦ inl (e, untouched (Command.rollback session) d w e)
    | inr (txn, e) ↦ inr (
        taken session d w txn _ e (λ t.
          bind-Keeps (Txns build api rounds (remove session d.txns))
            (client_call build api rounds (classified build api rounds) (api.rollback t)) _
            (λ s e. e) (λ u s h. h)))
  ]

  keeping :
      (k : Bytes) (cmd : Command) (s : State build api rounds)
      → KeepsSessions build api rounds cmd
      → has k (arm build api rounds cmd s).1 ≡ has k s
  keeping k cmd s h = ap (λ m. is_some (get k m)) (arm-Keeps build api rounds s.0.txns cmd h s refl)

  abandoned :
      (k session : Bytes) (s : State build api rounds)
      → has k (after (Command.abandon session) s) ≡ (if bytes_eq session k then false else has k s)
  unfolding execute arm
  abandoned k session s = closed k session s.0.txns

  -- The session `k` is open after a command as its response says.
  pub execute-live_after :
      (k : Bytes) (cmd : Command) (s : State build api rounds)
      → has k (after cmd s) ≡ live_after k cmd (answer cmd s) (has k s)
  unfolding execute
  execute-live_after k (Command.begin session client mode) s =
      begun k session s (execute build api rounds (Command.begin session client mode) s)
        (begin-Begins session client mode s)
  execute-live_after k (Command.commit session) s = ended k session s _ (commit-Closes session s)
  execute-live_after k (Command.rollback session) s =
      ended k session s _ (rollback-Closes session s)
  execute-live_after k (Command.abandon session) s = abandoned k session s
  execute-live_after k Command.hello s = refl
  execute-live_after k (Command.open_client name) s = keeping k (Command.open_client name) s tt
  execute-live_after k (Command.close_client name) s = keeping k (Command.close_client name) s tt
  execute-live_after k (Command.open_raw_client name) s =
      keeping k (Command.open_raw_client name) s tt
  execute-live_after k (Command.put session key value) s =
      keeping k (Command.put session key value) s tt
  execute-live_after k (Command.get session key) s = keeping k (Command.get session key) s tt
  execute-live_after k (Command.snapshot_get client key) s =
      keeping k (Command.snapshot_get client key) s tt
  execute-live_after k (Command.scan_locks client start end batch_size) s =
      keeping k (Command.scan_locks client start end batch_size) s tt
  execute-live_after k (Command.prewrite_only session primary keys) s =
      keeping k (Command.prewrite_only session primary keys) s tt
  execute-live_after k (Command.raw_put client key value) s =
      keeping k (Command.raw_put client key value) s tt
  execute-live_after k (Command.raw_checksum client start end) s =
      keeping k (Command.raw_checksum client start end) s tt
