-- ===== src/Driver/Exec/Keeps.antt =====
-- Commands that leave the sessions of the driver as they are.
use client_rust_test.Base.Check.{forbid}
use client_rust_test.Base.{ℕ, ◌==◌, ◌++◌, text, ◌≡◌, Bytes}
use client_rust_test.Base.Map.{Map}
use client_rust_test.Base.Result.{Call, ◌>>=◌, Keeps, bind-Keeps, lift}
use client_rust_test.Proto.Observation.{Observation, driver_error_obs}
use client_rust_test.Proto.Command.{Command, bytes}
use client_rust_test.Tikv.Error.{Error}
use client_rust_test.Driver.Probe.{Api, Build}
use client_rust_test.Driver.Exec.{
  Driver, State, Stop, Arm, arm, scan_arm, no_session, lookup, client_call, classified,
  harness_error, scan_all, scan_rest,
}

module _ (build : Build) (api : Api) (rounds : ℕ) where
  -- Commands that open and close no session.
  abbrev pub KeepsSessions : Command → Type 0
  KeepsSessions (Command.begin session client mode) = ⊥
  KeepsSessions (Command.commit session) = ⊥
  KeepsSessions (Command.rollback session) = ⊥
  KeepsSessions (Command.abandon session) = ⊥
  KeepsSessions _ = Unit

  -- The sessions are those of `m`.
  abbrev pub Txns : Map api.Transaction → State build api rounds → Type 0
  Txns m s = s.0.txns ≡ m

  module _ (m : Map api.Transaction) where
    -- A read or a write of a session, and a call of a client, leave the sessions as they are.
    called :
        {V A : Type 0} (field : Driver build api rounds → Map V) (name : Bytes)
        (missing : Observation) (failed : Error → Observation) (call : V → Call api.World Error A)
        (end : A → Arm build api rounds Observation)
        → ((a : A) → Keeps (Txns m) (end a))
        → Keeps (Txns m) (
            lookup build api rounds field name missing >>= λ v.
            client_call build api rounds failed (call v) >>= end)
    called field name missing failed call end h =
        bind-Keeps (Txns m) (lookup build api rounds field name missing) _ (λ s e. e)
          (λ v. bind-Keeps (Txns m) (client_call build api rounds failed (call v)) end (λ s e. e) h)

    scan_rest-Keeps :
        (c : api.TransactionClient) (ts : api.Timestamp) (start end : Bytes) (batch_size : ℕ)
        → Keeps (Txns m) (scan_rest build api rounds c ts start end batch_size)
    unfolding scan_rest scan_all
    scan_rest-Keeps c ts start end batch_size =
        bind-Keeps (Txns m)
          (lift (
            forbid (batch_size == 0) (
              Stop.answered (
                driver_error_obs (
                  text
                    "scan_locks: batch_size must be > 0 (it is a paging hint; 0 can make no progress)")))))
          _ (λ s e. e)
          (λ u.
            bind-Keeps (Txns m) (scan_all build api rounds c ts start end batch_size) _ (λ s e. e)
              (λ locks s e. e))

    pub arm-Keeps : (cmd : Command) → KeepsSessions cmd → Keeps (Txns m) (arm build api rounds cmd)
    unfolding arm scan_arm
    arm-Keeps Command.hello h = λ s e. e
    arm-Keeps (Command.open_client name) h =
        bind-Keeps (Txns m)
          (client_call build api rounds (harness_error build api rounds (text "open_client: "))
            api.new_client)
          _ (λ s e. e) (λ c s e. e)
    arm-Keeps (Command.close_client name) h = λ s e. e
    arm-Keeps (Command.open_raw_client name) h =
        bind-Keeps (Txns m)
          (client_call build api rounds (harness_error build api rounds (text "open_raw_client: "))
            api.new_raw_client)
          _ (λ s e. e) (λ c s e. e)
    arm-Keeps (Command.put session key value) h =
        called _ session _ _ (λ txn. api.put txn (bytes key) (bytes value)) _ (λ u s e. e)
    arm-Keeps (Command.get session key) h =
        called _ session _ _ (λ txn. api.get txn (bytes key)) _ (λ v s e. e)
    arm-Keeps (Command.raw_put client key value) h =
        called _ client _ _ (λ c. api.raw_put c (bytes key) (bytes value)) _ (λ u s e. e)
    arm-Keeps (Command.snapshot_get client key) h =
        bind-Keeps (Txns m)
          (lookup build api rounds (λ d. d.clients) client
            (driver_error_obs (text "snapshot_get: no such client " ++ client)))
          _ (λ s e. e)
          (λ c.
            bind-Keeps (Txns m)
              (client_call build api rounds
                (harness_error build api rounds (text "snapshot_get: current_timestamp: "))
                (api.current_timestamp c))
              _ (λ s e. e)
              (λ ts.
                bind-Keeps (Txns m)
                  (client_call build api rounds (classified build api rounds)
                    (api.snapshot_get (api.snapshot c ts api.new_optimistic) (bytes key)))
                  _ (λ s e. e) (λ v s e. e)))
    arm-Keeps (Command.scan_locks client start end batch_size) h =
        bind-Keeps (Txns m)
          (lookup build api rounds (λ d. d.clients) client
            (driver_error_obs (text "scan_locks: no such client " ++ client)))
          _ (λ s e. e)
          (λ c.
            bind-Keeps (Txns m)
              (client_call build api rounds
                (harness_error build api rounds (text "scan_locks: current_timestamp: "))
                (api.current_timestamp c))
              _ (λ s e. e) (λ ts. scan_rest-Keeps c ts (bytes start) (bytes end) batch_size))
    arm-Keeps (Command.prewrite_only session primary keys) h =
        bind-Keeps (Txns m) (lookup build api rounds (λ d. d.txns) session (no_session session)) _
          (λ s e. e) (λ txn s e. e)
    arm-Keeps (Command.raw_checksum client start end) h =
        bind-Keeps (Txns m)
          (lookup build api rounds (λ d. d.raw_clients) client
            (driver_error_obs (text "raw_checksum: no such raw client " ++ client)))
          _ (λ s e. e) (λ c s e. e)
    arm-Keeps (Command.begin session client mode) h = absurd h
    arm-Keeps (Command.commit session) h = absurd h
    arm-Keeps (Command.rollback session) h = absurd h
    arm-Keeps (Command.abandon session) h = absurd h
