-- ===== src/Driver/Exec/Shape/Arms.antt =====
-- Each arm of `Driver::execute`, crates/rust-driver/src/exec.rs, ends with an observation of its shape.
use mathlib.Core.Path.{subst}
use client_rust_test.Base.{
  ℕ, ◌≡◌, refl, inl, inr, Option, none, some, [], true, false, Bool, ◌==◌, Bytes,
}
use client_rust_test.Base.Map.{Map, get}
use client_rust_test.Base.Result.{
  Result, ok, err, Call, ◌>>=◌, pure, lift, Outcome, Ensures, bind-Ensures,
}
use client_rust_test.Base.Check.{ok_or, forbid, map_err}
use client_rust_test.Proto.Observation.{Observation, new_obs, ok_obs, driver_error_obs}
use client_rust_test.Proto.Command.{Command, KeyArg, bytes}
use client_rust_test.Tikv.Error.{Error}
use client_rust_test.Driver.Paging.{Progress, scan_loop}
use client_rust_test.Driver.Probe.{Api, Build}
use client_rust_test.Driver.Exec.{
  Driver, State, Stop, Arm, arm, scan_arm, no_session, take_session, lookup, client_call, scan_all,
  scan_rest, scanned, observed, execute, read_obs, committed_obs,
}
use client_rust_test.Driver.Exec.Shape.{
  HasShape, HasAnswer, Failed, driver_error_obs-Failed, ok_obs_plain, classify-Failed,
  prewrite_only-HasShape, raw_checksum-HasShape,
}

-- An arm that stops early has a failure to report; `R` is what the end of the rounds says.
abbrev Ends : Type 0 → Stop → Type 0
Ends R (Stop.answered o) = Failed o
Ends R Stop.unfinished = R

module _ (build : Build) (api : Api) (rounds : ℕ) (R : Type 0) where
  lookup-Ends :
      {V : Type 0} (field : Driver build api rounds → Map V) (name detail : Bytes)
      → Ensures
          (λ v. Unit {0})
          (Ends R)
          (lookup build api rounds field name (driver_error_obs detail))
  lookup-Ends {V} field name detail (d, w) = go (get name (field d))
    where
      go :
          (v : Option V)
          → Outcome (λ v. Unit {0}) (Ends R) (ok_or v (Stop.answered (driver_error_obs detail)))
      go none = driver_error_obs-Failed detail
      go (some v) = tt

  client_call-Ends :
      {A : Type 0} (failed : Error → Observation) (m : Call api.World Error A)
      → ((e : Error) → Failed (failed e))
      → Ensures (λ a. Unit {0}) (Ends R) (client_call build api rounds failed m)
  client_call-Ends {A} failed m h (d, w) = go (m w).0
    where
      go :
          (r : Result Error A)
          → Outcome (λ a. Unit {0}) (Ends R) (map_err (λ e. Stop.answered (failed e)) r)
      go (ok a) = tt
      go (err e) = h e

  -- A client is called first.
  call-Ends :
      {A : Type 0} (P : Observation → Type 0) (failed : Error → Observation)
      (m : Call api.World Error A) (end : A → Arm build api rounds Observation)
      → ((e : Error) → Failed (failed e))
      → ((a : A) → Ensures P (Ends R) (end a))
      → Ensures P (Ends R) (client_call build api rounds failed m >>= end)
  call-Ends P failed m end fails h =
      bind-Ensures (λ a. Unit {0}) P (Ends R) (client_call build api rounds failed m) end
        (client_call-Ends failed m fails) (λ a u. h a)

  -- A session or a client is looked up first.
  found-Ends :
      {V : Type 0} (P : Observation → Type 0) (field : Driver build api rounds → Map V)
      (name detail : Bytes) (end : V → Arm build api rounds Observation)
      → ((v : V) → Ensures P (Ends R) (end v))
      → Ensures P (Ends R) (lookup build api rounds field name (driver_error_obs detail) >>= end)
  found-Ends P field name detail end h =
      bind-Ensures (λ v. Unit {0}) P (Ends R)
        (lookup build api rounds field name (driver_error_obs detail)) end
        (lookup-Ends field name detail) (λ v u. h v)

  -- An answer without a result
  plain_end :
      Ensures (λ o. HasShape Command.hello o) (Ends R) (pure {W = State build api rounds} ok_obs)
  plain_end w = ok_obs_plain

  read_obs-HasShape :
      (session : Bytes) (key : KeyArg) (v : Option Bytes)
      → HasShape (Command.get session key) (read_obs build api rounds v)
  unfolding ok_obs new_obs
  read_obs-HasShape session key none = inr (λ e. cc, (refl, refl, refl, refl, refl))
  read_obs-HasShape session key (some v) =
      inl (refl, (_, refl, (refl, refl, refl, refl, refl)), (refl, refl, refl))

  committed_obs-HasShape :
      (session : Bytes) (ts : Option api.Timestamp)
      → HasShape (Command.commit session) (committed_obs build api rounds ts)
  unfolding ok_obs new_obs
  committed_obs-HasShape session none =
      inl (refl, (refl, refl, refl, refl, refl), (refl, refl, refl))
  committed_obs-HasShape session (some ts) =
      inl (refl, (refl, refl, refl, refl, refl), (refl, refl, refl))

  take_session-Ends :
      (session : Bytes) → Ensures (λ txn. Unit {0}) (Ends R) (take_session build api rounds session)
  unfolding take_session no_session
  take_session-Ends session =
      bind-Ensures (λ v. Unit {0}) (λ v. Unit {0}) (Ends R)
        (lookup build api rounds (λ d. d.txns) session _) _ (lookup-Ends (λ d. d.txns) session _)
        (λ txn u s. tt)

  -- Only a scan can use up its rounds.
  abbrev WithinRounds : Command → Type 0
  WithinRounds (Command.scan_locks client start end batch_size) = R
  WithinRounds _ = Unit

  abbrev ScanShape : Observation → Type 0
  ScanShape o = HasShape (Command.scan_locks [] (KeyArg.utf8 []) (KeyArg.utf8 []) 0) o

  scan_all-Ends :
      (c : api.TransactionClient) (ts : api.Timestamp) (start end : Bytes) (batch_size : ℕ)
      → R
      → Ensures (λ locks. Unit {0}) (Ends R) (scan_all build api rounds c ts start end batch_size)
  unfolding scan_all
  scan_all-Ends c ts start end batch_size r (d, w) =
      go (scan_loop (api.scan_locks c ts) end batch_size rounds start [] w).0
    where
      go : (p : Progress) → Outcome (λ locks. Unit {0}) (Ends R) (scanned build api rounds p)
      go (Progress.failed e) = classify-Failed _ _ e
      go (Progress.finished locks) = tt
      go (Progress.again cursor locks) = r

  forbid-Ends :
      (b : Bool) (detail : Bytes)
      → Ensures {W = State build api rounds}
          (λ u. Unit {0})
          (Ends R)
          (lift (forbid b (Stop.answered (driver_error_obs detail))))
  forbid-Ends true detail s = driver_error_obs-Failed detail
  forbid-Ends false detail s = tt

  scan_rest-HasShape :
      (c : api.TransactionClient) (ts : api.Timestamp) (start end : Bytes) (batch_size : ℕ)
      → R
      → Ensures ScanShape (Ends R) (scan_rest build api rounds c ts start end batch_size)
  unfolding scan_rest ok_obs new_obs
  scan_rest-HasShape c ts start end batch_size r =
      bind-Ensures (λ u. Unit {0}) ScanShape (Ends R) (lift (forbid (batch_size == 0) _)) _
        (forbid-Ends (batch_size == 0) _)
        (λ u v.
          bind-Ensures (λ locks. Unit {0}) ScanShape (Ends R)
            (scan_all build api rounds c ts start end batch_size) _
            (scan_all-Ends c ts start end batch_size r)
            (λ locks t s. inl (refl, (refl, refl, refl, refl, refl), (refl, refl, refl))))

  arm-HasShape :
      (cmd : Command)
      → WithinRounds cmd
      → Ensures (HasShape cmd) (Ends R) (arm build api rounds cmd)
  unfolding arm scan_arm no_session ok_obs new_obs
  arm-HasShape Command.hello h = plain_end
  arm-HasShape (Command.open_client name) h =
      call-Ends _ _ api.new_client _ (λ e. driver_error_obs-Failed _) (λ c s. ok_obs_plain)
  arm-HasShape (Command.close_client name) h = λ s. ok_obs_plain
  arm-HasShape (Command.begin session client mode) h =
      found-Ends _ (λ d. d.clients) client _ _
        (λ c.
          call-Ends _ _ (api.begin_with_options c _) _ (λ e. classify-Failed _ _ e)
            (λ txn s. inl (refl, (_, refl, (refl, refl, refl, refl, refl)), (refl, refl, refl))))
  arm-HasShape (Command.put session key value) h =
      found-Ends _ (λ d. d.txns) session _ _
        (λ txn.
          call-Ends _ _ (api.put txn _ _) _ (λ e. classify-Failed _ _ e) (λ u s. ok_obs_plain))
  arm-HasShape (Command.get session key) h =
      found-Ends _ (λ d. d.txns) session _ _
        (λ txn.
          call-Ends _ _ (api.get txn _) _ (λ e. classify-Failed _ _ e)
            (λ v s. read_obs-HasShape session key v))
  arm-HasShape (Command.commit session) h =
      bind-Ensures (λ txn. Unit {0}) _ (Ends R) (take_session build api rounds session) _
        (take_session-Ends session)
        (λ txn v.
          call-Ends _ _ (api.commit txn) _ (λ e. classify-Failed _ _ e)
            (λ ts s. committed_obs-HasShape session ts))
  arm-HasShape (Command.rollback session) h =
      bind-Ensures (λ txn. Unit {0}) _ (Ends R) (take_session build api rounds session) _
        (take_session-Ends session)
        (λ txn v.
          call-Ends _ _ (api.rollback txn) _ (λ e. classify-Failed _ _ e) (λ u s. ok_obs_plain))
  arm-HasShape (Command.snapshot_get client key) h =
      found-Ends _ (λ d. d.clients) client _ _
        (λ c.
          call-Ends _ _ (api.current_timestamp c) _ (λ e. driver_error_obs-Failed _)
            (λ ts.
              call-Ends _ _ (api.snapshot_get _ _) _ (λ e. classify-Failed _ _ e)
                (λ v s. read_obs-HasShape client key v)))
  arm-HasShape (Command.scan_locks client start end batch_size) h =
      found-Ends _ (λ d. d.clients) client _ _
        (λ c.
          call-Ends _ _ (api.current_timestamp c) _ (λ e. driver_error_obs-Failed _)
            (λ ts. scan_rest-HasShape c ts (bytes start) (bytes end) batch_size h))
  arm-HasShape (Command.prewrite_only session primary keys) h =
      found-Ends _ (λ d. d.txns) session _ _
        (λ txn s. prewrite_only-HasShape build api session primary keys txn s.1)
  arm-HasShape (Command.abandon session) h = λ s. ok_obs_plain
  arm-HasShape (Command.open_raw_client name) h =
      call-Ends _ _ api.new_raw_client _ (λ e. driver_error_obs-Failed _) (λ c s. ok_obs_plain)
  arm-HasShape (Command.raw_put client key value) h =
      found-Ends _ (λ d. d.raw_clients) client _ _
        (λ c.
          call-Ends _ _ (api.raw_put c _ _) _ (λ e. classify-Failed _ _ e) (λ u s. ok_obs_plain))
  arm-HasShape (Command.raw_checksum client start end) h =
      found-Ends _ (λ d. d.raw_clients) client _ _
        (λ c s. raw_checksum-HasShape build api client start end c s.1)

module _ (build : Build) (api : Api) (rounds : ℕ) where
  answered :
      (cmd : Command) (r : Result Stop Observation)
      → Outcome (HasShape cmd) (Ends ⊥) r
      → (o : Observation) × (observed build api rounds r ≡ some o) × HasShape cmd o
  answered cmd (ok o) h = (o, refl, h)
  answered cmd (err (Stop.answered o)) h = (o, refl, inr h)
  answered cmd (err Stop.unfinished) h = absurd h

  answered_scan :
      (cmd : Command) (r : Result Stop Observation)
      → Outcome (HasShape cmd) (Ends Unit) r
      → (o : Observation) → observed build api rounds r ≡ some o
      → HasShape cmd o
  answered_scan cmd (ok o) h p e = subst (HasShape cmd) (same o p e) h
    where
      same : (a b : Observation) → (some a ≡ some b) → a ≡ b
      same a b q = cc
  answered_scan cmd (err (Stop.answered o)) h p e = subst (HasShape cmd) (same o p e) (inr h)
    where
      same : (a b : Observation) → (some a ≡ some b) → a ≡ b
      same a b q = cc
  answered_scan cmd (err Stop.unfinished) h p e = absurd (cc)

  -- `hello` is answered by a greeting and no observation; each other command by no greeting and by an
  -- observation, which only a scan may lack, since its rounds may run out. Every observation either
  -- has the class `ok`, of the fields of a result those of the command and no other (a value for a
  -- read, locks for a scan, a start timestamp for `begin` and a prewrite, at most a commit timestamp
  -- for a commit, the sums for a checksum) and no layer of an error; or its class is another, and it
  -- has no field of a result.
  pub execute-HasAnswer :
      (cmd : Command) (s : State build api rounds)
      → HasAnswer cmd (execute build api rounds cmd s).0
  unfolding execute
  execute-HasAnswer Command.hello s = (λ e. cc, refl)
  execute-HasAnswer (Command.scan_locks client start end batch_size) s = (
    refl,
    answered_scan (Command.scan_locks client start end batch_size)
        (arm build api rounds (Command.scan_locks client start end batch_size) s).0
        (arm-HasShape build api rounds Unit (Command.scan_locks client start end batch_size) tt s),
  )
  execute-HasAnswer cmd s =
      (refl, answered cmd (arm build api rounds cmd s).0 (arm-HasShape build api rounds ⊥ cmd tt s))
