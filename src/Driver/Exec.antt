-- ===== src/Driver/Exec.antt =====
-- Command dispatch of the Rust driver, crates/rust-driver/src/exec.rs, over the client of
-- Driver.Probe. An arm of the match is a call of the driver's maps and of the client's world, whose
-- error is the observation of an early return. Dropping a handle changes nothing that is modelled.
pub mod Keeps
pub mod Open
pub mod Sessions
pub mod Log
pub mod Unknown
pub mod Scan
pub mod Shape
use client_rust_test.Base.{
  ℕ, ℤ, pos, negsuc, show_int, Option, none, some, List, [], ◌∷◌, ◌++◌, map, ◌==◌, Bool, true,
  false, if◌then◌else◌, Bytes, text,
}
use client_rust_test.Base.Map.{Map, get, insert, remove}
use client_rust_test.Base.Result.{Result, ok, err, Call, ◌>>=◌, ◌>>◌, pure, lift}
use client_rust_test.Base.Check.{ok_or, forbid, map_err}
use client_rust_test.Proto.Class.{Class}
use client_rust_test.Proto.Observation.{
  Observation, LockObs, bytes_obs, new_obs, ok_obs, driver_error_obs, with_value, with_locks,
  with_start_ts, with_commit_ts,
}
use client_rust_test.Proto.Command.{Command, TxnMode, KeyArg, bytes}
use client_rust_test.Proto.Trace.{Hello}
use client_rust_test.Runner.Process.{protocol_version}
use client_rust_test.Tikv.Error.{Error}
use client_rust_test.Tikv.Client.{warn}
use client_rust_test.Driver.Mapping.{classify}
use client_rust_test.Driver.Paging.{LockInfo, Progress, scan_loop}
use client_rust_test.Driver.Probe.{Api, Build, features, prewrite_only, raw_checksum}

abbrev is_op : ℕ → ℤ → Bool
is_op n (pos m) = m == n
is_op n (negsuc m) = false

-- `kvrpcpb::Op` by name
unfoldable pub lock_kind : ℤ → Bytes
lock_kind op =
    if is_op 0 op
    then text "put"
    else if is_op 1 op
    then text "del"
    else if is_op 2 op
    then text "lock"
    else if is_op 3 op
    then text "rollback"
    else if is_op 4 op
    then text "insert"
    else if is_op 5 op
    then text "pessimistic_lock"
    else if is_op 6 op
    then text "check_not_exists"
    else text "op_" ++ show_int op

unfoldable pub to_lock_obs : LockInfo → LockObs
unfolding lock_kind
to_lock_obs l = record {
  key = bytes_obs l.key;
  primary = bytes_obs l.primary_lock;
  kind = lock_kind l.lock_type;
  ttl_ms = l.lock_ttl;
  txn_start_ts = l.lock_version;
}

unfoldable pub no_session : Bytes → Observation
no_session session = driver_error_obs (text "no such session: " ++ session)

pub record Response : Type 0 where
  pub hello : Option Hello
  pub observation : Option Observation

-- Why an arm ends before its last line: with an observation, or because the rounds of the scan are
-- used up, which the code does not know.
pub data Stop : Type 0 where
  answered : Observation → Stop
  unfinished : Stop

-- `rounds` bounds the loop of `ScanLocks`.
module _ (build : Build) (api : Api) (rounds : ℕ) where
  pub record Driver : Type 0 where
    pub clients : Map api.TransactionClient
    pub raw_clients : Map api.RawClient
    pub txns : Map api.Transaction

  -- `Driver::new`
  abbrev pub new_driver : Driver
  new_driver = record { clients = []; raw_clients = []; txns = [] }

  abbrev pub State : Type 0
  State = Driver × api.World

  abbrev pub Arm : Type 0 → Type 0
  Arm A = Call State Stop A

  abbrev pub lookup : {V : Type 0} → (Driver → Map V) → Bytes → Observation → Arm V
  lookup field name missing (d, w) = (ok_or (get name (field d)) (Stop.answered missing), (d, w))

  abbrev pub change : (Driver → Driver) → Arm (Unit {0})
  change f (d, w) = (ok tt, (f d, w))

  -- A call of the client, with the observation that an error of it makes.
  abbrev pub client_call : {A : Type 0} → (Error → Observation) → Call api.World Error A → Arm A
  client_call failed m (d, w) =
      let (r, w') = m w in (map_err (λ e. Stop.answered (failed e)) r, (d, w'))

  abbrev pub probe_call : (api.World → Observation × api.World) → Arm Observation
  probe_call m (d, w) = let (obs, w') = m w in (ok obs, (d, w'))

  abbrev pub classified : Error → Observation
  classified = classify api.debug_key_error api.debug

  abbrev pub harness_error : Bytes → Error → Observation
  harness_error what e = driver_error_obs (what ++ api.display e)

  -- What a read answers
  abbrev pub read_obs : Option Bytes → Observation
  read_obs none = new_obs Class.not_found
  read_obs (some v) = with_value ok_obs (some v)

  abbrev pub committed_obs : Option api.Timestamp → Observation
  committed_obs (some ts) = with_commit_ts ok_obs (api.version ts)
  committed_obs none = ok_obs

  abbrev pub mode_options : TxnMode → api.TransactionOptions
  mode_options TxnMode.optimistic = api.drop_check api.new_optimistic warn
  mode_options TxnMode.pessimistic = api.drop_check api.new_pessimistic warn

  -- `self.txns.remove(&session)`
  unfoldable pub take_session : Bytes → Arm api.Transaction
  unfolding no_session
  take_session session = do
    txn ← lookup (λ d. d.txns) session (no_session session)
    change (λ d. record d { txns = remove session d.txns })
    pure txn

  abbrev pub scanned : Progress → Result Stop (List LockInfo)
  scanned (Progress.failed e) = err (Stop.answered (classified e))
  scanned (Progress.finished locks) = ok locks
  scanned (Progress.again cursor locks) = err Stop.unfinished

  unfoldable pub scan_all :
      api.TransactionClient → api.Timestamp → Bytes → Bytes → ℕ → Arm (List LockInfo)
  scan_all c ts start end batch_size (d, w) =
      let (progress, w') = scan_loop (api.scan_locks c ts) end batch_size rounds start [] w in
      (scanned progress, (d, w'))

  -- `ScanLocks` from its check of the batch size on
  unfoldable pub scan_rest :
      api.TransactionClient → api.Timestamp → Bytes → Bytes → ℕ → Arm Observation
  unfolding scan_all to_lock_obs
  scan_rest c ts start end batch_size = do
    lift (
        forbid (batch_size == 0) (
          Stop.answered (
            driver_error_obs (
              text
                "scan_locks: batch_size must be > 0 (it is a paging hint; 0 can make no progress)"))))
    locks ← scan_all c ts start end batch_size
    pure (with_locks ok_obs (map to_lock_obs locks))

  unfoldable pub scan_arm : Bytes → Bytes → Bytes → ℕ → Arm Observation
  unfolding scan_rest
  scan_arm client start end batch_size = do
    c ←
        lookup (λ d. d.clients) client
          (driver_error_obs (text "scan_locks: no such client " ++ client))
    ts ←
        client_call (harness_error (text "scan_locks: current_timestamp: "))
          (api.current_timestamp c)
    scan_rest c ts start end batch_size

  -- The arms of the match but `hello`'s
  unfoldable pub arm : Command → Arm Observation
  unfolding take_session scan_arm no_session
  arm Command.hello = pure ok_obs
  arm (Command.open_client name) = do
    c ← client_call (harness_error (text "open_client: ")) api.new_client
    change (λ d. record d { clients = insert name c d.clients })
    pure ok_obs
  arm (Command.close_client name) = do
    change (λ d. record d { clients = remove name d.clients })
    pure ok_obs
  arm (Command.begin session client mode) = do
    c ← lookup (λ d. d.clients) client (driver_error_obs (text "begin: no such client " ++ client))
    txn ← client_call classified (api.begin_with_options c (mode_options mode))
    change (λ d. record d { txns = insert session txn d.txns })
    pure (with_start_ts ok_obs (api.version (api.start_timestamp txn)))
  arm (Command.put session key value) = do
    txn ← lookup (λ d. d.txns) session (no_session session)
    client_call classified (api.put txn (bytes key) (bytes value))
    pure ok_obs
  arm (Command.get session key) = do
    txn ← lookup (λ d. d.txns) session (no_session session)
    v ← client_call classified (api.get txn (bytes key))
    pure (read_obs v)
  arm (Command.commit session) = do
    txn ← take_session session
    ts ← client_call classified (api.commit txn)
    pure (committed_obs ts)
  arm (Command.rollback session) = do
    txn ← take_session session
    client_call classified (api.rollback txn)
    pure ok_obs
  arm (Command.snapshot_get client key) = do
    c ←
        lookup (λ d. d.clients) client
          (driver_error_obs (text "snapshot_get: no such client " ++ client))
    ts ←
        client_call (harness_error (text "snapshot_get: current_timestamp: "))
          (api.current_timestamp c)
    v ← client_call classified (api.snapshot_get (api.snapshot c ts api.new_optimistic) (bytes key))
    pure (read_obs v)
  arm (Command.scan_locks client start end batch_size) =
      scan_arm client (bytes start) (bytes end) batch_size
  arm (Command.prewrite_only session primary keys) = do
    txn ← lookup (λ d. d.txns) session (no_session session)
    probe_call (prewrite_only build api txn (bytes primary) (map bytes keys))
  arm (Command.abandon session) = do
    change (λ d. record d { txns = remove session d.txns })
    pure ok_obs
  arm (Command.open_raw_client name) = do
    c ← client_call (harness_error (text "open_raw_client: ")) api.new_raw_client
    change (λ d. record d { raw_clients = insert name c d.raw_clients })
    pure ok_obs
  arm (Command.raw_put client key value) = do
    c ←
        lookup (λ d. d.raw_clients) client
          (driver_error_obs (text "raw_put: no such raw client " ++ client))
    client_call classified (api.raw_put c (bytes key) (bytes value))
    pure ok_obs
  arm (Command.raw_checksum client start end) = do
    c ←
        lookup (λ d. d.raw_clients) client
          (driver_error_obs (text "raw_checksum: no such raw client " ++ client))
    probe_call (raw_checksum build api c (bytes start) (bytes end))

  abbrev pub greeting : Hello
  greeting = record {
    driver = text "rust";
    protocol = protocol_version;
    client = record {
      name = text "tikv-client";
      version = text "path:../client-rust (see results/provenance.json)";
      replaced = false;
    };
    features = text "scan_locks" ∷ features build;
    config = text "drop_check=warn (stock default is panic)" ∷ [];
  }

  abbrev pub observed : Result Stop Observation → Option Observation
  observed (ok obs) = some obs
  observed (err (Stop.answered obs)) = some obs
  observed (err Stop.unfinished) = none

  -- `Driver::execute`
  unfoldable pub execute : Command → State → Response × State
  unfolding arm
  execute Command.hello s = (record { hello = some greeting; observation = none }, s)
  execute cmd s = let (r, s') = arm cmd s in (record { hello = none; observation = observed r }, s')
