-- ===== src/Runner/Substitute.antt =====
-- `substitute` of crates/parity-runner/src/run.rs: a command under the prefix of its run.
pub mod Keys
use client_rust_test.Base.{List, map, Bytes}
use client_rust_test.Proto.Command.{Command, KeyArg, as_key, as_value}
use Command.{
  hello, open_client, close_client, begin, put, get, commit, rollback, snapshot_get, scan_locks,
  prewrite_only, abandon, open_raw_client, raw_put, raw_checksum,
}

unfoldable pub substitute : Command → Bytes → Command
substitute (put session key value) prefix = put session (as_key key prefix) (as_value value prefix)
substitute (get session key) prefix = get session (as_key key prefix)
substitute (snapshot_get client key) prefix = snapshot_get client (as_key key prefix)
substitute (scan_locks client start end batch_size) prefix =
    scan_locks client (as_key start prefix) (as_key end prefix) batch_size
substitute (prewrite_only session primary keys) prefix =
    prewrite_only session (as_key primary prefix) (map (λ k. as_key k prefix) keys)
substitute (raw_put client key value) prefix =
    raw_put client (as_key key prefix) (as_value value prefix)
substitute (raw_checksum client start end) prefix =
    raw_checksum client (as_key start prefix) (as_key end prefix)
substitute hello prefix = hello
substitute (open_client name) prefix = open_client name
substitute (close_client name) prefix = close_client name
substitute (open_raw_client name) prefix = open_raw_client name
substitute (begin session client mode) prefix = begin session client mode
substitute (commit session) prefix = commit session
substitute (rollback session) prefix = rollback session
substitute (abandon session) prefix = abandon session
