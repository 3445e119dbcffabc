-- ===== src/Driver/Mapping.antt =====
-- The Rust half of the mapping table, crates/rust-driver/src/mapping.rs.
pub mod Facts
pub mod Failed
use client_rust_test.Base.{
  ℕ, zero, suc, ◌+◌, Option, none, some, [], ◌∷◌, ◌++◌, Bool, true, false, ◌&&◌, ◌||◌,
  if◌then◌else◌, Bytes, text,
}
use client_rust_test.Tikv.Error.{Error, Errors, KeyError, WriteConflict}
use Error.{
  unimplemented, duplicate_key_insertion, resolve_lock_error, invalid_transaction_type,
  operation_after_commit_error, one_pc_failure, no_primary_key, unsupported_mode,
  no_current_regions, entry_not_found_in_region_cache, io, channel, grpc, grpc_api, url, canceled,
  region_error, undetermined_error, key_error, multiple_region_errors, multiple_key_errors,
  column_family_error, join_error, region_for_key_not_found, region_for_range_not_found,
  region_not_found_in_response, leader_not_found, max_scan_limit_exceeded, invalid_semver, kv_error,
  internal_error, protocol_violation, string_error, pessimistic_lock_error, keyspace_not_found,
  txn_not_found, nested_runtime_error,
}
use client_rust_test.Proto.Json.{Json, Fields, single, empty_object}
use client_rust_test.Proto.Class.{Class, Parts, class_eq}
use client_rust_test.Proto.Observation.{
  Observation, NativeObs, new_obs, with_error_count, with_native, with_proto,
}
use client_rust_test.Gate.Race.{is_some}

abbrev pub Fact : Type 0
Fact = Class × Option Json

unfoldable pub variant_name : Error → Bytes
variant_name unimplemented = text "Unimplemented"
variant_name duplicate_key_insertion = text "DuplicateKeyInsertion"
variant_name resolve_lock_error = text "ResolveLockError"
variant_name invalid_transaction_type = text "InvalidTransactionType"
variant_name operation_after_commit_error = text "OperationAfterCommitError"
variant_name one_pc_failure = text "OnePcFailure"
variant_name no_primary_key = text "NoPrimaryKey"
variant_name unsupported_mode = text "UnsupportedMode"
variant_name no_current_regions = text "NoCurrentRegions"
variant_name entry_not_found_in_region_cache = text "EntryNotFoundInRegionCache"
variant_name io = text "Io"
variant_name channel = text "Channel"
variant_name grpc = text "Grpc"
variant_name grpc_api = text "GrpcAPI"
variant_name url = text "Url"
variant_name canceled = text "Canceled"
variant_name region_error = text "RegionError"
variant_name undetermined_error = text "UndeterminedError"
variant_name (key_error e) = text "KeyError"
variant_name (multiple_region_errors errs) = text "MultipleRegionErrors"
variant_name (multiple_key_errors errs) = text "MultipleKeyErrors"
variant_name column_family_error = text "ColumnFamilyError"
variant_name join_error = text "JoinError"
variant_name region_for_key_not_found = text "RegionForKeyNotFound"
variant_name region_for_range_not_found = text "RegionForRangeNotFound"
variant_name region_not_found_in_response = text "RegionNotFoundInResponse"
variant_name leader_not_found = text "LeaderNotFound"
variant_name max_scan_limit_exceeded = text "MaxScanLimitExceeded"
variant_name invalid_semver = text "InvalidSemver"
variant_name kv_error = text "KvError"
variant_name internal_error = text "InternalError"
variant_name protocol_violation = text "ProtocolViolation"
variant_name (string_error s) = text "StringError"
variant_name (pessimistic_lock_error inner) = text "PessimisticLockError"
variant_name keyspace_not_found = text "KeyspaceNotFound"
variant_name txn_not_found = text "TxnNotFound"
variant_name nested_runtime_error = text "NestedRuntimeError"

abbrev pub count : Errors → ℕ
count Errors.nil = 0
count (Errors.cons e es) = suc (count es)

unfoldable pub error_count : Error → Option ℕ
error_count (multiple_key_errors errs) = some (count errs)
error_count (multiple_region_errors errs) = some (count errs)
error_count (pessimistic_lock_error inner) = error_count inner
error_count _ = none

-- `json!({"key_error": {name: payload}})`
abbrev key_error_json : Bytes → Json → Option Json
key_error_json name payload =
    some (single "key_error" (Json.object (Fields.field name payload Fields.end)))

-- The fields in the order of the map that holds them, by name.
conflict_json : WriteConflict → Json
conflict_json c = Json.object (
    Fields.field (text "conflict_commit_ts") (Json.number c.conflict_commit_ts) (
      Fields.field (text "conflict_ts") (Json.number c.conflict_ts) (
        Fields.field (text "reason") (Json.string c.reason)
          (Fields.field (text "start_ts") (Json.number c.start_ts) Fields.end))))

abbrev is_empty : Bytes → Bool
is_empty [] = true
is_empty (x ∷ xs) = false

-- `{ke:?}` and `{err:?}`, the `Debug` forms of the client's own types.
module _ (debug_key_error : KeyError → Bytes) where
  -- The tests in the order of the code; the last two ask for a text that is not empty.
  pub classify_abort : KeyError → Fact
  classify_abort ke =
      if is_empty ke.retryable
      then (if is_empty ke.abort
          then (
            Class.internal
                (text "a kvrpcpb::KeyError with no recognized field: " ++ debug_key_error ke),
            none,
          )
          else (Class.aborted, key_error_json (text "abort") (Json.string ke.abort)))
      else (Class.retryable, key_error_json (text "retryable") (Json.string ke.retryable))

  pub classify_presence : KeyError → Fact
  classify_presence ke =
      if ke.locked
      then (Class.unresolved_lock, key_error_json (text "locked") empty_object)
      else if ke.deadlock
      then (Class.deadlock, key_error_json (text "deadlock") empty_object)
      else if ke.assertion_failed
      then (Class.assertion_failed, key_error_json (text "assertion_failed") empty_object)
      else if ke.commit_ts_expired || ke.commit_ts_too_large
      then (Class.commit_ts_too_large, key_error_json (text "commit_ts_too_large") empty_object)
      else classify_abort ke

  pub classify_txn_not_found : KeyError → Fact
  classify_txn_not_found ke = elim ke.txn_not_found [
    | some start_ts ↦ (
      Class.txn_not_found,
      key_error_json (text "txn_not_found") (single "start_ts" (Json.number start_ts)),
    )
    | none ↦ classify_presence ke
  ]

  pub classify_key_error : KeyError → Fact
  unfolding conflict_json classify_txn_not_found classify_presence classify_abort
  classify_key_error ke = elim ke.conflict [
    | some c ↦ (Class.write_conflict, key_error_json (text "conflict") (conflict_json c))
    | none ↦
        if ke.already_exist
        then (Class.key_exists, key_error_json (text "already_exist") empty_object)
        else classify_txn_not_found ke
  ]

-- `rest.iter().all(|c| c == first)`
pub all_equal : Parts → Class → Bool
unfolding class_eq
all_equal Parts.nil first = true
all_equal (Parts.cons c cs) first = class_eq c first && all_equal cs first

-- The match on `parts.as_slice()`; `proto` is the one of the first error.
pub classify_parts : Parts → Option Json → Fact
unfolding all_equal
classify_parts Parts.nil proto =
    (Class.internal (text "an empty multi-error carries no fact at all"), none)
classify_parts (Parts.cons first rest) proto =
    if all_equal rest first then (first, proto) else (Class.mixed (Parts.cons first rest), none)

pub unmapped : Error → Fact
unmapped err = (
  Class.internal (
      text "client-rust "
      ++ (variant_name err
          ++ text
              " has no arm in the parity vocabulary. Extend it deliberately (both halves of the mapping table) — do NOT let it fall through to a plausible class.")),
  none,
)

unfoldable mutual
  pub classify_inner : (KeyError → Bytes) → Error → Fact
  classify_inner dbg (key_error ke) = classify_key_error dbg ke
  classify_inner dbg (multiple_key_errors errs) =
      classify_parts (classes dbg errs) (first_proto dbg errs)
  classify_inner dbg (multiple_region_errors errs) =
      classify_parts (classes dbg errs) (first_proto dbg errs)
  classify_inner dbg (pessimistic_lock_error inner) = classify_inner dbg inner
  classify_inner dbg undetermined_error = (Class.undetermined, none)
  classify_inner dbg txn_not_found =
      (Class.txn_not_found, key_error_json (text "txn_not_found") empty_object)
  classify_inner dbg resolve_lock_error =
      (Class.unresolved_lock, key_error_json (text "locked") empty_object)
  classify_inner dbg duplicate_key_insertion = (Class.key_exists, none)
  classify_inner dbg region_error = (Class.region_error, none)
  classify_inner dbg no_current_regions = (Class.region_error, none)
  classify_inner dbg entry_not_found_in_region_cache = (Class.region_error, none)
  classify_inner dbg region_for_key_not_found = (Class.region_error, none)
  classify_inner dbg region_for_range_not_found = (Class.region_error, none)
  classify_inner dbg region_not_found_in_response = (Class.region_error, none)
  classify_inner dbg leader_not_found = (Class.region_error, none)
  classify_inner dbg io = (Class.rpc_error, none)
  classify_inner dbg channel = (Class.rpc_error, none)
  classify_inner dbg grpc = (Class.rpc_error, none)
  classify_inner dbg grpc_api = (Class.rpc_error, none)
  classify_inner dbg url = (Class.rpc_error, none)
  classify_inner dbg canceled = (Class.rpc_error, none)
  classify_inner dbg unimplemented =
      (Class.unsupported (text "client-rust returned Error::Unimplemented"), none)
  classify_inner dbg unsupported_mode = (
    Class.unsupported (text "client-rust returned Error::UnsupportedMode (raw atomic-mode gating)"),
    none,
  )
  classify_inner dbg invalid_transaction_type = unmapped invalid_transaction_type
  classify_inner dbg operation_after_commit_error = unmapped operation_after_commit_error
  classify_inner dbg one_pc_failure = unmapped one_pc_failure
  classify_inner dbg no_primary_key = unmapped no_primary_key
  classify_inner dbg column_family_error = unmapped column_family_error
  classify_inner dbg join_error = unmapped join_error
  classify_inner dbg max_scan_limit_exceeded = unmapped max_scan_limit_exceeded
  classify_inner dbg invalid_semver = unmapped invalid_semver
  classify_inner dbg kv_error = unmapped kv_error
  classify_inner dbg internal_error = unmapped internal_error
  classify_inner dbg protocol_violation = unmapped protocol_violation
  classify_inner dbg (string_error s) = unmapped (string_error s)
  classify_inner dbg keyspace_not_found = unmapped keyspace_not_found
  classify_inner dbg nested_runtime_error = unmapped nested_runtime_error

  -- `errs.iter().map(|e| classify_inner(e).0)`
  pub classes : (KeyError → Bytes) → Errors → Parts
  classes dbg Errors.nil = Parts.nil
  classes dbg (Errors.cons e es) = Parts.cons (classify_inner dbg e).0 (classes dbg es)

  -- `errs.first().and_then(|e| classify_inner(e).1)`
  pub first_proto : (KeyError → Bytes) → Errors → Option Json
  first_proto dbg Errors.nil = none
  first_proto dbg (Errors.cons e es) = (classify_inner dbg e).1

module _ (debug_key_error : KeyError → Bytes) (debug : Error → Bytes) where
  abbrev pub proto_layer : Observation → Option Json → Observation
  proto_layer obs (some p) = with_proto obs p
  proto_layer obs none = obs

  abbrev pub count_layer : Observation → Option ℕ → Observation
  count_layer obs (some n) = with_error_count obs n
  count_layer obs none = obs

  unfoldable pub classify : Error → Observation
  unfolding new_obs
  classify err =
      let (class, proto) = classify_inner debug_key_error err in
      let native : NativeObs = record {
        lang = text "rust";
        type = variant_name err;
        display = debug err;
      } in
      count_layer (proto_layer (with_native (new_obs class) native) proto) (error_count err)
