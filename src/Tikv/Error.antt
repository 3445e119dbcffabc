-- ===== src/Tikv/Error.antt =====
-- The variants of `tikv_client::Error` and the fields of `kvrpcpb::KeyError`, as the exhaustive
-- match in crates/rust-driver/src/mapping.rs names them. What the code never reads of a variant is
-- left out.
use client_rust_test.Base.{ℕ, Option, Bool, Bytes}

pub record WriteConflict : Type 0 where
  pub start_ts : ℕ
  pub conflict_ts : ℕ
  pub conflict_commit_ts : ℕ
  -- the `Debug` form of `reason()`
  pub reason : Bytes

-- Message fields that are only tested for presence are a `Bool`.
pub record KeyError : Type 0 where
  pub conflict : Option WriteConflict
  pub already_exist : Bool
  -- with its `start_ts`
  pub txn_not_found : Option ℕ
  pub locked : Bool
  pub deadlock : Bool
  pub assertion_failed : Bool
  pub commit_ts_expired : Bool
  pub commit_ts_too_large : Bool
  pub retryable : Bytes
  pub abort : Bytes

mutual
  pub data Error : Type 0 where
    unimplemented duplicate_key_insertion resolve_lock_error invalid_transaction_type : Error
    operation_after_commit_error one_pc_failure no_primary_key unsupported_mode : Error
    no_current_regions entry_not_found_in_region_cache : Error
    io channel grpc grpc_api url canceled : Error
    region_error undetermined_error : Error
    key_error : KeyError → Error
    multiple_region_errors : Errors → Error
    multiple_key_errors : Errors → Error
    column_family_error join_error : Error
    region_for_key_not_found region_for_range_not_found : Error
    region_not_found_in_response leader_not_found : Error
    max_scan_limit_exceeded invalid_semver kv_error internal_error protocol_violation : Error
    string_error : Bytes → Error
    pessimistic_lock_error : Error → Error
    keyspace_not_found txn_not_found nested_runtime_error : Error

  -- `Vec<Error>`
  pub data Errors : Type 0 where
    nil : Errors
    cons : Error → Errors → Errors
