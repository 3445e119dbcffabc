-- ===== src/Proto/Class.antt =====
-- crates/parity-proto/src/class.rs: the vocabulary that both drivers report in.
pub mod Admission
use client_rust_test.Base.{
  ℕ, Option, none, some, Bool, true, false, ◌&&◌, [], ◌++◌, ◌==◌, Bytes, bytes_eq, text,
}

-- `Parts` is the `Vec<Class>` of a mixed error.
mutual
  pub data Class : Type 0 where
    ok not_found : Class
    write_conflict key_exists txn_not_found unresolved_lock deadlock assertion_failed : Class
    retryable aborted commit_ts_too_large lock_wait_timeout : Class
    undetermined region_error pd_error rpc_error : Class
    mixed : Parts → Class
    unsupported : Bytes → Class
    driver_error : Bytes → Class
    internal : Bytes → Class

  pub data Parts : Type 0 where
    nil : Parts
    cons : Class → Parts → Parts

unfoldable mutual
  pub is_admissible : Class → Bool
  is_admissible (internal detail) = false
  is_admissible (driver_error detail) = false
  is_admissible region_error = false
  is_admissible (mixed parts) = all_admissible parts
  is_admissible _ = true

  -- `parts.iter().all(Class::is_admissible)`
  pub all_admissible : Parts → Bool
  all_admissible nil = true
  all_admissible (cons c parts) = is_admissible c && all_admissible parts

-- `Option::or`, for the first reason that a set of parts gives.
abbrev pub first_some {ℓ} : {A : Type ℓ} → Option A → Option A → Option A
first_some (some a) o = some a
first_some none o = o

unfoldable mutual
  pub inadmissible_reason : Class → Option Bytes
  inadmissible_reason (internal detail) = some (
      text "an error with no arm in the driver's mapping table: "
      ++ detail
      ++ text
          ". The taxonomy must be EXTENDED (a reviewed act), not silently widened — an unmapped error that became `ok` would be a false green.")
  inadmissible_reason (driver_error detail) = some (text "the harness itself failed: " ++ detail)
  inadmissible_reason region_error = some (
      text
        "a region error — a CLUSTER event, not client behaviour. The run says nothing about either client.")
  inadmissible_reason (mixed parts) = first_reason parts
  inadmissible_reason _ = none

  -- `parts.iter().find_map(Class::inadmissible_reason)`
  pub first_reason : Parts → Option Bytes
  first_reason nil = none
  first_reason (cons c parts) = first_some (inadmissible_reason c) (first_reason parts)

unfoldable pub tag : Class → Bytes
tag ok = text "ok"
tag not_found = text "not_found"
tag write_conflict = text "write_conflict"
tag key_exists = text "key_exists"
tag txn_not_found = text "txn_not_found"
tag unresolved_lock = text "unresolved_lock"
tag deadlock = text "deadlock"
tag assertion_failed = text "assertion_failed"
tag retryable = text "retryable"
tag aborted = text "aborted"
tag commit_ts_too_large = text "commit_ts_too_large"
tag lock_wait_timeout = text "lock_wait_timeout"
tag undetermined = text "undetermined"
tag region_error = text "region_error"
tag pd_error = text "pd_error"
tag rpc_error = text "rpc_error"
tag (mixed parts) = text "mixed"
tag (unsupported detail) = text "unsupported"
tag (driver_error detail) = text "driver_error"
tag (internal detail) = text "internal"

-- The derived `==`: the same variant, and equal contents.
abbrev pub discriminant : Class → ℕ
discriminant ok = 0
discriminant not_found = 1
discriminant write_conflict = 2
discriminant key_exists = 3
discriminant txn_not_found = 4
discriminant unresolved_lock = 5
discriminant deadlock = 6
discriminant assertion_failed = 7
discriminant retryable = 8
discriminant aborted = 9
discriminant commit_ts_too_large = 10
discriminant lock_wait_timeout = 11
discriminant undetermined = 12
discriminant region_error = 13
discriminant pd_error = 14
discriminant rpc_error = 15
discriminant (mixed parts) = 16
discriminant (unsupported detail) = 17
discriminant (driver_error detail) = 18
discriminant (internal detail) = 19

abbrev pub parts_of : Class → Parts
parts_of (mixed parts) = parts
parts_of _ = nil

abbrev pub detail_of : Class → Bytes
detail_of (unsupported detail) = detail
detail_of (driver_error detail) = detail
detail_of (internal detail) = detail
detail_of _ = []

unfoldable mutual
  pub class_eq : Class → Class → Bool
  class_eq (mixed parts) b = (discriminant b == 16) && parts_eq parts (parts_of b)
  class_eq a b = (discriminant a == discriminant b) && bytes_eq (detail_of a) (detail_of b)

  pub parts_eq : Parts → Parts → Bool
  parts_eq nil nil = true
  parts_eq nil (cons d ds) = false
  parts_eq (cons c cs) nil = false
  parts_eq (cons c cs) (cons d ds) = class_eq c d && parts_eq cs ds
