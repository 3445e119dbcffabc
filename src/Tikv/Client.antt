-- ===== src/Tikv/Client.antt =====
-- The transactional client of tikv-client, as the gate calls it. Each call may fail, and may find the
-- world changed by others since the call before.
use client_rust_test.Base.{ℕ, Bool, true, Option, none, some, List, ◌&&◌, not, Bytes, bytes_lt}
use client_rust_test.Base.Result.{Call}
use client_rust_test.Tikv.Error.{Error}

-- `start..end` or `start..`
pub record BoundRange : Type 0 where
  pub start : Bytes
  pub end : Option Bytes

abbrev pub before_end : Bytes → Option Bytes → Bool
before_end k none = true
before_end k (some e) = bytes_lt k e

abbrev pub range_holds : BoundRange → Bytes → Bool
range_holds r k = not (bytes_lt k r.start) && before_end k r.end

pub data CheckLevel : Type 0 where
  panic warn : CheckLevel

pub record Client : Type 1 where
  pub World : Type 0
  pub Timestamp : Type 0
  pub TransactionOptions : Type 0
  pub Transaction : Type 0
  pub Snapshot : Type 0
  pub new_pessimistic : TransactionOptions
  pub new_optimistic : TransactionOptions
  pub drop_check : TransactionOptions → CheckLevel → TransactionOptions
  pub read_only : TransactionOptions → TransactionOptions
  pub current_timestamp : Call World Error Timestamp
  pub snapshot : Timestamp → TransactionOptions → Snapshot
  pub snapshot_get : Snapshot → Bytes → Call World Error (Option Bytes)
  pub snapshot_scan : Snapshot → BoundRange → ℕ → Call World Error (List (Bytes × Bytes))
  pub begin_with_options : TransactionOptions → Call World Error Transaction
  pub get : Transaction → Bytes → Call World Error (Option Bytes)
  pub get_for_update : Transaction → Bytes → Call World Error (Option Bytes)
  pub lock_keys : Transaction → List Bytes → Call World Error (Unit {0})
  pub put : Transaction → Bytes → Bytes → Call World Error (Unit {0})
  pub delete : Transaction → Bytes → Call World Error (Unit {0})
  pub commit : Transaction → Call World Error (Option Timestamp)
  pub rollback : Transaction → Call World Error (Unit {0})
