-- ===== src/Gate/Commit.antt =====
-- `commit` and `stage` of the gate's metadata store, crates/parity-gate/src/lib.rs. A log line
-- changes nothing that the store can show, and is left out.
pub mod Contract
pub mod Kept
pub mod Stage
pub mod Refinement
pub mod Conflict
use client_rust_test.Base.{
  Option, none, some, List, [], ◌∷◌, Bool, true, false, if◌then◌else◌, Bytes, bytes_eq,
}
use client_rust_test.Base.Result.{Result, Call, ok, err, ◌>>=◌, ◌>>◌, pure}
use client_rust_test.Tikv.Error.{Error, undetermined_error}
use client_rust_test.Tikv.Client.{Client, CheckLevel, warn}
use client_rust_test.Gate.Race.{is_lost_race}
use client_rust_test.Gate.Batch.{CommitOutcome, committed, conflict, Precondition, WriteBatch}

pub data LockMode : Type 0 where
  pessimistic optimistic_locked optimistic_unlocked : LockMode

-- `Some` wants the same bytes, `None` absence.
unfoldable pub holds : Option Bytes → Option Bytes → Bool
holds (some want) (some got) = bytes_eq want got
holds none none = true
holds _ _ = false

module _ (c : Client) where
  unfoldable pub txn_options : LockMode → c.TransactionOptions
  txn_options pessimistic = c.drop_check c.new_pessimistic warn
  txn_options optimistic_locked = c.drop_check c.new_optimistic warn
  txn_options optimistic_unlocked = c.drop_check c.new_optimistic warn

  -- The read of a precondition under the mode's locking discipline.
  unfoldable pub locking_read : LockMode → c.Transaction → Bytes → Call c.World Error (Option Bytes)
  locking_read pessimistic t k = c.get_for_update t k
  locking_read optimistic_locked t k = do c.lock_keys t (k ∷ []); c.get t k
  locking_read optimistic_unlocked t k = c.get t k

  unfoldable pub check : LockMode → c.Transaction → List Precondition → Call c.World Error Bool
  unfolding locking_read holds
  check mode t [] = pure true
  check mode t (pre ∷ pres) = do
    actual ← locking_read mode t pre.key
    let rest = check mode t pres
    if holds pre.expected actual then rest else pure false

  unfoldable pub put_all : c.Transaction → List (Bytes × Bytes) → Call c.World Error (Unit {0})
  put_all t [] = pure tt
  put_all t ((k, v) ∷ puts) = do c.put t k v; put_all t puts

  unfoldable pub delete_all : c.Transaction → List Bytes → Call c.World Error (Unit {0})
  delete_all t [] = pure tt
  delete_all t (k ∷ deletes) = do c.delete t k; delete_all t deletes

  unfoldable pub stage : c.Transaction → LockMode → WriteBatch → Call c.World Error Bool
  unfolding check put_all delete_all
  stage t mode batch = do
    held ← check mode t batch.preconditions
    if held then (do put_all t batch.puts; delete_all t batch.deletes; pure true) else pure false

  -- A failed rollback is logged and otherwise ignored.
  unfoldable pub rollback_quietly : c.Transaction → c.World → c.World
  rollback_quietly t w = (c.rollback t w).1

  abbrev pub lost_race : Error → Result Error CommitOutcome
  lost_race e = if is_lost_race e then ok conflict else err e

  -- After a commit that failed.
  unfoldable pub commit_failed :
      c.Transaction → Error → c.World → Result Error CommitOutcome × c.World
  unfolding rollback_quietly
  commit_failed t undetermined_error w = (err undetermined_error, w)
  commit_failed t e w = (lost_race e, rollback_quietly t w)

  -- The answer of the transaction's own commit.
  unfoldable pub finish :
      c.Transaction
      → Result Error (Option c.Timestamp)
      → c.World
      → Result Error CommitOutcome × c.World
  unfolding commit_failed
  finish t (ok ts) w = (ok committed, w)
  finish t (err e) w = commit_failed t e w

  -- The answer of `stage`.
  unfoldable pub settle :
      c.Transaction → Result Error Bool → c.World → Result Error CommitOutcome × c.World
  unfolding finish
  settle t (ok true) w = let (r, w') = c.commit t w in finish t r w'
  settle t (ok false) w = (ok conflict, rollback_quietly t w)
  settle t (err e) w = (lost_race e, rollback_quietly t w)

  unfoldable pub commit : LockMode → WriteBatch → Call c.World Error CommitOutcome
  unfolding txn_options stage settle
  commit mode batch = do
    t ← c.begin_with_options (txn_options mode)
    λ w. let (r, w') = stage t mode batch w in settle t r w'
