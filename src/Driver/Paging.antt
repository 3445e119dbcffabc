-- ===== src/Driver/Paging.antt =====
-- The paging of `scan_locks` in crates/rust-driver/src/exec.rs.
pub mod Sorting
pub mod Regions
pub mod Complete
pub mod Partial
pub mod Loop
use mathlib.Core.List.{filter_map}
use client_rust_test.Base.{
  ℕ, zero, suc, ℤ, ◌+◌, ◌-◌, Option, none, some, List, [], ◌∷◌, ◌++◌, map, Bool, true, false, not,
  ◌||◌, ltb, ◌==◌, if◌then◌else◌, Bytes, bytes_lt, length, text,
}
pub use client_rust_test.Base.{keep}
use client_rust_test.Base.Result.{Result, Call, ok, err}
use client_rust_test.Tikv.Error.{Error}
use client_rust_test.Proto.Observation.{BytesObs, LockObs}

-- `kvrpcpb::LockInfo`, the fields that the driver reads.
pub record LockInfo : Type 0 where
  pub key : Bytes
  pub primary_lock : Bytes
  pub lock_type : ℤ
  pub lock_ttl : ℕ
  pub lock_version : ℕ

-- `batch.sort_by(|a, b| a.key.cmp(&b.key))`, which is stable.
unfoldable pub insert_lock : LockInfo → List LockInfo → List LockInfo
insert_lock l [] = l ∷ []
insert_lock l (m ∷ ms) = if bytes_lt m.key l.key then m ∷ insert_lock l ms else l ∷ m ∷ ms

unfoldable pub sort_locks : List LockInfo → List LockInfo
sort_locks [] = []
sort_locks (l ∷ ls) = insert_lock l (sort_locks ls)

unfoldable pub nth : List Bytes → ℕ → Option Bytes
nth [] i = none
nth (k ∷ ks) zero = some k
nth (k ∷ ks) (suc i) = nth ks i

-- `sorted_keys[batch_size - 1]` is in range where it is read.
unfoldable pub page_cut : List Bytes → ℕ → Option Bytes
unfolding nth
page_cut sorted_keys batch_size =
    if (batch_size == 0) || ltb (length sorted_keys) batch_size
    then none
    else nth sorted_keys (batch_size - 1)

unfoldable pub next_cursor : Bytes → Bytes
next_cursor cut = cut ++ 0 ∷ []

abbrev pub at_or_below : Bytes → LockInfo → Bool
at_or_below cut l = not (bytes_lt cut l.key)

-- The end of the loop, or the cursor and the locks that it goes on with.
pub data Progress : Type 0 where
  failed : Error → Progress
  finished : List LockInfo → Progress
  again : Bytes → List LockInfo → Progress

-- What one round makes of a batch that is not empty and is sorted.
unfoldable pub advance : Bytes → ℕ → List LockInfo → List LockInfo → Progress
unfolding page_cut next_cursor
advance end_key batch_size locks batch = elim (page_cut (map (λ l. l.key) batch) batch_size) [
  | none ↦ finished (locks ++ batch)
  | some cut ↦
      if bytes_lt (next_cursor cut) end_key
      then again (next_cursor cut) (locks ++ keep (at_or_below cut) batch)
      else finished (locks ++ keep (at_or_below cut) batch)
]

unfoldable pub page : Bytes → ℕ → List LockInfo → List LockInfo → Progress
unfolding advance sort_locks
page end_key batch_size locks [] = finished locks
page end_key batch_size locks (l ∷ ls) = advance end_key batch_size locks (sort_locks (l ∷ ls))

abbrev pub answer : Bytes → ℕ → List LockInfo → Result Error (List LockInfo) → Progress
answer end_key batch_size locks (err e) = failed e
answer end_key batch_size locks (ok batch) = page end_key batch_size locks batch

-- `TransactionClient::scan_locks` over a range, with its batch size, is a parameter. The locks are
-- kept as the client gives them; `to_lock_obs` is applied at the end. `again` at the end of the
-- loop says that the fuel ran out.
module _ {W : Type 0} (scan_locks : Bytes → Bytes → ℕ → Call W Error (List LockInfo)) where
  unfoldable pub scan_loop : Bytes → ℕ → ℕ → Bytes → List LockInfo → W → Progress × W
  unfolding page
  scan_loop end_key batch_size zero cursor locks w = (again cursor locks, w)
  scan_loop end_key batch_size (suc fuel) cursor locks w =
      let (r, w') = scan_locks cursor end_key batch_size w in
      elim (answer end_key batch_size locks r) [
        | again next more ↦ scan_loop end_key batch_size fuel next more w'
        | failed e ↦ (failed e, w')
        | finished all ↦ (finished all, w')
      ]
