-- ===== src/Driver/Exec/Scan.antt =====
-- The whole `ScanLocks` command over regions that answer as the client documents.
use client_rust_test.Base.{
  ℕ, ◌<◌, ◌≡◌, ◌⊎◌, inl, inr, refl, Option, none, some, List, [], map, length, false, ◌==◌, Bytes,
  All, arith,
}
use mathlib.Core.Path.{subst}
use client_rust_test.Base.Map.{get}
use client_rust_test.Base.Result.{ok, Result-cases}
use client_rust_test.Proto.Observation.{Observation, ok_obs, new_obs, driver_error_obs, with_locks}
use client_rust_test.Proto.Command.{Command, KeyArg, bytes}
use client_rust_test.Driver.Paging.{LockInfo, Progress, scan_loop}
use client_rust_test.Driver.Paging.Sorting.{IsSorted}
use client_rust_test.Driver.Paging.Regions.{Answers, all_locks}
use client_rust_test.Driver.Paging.Partial.{Exact}
use client_rust_test.Driver.Paging.Loop.{Ends, scan_loop_lem}
use client_rust_test.Driver.Probe.{Api, Build}
use client_rust_test.Driver.Exec.{
  Driver, to_lock_obs, arm, scan_arm, scan_rest, scan_all, observed, execute,
}
use client_rust_test.Driver.Mapping.Failed.{is_ok, classify-is_ok}

Progress-cases :
    (p : Progress)
    → ((e : _) × (p ≡ Progress.failed e))
      ⊎ (((locks : List LockInfo) × (p ≡ Progress.finished locks))
          ⊎ ((cursor : Bytes) × (locks : List LockInfo) × (p ≡ Progress.again cursor locks)))
Progress-cases (Progress.failed e) = inl (e, refl)
Progress-cases (Progress.finished locks) = inr (inl (locks, refl))
Progress-cases (Progress.again cursor locks) = inr (inr (cursor, locks, refl))

-- An observation that is no success, or exactly the locks of the range, as observations.
abbrev pub Scanned : List (List LockInfo) → Bytes → Bytes → Option Observation → Type 0
Scanned rs start end none = ⊥
Scanned rs start end (some obs) =
    (is_ok obs.class ≡ false)
    ⊎ ((locks : List LockInfo) × Exact rs start end locks
        × (obs ≡ with_locks ok_obs (map to_lock_obs locks)))

module _ (build : Build) (api : Api) (rounds : ℕ) (rs : List (List LockInfo))
    (sorted : All IsSorted rs) (n : ℕ) (pos : 0 < n) (start end : KeyArg)
    (c : api.TransactionClient)
    (answers : (ts : api.Timestamp) (cursor : Bytes) (w : api.World) (batch : List LockInfo)
      → (api.scan_locks c ts cursor (bytes end) n w).0 ≡ ok batch
      → Answers rs n cursor (bytes end) batch) where
  loop_ends :
      (ts : api.Timestamp) (w : api.World)
      → length (all_locks rs) < rounds
      → Ends rs
          (bytes start)
          (bytes end)
          (scan_loop (api.scan_locks c ts) (bytes end) n rounds (bytes start) [] w).0
  loop_ends ts w h =
      scan_loop_lem (api.scan_locks c ts) rs sorted n pos (bytes start) (bytes end) (answers ts)
        rounds w h

  positive : (n == 0) ≡ false
  positive = ground arith

  rest :
      (ts : api.Timestamp) (d : Driver build api rounds) (w : api.World)
      → length (all_locks rs) < rounds
      → Scanned rs (bytes start) (bytes end) (
          observed build api rounds
            (scan_rest build api rounds c ts (bytes start) (bytes end) n (d, w)).0)
  unfolding scan_rest scan_all
  rest ts d w many =
      let p = (scan_loop (api.scan_locks c ts) (bytes end) n rounds (bytes start) [] w).0 in
      let ends = loop_ends ts w many in
      rw positive (elim (Progress-cases p) [
        | inl (e, q) ↦ rw q (inl (classify-is_ok _ _ e))
        | inr (inl (locks, q)) ↦
            rw q (inr (locks, subst (Ends rs (bytes start) (bytes end)) q ends, refl))
        | inr (inr (cursor, locks, q)) ↦ absurd (subst (Ends rs (bytes start) (bytes end)) q ends)
      ])

  -- Let the regions hold `rs`, each in key order, let every page that a client answers with have at
  -- most `n` locks of each region, the lowest first, with `n` positive, and let the loop have more
  -- rounds than there are locks. Then `ScanLocks` through a client that the driver has is always
  -- answered: with an observation that is no success, or with `ok` and exactly the locks of the
  -- range, every one, none twice, in the order of their keys.
  pub execute-Scanned :
      (client : Bytes) (d : Driver build api rounds) (w : api.World)
      → get client d.clients ≡ some c
      → length (all_locks rs) < rounds
      → Scanned rs
          (bytes start)
          (bytes end)
          (execute build api rounds (Command.scan_locks client start end n) (d, w)).0.observation
  unfolding execute arm scan_arm scan_rest scan_all driver_error_obs new_obs
  execute-Scanned client d w known many =
      rw known (elim (Result-cases (api.current_timestamp c w).0) [
        | inr (e, q) ↦ rw q (inl refl)
        | inl (ts, q) ↦ rw q (rest ts d (api.current_timestamp c w).1 many)
      ])
