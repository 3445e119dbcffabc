-- ===== src/Gate/Scan.antt =====
-- `get` and `scan` of the gate's metadata store, crates/parity-gate/src/lib.rs: reads on a snapshot
-- at a fresh timestamp.
pub mod Pages
pub mod Complete
use client_rust_test.Base.{
  ℕ, zero, suc, Option, none, some, List, [], ◌∷◌, ◌++◌, Bool, true, false, ◌==◌, if◌then◌else◌,
  Bytes, length,
}
use client_rust_test.Base.Result.{Result, Call, ok, err, ◌>>=◌, ◌>>◌, pure}
use client_rust_test.Tikv.Error.{Error}
use client_rust_test.Tikv.Client.{Client, BoundRange}
use client_rust_test.Gate.Prefix.{prefix_upper_bound}

abbrev pub scan_page : ℕ
scan_page = 256

-- `out.last()`, of a list that is not empty where it is read
unfoldable pub last_key : List (Bytes × Bytes) → Bytes
last_key [] = []
last_key (p ∷ []) = p.0
last_key (p ∷ q ∷ ps) = last_key (q ∷ ps)

module _ (c : Client) where
  unfoldable pub snapshot : Call c.World Error c.Snapshot
  snapshot = do ts ← c.current_timestamp; pure (c.snapshot ts (c.read_only c.new_optimistic))

  unfoldable pub get : Bytes → Call c.World Error (Option Bytes)
  unfolding snapshot
  get key = do snap ← snapshot; c.snapshot_get snap key

  -- The loop. `none` says that the fuel ran out.
  unfoldable pub scan_pages :
      c.Snapshot
      → Option Bytes
      → ℕ
      → Bytes
      → List (Bytes × Bytes)
      → Call c.World Error (Option (List (Bytes × Bytes)))
  unfolding last_key
  scan_pages snap upper zero cursor out = pure none
  scan_pages snap upper (suc fuel) cursor out = do
    page ← c.snapshot_scan snap (record { start = cursor; end = upper }) scan_page
    let rest = scan_pages snap upper fuel (last_key (out ++ page) ++ 0 ∷ []) (out ++ page)
    if length page == scan_page then rest else pure (some (out ++ page))

  unfoldable pub scan : ℕ → Bytes → Call c.World Error (Option (List (Bytes × Bytes)))
  unfolding snapshot scan_pages
  scan fuel prefix = do snap ← snapshot; scan_pages snap (prefix_upper_bound prefix) fuel prefix []
