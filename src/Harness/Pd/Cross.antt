-- ===== src/Harness/Pd/Cross.antt =====
-- The wait of Harness.CrossRegion over PD's HTTP interface: crates/harness/src/cluster.rs.
use mathlib.Core.Path.{subst}
use client_rust_test.Base.{
  ℕ, ◌+◌, ◌≤◌, ◌<◌, ◌≡◌, sym, Option, none, some, List, true, false, Bytes, bytes_lt, text,
}
use client_rust_test.Base.Result.{Result, ok, err}
use client_rust_test.Proto.Json.{Json}
use client_rust_test.Harness.Memcomparable.{RegionInfo}
use client_rust_test.Harness.CrossRegion.{
  Outcome, met, no_layout, bad_split, no_boundary, timeout, ensure_cross_region,
}
use client_rust_test.Harness.CrossRegion.Separated.{Separates, ensure_cross_region-Answered}
use client_rust_test.Harness.CrossRegion.Separated
use client_rust_test.Harness.Pd.{Http, Trouble, pd_addrs, pd_get, regions_of, regions, over_http}
use client_rust_test.Harness.Pd.First
use client_rust_test.Harness.Pd.First.{pd_get-Answered}
use client_rust_test.Harness.Pd.Clock.{HttpClocked, over_http_clock}

abbrev pub layout_path : Bytes
layout_path = text "/pd/api/v1/regions"

-- An answer that is no layout
abbrev pub Unreadable : Result (List Trouble) Json → Type 0
Unreadable (ok v) = regions_of v ≡ none
Unreadable (err errors) = Unit

module _ (http : Http) (clock : HttpClocked http) where
  -- What the endpoints answered from world `w` to world `w'`
  abbrev pub Read : http.World → Result (List Trouble) Json → http.World → Type 0
  Read w r w' = First.Answered http layout_path (pd_addrs http.addrs) w (r, w')

  regions_some :
      (w : http.World) (snapshot : List RegionInfo)
      → (regions http w).0 ≡ some snapshot
      → (v : Json) × Read w (ok v) (regions http w).1 × (regions_of v ≡ some snapshot)
  unfolding regions
  regions_some w snapshot h = go (pd_get http layout_path w) (pd_get-Answered http layout_path w) h
    where
      go :
          (r : Result (List Trouble) Json × http.World)
          → First.Answered http layout_path (pd_addrs http.addrs) w r
          → (elim r.0 as (λ x. Option (List RegionInfo)) [ ok v ↦ regions_of v | err es ↦ none ])
            ≡ some snapshot
          → (v : Json) × Read w (ok v) r.1 × (regions_of v ≡ some snapshot)
      go (ok v, w') read e = (v, read, e)
      go (err es, w') read e = absurd (cc)

  regions_none :
      (w : http.World)
      → (regions http w).0 ≡ none
      → (r : Result (List Trouble) Json) × Read w r (regions http w).1 × Unreadable r
  unfolding regions
  regions_none w h = go (pd_get http layout_path w) (pd_get-Answered http layout_path w) h
    where
      go :
          (r : Result (List Trouble) Json × http.World)
          → First.Answered http layout_path (pd_addrs http.addrs) w r
          → (elim r.0 as (λ x. Option (List RegionInfo)) [ ok v ↦ regions_of v | err es ↦ none ])
            ≡ none
          → (o : Result (List Trouble) Json) × Read w o r.1 × Unreadable o
      go (ok v, w') read e = (ok v, read, e)
      go (err es, w') read e = (err es, read, tt)

  module _ (lo hi : Bytes) where
    abbrev pub Ended : ℕ → Outcome → http.World → Type 0
    Ended deadline met w =
        (w' : http.World) × (v : Json) × (snapshot : List RegionInfo) × Read w' (ok v) w
        × (regions_of v ≡ some snapshot)
        × Separates snapshot lo hi
    Ended deadline no_layout w =
        (w' : http.World) × (r : Result (List Trouble) Json) × Read w' r w × Unreadable r
    Ended deadline bad_split w = ⊥
    Ended deadline (no_boundary attempts regions) w = deadline ≤ clock.time w

    abbrev pub Answered : ℕ → Option Outcome × http.World → Type 0
    Answered deadline (none, w) = ⊥
    Answered deadline (some r, w) = Ended deadline r w

    over :
        (split_at : Bytes) (deadline : ℕ) (r : Option Outcome × http.World)
        → Separated.Answered (over_http http) (over_http_clock http clock) lo hi split_at deadline r
        → Answered deadline r
    over split_at deadline (none, w) h = h
    over split_at deadline (some met, w) (w', snapshot, e, apart, same) =
        let (v, read, layout) = regions_some w' snapshot e in
        (w', v, snapshot, subst (Read w' (ok v)) (sym same) read, layout, apart)
    over split_at deadline (some no_layout, w) (w', e, same) =
        let (r, read, unreadable) = regions_none w' e in
        (w', r, subst (Read w' r) (sym same) read, unreadable)
    over split_at deadline (some bad_split, w) h = h
    over split_at deadline (some (no_boundary attempts regions), w) h = h

    -- Over HTTP, let no request, sleep or read of the clock move time back, and let the key to split
    -- at lie above `lo` and not above `hi`. With fuel for the 90 pauses of its 45 seconds the wait
    -- ends in one of three ways. It is met: the last thing done was one read of PD, answered by the
    -- first of its endpoints that is of use, whose JSON is a layout with the two keys in two
    -- regions. It panics: such a read found no endpoint of use, or JSON that is no layout. Or it
    -- fails, and that not before the deadline.
    pub ensure_cross_region-over_http :
        (split_at : Bytes) (fuel : ℕ) (w : http.World)
        → 90 < fuel
        → bytes_lt lo split_at ≡ true
        → bytes_lt hi split_at ≡ false
        → Answered
            ((http.now w).0 + timeout)
            (ensure_cross_region (over_http http) lo hi split_at fuel w)
    ensure_cross_region-over_http split_at fuel w many above below =
        over split_at ((http.now w).0 + timeout) _ (
          ensure_cross_region-Answered (over_http http) (over_http_clock http clock) lo hi split_at
            fuel w many above below)
