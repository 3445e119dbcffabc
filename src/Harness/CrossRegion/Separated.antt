-- ===== src/Harness/CrossRegion/Separated.antt =====
-- The wait for a boundary ends, and is met only by one layout that separates the keys.
use client_rust_test.Base.{
  ℕ, zero, suc, ◌+◌, ◌*◌, ◌≤◌, ◌<◌, ◌≡◌, ◌≢◌, refl, inl, inr, Option, none, some, true, false, ltb,
  Bool-cases, Bytes, bytes_lt, List, arith,
}
use client_rust_test.Harness.Memcomparable.{RegionInfo, locate}
use client_rust_test.Harness.CrossRegion.{
  Pd, Outcome, met, no_layout, bad_split, no_boundary, Step, ended, goes, timeout, pause, id_of,
  differ, region_pair, split_region_at, request, round, round_with, cross_loop, ensure_cross_region,
}

-- What a clock that never goes back makes of the calls.
pub record Clocked (pd : Pd) : Type 0 where
  pub time : pd.World → ℕ
  pub now_read : (w : pd.World) → time w ≤ (pd.now w).0
  pub now_after : (w : pd.World) → (pd.now w).0 ≤ time (pd.now w).1
  pub sleeps : (d : ℕ) (w : pd.World) → time w + d ≤ time (pd.sleep d w)
  pub regions_later : (w : pd.World) → time w ≤ time (pd.regions w).1
  pub split_later :
      (region_id : ℕ) (key : Bytes) (w : pd.World) → time w ≤ time (pd.post_split region_id key w).1

-- A region of the layout holds the one key, and another region the other.
abbrev pub Separates : List RegionInfo → Bytes → Bytes → Type 0
Separates snapshot lo hi =
    (a : RegionInfo) × (b : RegionInfo) × (locate snapshot lo ≡ some a)
    × (locate snapshot hi ≡ some b)
    × (a.id ≢ b.id)

differ-ids :
    (a b : Option RegionInfo)
    → differ (id_of a) (id_of b) ≡ true
    → (x : RegionInfo) × (y : RegionInfo) × (a ≡ some x) × (b ≡ some y) × (x.id ≢ y.id)
differ-ids none b h = absurd (cc)
differ-ids (some x) none h = absurd (cc)
differ-ids (some x) (some y) h = (x, y, refl, refl, λ e. ground arith)

module _ (pd : Pd) (clock : Clocked pd) (lo hi split_at : Bytes) where
  abbrev pub Ended : ℕ → Outcome → pd.World → Type 0
  Ended deadline met w =
      (w' : pd.World) × (snapshot : List RegionInfo) × ((pd.regions w').0 ≡ some snapshot)
      × Separates snapshot lo hi
      × (w ≡ (pd.regions w').1)
  Ended deadline no_layout w =
      (w' : pd.World) × ((pd.regions w').0 ≡ none) × (w ≡ (pd.regions w').1)
  Ended deadline bad_split w = ⊥
  Ended deadline (no_boundary attempts regions) w = deadline ≤ clock.time w

  abbrev Rounded : ℕ → pd.World → Step × pd.World → Type 0
  Rounded deadline w (ended r, w') = Ended deadline r w'
  Rounded deadline w (goes attempts, w') =
      (clock.time w < deadline) × (clock.time w + pause ≤ clock.time w')

  request_later :
      (o : Option RegionInfo) (w : pd.World) → clock.time w ≤ clock.time (request pd o split_at w)
  unfolding split_region_at
  request_later none w = omega arith
  request_later (some r) w = clock.split_later r.id _ w

  round_with-Rounded :
      (deadline attempts : ℕ) (w : pd.World) (snapshot : List RegionInfo)
      → (pd.regions w).0 ≡ some snapshot
      → Rounded deadline w
          (round_with pd lo hi split_at deadline attempts snapshot (pd.regions w).1)
  unfolding round_with region_pair
  round_with-Rounded deadline attempts w snapshot read =
      let w1 = (pd.regions w).1 in
      let w2 = (pd.now w1).1 in
      elim (Bool-cases (differ (id_of (locate snapshot lo)) (id_of (locate snapshot hi)))) [
        | inl apart ↦
            rw apart
              (w, snapshot, read, differ-ids (locate snapshot lo) (locate snapshot hi) apart, refl)
        | inr same ↦ elim (Bool-cases (ltb (pd.now w1).0 deadline)) [
          | inl early ↦
              rw (same, early)
                (let a = clock.regions_later w in
                  let b = clock.now_read w1 in
                  let c = clock.now_after w1 in
                  let d = request_later (locate snapshot lo) w2 in
                  let e = clock.sleeps pause (request pd (locate snapshot lo) split_at w2) in
                  (ground arith, omega arith))
          | inr late ↦ rw (same, late) (let c = clock.now_after w1 in ground arith)
        ]
      ]

  round-Rounded :
      (deadline attempts : ℕ) (w : pd.World)
      → Rounded deadline w (round pd lo hi split_at deadline attempts w)
  unfolding round
  round-Rounded deadline attempts w = read (pd.regions w).0 refl
    where
      read :
          (layout : Option (List RegionInfo))
          → (pd.regions w).0 ≡ layout
          → Rounded deadline w (elim layout as (λ l. Step × pd.World) [
            | none ↦ (ended no_layout, (pd.regions w).1)
            | some snapshot ↦
                round_with pd lo hi split_at deadline attempts snapshot (pd.regions w).1
          ])
      read none e = (w, e, refl)
      read (some snapshot) e = round_with-Rounded deadline attempts w snapshot e

  -- The wait has ended as it may, or there is fuel for the time that is left.
  abbrev Fits : ℕ → ℕ → Step × pd.World → Type 0
  Fits fuel deadline (ended r, w) = Ended deadline r w
  Fits zero deadline (goes attempts, w) = ⊥
  Fits (suc fuel) deadline (goes attempts, w) = deadline ≤ clock.time w + pause * fuel

  fits :
      (fuel deadline : ℕ) (w : pd.World) (s : Step × pd.World)
      → Rounded deadline w s
      → deadline ≤ clock.time w + pause * fuel
      → Fits fuel deadline s
  fits fuel deadline w (ended r, w') h many = h
  fits zero deadline w (goes attempts, w') h many = absurd (omega (arith, h.0, many))
  fits (suc fuel) deadline w (goes attempts, w') h many = omega (arith, h.0, h.1, many)

  abbrev pub Answered : ℕ → Option Outcome × pd.World → Type 0
  Answered deadline (none, w) = ⊥
  Answered deadline (some r, w) = Ended deadline r w

  loop_lem :
      (fuel deadline : ℕ) (s : Step × pd.World)
      → Fits fuel deadline s
      → Answered deadline (cross_loop pd lo hi split_at fuel deadline s)
  unfolding cross_loop
  loop_lem fuel deadline (ended r, w) h = h
  loop_lem zero deadline (goes attempts, w) h = absurd h
  loop_lem (suc fuel) deadline (goes attempts, w) h =
      loop_lem fuel deadline (round pd lo hi split_at deadline attempts w) (
        fits fuel deadline w (round pd lo hi split_at deadline attempts w)
          (round-Rounded deadline attempts w) h)

  -- Let the clock never go back, and let the key to split at lie above `lo` and not above `hi`. With
  -- fuel for the 90 pauses of its 45 seconds the wait ends: met, and then the last layout that was
  -- read has the two keys in two regions; with a panic, right after a read of PD that panicked; or
  -- with the failure, and that not before the deadline.
  pub ensure_cross_region-Answered :
      (fuel : ℕ) (w : pd.World)
      → 90 < fuel
      → bytes_lt lo split_at ≡ true
      → bytes_lt hi split_at ≡ false
      → Answered ((pd.now w).0 + timeout) (ensure_cross_region pd lo hi split_at fuel w)
  unfolding ensure_cross_region
  ensure_cross_region-Answered zero w many above below = absurd (omega arith)
  ensure_cross_region-Answered (suc fuel) w many above below =
      let a = clock.now_after w in
      rw (above, below)
        (loop_lem (suc fuel) ((pd.now w).0 + timeout) (goes 0, (pd.now w).1) (omega arith))
