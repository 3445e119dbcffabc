-- ===== src/Harness/CrossRegion.antt =====
-- The region layout as PD reports it, and the wait until a boundary separates two keys:
-- crates/harness/src/cluster.rs. PD, its clock and the sleep are parameters; times are milliseconds.
pub mod Separated
pub mod Hex
use client_rust_test.Base.{
  ℕ, zero, suc, ◌+◌, ◌*◌, ◌/◌, ◌%◌, ◌-◌, Option, none, some, List, [], ◌∷◌, ◌++◌, Bool, true, false,
  not, ◌&&◌, ◌==◌, ltb, leb, if◌then◌else◌, Bytes, bytes_lt, length,
}
use client_rust_test.Harness.Memcomparable.{RegionInfo, encode_key, locate}

-- `format!("{b:02x}")` of each byte
abbrev pub digit : ℕ → ℕ
digit d = if ltb d 10 then 48 + d else 87 + d

unfoldable pub to_hex : Bytes → Bytes
to_hex [] = []
to_hex (b ∷ bs) = digit (b / 16) ∷ digit (b % 16) ∷ to_hex bs

-- The value of a digit; `none` is an error.
abbrev pub digit_value : ℕ → Option ℕ
digit_value c =
    if leb 48 c && leb c 57
    then some (c - 48)
    else if leb 97 c && leb c 102
    then some (c - 87)
    else if leb 65 c && leb c 70
    then some (c - 55)
    else none

abbrev pub pair_value : Option ℕ → Option ℕ → Option Bytes → Option Bytes
pair_value (some high) (some low) (some bs) = some ((16 * high + low) ∷ bs)
pair_value _ _ _ = none

-- `u8::from_str_radix(.., 16)` of two characters; the first may be a `+`.
abbrev pub high_value : ℕ → Option ℕ
high_value c = if c == 43 then some 0 else digit_value c

-- `none` is the panic on what is no hex, or on an odd length.
unfoldable pub hex_to_bytes : Bytes → Option Bytes
hex_to_bytes [] = some []
hex_to_bytes (c ∷ []) = none
hex_to_bytes (c ∷ d ∷ cs) = pair_value (high_value c) (digit_value d) (hex_to_bytes cs)

abbrev pub id_of : Option RegionInfo → Option ℕ
id_of none = none
id_of (some r) = some r.id

abbrev pub differ : Option ℕ → Option ℕ → Bool
differ (some a) (some b) = not (a == b)
differ _ _ = false

-- `region_pair`, of a snapshot
unfoldable pub region_pair : List RegionInfo → Bytes → Bytes → Option ℕ × Option ℕ
region_pair snapshot a b = (id_of (locate snapshot a), id_of (locate snapshot b))

-- PD, as Harness.Pd provides it: one read of the layout, where `none` is its panic, and a request to
-- split a region at a key in hex, which PD may reject.
pub record Pd : Type 1 where
  pub World : Type 0
  pub regions : World → Option (List RegionInfo) × World
  pub post_split : (region_id : ℕ) (key : Bytes) → World → Bool × World
  pub now : World → ℕ × World
  pub sleep : ℕ → World → World

pub data Outcome : Type 0 where
  met : Outcome
  -- The panic of a read of PD
  no_layout : Outcome
  -- The panics of the two assertions
  bad_split : Outcome
  no_boundary : (attempts regions : ℕ) → Outcome

-- The end of the wait, or the requests made so far.
pub data Step : Type 0 where
  ended : Outcome → Step
  goes : (attempts : ℕ) → Step

abbrev pub timeout : ℕ
timeout = 45000

abbrev pub pause : ℕ
pause = 500

module _ (pd : Pd) where
  -- `are_cross_region`
  unfoldable pub are_cross_region : Bytes → Bytes → pd.World → Option Bool × pd.World
  unfolding region_pair
  are_cross_region a b w =
      let (layout, w') = pd.regions w in
      (
        elim layout [
          | none ↦ none
          | some snapshot ↦ let (x, y) = region_pair snapshot a b in some (differ x y)
        ],
        w',
      )

  unfoldable pub split_region_at : ℕ → Bytes → pd.World → Bool × pd.World
  unfolding to_hex
  split_region_at region_id at_key w = pd.post_split region_id (to_hex (encode_key at_key)) w

  -- The request, if a region holds the key; a rejection is only printed.
  abbrev pub request : Option RegionInfo → Bytes → pd.World → pd.World
  request none split_at w = w
  request (some region) split_at w = (split_region_at region.id split_at w).1

  module _ (lo hi split_at : Bytes) where
    -- One round of the loop, from the layout to the sleep
    unfoldable pub round_with : ℕ → ℕ → List RegionInfo → pd.World → Step × pd.World
    unfolding region_pair split_region_at
    round_with deadline attempts snapshot w1 =
        let (a, b) = region_pair snapshot lo hi in
        let (t, w2) = pd.now w1 in
        if differ a b
        then (ended met, w1)
        else if ltb t deadline
        then (goes (suc attempts), pd.sleep pause (request (locate snapshot lo) split_at w2))
        else (ended (no_boundary attempts (length snapshot)), w2)

    unfoldable pub round : ℕ → ℕ → pd.World → Step × pd.World
    unfolding round_with
    round deadline attempts w =
        let (layout, w1) = pd.regions w in
        elim layout [
          | none ↦ (ended no_layout, w1)
          | some snapshot ↦ round_with deadline attempts snapshot w1
        ]

    -- The loop; `none` says that the fuel ran out.
    unfoldable pub cross_loop : ℕ → ℕ → Step × pd.World → Option Outcome × pd.World
    unfolding round
    cross_loop fuel deadline (ended r, w) = (some r, w)
    cross_loop zero deadline (goes attempts, w) = (none, w)
    cross_loop (suc fuel) deadline (goes attempts, w) =
        cross_loop fuel deadline (round deadline attempts w)

    unfoldable pub ensure_cross_region : ℕ → pd.World → Option Outcome × pd.World
    unfolding cross_loop
    ensure_cross_region fuel w =
        let (start, w') = pd.now w in
        if bytes_lt lo split_at && not (bytes_lt hi split_at)
        then cross_loop fuel (start + timeout) (goes 0, w')
        else (some bad_split, w)
