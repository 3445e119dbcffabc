-- ===== src/Harness/Pd/Layout.antt =====
-- The region layout in PD's JSON reads back: `regions` of crates/harness/src/cluster.rs.
use client_rust_test.Base.{
  ℕ, ◌+◌, ◌*◌, ◌/◌, ◌%◌, ◌^◌, ◌<◌, ◌≡◌, refl, some, List, [], ◌∷◌, Bool, true, false, ltb,
  if◌then◌else◌, Bytes, bytes_eq, text, All, IsByte, length, arith,
}
use client_rust_test.Proto.Json.{Json, Items, Fields, member, value_of, as_str, as_u64, as_array}
use client_rust_test.Harness.Memcomparable.{RegionInfo}
use client_rust_test.Harness.CrossRegion.{digit_value, high_value, hex_to_bytes}
use client_rust_test.Harness.Pd.{region_info, region_infos, regions_of}

-- A digit of hex, in capitals or not
abbrev pub hex_digit : Bool → ℕ → ℕ
hex_digit capital d = if ltb d 10 then 48 + d else (if capital then 55 else 87) + d

unfoldable pub hex : Bool → Bytes → Bytes
hex capital [] = []
hex capital (b ∷ bs) = hex_digit capital (b / 16) ∷ hex_digit capital (b % 16) ∷ hex capital bs

-- The entry that PD reports of a region, and its whole answer.
abbrev pub entry : Bool → RegionInfo → Json
entry capital r = Json.object (
    Fields.field (text "end_key") (Json.string (hex capital r.end)) (
      Fields.field (text "id") (Json.number r.id)
        (Fields.field (text "start_key") (Json.string (hex capital r.start)) Fields.end)))

abbrev pub entries : Bool → List RegionInfo → Items
entries capital [] = Items.nil
entries capital (r ∷ rs) = Items.item (entry capital r) (entries capital rs)

abbrev pub layout : Bool → List RegionInfo → Json
layout capital rs = Json.object (
    Fields.field (text "count") (Json.number (length rs))
      (Fields.field (text "regions") (Json.array (entries capital rs)) Fields.end))

-- An id of 64 bits, and bounds of bytes.
abbrev pub IsReported : RegionInfo → Type 0
IsReported r = (r.id < 2 ^ 64) × All IsByte r.start × All IsByte r.end

digits_read :
    (capital : Bool) (d : ℕ)
    → d < 16
    → (digit_value (hex_digit capital d) ≡ some d) × (high_value (hex_digit capital d) ≡ some d)
digits_read true d h = (ground arith, ground arith)
digits_read false d h = (ground arith, ground arith)

hex_to_bytes-hex :
    (capital : Bool) (bs : Bytes) → All IsByte bs → hex_to_bytes (hex capital bs) ≡ some bs
unfolding hex_to_bytes hex
hex_to_bytes-hex capital [] h = refl
hex_to_bytes-hex capital (b ∷ bs) (byte, h) =
    rw
      (
        (digits_read capital (b / 16) (omega arith)).1,
        (digits_read capital (b % 16) (omega arith)).0,
        hex_to_bytes-hex capital bs h,
      )
      (rw (whole b) refl)
  where
    whole : (b : ℕ) → 16 * (b / 16) + b % 16 ≡ b
    whole b = omega arith

region_info-entry :
    (capital : Bool) (r : RegionInfo) → IsReported r → region_info (entry capital r) ≡ some r
unfolding region_info member value_of as_str as_u64 bytes_eq text
region_info-entry capital r (small, start, end) =
    rw (hex_to_bytes-hex capital r.start start, hex_to_bytes-hex capital r.end end, fits) refl
  where
    fits : ltb r.id (2 ^ 64) ≡ true
    fits = ground arith

region_infos-entries :
    (capital : Bool) (rs : List RegionInfo)
    → All IsReported rs
    → region_infos (entries capital rs) ≡ some rs
unfolding region_infos
region_infos-entries capital [] h = refl
region_infos-entries capital (r ∷ rs) (reported, h) =
    rw (region_info-entry capital r reported, region_infos-entries capital rs h) refl

-- A layout that PD reports, with the bounds in hex of capital letters or small ones, is read as the
-- regions that it is of, where the ids have 64 bits and the bounds are bytes.
pub regions_of-layout :
    (capital : Bool) (rs : List RegionInfo)
    → All IsReported rs
    → regions_of (layout capital rs) ≡ some rs
unfolding regions_of as_array member value_of bytes_eq text
regions_of-layout capital rs h = region_infos-entries capital rs h
