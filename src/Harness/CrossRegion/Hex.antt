-- ===== src/Harness/CrossRegion/Hex.antt =====
-- Keys in hex read back.
use client_rust_test.Base.{
  ℕ, ◌+◌, ◌*◌, ◌/◌, ◌%◌, ◌<◌, ◌≡◌, refl, some, [], ◌∷◌, false, ◌==◌, Bool, Option, none, Bytes, All,
  IsByte, arith,
}
use client_rust_test.Harness.CrossRegion.{digit, digit_value, high_value, to_hex, hex_to_bytes}

abbrev reads : ℕ → Option ℕ → Bool
reads b none = false
reads b (some v) = v == b

digits_read : (d : ℕ) → d < 16 → (digit_value (digit d) ≡ some d) × (high_value (digit d) ≡ some d)
digits_read d h = (ground arith, ground arith)

-- What PD is asked to split at, and what it reports as a bound, read back as the bytes that they are.
pub hex_to_bytes-to_hex : (bs : Bytes) → All IsByte bs → hex_to_bytes (to_hex bs) ≡ some bs
unfolding hex_to_bytes to_hex
hex_to_bytes-to_hex [] h = refl
hex_to_bytes-to_hex (b ∷ bs) (byte, h) =
    rw
      (
        (digits_read (b / 16) (omega arith)).1,
        (digits_read (b % 16) (omega arith)).0,
        hex_to_bytes-to_hex bs h,
      )
      (rw (whole b) refl)
  where
    whole : (b : ℕ) → 16 * (b / 16) + b % 16 ≡ b
    whole b = omega arith
