-- ===== src/Proto/Base64/RoundTrip.antt =====
-- Decoding is exact: it accepts what encoding writes, and nothing else.
use client_rust_test.Base.{
  ℕ, ◌+◌, ◌-◌, ◌*◌, ◌/◌, ◌%◌, ◌^◌, ◌<◌, ◌≡◌, refl, ◌∙◌, ap, sym, ◌↔◌, some, [], ◌∷◌, ◌++◌, Bytes,
  IsByte, All, bytes_eq→eq, bytes_eq_refl, append_assoc, append-nil, arith,
}
use client_rust_test.Proto.Base64.{
  b64_encode, shift_in, decode_loop, b64_decode_permissive, b64_decode,
}
use client_rust_test.Proto.Base64.Alphabet.{alphabet_at, position-alphabet_at}
use mathlib.Core.Path.{ap₂}

-- The last two sextets that were shifted in are the low twelve bits.
low_twelve : (buf s t : ℕ) → s < 64 → t < 64 → shift_in (shift_in buf s) t % 4096 ≡ s * 64 + t
low_twelve buf s t hs ht = omega arith

byte_four :
    (buf s t : ℕ) → s < 64 → t < 64 → shift_in (shift_in buf s) t / 2 ^ 4 % 2 ^ 8 ≡ s * 4 + t / 16
byte_four buf s t hs ht = omega (arith, low_twelve buf s t hs ht)

byte_two :
    (buf s t : ℕ)
    → s < 64
    → t < 64
    → shift_in (shift_in buf s) t / 2 ^ 2 % 2 ^ 8 ≡ s % 16 * 16 + t / 4
byte_two buf s t hs ht = omega (arith, low_twelve buf s t hs ht)

byte_zero :
    (buf s t : ℕ) → s < 64 → t < 64 → shift_in (shift_in buf s) t / 2 ^ 0 % 2 ^ 8 ≡ s % 4 * 64 + t
byte_zero buf s t hs ht = omega (arith, low_twelve buf s t hs ht)

-- One round on a character of the alphabet_at.
round_short :
    (s : ℕ) (cs : Bytes) (buf bits : ℕ) (out : Bytes)
    → s < 64
    → bits < 2
    → decode_loop (alphabet_at s ∷ cs) buf bits out ≡ decode_loop cs (shift_in buf s) (bits + 6) out
unfolding decode_loop
round_short s cs buf bits out h hb = ground (arith, position-alphabet_at s h)

round_long :
    (s : ℕ) (cs : Bytes) (buf bits : ℕ) (out : Bytes)
    → s < 64
    → 1 < bits
    → decode_loop (alphabet_at s ∷ cs) buf bits out
      ≡ decode_loop cs
          (shift_in buf s)
          (bits + 6 - 8)
          (out ++ shift_in buf s / 2 ^ (bits + 6 - 8) % 2 ^ 8 ∷ [])
unfolding decode_loop
round_long s cs buf bits out h hb = ground (arith, position-alphabet_at s h)

module _ (s t : ℕ) (hs : s < 64) (ht : t < 64) (cs : Bytes) (buf : ℕ) (out : Bytes) where
  two_rounds :
      decode_loop (alphabet_at s ∷ alphabet_at t ∷ cs) buf 0 out
      ≡ decode_loop cs (shift_in (shift_in buf s) t) 4 (out ++ (s * 4 + t / 16) ∷ [])
  two_rounds =
      round_short s (alphabet_at t ∷ cs) buf 0 out hs (omega arith)
      ∙ round_long t cs (shift_in buf s) 6 out ht (omega arith)
      ∙ ap (λ x. decode_loop cs (shift_in (shift_in buf s) t) 4 (out ++ x ∷ []))
          (byte_four buf s t hs ht)

  third_round :
      decode_loop (alphabet_at t ∷ cs) (shift_in buf s) 4 out
      ≡ decode_loop cs (shift_in (shift_in buf s) t) 2 (out ++ (s % 16 * 16 + t / 4) ∷ [])
  third_round =
      round_long t cs (shift_in buf s) 4 out ht (omega arith)
      ∙ ap (λ x. decode_loop cs (shift_in (shift_in buf s) t) 2 (out ++ x ∷ []))
          (byte_two buf s t hs ht)

  fourth_round :
      decode_loop (alphabet_at t ∷ cs) (shift_in buf s) 2 out
      ≡ decode_loop cs (shift_in (shift_in buf s) t) 0 (out ++ (s % 4 * 64 + t) ∷ [])
  fourth_round =
      round_long t cs (shift_in buf s) 2 out ht (omega arith)
      ∙ ap (λ x. decode_loop cs (shift_in (shift_in buf s) t) 0 (out ++ x ∷ []))
          (byte_zero buf s t hs ht)

pad_ends :
    (cs : Bytes) (buf bits : ℕ) (out : Bytes) → decode_loop (b'=' ∷ cs) buf bits out ≡ some out
unfolding decode_loop
pad_ends cs buf bits out = refl

abbrev six : ℕ → ℕ → ℕ → ℕ → ℕ
six a b c shift = (a * 2 ^ 16 + b * 2 ^ 8 + c) / 2 ^ shift % 64

six_lt : (a b c shift : ℕ) → six a b c shift < 64
six_lt a b c shift = omega arith

module _ (a b c : ℕ) (ha : a < 256) (hb : b < 256) (hc : c < 256) where
  first_byte : six a b c 18 * 4 + six a b c 12 / 16 ≡ a
  first_byte = omega arith

  second_byte : six a b c 12 % 16 * 16 + six a b c 6 / 4 ≡ b
  second_byte = omega arith

  third_byte : six a b c 6 % 4 * 64 + six a b c 0 ≡ c
  third_byte = omega arith

loop_ends : (buf bits : ℕ) (out : Bytes) → decode_loop [] buf bits out ≡ some out
unfolding decode_loop
loop_ends buf bits out = refl

decode_loop-b64_encode :
    (bs : Bytes) (buf : ℕ) (out : Bytes)
    → All IsByte bs
    → decode_loop (b64_encode bs) buf 0 out ≡ some (out ++ bs)
unfolding b64_encode
decode_loop-b64_encode [] buf out h = loop_ends buf 0 out ∙ ap some (sym (append-nil out))
decode_loop-b64_encode (a ∷ []) buf out h =
    two_rounds _ _ (six_lt a 0 0 18) (six_lt a 0 0 12) _ buf out
    ∙ pad_ends _ _ 4 _
    ∙ ap (λ x. some (out ++ x ∷ [])) (first_byte a 0 0 h.0 (omega arith) (omega arith))
decode_loop-b64_encode (a ∷ b ∷ []) buf out h =
    two_rounds _ _ (six_lt a b 0 18) (six_lt a b 0 12) _ buf out
    ∙ third_round _ _ (six_lt a b 0 12) (six_lt a b 0 6) _ _ _
    ∙ pad_ends _ _ 2 _
    ∙ ap some (
        append_assoc out _ _
        ∙ ap₂ (λ x y. out ++ x ∷ y ∷ []) (first_byte a b 0 h.0 h.1.0 (omega arith))
            (second_byte a b 0 h.0 h.1.0 (omega arith)))
decode_loop-b64_encode (a ∷ b ∷ c ∷ rest) buf out h =
    two_rounds _ _ (six_lt a b c 18) (six_lt a b c 12) _ buf out
    ∙ third_round _ _ (six_lt a b c 12) (six_lt a b c 6) _ _ _
    ∙ fourth_round _ _ (six_lt a b c 6) (six_lt a b c 0) _ _ _
    ∙ decode_loop-b64_encode rest _ _ h.1.1.1
    ∙ ap some (
        rw
          (
            first_byte a b c h.0 h.1.0 h.1.1.0,
            second_byte a b c h.0 h.1.0 h.1.1.0,
            third_byte a b c h.0 h.1.0 h.1.1.0,
          )
          (simp append_assoc))

pub b64_decode-b64_encode : (bs : Bytes) → All IsByte bs → b64_decode (b64_encode bs) ≡ some bs
unfolding b64_decode b64_decode_permissive
b64_decode-b64_encode bs h =
    ground (arith, decode_loop-b64_encode bs 0 [] h, bytes_eq_refl (b64_encode bs))

-- What is accepted encodes back to the input, whatever the input is.
b64_encode-b64_decode : (s bs : Bytes) → b64_decode s ≡ some bs → b64_encode bs ≡ s
unfolding b64_decode
b64_encode-b64_decode s bs h = ground (arith, bytes_eq→eq (b64_encode bs) s)

-- For a string `bs` of bytes, the decoder answers `bs` on exactly one text: the one that the encoder
-- writes for `bs`. So every other spelling (a stray character, padding in the middle, a lone
-- sextet, set residual bits) is refused or means other bytes.
pub b64_decode_iff : (s bs : Bytes) → All IsByte bs → (b64_decode s ≡ some bs) ↔ (s ≡ b64_encode bs)
b64_decode_iff s bs h =
    (λ e. sym (b64_encode-b64_decode s bs e), λ e. rw e (b64_decode-b64_encode bs h))
