-- ===== src/Proto/Base64.antt =====
-- The base64 of crates/parity-proto/src/observation.rs. Text is its bytes.
pub mod Alphabet
pub mod RoundTrip
pub mod Decoded
use client_rust_test.Base.{
  ℕ, ◌+◌, ◌-◌, ◌*◌, ◌/◌, ◌%◌, ◌^◌, Option, none, some, List, [], ◌∷◌, ◌++◌, leb, ◌==◌,
  if◌then◌else◌, Bytes, bytes_eq, true, false,
}
use Alphabet.{alphabet_at, position}

-- The 24 bits of a chunk. The shifted bytes share no bit, so `|` is a sum.
abbrev word : ℕ → ℕ → ℕ → ℕ
word a b c = a * 2 ^ 16 + b * 2 ^ 8 + c

-- The character of the six bits of `n` from bit `shift` on.
abbrev pub sextet : ℕ → ℕ → ℕ
sextet n shift = alphabet_at (n / 2 ^ shift % 64)

-- `chunks(3)`: the last chunk may have one byte or two, and the others count as 0.
unfoldable pub b64_encode : Bytes → Bytes
b64_encode [] = []
b64_encode (a ∷ []) = let n = word a 0 0 in sextet n 18 ∷ sextet n 12 ∷ b'=' ∷ b'=' ∷ []
b64_encode (a ∷ b ∷ []) = let n = word a b 0 in sextet n 18 ∷ sextet n 12 ∷ sextet n 6 ∷ b'=' ∷ []
b64_encode (a ∷ b ∷ c ∷ rest) =
    let n = word a b c in sextet n 18 ∷ sextet n 12 ∷ sextet n 6 ∷ sextet n 0 ∷ b64_encode rest

-- `(buf << 6) | v` on u32: what is shifted out is lost, and `v` has six bits.
abbrev pub shift_in : ℕ → ℕ → ℕ
shift_in buf v = buf * 2 ^ 6 % 2 ^ 32 + v

-- The loop over the characters; the early end at a `=` and the `?` on an unknown one included.
unfoldable pub decode_loop : Bytes → ℕ → ℕ → Bytes → Option Bytes
decode_loop [] buf bits out = some out
decode_loop (c ∷ cs) buf bits out = if c == b'=' then some out else elim (position c) [
  | none ↦ none
  | some v ↦ elim (leb 8 (bits + 6)) [
    | true ↦
        decode_loop cs (shift_in buf v) (bits + 6 - 8)
          (out ++ shift_in buf v / 2 ^ (bits + 6 - 8) % 2 ^ 8 ∷ [])
    | false ↦ decode_loop cs (shift_in buf v) (bits + 6) out
  ]
]

pub b64_decode_permissive : Bytes → Option Bytes
b64_decode_permissive input = decode_loop input 0 0 []

-- Accepted only if encoding the result gives the input back.
unfoldable pub b64_decode : Bytes → Option Bytes
unfolding b64_decode_permissive
b64_decode input = elim (b64_decode_permissive input) [
  | none ↦ none
  | some decoded ↦ if bytes_eq (b64_encode decoded) input then some decoded else none
]
