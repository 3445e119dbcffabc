-- ===== src/Proto/Base64/Decoded.antt =====
-- What the decoder answers is made of bytes.
use mathlib.Core.Path.{subst}
use client_rust_test.Base.{
  ℕ, ◌+◌, ◌-◌, ◌/◌, ◌%◌, ◌^◌, ◌<◌, ◌≡◌, Option, none, some, [], ◌∷◌, ◌++◌, true, false, leb, ◌==◌,
  if◌then◌else◌, Bytes, bytes_eq, IsByte, All, Bool-cases, inl, inr, arith,
}
use client_rust_test.Proto.Base64.{
  shift_in, decode_loop, b64_encode, b64_decode_permissive, b64_decode,
}
use client_rust_test.Proto.Base64.Alphabet.{position}

abbrev Out : Option Bytes → Type 0
Out none = Unit
Out (some v) = All IsByte v

snoc-IsByte : (out : Bytes) (b : ℕ) → All IsByte out → b < 256 → All IsByte (out ++ b ∷ [])
snoc-IsByte [] b h lt = (lt, tt)
snoc-IsByte (x ∷ out) b (h, hs) lt = (h, snoc-IsByte out b hs lt)

decode_loop-Out :
    (cs : Bytes) (buf bits : ℕ) (out : Bytes) → All IsByte out → Out (decode_loop cs buf bits out)
unfolding decode_loop
decode_loop-Out [] buf bits out h = h
decode_loop-Out (c ∷ cs) buf bits out h = elim (Bool-cases (c == b'=')) [
  | inl y ↦ rw y h
  | inr n ↦
      rw n
        (elim (position c)
          as (λ o. Out (elim o [
            | none ↦ none
            | some v ↦ elim (leb 8 (bits + 6)) [
              | true ↦
                  decode_loop cs (shift_in buf v) (bits + 6 - 8)
                    (out ++ shift_in buf v / 2 ^ (bits + 6 - 8) % 2 ^ 8 ∷ [])
              | false ↦ decode_loop cs (shift_in buf v) (bits + 6) out
            ]
          ])) [
            | none ↦ tt
            | some v ↦
                elim (leb 8 (bits + 6))
                  as (λ b. Out (elim b [
                    | true ↦
                        decode_loop cs (shift_in buf v) (bits + 6 - 8)
                          (out ++ shift_in buf v / 2 ^ (bits + 6 - 8) % 2 ^ 8 ∷ [])
                    | false ↦ decode_loop cs (shift_in buf v) (bits + 6) out
                  ])) [
                    | true ↦ decode_loop-Out cs (shift_in buf v) (bits + 6 - 8) _ (
                        snoc-IsByte out (shift_in buf v / 2 ^ (bits + 6 - 8) % 2 ^ 8) h
                          (omega arith))
                    | false ↦ decode_loop-Out cs (shift_in buf v) (bits + 6) out h
                  ]
          ])
]

pub b64_decode-IsByte : (s v : Bytes) → b64_decode s ≡ some v → All IsByte v
unfolding b64_decode b64_decode_permissive
b64_decode-IsByte s v e = accepted (b64_decode_permissive s) (decode_loop-Out s 0 0 [] tt) e
  where
    accepted :
        (o : Option Bytes)
        → Out o
        → (elim o [
          | none ↦ none
          | some decoded ↦ if bytes_eq (b64_encode decoded) s then some decoded else none
        ])
          ≡ some v
        → All IsByte v
    accepted none h e = cc
    accepted (some d) h e = elim (Bool-cases (bytes_eq (b64_encode d) s)) [
      | inl y ↦ subst (All IsByte) (let same : d ≡ v = ground arith in same) h
      | inr n ↦ absurd (ground arith)
    ]
