-- ===== src/Harness/Corpus.antt =====
-- `deterministic_bytes` of crates/harness/src/lib.rs: xorshift64* with its 64-bit words.
pub mod Prefix
use Prim.Native.Nat.{bit_xor}
use client_rust_test.Base.{
  ℕ, zero, suc, ◌+◌, ◌*◌, ◌/◌, ◌%◌, ◌^◌, List, [], ◌∷◌, ◌++◌, length, take, ltb, if◌then◌else◌,
  Bytes,
}

-- `state ^= state >> 12; state ^= state << 25; state ^= state >> 27;`
unfoldable pub next_state : ℕ → ℕ
next_state state =
    let a = bit_xor state (state / 2 ^ 12) in
    let b = bit_xor a (a * 2 ^ 25 % 2 ^ 64) in bit_xor b (b / 2 ^ 27)

-- `state.wrapping_mul(0x2545_F491_4F6C_DD1D)`
unfoldable pub word_of : ℕ → ℕ
word_of state = state * 0x2545_f491_4f6c_dd1d % 2 ^ 64

-- `to_le_bytes`, of as many bytes
unfoldable pub le_bytes : ℕ → ℕ → Bytes
le_bytes zero n = []
le_bytes (suc count) n = n % 256 ∷ le_bytes count (n / 256)

-- The loop; each round adds eight bytes.
unfoldable pub fill : ℕ → ℕ → ℕ → Bytes → Bytes
unfolding next_state word_of le_bytes
fill len zero state out = out
fill len (suc fuel) state out =
    let state' = next_state state in
    let more = fill len fuel state' (out ++ le_bytes 8 (word_of state')) in
    if ltb (length out) len then more else out

abbrev pub max_one : ℕ → ℕ
max_one zero = 1
max_one (suc n) = suc n

unfoldable pub deterministic_bytes : ℕ → ℕ → Bytes
unfolding fill
deterministic_bytes seed len = take len (fill len len (max_one seed) [])
