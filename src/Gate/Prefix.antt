-- ===== src/Gate/Prefix.antt =====
-- `prefix_upper_bound` of crates/parity-gate/src/lib.rs: the exclusive end of a prefix scan.
pub mod Bounds
use mathlib.Core.List.{reverse}
use client_rust_test.Base.{
  ℕ, ◌+◌, Option, none, some, List, [], ◌∷◌, Bool, true, false, ◌&&◌, ◌==◌, if◌then◌else◌, Bytes,
}

-- The loop on `upper`, whose last byte is the head of the list here: a 0xFF is popped, any other
-- byte is incremented and ends the loop.
pub upper_loop : Bytes → Option Bytes
upper_loop [] = none
upper_loop (last ∷ rest) =
    let popped = upper_loop rest in
    if last == 0xff then popped else some (reverse ((last + 1) ∷ rest))

unfoldable pub prefix_upper_bound : Bytes → Option Bytes
unfolding upper_loop
prefix_upper_bound prefix = upper_loop (reverse prefix)

-- `slice::starts_with`, with the prefix first.
unfoldable pub starts_with : Bytes → Bytes → Bool
starts_with [] k = true
starts_with (p ∷ ps) [] = false
starts_with (p ∷ ps) (x ∷ xs) = (p == x) && starts_with ps xs
