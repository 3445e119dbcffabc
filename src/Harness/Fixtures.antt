-- ===== src/Harness/Fixtures.antt =====
-- The fixtures of crates/harness/src/lib.rs: keys, the prefix of a run, and the bytes of a corpus.
-- A `u64` is a number under 2 ^ 64.
pub mod Ascii
use client_rust_test.Base.{
  ℕ, zero, suc, ◌+◌, ◌*◌, ◌/◌, ◌%◌, ◌^◌, List, [], ◌∷◌, ◌++◌, Bytes, text, decimal, length, take,
  ltb, ◌==◌, if◌then◌else◌,
}

unfoldable pub key : Bytes → Bytes → Bytes
key prefix suffix = prefix ++ suffix

-- `format!("gate/{test}/{nanos}/")`, of the name and the clock's nanoseconds
unfoldable pub unique_prefix : Bytes → ℕ → Bytes
unique_prefix test nanos = text "gate/" ++ (test ++ (text "/" ++ (decimal nanos ++ text "/")))
