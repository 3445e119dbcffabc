-- ===== src/Gate/Prefix/Bounds.antt =====
-- The range from a prefix to its upper bound holds exactly the keys that begin with the prefix.
use mathlib.Core.List.{reverse, reverse-append}
use client_rust_test.Base.{
  ℕ, ◌+◌, ◌≡◌, refl, Option, none, some, [], ◌∷◌, ◌++◌, ◌==◌, if◌then◌else◌, Bytes, IsByte, All,
  bytes_lt, arith,
}
use client_rust_test.Tikv.Client.{range_holds}
use client_rust_test.Gate.Prefix.{upper_loop, prefix_upper_bound, starts_with}

-- The same bound by recursion from the front.
bound : Bytes → Option Bytes
bound [] = none
bound (x ∷ xs) = elim (bound xs) [
  | some u ↦ some (x ∷ u)
  | none ↦ if x == 0xff then none else some ((x + 1) ∷ [])
]

-- One byte more at the far end of the loop's list.
abbrev behind : ℕ → Option Bytes → Option Bytes
behind x (some u) = some (x ∷ u)
behind x none = if x == 0xff then none else some ((x + 1) ∷ [])

upper_loop-append : (ys : Bytes) (x : ℕ) → upper_loop (ys ++ x ∷ []) ≡ behind x (upper_loop ys)
unfolding upper_loop
upper_loop-append [] x = ground arith
upper_loop-append (y ∷ ys) x =
    ground (arith, upper_loop-append ys x, reverse-append ((y + 1) ∷ ys) (x ∷ []))

prefix_upper_bound-bound : (p : Bytes) → prefix_upper_bound p ≡ bound p
unfolding prefix_upper_bound bound
prefix_upper_bound-bound [] = refl
prefix_upper_bound-bound (x ∷ xs) = ground (
  arith,
  prefix_upper_bound-bound xs,
  reverse-append (x ∷ []) xs,
  upper_loop-append (reverse xs) x,
)

range_holds-bound :
    (p k : Bytes)
    → All IsByte p
    → All IsByte k
    → range_holds (record { start = p; end = bound p }) k ≡ starts_with p k
unfolding bound starts_with bytes_lt
range_holds-bound [] k hp hk = ground arith
range_holds-bound (x ∷ xs) [] hp hk = ground arith
range_holds-bound (x ∷ xs) (y ∷ ys) hp hk = ground (arith, range_holds-bound xs ys hp.1 hk.1)

-- For a byte string `p` and a key `k` of bytes: the range from `p` to `prefix_upper_bound p`, which
-- has no end if that is `None`, holds `k` exactly if `k` begins with `p`.
pub range_holds-starts_with :
    (p k : Bytes)
    → All IsByte p
    → All IsByte k
    → range_holds (record { start = p; end = prefix_upper_bound p }) k ≡ starts_with p k
range_holds-starts_with p k hp hk = rw (prefix_upper_bound-bound p) (range_holds-bound p k hp hk)
