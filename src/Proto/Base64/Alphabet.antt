-- ===== src/Proto/Base64/Alphabet.antt =====
-- The base64 alphabet, its characters by index and back.
use client_rust_test.Base.{
  ℕ, zero, suc, ◌+◌, ◌<◌, ◌≡◌, refl, Bool, true, false, not, ◌&&◌, Option, none, some, [], ◌∷◌,
  ◌==◌, if◌then◌else◌, Bytes, text, arith, each, each_lem,
}

pub alphabet : Bytes
unfolding text
alphabet = text "ABCDEFGHIJKLMNOPQRSTUVWXYZabcdefghijklmnopqrstuvwxyz0123456789+/"

at : Bytes → ℕ → ℕ
at [] i = 0
at (x ∷ xs) zero = x
at (x ∷ xs) (suc i) = at xs i

-- `ALPHABET[i]`, for `i` below 64
unfoldable pub alphabet_at : ℕ → ℕ
unfolding alphabet at
alphabet_at i = at alphabet i

find_from : Bytes → ℕ → ℕ → Option ℕ
find_from [] i c = none
find_from (x ∷ xs) i c = if x == c then some i else find_from xs (i + 1) c

-- `ALPHABET.iter().position(|&a| a == c)`
unfoldable pub position : ℕ → Option ℕ
unfolding alphabet find_from
position c = find_from alphabet 0 c

-- Index `i` has the character `a`, which is no `=`, and `a` has the position `o`.
is_own : ℕ → Option ℕ → ℕ → Bool
is_own i none a = false
is_own i (some j) a = j == i && not (a == b'=')

is_own_lem :
    (i : ℕ) (o : Option ℕ) (a : ℕ) → is_own i o a ≡ true → (o ≡ some i) × ((a == b'=') ≡ false)
unfolding is_own
is_own_lem i none a h = ground arith
is_own_lem i (some j) a h = ground arith

reads_back_table : each (λ i. is_own i (position (alphabet_at i)) (alphabet_at i)) 64 ≡ true
unfolding is_own position alphabet_at each
reads_back_table = refl

pub position-alphabet_at :
    (i : ℕ) → i < 64 → (position (alphabet_at i) ≡ some i) × ((alphabet_at i == b'=') ≡ false)
position-alphabet_at i h = is_own_lem i _ _ (each_lem _ 64 reads_back_table i h)
