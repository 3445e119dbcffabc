-- ===== src/Harness/Memcomparable/Order.antt =====
-- The encoding keeps the order of keys, so encoded bounds cut the raw keys where the raw bounds do.
use native.Mathlib.Decide.{dec_lt}
use client_rust_test.Base.{
  ℕ, zero, suc, ◌-◌, ◌≤◌, ◌<◌, ◌≡◌, refl, ap, [], ◌∷◌, ◌++◌, true, false, not, ◌&&◌, Bytes,
  bytes_lt, bytes_lt_irrefl, bytes_lt_asymm, bytes_lt-append_cancel, length, take, drop, replicate,
  length-take, length-drop, take_all, drop_all, append_assoc, append-nil, arith,
}
use client_rust_test.Harness.Memcomparable.{
  group, chunks, encode_chunk, encode_chunks, closing, encode_key, is_empty, contains,
}

-- The encoding byte by byte, with `n` places left in the current group.
fill : ℕ → Bytes → Bytes
fill zero k = []
fill (suc n) [] = replicate (suc n) 0 ++ (0xff - suc n) ∷ []
fill (suc zero) (x ∷ k) = x ∷ 0xff ∷ fill group k
fill (suc (suc n)) (x ∷ k) = x ∷ fill (suc n) k

fill_full :
    (n : ℕ) (k : Bytes)
    → n < length k
    → fill (suc n) k ≡ take (suc n) k ++ 0xff ∷ fill group (drop (suc n) k)
unfolding fill
fill_full n [] h = absurd (omega arith)
fill_full zero (x ∷ k) h = refl
fill_full (suc n) (x ∷ k) h = ap (λ t. x ∷ t) (fill_full n k (omega arith))

fill_short :
    (n : ℕ) (k : Bytes)
    → length k ≤ n
    → fill (suc n) k ≡ k ++ (replicate (suc n - length k) 0 ++ (0xff - (suc n - length k)) ∷ [])
unfolding fill
fill_short n [] h = let e : suc n - 0 ≡ suc n = omega arith in rw e
fill_short zero (x ∷ k) h = absurd (omega arith)
fill_short (suc n) (x ∷ k) h =
    let e : suc (suc n) - suc (length k) ≡ suc n - length k = omega arith in
    rw e (ap (λ t. x ∷ t) (fill_short n k (omega arith)))

-- A key that ends sorts below any key that goes on with zeros in the same group.
padding-lt-fill :
    (n m : ℕ) (k : Bytes)
    → suc n < m
    → m < 256
    → bytes_lt (replicate (suc n) 0 ++ (0xff - m) ∷ []) (fill (suc n) k) ≡ true
unfolding fill bytes_lt
padding-lt-fill n m [] h hm =
    rw (bytes_lt-append_cancel (replicate (suc n) 0) ((0xff - m) ∷ []) ((0xff - suc n) ∷ []))
      (ground arith)
padding-lt-fill zero m (x ∷ k) h hm = ground arith
padding-lt-fill (suc n) m (x ∷ k) h hm = ground (arith, padding-lt-fill n m k)

nil-lt-fill :
    (n : ℕ) (x : ℕ) (k : Bytes) → n < 255 → bytes_lt (fill (suc n) []) (fill (suc n) (x ∷ k)) ≡ true
unfolding fill bytes_lt
nil-lt-fill zero x k h = ground arith
nil-lt-fill (suc n) x k h = ground (arith, padding-lt-fill n (suc (suc n)) k)

bytes_lt-fill :
    (n : ℕ) (k j : Bytes) → n < 8 → bytes_lt (fill (suc n) k) (fill (suc n) j) ≡ bytes_lt k j
unfolding fill bytes_lt
bytes_lt-fill n [] [] h = bytes_lt_irrefl (fill (suc n) [])
bytes_lt-fill n [] (y ∷ j) h = nil-lt-fill n y j (omega arith)
bytes_lt-fill n (x ∷ k) [] h =
    bytes_lt_asymm (fill (suc n) []) (fill (suc n) (x ∷ k)) (nil-lt-fill n x k (omega arith))
bytes_lt-fill zero (x ∷ k) (y ∷ j) h = ground (arith, bytes_lt-fill 7 k j)
bytes_lt-fill (suc n) (x ∷ k) (y ∷ j) h = ground (arith, bytes_lt-fill n k j)

closing_full : (len : ℕ) → group ≤ len → closing len ≡ closing (len - group)
unfolding closing
closing_full len h = ground arith

closing_short : (len : ℕ) → 0 < len → len < group → closing len ≡ []
unfolding closing
closing_short len h k = ground arith

encode_chunk_full : (c : Bytes) → length c ≡ group → encode_chunk c ≡ c ++ 0xff ∷ []
unfolding encode_chunk
encode_chunk_full c h = rw h

chunks-nil : (f : ℕ) → encode_chunks (chunks f []) ≡ []
unfolding chunks encode_chunks
chunks-nil zero = refl
chunks-nil (suc f) = refl

-- One round of the loop on a whole group, and on the last, shorter one.
chunk_full :
    (f : ℕ) (k : Bytes)
    → group ≤ length k
    → encode_chunks (chunks f (drop group k)) ++ closing (length (drop group k))
      ≡ fill group (drop group k)
    → (encode_chunk (take group k) ++ encode_chunks (chunks f (drop group k))) ++ closing (length k)
      ≡ fill group k
chunk_full f k h ih =
    let e : length k - group ≡ length (drop group k) = omega (arith, length-drop group k) in
    let l : length (take group k) ≡ group = omega (arith, length-take group k) in
    rw (fill_full 7 k h, encode_chunk_full (take group k) l, closing_full (length k) h, e, ← ih)
      (simp append_assoc)

chunk_short :
    (f : ℕ) (k : Bytes)
    → 0 < length k
    → length k < group
    → (encode_chunk (take group k) ++ encode_chunks (chunks f (drop group k))) ++ closing (length k)
      ≡ fill group k
unfolding encode_chunk
chunk_short f k pos h =
    rw
      (
        fill_short 7 k (omega arith),
        take_all group k (omega arith),
        drop_all group k (omega arith),
        closing_short (length k) pos h,
        append-nil,
        chunks-nil f,
      )
      (append-nil _)

encode_chunks-fill :
    (f : ℕ) (k : Bytes)
    → length k ≤ f
    → encode_chunks (chunks f k) ++ closing (length k) ≡ fill group k
unfolding chunks encode_chunks
encode_chunks-fill zero [] h = unfold closing fill in refl
encode_chunks-fill zero (x ∷ k) h = absurd (omega arith)
encode_chunks-fill (suc f) [] h = unfold closing fill in refl
encode_chunks-fill (suc f) (x ∷ k) h = elim (dec_lt (length (x ∷ k)) group) [
  | yes short ↦ chunk_short f (x ∷ k) (omega arith) short
  | no full ↦
      chunk_full f (x ∷ k) (omega arith)
        (encode_chunks-fill f (drop group (x ∷ k)) (omega (arith, length-drop group (x ∷ k))))
]

encode_key-fill : (k : Bytes) → encode_key k ≡ fill group k
unfolding encode_key
encode_key-fill k = encode_chunks-fill (length k) k (omega arith)

-- The encoding keeps the order of keys: of any two keys, the encodings compare as the keys do. (The
-- keys may hold any numbers, and any lengths, multiples of eight included.)
pub bytes_lt-encode_key : (k j : Bytes) → bytes_lt (encode_key k) (encode_key j) ≡ bytes_lt k j
bytes_lt-encode_key k j =
    rw (encode_key-fill k, encode_key-fill j) (bytes_lt-fill 7 k j (omega arith))

encode_key-ne-nil : (k : Bytes) → is_empty (encode_key k) ≡ false
encode_key-ne-nil k = rw (encode_key-fill k) (fill-ne-nil k)
  where
    fill-ne-nil : (k : Bytes) → is_empty (fill group k) ≡ false
    fill-ne-nil [] = unfold fill in refl
    fill-ne-nil (x ∷ k) = unfold fill in refl

-- A region whose bounds PD reports as the encodings of `a` and `b` holds the encoding of a key `k`
-- exactly if `a ≤ k < b` in the order of raw keys.
pub contains-encode_key :
    (id : ℕ) (a b k : Bytes)
    → contains (record { id = id; start = encode_key a; end = encode_key b }) (encode_key k)
      ≡ (not (bytes_lt k a) && bytes_lt k b)
unfolding contains
contains-encode_key id a b k =
    rw (encode_key-ne-nil a, encode_key-ne-nil b, bytes_lt-encode_key k a, bytes_lt-encode_key k b)
