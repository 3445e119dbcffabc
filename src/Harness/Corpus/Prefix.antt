-- ===== src/Harness/Corpus/Prefix.antt =====
-- Corpora have the length asked for, are bytes, and grow at the end.
use client_rust_test.Base.{
  ℕ, zero, suc, ◌+◌, ◌*◌, ◌/◌, ◌≤◌, ◌≡◌, refl, sym, ◌∙◌, ap, [], ◌∷◌, ◌++◌, append_assoc,
  append-nil, length, length-append, length-take, take, ltb, if-either, Bool-cases, true, inl, inr,
  Bytes, All, All-append, IsByte, arith,
}
use Prim.Native.Nat.{min}
use client_rust_test.Harness.Corpus.{
  next_state, word_of, le_bytes, fill, max_one, deterministic_bytes,
}

length-le_bytes : (count n : ℕ) → length (le_bytes count n) ≡ count
unfolding le_bytes
length-le_bytes zero n = refl
length-le_bytes (suc count) n = ap suc (length-le_bytes count (n / 256))

le_bytes-IsByte : (count n : ℕ) → All IsByte (le_bytes count n)
unfolding le_bytes
le_bytes-IsByte zero n = tt
le_bytes-IsByte (suc count) n = (omega arith, le_bytes-IsByte count (n / 256))

fill_ge :
    (len fuel state : ℕ) (out : Bytes)
    → len ≤ length out + 8 * fuel
    → len ≤ length (fill len fuel state out)
unfolding fill
fill_ge len zero state out h = omega arith
fill_ge len (suc fuel) state out h = elim (Bool-cases (ltb (length out) len)) [
  | inl y ↦ rw y (
      fill_ge len fuel (next_state state) (out ++ le_bytes 8 (word_of (next_state state))) (
        omega (
          arith,
          length-append out (le_bytes 8 (word_of (next_state state))),
          length-le_bytes 8 (word_of (next_state state)),
        )))
  | inr n ↦ rw n (ground arith)
]

fill-IsByte :
    (len fuel state : ℕ) (out : Bytes) → All IsByte out → All IsByte (fill len fuel state out)
unfolding fill
fill-IsByte len zero state out h = h
fill-IsByte len (suc fuel) state out h =
    if-either (All IsByte) (ltb (length out) len) _ out
      (fill-IsByte len fuel (next_state state) (out ++ le_bytes 8 (word_of (next_state state))) (
        All-append IsByte out (le_bytes 8 (word_of (next_state state))) h
          (le_bytes-IsByte 8 (word_of (next_state state)))))
      h

fill_extends :
    (len fuel state : ℕ) (out : Bytes) → (more : Bytes) × (fill len fuel state out ≡ out ++ more)
unfolding fill
fill_extends len zero state out = ([], sym (append-nil out))
fill_extends len (suc fuel) state out =
    let word = le_bytes 8 (word_of (next_state state)) in
    let (more, e) = fill_extends len fuel (next_state state) (out ++ word) in
    elim (Bool-cases (ltb (length out) len)) [
      | inl y ↦ (word ++ more, rw y (e ∙ append_assoc out word more))
      | inr n ↦ ([], rw n (sym (append-nil out)))
    ]

take-append : (n : ℕ) (xs ys : Bytes) → n ≤ length xs → take n (xs ++ ys) ≡ take n xs
take-append zero xs ys h = refl
take-append (suc n) [] ys h = absurd (omega arith)
take-append (suc n) (x ∷ xs) ys h = ap (λ t. x ∷ t) (take-append n xs ys (omega arith))

All-take : (P : ℕ → Type 0) (n : ℕ) (xs : Bytes) → All P xs → All P (take n xs)
All-take P zero xs h = tt
All-take P (suc n) [] h = tt
All-take P (suc n) (x ∷ xs) (h, hs) = (h, All-take P n xs hs)

take-take : (m n : ℕ) (xs : Bytes) → m ≤ n → take m (take n xs) ≡ take m xs
take-take zero n xs h = refl
take-take (suc m) zero xs h = absurd (omega arith)
take-take (suc m) (suc n) [] h = refl
take-take (suc m) (suc n) (x ∷ xs) h = ap (λ t. x ∷ t) (take-take m n xs (omega arith))

-- Filling to a longer length begins as filling to a shorter one.
fill_longer :
    (m n fuel fuel' state : ℕ) (out : Bytes)
    → m ≤ n
    → m ≤ length out + 8 * fuel
    → n ≤ length out + 8 * fuel'
    → take m (fill n fuel' state out) ≡ take m (fill m fuel state out)
unfolding fill
fill_longer m n zero fuel' state out le enough enough' =
    let (more, e) = fill_extends n fuel' state out in rw e (take-append m out more (omega arith))
fill_longer m n (suc fuel) zero state out le enough enough' =
    elim (Bool-cases (ltb (length out) m)) [ inl y ↦ absurd (ground arith) | inr g ↦ rw g refl ]
fill_longer m n (suc fuel) (suc fuel') state out le enough enough' =
    let word = le_bytes 8 (word_of (next_state state)) in
    let grown : length (out ++ word) ≡ length out + 8 =
      length-append out word
      ∙ ap (λ k. length out + k) (length-le_bytes 8 (word_of (next_state state))) in
    let (more, e) = fill_extends n fuel' (next_state state) (out ++ word) in
    elim (Bool-cases (ltb (length out) m)) [
      | inl y ↦
          let z : ltb (length out) n ≡ true = ground arith in
          rw (y, z)
            (fill_longer m n fuel fuel' (next_state state) (out ++ word) le (omega arith)
              (omega arith))
      | inr g ↦
          let short : m ≤ length out = ground arith in
          rw g (
            if-either (λ bytes. take m bytes ≡ take m out) (ltb (length out) n) _ out
              (rw e
                (ap (take m) (append_assoc out word more) ∙ take-append m out (word ++ more) short))
              refl)
    ]

-- The corpus of a seed and a length has that length and consists of bytes, and a longer one of the
-- same seed starts with it.
pub deterministic_bytes-take :
    (seed m n : ℕ)
    → m ≤ n
    → (length (deterministic_bytes seed n) ≡ n)
      × All IsByte (deterministic_bytes seed n)
      × (take m (deterministic_bytes seed n) ≡ deterministic_bytes seed m)
unfolding deterministic_bytes
deterministic_bytes-take seed m n le = (
  length-take n (fill n n (max_one seed) []) ∙ exact,
  All-take IsByte n (fill n n (max_one seed) []) (fill-IsByte n n (max_one seed) [] tt),
  take-take m n (fill n n (max_one seed) []) le
      ∙ fill_longer m n m n (max_one seed) [] le (omega arith) (omega arith),
)
  where
    exact : min n (length (fill n n (max_one seed) [])) ≡ n
    exact = omega (arith, fill_ge n n (max_one seed) [] (omega arith))
