-- ===== src/Runner/Scenario/Plain.antt =====
-- Plain names make file names that no other scenario's or run's names make.
use client_rust_test.Base.{
  ℕ, ◌≡◌, ◌≢◌, refl, sym, [], ◌∷◌, ◌++◌, true, Bytes, text, all, All, ◌<◌, arith,
}
use client_rust_test.Harness.Fixtures.Ascii.{IsAscii}
use client_rust_test.Runner.Scenario.{is_plain_name, plain_byte}
use client_rust_test.Runner.Files.{trace_file}

-- Neither `.` nor `/`
abbrev pub IsName : ℕ → Type 0
IsName c = (c ≢ 46) × (c ≢ 47)

byte-IsName : (c : ℕ) → plain_byte c ≡ true → IsName c
byte-IsName c h = (λ e. ground arith, λ e. ground arith)

bytes-IsName : (cs : Bytes) → all plain_byte cs ≡ true → All IsName cs
bytes-IsName [] h = tt
bytes-IsName (c ∷ cs) h = (byte-IsName c (ground arith), bytes-IsName cs (ground arith))

plain : (name : Bytes) → is_plain_name name ≡ true → All IsName name
unfolding is_plain_name
plain [] h = tt
plain (c ∷ cs) h = (byte-IsName c (ground arith), bytes-IsName cs (ground arith))

tail_eq : (a b : ℕ) (xs ys : Bytes) → a ∷ xs ≡ b ∷ ys → xs ≡ ys
tail_eq a b xs ys e = cc

head_eq : (a b : ℕ) (xs ys : Bytes) → a ∷ xs ≡ b ∷ ys → a ≡ b
head_eq a b xs ys e = cc

-- What stands before the first dot, and what after it.
split_dot :
    (xs us ys vs : Bytes)
    → All IsName xs
    → All IsName us
    → xs ++ 46 ∷ ys ≡ us ++ 46 ∷ vs
    → (xs ≡ us) × (ys ≡ vs)
split_dot [] [] ys vs p q e = (refl, tail_eq _ _ _ _ e)
split_dot [] (u ∷ us) ys vs p q e = absurd (q.0.0 (sym (head_eq _ _ _ _ e)))
split_dot (x ∷ xs) [] ys vs p q e = absurd (p.0.0 (head_eq _ _ _ _ e))
split_dot (x ∷ xs) (u ∷ us) ys vs p q e =
    let (same, rest) = split_dot xs us ys vs p.1 q.1 (tail_eq _ _ _ _ e) in
    (cc (same, head_eq x u _ _ e), rest)

drop_prefix : (p xs ys : Bytes) → p ++ xs ≡ p ++ ys → xs ≡ ys
drop_prefix [] xs ys e = e
drop_prefix (c ∷ p) xs ys e = drop_prefix p xs ys (tail_eq _ _ _ _ e)

-- Two traces of runs whose scenarios and runs have plain names are written to the same file only if
-- the scenarios have one name and the runs have one name.
pub trace_file-is_plain_name :
    (a b c d : Bytes)
    → is_plain_name a ≡ true
    → is_plain_name b ≡ true
    → is_plain_name c ≡ true
    → is_plain_name d ≡ true
    → trace_file a b ≡ trace_file c d
    → (a ≡ c) × (b ≡ d)
unfolding trace_file text
trace_file-is_plain_name a b c d pa pb pc pd e =
    let (first, rest) =
      split_dot a c _ _ (plain a pa) (plain c pc) (drop_prefix (text "results/traces/") _ _ e) in
    (first, (split_dot b d _ _ (plain b pb) (plain d pd) rest).0)

byte-IsAscii : (c : ℕ) → plain_byte c ≡ true → c < 128
byte-IsAscii c h = ground arith

bytes-IsAscii : (cs : Bytes) → all plain_byte cs ≡ true → IsAscii cs
bytes-IsAscii [] h = tt
bytes-IsAscii (c ∷ cs) h = (byte-IsAscii c (ground arith), bytes-IsAscii cs (ground arith))

pub plain-IsAscii : (name : Bytes) → is_plain_name name ≡ true → IsAscii name
unfolding is_plain_name
plain-IsAscii [] h = tt
plain-IsAscii (c ∷ cs) h = (byte-IsAscii c (ground arith), bytes-IsAscii cs (ground arith))
