-- ===== src/Harness/Fixtures/Ascii.antt =====
-- The prefix of a run is UTF-8 text.
use client_rust_test.Base.{
  ℕ, zero, suc, ◌<◌, ◌+◌, ◌%◌, ◌/◌, ◌≡◌, refl, inl, inr, [], ◌∷◌, true, Bytes, text, is_utf8,
  decimal, digits_of, All, All-append, Bool-cases, ltb, lt→ltb, ltb→lt, all, arith,
}
use client_rust_test.Harness.Fixtures.{unique_prefix}

abbrev pub IsAscii : Bytes → Type 0
IsAscii = All (λ b. b < 128)

pub is_utf8-IsAscii : (v : Bytes) → IsAscii v → is_utf8 v ≡ true
unfolding is_utf8
is_utf8-IsAscii [] h = refl
is_utf8-IsAscii (a ∷ []) h = lt→ltb a 128 h.0
is_utf8-IsAscii (a ∷ b ∷ []) h = rw (lt→ltb a 128 h.0, is_utf8-IsAscii (b ∷ []) h.1) refl
is_utf8-IsAscii (a ∷ b ∷ c ∷ []) h = rw (lt→ltb a 128 h.0, is_utf8-IsAscii (b ∷ c ∷ []) h.1) refl
is_utf8-IsAscii (a ∷ b ∷ c ∷ d ∷ rest) h =
    rw (lt→ltb a 128 h.0, is_utf8-IsAscii (b ∷ c ∷ d ∷ rest) h.1) refl

digits-IsAscii : (fuel n : ℕ) (out : Bytes) → IsAscii out → IsAscii (digits_of fuel n out)
unfolding digits_of
digits-IsAscii zero n out h = h
digits-IsAscii (suc fuel) n out h = elim (Bool-cases (ltb n 10)) [
  | inl y ↦ rw y (ground arith, h)
  | inr more ↦ rw more (digits-IsAscii fuel (n / 10) ((48 + n % 10) ∷ out) (omega arith, h))
]

decimal-IsAscii : (n : ℕ) → IsAscii (decimal n)
unfolding decimal
decimal-IsAscii n = digits-IsAscii (suc n) n [] tt

IsAscii-test : (v : Bytes) → all (λ b. ltb b 128) v ≡ true → IsAscii v
IsAscii-test [] h = tt
IsAscii-test (b ∷ v) h = (ltb→lt b 128 (ground arith), IsAscii-test v (ground arith))

slash : IsAscii (text "/")
unfolding text
slash = IsAscii-test (text "/") refl

pub is_utf8-unique_prefix :
    (test : Bytes) (nanos : ℕ) → IsAscii test → is_utf8 (unique_prefix test nanos) ≡ true
unfolding unique_prefix text
is_utf8-unique_prefix test nanos h = is_utf8-IsAscii _ (
    All-append _ (text "gate/") _ (IsAscii-test (text "gate/") refl) (
      All-append _ test _ h (
        All-append _ (text "/") _ slash
          (All-append _ (decimal nanos) _ (decimal-IsAscii nanos) slash))))
