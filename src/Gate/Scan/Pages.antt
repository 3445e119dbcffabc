-- ===== src/Gate/Scan/Pages.antt =====
-- The paging of `scan`: each page starts where the one before ended.
use client_rust_test.Base.{
  ℕ, zero, suc, ◌≤◌, ◌≡◌, refl, ◌∙◌, sym, Option, List, [], ◌∷◌, ◌++◌, Bool, true, false, ◌&&◌,
  Bytes, bytes_lt, bytes_lt_irrefl, bytes_lt_asymm, bytes_lt-snoc_zero, bytes_lt-of_ge_lt, length,
  take, drop, keep, keep-ext, keep-keep, keep-All, All-keep, if-either, All, Bool-cases, inl, inr,
  arith,
}
use client_rust_test.Tikv.Client.{range_holds}
use client_rust_test.Gate.Scan.{last_key}

abbrev pub Rows : Type 0
Rows = List (Bytes × Bytes)

abbrev pub Before : Bytes × Bytes → Bytes × Bytes → Type 0
Before p q = bytes_lt p.0 q.0 ≡ true

abbrev pub InOrder : Rows → Type 0
InOrder [] = Unit
InOrder (p ∷ ps) = All (Before p) ps × InOrder ps

keep-InOrder : (p : Bytes × Bytes → Bool) (ps : Rows) → InOrder ps → InOrder (keep p ps)
keep-InOrder p [] h = tt
keep-InOrder p (q ∷ qs) (h, hs) =
    if-either InOrder (p q) (q ∷ keep p qs) (keep p qs)
      (All-keep p (Before q) qs h, keep-InOrder p qs hs) (keep-InOrder p qs hs)

-- What holds of all keys holds of the last one of a page.
last_key-All :
    (P : Bytes → Type 0) (n : ℕ) (ps : Rows)
    → suc n ≤ length ps
    → All (λ p. P p.0) ps
    → P (last_key (take (suc n) ps))
unfolding last_key
last_key-All P n [] h a = absurd (omega arith)
last_key-All P zero (p ∷ ps) h a = a.0
last_key-All P (suc n) (p ∷ []) h a = absurd (omega arith)
last_key-All P (suc n) (p ∷ q ∷ ps) h a = last_key-All P n (q ∷ ps) (omega arith) a.1

last_key-append :
    (out : Rows) (p : Bytes × Bytes) (ps : Rows) → last_key (out ++ p ∷ ps) ≡ last_key (p ∷ ps)
unfolding last_key
last_key-append [] p ps = refl
last_key-append (q ∷ []) p ps = refl
last_key-append (q ∷ r ∷ out) p ps = last_key-append (r ∷ out) p ps

pub last_key-append_take :
    (out : Rows) (n : ℕ) (ps : Rows)
    → suc n ≤ length ps
    → last_key (out ++ take (suc n) ps) ≡ last_key (take (suc n) ps)
last_key-append_take out n [] h = absurd (omega arith)
last_key-append_take out n (p ∷ ps) h = last_key-append out p (take n ps)

abbrev beyond : Bytes → Bytes × Bytes → Bool
beyond k p = bytes_lt k p.0

-- In order, what lies beyond the last key of a page is what the page leaves.
keep-beyond :
    (n : ℕ) (ps : Rows)
    → InOrder ps
    → suc n ≤ length ps
    → keep (beyond (last_key (take (suc n) ps))) ps ≡ drop (suc n) ps
unfolding last_key
keep-beyond n [] s h = absurd (omega arith)
keep-beyond zero (p ∷ ps) s h = rw (bytes_lt_irrefl p.0) (keep-All (beyond p.0) ps s.0)
keep-beyond (suc n) (p ∷ []) s h = absurd (omega arith)
keep-beyond (suc n) (p ∷ q ∷ ps) s h =
    let last = last_key (take (suc n) (q ∷ ps)) in
    let above : bytes_lt p.0 last ≡ true =
      last_key-All (λ k. bytes_lt p.0 k ≡ true) n (q ∷ ps) (omega arith) s.0 in
    rw (bytes_lt_asymm p.0 last above) (keep-beyond n (q ∷ ps) s.1 (omega arith))

module _ (rows : Rows) (sorted : InOrder rows) (upper : Option Bytes) where
  -- The rows that are still to be read.
  abbrev pub left : Bytes → Rows
  left cursor = keep (λ p. range_holds (record { start = cursor; end = upper }) p.0) rows

  left-InOrder : (cursor : Bytes) → InOrder (left cursor)
  left-InOrder cursor = keep-InOrder _ rows sorted

  next_holds :
      (cursor last k : Bytes)
      → bytes_lt last cursor ≡ false
      → range_holds (record { start = last ++ 0 ∷ []; end = upper }) k
        ≡ (range_holds (record { start = cursor; end = upper }) k && bytes_lt last k)
  next_holds cursor last k h =
      rw (bytes_lt-snoc_zero last k)
        (ground (arith, bytes_lt-of_ge_lt cursor last k, bytes_lt_asymm cursor k))

  held-All :
      (cursor : Bytes) (ps : Rows)
      → All
          (λ p. bytes_lt p.0 cursor ≡ false)
          (keep (λ p. range_holds (record { start = cursor; end = upper }) p.0) ps)
  held-All cursor [] = tt
  held-All cursor (p ∷ ps) =
      elim (Bool-cases (range_holds (record { start = cursor; end = upper }) p.0)) [
        | inl y ↦ rw y (ground arith, held-All cursor ps)
        | inr n ↦ rw n (held-All cursor ps)
      ]

  -- After a full page the cursor stands right behind it.
  pub left-next :
      (cursor : Bytes) (n : ℕ)
      → suc n ≤ length (left cursor)
      → left (last_key (take (suc n) (left cursor)) ++ 0 ∷ []) ≡ drop (suc n) (left cursor)
  left-next cursor n h =
      let last = last_key (take (suc n) (left cursor)) in
      let reached : bytes_lt last cursor ≡ false =
        last_key-All (λ k. bytes_lt k cursor ≡ false) n (left cursor) h (held-All cursor rows) in
      keep-ext _ _ rows (λ p. next_holds cursor last p.0 reached)
      ∙ sym (keep-keep (beyond last) _ rows)
      ∙ keep-beyond n (left cursor) (left-InOrder cursor) h
