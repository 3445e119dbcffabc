-- ===== src/Proto/Project/Redaction.antt =====
-- The run's prefix is redacted out of keys.
use client_rust_test.Base.{
  ℕ, ◌≡◌, ◌≢◌, refl, ◌∙◌, sym, ap, [], ◌∷◌, ◌++◌, Bool, true, false, ◌||◌, ltb, if◌then◌else◌,
  Bytes, length, length-append, text, is_utf8, arith,
}
use client_rust_test.Proto.Base64.{b64_encode}
use client_rust_test.Proto.Project.{
  is_prefix, occurs, replace_from, replace_bytes, redact_prefix_bytes,
}

pub is_prefix-append : (p k : Bytes) → is_prefix p (p ++ k) ≡ true
unfolding is_prefix
is_prefix-append [] k = refl
is_prefix-append (x ∷ p) k = ground (arith, is_prefix-append p k)

skipped :
    (needle with_bytes xs k : Bytes)
    → replace_from needle with_bytes (length xs) (xs ++ k) ≡ replace_from needle with_bytes 0 k
unfolding replace_from
skipped needle with_bytes [] k = refl
skipped needle with_bytes (x ∷ xs) k = skipped needle with_bytes xs k

replace_from-append :
    (n : ℕ) (ns with_bytes k : Bytes)
    → replace_from (n ∷ ns) with_bytes 0 ((n ∷ ns) ++ k)
      ≡ with_bytes ++ replace_from (n ∷ ns) with_bytes 0 k
unfolding replace_from
replace_from-append n ns with_bytes k =
    rw (is_prefix-append (n ∷ ns) k) (ap (λ r. with_bytes ++ r) (skipped (n ∷ ns) with_bytes ns k))

replace_from-occurs :
    (needle with_bytes k : Bytes) → occurs needle k ≡ false → replace_from needle with_bytes 0 k ≡ k
unfolding replace_from occurs
replace_from-occurs needle with_bytes [] h = refl
replace_from-occurs needle with_bytes (x ∷ xs) h =
    let (p, q) = either_false (is_prefix needle (x ∷ xs)) (occurs needle xs) h in
    rw p (ap (λ r. x ∷ r) (replace_from-occurs needle with_bytes xs q))
  where
    either_false : (a b : Bool) → (a || b) ≡ false → (a ≡ false) × (b ≡ false)
    either_false a b h = ground arith

-- A key of the run, once redacted.
pub replace_bytes-append :
    (p with_bytes k : Bytes)
    → p ≢ []
    → occurs p k ≡ false
    → replace_bytes (p ++ k) p with_bytes ≡ with_bytes ++ k
unfolding replace_bytes
replace_bytes-append [] with_bytes k ne h = absurd (ne refl)
replace_bytes-append (n ∷ ns) with_bytes k ne h =
    let fits : ltb (length ((n ∷ ns) ++ k)) (length (n ∷ ns)) ≡ false =
      ground (arith, length-append (n ∷ ns) k) in
    rw fits (
      replace_from-append n ns with_bytes k
      ∙ ap (λ r. with_bytes ++ r) (replace_from-occurs (n ∷ ns) with_bytes k h))

-- Two runs see one key under two prefixes. If neither prefix is empty or stands in the key itself,
-- both runs compare the same text, whether or not the key is UTF-8.
pub redact_prefix_bytes-append :
    (p q k : Bytes)
    → p ≢ []
    → q ≢ []
    → occurs p k ≡ false
    → occurs q k ≡ false
    → redact_prefix_bytes (p ++ k) p ≡ redact_prefix_bytes (q ++ k) q
unfolding redact_prefix_bytes
redact_prefix_bytes-append p q k np nq hp hq =
    let same : replace_bytes (p ++ k) p (text "{P}") ≡ replace_bytes (q ++ k) q (text "{P}") =
      replace_bytes-append p (text "{P}") k np hp
      ∙ sym (replace_bytes-append q (text "{P}") k nq hq) in
    ap (λ r. if is_utf8 r then r else b64_encode r) same

-- Bytes in which the prefix does not stand are compared as they are.
pub redact_prefix_bytes-occurs :
    (p k : Bytes)
    → occurs p k ≡ false
    → redact_prefix_bytes k p ≡ (if is_utf8 k then k else b64_encode k)
unfolding redact_prefix_bytes replace_bytes
redact_prefix_bytes-occurs p k h =
    ap (λ r. if is_utf8 r then r else b64_encode r)
      (if_same _ (replace_from p (text "{P}") 0 k) k (replace_from-occurs p (text "{P}") k h))
  where
    if_same : (b : Bool) (x y : Bytes) → x ≡ y → (if b then y else x) ≡ y
    if_same true x y e = refl
    if_same false x y e = e
