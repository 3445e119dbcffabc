-- ===== src/Proto/Command/Namespace.antt =====
-- Every key lands under the prefix of its run.
use client_rust_test.Base.{
  ℕ, ◌≡◌, ◌≢◌, refl, ◌∙◌, sym, ap, Option, none, some, [], ◌∷◌, ◌++◌, Bool, true, false, ◌||◌,
  Bytes, length, length-append, IsByte, All, Bool-cases, inl, inr, arith,
}
use client_rust_test.Proto.Base64.{b64_decode}
use client_rust_test.Proto.Base64.RoundTrip.{b64_decode-b64_encode}
use client_rust_test.Proto.Base64.Decoded.{b64_decode-IsByte}
use client_rust_test.Proto.Project.{is_prefix, occurs, replace_from, redact_prefix_bytes}
use client_rust_test.Proto.Project.Redaction.{is_prefix-append, redact_prefix_bytes-append}
use client_rust_test.Proto.Command.{KeyArg, utf8, b64, or_default, bytes, token, fill_in, as_key}

All-append : (P : ℕ → Type 0) (xs ys : Bytes) → All P xs → All P ys → All P (xs ++ ys)
All-append P [] ys h k = k
All-append P (x ∷ xs) ys (h, hs) k = (h, All-append P xs ys hs k)

or_default-IsByte :
    (o : Option Bytes) → ((v : Bytes) → o ≡ some v → All IsByte v) → All IsByte (or_default o)
or_default-IsByte none h = tt
or_default-IsByte (some v) h = h v refl

-- Whether the argument is text with the token.
unfoldable pub has_token : KeyArg → Bool
has_token (utf8 s) = occurs token s
has_token (b64 b) = false

-- Without the token the prefix is put before the argument's own bytes, text or not.
pub bytes-as_key :
    (prefix : Bytes) (arg : KeyArg)
    → All IsByte prefix
    → has_token arg ≡ false
    → bytes (as_key arg prefix) ≡ prefix ++ bytes arg
unfolding bytes as_key has_token
bytes-as_key prefix (utf8 s) h n = rw n refl
bytes-as_key prefix (b64 b) h n =
    let own = or_default (b64_decode b) in
    let ok_bytes : All IsByte (prefix ++ own) =
      All-append IsByte prefix own h (or_default-IsByte (b64_decode b) (b64_decode-IsByte b)) in
    ap or_default (b64_decode-b64_encode (prefix ++ own) ok_bytes)

or_rest : (a b : Bool) → (a || b) ≡ true → a ≡ false → b ≡ true
or_rest a b h n = ground arith

or_right : (a b : Bool) → b ≡ true → (a || b) ≡ true
or_right a b h = ground arith

occurs-append : (n : ℕ) (p k : Bytes) → occurs (n ∷ p) ((n ∷ p) ++ k) ≡ true
unfolding occurs
occurs-append n p k = rw (is_prefix-append (n ∷ p) k) refl

occurs-fill_in :
    (n : ℕ) (p s : Bytes) → occurs token s ≡ true → occurs (n ∷ p) (fill_in (n ∷ p) s) ≡ true
unfolding occurs replace_from
occurs-fill_in n p [] h = cc
occurs-fill_in n p (x ∷ xs) h = elim (Bool-cases (is_prefix token (x ∷ xs))) [
  | inl y ↦ rw y (occurs-append n p _)
  | inr n' ↦ rw n' (
      or_right (is_prefix (n ∷ p) (x ∷ fill_in (n ∷ p) xs)) _
        (occurs-fill_in n p xs (or_rest (is_prefix token (x ∷ xs)) (occurs token xs) h n')))
]

-- Every key of a command, text or not, holds the prefix of the run, where it is not empty: as a
-- prefix, or where its token stands.
pub occurs-as_key :
    (prefix : Bytes) (arg : KeyArg)
    → All IsByte prefix
    → prefix ≢ []
    → occurs prefix (bytes (as_key arg prefix)) ≡ true
unfolding bytes as_key has_token
occurs-as_key [] arg h ne = absurd (ne refl)
occurs-as_key (n ∷ p) (b64 b) h ne =
    ap (occurs (n ∷ p)) (bytes-as_key (n ∷ p) (b64 b) h refl) ∙ occurs-append n p (bytes (b64 b))
occurs-as_key (n ∷ p) (utf8 s) h ne = elim (Bool-cases (occurs token s)) [
  | inl y ↦ rw y (occurs-fill_in n p s y)
  | inr n' ↦ rw n' (occurs-append n p s)
]

shift : (x : ℕ) (xs k : Bytes) → k ≢ (x ∷ xs) ++ k
shift x xs k e =
    let same : length k ≡ length ((x ∷ xs) ++ k) = ap length e in
    omega (arith, same, length-append (x ∷ xs) k)

-- Different prefixes make different keys.
append-right : (p q k : Bytes) → p ++ k ≡ q ++ k → p ≡ q
append-right [] [] k e = refl
append-right [] (y ∷ q) k e = absurd (shift y q k e)
append-right (x ∷ p) [] k e = absurd (shift x p k (sym e))
append-right (x ∷ p) (y ∷ q) k e =
    let first : (x ≡ y) = cc in
    let rest : (p ++ k ≡ q ++ k) = cc in rw (first, append-right p q k rest) refl

-- Two runs play one scenario under two different prefixes. For a key that has no token, and whose
-- own bytes hold neither prefix, they use different keys, and compare the same text.
pub redact-as_key :
    (p q : Bytes) (arg : KeyArg)
    → All IsByte p
    → All IsByte q
    → p ≢ []
    → q ≢ []
    → p ≢ q
    → has_token arg ≡ false
    → occurs p (bytes arg) ≡ false
    → occurs q (bytes arg) ≡ false
    → (bytes (as_key arg p) ≢ bytes (as_key arg q))
      × (redact_prefix_bytes (bytes (as_key arg p)) p
          ≡ redact_prefix_bytes (bytes (as_key arg q)) q)
redact-as_key p q arg hp hq np nq apart n op oq = (
  λ e.
      apart (
        append-right p q (bytes arg) (sym (bytes-as_key p arg hp n) ∙ e ∙ bytes-as_key q arg hq n)),
  ap (λ k. redact_prefix_bytes k p) (bytes-as_key p arg hp n)
      ∙ redact_prefix_bytes-append p q (bytes arg) np nq op oq
      ∙ sym (ap (λ k. redact_prefix_bytes k q) (bytes-as_key q arg hq n)),
)
