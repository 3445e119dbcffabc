-- ===== src/Tests/Command.antt =====
-- Keys under the prefixes of two runs.
use client_rust_test.Base.{ℕ, ap, ◌≡◌, ◌≢◌, text, refl, [], ◌∷◌, true, Bytes, bytes_eq, All, arith}
use client_rust_test.Proto.Base64.Alphabet.{position, alphabet_at}
use client_rust_test.Proto.Base64.{b64_encode, b64_decode, decode_loop}
use client_rust_test.Proto.Project.{is_prefix, occurs, replace_from, redact_prefix_bytes}
use client_rust_test.Proto.Command.{Command, KeyArg, b64, utf8, bytes, as_key}
use client_rust_test.Runner.Substitute.{substitute}
use client_rust_test.Runner.Substitute.Keys.{key_args, value_args, binary, substitute_lem}
use client_rust_test.Proto.Command.Namespace.{has_token, redact-as_key}
use client_rust_test.Proto.Command.Placed.{Placed}

-- "/w=="
abbrev boundary : KeyArg
boundary = b64 (47 ∷ 119 ∷ 61 ∷ 61 ∷ [])

abbrev oracle_prefix : Bytes
oracle_prefix = 111 ∷ 47 ∷ []

abbrev subject_prefix : Bytes
subject_prefix = 115 ∷ 47 ∷ []

-- "a{P}b{P}"
abbrev template : KeyArg
template = utf8 (text "a{P}b{P}")

template-bytes : bytes (as_key template oracle_prefix) ≡ text "ao/bo/"
unfolding bytes as_key occurs is_prefix replace_from text
template-bytes = refl

boundary-bytes : bytes boundary ≡ 255 ∷ []
unfolding bytes b64_decode b64_encode decode_loop position alphabet_at bytes_eq
boundary-bytes = refl

abbrev first_byte : Bytes → ℕ
first_byte [] = 0
first_byte (x ∷ xs) = x

different : oracle_prefix ≢ subject_prefix
different e = let h : ◌≡◌ {A = ℕ} 111 115 = ap first_byte e in omega (arith, h)

redact-as_key_example :
    (bytes (as_key boundary oracle_prefix) ≢ bytes (as_key boundary subject_prefix))
    × (redact_prefix_bytes (bytes (as_key boundary oracle_prefix)) oracle_prefix
        ≡ redact_prefix_bytes (bytes (as_key boundary subject_prefix)) subject_prefix)
unfolding occurs is_prefix has_token
redact-as_key_example =
    redact-as_key oracle_prefix subject_prefix boundary (omega arith, (omega arith, tt))
      (omega arith, (omega arith, tt)) (λ e. cc) (λ e. cc) different refl (rw boundary-bytes refl)
      (rw boundary-bytes refl)

abbrev write : Command
write = Command.put [] (utf8 (107 ∷ [])) boundary

substitute_lem_example :
    All
      (λ key. occurs subject_prefix (bytes key) ≡ true)
      (key_args (substitute write subject_prefix))
    × (binary (value_args (substitute write subject_prefix)) ≡ binary (value_args write))
substitute_lem_example =
    substitute_lem subject_prefix (omega arith, (omega arith, tt)) (λ e. cc) write
