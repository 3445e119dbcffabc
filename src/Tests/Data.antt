-- ===== src/Tests/Data.antt =====
-- The codecs, the vocabulary and the mapping table at concrete inputs.
use client_rust_test.Base.{
  ◌≡◌, refl, ◌↔◌, none, some, [], ◌∷◌, true, false, Bytes, bytes_lt, arith, not, ◌&&◌,
}
use client_rust_test.Proto.Class.{Class, Parts, is_admissible, inadmissible_reason}
use client_rust_test.Proto.Class.Admission.{is_admissible-reason_iff}
use client_rust_test.Proto.Base64.{b64_encode, b64_decode}
use client_rust_test.Proto.Base64.RoundTrip.{b64_decode_iff}
use client_rust_test.Tikv.Error.{Error, Errors, KeyError}
use client_rust_test.Tikv.Client.{range_holds}
use client_rust_test.Harness.Memcomparable.{contains, encode_key}
use client_rust_test.Harness.Memcomparable.Order.{bytes_lt-encode_key, contains-encode_key}
use client_rust_test.Gate.Race.{is_lost_race}
use client_rust_test.Gate.Prefix.{prefix_upper_bound, starts_with}
use client_rust_test.Gate.Prefix.Bounds.{range_holds-starts_with}
use client_rust_test.Driver.Mapping.{classify_inner}
use client_rust_test.Driver.Mapping.Facts.{
  claims_success, mentions_conflict, region_sets, classify-claims_success, classify-is_lost_race,
}

abbrev nested : Class
nested = Class.mixed (
    Parts.cons Class.deadlock
      (Parts.cons (Class.mixed (Parts.cons Class.region_error Parts.nil)) Parts.nil))

is_admissible-reason_iff_example :
    (is_admissible nested ≡ true) ↔ (inadmissible_reason nested ≡ none)
is_admissible-reason_iff_example = is_admissible-reason_iff nested

-- "M" and "TQ=="
abbrev letter : Bytes
letter = 77 ∷ []

abbrev letter_text : Bytes
letter_text = 84 ∷ 81 ∷ 61 ∷ 61 ∷ []

b64_decode_iff_example : (b64_decode letter_text ≡ some letter) ↔ (letter_text ≡ b64_encode letter)
b64_decode_iff_example = b64_decode_iff letter_text letter (omega arith, tt)

abbrev prefix : Bytes
prefix = 1 ∷ 255 ∷ []

range_holds-starts_with_example :
    range_holds (record { start = prefix; end = prefix_upper_bound prefix }) (1 ∷ 255 ∷ 255 ∷ [])
    ≡ starts_with prefix (1 ∷ 255 ∷ 255 ∷ [])
range_holds-starts_with_example =
    range_holds-starts_with prefix (1 ∷ 255 ∷ 255 ∷ []) (omega arith, (omega arith, tt))
      (omega arith, (omega arith, (omega arith, tt)))

abbrev eight : Bytes
eight = 1 ∷ 2 ∷ 3 ∷ 4 ∷ 5 ∷ 6 ∷ 7 ∷ 8 ∷ []

bytes_lt-encode_key_example :
    bytes_lt (encode_key eight) (encode_key (1 ∷ 2 ∷ [])) ≡ bytes_lt eight (1 ∷ 2 ∷ [])
bytes_lt-encode_key_example = bytes_lt-encode_key eight (1 ∷ 2 ∷ [])

abbrev race : KeyError
race = record {
  conflict = some (record { start_ts = 7; conflict_ts = 8; conflict_commit_ts = 9; reason = [] });
  already_exist = false;
  txn_not_found = none;
  locked = false;
  deadlock = false;
  assertion_failed = false;
  commit_ts_expired = false;
  commit_ts_too_large = false;
  retryable = [];
  abort = [];
}

abbrev two_keys : Error
two_keys =
    Error.multiple_key_errors
      (Errors.cons (Error.key_error race) (Errors.cons Error.grpc Errors.nil))

classify-claims_success_example : claims_success (classify_inner (λ e. []) two_keys).0 ≡ false
classify-claims_success_example = classify-claims_success (λ e. []) two_keys

classify-is_lost_race_example :
    mentions_conflict (classify_inner (λ e. []) two_keys).0 ≡ is_lost_race two_keys
unfolding region_sets
classify-is_lost_race_example = classify-is_lost_race (λ e. []) two_keys refl

contains-encode_key_example :
    contains
      (record { id = 4; start = encode_key (2 ∷ []); end = encode_key eight })
      (encode_key (5 ∷ []))
    ≡ (not (bytes_lt (5 ∷ []) (2 ∷ [])) && bytes_lt (5 ∷ []) eight)
contains-encode_key_example = contains-encode_key 4 (2 ∷ []) eight (5 ∷ [])
