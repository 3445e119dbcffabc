-- ===== src/Proto/Observation.antt =====
-- The layered observation of crates/parity-proto/src/observation.rs.
pub mod RoundTrip
use client_rust_test.Base.{
  ℕ, Option, none, some, List, [], Bytes, is_utf8, no_control, ◌&&◌, if◌then◌else◌,
}
use client_rust_test.Proto.Json.{Json}
use client_rust_test.Proto.Class.{Class}
use client_rust_test.Proto.Base64.{b64_encode, b64_decode}

-- `String::from_utf8(v)` with the filter on control characters, as a `str`'s bytes.
pub record BytesObs : Type 0 where
  pub b64 : Bytes
  pub utf8 : Option Bytes

pub record LockObs : Type 0 where
  pub key : BytesObs
  pub primary : BytesObs
  pub kind : Bytes
  pub ttl_ms : ℕ
  pub txn_start_ts : ℕ

pub record NativeObs : Type 0 where
  pub lang : Bytes
  pub type : Bytes
  pub display : Bytes

pub record ChecksumObs : Type 0 where
  pub crc64_xor : ℕ
  pub total_kvs : ℕ
  pub total_bytes : ℕ

pub record Observation : Type 0 where
  pub class : Class
  pub value : Option BytesObs
  pub locks : List LockObs
  pub start_ts : Option ℕ
  pub commit_ts : Option ℕ
  pub error_count : Option ℕ
  pub proto : Option Json
  pub native : Option NativeObs
  pub checksum : Option ChecksumObs

-- `From<Vec<u8>> for Bytes`, with the echo of text that has no control character
unfoldable pub bytes_obs : Bytes → BytesObs
bytes_obs v = record {
  b64 = b64_encode v;
  utf8 = if is_utf8 v && no_control v then some v else none;
}

-- `Bytes::as_slice`: what does not decode reads as no bytes.
unfoldable pub as_slice : BytesObs → Bytes
as_slice b = elim (b64_decode b.b64) [ some v ↦ v | none ↦ [] ]

-- `Observation::new`
unfoldable pub new_obs : Class → Observation
new_obs c = record {
  class = c;
  value = none;
  locks = [];
  start_ts = none;
  commit_ts = none;
  error_count = none;
  proto = none;
  native = none;
  checksum = none;
}

unfoldable pub ok_obs : Observation
unfolding new_obs
ok_obs = new_obs Class.ok

unfoldable pub driver_error_obs : Bytes → Observation
unfolding new_obs
driver_error_obs detail = new_obs (Class.driver_error detail)

unfoldable pub unsupported_obs : Bytes → Observation
unfolding new_obs
unsupported_obs detail = new_obs (Class.unsupported detail)

abbrev pub with_error_count : Observation → ℕ → Observation
with_error_count o n = record o { error_count = some n }

abbrev pub with_value : Observation → Option Bytes → Observation
with_value o v = record o { value = elim v [ some bytes ↦ some (bytes_obs bytes) | none ↦ none ] }

abbrev pub with_native : Observation → NativeObs → Observation
with_native o n = record o { native = some n }

abbrev pub with_proto : Observation → Json → Observation
with_proto o p = record o { proto = some p }

abbrev pub with_locks : Observation → List LockObs → Observation
with_locks o l = record o { locks = l }

abbrev pub with_start_ts : Observation → ℕ → Observation
with_start_ts o ts = record o { start_ts = some ts }

abbrev pub with_commit_ts : Observation → ℕ → Observation
with_commit_ts o ts = record o { commit_ts = some ts }

abbrev pub with_checksum : Observation → ChecksumObs → Observation
with_checksum o c = record o { checksum = some c }
