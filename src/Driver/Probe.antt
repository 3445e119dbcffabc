-- ===== src/Driver/Probe.antt =====
-- crates/rust-driver/src/probe.rs, with the client as the Rust driver calls it: the calls that change
-- between builds, and the two switches of the build.
use client_rust_test.Base.{
  ℕ, Option, none, some, List, [], ◌∷◌, ◌++◌, map, keep, Bool, not, if◌then◌else◌, Bytes, text,
}
use client_rust_test.Base.Result.{Result, ok, err, Call}
use client_rust_test.Proto.Observation.{
  Observation, ChecksumObs, ok_obs, driver_error_obs, unsupported_obs, with_start_ts, with_checksum,
}
use client_rust_test.Tikv.Error.{Error, KeyError}
use client_rust_test.Tikv.Client.{CheckLevel}
use client_rust_test.Driver.Mapping.{classify}
use client_rust_test.Driver.Paging.{LockInfo}

-- The calls of tikv-client. A call under a timeout answers `none` when the time has passed.
pub record Api : Type 1 where
  pub World : Type 0
  pub TransactionClient : Type 0
  pub RawClient : Type 0
  pub Transaction : Type 0
  pub Timestamp : Type 0
  pub TransactionOptions : Type 0
  pub Snapshot : Type 0
  pub new_client : Call World Error TransactionClient
  pub new_raw_client : Call World Error RawClient
  pub new_pessimistic : TransactionOptions
  pub new_optimistic : TransactionOptions
  pub drop_check : TransactionOptions → CheckLevel → TransactionOptions
  pub begin_with_options : TransactionClient → TransactionOptions → Call World Error Transaction
  pub start_timestamp : Transaction → Timestamp
  -- `Timestamp::version`
  pub version : Timestamp → ℕ
  pub put : Transaction → Bytes → Bytes → Call World Error (Unit {0})
  pub get : Transaction → Bytes → Call World Error (Option Bytes)
  pub commit : Transaction → Call World Error (Option Timestamp)
  pub rollback : Transaction → Call World Error (Unit {0})
  pub current_timestamp : TransactionClient → Call World Error Timestamp
  pub snapshot : TransactionClient → Timestamp → TransactionOptions → Snapshot
  pub snapshot_get : Snapshot → Bytes → Call World Error (Option Bytes)
  pub scan_locks :
      TransactionClient → Timestamp → Bytes → Bytes → ℕ → Call World Error (List LockInfo)
  pub raw_put : RawClient → Bytes → Bytes → Call World Error (Unit {0})
  -- The probe's prewrite, of its primary key, its lock TTL and the keys, under a timeout
  pub prewrite :
      Transaction → Bytes → ℕ → List Bytes → World → Option (Result Error (Unit {0})) × World
  pub checksum : RawClient → Bytes → Bytes → World → Option (Result Error ChecksumObs) × World
  -- `{e}` and `{e:?}` of the client's error, and `{ke:?}` of a key error
  pub display : Error → Bytes
  pub debug : Error → Bytes
  pub debug_key_error : KeyError → Bytes

abbrev pub orphan_lock_ttl_ms : ℕ
orphan_lock_ttl_ms = 1000

-- Of the features `test-probes` and `pre-raw-checksum`
pub record Build : Type 0 where
  pub test_probes : Bool
  pub pre_raw_checksum : Bool

unfoldable pub features : Build → List Bytes
features build =
    map (λ (f : Bytes × Bool). f.0)
      (keep (λ (f : Bytes × Bool). f.1)
        ((text "prewrite_only", build.test_probes)
          ∷ (text "raw_checksum", not build.pre_raw_checksum)
          ∷ []))

module _ (build : Build) (api : Api) where
  -- `Observation`s of a prewrite and of a checksum, by what the timeout let through
  unfoldable pub prewritten : ℕ → Option (Result Error (Unit {0})) → Observation
  prewritten start_ts (some (ok u)) = with_start_ts ok_obs start_ts
  prewritten start_ts (some (err e)) = driver_error_obs (text "prewrite_only: " ++ api.debug e)
  prewritten start_ts none = driver_error_obs (text "prewrite_only: no answer within 30s")

  unfoldable pub prewrite_only :
      api.Transaction → Bytes → List Bytes → api.World → Observation × api.World
  unfolding prewritten
  prewrite_only txn primary keys w = if build.test_probes then probed keys else (
    unsupported_obs (
        text
          "this client-rust has no test probe (Transaction::probe, feature test-utils), so a caller cannot drive 2PC phase by phase. The driver does NOT emulate it."),
    w,
  )
    where
      probed : List Bytes → Observation × api.World
      probed [] = (driver_error_obs (text "prewrite_only: no keys to prewrite"), w)
      probed (k ∷ ks) =
          let start_ts = api.version (api.start_timestamp txn) in
          let (r, w') = api.prewrite txn primary orphan_lock_ttl_ms (k ∷ ks) w in
          (prewritten start_ts r, w')

  unfoldable pub checksummed : Option (Result Error ChecksumObs) → Observation
  checksummed (some (ok sum)) = with_checksum ok_obs sum
  checksummed (some (err e)) = classify api.debug_key_error api.debug e
  checksummed none = driver_error_obs (text "raw_checksum: no answer within 30s")

  unfoldable pub raw_checksum : api.RawClient → Bytes → Bytes → api.World → Observation × api.World
  unfolding checksummed
  raw_checksum client start end w =
      if build.pre_raw_checksum
      then (
        unsupported_obs (
            text
              "client-rust has no raw checksum: tikv-client implements no RawChecksum request. client-go's rawkv.Checksum returns crc64_xor/total_kvs/total_bytes computed server-side. The driver does NOT emulate it: the gap is the finding (G-0002)."),
        w,
      )
      else (let (r, w') = api.checksum client start end w in (checksummed r, w'))
