-- ===== src/Driver/Exec/Shape.antt =====
-- Which fields the observation of a command has: `Driver::execute` of crates/rust-driver/src/exec.rs.
pub mod Arms
use mathlib.Core.Path.{subst}
use mathlib.Core.Bool.{true≢false}
use client_rust_test.Base.{
  ℕ, ◌≡◌, ◌≢◌, refl, sym, ap, ◌∙◌, ◌⊎◌, inl, inr, Option, none, some, List, [], ◌∷◌, ◌++◌, map,
  true, false, Bool, Bool-cases, ◌==◌, Bytes, text,
}
use client_rust_test.Base.Map.{Map, get}
use client_rust_test.Base.Result.{
  Result, ok, err, Call, ◌>>=◌, ◌>>◌, pure, lift, Outcome, Ensures, bind-Ensures,
}
use client_rust_test.Base.Check.{ok_or, forbid, map_err}
use client_rust_test.Proto.Json.{Json}
use client_rust_test.Proto.Class.{Class}
use client_rust_test.Proto.Observation.{
  BytesObs, ChecksumObs, Observation, new_obs, ok_obs, driver_error_obs, unsupported_obs,
  with_locks,
}
use client_rust_test.Proto.Command.{Command, KeyArg, bytes}
use client_rust_test.Tikv.Error.{Error, KeyError}
use client_rust_test.Driver.Mapping.{
  count_layer, proto_layer, classify, classify_inner, error_count,
}
use client_rust_test.Driver.Mapping.Facts.{claims_success, classify-claims_success}
use client_rust_test.Driver.Paging.{LockInfo, Progress, scan_loop}
use client_rust_test.Driver.Probe.{Api, Build, prewrite_only, prewritten, raw_checksum, checksummed}
use client_rust_test.Driver.Exec.{
  Driver, State, Stop, Arm, Response, arm, scan_arm, no_session, take_session, lookup, change,
  client_call, classified, harness_error, scan_all, scan_rest, scanned, greeting, observed, execute,
  to_lock_obs, read_obs, committed_obs,
}

-- What the observation of a command that the client carried out shows of its result.
pub data Payload : Type 0 where
  nothing value_read locks_found start_taken commit_taken sum_taken : Payload

abbrev pub carries : Command → Payload
carries (Command.get session key) = Payload.value_read
carries (Command.snapshot_get client key) = Payload.value_read
carries (Command.scan_locks client start end batch_size) = Payload.locks_found
carries (Command.begin session client mode) = Payload.start_taken
carries (Command.prewrite_only session primary keys) = Payload.start_taken
carries (Command.commit session) = Payload.commit_taken
carries (Command.raw_checksum client start end) = Payload.sum_taken
carries _ = Payload.nothing

-- No field of a result is there.
abbrev pub IsBare : Observation → Type 0
IsBare o =
    (o.value ≡ none)
    × (o.locks ≡ [])
    × (o.start_ts ≡ none)
    × (o.commit_ts ≡ none)
    × (o.checksum ≡ none)

-- The field of the payload and no other; a commit that wrote nothing has no timestamp.
abbrev pub Carried : Payload → Observation → Type 0
Carried Payload.nothing o = IsBare o
Carried Payload.value_read o =
    (v : BytesObs) × (o.value ≡ some v) × IsBare (record o { value = none })
Carried Payload.locks_found o = IsBare (record o { locks = [] })
Carried Payload.start_taken o =
    (ts : ℕ) × (o.start_ts ≡ some ts) × IsBare (record o { start_ts = none })
Carried Payload.commit_taken o = IsBare (record o { commit_ts = none })
Carried Payload.sum_taken o =
    (c : ChecksumObs) × (o.checksum ≡ some c) × IsBare (record o { checksum = none })

-- The layers of an error are not there.
abbrev pub IsPlain : Observation → Type 0
IsPlain o = (o.error_count ≡ none) × (o.proto ≡ none) × (o.native ≡ none)

abbrev pub Failed : Observation → Type 0
Failed o = (o.class ≢ Class.ok) × IsBare o

abbrev pub HasShape : Command → Observation → Type 0
HasShape cmd o = ((o.class ≡ Class.ok) × Carried (carries cmd) o × IsPlain o) ⊎ Failed o

abbrev pub HasAnswer : Command → Response → Type 0
HasAnswer Command.hello r = (r.hello ≢ none) × (r.observation ≡ none)
HasAnswer (Command.scan_locks client start end batch_size) r =
    (r.hello ≡ none)
    × ((o : Observation)
        → r.observation ≡ some o
        → HasShape (Command.scan_locks client start end batch_size) o)
HasAnswer cmd r = (r.hello ≡ none) × ((o : Observation) × (r.observation ≡ some o) × HasShape cmd o)

pub driver_error_obs-Failed : (detail : Bytes) → Failed (driver_error_obs detail)
unfolding driver_error_obs new_obs
driver_error_obs-Failed detail = (λ e. cc, (refl, refl, refl, refl, refl))

pub unsupported_obs-Failed : (detail : Bytes) → Failed (unsupported_obs detail)
unfolding unsupported_obs new_obs
unsupported_obs-Failed detail = (λ e. cc, (refl, refl, refl, refl, refl))

pub ok_obs_plain : HasShape Command.hello ok_obs
unfolding ok_obs new_obs
ok_obs_plain = inl (refl, (refl, refl, refl, refl, refl), (refl, refl, refl))

with_layers :
    (dbg : Error → Bytes) (c : Class) (n : Observation)
    → n.class ≡ c
    → c ≢ Class.ok
    → IsBare n
    → (p : Option Json) (k : Option ℕ)
    → Failed (count_layer (λ e. []) dbg (proto_layer (λ e. []) dbg n p) k)
with_layers dbg c n same ne bare none none = (λ e. ne (sym same ∙ e), bare)
with_layers dbg c n same ne bare none (some k) = (λ e. ne (sym same ∙ e), bare)
with_layers dbg c n same ne bare (some p) none = (λ e. ne (sym same ∙ e), bare)
with_layers dbg c n same ne bare (some p) (some k) = (λ e. ne (sym same ∙ e), bare)

-- An error of the client, classified.
pub classify-Failed :
    (dbg : KeyError → Bytes) (debug : Error → Bytes) (e : Error) → Failed (classify dbg debug e)
unfolding classify new_obs claims_success
classify-Failed dbg debug e =
    with_layers debug (classify_inner dbg e).0 _ refl
      (λ q. true≢false (sym (ap claims_success q) ∙ classify-claims_success dbg e))
      (refl, refl, refl, refl, refl) (classify_inner dbg e).1 (error_count e)

module _ (build : Build) (api : Api) where
  started-HasShape :
      (session : Bytes) (primary : KeyArg) (keys : List KeyArg) (ts : ℕ)
      (r : Option (Result Error Unit))
      → HasShape (Command.prewrite_only session primary keys) (prewritten build api ts r)
  unfolding prewritten ok_obs new_obs
  started-HasShape session primary keys ts (some (ok u)) =
      inl (refl, (ts, refl, (refl, refl, refl, refl, refl)), (refl, refl, refl))
  started-HasShape session primary keys ts (some (err e)) = inr (driver_error_obs-Failed _)
  started-HasShape session primary keys ts none = inr (driver_error_obs-Failed _)

  pub prewrite_only-HasShape :
      (session : Bytes) (primary : KeyArg) (keys : List KeyArg) (txn : api.Transaction)
      (w : api.World)
      → HasShape
          (Command.prewrite_only session primary keys)
          (prewrite_only build api txn (bytes primary) (map bytes keys) w).0
  unfolding prewrite_only
  prewrite_only-HasShape session primary [] txn w = elim (Bool-cases build.test_probes) [
    | inl y ↦ rw y (inr (driver_error_obs-Failed _))
    | inr n ↦ rw n (inr (unsupported_obs-Failed _))
  ]
  prewrite_only-HasShape session primary (k ∷ ks) txn w = elim (Bool-cases build.test_probes) [
    | inl y ↦ rw y (started-HasShape session primary (k ∷ ks) _ _)
    | inr n ↦ rw n (inr (unsupported_obs-Failed _))
  ]

  summed-HasShape :
      (client : Bytes) (start end : KeyArg) (r : Option (Result Error ChecksumObs))
      → HasShape (Command.raw_checksum client start end) (checksummed build api r)
  unfolding checksummed ok_obs new_obs
  summed-HasShape client start end (some (ok sum)) =
      inl (refl, (sum, refl, (refl, refl, refl, refl, refl)), (refl, refl, refl))
  summed-HasShape client start end (some (err e)) = inr (classify-Failed _ _ e)
  summed-HasShape client start end none = inr (driver_error_obs-Failed _)

  pub raw_checksum-HasShape :
      (client : Bytes) (start end : KeyArg) (c : api.RawClient) (w : api.World)
      → HasShape
          (Command.raw_checksum client start end)
          (raw_checksum build api c (bytes start) (bytes end) w).0
  unfolding raw_checksum
  raw_checksum-HasShape client start end c w = elim (Bool-cases build.pre_raw_checksum) [
    | inl y ↦ rw y (inr (unsupported_obs-Failed _))
    | inr n ↦ rw n (summed-HasShape client start end _)
  ]
