-- ===== src/Runner/Substitute/Keys.antt =====
-- After substitution every key of a command is the run's own, and no binary value has changed.
use client_rust_test.Base.{◌≡◌, ◌≢◌, refl, List, [], ◌∷◌, map, true, Bytes, IsByte, All}
use client_rust_test.Proto.Project.{occurs}
use client_rust_test.Proto.Command.{Command, KeyArg, utf8, b64, bytes, as_key, as_value}
use Command.{
  hello, open_client, close_client, begin, put, get, commit, rollback, snapshot_get, scan_locks,
  prewrite_only, abandon, open_raw_client, raw_put, raw_checksum,
}
use client_rust_test.Proto.Command.Namespace.{occurs-as_key}
use client_rust_test.Runner.Substitute.{substitute}

-- The arguments that name keys, the bounds of ranges included, and those that are values.
abbrev pub key_args : Command → List KeyArg
key_args (put session key value) = key ∷ []
key_args (raw_put client key value) = key ∷ []
key_args (get session key) = key ∷ []
key_args (snapshot_get client key) = key ∷ []
key_args (scan_locks client start end batch_size) = start ∷ end ∷ []
key_args (raw_checksum client start end) = start ∷ end ∷ []
key_args (prewrite_only session primary keys) = primary ∷ keys
key_args _ = []

abbrev pub value_args : Command → List KeyArg
value_args (put session key value) = value ∷ []
value_args (raw_put client key value) = value ∷ []
value_args _ = []

-- The arguments that are binary.
abbrev pub binary : List KeyArg → List Bytes
binary [] = []
binary (b64 b ∷ more) = b ∷ binary more
binary (utf8 s ∷ more) = binary more

binary_value :
    (value : KeyArg) (prefix : Bytes) → binary (as_value value prefix ∷ []) ≡ binary (value ∷ [])
unfolding as_value
binary_value (utf8 s) prefix = refl
binary_value (b64 b) prefix = refl

module _ (prefix : Bytes) (is_bytes : All IsByte prefix) (ne : prefix ≢ []) where
  abbrev pub Own : KeyArg → Type 0
  Own key = occurs prefix (bytes key) ≡ true

  own : (key : KeyArg) → Own (as_key key prefix)
  own key = occurs-as_key prefix key is_bytes ne

  Own-All : (keys : List KeyArg) → All Own (map (λ k. as_key k prefix) keys)
  Own-All [] = tt
  Own-All (key ∷ keys) = (own key, Own-All keys)

  Own-keys : (cmd : Command) → All Own (key_args (substitute cmd prefix))
  unfolding substitute
  Own-keys (put session key value) = (own key, tt)
  Own-keys (raw_put client key value) = (own key, tt)
  Own-keys (get session key) = (own key, tt)
  Own-keys (snapshot_get client key) = (own key, tt)
  Own-keys (scan_locks client start end batch_size) = (own start, (own end, tt))
  Own-keys (raw_checksum client start end) = (own start, (own end, tt))
  Own-keys (prewrite_only session primary keys) = (own primary, Own-All keys)
  Own-keys hello = tt
  Own-keys (open_client name) = tt
  Own-keys (close_client name) = tt
  Own-keys (open_raw_client name) = tt
  Own-keys (begin session client mode) = tt
  Own-keys (commit session) = tt
  Own-keys (rollback session) = tt
  Own-keys (abandon session) = tt

  same_values :
      (cmd : Command) → binary (value_args (substitute cmd prefix)) ≡ binary (value_args cmd)
  unfolding substitute
  same_values (put session key value) = binary_value value prefix
  same_values (raw_put client key value) = binary_value value prefix
  same_values (get session key) = refl
  same_values (snapshot_get client key) = refl
  same_values (scan_locks client start end batch_size) = refl
  same_values (raw_checksum client start end) = refl
  same_values (prewrite_only session primary keys) = refl
  same_values hello = refl
  same_values (open_client name) = refl
  same_values (close_client name) = refl
  same_values (open_raw_client name) = refl
  same_values (begin session client mode) = refl
  same_values (commit session) = refl
  same_values (rollback session) = refl
  same_values (abandon session) = refl

  -- Under a prefix of bytes that is not empty: every key of a command that is sent, a bound of a
  -- range included, holds the prefix, and the binary values are those of the scenario, unchanged.
  pub substitute_lem :
      (cmd : Command)
      → All Own (key_args (substitute cmd prefix))
        × (binary (value_args (substitute cmd prefix)) ≡ binary (value_args cmd))
  substitute_lem cmd = (Own-keys cmd, same_values cmd)
