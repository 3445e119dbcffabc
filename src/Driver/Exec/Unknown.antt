-- ===== src/Driver/Exec/Unknown.antt =====
-- Commands that name what the driver does not have.
use client_rust_test.Base.{ℕ, ◌≡◌, refl, none, some, Bool, true, false, Bytes, text, ◌++◌}
use client_rust_test.Base.Map.{get, remove-none}
use client_rust_test.Proto.Class.{is_admissible}
use client_rust_test.Proto.Observation.{Observation, new_obs, ok_obs, driver_error_obs}
use client_rust_test.Proto.Command.{Command}
use client_rust_test.Driver.Probe.{Api, Build}
use client_rust_test.Driver.Exec.{Driver, arm, take_session, scan_arm, no_session, execute}

module _ (build : Build) (api : Api) (rounds : ℕ) where
  -- The session or the client that the command acts on is not there.
  abbrev pub Unknown : Command → Driver build api rounds → Type 0
  Unknown (Command.begin session client mode) d = get client d.clients ≡ none
  Unknown (Command.put session key value) d = get session d.txns ≡ none
  Unknown (Command.get session key) d = get session d.txns ≡ none
  Unknown (Command.commit session) d = get session d.txns ≡ none
  Unknown (Command.rollback session) d = get session d.txns ≡ none
  Unknown (Command.prewrite_only session primary keys) d = get session d.txns ≡ none
  Unknown (Command.snapshot_get client key) d = get client d.clients ≡ none
  Unknown (Command.scan_locks client start end batch_size) d = get client d.clients ≡ none
  Unknown (Command.raw_put client key value) d = get client d.raw_clients ≡ none
  Unknown (Command.raw_checksum client start end) d = get client d.raw_clients ≡ none
  Unknown (Command.close_client name) d = get name d.clients ≡ none
  Unknown (Command.abandon session) d = get session d.txns ≡ none
  Unknown Command.hello d = ⊥
  Unknown (Command.open_client name) d = ⊥
  Unknown (Command.open_raw_client name) d = ⊥

  -- Whether the command only gives up what it names.
  abbrev pub gives_up : Command → Bool
  gives_up (Command.close_client name) = true
  gives_up (Command.abandon session) = true
  gives_up _ = false

  -- The answer to a command that names what is not there
  abbrev pub Refused : Bool → Observation → Type 0
  Refused true obs = obs ≡ ok_obs
  Refused false obs =
      (detail : Bytes) × (obs ≡ driver_error_obs detail) × (is_admissible obs.class ≡ false)

  refused : (detail : Bytes) → Refused false (driver_error_obs detail)
  unfolding driver_error_obs new_obs is_admissible
  refused detail = (detail, refl, refl)

  -- A command that names a session or a client that the driver does not have calls nothing of the
  -- client, and the driver stays as it was. `close_client` and `abandon` are answered `ok`
  -- nevertheless. Every other such command is answered with a `driver_error`, whose class is not
  -- admissible.
  pub execute-Unknown :
      (cmd : Command) (d : Driver build api rounds) (w : api.World)
      → Unknown cmd d
      → (obs : Observation) × (execute build api rounds cmd (d, w)
          ≡ (record { hello = none; observation = some obs }, (d, w)))
        × Refused (gives_up cmd) obs
  unfolding execute arm take_session scan_arm no_session
  execute-Unknown (Command.begin session client mode) d w h =
      let detail = text "begin: no such client " ++ client in
      (driver_error_obs detail, rw h refl, refused detail)
  execute-Unknown (Command.put session key value) d w h =
      let detail = text "no such session: " ++ session in
      (driver_error_obs detail, rw h refl, refused detail)
  execute-Unknown (Command.get session key) d w h =
      let detail = text "no such session: " ++ session in
      (driver_error_obs detail, rw h refl, refused detail)
  execute-Unknown (Command.commit session) d w h =
      let detail = text "no such session: " ++ session in
      (driver_error_obs detail, rw h refl, refused detail)
  execute-Unknown (Command.rollback session) d w h =
      let detail = text "no such session: " ++ session in
      (driver_error_obs detail, rw h refl, refused detail)
  execute-Unknown (Command.prewrite_only session primary keys) d w h =
      let detail = text "no such session: " ++ session in
      (driver_error_obs detail, rw h refl, refused detail)
  execute-Unknown (Command.snapshot_get client key) d w h =
      let detail = text "snapshot_get: no such client " ++ client in
      (driver_error_obs detail, rw h refl, refused detail)
  execute-Unknown (Command.scan_locks client start end batch_size) d w h =
      let detail = text "scan_locks: no such client " ++ client in
      (driver_error_obs detail, rw h refl, refused detail)
  execute-Unknown (Command.raw_put client key value) d w h =
      let detail = text "raw_put: no such raw client " ++ client in
      (driver_error_obs detail, rw h refl, refused detail)
  execute-Unknown (Command.raw_checksum client start end) d w h =
      let detail = text "raw_checksum: no such raw client " ++ client in
      (driver_error_obs detail, rw h refl, refused detail)
  execute-Unknown (Command.close_client name) d w h =
      (ok_obs, rw (remove-none name d.clients h) refl, refl)
  execute-Unknown (Command.abandon session) d w h =
      (ok_obs, rw (remove-none session d.txns h) refl, refl)
  execute-Unknown Command.hello d w h = absurd h
  execute-Unknown (Command.open_client name) d w h = absurd h
  execute-Unknown (Command.open_raw_client name) d w h = absurd h
