-- ===== src/Gate/Race.antt =====
-- Which errors of a commit the gate reads as a lost race (crates/parity-gate/src/lib.rs).
use client_rust_test.Base.{Bool, true, false, not, ◌||◌, Option, none, some}
use client_rust_test.Tikv.Error.{
  Error, Errors, key_error, pessimistic_lock_error, multiple_key_errors,
}

abbrev pub is_some {ℓ} : {A : Type ℓ} → Option A → Bool
is_some none = false
is_some (some a) = true

unfoldable mutual
  pub is_lost_race : Error → Bool
  is_lost_race (key_error e) = is_some e.conflict
  is_lost_race (pessimistic_lock_error inner) = is_lost_race inner
  is_lost_race (multiple_key_errors errors) = any_lost_race errors
  is_lost_race _ = false

  -- `errors.iter().any(is_lost_race)`
  pub any_lost_race : Errors → Bool
  any_lost_race Errors.nil = false
  any_lost_race (Errors.cons e es) = is_lost_race e || any_lost_race es

-- `errors.iter().any(|e| !is_lost_race(e))`
unfoldable pub any_fault : Errors → Bool
unfolding is_lost_race
any_fault Errors.nil = false
any_fault (Errors.cons e es) = not (is_lost_race e) || any_fault es

-- The test of `warn_if_masking_fault`: a fault stands beside a conflict that was folded.
unfoldable pub masks_fault : Error → Bool
unfolding any_fault
masks_fault (multiple_key_errors errors) = any_fault errors
masks_fault _ = false
