-- ===== src/Runner/Retry.antt =====
-- The attempts at one run, from `run_scenario` of crates/parity-runner/src/main.rs.
pub mod Bounded
use client_rust_test.Base.{ℕ, zero, suc, Option, none, some, Bool, true, false, if◌then◌else◌}
use client_rust_test.Base.Result.{Result, ok, err, Call, ◌>>=◌, pure}
use client_rust_test.Runner.Execute.{Inadmissible}

abbrev pub max_attempts : ℕ
max_attempts = 3

module _ {W E A : Type 0} (execute : Call W E (Result Inadmissible A)) where
  -- What follows an attempt; `none` is a run that stays inadmissible.
  unfoldable pub after_attempt : Call W E (Option A) → Result Inadmissible A → Call W E (Option A)
  after_attempt again (ok trace) = pure (some trace)
  after_attempt again (err bad) = if bad.transient then again else pure none

  -- The loop; `left` is how many attempts `MAX_ATTEMPTS` allows after the one that begins.
  unfoldable pub retry : ℕ → Call W E (Option A)
  unfolding after_attempt
  retry zero = do r ← execute; after_attempt (pure none) r
  retry (suc left) = do r ← execute; after_attempt (retry left) r
