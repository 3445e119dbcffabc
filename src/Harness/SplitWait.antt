-- ===== src/Harness/SplitWait.antt =====
-- The wait for a split, crates/harness/src/split_wait.rs. Times are natural numbers, and a failure is
-- the constructor that names its message, with what it reports.
pub mod Rounds
pub mod Ends
use client_rust_test.Base.{
  ℕ, zero, suc, ◌+◌, ◌-◌, Option, none, some, Bool, true, false, ltb, leb, if◌then◌else◌, Bytes,
  text,
}
use client_rust_test.Base.Result.{Result, ok, err}

pub record SplitWait : Type 0 where
  pub keys : ℕ
  pub limit : ℕ
  pub rewrite_every : ℕ
  pub poll : ℕ

-- The clock, the sleep, and what the caller passes in. A commit under a time limit says whether it
-- returned before it was cancelled at the deadline.
pub record Around : Type 1 where
  pub World : Type 0
  pub now : World → ℕ × World
  pub sleep : ℕ → World → World
  pub seed : (deadline : ℕ) → World → Bool × World
  pub rewrite : (deadline : ℕ) → World → Bool × World
  pub probe : World → Bool × World
  pub region_count : World → ℕ × World

pub data Failure : Type 0 where
  commit_limit : (commit : Bytes) (rewrites running : ℕ) → Failure
  -- `growing` tells the two causes of the message apart.
  no_split : (rewrites before now : ℕ) (growing : Bool) → Failure

-- The end of the wait, or the re-writes and the time of the next one that it goes on with.
pub data Step : Type 0 where
  ended : Result Failure ℕ → Step
  goes : (rewrites next_rewrite : ℕ) → Step

abbrev pub no_split_message : (rewrites before now : ℕ) → Failure
no_split_message rewrites before now = Failure.no_split rewrites before now (ltb before now)

module _ (env : Around) (wait : SplitWait) (regions_before : ℕ) where
  -- A commit that had not returned, with the time that it ran
  abbrev pub cut_off : Bytes → ℕ → ℕ → env.World → Result Failure (Unit {0}) × env.World
  cut_off commit rewrites started w =
      let (t, w') = env.now w in (err (Failure.commit_limit commit rewrites (t - started)), w')

  unfoldable pub limited_commit :
      ℕ
      → Bytes
      → ℕ
      → (ℕ → env.World → Bool × env.World)
      → env.World
      → Result Failure (Unit {0}) × env.World
  limited_commit deadline commit rewrites run w =
      let (started, w1) = env.now w in
      let (returned, w2) = run deadline w1 in
      let (t, w3) = env.now w2 in
      if returned
      then (if ltb t deadline then (ok tt, w3) else cut_off commit rewrites started w3)
      else cut_off commit rewrites started w2

  unfoldable pub written : ℕ → Result Failure (Unit {0}) × env.World → Step × env.World
  written rewrites (ok u, w) =
      let (t, w') = env.now w in
      (goes (suc rewrites) (t + wait.rewrite_every), env.sleep wait.poll w')
  written rewrites (err e, w) = (ended (err e), w)

  unfoldable pub maybe_rewrite : ℕ → ℕ → ℕ → env.World → Step × env.World
  unfolding limited_commit written
  maybe_rewrite deadline rewrites next_rewrite w =
      let (t, w') = env.now w in
      if leb next_rewrite t
      then written rewrites (limited_commit deadline (text "re-write") rewrites env.rewrite w')
      else (goes rewrites next_rewrite, env.sleep wait.poll w')

  unfoldable pub no_probe : ℕ → ℕ → ℕ → env.World → Step × env.World
  unfolding maybe_rewrite
  no_probe deadline rewrites next_rewrite w =
      let (t, w') = env.now w in
      let (regions_now, w'') = env.region_count w' in
      if leb deadline t
      then (ended (err (no_split_message rewrites regions_before regions_now)), w'')
      else maybe_rewrite deadline rewrites next_rewrite w'

  -- One round of the loop
  unfoldable pub round : ℕ → ℕ → ℕ → env.World → Step × env.World
  unfolding no_probe
  round deadline rewrites next_rewrite w =
      let (split, w') = env.probe w in
      if split then (ended (ok rewrites), w') else no_probe deadline rewrites next_rewrite w'

  -- The loop; `none` says that the fuel ran out.
  unfoldable pub wait_loop : ℕ → ℕ → Step × env.World → Option (Result Failure ℕ) × env.World
  unfolding round
  wait_loop fuel deadline (ended r, w) = (some r, w)
  wait_loop zero deadline (goes rewrites next_rewrite, w) = (none, w)
  wait_loop (suc fuel) deadline (goes rewrites next_rewrite, w) =
      wait_loop fuel deadline (round deadline rewrites next_rewrite w)

  -- After the seed commit
  abbrev pub seeded : Result Failure (Unit {0}) × env.World → Step × env.World
  seeded (ok u, w) = let (t, w') = env.now w in (goes 0 (t + wait.rewrite_every), w')
  seeded (err e, w) = (ended (err e), w)

  unfoldable pub wait_for_split : ℕ → env.World → Option (Result Failure ℕ) × env.World
  unfolding limited_commit wait_loop
  wait_for_split fuel w =
      let (start, w') = env.now w in
      let deadline = start + wait.limit in
      wait_loop fuel deadline (seeded (limited_commit deadline (text "seed") 0 env.seed w'))
