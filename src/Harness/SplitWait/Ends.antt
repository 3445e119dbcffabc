-- ===== src/Harness/SplitWait/Ends.antt =====
-- The wait for a split of crates/harness/src/split_wait.rs ends, and only for its two reasons.
use client_rust_test.Base.{ℕ, zero, suc, ◌+◌, ◌-◌, ◌≤◌, ◌<◌, Option, none, some, text, arith}
use client_rust_test.Base.Result.{Result, ok, err}
use client_rust_test.Harness.SplitWait.{
  SplitWait, Around, Failure, Step, ended, goes, limited_commit, round, wait_loop, seeded,
  wait_for_split,
}
use client_rust_test.Harness.SplitWait.Rounds.{
  Clocked, Ended, Committed, Rounded, commit_lem, round-Rounded,
}

module _ (env : Around) (wait : SplitWait) (before : ℕ) (clock : Clocked env) where
  module _ (poll : 0 < wait.poll) (deadline : ℕ) where
    -- The wait has ended as it may, or there is fuel for the time that is left.
    abbrev Fits : ℕ → Step × env.World → Type 0
    Fits fuel (ended r, w) = Ended env wait before clock deadline r w
    Fits fuel (goes rewrites next_rewrite, w) = deadline - clock.time w < fuel

    fits :
        (fuel : ℕ) (w : env.World) (s : Step × env.World)
        → Rounded env wait before clock deadline w s
        → deadline - clock.time w < suc fuel
        → Fits fuel s
    fits fuel w (ended r, w') h many = h
    fits fuel w (goes rewrites next_rewrite, w') h many = omega (arith, h.0, h.1)

    -- How the loop answers.
    abbrev pub Answered : Option (Result Failure ℕ) × env.World → Type 0
    Answered (none, w) = ⊥
    Answered (some r, w) = Ended env wait before clock deadline r w

    loop_lem :
        (fuel : ℕ) (s : Step × env.World)
        → Fits fuel s
        → Answered (wait_loop env wait before fuel deadline s)
    unfolding wait_loop
    loop_lem fuel (ended r, w) h = h
    loop_lem zero (goes rewrites next_rewrite, w) h = absurd (omega (arith, h))
    loop_lem (suc fuel) (goes rewrites next_rewrite, w) h =
        loop_lem fuel (round env wait before deadline rewrites next_rewrite w) (
          fits fuel w (round env wait before deadline rewrites next_rewrite w)
            (round-Rounded env wait before clock poll deadline rewrites next_rewrite w) h)

  seeded-Fits :
      (poll : 0 < wait.poll) (fuel start : ℕ) (w : env.World)
      (c : Result Failure (Unit {0}) × env.World)
      → start ≤ clock.time w
      → Committed env wait before clock (start + wait.limit) w c
      → wait.limit < fuel
      → Fits poll (start + wait.limit) fuel (seeded env wait before c)
  seeded-Fits poll fuel start w (ok u, w') later h many =
      omega (arith, later, h, clock.now_read w', clock.now_after w')
  seeded-Fits poll fuel start w (err e, w') later h many = h

  -- Let the clock never go back and the sleep between probes be positive. With more rounds of fuel
  -- than the limit has units of time, the wait for a split ends: with a number of re-writes right
  -- after a probe that reported a split, or with a failure, and that not before the deadline,
  -- which is the limit counted from before the seed commit.
  pub wait_for_split-Answered :
      (fuel : ℕ) (w : env.World) (poll : 0 < wait.poll)
      → wait.limit < fuel
      → Answered poll ((env.now w).0 + wait.limit) (wait_for_split env wait before fuel w)
  unfolding wait_for_split
  wait_for_split-Answered fuel w poll many =
      let start = (env.now w).0 in
      let w' = (env.now w).1 in
      loop_lem poll (start + wait.limit) fuel
        (seeded env wait before
          (limited_commit env wait before (start + wait.limit) (text "seed") 0 env.seed w'))
        (seeded-Fits poll fuel start w' _ (clock.now_after w)
          (commit_lem env wait before clock (start + wait.limit) (text "seed") 0 env.seed
            clock.seed_later clock.seed_cancelled w')
          many)
