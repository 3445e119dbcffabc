-- ===== src/Harness/SplitWait/Rounds.antt =====
-- What one round of the wait does, by a clock that never goes back: crates/harness/src/split_wait.rs.
use client_rust_test.Base.{
  ℕ, ◌+◌, ◌≤◌, ◌<◌, ◌≡◌, refl, inl, inr, Bool, true, false, ltb, leb, Bool-cases, if-either, Bytes,
  text, arith,
}
use client_rust_test.Base.Result.{Result, ok, err}
use client_rust_test.Harness.SplitWait.{
  SplitWait, Around, Failure, Step, ended, goes, cut_off, limited_commit, written, maybe_rewrite,
  no_probe, round,
}

-- What a clock that never goes back makes of the calls: a time of each world, which no call makes
-- less, which a read of the clock lies between, which a sleep moves on, and which has reached the
-- deadline once a commit is cancelled there.
pub record Clocked (env : Around) : Type 0 where
  pub time : env.World → ℕ
  pub now_read : (w : env.World) → time w ≤ (env.now w).0
  pub now_after : (w : env.World) → (env.now w).0 ≤ time (env.now w).1
  pub sleeps : (d : ℕ) (w : env.World) → time w + d ≤ time (env.sleep d w)
  pub seed_later : (deadline : ℕ) (w : env.World) → time w ≤ time (env.seed deadline w).1
  pub seed_cancelled :
      (deadline : ℕ) (w : env.World)
      → (env.seed deadline w).0 ≡ false
      → deadline ≤ time (env.seed deadline w).1
  pub rewrite_later : (deadline : ℕ) (w : env.World) → time w ≤ time (env.rewrite deadline w).1
  pub rewrite_cancelled :
      (deadline : ℕ) (w : env.World)
      → (env.rewrite deadline w).0 ≡ false
      → deadline ≤ time (env.rewrite deadline w).1
  pub probe_later : (w : env.World) → time w ≤ time (env.probe w).1
  pub count_later : (w : env.World) → time w ≤ time (env.region_count w).1

module _ (env : Around) (wait : SplitWait) (before : ℕ) (clock : Clocked env) where
  -- A success right after a probe that reported a split, or a failure past the deadline.
  abbrev pub Ended : ℕ → Result Failure ℕ → env.World → Type 0
  Ended deadline (ok rewrites) w =
      (w' : env.World) × ((env.probe w').0 ≡ true) × (w ≡ (env.probe w').1)
  Ended deadline (err e) w = deadline ≤ clock.time w

  -- A commit that succeeds takes no time back; one that fails ends past the deadline.
  abbrev pub Committed : ℕ → env.World → Result Failure (Unit {0}) × env.World → Type 0
  Committed deadline w (ok u, w') = clock.time w ≤ clock.time w'
  Committed deadline w (err e, w') = deadline ≤ clock.time w'

  cut_off-Committed :
      (deadline : ℕ) (commit : Bytes) (rewrites started : ℕ) (w0 w : env.World)
      → deadline ≤ clock.time w
      → Committed deadline w0 (cut_off env wait before commit rewrites started w)
  cut_off-Committed deadline commit rewrites started w0 w h =
      omega (arith, clock.now_read w, clock.now_after w)

  pub commit_lem :
      (deadline : ℕ) (commit : Bytes) (rewrites : ℕ) (run : ℕ → env.World → Bool × env.World)
      (later : (deadline : ℕ) (w : env.World) → clock.time w ≤ clock.time (run deadline w).1)
      (cancelled : (deadline : ℕ) (w : env.World)
        → (run deadline w).0 ≡ false
        → deadline ≤ clock.time (run deadline w).1)
      (w : env.World)
      → Committed deadline w (limited_commit env wait before deadline commit rewrites run w)
  unfolding limited_commit
  commit_lem deadline commit rewrites run later cancelled w =
      let w1 = (env.now w).1 in
      let w2 = (run deadline w1).1 in
      elim (Bool-cases (run deadline w1).0) [
        | inr cut ↦ rw cut (
            cut_off-Committed deadline commit rewrites (env.now w).0 w w2
              (cancelled deadline w1 cut))
        | inl returned ↦ elim (Bool-cases (ltb (env.now w2).0 deadline)) [
          | inl early ↦ rw (returned, early) (in_time w)
          | inr late ↦
              rw (returned, late)
                (cut_off-Committed deadline commit rewrites (env.now w).0 w (env.now w2).1
                  (past w2 late))
        ]
      ]
    where
      past :
          (w2 : env.World)
          → ltb (env.now w2).0 deadline ≡ false
          → deadline ≤ clock.time (env.now w2).1
      past w2 late = let h = clock.now_after w2 in ground arith

      in_time :
          (w : env.World) → Committed deadline w (ok tt, (env.now (run deadline (env.now w).1).1).1)
      in_time w =
          let w1 = (env.now w).1 in
          let w2 = (run deadline w1).1 in
          omega (
            arith,
            clock.now_read w,
            clock.now_after w,
            later deadline w1,
            clock.now_read w2,
            clock.now_after w2,
          )

  -- The wait ended as it may, or a round went on before the deadline and took some time.
  abbrev pub Rounded : ℕ → env.World → Step × env.World → Type 0
  Rounded deadline w (ended r, w') = Ended deadline r w'
  Rounded deadline w (goes rewrites next_rewrite, w') =
      (clock.time w < deadline) × (clock.time w < clock.time w')

  module _ (poll : 0 < wait.poll) (deadline : ℕ) where
    written-Rounded :
        (rewrites : ℕ) (w0 w : env.World) (c : Result Failure (Unit {0}) × env.World)
        → clock.time w0 < deadline
        → clock.time w0 ≤ clock.time w
        → Committed deadline w c
        → Rounded deadline w0 (written env wait before rewrites c)
    unfolding written
    written-Rounded rewrites w0 w (ok u, w') early later h = (
      early,
      omega (
        arith,
        poll,
        h,
        later,
        clock.now_read w',
        clock.now_after w',
        clock.sleeps wait.poll (env.now w').1,
      ),
    )
    written-Rounded rewrites w0 w (err e, w') early later h = h

    maybe_rewrite-Rounded :
        (rewrites next_rewrite : ℕ) (w0 w : env.World)
        → clock.time w0 < deadline
        → clock.time w0 ≤ clock.time w
        → Rounded deadline w0 (maybe_rewrite env wait before deadline rewrites next_rewrite w)
    unfolding maybe_rewrite
    maybe_rewrite-Rounded rewrites next_rewrite w0 w early later =
        let w' = (env.now w).1 in
        if-either (Rounded deadline w0) (leb next_rewrite (env.now w).0)
          (written env wait before rewrites
            (limited_commit env wait before deadline (text "re-write") rewrites env.rewrite w'))
          (goes rewrites next_rewrite, env.sleep wait.poll w')
          (written-Rounded rewrites w0 w' _ early
            (omega (arith, later, clock.now_read w, clock.now_after w))
            (commit_lem deadline (text "re-write") rewrites env.rewrite clock.rewrite_later
              clock.rewrite_cancelled w'))
          (
            early,
            omega (
              arith,
              poll,
              later,
              clock.now_read w,
              clock.now_after w,
              clock.sleeps wait.poll w',
            ),
          )

    no_probe-Rounded :
        (rewrites next_rewrite : ℕ) (w0 w : env.World)
        → clock.time w0 ≤ clock.time w
        → Rounded deadline w0 (no_probe env wait before deadline rewrites next_rewrite w)
    unfolding no_probe
    no_probe-Rounded rewrites next_rewrite w0 w later =
        let w' = (env.now w).1 in
        elim (Bool-cases (leb deadline (env.now w).0)) [
          | inl late ↦ rw late (over w' late)
          | inr early ↦ rw early (
              maybe_rewrite-Rounded rewrites next_rewrite w0 w' (under early)
                (omega (arith, later, clock.now_read w, clock.now_after w)))
        ]
      where
        over :
            (w' : env.World)
            → leb deadline (env.now w).0 ≡ true
            → deadline ≤ clock.time (env.region_count (env.now w).1).1
        over w' late =
            let a = clock.now_after w in let b = clock.count_later (env.now w).1 in ground arith

        under : leb deadline (env.now w).0 ≡ false → clock.time w0 < deadline
        under early = let a = clock.now_read w in ground arith

    pub round-Rounded :
        (rewrites next_rewrite : ℕ) (w : env.World)
        → Rounded deadline w (round env wait before deadline rewrites next_rewrite w)
    unfolding round
    round-Rounded rewrites next_rewrite w = elim (Bool-cases (env.probe w).0) [
      | inl split ↦ rw split (w, split, refl)
      | inr none_yet ↦
          rw none_yet
            (no_probe-Rounded rewrites next_rewrite w (env.probe w).1 (clock.probe_later w))
    ]
