-- ===== src/Tests/Harness.antt =====
-- The waits of the harness at concrete inputs, where the world is the clock.
use client_rust_test.Base.{
  ℕ, ◌+◌, ◌≡◌, refl, some, [], ◌∷◌, true, leb, ltb, bytes_lt, if◌then◌else◌, arith,
}
use client_rust_test.Harness.Memcomparable.{locate, contains, encode_key}
use client_rust_test.Harness.SplitWait.{SplitWait, Around, wait_for_split}
use client_rust_test.Harness.SplitWait.Ends.{wait_for_split-Answered}
use client_rust_test.Harness.SplitWait.Ends
use client_rust_test.Harness.SplitWait.Rounds
use client_rust_test.Harness.CrossRegion.{
  Pd, met, region_pair, round_with, round, cross_loop, ensure_cross_region,
}

-- The range splits at time 7.
abbrev around : Around
around = record {
  World = ℕ;
  now = λ w. (w, w);
  sleep = λ d w. w + d;
  seed = λ deadline w. (true, w);
  rewrite = λ deadline w. (true, w);
  probe = λ w. (leb 7 w, w);
  region_count = λ w. (3, w);
}

abbrev wait : SplitWait
wait = record { keys = 200; limit = 20; rewrite_every = 4; poll = 2 }

abbrev ticking : Rounds.Clocked around
ticking = record {
  time = λ w. w;
  now_read = λ w. omega arith;
  now_after = λ w. omega arith;
  sleeps = λ d w. omega arith;
  seed_later = λ deadline w. omega arith;
  seed_cancelled = λ deadline w cut. cc;
  rewrite_later = λ deadline w. omega arith;
  rewrite_cancelled = λ deadline w cut. cc;
  probe_later = λ w. omega arith;
  count_later = λ w. omega arith;
}

wait_for_split-Answered_example :
    Ends.Answered around wait 3 ticking (omega arith) 20 (wait_for_split around wait 3 21 0)
wait_for_split-Answered_example =
    wait_for_split-Answered around wait 3 ticking 21 0 (omega arith) (omega arith)

-- One region until the split of time 500, and then two.
abbrev pd : Pd
pd = record {
  World = ℕ;
  regions = λ w. (
    some (
        if ltb w 500
        then record { id = 1; start = []; end = [] } ∷ []
        else record { id = 1; start = []; end = encode_key (109 ∷ []) }
          ∷ record { id = 2; start = encode_key (109 ∷ []); end = [] }
          ∷ []),
    w,
  );
  post_split = λ region_id key w. (true, w);
  now = λ w. (w, w);
  sleep = λ d w. w + d;
}

met_after_split : ensure_cross_region pd (97 ∷ []) (122 ∷ []) (109 ∷ []) 91 0 ≡ (some met, 500)
unfolding ensure_cross_region cross_loop round round_with region_pair locate contains encode_key
    bytes_lt
met_after_split = refl
