-- ===== src/Harness/Pd/Clock.antt =====
-- PD over HTTP is a PD for the wait of Harness.CrossRegion: crates/harness/src/cluster.rs.
use client_rust_test.Base.{ℕ, ◌+◌, ◌≤◌, List, [], ◌∷◌, ◌++◌, Option, none, some, Bytes, arith}
use client_rust_test.Base.Result.{Result, ok, err}
use client_rust_test.Proto.Json.{Json}
use client_rust_test.Harness.CrossRegion.Separated.{Clocked}
use client_rust_test.Harness.Pd.{
  Http, Trouble, url_of, try_pd, answer_of, get_loop, pd_get, pd_addrs, refusal, post_loop, pd_post,
  split_body, regions, over_http,
}

-- What a clock that never goes back makes of the requests.
pub record HttpClocked (http : Http) : Type 0 where
  pub time : http.World → ℕ
  pub now_read : (w : http.World) → time w ≤ (http.now w).0
  pub now_after : (w : http.World) → (http.now w).0 ≤ time (http.now w).1
  pub sleeps : (d : ℕ) (w : http.World) → time w + d ≤ time (http.sleep d w)
  pub get_later : (url : Bytes) (w : http.World) → time w ≤ time (http.get url w).1
  pub post_later :
      (url : Bytes) (body : Json) (w : http.World) → time w ≤ time (http.post url body w).1

module _ (http : Http) (clock : HttpClocked http) (path : Bytes) where
  get_loop_later :
      (addrs : List Bytes) (errors : List Trouble) (w : http.World)
      → clock.time w ≤ clock.time (get_loop http path addrs errors w).1
  unfolding get_loop try_pd
  get_loop_later [] errors w = omega arith
  get_loop_later (addr ∷ addrs) errors w =
      go (answer_of http (url_of addr path) (http.get (url_of addr path) w).0)
        (λ x. get_loop_later addrs (errors ++ x ∷ []) (http.get (url_of addr path) w).1)
    where
      go :
          (r : Result Trouble Json)
          → ((x : Trouble)
              → clock.time (http.get (url_of addr path) w).1
                ≤ clock.time
                    (get_loop http path addrs
                      (errors ++ x ∷ [])
                      (http.get (url_of addr path) w).1).1)
          → clock.time w
            ≤ clock.time
                (elim r as (λ x. Result (List Trouble) Json × http.World) [
                  | ok v ↦ (ok v, (http.get (url_of addr path) w).1)
                  | err e ↦
                      get_loop http path addrs (errors ++ e ∷ []) (http.get (url_of addr path) w).1
                ]).1
      go (ok v) rest = clock.get_later (url_of addr path) w
      go (err x) rest = omega (arith, rest x, clock.get_later (url_of addr path) w)

  post_loop_later :
      (body : Json) (addrs : List Bytes) (errors : List Trouble) (w : http.World)
      → clock.time w ≤ clock.time (post_loop http path body addrs errors w).1
  unfolding post_loop
  post_loop_later body [] errors w = omega arith
  post_loop_later body (addr ∷ addrs) errors w =
      go (refusal http (url_of addr path) (http.post (url_of addr path) body w).0)
        (λ x. post_loop_later body addrs (errors ++ x ∷ []) (http.post (url_of addr path) body w).1)
    where
      go :
          (r : Option Trouble)
          → ((x : Trouble)
              → clock.time (http.post (url_of addr path) body w).1
                ≤ clock.time
                    (post_loop http path body addrs
                      (errors ++ x ∷ [])
                      (http.post (url_of addr path) body w).1).1)
          → clock.time w
            ≤ clock.time
                (elim r as (λ x. Result (List Trouble) Unit × http.World) [
                  | none ↦ (ok tt, (http.post (url_of addr path) body w).1)
                  | some e ↦
                      post_loop http path body addrs
                        (errors ++ e ∷ [])
                        (http.post (url_of addr path) body w).1
                ]).1
      go none rest = clock.post_later (url_of addr path) body w
      go (some x) rest = omega (arith, rest x, clock.post_later (url_of addr path) body w)

module _ (http : Http) (clock : HttpClocked http) where
  pub regions_later : (w : http.World) → clock.time w ≤ clock.time (regions http w).1
  unfolding regions pd_get
  regions_later w = get_loop_later http clock _ (pd_addrs http.addrs) [] w

  pub post_later :
      (path : Bytes) (body : Json) (w : http.World)
      → clock.time w ≤ clock.time (pd_post http path body w).1
  unfolding pd_post
  post_later path body w = post_loop_later http clock path body (pd_addrs http.addrs) [] w

  -- Over HTTP too, no time goes back.
  abbrev pub over_http_clock : Clocked (over_http http)
  over_http_clock = record {
    time = clock.time;
    now_read = clock.now_read;
    now_after = clock.now_after;
    sleeps = clock.sleeps;
    regions_later = regions_later;
    split_later = λ region_id hex w. post_later _ (split_body region_id hex) w;
  }
