-- ===== src/Harness/Pd/First.antt =====
-- The fallback over PD's endpoints: `pd_get` of crates/harness/src/cluster.rs.
use mathlib.Core.Path.{subst}
use client_rust_test.Base.{
  ℕ, ◌+◌, ◌≤◌, ◌<◌, ◌≡◌, refl, sym, ap, ◌∙◌, List, [], ◌∷◌, ◌++◌, inl, inr, Bytes, length,
  length-append, arith,
}
use client_rust_test.Base.Result.{Result, ok, err, Result-cases}
use client_rust_test.Proto.Json.{Json}
use client_rust_test.Harness.Pd.{
  Http, Reply, Trouble, url_of, read_body, answer_of, try_pd, get_loop, pd_get, pd_addrs,
}

module _ (http : Http) (path : Bytes) where
  -- The endpoint answers 2xx with a body that parses.
  abbrev pub Usable : Bytes → http.World → Json → Type 0
  Usable addr w v =
      (reply : Reply) × (body : Bytes) × ((http.get (url_of addr path) w).0 ≡ ok reply)
      × (200 ≤ reply.status)
      × (reply.status < 300)
      × (reply.body ≡ ok body)
      × (http.from_str body ≡ ok v)

  abbrev pub asked : Bytes → http.World → http.World
  asked addr w = (http.get (url_of addr path) w).1

  -- Endpoints that are asked in turn, none of them usable, and the world after.
  abbrev pub Useless : List Bytes → http.World → http.World → Type 0
  Useless [] w w' = w ≡ w'
  Useless (addr ∷ addrs) w w' = ((v : Json) → ¬ Usable addr w v) × Useless addrs (asked addr w) w'

  abbrev pub Answered : List Bytes → http.World → Result (List Trouble) Json × http.World → Type 0
  Answered addrs w (ok v, w') =
      (before : List Bytes) × (addr : Bytes) × (after : List Bytes) × (last : http.World) × (addrs
        ≡ before ++ addr ∷ after)
      × Useless before w last
      × Usable addr last v
      × (asked addr last ≡ w')
  Answered addrs w (err errors, w') = Useless addrs w w' × (length errors ≡ length addrs)

  module _ (url : Bytes) where
    read_ok :
        (status : ℕ) (body : Bytes) (v : Json)
        → read_body http url status body ≡ ok v
        → (200 ≤ status) × (status < 300) × (http.from_str body ≡ ok v)
    unfolding read_body
    read_ok status body v h = (ground arith, ground arith, ground arith)

    ok_read :
        (status : ℕ) (body : Bytes) (v : Json)
        → 200 ≤ status
        → status < 300
        → http.from_str body ≡ ok v
        → read_body http url status body ≡ ok v
    unfolding read_body
    ok_read status body v low high parsed = ground arith

    answer_ok :
        (r : Result Bytes Reply) (v : Json)
        → answer_of http url r ≡ ok v
        → (reply : Reply) × (body : Bytes) × (r ≡ ok reply)
          × (200 ≤ reply.status)
          × (reply.status < 300)
          × (reply.body ≡ ok body)
          × (http.from_str body ≡ ok v)
    unfolding answer_of
    answer_ok (err e) v h = absurd (cc)
    answer_ok (ok reply) v h = elim (Result-cases reply.body) [
      | inl (body, e) ↦
          let (low, high, parsed) = read_ok reply.status body v (ground arith) in
          (reply, body, refl, low, high, e, parsed)
      | inr (x, e) ↦ absurd (ground arith)
    ]

    ok_answer :
        (r : Result Bytes Reply) (v : Json) (reply : Reply) (body : Bytes)
        → r ≡ ok reply
        → 200 ≤ reply.status
        → reply.status < 300
        → reply.body ≡ ok body
        → http.from_str body ≡ ok v
        → answer_of http url r ≡ ok v
    unfolding answer_of
    ok_answer r v reply body e low high b parsed =
        rw e (rw b (ok_read reply.status body v low high parsed))

  try_Usable :
      (addr : Bytes) (w : http.World) (v : Json)
      → (try_pd http (url_of addr path) w).0 ≡ ok v
      → Usable addr w v
  unfolding try_pd
  try_Usable addr w v h = answer_ok (url_of addr path) (http.get (url_of addr path) w).0 v h

  Usable-try :
      (addr : Bytes) (w : http.World) (v : Json)
      → Usable addr w v
      → (try_pd http (url_of addr path) w).0 ≡ ok v
  unfolding try_pd
  Usable-try addr w v (reply, body, e, low, high, b, parsed) =
      ok_answer (url_of addr path) (http.get (url_of addr path) w).0 v reply body e low high b
        parsed

  -- After `n` errors
  abbrev AnsweredAfter :
      ℕ → List Bytes → http.World → Result (List Trouble) Json × http.World → Type 0
  AnsweredAfter n addrs w (ok v, w') = Answered addrs w (ok v, w')
  AnsweredAfter n addrs w (err errors, w') = Useless addrs w w' × (length errors ≡ n + length addrs)

  later :
      (n : ℕ) (addr : Bytes) (addrs : List Bytes) (w : http.World)
      (r : Result (List Trouble) Json × http.World)
      → ((v : Json) → ¬ Usable addr w v)
      → AnsweredAfter (n + 1) addrs (asked addr w) r
      → AnsweredAfter n (addr ∷ addrs) w r
  later n addr addrs w (ok v, w') unusable (before, found, after, last, e, useless, usable, ends) =
      (addr ∷ before, found, after, last, ap (λ xs. addr ∷ xs) e, (unusable, useless), usable, ends)
  later n addr addrs w (err errors, w') unusable (useless, many) =
      ((unusable, useless), omega (arith, many))

  loop_lem :
      (addrs : List Bytes) (errors : List Trouble) (w : http.World)
      → AnsweredAfter (length errors) addrs w (get_loop http path addrs errors w)
  unfolding get_loop try_pd
  loop_lem [] errors w = (refl, omega arith)
  loop_lem (addr ∷ addrs) errors w =
      go (try_pd http (url_of addr path) w).0 refl
        (λ x. loop_lem addrs (errors ++ x ∷ []) (asked addr w))
    where
      go :
          (r : Result Trouble Json)
          → (try_pd http (url_of addr path) w).0 ≡ r
          → ((x : Trouble)
              → AnsweredAfter
                  (length (errors ++ x ∷ []))
                  addrs
                  (asked addr w)
                  (get_loop http path addrs (errors ++ x ∷ []) (asked addr w)))
          → AnsweredAfter
              (length errors)
              (addr ∷ addrs)
              w
              (elim r as (λ x. Result (List Trouble) Json × http.World) [
                | ok v ↦ (ok v, asked addr w)
                | err e ↦ get_loop http path addrs (errors ++ e ∷ []) (asked addr w)
              ])
      go (ok v) e rest = ([], addr, addrs, w, refl, refl, try_Usable addr w v e, refl)
      go (err x) e rest =
          later (length errors) addr addrs w _ (λ v u. failed v (sym e ∙ Usable-try addr w v u))
            (subst
              (λ n.
                AnsweredAfter n addrs (asked addr w)
                  (get_loop http path addrs (errors ++ x ∷ []) (asked addr w)))
              (length-append errors (x ∷ [])) (rest x))
        where
          failed : (v : Json) → err x ≡ ok v → ⊥
          failed v q = absurd (cc)

  -- `pd_get` asks the endpoints in their order and stops at the first that is of use, one that answers
  -- 2xx with a body that parses: that body's JSON is its answer, every endpoint before was asked and
  -- of no use, and none after is asked. It panics only if no endpoint was of use, with one error for
  -- each.
  pub pd_get-Answered : (w : http.World) → Answered (pd_addrs http.addrs) w (pd_get http path w)
  unfolding pd_get
  pd_get-Answered w = whole (pd_get http path w) (loop_lem (pd_addrs http.addrs) [] w)
    where
      whole :
          (r : Result (List Trouble) Json × http.World)
          → AnsweredAfter 0 (pd_addrs http.addrs) w r
          → Answered (pd_addrs http.addrs) w r
      whole (ok v, w') h = h
      whole (err errors, w') (useless, many) = (useless, omega (arith, many))
