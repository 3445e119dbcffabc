-- ===== src/Driver/Paging/Loop.antt =====
-- The loop of `scan_locks` returns every lock in its range, once and in order.
use client_rust_test.Base.{
  append-nil, ℕ, zero, suc, ◌≤◌, ◌<◌, ◌≡◌, refl, inl, inr, List, [], ◌∷◌, ◌++◌, map, true, false,
  not, Bytes, bytes_lt, bytes_lt_irrefl, length, length-keep, All, In, none, some, Option-cases,
  Bool-cases, arith,
}
use mathlib.Core.Path.{subst}
use client_rust_test.Base.Result.{Result, Call, ok, err}
use client_rust_test.Tikv.Error.{Error}
use client_rust_test.Driver.Paging.{
  LockInfo, keep, page_cut, next_cursor, at_or_below, sort_locks, Progress, failed, finished, again,
  advance, page, answer, scan_loop,
}
use client_rust_test.Driver.Paging.Sorting.{IsSorted}
use client_rust_test.Driver.Paging.Regions.{in_bounds, all_locks, Answers}
use client_rust_test.Driver.Paging.Complete.{
  page_cut-none, page_cut-some, nth-key, length-keys, batch_bounds, batch-IsSorted, short_complete,
  cut_complete,
}
use client_rust_test.Driver.Paging.Partial.{
  Exact, Partial, remaining, remaining-lt, exhausted_Exact, cut_Partial, past_end_Exact,
}

-- One round finishes with all locks, or keeps the invariant with less to read.
abbrev Advances : List (List LockInfo) → Bytes → Bytes → Bytes → Progress → Type 0
Advances rs start end cursor (failed e) = Unit
Advances rs start end cursor (finished ls) = Exact rs start end ls
Advances rs start end cursor (again c ls) =
    Partial rs start end c ls × (remaining rs c < remaining rs cursor)

module _ (end : Bytes) (n : ℕ) (ls bs : List LockInfo) where
  advance-none : page_cut (map (λ l. l.key) bs) n ≡ none → advance end n ls bs ≡ finished (ls ++ bs)
  unfolding advance
  advance-none e = ground arith

  advance-more :
      (cut : Bytes)
      → page_cut (map (λ l. l.key) bs) n ≡ some cut
      → bytes_lt (next_cursor cut) end ≡ true
      → advance end n ls bs ≡ again (next_cursor cut) (ls ++ keep (at_or_below cut) bs)
  unfolding advance
  advance-more cut e h = rw (e, advance) (rw h)

  advance-done :
      (cut : Bytes)
      → page_cut (map (λ l. l.key) bs) n ≡ some cut
      → bytes_lt (next_cursor cut) end ≡ false
      → advance end n ls bs ≡ finished (ls ++ keep (at_or_below cut) bs)
  unfolding advance
  advance-done cut e h = rw (e, advance) (rw h)

module _ (rs : List (List LockInfo)) (sorted : All IsSorted rs) (n : ℕ) (pos : 0 < n)
    (start end cursor : Bytes) (ls : List LockInfo) (partial : Partial rs start end cursor ls) where
  module _ (batch : List LockInfo) (ans : Answers rs n cursor end batch) where
    at_cut :
        (c : LockInfo)
        → In c (sort_locks batch)
        → page_cut (map (λ l. l.key) (sort_locks batch)) n ≡ some c.key
        → Advances rs start end cursor (advance end n ls (sort_locks batch))
    at_cut c m e =
        let next : Partial rs start end (next_cursor c.key)
            (ls ++ keep (at_or_below c.key) (sort_locks batch)) =
          cut_Partial rs start end cursor ls (sort_locks batch) partial
            (batch-IsSorted rs sorted n pos cursor end batch ans)
            (batch_bounds rs sorted n pos cursor end batch ans) c m
            (λ a. cut_complete rs sorted n pos cursor end batch ans a c.key e) in
        let (i, b) = batch_bounds rs sorted n pos cursor end batch ans c m in
        elim (Bool-cases (bytes_lt (next_cursor c.key) end)) [
          | inl more ↦
              rw (advance-more end n ls (sort_locks batch) c.key e more)
                (next, remaining-lt rs cursor c i (ground arith))
          | inr done ↦
              rw (advance-done end n ls (sort_locks batch) c.key e done)
                (past_end_Exact rs start end (next_cursor c.key) _ next done)
        ]

    advance-Advances : Advances rs start end cursor (advance end n ls (sort_locks batch))
    advance-Advances = elim (Option-cases (page_cut (map (λ l. l.key) (sort_locks batch)) n)) [
      | inl e ↦ rw (advance-none end n ls (sort_locks batch) e) (
          exhausted_Exact rs start end cursor ls (sort_locks batch) partial
            (batch-IsSorted rs sorted n pos cursor end batch ans)
            (batch_bounds rs sorted n pos cursor end batch ans)
            (λ a.
              short_complete rs sorted n pos cursor end batch ans a
                (omega (arith, page_cut-none _ n pos e, length-keys (sort_locks batch)))))
      | inr (cut, e) ↦
          let (c, m, k) = nth-key (sort_locks batch) _ cut (page_cut-some _ n cut e).2 in
          at_cut c m (rw k e)
    ]

  nothing_left :
      Answers rs n cursor end []
      → (a : LockInfo) → In a (all_locks rs)
      → in_bounds cursor end a ≡ true
      → In a []
  unfolding sort_locks
  nothing_left ans a = short_complete rs sorted n pos cursor end [] ans a pos

  page-Advances :
      (batch : List LockInfo)
      → Answers rs n cursor end batch
      → Advances rs start end cursor (page end n ls batch)
  unfolding page
  page-Advances [] ans =
      subst (Exact rs start end) (append-nil ls)
        (exhausted_Exact rs start end cursor ls [] partial tt (λ a m. absurd m) (nothing_left ans))
  page-Advances (l ∷ batch) ans = advance-Advances (l ∷ batch) ans

-- How the loop may end: with an error of the client, or with all locks.
abbrev pub Ends : List (List LockInfo) → Bytes → Bytes → Progress → Type 0
Ends rs start end (failed e) = Unit
Ends rs start end (finished ls) = Exact rs start end ls
Ends rs start end (again c ls) = ⊥

module _ {W : Type 0} (scan_locks : Bytes → Bytes → ℕ → Call W Error (List LockInfo))
    (rs : List (List LockInfo)) (sorted : All IsSorted rs) (n : ℕ) (pos : 0 < n) (start end : Bytes)
    (answers : (cursor : Bytes) (w : W) (batch : List LockInfo)
      → (scan_locks cursor end n w).0 ≡ ok batch
      → Answers rs n cursor end batch) where
  answer-Advances :
      (cursor : Bytes) (ls : List LockInfo) (w : W) (r : Result Error (List LockInfo))
      → Partial rs start end cursor ls
      → (scan_locks cursor end n w).0 ≡ r
      → Advances rs start end cursor (answer end n ls r)
  answer-Advances cursor ls w (err e) p h = tt
  answer-Advances cursor ls w (ok batch) p h =
      page-Advances rs sorted n pos start end cursor ls p batch (answers cursor w batch h)

  scan_loop-Ends :
      (fuel : ℕ) (cursor : Bytes) (ls : List LockInfo) (w : W)
      → Partial rs start end cursor ls
      → remaining rs cursor < fuel
      → Ends rs start end (scan_loop scan_locks end n fuel cursor ls w).0
  unfolding scan_loop
  scan_loop-Ends zero cursor ls w p h = absurd (omega arith)
  scan_loop-Ends (suc fuel) cursor ls w p h =
      let (r, w') = scan_locks cursor end n w in
      follow w' (answer end n ls r) (answer-Advances cursor ls w r p refl)
        (λ c more q lt. scan_loop-Ends fuel c more w' q (omega arith))
    where
      follow :
          (w' : W) (progress : Progress)
          → Advances rs start end cursor progress
          → ((c : Bytes) (more : List LockInfo)
              → Partial rs start end c more
              → remaining rs c < remaining rs cursor
              → Ends rs start end (scan_loop scan_locks end n fuel c more w').0)
          → Ends rs start end
              (elim progress as (λ _. Progress × W) [
                | again next more ↦ scan_loop scan_locks end n fuel next more w'
                | failed e ↦ (failed e, w')
                | finished all ↦ (finished all, w')
              ]).0
      follow w' (failed e) a ih = tt
      follow w' (finished all) a ih = a
      follow w' (again c more) a ih = ih c more a.0 a.1

  starts : Partial rs start end start []
  starts = record {
    sorted = tt;
    members = λ l m. absurd m;
    complete = λ l i b lt. ground arith;
    from = bytes_lt_irrefl start;
  }

  remaining-le : remaining rs start ≤ length (all_locks rs)
  remaining-le = length-keep (λ l. not (bytes_lt l.key start)) (all_locks rs)

  -- Let the locks of each region be in key order, the batch size positive, and let each call that
  -- succeeds answer with at most so many locks of each region, the lowest first and in any order.
  -- With more rounds than there are locks the loop ends, with an error of the client or with
  -- exactly the locks of all regions in the range: every one, none twice, in the order of keys.
  pub scan_loop_lem :
      (fuel : ℕ) (w : W)
      → length (all_locks rs) < fuel
      → Ends rs start end (scan_loop scan_locks end n fuel start [] w).0
  scan_loop_lem fuel w h = scan_loop-Ends fuel start [] w starts (omega (arith, remaining-le))
