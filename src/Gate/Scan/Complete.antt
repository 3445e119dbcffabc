-- ===== src/Gate/Scan/Complete.antt =====
-- `scan` finds the rows of its prefix.
use mathlib.Core.Path.{subst}
use client_rust_test.Base.{
  ℕ, zero, suc, ◌≤◌, ◌<◌, ◌≡◌, refl, ◌∙◌, sym, ap, Option, none, some, [], ◌∷◌, ◌++◌, append_assoc,
  ◌==◌, if◌then◌else◌, Bytes, IsByte, length, take, drop, take_all, take-append-drop, length-take,
  length-keep, length-drop, keep, All, Bool-cases, inl, inr, arith,
}
use client_rust_test.Base.Result.{Result, Call, ok, err, pure, bind_step, continue}
use client_rust_test.Tikv.Error.{Error}
use client_rust_test.Tikv.Client.{Client, BoundRange, range_holds}
use client_rust_test.Gate.Prefix.{prefix_upper_bound, starts_with}
use client_rust_test.Gate.Prefix.Bounds.{range_holds-starts_with}
use client_rust_test.Gate.Scan.Pages.{Rows, InOrder, last_key-append_take, left, left-next}
use client_rust_test.Gate.Scan.{last_key, scan_page, snapshot, scan_pages, scan}

range-prefix :
    (prefix : Bytes) (ps : Rows)
    → All IsByte prefix
    → All (λ p. All IsByte p.0) ps
    → keep (λ p. range_holds (record { start = prefix; end = prefix_upper_bound prefix }) p.0) ps
      ≡ keep (λ p. starts_with prefix p.0) ps
range-prefix prefix [] hp h = refl
range-prefix prefix (p ∷ ps) hp h =
    rw (range_holds-starts_with prefix p.0 hp h.0, range-prefix prefix ps hp h.1) refl

-- The answer of a scan that is to find `found`: an error of the client, or just that.
abbrev pub Finds : Rows → Result Error (Option Rows) → Type 0
Finds found (err e) = Unit
Finds found (ok none) = ⊥
Finds found (ok (some out)) = out ≡ found

-- A scan of a snapshot that succeeds answers with the first of its rows in the range.
abbrev pub ReadsRows : (c : Client) → (c.Snapshot → Rows) → Type 0
ReadsRows c rows =
    (snap : c.Snapshot) (range : BoundRange) (n : ℕ) (w : c.World) (page : Rows)
    → (c.snapshot_scan snap range n w).0 ≡ ok page
    → page ≡ take n (keep (λ p. range_holds range p.0) (rows snap))

module _ (c : Client) (rows : c.Snapshot → Rows)
    (sorted : (snap : c.Snapshot) → InOrder (rows snap)) (reads : ReadsRows c rows) where
  module _ (snap : c.Snapshot) (upper : Option Bytes) where
    abbrev rest : Bytes → Rows
    rest cursor = left (rows snap) (sorted snap) upper cursor

    -- What the loop makes of a page.
    abbrev turn : ℕ → Rows → Rows → Call c.World Error (Option Rows)
    turn fuel out page =
        let more = scan_pages c snap upper fuel (last_key (out ++ page) ++ 0 ∷ []) (out ++ page) in
        if length page == scan_page then more else pure (some (out ++ page))

    full_turn :
        (fuel : ℕ) (cursor : Bytes) (out : Rows) (w : c.World)
        → scan_page ≤ length (rest cursor)
        → length (rest cursor) < suc fuel
        → ((next : Bytes) (all : Rows)
            → length (rest next) < fuel
            → Finds (all ++ rest next) (scan_pages c snap upper fuel next all w).0)
        → let all = out ++ take scan_page (rest cursor) in
          Finds (out ++ rest cursor) (scan_pages c snap upper fuel (last_key all ++ 0 ∷ []) all w).0
    full_turn fuel cursor out w h lt ih =
        let page = take scan_page (rest cursor) in
        let remaining : rest (last_key (out ++ page) ++ 0 ∷ []) ≡ drop scan_page (rest cursor) =
          rw (last_key-append_take out 255 (rest cursor) h)
            (left-next (rows snap) (sorted snap) upper cursor 255 h) in
        let all_found : (out ++ page) ++ rest (last_key (out ++ page) ++ 0 ∷ [])
            ≡ out ++ rest cursor =
          ap (λ r. (out ++ page) ++ r) remaining
          ∙ append_assoc out page (drop scan_page (rest cursor))
          ∙ ap (λ r. out ++ r) (take-append-drop scan_page (rest cursor)) in
        subst
          (λ found.
            Finds found
              (scan_pages c snap upper fuel (last_key (out ++ page) ++ 0 ∷ []) (out ++ page) w).0)
          all_found
          (ih (last_key (out ++ page) ++ 0 ∷ []) (out ++ page)
            (omega (arith, ap length remaining, length-drop scan_page (rest cursor))))

    turn-Finds :
        (fuel : ℕ) (cursor : Bytes) (out : Rows) (w : c.World)
        → length (rest cursor) < suc fuel
        → ((next : Bytes) (all : Rows)
            → length (rest next) < fuel
            → Finds (all ++ rest next) (scan_pages c snap upper fuel next all w).0)
        → Finds (out ++ rest cursor) (turn fuel out (take scan_page (rest cursor)) w).0
    turn-Finds fuel cursor out w h ih =
        let page = take scan_page (rest cursor) in
        elim (Bool-cases (length page == scan_page)) [
          | inl full ↦ rw full (
              full_turn fuel cursor out w (ground (arith, length-take scan_page (rest cursor))) h
                ih)
          | inr short ↦ rw short (
              ap (λ r. out ++ r)
                (take_all scan_page (rest cursor)
                  (ground (arith, length-take scan_page (rest cursor)))))
        ]

    page-Finds :
        (fuel : ℕ) (cursor : Bytes) (out : Rows) (w : c.World) (r : Result Error Rows)
        → (c.snapshot_scan snap (record { start = cursor; end = upper }) scan_page w).0 ≡ r
        → length (rest cursor) < suc fuel
        → ((next : Bytes) (all : Rows) (w' : c.World)
            → length (rest next) < fuel
            → Finds (all ++ rest next) (scan_pages c snap upper fuel next all w').0)
        → let w' = (c.snapshot_scan snap (record { start = cursor; end = upper }) scan_page w).1 in
          Finds (out ++ rest cursor) (continue (turn fuel out) r w').0
    page-Finds fuel cursor out w (err e) q h ih = tt
    page-Finds fuel cursor out w (ok page) q h ih =
        let range : BoundRange = record { start = cursor; end = upper } in
        let w' = (c.snapshot_scan snap range scan_page w).1 in
        subst (λ p. Finds (out ++ rest cursor) (turn fuel out p w').0)
          (sym (reads snap range scan_page w page q))
          (turn-Finds fuel cursor out w' h (λ next all. ih next all w'))

    scan_pages-Finds :
        (fuel : ℕ) (cursor : Bytes) (out : Rows) (w : c.World)
        → length (rest cursor) < fuel
        → Finds (out ++ rest cursor) (scan_pages c snap upper fuel cursor out w).0
    unfolding scan_pages
    scan_pages-Finds zero cursor out w h = absurd (omega arith)
    scan_pages-Finds (suc fuel) cursor out w h =
        page-Finds fuel cursor out w _ refl h (scan_pages-Finds fuel)

  -- Let the rows of each snapshot be in the order of their keys, the keys be bytes, and a scan of a
  -- snapshot that succeeds answer with the first rows of the range, as many as it may. Where a
  -- snapshot can be taken, `scan` of a prefix of bytes ends within one round more than the snapshot
  -- has rows: with an error of the client, or with exactly the rows whose keys begin with the
  -- prefix, in order.
  pub scan-Finds :
      ((snap : c.Snapshot) → All (λ p. All IsByte p.0) (rows snap))
      → (fuel : ℕ) (prefix : Bytes) (w : c.World) (snap : c.Snapshot) → All IsByte prefix
      → (snapshot c w).0 ≡ ok snap
      → length (rows snap) < fuel
      → Finds (keep (λ p. starts_with prefix p.0) (rows snap)) (scan c fuel prefix w).0
  unfolding scan
  scan-Finds bytes fuel prefix w snap hp taken enough =
      let upper = prefix_upper_bound prefix in
      let fits : length (rest snap upper prefix) < fuel = omega (
        arith,
        length-keep (λ p. range_holds (record { start = prefix; end = upper }) p.0) (rows snap),
      ) in
      subst (λ r. Finds (keep (λ p. starts_with prefix p.0) (rows snap)) r.0)
        (sym (bind_step (snapshot c) (λ s. scan_pages c s upper fuel prefix []) w snap taken))
        (subst (λ found. Finds found (scan_pages c snap upper fuel prefix [] (snapshot c w).1).0)
          (range-prefix prefix (rows snap) hp (bytes snap))
          (scan_pages-Finds snap upper fuel prefix [] (snapshot c w).1 fits))
