-- ===== src/Driver/Paging/Complete.antt =====
-- What a page of `scan_locks` leaves out lies above its cut.
use client_rust_test.Base.{
  ℕ, zero, suc, ◌-◌, ◌≤◌, ◌<◌, ◌≡◌, refl, ap, inl, inr, List, [], ◌∷◌, map, true, false, ltb, Bytes,
  bytes_lt, length, All, In, none, some, Bool-cases, arith,
}
use client_rust_test.Driver.Paging.{LockInfo, nth, page_cut, sort_locks}
use client_rust_test.Driver.Paging.Sorting.{
  IsSorted, Within, In-sort_locks, sort_locks-IsSorted, length-Within, nth-Below,
}
use client_rust_test.Driver.Paging.Regions.{
  in_bounds, all_locks, pages, Answers, Full, pages_cases, In-pages,
}

pub nth-some : (ks : List Bytes) (i : ℕ) → i < length ks → (k : Bytes) × (nth ks i ≡ some k)
unfolding nth
nth-some [] i h = absurd (omega arith)
nth-some (k ∷ ks) zero h = (k, refl)
nth-some (k ∷ ks) (suc i) h = nth-some ks i (omega arith)

pub page_cut-none : (ks : List Bytes) (n : ℕ) → 0 < n → page_cut ks n ≡ none → length ks < n
unfolding page_cut
page_cut-none ks n pos e = elim (Bool-cases (ltb (length ks) n)) [
  | inl lt ↦ ground arith
  | inr ge ↦ let (k, q) = nth-some ks (n - 1) (ground arith) in ground arith
]

pub page_cut-some :
    (ks : List Bytes) (n : ℕ) (cut : Bytes)
    → page_cut ks n ≡ some cut
    → (0 < n) × (n ≤ length ks) × (nth ks (n - 1) ≡ some cut)
unfolding page_cut
page_cut-some ks n cut e = ground arith

pub nth-key :
    (ls : List LockInfo) (i : ℕ) (k : Bytes)
    → nth (map (λ l. l.key) ls) i ≡ some k
    → (l : LockInfo) × In l ls × (l.key ≡ k)
unfolding nth
nth-key [] i k e = cc
nth-key (l ∷ ls) zero k e = (l, inl refl, ground arith)
nth-key (l ∷ ls) (suc i) k e = let (m, h, q) = nth-key ls i k e in (m, inr h, q)

pub length-keys : (ls : List LockInfo) → length (map (λ l. l.key) ls) ≡ length ls
length-keys [] = refl
length-keys (l ∷ ls) = ap suc (length-keys ls)

module _ (rs : List (List LockInfo)) (sorted : All IsSorted rs) (n : ℕ) (pos : 0 < n)
    (cursor end : Bytes) (batch : List LockInfo) (ans : Answers rs n cursor end batch) where
  pub batch_In : Within (pages n cursor end rs) (sort_locks batch)
  batch_In a m = (In-sort_locks a batch).1 ((ans.members a).1 m)

  pub batch_bounds :
      (a : LockInfo)
      → In a (sort_locks batch)
      → In a (all_locks rs) × (in_bounds cursor end a ≡ true)
  batch_bounds a m = In-pages n cursor end a rs ((ans.members a).0 ((In-sort_locks a batch).0 m))

  pub batch-IsSorted : IsSorted (sort_locks batch)
  batch-IsSorted = sort_locks-IsSorted batch ans.once

  Full-Within :
      (a : LockInfo) (f : Full n a (pages n cursor end rs)) → Within f.locks (sort_locks batch)
  Full-Within a f x m = batch_In x (f.within x m)

  Full-fits : (a : LockInfo) → Full n a (pages n cursor end rs) → n ≤ length (sort_locks batch)
  Full-fits a f = omega (
    arith,
    f.count,
    length-Within (sort_locks batch) f.locks batch-IsSorted f.sorted (Full-Within a f),
  )

  -- Fewer than `n` locks: nothing in the range is missing.
  pub short_complete :
      (a : LockInfo)
      → length (sort_locks batch) < n
      → In a (all_locks rs)
      → in_bounds cursor end a ≡ true
      → In a (sort_locks batch)
  short_complete a h m b = elim (pages_cases n cursor end a rs sorted m b) [
    | inl i ↦ batch_In a i
    | inr f ↦ absurd (omega (arith, Full-fits a f))
  ]

  -- Otherwise nothing at or below the cut is missing.
  pub cut_complete :
      (a : LockInfo) (cut : Bytes)
      → page_cut (map (λ l. l.key) (sort_locks batch)) n ≡ some cut
      → In a (all_locks rs)
      → in_bounds cursor end a ≡ true
      → bytes_lt cut a.key ≡ false
      → In a (sort_locks batch)
  cut_complete a cut e m b h = elim (pages_cases n cursor end a rs sorted m b) [
    | inl i ↦ batch_In a i
    | inr f ↦
        let q = page_cut-some (map (λ l. l.key) (sort_locks batch)) n cut e in
        let below : bytes_lt cut a.key ≡ true =
          nth-Below (sort_locks batch) f.locks a (n - 1) cut batch-IsSorted f.sorted
            (Full-Within a f) f.below (omega (arith, f.count)) q.2 in
        cc
  ]
