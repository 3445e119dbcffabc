-- ===== src/Driver/Paging/Regions.antt =====
-- What one call of `scan_locks` answers: from each region at most `batch_size` of its locks in the
-- range, the lowest keys first, merged in any order.
use client_rust_test.Base.{
  ℕ, zero, suc, ◌≡◌, refl, ap, ◌↔◌, ◌⊎◌, inl, inr, List, [], ◌∷◌, ◌++◌, Bool, true, not, ◌&&◌,
  Bytes, bytes_lt, length, take, All, All-In, In, In-append, In-append_left, In-append_right,
}
use client_rust_test.Driver.Paging.{LockInfo, keep}
use client_rust_test.Driver.Paging.Sorting.{
  Below, IsSorted, IsOnce, Within, All-of, In-keep, keep-In, keep-IsSorted,
}

-- `start ≤ key < end`
abbrev pub in_bounds : Bytes → Bytes → LockInfo → Bool
in_bounds start end l = not (bytes_lt l.key start) && bytes_lt l.key end

abbrev pub all_locks : List (List LockInfo) → List LockInfo
all_locks [] = []
all_locks (r ∷ rs) = r ++ all_locks rs

abbrev pub region_page : ℕ → Bytes → Bytes → List LockInfo → List LockInfo
region_page n start end r = take n (keep (in_bounds start end) r)

abbrev pub pages : ℕ → Bytes → Bytes → List (List LockInfo) → List LockInfo
pages n start end [] = []
pages n start end (r ∷ rs) = region_page n start end r ++ pages n start end rs

pub record Answers (rs : List (List LockInfo)) (n : ℕ) (start end : Bytes) (batch : List LockInfo)
    : Type 0 where
  pub members : (l : LockInfo) → In l batch ↔ In l (pages n start end rs)
  pub once : IsOnce batch

In-take : (a : LockInfo) (n : ℕ) (ls : List LockInfo) → In a (take n ls) → In a ls
In-take a zero ls h = absurd h
In-take a (suc n) [] h = absurd h
In-take a (suc n) (l ∷ ls) (inl e) = inl e
In-take a (suc n) (l ∷ ls) (inr m) = inr (In-take a n ls m)

take-IsSorted : (n : ℕ) (ls : List LockInfo) → IsSorted ls → IsSorted (take n ls)
take-IsSorted zero ls s = tt
take-IsSorted (suc n) [] s = tt
take-IsSorted (suc n) (l ∷ ls) s = (
  All-of (take n ls) (λ a m. All-In (Below l) a ls s.0 (In-take a n ls m)),
  take-IsSorted n ls s.1,
)

-- A member of a sorted list is among the first `n`, or the first `n` are that many and lie below it.
take_cases :
    (a : LockInfo) (n : ℕ) (ls : List LockInfo)
    → IsSorted ls
    → In a ls
    → In a (take n ls) ⊎ ((length (take n ls) ≡ n) × All (λ t. Below t a) (take n ls))
take_cases a zero ls s m = inr (refl, tt)
take_cases a (suc n) [] s m = absurd m
take_cases a (suc n) (l ∷ ls) s (inl e) = inl (inl e)
take_cases a (suc n) (l ∷ ls) s (inr m) = elim (take_cases a n ls s.1 m) [
  | inl h ↦ inl (inr h)
  | inr h ↦ inr (ap suc h.0, (All-In (Below l) a ls s.0 m, h.1))
]

-- Locks of one region that fill its part of the answer and all lie below `a`.
pub record Full (n : ℕ) (a : LockInfo) (answered : List LockInfo) : Type 0 where
  pub locks : List LockInfo
  pub count : length locks ≡ n
  pub below : All (λ t. Below t a) locks
  pub sorted : IsSorted locks
  pub within : Within locks answered

module _ (n : ℕ) (start end : Bytes) where
  -- A lock in the range is in the answer, or its region's part of the answer is full below it.
  pub pages_cases :
      (a : LockInfo) (rs : List (List LockInfo))
      → All IsSorted rs
      → In a (all_locks rs)
      → in_bounds start end a ≡ true
      → In a (pages n start end rs) ⊎ Full n a (pages n start end rs)
  pages_cases a [] s m b = absurd m
  pages_cases a (r ∷ rs) s m b = elim (In-append a r (all_locks rs) m) [
    | inl here ↦ elim (take_cases a n (keep p r) (keep-IsSorted p r s.0) (keep-In p a r here b)) [
      | inl h ↦ inl (In-append_left a (take n (keep p r)) (pages n start end rs) h)
      | inr h ↦ inr (record {
        locks = take n (keep p r);
        count = h.0;
        below = h.1;
        sorted = take-IsSorted n (keep p r) (keep-IsSorted p r s.0);
        within = λ x i. In-append_left x (take n (keep p r)) (pages n start end rs) i;
      })
    ]
    | inr later ↦ elim (pages_cases a rs s.1 later b) [
      | inl h ↦ inl (In-append_right a (take n (keep p r)) (pages n start end rs) h)
      | inr f ↦ inr (record {
        locks = f.locks;
        count = f.count;
        below = f.below;
        sorted = f.sorted;
        within = λ x i. In-append_right x (take n (keep p r)) (pages n start end rs) (f.within x i);
      })
    ]
  ]
    where
      p : LockInfo → Bool
      p = in_bounds start end

  pub In-pages :
      (a : LockInfo) (rs : List (List LockInfo))
      → In a (pages n start end rs)
      → In a (all_locks rs) × (in_bounds start end a ≡ true)
  In-pages a [] m = absurd m
  In-pages a (r ∷ rs) m = elim (In-append a (region_page n start end r) (pages n start end rs) m) [
    | inl h ↦
        let (i, b) =
          In-keep (in_bounds start end) a r (In-take a n (keep (in_bounds start end) r) h) in
        (In-append_left a r (all_locks rs) i, b)
    | inr h ↦ let (i, b) = In-pages a rs h in (In-append_right a r (all_locks rs) i, b)
  ]
