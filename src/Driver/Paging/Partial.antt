-- ===== src/Driver/Paging/Partial.antt =====
-- What the loop of `scan_locks` has read so far, and what one batch adds.
use client_rust_test.Base.{
  ℕ, ◌≤◌, ◌<◌, ◌≡◌, sym, ◌∙◌, inl, inr, List, [], ◌∷◌, ◌++◌, Bool, true, false, not, Bytes,
  bytes_lt, bytes_lt_trans, bytes_lt-of_lt_ge, bytes_lt-snoc_zero, bytes_lt-of_ge_lt,
  bytes_lt_irrefl, bytes_lt_asymm, length, In, In-append, In-append_left, In-append_right,
  Bool-cases, arith,
}
use mathlib.Core.Path.{subst}
use client_rust_test.Driver.Paging.{LockInfo, keep, next_cursor, at_or_below}
use client_rust_test.Driver.Paging.Sorting.{
  IsSorted, Within, In-keep, keep-In, keep-IsSorted, append-IsSorted,
}
use client_rust_test.Driver.Paging.Regions.{in_bounds, all_locks}

-- The locks of the regions from `start` up to `end`, in order.
pub record Exact (rs : List (List LockInfo)) (start end : Bytes) (ls : List LockInfo) : Type 0 where
  pub sorted : IsSorted ls
  pub members : (l : LockInfo) → In l ls → In l (all_locks rs) × (in_bounds start end l ≡ true)
  pub complete : (l : LockInfo) → In l (all_locks rs) → in_bounds start end l ≡ true → In l ls

-- Exact below the cursor.
pub record Partial (rs : List (List LockInfo)) (start end cursor : Bytes) (ls : List LockInfo)
    : Type 0 where
  pub sorted : IsSorted ls
  pub members :
      (l : LockInfo)
      → In l ls
      → In l (all_locks rs) × (in_bounds start end l ≡ true) × (bytes_lt l.key cursor ≡ true)
  pub complete :
      (l : LockInfo)
      → In l (all_locks rs)
      → in_bounds start end l ≡ true
      → bytes_lt l.key cursor ≡ true
      → In l ls
  pub from : bytes_lt cursor start ≡ false

bounds_split :
    (s e : Bytes) (l : LockInfo)
    → in_bounds s e l ≡ true
    → (bytes_lt l.key s ≡ false) × (bytes_lt l.key e ≡ true)
bounds_split s e l h = ground arith

bounds_join :
    (s e : Bytes) (l : LockInfo)
    → bytes_lt l.key s ≡ false
    → bytes_lt l.key e ≡ true
    → in_bounds s e l ≡ true
bounds_join s e l h k = ground arith

-- From `cursor ≤ key` and `start ≤ cursor`.
bounds_widen :
    (s c e : Bytes) (l : LockInfo)
    → bytes_lt c s ≡ false
    → in_bounds c e l ≡ true
    → in_bounds s e l ≡ true
bounds_widen s c e l h b =
    let (lo, hi) = bounds_split c e l b in
    bounds_join s e l (ground (arith, bytes_lt-of_ge_lt c l.key s)) hi

abbrev pub remaining : List (List LockInfo) → Bytes → ℕ
remaining rs cursor = length (keep (λ l. not (bytes_lt l.key cursor)) (all_locks rs))

length-keep_le :
    (p q : LockInfo → Bool) (ls : List LockInfo)
    → ((l : LockInfo) → q l ≡ true → p l ≡ true)
    → length (keep q ls) ≤ length (keep p ls)
length-keep_le p q [] h = omega arith
length-keep_le p q (l ∷ ls) h = ground (arith, h l, length-keep_le p q ls h)

length-keep_lt :
    (p q : LockInfo → Bool) (a : LockInfo) (ls : List LockInfo)
    → ((l : LockInfo) → q l ≡ true → p l ≡ true)
    → In a ls
    → p a ≡ true
    → q a ≡ false
    → length (keep q ls) < length (keep p ls)
length-keep_lt p q a [] h m y z = absurd m
length-keep_lt p q a (l ∷ ls) h (inl e) y z =
    rw (subst (λ x. p x ≡ true) e y, subst (λ x. q x ≡ false) e z)
      (omega (arith, length-keep_le p q ls h))
length-keep_lt p q a (l ∷ ls) h (inr m) y z = ground (arith, h l, length-keep_lt p q a ls h m y z)

-- The cursor moves past a lock that was at or above it.
pub remaining-lt :
    (rs : List (List LockInfo)) (cursor : Bytes) (l : LockInfo)
    → In l (all_locks rs)
    → bytes_lt l.key cursor ≡ false
    → remaining rs (next_cursor l.key) < remaining rs cursor
unfolding next_cursor
remaining-lt rs cursor l m h =
    length-keep_lt (λ x. not (bytes_lt x.key cursor)) (λ x. not (bytes_lt x.key (l.key ++ 0 ∷ [])))
      l (all_locks rs)
      (λ x q. ground (
        arith,
        bytes_lt-snoc_zero l.key x.key,
        bytes_lt-of_ge_lt x.key l.key x.key,
        bytes_lt-of_lt_ge x.key cursor l.key,
        bytes_lt_irrefl x.key,
        bytes_lt_asymm l.key x.key,
      ))
      m (ground arith) (ground (arith, bytes_lt-snoc_zero l.key l.key, bytes_lt_irrefl l.key))

-- A batch `bs` joins what was read below the cursor.
module _ (rs : List (List LockInfo)) (start end cursor : Bytes) (ls bs : List LockInfo)
    (partial : Partial rs start end cursor ls) (ordered : IsSorted bs)
    (within : (a : LockInfo)
      → In a bs
      → In a (all_locks rs) × (in_bounds cursor end a ≡ true)) where
  joined-IsSorted : (cs : List LockInfo) → IsSorted cs → Within cs bs → IsSorted (ls ++ cs)
  joined-IsSorted cs s w = append-IsSorted ls cs partial.sorted s (λ a b l r.
      bytes_lt-of_lt_ge a.key cursor b.key (partial.members a l).2
        (bounds_split cursor end b (within b (w b r)).1).0)

  pub exhausted_Exact :
      ((a : LockInfo) → In a (all_locks rs) → in_bounds cursor end a ≡ true → In a bs)
      → Exact rs start end (ls ++ bs)
  exhausted_Exact all = record {
    sorted = joined-IsSorted bs ordered (λ a m. m);
    members = λ l m. elim (In-append l ls bs m) [
      | inl h ↦ let (i, b, _) = partial.members l h in (i, b)
      | inr h ↦ let (i, b) = within l h in (i, bounds_widen start cursor end l partial.from b)
    ];
    complete = λ l i b. elim (Bool-cases (bytes_lt l.key cursor)) [
      | inl lt ↦ In-append_left l ls bs (partial.complete l i b lt)
      | inr ge ↦
          In-append_right l ls bs
            (all l i (bounds_join cursor end l ge (bounds_split start end l b).1))
    ];
  }

  module _ (c : LockInfo) (c_In : In c bs)
      (all : (a : LockInfo)
        → In a (all_locks rs)
        → in_bounds cursor end a ≡ true
        → bytes_lt c.key a.key ≡ false
        → In a bs) where
    below_next : (l : LockInfo) → bytes_lt l.key (next_cursor c.key) ≡ not (bytes_lt c.key l.key)
    unfolding next_cursor
    below_next l = bytes_lt-snoc_zero c.key l.key

    -- The old cursor is at or below the cut.
    cursor_below :
        (l : LockInfo) → bytes_lt l.key cursor ≡ true → bytes_lt l.key (next_cursor c.key) ≡ true
    cursor_below l h =
        let lo : bytes_lt c.key cursor ≡ false = (bounds_split cursor end c (within c c_In).1).0 in
        ground (arith, below_next l, bytes_lt_trans c.key l.key cursor)

    pub cut_Partial : Partial rs start end (next_cursor c.key) (ls ++ keep (at_or_below c.key) bs)
    cut_Partial = record {
      sorted =
          joined-IsSorted (keep (at_or_below c.key) bs)
            (keep-IsSorted (at_or_below c.key) bs ordered)
            (λ a m. (In-keep (at_or_below c.key) a bs m).0);
      members = λ l m. elim (In-append l ls (keep (at_or_below c.key) bs) m) [
        | inl h ↦ let (i, b, lt) = partial.members l h in (i, b, cursor_below l lt)
        | inr h ↦
            let (j, low) = In-keep (at_or_below c.key) l bs h in
            let (i, b) = within l j in
            (i, bounds_widen start cursor end l partial.from b, below_next l ∙ low)
      ];
      complete = λ l i b lt. elim (Bool-cases (bytes_lt l.key cursor)) [
        | inl old ↦ In-append_left l ls (keep (at_or_below c.key) bs) (partial.complete l i b old)
        | inr new ↦
            let low : at_or_below c.key l ≡ true = sym (below_next l) ∙ lt in
            let up : in_bounds cursor end l ≡ true =
              bounds_join cursor end l new (bounds_split start end l b).1 in
            In-append_right l ls (keep (at_or_below c.key) bs)
              (keep-In (at_or_below c.key) l bs (all l i up (ground arith)) low)
      ];
      from = ground (
        arith,
        partial.from,
        cursor_below c,
        below_next c,
        bytes_lt_irrefl c.key,
        bytes_lt_trans c.key (next_cursor c.key) start,
        bytes_lt-of_ge_lt cursor c.key start,
        bounds_split cursor end c (within c c_In).1,
      );
    }

-- A cursor at or past the end leaves nothing to read.
pub past_end_Exact :
    (rs : List (List LockInfo)) (start end cursor : Bytes) (ls : List LockInfo)
    → Partial rs start end cursor ls
    → bytes_lt cursor end ≡ false
    → Exact rs start end ls
past_end_Exact rs start end cursor ls p h = record {
  sorted = p.sorted;
  members = λ l m. let (i, b, _) = p.members l m in (i, b);
  complete = λ l i b.
      p.complete l i b (bytes_lt-of_lt_ge l.key end cursor (bounds_split start end l b).1 h);
}
