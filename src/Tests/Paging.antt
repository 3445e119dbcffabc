-- ===== src/Tests/Paging.antt =====
-- The loop of `scan_locks` over two regions of one lock each, one lock per page.
use client_rust_test.Base.{
  pos, ℕ, ◌≡◌, refl, inl, inr, List, [], ◌∷◌, Bytes, bytes_lt, Bool-cases, arith,
}
use mathlib.Core.Path.{subst}
use client_rust_test.Base.Result.{Result, Call, ok}
use client_rust_test.Tikv.Error.{Error}
use client_rust_test.Driver.Paging.{LockInfo, scan_loop}
use client_rust_test.Driver.Paging.Sorting.{IsOnce}
use client_rust_test.Driver.Paging.Regions.{in_bounds, pages, Answers}
use client_rust_test.Driver.Paging.Loop.{Ends, scan_loop_lem}

abbrev pub lock_at : ℕ → LockInfo
lock_at k = record {
  key = k ∷ [];
  primary_lock = k ∷ [];
  lock_type = pos 0;
  lock_ttl = 3000;
  lock_version = 5;
}

abbrev pub regions : List (List LockInfo)
regions = (lock_at 4 ∷ []) ∷ (lock_at 9 ∷ []) ∷ []

abbrev pub scan_locks : Bytes → Bytes → ℕ → Call (Unit {0}) Error (List LockInfo)
scan_locks start end n w = (ok (pages n start end regions), w)

pages-IsOnce : (start end : Bytes) → IsOnce (pages 1 start end regions)
unfolding bytes_lt
pages-IsOnce start end = elim (Bool-cases (in_bounds start end (lock_at 4))) [
  | inl y ↦ elim (Bool-cases (in_bounds start end (lock_at 9))) [
    | inl z ↦ rw (y, z) ((inl refl, tt), (tt, tt))
    | inr z ↦ rw (y, z) (tt, tt)
  ]
  | inr y ↦ elim (Bool-cases (in_bounds start end (lock_at 9))) [
    | inl z ↦ rw (y, z) (tt, tt)
    | inr z ↦ rw (y, z) tt
  ]
]

abbrev okay : List LockInfo → Result Error (List LockInfo)
okay = ok

ok-injective : {a b : List LockInfo} → okay a ≡ okay b → a ≡ b
ok-injective h = cc

pub answers :
    (cursor : Bytes) (w : Unit {0}) (batch : List LockInfo)
    → (scan_locks cursor (20 ∷ []) 1 w).0 ≡ ok batch
    → Answers regions 1 cursor (20 ∷ []) batch
answers cursor w batch h =
    subst (Answers regions 1 cursor (20 ∷ [])) (ok-injective h)
      (record { members = λ l. (λ m. m, λ m. m); once = pages-IsOnce cursor (20 ∷ []) })

scan_loop_lem_example : Ends regions [] (20 ∷ []) (scan_loop scan_locks (20 ∷ []) 1 3 [] [] tt).0
scan_loop_lem_example =
    scan_loop_lem scan_locks regions ((tt, tt), ((tt, tt), tt)) 1 (omega arith) [] (20 ∷ []) answers
      3 tt (omega arith)
