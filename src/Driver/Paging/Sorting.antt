-- ===== src/Driver/Paging/Sorting.antt =====
-- Locks in the order of their keys.
use client_rust_test.Base.{
  ◌≡◌, refl, ◌↔◌, ◌⊎◌, inl, inr, List, [], ◌∷◌, ◌++◌, Bool, true, false, if◌then◌else◌, Bytes,
  bytes_lt, bytes_lt_irrefl, bytes_lt_trans, All, All-In, In, Bool-cases, In-append, ℕ, zero, suc,
  ◌≤◌, ◌<◌, some, length, map, arith,
}
use mathlib.Core.Path.{subst}
use client_rust_test.Driver.Paging.{LockInfo, insert_lock, sort_locks, keep, nth}

abbrev pub Below : LockInfo → LockInfo → Type 0
Below l m = bytes_lt l.key m.key ≡ true

abbrev pub IsSorted : List LockInfo → Type 0
IsSorted [] = Unit
IsSorted (l ∷ ls) = All (Below l) ls × IsSorted ls

-- No two locks of the list have one key.
abbrev pub Apart : LockInfo → LockInfo → Type 0
Apart l m = (bytes_lt l.key m.key ≡ true) ⊎ (bytes_lt m.key l.key ≡ true)

abbrev pub IsOnce : List LockInfo → Type 0
IsOnce [] = Unit
IsOnce (l ∷ ls) = All (Apart l) ls × IsOnce ls

pub All-of {ℓ} : {A : Type 0} {P : A → Type ℓ} (xs : List A) → ((a : A) → In a xs → P a) → All P xs
All-of [] h = tt
All-of (x ∷ xs) h = (h x (inl refl), All-of xs (λ a m. h a (inr m)))

pub In-insert_lock :
    (a l : LockInfo) (ms : List LockInfo) → In a (insert_lock l ms) ↔ ((a ≡ l) ⊎ In a ms)
unfolding insert_lock
In-insert_lock a l [] = (λ h. h, λ h. h)
In-insert_lock a l (m ∷ ms) = elim (Bool-cases (bytes_lt m.key l.key)) [
  | inl lt ↦ rw lt (
    λ h. elim h [
      | inl e ↦ inr (inl e)
      | inr t ↦ elim ((In-insert_lock a l ms).0 t) [ inl e ↦ inl e | inr u ↦ inr (inr u) ]
    ],
    λ h. elim h [
      | inl e ↦ inr ((In-insert_lock a l ms).1 (inl e))
      | inr t ↦ elim t [ inl e ↦ inl e | inr u ↦ inr ((In-insert_lock a l ms).1 (inr u)) ]
    ],
  )
  | inr ge ↦ rw ge (λ h. h, λ h. h)
]

pub In-sort_locks : (a : LockInfo) (ls : List LockInfo) → In a (sort_locks ls) ↔ In a ls
unfolding sort_locks
In-sort_locks a [] = (λ h. h, λ h. h)
In-sort_locks a (l ∷ ls) = (
  λ h. elim ((In-insert_lock a l (sort_locks ls)).0 h) [
    | inl e ↦ inl e
    | inr t ↦ inr ((In-sort_locks a ls).0 t)
  ],
  λ h. elim h [
    | inl e ↦ (In-insert_lock a l (sort_locks ls)).1 (inl e)
    | inr t ↦ (In-insert_lock a l (sort_locks ls)).1 (inr ((In-sort_locks a ls).1 t))
  ],
)

-- From a lock that is not below `l` and is not at its key.
above : (l m : LockInfo) → Apart l m → bytes_lt m.key l.key ≡ false → Below l m
above l m (inl h) e = h
above l m (inr h) e = cc

Below-All : (l m : LockInfo) (ms : List LockInfo) → Below l m → All (Below m) ms → All (Below l) ms
Below-All l m [] h k = tt
Below-All l m (n ∷ ns) h k = (bytes_lt_trans l.key m.key n.key h k.0, Below-All l m ns h k.1)

insert_lock-IsSorted :
    (l : LockInfo) (ms : List LockInfo)
    → All (Apart l) ms
    → IsSorted ms
    → IsSorted (insert_lock l ms)
unfolding insert_lock
insert_lock-IsSorted l [] d s = (tt, tt)
insert_lock-IsSorted l (m ∷ ms) d s = elim (Bool-cases (bytes_lt m.key l.key)) [
  | inl lt ↦ rw lt (
    All-of (insert_lock l ms) (λ a h. elim ((In-insert_lock a l ms).0 h) [
      | inl e ↦ rw e lt
      | inr t ↦ All-In (Below m) a ms s.0 t
    ]),
    insert_lock-IsSorted l ms d.1 s.1,
  )
  | inr ge ↦ let h : Below l m = above l m d.0 ge in rw ge ((h, Below-All l m ms h s.0), s)
]

pub sort_locks-IsSorted : (ls : List LockInfo) → IsOnce ls → IsSorted (sort_locks ls)
unfolding sort_locks
sort_locks-IsSorted [] h = tt
sort_locks-IsSorted (l ∷ ls) h =
    insert_lock-IsSorted l (sort_locks ls)
      (All-of (sort_locks ls) (λ a m. All-In (Apart l) a ls h.0 ((In-sort_locks a ls).0 m)))
      (sort_locks-IsSorted ls h.1)

not-Below_self : (l : LockInfo) → Below l l → ⊥
not-Below_self l h = cc (bytes_lt_irrefl l.key)

-- What lies below a lock of a sorted list comes first, so a member of `ls` that is above the head
-- is in the tail.
pub tail_In : (b a : LockInfo) (bs : List LockInfo) → Below b a → In a (b ∷ bs) → In a bs
tail_In b a bs h (inl e) = absurd (not-Below_self b (subst (λ x. Below b x) e h))
tail_In b a bs h (inr m) = m

-- The head of a sorted list is not above any member.
pub head-le :
    (b a : LockInfo) (bs : List LockInfo) → IsSorted (b ∷ bs) → In a (b ∷ bs) → (a ≡ b) ⊎ Below b a
head-le b a bs s (inl e) = inl e
head-le b a bs s (inr m) = inr (All-In (Below b) a bs s.0 m)

head-Below :
    (b t a : LockInfo) (bs : List LockInfo)
    → IsSorted (b ∷ bs)
    → In t (b ∷ bs)
    → Below t a
    → Below b a
head-Below b t a bs s m h = elim (head-le b t bs s m) [
  | inl e ↦ subst (λ x. Below x a) e h
  | inr k ↦ bytes_lt_trans b.key t.key a.key k h
]

abbrev pub Within : List LockInfo → List LockInfo → Type 0
Within ts bs = (a : LockInfo) → In a ts → In a bs

-- The tails of two sorted lists, one within the other.
Within-tail :
    (b t : LockInfo) (bs ts : List LockInfo)
    → IsSorted (b ∷ bs)
    → IsSorted (t ∷ ts)
    → Within (t ∷ ts) (b ∷ bs)
    → Within ts bs
Within-tail b t bs ts s u w a m =
    tail_In b a bs (head-Below b t a bs s (w t (inl refl)) (All-In (Below t) a ts u.0 m))
      (w a (inr m))

-- A sorted list within another is not longer.
pub length-Within :
    (bs ts : List LockInfo) → IsSorted bs → IsSorted ts → Within ts bs → length ts ≤ length bs
length-Within bs [] s u w = omega arith
length-Within [] (t ∷ ts) s u w = absurd (w t (inl refl))
length-Within (b ∷ bs) (t ∷ ts) s u w =
    omega (arith, length-Within bs ts s.1 u.1 (Within-tail b t bs ts s u w))

-- If all of `ts` lies below `u`, then so do as many of the first of `bs`.
pub nth-Below :
    (bs ts : List LockInfo) (u : LockInfo) (i : ℕ) (cut : Bytes)
    → IsSorted bs
    → IsSorted ts
    → Within ts bs
    → All (λ t. Below t u) ts
    → i < length ts
    → nth (map (λ l. l.key) bs) i ≡ some cut
    → bytes_lt cut u.key ≡ true
unfolding nth
nth-Below bs [] u i cut s v w h lt e = absurd (omega arith)
nth-Below [] (t ∷ ts) u i cut s v w h lt e = absurd (w t (inl refl))
nth-Below (b ∷ bs) (t ∷ ts) u zero cut s v w h lt e =
    let k : Below b u = head-Below b t u bs s (w t (inl refl)) h.0 in ground arith
nth-Below (b ∷ bs) (t ∷ ts) u (suc i) cut s v w h lt e =
    nth-Below bs ts u i cut s.1 v.1 (Within-tail b t bs ts s v w) h.1 (omega arith) e

pub append-IsSorted :
    (xs ys : List LockInfo)
    → IsSorted xs
    → IsSorted ys
    → ((a b : LockInfo) → In a xs → In b ys → Below a b)
    → IsSorted (xs ++ ys)
append-IsSorted [] ys s t h = t
append-IsSorted (x ∷ xs) ys s t h = (
  All-of (xs ++ ys) (λ a m. elim (In-append a xs ys m) [
    | inl l ↦ All-In (Below x) a xs s.0 l
    | inr r ↦ h x a (inl refl) r
  ]),
  append-IsSorted xs ys s.1 t (λ a b l r. h a b (inr l) r),
)

pub In-keep :
    (p : LockInfo → Bool) (a : LockInfo) (ls : List LockInfo)
    → In a (keep p ls)
    → In a ls × (p a ≡ true)
In-keep p a [] h = absurd h
In-keep p a (l ∷ ls) h = elim (Bool-cases (p l)) [
  | inl y ↦ elim (subst (λ b. In a (if b then l ∷ keep p ls else keep p ls)) y h) [
    | inl e ↦ (inl e, rw e y)
    | inr m ↦ let (i, q) = In-keep p a ls m in (inr i, q)
  ]
  | inr n ↦
      let (i, q) =
        In-keep p a ls (subst (λ b. In a (if b then l ∷ keep p ls else keep p ls)) n h) in
      (inr i, q)
]

pub keep-In :
    (p : LockInfo → Bool) (a : LockInfo) (ls : List LockInfo)
    → In a ls
    → p a ≡ true
    → In a (keep p ls)
keep-In p a [] h q = absurd h
keep-In p a (l ∷ ls) (inl e) q = let y : p l ≡ true = subst (λ x. p x ≡ true) e q in rw y (inl e)
keep-In p a (l ∷ ls) (inr m) q = elim (Bool-cases (p l)) [
  | inl y ↦ rw y (inr (keep-In p a ls m q))
  | inr n ↦ rw n (keep-In p a ls m q)
]

pub keep-IsSorted : (p : LockInfo → Bool) (ls : List LockInfo) → IsSorted ls → IsSorted (keep p ls)
keep-IsSorted p [] s = tt
keep-IsSorted p (l ∷ ls) s = elim (Bool-cases (p l)) [
  | inl y ↦ rw y (
    All-of (keep p ls) (λ a m. All-In (Below l) a ls s.0 (In-keep p a ls m).0),
    keep-IsSorted p ls s.1,
  )
  | inr n ↦ rw n (keep-IsSorted p ls s.1)
]
