-- ===== src/Runner/Retry/Bounded.antt =====
-- How often a run is attempted.
use client_rust_test.Base.{
  ℕ, zero, suc, ◌≤◌, ◌≡◌, ◌⊎◌, inl, inr, refl, sym, ◌∙◌, ap, Option, none, some, true, false,
  Bool-cases, if◌then◌else◌, arith,
}
use mathlib.Core.Path.{subst}
use client_rust_test.Base.Result.{Result, ok, err, Call, pure, bind_ok}
use client_rust_test.Runner.Execute.{Inadmissible}
use client_rust_test.Runner.Retry.{after_attempt, retry}

module _ {W E A : Type 0} (execute : Call W E (Result Inadmissible A)) where
  -- `Attempted n w r w'`: from world `w`, `n` attempts in a row that were inadmissible and
  -- transient, and then one that ended with `r` in world `w'`.
  pub data Attempted : ℕ → W → Result Inadmissible A → W → Type 0 where
    last : (w w' : W) (r : Result Inadmissible A) → execute w ≡ (ok r, w') → Attempted zero w r w'
    retried :
        (n : ℕ) (w w' w'' : W) (bad : Inadmissible) (r : Result Inadmissible A)
        → execute w ≡ (ok (err bad), w')
        → bad.transient ≡ true
        → Attempted n w' r w''
        → Attempted (suc n) w r w''

  -- What the loop makes of the last attempt.
  abbrev pub answer : Result Inadmissible A → Option A
  answer (ok trace) = some trace
  answer (err bad) = none

  -- A last attempt that is transient was the last allowed.
  abbrev pub GaveUp : ℕ → ℕ → Result Inadmissible A → Type 0
  GaveUp left n (ok trace) = Unit
  GaveUp left n (err bad) = (bad.transient ≡ false) ⊎ (n ≡ left)

  abbrev Story : ℕ → W → Option A → W → Type 0
  Story left w o w' =
      (n : ℕ) × (r : Result Inadmissible A) × Attempted n w r w'
      × (n ≤ left)
      × (answer r ≡ o)
      × GaveUp left n r

  more :
      (left : ℕ) (w w1 w2 : W) (bad : Inadmissible) (o : Option A)
      → execute w ≡ (ok (err bad), w1)
      → bad.transient ≡ true
      → Story left w1 o w2
      → Story (suc left) w o w2
  more left w w1 w2 bad o e moved (n, r, tried, few, same, g) =
      (suc n, r, retried n w w1 w2 bad r e moved tried, omega arith, same, later r g)
    where
      later : (r : Result Inadmissible A) → GaveUp left n r → GaveUp (suc left) (suc n) r
      later (ok trace) g = tt
      later (err bad) (inl fatal) = inl fatal
      later (err bad) (inr all) = inr (ap suc all)

  pair_eq : {X Y : Type 0} (p : X × Y) (x : X) → p.0 ≡ x → p ≡ (x, p.1)
  pair_eq (a, b) x e = rw e refl

  ok_inj :
      (x y : Option A) (w w' : W)
      → ◌≡◌ {A = Result E (Option A) × W} (ok x, w) (ok y, w')
      → (x ≡ y) × (w ≡ w')
  ok_inj x y w w' h = (
    unwrap (ap (λ (p : Result E (Option A) × W). p.0) h),
    ap (λ (p : Result E (Option A) × W). p.1) h,
  )
    where
      unwrap : ◌≡◌ {A = Result E (Option A)} (ok x) (ok y) → x ≡ y
      unwrap q = cc

  attempted :
      (left : ℕ) (again : Call W E (Option A)) (w w1 w2 : W) (o : Option A)
      (r : Result Inadmissible A)
      → execute w ≡ (ok r, w1)
      → after_attempt execute again r w1 ≡ (ok o, w2)
      → ((bad : Inadmissible)
          → execute w ≡ (ok (err bad), w1)
          → bad.transient ≡ true
          → again w1 ≡ (ok o, w2)
          → Story left w o w2)
      → Story left w o w2
  unfolding after_attempt
  attempted left again w w1 w2 o (ok trace) e h go =
      let (same, here) = ok_inj (some trace) o w1 w2 h in
      let tried : Attempted zero w (ok trace) w2 =
        subst (Attempted zero w (ok trace)) here (last w w1 (ok trace) e) in
      (zero, ok trace, tried, omega arith, same, tt)
  attempted left again w w1 w2 o (err bad) e h go = elim (Bool-cases bad.transient) [
    | inl moved ↦
        go bad e moved (subst (λ b. (if b then again else pure none) w1 ≡ (ok o, w2)) moved h)
    | inr fatal ↦
        let (same, here) =
          ok_inj none o w1 w2
            (subst (λ b. (if b then again else pure none) w1 ≡ (ok o, w2)) fatal h) in
        let tried : Attempted zero w (err bad) w2 =
          subst (Attempted zero w (err bad)) here (last w w1 (err bad) e) in
        (zero, err bad, tried, omega arith, same, inl fatal)
  ]

  -- An answer of the loop is that of its last attempt. The attempts before it were inadmissible and
  -- transient, and no more than `left`; and a run is given up only for a reason that is not
  -- transient, or when all attempts are used up.
  pub retry-Attempted :
      (left : ℕ) (w w2 : W) (o : Option A)
      → retry execute left w ≡ (ok o, w2)
      → (n : ℕ) × (r : Result Inadmissible A) × Attempted n w r w2
        × (n ≤ left)
        × (answer r ≡ o)
        × GaveUp left n r
  unfolding retry
  retry-Attempted zero w w2 o h =
      let (r, e, next) =
        bind_ok execute (after_attempt execute (pure none)) w o
          (ap (λ (p : Result E (Option A) × W). p.0) h) in
      attempted zero (pure none) w (execute w).1 w2 o r (pair_eq (execute w) (ok r) e)
        (sym next ∙ h)
        (λ bad q moved given.
          let (same, here) = ok_inj none o (execute w).1 w2 given in
          let tried : Attempted zero w (err bad) w2 =
            subst (Attempted zero w (err bad)) here (last w (execute w).1 (err bad) q) in
          (zero, err bad, tried, omega arith, same, inr refl))
  retry-Attempted (suc left) w w2 o h =
      let (r, e, next) =
        bind_ok execute (after_attempt execute (retry execute left)) w o
          (ap (λ (p : Result E (Option A) × W). p.0) h) in
      attempted (suc left) (retry execute left) w (execute w).1 w2 o r
        (pair_eq (execute w) (ok r) e) (sym next ∙ h)
        (λ bad q moved rest.
          more left w (execute w).1 w2 bad o q moved (retry-Attempted left (execute w).1 w2 o rest))
