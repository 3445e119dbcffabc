-- ===== src/Base/Result.antt =====
-- `Result<A, E>`, and calls that change the world they are made in.
use mathlib.Core.Logic.{◌⊎◌, inl, inr}
use mathlib.Core.Path.{◌≡◌, refl, ap, subst}

pub data Result (E A : Type 0) : Type 0 where
  ok : A → Result E A
  err : E → Result E A

abbrev pub Call : Type 0 → Type 0 → Type 0 → Type 0
Call W E A = W → Result E A × W

abbrev pub continue : {W E A B : Type 0} → (A → Call W E B) → Result E A → Call W E B
continue f (ok a) w = f a w
continue f (err e) w = (err e, w)

infixl 10 ◌>>=◌ ◌>>◌
abbrev pub ◌>>=◌ : {W E A B : Type 0} → Call W E A → (A → Call W E B) → Call W E B
◌>>=◌ m f w = let (r, w') = m w in continue f r w'

abbrev pub ◌>>◌ : {W E A B : Type 0} → Call W E A → Call W E B → Call W E B
m >> n = m >>= λ _. n

abbrev pub pure : {W E A : Type 0} → A → Call W E A
pure a w = (ok a, w)

-- A `do` block that succeeds: both parts did, the second from where the first ended.
pub bind_ok :
    {W E A B : Type 0} (m : Call W E A) (f : A → Call W E B) (w : W) (b : B)
    → ((m >>= f) w).0 ≡ ok b
    → (a : A) × ((m w).0 ≡ ok a) × ((m >>= f) w ≡ f a (m w).1)
bind_ok {W} {E} {A} {B} m f w b h = go (m w).0 refl
  where
    go : (r : Result E A) → (m w).0 ≡ r → (a : A) × ((m w).0 ≡ ok a) × ((m >>= f) w ≡ f a (m w).1)
    go (ok a) e = (a, e, ap (λ r. continue f r (m w).1) e)
    go (err x) e = absurd (cc)

-- What each call keeps, a `do` block keeps, whether it fails or not.
abbrev pub Keeps : {W E A : Type 0} → (W → Type 0) → Call W E A → Type 0
Keeps {W} P m = (w : W) → P w → P (m w).1

pub bind-Keeps :
    {W E A B : Type 0} (P : W → Type 0) (m : Call W E A) (f : A → Call W E B)
    → Keeps P m
    → ((a : A) → Keeps P (f a))
    → Keeps P (m >>= f)
bind-Keeps {W} {E} {A} {B} P m f km kf w h = go (m w).0
  where
    go : (r : Result E A) → P (continue f r (m w).1).1
    go (ok a) = kf a (m w).1 (km w h)
    go (err e) = km w h

-- A `do` block goes on from a first part that succeeds.
pub bind_step :
    {W E A B : Type 0} (m : Call W E A) (f : A → Call W E B) (w : W) (a : A)
    → (m w).0 ≡ ok a
    → (m >>= f) w ≡ f a (m w).1
bind_step m f w a e = ap (λ r. continue f r (m w).1) e

-- A result, as a call that does nothing.
abbrev pub lift : {W E A : Type 0} → Result E A → Call W E A
lift r w = (r, w)

-- What a call answers when it succeeds, and what it answers when it fails.
abbrev pub Outcome : {E A : Type 0} → (A → Type 0) → (E → Type 0) → Result E A → Type 0
Outcome P Q (ok a) = P a
Outcome P Q (err e) = Q e

abbrev pub Ensures : {W E A : Type 0} → (A → Type 0) → (E → Type 0) → Call W E A → Type 0
Ensures {W} P Q m = (w : W) → Outcome P Q (m w).0

pub bind-Ensures :
    {W E A B : Type 0} (P : A → Type 0) (R : B → Type 0) (Q : E → Type 0) (m : Call W E A)
    (f : A → Call W E B)
    → Ensures P Q m
    → ((a : A) → P a → Ensures R Q (f a))
    → Ensures R Q (m >>= f)
bind-Ensures {W} {E} {A} {B} P R Q m f hm hf w = go (m w).0 (hm w)
  where
    go : (r : Result E A) → Outcome P Q r → Outcome R Q (continue f r (m w).1).0
    go (ok a) p = hf a p (m w).1
    go (err e) q = q

pub Outcome_ok :
    {E A : Type 0} (P : A → Type 0) (Q : E → Type 0) (r : Result E A) (a : A)
    → Outcome P Q r
    → r ≡ ok a
    → P a
Outcome_ok P Q r a h e = go (subst (Outcome P Q) e h)
  where
    go : Outcome P Q (ok a) → P a
    go p = p

pub Outcome_err :
    {E A : Type 0} (P : A → Type 0) (Q : E → Type 0) (r : Result E A) (e : E)
    → Outcome P Q r
    → r ≡ err e
    → Q e
Outcome_err P Q r e h same = go (subst (Outcome P Q) same h)
  where
    go : Outcome P Q (err e) → Q e
    go q = q

pub Result-cases :
    {E A : Type 0} (r : Result E A) → ((a : A) × (r ≡ ok a)) ⊎ ((e : E) × (r ≡ err e))
Result-cases (ok a) = inl (a, refl)
Result-cases (err e) = inr (e, refl)
