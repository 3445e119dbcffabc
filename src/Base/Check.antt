-- ===== src/Base/Check.antt =====
-- Checks that answer `Ok(())` or the first error, in the order of the code, with the searches and
-- the loops that they are made of.
use package.client_rust_test.Base.Tests.{if◌then◌else◌, Bool-cases}
use package.client_rust_test.Base.Lists.{In, All, any, all}
use package.client_rust_test.Base.Order.{Bytes, bytes_eq, bytes_eq→eq, bytes_eq_refl}
use package.client_rust_test.Base.Result.{Result, ok, err}
use mathlib.Core.Path.{◌≡◌, refl, sym, subst, ◌∙◌}
use mathlib.Core.Logic.{inl, inr}
use mathlib.Core.Bool.{Bool, true, false, true≢false, not, ◌&&◌, ◌||◌}
use mathlib.Core.Option.{Option, none, some}
use mathlib.Core.List.{List, [], ◌∷◌, map}
use native.Mathlib.Omega.{arith}

-- `m?; n`
infixr 12 ◌>>>◌
abbrev pub ◌>>>◌ : {E A : Type 0} → Result E Unit → Result E A → Result E A
ok u >>> n = n
err e >>> n = err e

-- `let a = m?; f(a)`
abbrev pub attempt : {E A B : Type 0} → Result E A → (A → Result E B) → Result E B
attempt (ok a) f = f a
attempt (err e) f = err e

-- `if b { return Err(e) }`
abbrev pub forbid : {E : Type 0} → Bool → E → Result E Unit
forbid true e = err e
forbid false e = ok tt

-- `if let Some(a) = o { return Err(e(a)) }`
abbrev pub forbid_some : {E A : Type 0} → Option A → (A → E) → Result E Unit
forbid_some (some a) e = err (e a)
forbid_some none e = ok tt

-- `o.ok_or(e)`
abbrev pub ok_or : {E A : Type 0} → Option A → E → Result E A
ok_or (some a) e = ok a
ok_or none e = err e

-- `m.map_err(e)`
abbrev pub map_err : {E F A : Type 0} → (E → F) → Result E A → Result F A
map_err e (ok a) = ok a
map_err e (err x) = err (e x)

-- `is_none`
abbrev pub is_none {ℓ} : {A : Type ℓ} → Option A → Bool
is_none none = true
is_none (some a) = false

-- `for x in xs { f(x)? }`
abbrev pub for_each : {E A : Type 0} → (A → Result E Unit) → List A → Result E Unit
for_each f [] = ok tt
for_each f (x ∷ xs) = f x >>> for_each f xs

-- `iter().find`
abbrev pub find {ℓ} : {A : Type ℓ} → (A → Bool) → List A → Option A
find p [] = none
find p (x ∷ xs) = if p x then some x else find p xs

-- `contains`, of a list or a set of strings
abbrev pub member_of : List Bytes → Bytes → Bool
member_of xs k = any (λ x. bytes_eq x k) xs

-- `for x in xs { if !seen.insert(name(x)) { return Err(twice(x)) } f(x)? }`
abbrev pub each_new :
    {E A : Type 0}
    → (A → Bytes)
    → (A → E)
    → (A → Result E Unit)
    → List Bytes
    → List A
    → Result E Unit
each_new name twice f seen [] = ok tt
each_new name twice f seen (x ∷ xs) =
    forbid (member_of seen (name x)) (twice x) >>> f x >>> each_new name twice f (name x ∷ seen) xs

pub seq_ok :
    {E A : Type 0} (m : Result E Unit) (n : Result E A) (a : A)
    → (m >>> n) ≡ ok a
    → (m ≡ ok tt) × (n ≡ ok a)
seq_ok (ok u) n a h = (refl, h)
seq_ok (err e) n a h = absurd (cc)

pub attempt_ok :
    {E A B : Type 0} (m : Result E A) (f : A → Result E B) (b : B)
    → attempt m f ≡ ok b
    → (a : A) × (m ≡ ok a) × (f a ≡ ok b)
attempt_ok (ok a) f b h = (a, refl, h)
attempt_ok (err e) f b h = absurd (cc)

pub forbid_ok : {E : Type 0} (b : Bool) (e : E) → forbid b e ≡ ok tt → b ≡ false
forbid_ok true e h = absurd (cc)
forbid_ok false e h = refl

pub ok_or_ok : {E A : Type 0} (o : Option A) (e : E) (a : A) → ok_or o e ≡ ok a → o ≡ some a
ok_or_ok (some x) e a h = cc
ok_or_ok none e a h = absurd (cc)

pub map_err_ok :
    {E F A : Type 0} (e : E → F) (m : Result E A) (a : A) → map_err e m ≡ ok a → m ≡ ok a
map_err_ok e (ok x) a h = cc
map_err_ok e (err x) a h = absurd (cc)

pub is_none-false : {A : Type 0} (o : Option A) → is_none o ≡ false → (a : A) × (o ≡ some a)
is_none-false none h = absurd (true≢false h)
is_none-false (some a) h = (a, refl)

pub or_false : (a b : Bool) → (a || b) ≡ false → (a ≡ false) × (b ≡ false)
or_false a b h = ground arith

pub not-false : (b : Bool) → not b ≡ false → b ≡ true
not-false b h = ground arith

pub and_not-false : (a b : Bool) → (a && not b) ≡ false → b ≡ false → a ≡ false
and_not-false a b h e = ground arith

pub for_each_ok :
    {E A : Type 0} (f : A → Result E Unit) (xs : List A)
    → for_each f xs ≡ ok tt
    → All (λ x. f x ≡ ok tt) xs
for_each_ok f [] h = tt
for_each_ok f (x ∷ xs) h = let (a, b) = seq_ok (f x) (for_each f xs) tt h in (a, for_each_ok f xs b)

pub find_none :
    {E A : Type 0} (p : A → Bool) (e : A → E) (xs : List A)
    → forbid_some (find p xs) e ≡ ok tt
    → All (λ x. p x ≡ false) xs
find_none p e [] h = tt
find_none p e (x ∷ xs) h = elim (Bool-cases (p x)) [
  | inl y ↦ absurd (stopped (subst passes y h))
  | inr n ↦ (n, find_none p e xs (subst passes n h))
]
  where
    passes : Bool → Type 0
    passes b = forbid_some (if b then some x else find p xs) e ≡ ok tt

    stopped : forbid_some (some x) e ≡ ok tt → ⊥
    stopped q = absurd (cc)

pub pass_find :
    {E A : Type 0} (p : A → Bool) (e : A → E) (xs : List A)
    → All (λ x. p x ≡ false) xs
    → forbid_some (find p xs) e ≡ ok tt
pass_find p e [] h = refl
pass_find p e (x ∷ xs) h = rw h.0 (pass_find p e xs h.1)

pub find-In :
    {A : Type 0} (p : A → Bool) (xs : List A) (a : A) → find p xs ≡ some a → In a xs × (p a ≡ true)
find-In p [] a h = absurd (cc)
find-In {A} p (x ∷ xs) a h = elim (Bool-cases (p x)) [
  | inl y ↦ found y (subst finds y h)
  | inr n ↦ let (m, q) = find-In p xs a (subst finds n h) in (inr m, q)
]
  where
    finds : Bool → Type 0
    finds b = (if b then some x else find p xs) ≡ some a

    found : p x ≡ true → (some x ≡ some a) → In a (x ∷ xs) × (p a ≡ true)
    found y e = let same : (x ≡ a) = cc in (inl (sym same), rw (sym same) y)

pub member_of-In : (xs : List Bytes) (k : Bytes) → member_of xs k ≡ true → In k xs
member_of-In [] k h = absurd (cc)
member_of-In (x ∷ xs) k h = elim (Bool-cases (bytes_eq x k)) [
  | inl y ↦ inl (sym (bytes_eq→eq x k y))
  | inr n ↦ inr (member_of-In xs k (subst (λ b. (b || member_of xs k) ≡ true) n h))
]

pub In-member_of : (xs : List Bytes) (k : Bytes) → In k xs → member_of xs k ≡ true
In-member_of [] k m = absurd m
In-member_of (x ∷ xs) k (inl e) = rw (e, bytes_eq_refl x) refl
In-member_of (x ∷ xs) k (inr m) = elim (Bool-cases (bytes_eq x k)) [
  | inl y ↦ rw y refl
  | inr n ↦ rw n (In-member_of xs k m)
]

-- No string of the list is in it twice.
abbrev pub Distinct : List Bytes → Type 0
Distinct [] = Unit
Distinct (x ∷ xs) = (¬ In x xs) × Distinct xs

-- Some element fails a test that not all pass.
pub all-false :
    {A : Type 0} (p : A → Bool) (xs : List A) → all p xs ≡ false → (a : A) × In a xs × (p a ≡ false)
all-false p [] h = absurd (cc)
all-false p (x ∷ xs) h = elim (Bool-cases (p x)) [
  | inl y ↦
      let (a, m, q) = all-false p xs (subst (λ b. (b && all p xs) ≡ false) y h) in (a, inr m, q)
  | inr n ↦ (x, inl refl, n)
]

module _ {E A : Type 0} (name : A → Bytes) (twice : A → E) (f : A → Result E Unit) where
  pub each_new_ok :
      (seen : List Bytes) (xs : List A)
      → each_new name twice f seen xs ≡ ok tt
      → All (λ x. f x ≡ ok tt) xs
        × Distinct (map name xs)
        × ((k : Bytes) → In k (map name xs) → ¬ In k seen)
  each_new_ok seen [] h = (tt, tt, λ k m. absurd m)
  each_new_ok seen (x ∷ xs) h =
      let (fresh, rest) =
        seq_ok (forbid (member_of seen (name x)) (twice x))
          (f x >>> each_new name twice f (name x ∷ seen) xs) tt h in
      let (good, later) = seq_ok (f x) (each_new name twice f (name x ∷ seen) xs) tt rest in
      let (all_good, different, apart) = each_new_ok (name x ∷ seen) xs later in
      (
        (good, all_good),
        (λ m. apart (name x) m (inl refl), different),
        λ k m. elim m [
          | inl e ↦ λ s.
              true≢false (
                sym (In-member_of seen (name x) (subst (λ j. In j seen) e s)) ∙ forbid_ok _ _ fresh)
          | inr t ↦ λ s. apart k t (inr s)
        ],
      )
