-- ===== src/Base/Accept.antt =====
-- When the checks of Base.Check answer `Ok(())`.
use package.client_rust_test.Base.Tests.{if-either, if◌then◌else◌, Bool-cases}
use package.client_rust_test.Base.Lists.{keep, In, All}
use package.client_rust_test.Base.Order.{Bytes, bytes_eq, bytes_eq→eq, bytes_eq_refl}
use package.client_rust_test.Base.Result.{Result, ok}
use package.client_rust_test.Base.Check.{
  ◌>>>◌, attempt, forbid, for_each, find, each_new, member_of, member_of-In, Distinct,
}
use mathlib.Core.Path.{◌≡◌, refl, ap, sym, subst}
use mathlib.Core.Logic.{inl, inr}
use mathlib.Core.Bool.{Bool, false}
use mathlib.Core.Option.{some}
use mathlib.Core.List.{List, [], ◌∷◌, map}

pub pass_forbid : {E : Type 0} (b : Bool) (e : E) → b ≡ false → forbid b e ≡ ok tt
pass_forbid b e h = rw h refl

pub pass_seq :
    {E A : Type 0} (m : Result E Unit) (n : Result E A) (a : A)
    → m ≡ ok tt
    → n ≡ ok a
    → (m >>> n) ≡ ok a
pass_seq m n a h k = rw h k

pub pass_attempt :
    {E A B : Type 0} (m : Result E A) (f : A → Result E B) (a : A) (b : B)
    → m ≡ ok a
    → f a ≡ ok b
    → attempt m f ≡ ok b
pass_attempt m f a b h k = rw h k

pub pass_for_each :
    {E A : Type 0} (f : A → Result E Unit) (xs : List A)
    → All (λ x. f x ≡ ok tt) xs
    → for_each f xs ≡ ok tt
pass_for_each f [] h = refl
pass_for_each f (x ∷ xs) h = pass_seq (f x) (for_each f xs) tt h.0 (pass_for_each f xs h.1)

fresh : (seen : List Bytes) (k : Bytes) → ¬ In k seen → member_of seen k ≡ false
fresh seen k h = elim (Bool-cases (member_of seen k)) [
  | inl y ↦ absurd (h (member_of-In seen k y))
  | inr n ↦ n
]

pub pass_each_new :
    {E A : Type 0} (name : A → Bytes) (twice : A → E) (f : A → Result E Unit) (seen : List Bytes)
    (xs : List A)
    → All (λ x. f x ≡ ok tt) xs
    → Distinct (map name xs)
    → ((k : Bytes) → In k (map name xs) → ¬ In k seen)
    → each_new name twice f seen xs ≡ ok tt
pass_each_new name twice f seen [] good different apart = refl
pass_each_new name twice f seen (x ∷ xs) (good, more) (once, different) apart =
    pass_seq (forbid (member_of seen (name x)) (twice x)) _ tt
      (pass_forbid _ (twice x) (fresh seen (name x) (apart (name x) (inl refl))))
      (pass_seq (f x) _ tt good (
        pass_each_new name twice f (name x ∷ seen) xs more different (λ k m s. elim s [
          | inl e ↦ once (subst (λ j. In j (map name xs)) e m)
          | inr t ↦ apart k (inr m) t
        ])))

In-map : {A : Type 0} (f : A → Bytes) (a : A) (xs : List A) → In a xs → In (f a) (map f xs)
In-map f a [] m = absurd m
In-map f a (x ∷ xs) (inl e) = inl (ap f e)
In-map f a (x ∷ xs) (inr m) = inr (In-map f a xs m)

-- The element that a name finds, where no two have one name.
pub find-Distinct :
    {A : Type 0} (name : A → Bytes) (xs : List A) (a : A)
    → Distinct (map name xs)
    → In a xs
    → find (λ x. bytes_eq (name x) (name a)) xs ≡ some a
find-Distinct name [] a d m = absurd m
find-Distinct name (x ∷ xs) a (once, d) (inl e) =
    rw (ap name e) (rw (bytes_eq_refl (name x)) (ap some (sym e)))
find-Distinct name (x ∷ xs) a (once, d) (inr m) = elim (Bool-cases (bytes_eq (name x) (name a))) [
  | inl y ↦
      absurd (once (subst (λ k. In k (map name xs)) (sym (bytes_eq→eq _ _ y)) (In-map name a xs m)))
  | inr n ↦ rw n (find-Distinct name xs a d m)
]

-- Of different names, some are left out.
module _ {A : Type 0} (name : A → Bytes) (p : A → Bool) where
  In-map-keep : (k : Bytes) (xs : List A) → In k (map name (keep p xs)) → In k (map name xs)
  In-map-keep k [] m = m
  In-map-keep k (x ∷ xs) m = elim (Bool-cases (p x)) [
    | inl y ↦
        let m' : In k (name x ∷ map name (keep p xs)) =
          subst (λ b. In k (map name (if b then x ∷ keep p xs else keep p xs))) y m in
        elim m' [ inl e ↦ inl e | inr t ↦ inr (In-map-keep k xs t) ]
    | inr n ↦ inr (
        In-map-keep k xs
          (subst (λ b. In k (map name (if b then x ∷ keep p xs else keep p xs))) n m))
  ]

  pub Distinct-keep : (xs : List A) → Distinct (map name xs) → Distinct (map name (keep p xs))
  Distinct-keep [] d = tt
  Distinct-keep (x ∷ xs) (once, d) =
      if-either (λ ys. Distinct (map name ys)) (p x) (x ∷ keep p xs) (keep p xs)
        (λ m. once (In-map-keep (name x) xs m), Distinct-keep xs d) (Distinct-keep xs d)
