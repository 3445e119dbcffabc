-- ===== src/Base/Order.antt =====
-- Byte strings as lists of numbers, and their lexicographic order.
use Prim.Native.Nat.{ℕ, ◌<◌}
use mathlib.Core.Path.{◌≡◌, refl}
use mathlib.Core.List.{List, [], ◌∷◌, ◌++◌}
use mathlib.Core.Bool.{Bool, true, false, not, ◌&&◌}
use native.Mathlib.Omega.{arith}
use package.client_rust_test.Base.Tests.{ltb, ◌==◌, if◌then◌else◌}

abbrev pub Bytes : Type 0
Bytes = List ℕ

abbrev pub IsByte : ℕ → Type 0
IsByte b = b < 256

-- `a < b` on slices: at the first difference, or as a proper prefix.
unfoldable pub bytes_lt : List ℕ → List ℕ → Bool
bytes_lt xs [] = false
bytes_lt [] (y ∷ ys) = true
bytes_lt (x ∷ xs) (y ∷ ys) = if ltb x y then true else if ltb y x then false else bytes_lt xs ys

pub bytes_lt_irrefl : (xs : List ℕ) → bytes_lt xs xs ≡ false
unfolding bytes_lt
bytes_lt_irrefl [] = refl
bytes_lt_irrefl (x ∷ xs) = ground (arith, bytes_lt_irrefl xs)

pub bytes_lt_trans :
    (xs ys zs : List ℕ) → bytes_lt xs ys ≡ true → bytes_lt ys zs ≡ true → bytes_lt xs zs ≡ true
unfolding bytes_lt
bytes_lt_trans xs ys [] p q = ground arith
bytes_lt_trans xs [] (z ∷ zs) p q = ground arith
bytes_lt_trans [] (y ∷ ys) (z ∷ zs) p q = refl
bytes_lt_trans (x ∷ xs) (y ∷ ys) (z ∷ zs) p q = ground (arith, bytes_lt_trans xs ys zs)

pub bytes_lt_asymm : (xs ys : List ℕ) → bytes_lt xs ys ≡ true → bytes_lt ys xs ≡ false
unfolding bytes_lt
bytes_lt_asymm xs [] p = ground arith
bytes_lt_asymm [] (y ∷ ys) p = refl
bytes_lt_asymm (x ∷ xs) (y ∷ ys) p = ground (arith, bytes_lt_asymm xs ys)

pub bytes_lt-total : (xs ys : List ℕ) → bytes_lt xs ys ≡ false → bytes_lt ys xs ≡ false → xs ≡ ys
unfolding bytes_lt
bytes_lt-total [] [] p q = refl
bytes_lt-total [] (y ∷ ys) p q = ground arith
bytes_lt-total (x ∷ xs) [] p q = ground arith
bytes_lt-total (x ∷ xs) (y ∷ ys) p q = ground (arith, bytes_lt-total xs ys)

-- From `x ≤ y` and `y < z`, and from `x < y` and `y ≤ z`.
pub bytes_lt-of_ge_lt :
    (xs ys zs : List ℕ) → bytes_lt ys xs ≡ false → bytes_lt ys zs ≡ true → bytes_lt xs zs ≡ true
unfolding bytes_lt
bytes_lt-of_ge_lt xs ys [] p q = ground arith
bytes_lt-of_ge_lt xs [] (z ∷ zs) p q = ground arith
bytes_lt-of_ge_lt [] (y ∷ ys) (z ∷ zs) p q = refl
bytes_lt-of_ge_lt (x ∷ xs) (y ∷ ys) (z ∷ zs) p q = ground (arith, bytes_lt-of_ge_lt xs ys zs)

pub bytes_lt-append_cancel : (ps xs ys : List ℕ) → bytes_lt (ps ++ xs) (ps ++ ys) ≡ bytes_lt xs ys
unfolding bytes_lt
bytes_lt-append_cancel [] xs ys = refl
bytes_lt-append_cancel (p ∷ ps) xs ys = ground (arith, bytes_lt-append_cancel ps xs ys)

-- Nothing sorts between `k` and `k` with a zero behind it.
pub bytes_lt-snoc_zero : (k j : List ℕ) → bytes_lt j (k ++ 0 ∷ []) ≡ not (bytes_lt k j)
unfolding bytes_lt
bytes_lt-snoc_zero [] [] = refl
bytes_lt-snoc_zero [] (y ∷ ys) = ground arith
bytes_lt-snoc_zero (x ∷ xs) [] = refl
bytes_lt-snoc_zero (x ∷ xs) (y ∷ ys) = ground (arith, bytes_lt-snoc_zero xs ys)

-- Equality of slices.
unfoldable pub bytes_eq : List ℕ → List ℕ → Bool
bytes_eq [] [] = true
bytes_eq (x ∷ xs) (y ∷ ys) = (x == y) && bytes_eq xs ys
bytes_eq xs ys = false

pub bytes_eq→eq : (xs ys : List ℕ) → bytes_eq xs ys ≡ true → xs ≡ ys
unfolding bytes_eq
bytes_eq→eq [] [] h = refl
bytes_eq→eq [] (y ∷ ys) h = ground arith
bytes_eq→eq (x ∷ xs) [] h = ground arith
bytes_eq→eq (x ∷ xs) (y ∷ ys) h = ground (arith, bytes_eq→eq xs ys)

pub bytes_eq_refl : (xs : List ℕ) → bytes_eq xs xs ≡ true
unfolding bytes_eq
bytes_eq_refl [] = refl
bytes_eq_refl (x ∷ xs) = ground (arith, bytes_eq_refl xs)

-- From `x < y` and `y ≤ z`.
pub bytes_lt-of_lt_ge :
    (xs ys zs : List ℕ) → bytes_lt xs ys ≡ true → bytes_lt zs ys ≡ false → bytes_lt xs zs ≡ true
bytes_lt-of_lt_ge xs ys zs p q = ground (arith, bytes_lt-of_ge_lt zs xs ys)
