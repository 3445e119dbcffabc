-- ===== src/Driver/Exec/Open.antt =====
-- Whether the map of sessions of crates/rust-driver/src/exec.rs has one.
use client_rust_test.Base.{
  ◌≡◌, inl, inr, refl, sym, ◌∙◌, ap, Option, none, some, Bool, true, false, ◌||◌, if◌then◌else◌,
  Bool-cases, Bytes, bytes_eq, bytes_eq→eq,
}
use mathlib.Core.Path.{subst}
use client_rust_test.Base.Map.{
  Map, get, insert, remove, get-insert_self, get-insert_ne, get-remove_self, get-remove_ne,
}

abbrev pub is_some {ℓ} : {A : Type ℓ} → Option A → Bool
is_some none = false
is_some (some a) = true

pub unopened :
    (k session : Bytes) (was b : Bool)
    → b ≡ false
    → was ≡ (if bytes_eq session k then was || b else was)
unopened k session was b failed = elim (Bool-cases (bytes_eq session k)) [
  | inl y ↦ rw (y, failed) (or_false was)
  | inr n ↦ rw n refl
]
  where
    or_false : (a : Bool) → a ≡ (a || false)
    or_false true = refl
    or_false false = refl

module _ {V : Type 0} where
  pub opened_after :
      (k session : Bytes) (txn : V) (m : Map V) (b : Bool)
      → b ≡ true
      → is_some (get k (insert session txn m))
        ≡ (if bytes_eq session k then is_some (get k m) || b else is_some (get k m))
  opened_after k session txn m b opened = elim (Bool-cases (bytes_eq session k)) [
    | inl y ↦ rw (y, opened) (ap is_some (same y) ∙ sym (or_true (is_some (get k m))))
    | inr n ↦ rw n (ap is_some (get-insert_ne k session txn m n))
  ]
    where
      same : bytes_eq session k ≡ true → get k (insert session txn m) ≡ some txn
      same y =
          subst (λ j. get j (insert session txn m) ≡ some txn) (bytes_eq→eq session k y)
            (get-insert_self session txn m)

      or_true : (a : Bool) → (a || true) ≡ true
      or_true true = refl
      or_true false = refl

  pub closed :
      (k session : Bytes) (m : Map V)
      → is_some (get k (remove session m))
        ≡ (if bytes_eq session k then false else is_some (get k m))
  closed k session m = elim (Bool-cases (bytes_eq session k)) [
    | inl y ↦ rw y (
        ap is_some (
          subst (λ j. get j (remove session m) ≡ none) (bytes_eq→eq session k y)
            (get-remove_self session m)))
    | inr n ↦ rw n (ap is_some (get-remove_ne k session m n))
  ]
