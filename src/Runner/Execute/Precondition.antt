-- ===== src/Runner/Execute/Precondition.antt =====
-- When a precondition fails.
use client_rust_test.Base.{
  ℕ, ◌≡◌, ◌⊎◌, ◌↔◌, inl, inr, refl, sym, ◌∙◌, Option, none, some, true, false, not, if◌then◌else◌,
  Bool-cases, Bytes, bytes_eq, bytes_eq→eq, bytes_eq_refl, length, ◌==◌, ==_iff,
}
use mathlib.Core.Path.{subst}
use mathlib.Core.Bool.{true≢false}
use client_rust_test.Base.Check.{is_none}
use client_rust_test.Proto.Class.{is_admissible, inadmissible_reason, tag}
use client_rust_test.Proto.Class.Admission.{is_admissible-reason_iff}
use client_rust_test.Proto.Observation.{Observation}
use client_rust_test.Runner.Scenario.{Assert, Failure, check, check_class, check_count}
use client_rust_test.Runner.Execute.{precondition_failure}

-- The number of locks and the class that the assertion asks for, where it asks for one.
abbrev pub Wanted : {A : Type 0} → A → Option A → Type 0
Wanted seen none = Unit
Wanted seen (some want) = seen ≡ want

abbrev pub Meets : Assert → Observation → Type 0
Meets a obs = Wanted (length obs.locks) a.lock_count × Wanted (tag obs.class) a.class

class_met :
    (want : Option Bytes) (obs : Observation)
    → (check_class want obs ≡ none) ↔ Wanted (tag obs.class) want
unfolding check_class
class_met none obs = (λ e. tt, λ u. refl)
class_met (some want) obs = elim (Bool-cases (bytes_eq (tag obs.class) want)) [
  | inl y ↦ (λ e. bytes_eq→eq _ _ y, λ u. rw y refl)
  | inr n ↦ (
    λ e. absurd (
        stopped (
          subst (λ b. (if not b then some (Failure.class want (tag obs.class)) else none) ≡ none) n
            e)),
    λ u. absurd (true≢false (sym (bytes_eq_refl want) ∙ subst (λ x. bytes_eq x want ≡ false) u n)),
  )
]
  where
    stopped : some (Failure.class want (tag obs.class)) ≡ none → ⊥
    stopped q = absurd (cc)

count_met :
    (want : Option ℕ) (next : Option Failure) (obs : Observation)
    → (check_count want next obs ≡ none) ↔ (Wanted (length obs.locks) want × (next ≡ none))
unfolding check_count
count_met none next obs = (λ e. (tt, e), λ u. u.1)
count_met (some want) next obs = elim (Bool-cases (length obs.locks == want)) [
  | inl y ↦ rw y (λ e. ((==_iff (length obs.locks) want).0 y, e), λ u. u.1)
  | inr n ↦ (
    λ e. absurd (
        stopped (
          subst (λ b. (if not b then some (Failure.locks want (length obs.locks)) else next) ≡ none)
            n e)),
    λ u. absurd (true≢false (sym ((==_iff (length obs.locks) want).1 u.0) ∙ n)),
  )
]
  where
    stopped : some (Failure.locks want (length obs.locks)) ≡ none → ⊥
    stopped q = absurd (cc)

met : (a : Assert) (obs : Observation) → (check a obs ≡ none) ↔ Meets a obs
unfolding check
met a obs =
    let count = count_met a.lock_count (check_class a.class obs) obs in
    let class = class_met a.class obs in
    (λ e. ((count.0 e).0, class.0 (count.0 e).1), λ m. count.1 (m.0, class.1 m.1))

-- A precondition does not fail exactly if the observation is inadmissible, whatever it was to meet,
-- or has the number of locks and the class that the assertion wants.
pub precondition_failure-Meets :
    (a : Assert) (obs : Observation)
    → (precondition_failure a obs ≡ none) ↔ ((is_admissible obs.class ≡ false) ⊎ Meets a obs)
unfolding precondition_failure
precondition_failure-Meets a obs = elim (Bool-cases (is_none (inadmissible_reason obs.class))) [
  | inl y ↦ rw y (
    λ e. inr ((met a obs).0 e),
    λ u. elim u [
      | inl bad ↦ absurd (true≢false (sym (admissible y) ∙ bad))
      | inr m ↦ (met a obs).1 m
    ],
  )
  | inr n ↦ rw n (λ e. inl (inadmissible n), λ u. refl)
]
  where
    reason : (o : Option Bytes) → is_none o ≡ true → o ≡ none
    reason none e = refl
    reason (some x) e = absurd (true≢false (sym e))

    admissible : is_none (inadmissible_reason obs.class) ≡ true → is_admissible obs.class ≡ true
    admissible y = (is_admissible-reason_iff obs.class).1 (reason _ y)

    inadmissible : is_none (inadmissible_reason obs.class) ≡ false → is_admissible obs.class ≡ false
    inadmissible n = elim (Bool-cases (is_admissible obs.class)) [
      | inl y ↦
          absurd (
            true≢false
              (subst (λ o. is_none o ≡ false) ((is_admissible-reason_iff obs.class).0 y) n))
      | inr m ↦ m
    ]
