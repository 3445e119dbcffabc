-- ===== src/Proto/Trace/Admission.antt =====
-- A trace is evidence if each of its observations is.
use client_rust_test.Base.{
  ◌≡◌, ◌≢◌, refl, ◌↔◌, inl, inr, Option, none, some, List, [], ◌∷◌, Bool, true, false, ◌&&◌, all,
  any, Bool-cases, Bytes, arith,
}
use client_rust_test.Proto.Class.{Class, is_admissible, inadmissible_reason}
use client_rust_test.Proto.Class.Admission.{is_admissible-reason_iff}
use client_rust_test.Proto.Trace.{
  Trace, Step, add_reason, reasons, inadmissible, is_region_error, is_transient,
}

add_reason-nil :
    (s : Step) (o : Option Bytes) (rest : List Bytes)
    → (add_reason s o rest ≡ []) ↔ ((o ≡ none) × (rest ≡ []))
add_reason-nil s none rest = (λ h. (refl, h), λ h. h.1)
add_reason-nil s (some why) rest = (λ h. absurd (cc), λ h. absurd (cc (h.0)))

both_true : (a b : Bool) → ((a && b) ≡ true) ↔ ((a ≡ true) × (b ≡ true))
both_true a b = ground arith

reasons_iff :
    (steps : List Step)
    → (reasons steps ≡ []) ↔ (all (λ (s : Step). is_admissible s.observation.class) steps ≡ true)
reasons_iff [] = (λ h. refl, λ h. refl)
reasons_iff (s ∷ steps) =
    let ih = reasons_iff steps in
    let here = is_admissible-reason_iff s.observation.class in
    let step = add_reason-nil s (inadmissible_reason s.observation.class) (reasons steps) in
    let both = both_true (is_admissible s.observation.class) _ in
    (
      λ h. let (e, rest) = step.0 h in both.1 (here.1 e, ih.0 rest),
      λ h. let (a, rest) = both.0 h in step.1 (here.0 a, ih.1 rest),
    )

-- A trace has no reason against it exactly if every observation in it is admissible.
pub inadmissible-nil_iff :
    (t : Trace)
    → (inadmissible t ≡ []) ↔ (all (λ (s : Step). is_admissible s.observation.class) t.steps ≡ true)
unfolding inadmissible
inadmissible-nil_iff t = reasons_iff t.steps

region_error-admissible : (c : Class) → is_region_error c ≡ true → is_admissible c ≡ false
unfolding is_admissible
region_error-admissible Class.region_error h = refl
region_error-admissible c h = cc

transient_steps :
    (steps : List Step)
    → any (λ (s : Step). is_region_error s.observation.class) steps ≡ true
    → all (λ (s : Step). is_admissible s.observation.class) steps ≡ false
transient_steps [] h = cc
transient_steps (s ∷ steps) h = elim (Bool-cases (is_region_error s.observation.class)) [
  | inl y ↦ rw (region_error-admissible s.observation.class y) refl
  | inr n ↦ ground (arith, transient_steps steps)
]

-- A trace that is run again since the cluster moved is never evidence: there is a reason against it.
pub is_transient-inadmissible : (t : Trace) → is_transient t ≡ true → inadmissible t ≢ []
unfolding is_transient
is_transient-inadmissible t h e = cc ((inadmissible-nil_iff t).0 e, transient_steps t.steps h)
