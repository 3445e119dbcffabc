-- ===== src/Proto/Class/Admission.antt =====
-- The two ways to ask whether an observation may be evidence agree.
use client_rust_test.Base.{◌≡◌, refl, ◌↔◌, Option, none, some, Bool, true, false, ◌&&◌, arith}
use client_rust_test.Proto.Class.{
  Class, Parts, is_admissible, all_admissible, inadmissible_reason, first_reason, first_some,
}

abbrev is_none {ℓ} : {A : Type ℓ} → Option A → Bool
is_none none = true
is_none (some a) = false

is_none-first_some {ℓ} :
    {A : Type ℓ} (o p : Option A) → is_none (first_some o p) ≡ (is_none o && is_none p)
is_none-first_some none p = refl
is_none-first_some (some a) p = refl

mutual
  unfolding is_admissible inadmissible_reason

  admissible-reason : (c : Class) → is_admissible c ≡ is_none (inadmissible_reason c)
  admissible-reason (Class.internal d) = refl
  admissible-reason (Class.driver_error d) = refl
  admissible-reason Class.region_error = refl
  admissible-reason (Class.mixed ps) = admissible_parts-reason ps
  admissible-reason _ = refl

  admissible_parts-reason : (ps : Parts) → all_admissible ps ≡ is_none (first_reason ps)
  admissible_parts-reason Parts.nil = refl
  admissible_parts-reason (Parts.cons c ps) =
      rw (is_none-first_some, ← admissible-reason c, ← admissible_parts-reason ps)

-- A class is admissible exactly if there is no reason for which it is inadmissible, however deep
-- the sets of a mixed error are nested.
pub is_admissible-reason_iff :
    (c : Class) → (is_admissible c ≡ true) ↔ (inadmissible_reason c ≡ none)
is_admissible-reason_iff c = ground (arith, admissible-reason c)
