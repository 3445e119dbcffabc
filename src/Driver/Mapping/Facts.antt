-- ===== src/Driver/Mapping/Facts.antt =====
-- What the mapping table can and cannot report.
use client_rust_test.Base.{
  ◌≡◌, refl, ◌∙◌, sym, ap, Option, Bool, true, false, ◌&&◌, ◌||◌, ◌==◌, Bytes, inl, inr, Bool-cases,
  ==_iff, arith,
}
use mathlib.Core.Path.{subst}
use client_rust_test.Tikv.Error.{Error, Errors, KeyError}
use Error.{
  key_error, multiple_region_errors, multiple_key_errors, pessimistic_lock_error, region_error,
  no_current_regions, entry_not_found_in_region_cache, region_for_key_not_found,
  region_for_range_not_found, region_not_found_in_response, leader_not_found,
}
use client_rust_test.Proto.Json.{Json}
use client_rust_test.Proto.Class.{Class, Parts, class_eq, parts_eq, discriminant, parts_of}
use client_rust_test.Gate.Race.{is_some, is_lost_race, any_lost_race}
use client_rust_test.Driver.Mapping.{
  classify_key_error, classify_parts, all_equal, classify_inner, classes, unmapped,
}

-- A class that mentions a write conflict, at the top or in a set.
unfoldable mutual
  pub mentions_conflict : Class → Bool
  mentions_conflict Class.write_conflict = true
  mentions_conflict (Class.mixed parts) = any_conflict parts
  mentions_conflict _ = false

  pub any_conflict : Parts → Bool
  any_conflict Parts.nil = false
  any_conflict (Parts.cons c cs) = mentions_conflict c || any_conflict cs

-- A class that reports success, at the top or in a set.
unfoldable mutual
  pub claims_success : Class → Bool
  claims_success Class.ok = true
  claims_success Class.not_found = true
  claims_success (Class.mixed parts) = any_success parts
  claims_success _ = false

  pub any_success : Parts → Bool
  any_success Parts.nil = false
  any_success (Parts.cons c cs) = claims_success c || any_success cs

key_error_fails :
    (dbg : KeyError → Bytes) (ke : KeyError) → claims_success (classify_key_error dbg ke).0 ≡ false
unfolding classify_key_error claims_success
key_error_fails dbg ke = ground arith

parts_fail :
    (ps : Parts) (p : Option Json)
    → any_success ps ≡ false
    → claims_success (classify_parts ps p).0 ≡ false
unfolding classify_parts claims_success
parts_fail Parts.nil p h = refl
parts_fail (Parts.cons c cs) p h = elim (Bool-cases (all_equal cs c)) [
  | inl e ↦ rw e (ground arith)
  | inr e ↦ rw e h
]

mutual
  unfolding classify_inner unmapped claims_success

  inner_fails :
      (dbg : KeyError → Bytes) (e : Error) → claims_success (classify_inner dbg e).0 ≡ false
  inner_fails dbg (key_error ke) = key_error_fails dbg ke
  inner_fails dbg (multiple_key_errors es) = parts_fail _ _ (classes_fail dbg es)
  inner_fails dbg (multiple_region_errors es) = parts_fail _ _ (classes_fail dbg es)
  inner_fails dbg (pessimistic_lock_error e) = inner_fails dbg e
  inner_fails dbg _ = refl

  classes_fail : (dbg : KeyError → Bytes) (es : Errors) → any_success (classes dbg es) ≡ false
  classes_fail dbg Errors.nil = refl
  classes_fail dbg (Errors.cons e es) = rw (inner_fails dbg e, classes_fail dbg es)

-- No error of the client is reported as a success: neither the class nor, at any depth, a member of
-- a mixed class is `ok` or `not_found`.
pub classify-claims_success :
    (dbg : KeyError → Bytes) (e : Error) → claims_success (classify_inner dbg e).0 ≡ false
classify-claims_success dbg e = inner_fails dbg e

conflict_of_mixed :
    (b : Class) → (discriminant b == 16) ≡ true → mentions_conflict b ≡ any_conflict (parts_of b)
unfolding mentions_conflict
conflict_of_mixed (Class.mixed ps) h = refl
conflict_of_mixed b h = cc

conflict_by_number :
    (a : Class) → (discriminant a == 16) ≡ false → mentions_conflict a ≡ (discriminant a == 2)
unfolding mentions_conflict
conflict_by_number (Class.mixed ps) h = cc
conflict_by_number a h = refl

conflict_of_plain :
    (a b : Class)
    → (discriminant a == discriminant b) ≡ true
    → (discriminant a == 16) ≡ false
    → mentions_conflict a ≡ mentions_conflict b
conflict_of_plain a b h k =
    let e : discriminant a ≡ discriminant b = (==_iff (discriminant a) (discriminant b)).0 h in
    conflict_by_number a k
    ∙ ap (λ n. n == 2) e
    ∙ sym (conflict_by_number b (subst (λ n. (n == 16) ≡ false) e k))

and_true : (a b : Bool) → (a && b) ≡ true → (a ≡ true) × (b ≡ true)
and_true a b h = ground arith

mutual
  unfolding class_eq mentions_conflict

  conflict_of_eq : (a b : Class) → class_eq a b ≡ true → mentions_conflict a ≡ mentions_conflict b
  conflict_of_eq (Class.mixed ps) b h =
      let (d, q) = and_true _ (parts_eq ps (parts_of b)) h in
      conflict_of_parts_eq ps (parts_of b) q ∙ sym (conflict_of_mixed b d)
  conflict_of_eq a b h = conflict_of_plain a b (and_true _ _ h).0 refl

  conflict_of_parts_eq : (ps qs : Parts) → parts_eq ps qs ≡ true → any_conflict ps ≡ any_conflict qs
  conflict_of_parts_eq Parts.nil Parts.nil h = refl
  conflict_of_parts_eq Parts.nil (Parts.cons d ds) h = cc
  conflict_of_parts_eq (Parts.cons c cs) Parts.nil h = cc
  conflict_of_parts_eq (Parts.cons c cs) (Parts.cons d ds) h =
      let (e, es) = and_true (class_eq c d) (parts_eq cs ds) h in
      rw (conflict_of_eq c d e, conflict_of_parts_eq cs ds es)

any-all_equal :
    (cs : Parts) (c : Class)
    → all_equal cs c ≡ true
    → (mentions_conflict c || any_conflict cs) ≡ mentions_conflict c
unfolding all_equal mentions_conflict
any-all_equal Parts.nil c h = ground arith
any-all_equal (Parts.cons d ds) c h =
    ground (arith, and_true (class_eq d c) (all_equal ds c), conflict_of_eq d c, any-all_equal ds c)

parts_conflict :
    (ps : Parts) (p : Option Json) → mentions_conflict (classify_parts ps p).0 ≡ any_conflict ps
unfolding classify_parts mentions_conflict
parts_conflict Parts.nil p = refl
parts_conflict (Parts.cons c cs) p = elim (Bool-cases (all_equal cs c)) [
  | inl e ↦ rw e (sym (any-all_equal cs c e))
  | inr e ↦ rw e
]

key_error_conflict :
    (dbg : KeyError → Bytes) (ke : KeyError)
    → mentions_conflict (classify_key_error dbg ke).0 ≡ is_some ke.conflict
unfolding classify_key_error mentions_conflict
key_error_conflict dbg ke = ground arith

-- The variants that report a cluster event.
abbrev is_region_event : Error → Bool
is_region_event region_error = true
is_region_event no_current_regions = true
is_region_event entry_not_found_in_region_cache = true
is_region_event region_for_key_not_found = true
is_region_event region_for_range_not_found = true
is_region_event region_not_found_in_response = true
is_region_event leader_not_found = true
is_region_event _ = false

abbrev all_region_events : Errors → Bool
all_region_events Errors.nil = true
all_region_events (Errors.cons e es) = is_region_event e && all_region_events es

-- The members of every `MultipleRegionErrors`, at any depth, are region errors.
unfoldable mutual
  pub region_sets : Error → Bool
  region_sets (multiple_region_errors es) = all_region_events es
  region_sets (multiple_key_errors es) = all_region_sets es
  region_sets (pessimistic_lock_error e) = region_sets e
  region_sets _ = true

  pub all_region_sets : Errors → Bool
  all_region_sets Errors.nil = true
  all_region_sets (Errors.cons e es) = region_sets e && all_region_sets es

region_event_conflict :
    (dbg : KeyError → Bytes) (e : Error)
    → is_region_event e ≡ true
    → mentions_conflict (classify_inner dbg e).0 ≡ false
unfolding classify_inner mentions_conflict
region_event_conflict dbg region_error h = refl
region_event_conflict dbg no_current_regions h = refl
region_event_conflict dbg entry_not_found_in_region_cache h = refl
region_event_conflict dbg region_for_key_not_found h = refl
region_event_conflict dbg region_for_range_not_found h = refl
region_event_conflict dbg region_not_found_in_response h = refl
region_event_conflict dbg leader_not_found h = refl
region_event_conflict dbg e h = cc

region_set_conflict :
    (dbg : KeyError → Bytes) (es : Errors)
    → all_region_events es ≡ true
    → any_conflict (classes dbg es) ≡ false
unfolding classify_inner mentions_conflict
region_set_conflict dbg Errors.nil h = refl
region_set_conflict dbg (Errors.cons e es) h =
    let (r, rs) = and_true (is_region_event e) (all_region_events es) h in
    rw (region_event_conflict dbg e r, region_set_conflict dbg es rs)

mutual
  unfolding classify_inner unmapped mentions_conflict is_lost_race region_sets

  inner_conflict :
      (dbg : KeyError → Bytes) (e : Error)
      → region_sets e ≡ true
      → mentions_conflict (classify_inner dbg e).0 ≡ is_lost_race e
  inner_conflict dbg (key_error ke) h = key_error_conflict dbg ke
  inner_conflict dbg (multiple_key_errors es) h = parts_conflict _ _ ∙ classes_conflict dbg es h
  inner_conflict dbg (multiple_region_errors es) h =
      parts_conflict _ _ ∙ region_set_conflict dbg es h
  inner_conflict dbg (pessimistic_lock_error e) h = inner_conflict dbg e h
  inner_conflict dbg _ h = refl

  classes_conflict :
      (dbg : KeyError → Bytes) (es : Errors)
      → all_region_sets es ≡ true
      → any_conflict (classes dbg es) ≡ any_lost_race es
  classes_conflict dbg Errors.nil h = refl
  classes_conflict dbg (Errors.cons e es) h =
      let (r, rs) = and_true (region_sets e) (all_region_sets es) h in
      rw (inner_conflict dbg e r, classes_conflict dbg es rs)

-- Where every `MultipleRegionErrors` holds region errors only, the class that the driver reports
-- mentions a write conflict exactly if the gate reads the same error as a lost race.
pub classify-is_lost_race :
    (dbg : KeyError → Bytes) (e : Error)
    → region_sets e ≡ true
    → mentions_conflict (classify_inner dbg e).0 ≡ is_lost_race e
classify-is_lost_race dbg e h = inner_conflict dbg e h
