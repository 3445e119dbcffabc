-- ===== src/Driver/Mapping/Failed.antt =====
-- An error of the client is no success: `classify` of crates/rust-driver/src/mapping.rs.
use client_rust_test.Base.{ℕ, ◌≡◌, refl, sym, ◌∙◌, Option, none, some, Bool, true, false, Bytes}
use mathlib.Core.Path.{subst}
use client_rust_test.Proto.Json.{Json}
use client_rust_test.Proto.Class.{Class}
use client_rust_test.Proto.Observation.{Observation, new_obs}
use client_rust_test.Tikv.Error.{Error, KeyError}
use client_rust_test.Driver.Mapping.{
  classify, classify_inner, proto_layer, count_layer, error_count,
}
use client_rust_test.Driver.Mapping.Facts.{classify-claims_success, claims_success}

abbrev pub is_ok : Class → Bool
is_ok Class.ok = true
is_ok _ = false

module _ (dk : KeyError → Bytes) (dbg : Error → Bytes) where
  count_class : (obs : Observation) (n : Option ℕ) → (count_layer dk dbg obs n).class ≡ obs.class
  count_class obs none = refl
  count_class obs (some n) = refl

  proto_class : (obs : Observation) (p : Option Json) → (proto_layer dk dbg obs p).class ≡ obs.class
  proto_class obs none = refl
  proto_class obs (some p) = refl

  not_success : (c : Class) → claims_success c ≡ false → is_ok c ≡ false
  unfolding claims_success
  not_success Class.ok h = absurd (cc)
  not_success c h = refl

  -- An error of the client is not reported as a success.
  pub classify-is_ok : (e : Error) → is_ok (classify dk dbg e).class ≡ false
  unfolding classify new_obs
  classify-is_ok e =
      subst (λ c. is_ok c ≡ false)
        (sym (count_class _ (error_count e) ∙ proto_class _ (classify_inner dk e).1))
        (not_success _ (classify-claims_success dk e))
