-- ===== src/Proto/Project/Paths.antt =====
-- A validated specification names known paths only: `Spec::validate` of
-- crates/parity-proto/src/project.rs.
use client_rust_test.Base.{
  ◌≡◌, refl, some, List, [], ◌∷◌, Bool, true, false, ◌||◌, Bytes, bytes_eq, text, all, any,
  Bool-cases, inl, inr, arith,
}
use client_rust_test.Base.Map.{Map, insert, bytes_eq_flip}
use client_rust_test.Proto.Json.{Json}
use client_rust_test.Proto.Observation.{Observation}
use client_rust_test.Proto.Diff.{Canonical}
use client_rust_test.Proto.Trace.{Step, Trace}
use client_rust_test.Proto.Project.{
  Spec, validate, opt_in_paths, default_fields, opt_in, native_type, proto_text, count_text,
  opt_in_fields, project_obs, project_steps, project,
}

abbrev pub known : Bytes → Bool
known path = any (λ p. bytes_eq p path) opt_in_paths

none_of_three :
    (a b d : Bool) → a ≡ false → b ≡ false → d ≡ false → (a || (b || (d || false))) ≡ false
none_of_three a b d p q r = ground arith

unknown :
    (path : Bytes)
    → bytes_eq path (text "native.type") ≡ false
    → bytes_eq path (text "proto") ≡ false
    → bytes_eq path (text "errors.count") ≡ false
    → known path ≡ false
unknown path a b d =
    none_of_three _ _ _ (bytes_eq_flip _ _ a) (bytes_eq_flip _ _ b) (bytes_eq_flip _ _ d)

module _ (to_json : Json → Bytes) where
  pub opt_in-known :
      (obs : Observation) (path : Bytes)
      → known path ≡ true
      → (v : Bytes) × (opt_in to_json obs path ≡ some v)
  unfolding opt_in
  opt_in-known obs path h = elim (Bool-cases (bytes_eq path (text "native.type"))) [
    | inl a ↦ (native_type to_json obs, rw a refl)
    | inr a ↦ elim (Bool-cases (bytes_eq path (text "proto"))) [
      | inl b ↦ (proto_text to_json obs, rw (a, b) refl)
      | inr b ↦ elim (Bool-cases (bytes_eq path (text "errors.count"))) [
        | inl d ↦ (count_text to_json obs, rw (a, b, d) refl)
        | inr d ↦ absurd (cc (unknown path a b d))
      ]
    ]
  ]

  fields_known :
      (obs : Observation) (paths : List Bytes) (out : Map Bytes)
      → all known paths ≡ true
      → (m : Map Bytes) × (opt_in_fields to_json obs paths out ≡ some m)
  unfolding opt_in_fields
  fields_known obs [] out h = (out, refl)
  fields_known obs (path ∷ paths) out h =
      let (v, e) = opt_in-known obs path (ground arith) in
      let (m, q) = fields_known obs paths (insert path v out) (ground arith) in
      (m, rw (e, opt_in_fields) q)

  steps_known :
      (prefix : Bytes) (spec : Spec) (steps : List Step) (out : Canonical)
      → validate spec ≡ true
      → (m : Canonical) × (project_steps to_json prefix spec steps out ≡ some m)
  unfolding project_steps project_obs validate
  steps_known prefix spec [] out h = (out, refl)
  steps_known prefix spec (s ∷ steps) out h =
      let (fields, e) =
        fields_known s.observation spec.also_compare (default_fields s.observation prefix []) h in
      let (m, q) = steps_known prefix spec steps (insert s.id fields out) h in
      (m, rw (e, project_steps) q)

  -- A specification that `validate` accepts makes the projection of every trace come to an end
  -- without the panic on an unknown path.
  pub project-validate :
      (trace : Trace) (spec : Spec)
      → validate spec ≡ true
      → (m : Canonical) × (project to_json trace spec ≡ some m)
  unfolding project
  project-validate trace spec h = steps_known trace.prefix spec trace.steps [] h
