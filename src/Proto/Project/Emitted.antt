-- ===== src/Proto/Project/Emitted.antt =====
-- Which paths the projection of an observation has: `project_obs` and `DEFAULT_PATHS` of
-- crates/parity-proto/src/project.rs.
use client_rust_test.Base.{
  ◌≡◌, refl, sym, inl, inr, ◌↔◌, Option, none, some, List, [], ◌∷◌, ◌++◌, append_assoc, append-nil,
  Bool, true, false, not, Bytes, bytes_eq, if◌then◌else◌, text, all, keep, In, In-append,
  In-append_left, In-append_right, arith,
}
use mathlib.Core.Path.{subst}
use client_rust_test.Base.Map.{Map, insert, keys, In-keys-insert}
use client_rust_test.Base.Check.{is_none}
use client_rust_test.Proto.Json.{Json}
use client_rust_test.Proto.Class.{Class}
use client_rust_test.Proto.Observation.{Observation}
use client_rust_test.Proto.Project.{
  Spec, validate, default_paths, class_fields, proto_fields, default_fields, opt_in_fields,
  project_obs,
}
use client_rust_test.Proto.Project.Paths.{known, opt_in-known}

abbrev is_unsupported : Class → Bool
is_unsupported (Class.unsupported detail) = true
is_unsupported _ = false

abbrev is_mixed : Class → Bool
is_mixed (Class.mixed parts) = true
is_mixed _ = false

-- Whether a path is emitted for a class that is a gap or a mixture, or not, and for an observation
-- with or without a message.
abbrev pub emitted : Bool → Bool → Bool → Bytes → Bool
emitted gap mixed message path =
    if bytes_eq path (text "unsupported.detail")
    then gap
    else if bytes_eq path (text "class.parts")
    then mixed
    else if bytes_eq path (text "proto.type")
    then message
    else true

-- The default paths that say something about an observation.
abbrev pub paths_of : Observation → List Bytes
paths_of o =
    keep (emitted (is_unsupported o.class) (is_mixed o.class) (not (is_none o.proto))) default_paths

-- The keys of a map are the members of a list.
abbrev Has : Map Bytes → List Bytes → Type 0
Has m paths = (k : Bytes) → In k (keys m) ↔ In k paths

insert-Has :
    (j v : Bytes) (m : Map Bytes) (paths : List Bytes)
    → Has m paths
    → Has (insert j v m) (paths ++ j ∷ [])
insert-Has j v m paths h k = (
  λ i. elim ((In-keys-insert k j v m).0 i) [
    | inl e ↦ In-append_right k paths (j ∷ []) (inl e)
    | inr t ↦ In-append_left k paths (j ∷ []) ((h k).0 t)
  ],
  λ i. (In-keys-insert k j v m).1 (elim (In-append k paths (j ∷ []) i) [
    | inl t ↦ inr ((h k).1 t)
    | inr e ↦ elim e [ inl q ↦ inl q | inr z ↦ absurd z ]
  ]),
)

abbrev class_paths : Bool → Bool → List Bytes
class_paths true true = text "class" ∷ text "unsupported.detail" ∷ text "class.parts" ∷ []
class_paths true false = text "class" ∷ text "unsupported.detail" ∷ []
class_paths false true = text "class" ∷ text "class.parts" ∷ []
class_paths false false = text "class" ∷ []

class_fields-Has :
    (c : Class) (out : Map Bytes)
    → Has out (text "class" ∷ [])
    → Has (class_fields c out) (class_paths (is_unsupported c) (is_mixed c))
class_fields-Has (Class.unsupported detail) out h =
    insert-Has (text "unsupported.detail") _ out (text "class" ∷ []) h
class_fields-Has (Class.mixed parts) out h =
    insert-Has (text "class.parts") _ out (text "class" ∷ []) h
class_fields-Has _ out h = h

abbrev message_paths : Bool → List Bytes
message_paths true = text "proto.present" ∷ text "proto.type" ∷ []
message_paths false = text "proto.present" ∷ []

proto_fields-Has :
    (p : Option Json) (out : Map Bytes) (paths : List Bytes)
    → Has out paths
    → Has (proto_fields p out) (paths ++ message_paths (not (is_none p)))
proto_fields-Has none out paths h = insert-Has (text "proto.present") _ out paths h
proto_fields-Has (some p) out paths h =
    subst (λ ps. Has (proto_fields (some p) out) ps)
      (append_assoc paths (text "proto.present" ∷ []) (text "proto.type" ∷ []))
      (insert-Has (text "proto.type") _ _ (paths ++ text "proto.present" ∷ [])
        (insert-Has (text "proto.present") _ out paths h))

emitted_in_order :
    (gap mixed message : Bool)
    → ((((class_paths gap mixed ++ text "value" ∷ []) ++ text "locks.count" ∷ [])
            ++ text "locks" ∷ [])
          ++ text "commit_ts" ∷ [])
        ++ message_paths message
      ≡ keep (emitted gap mixed message) default_paths
unfolding bytes_eq text
emitted_in_order true true true = refl
emitted_in_order true true false = refl
emitted_in_order true false true = refl
emitted_in_order true false false = refl
emitted_in_order false true true = refl
emitted_in_order false true false = refl
emitted_in_order false false true = refl
emitted_in_order false false false = refl

default_fields-Has :
    (o : Observation) (prefix : Bytes) → Has (default_fields o prefix []) (paths_of o)
unfolding default_fields
default_fields-Has o prefix =
    let classed = class_paths (is_unsupported o.class) (is_mixed o.class) in
    let valued = classed ++ text "value" ∷ [] in
    let counted = valued ++ text "locks.count" ∷ [] in
    let locked = counted ++ text "locks" ∷ [] in
    let stamped = locked ++ text "commit_ts" ∷ [] in
    subst (λ ps. Has (default_fields o prefix []) ps)
      (emitted_in_order (is_unsupported o.class) (is_mixed o.class) (not (is_none o.proto)))
      (proto_fields-Has o.proto _ stamped (
        insert-Has (text "commit_ts") _ _ locked (
          insert-Has (text "locks") _ _ counted (
            insert-Has (text "locks.count") _ _ valued (
              insert-Has (text "value") _ _ classed
                (class_fields-Has o.class _ (λ k. (λ h. h, λ h. h))))))))

module _ (to_json : Json → Bytes) where
  opt_in_fields-Has :
      (o : Observation) (paths before : List Bytes) (out : Map Bytes)
      → all known paths ≡ true
      → Has out before
      → (m : Map Bytes) × (opt_in_fields to_json o paths out ≡ some m) × Has m (before ++ paths)
  unfolding opt_in_fields
  opt_in_fields-Has o [] before out h has =
      (out, refl, subst (λ ps. Has out ps) (sym (append-nil before)) has)
  opt_in_fields-Has o (path ∷ paths) before out h has =
      let (v, e) = opt_in-known to_json o path (ground arith) in
      let (m, q, r) =
        opt_in_fields-Has o paths (before ++ path ∷ []) (insert path v out) (ground arith)
          (insert-Has path v out before has) in
      (m, rw (e, opt_in_fields) q, subst (λ ps. Has m ps) (append_assoc before (path ∷ []) paths) r)

  -- By a specification that `validate` accepts, an observation is projected to a map with exactly
  -- these keys: the default paths, of which `unsupported.detail` stands for a capability gap,
  -- `class.parts` for a mixture and `proto.type` for an observation with a message only, and the
  -- paths of the specification.
  pub project_obs-keys :
      (o : Observation) (prefix : Bytes) (spec : Spec)
      → validate spec ≡ true
      → (m : Map Bytes) × (project_obs to_json o prefix spec ≡ some m)
        × ((path : Bytes) → In path (keys m) ↔ In path (paths_of o ++ spec.also_compare))
  unfolding project_obs validate
  project_obs-keys o prefix spec h =
      opt_in_fields-Has o spec.also_compare (paths_of o) (default_fields o prefix []) h
        (default_fields-Has o prefix)
