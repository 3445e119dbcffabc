-- ===== src/Proto/Project/Alike.antt =====
-- Observations that `project` of crates/parity-proto/src/project.rs cannot tell apart.
use mathlib.Core.Path.{subst}
use client_rust_test.Base.{
  ℕ, ◌≡◌, ◌∙◌, refl, ap, Option, none, some, List, [], ◌∷◌, map, Bool-cases, inl, inr, ◌==◌, Bytes,
  bytes_eq, bytes_eq→eq, length, text, In,
}
use client_rust_test.Base.Map.{Map, insert}
use client_rust_test.Base.Check.{is_none}
use client_rust_test.Proto.Json.{Json}
use client_rust_test.Proto.Observation.{BytesObs, Observation, LockObs, NativeObs, as_slice}
use client_rust_test.Proto.Diff.{Canonical}
use client_rust_test.Proto.Trace.{Step}
use client_rust_test.Proto.Project.{
  Spec, redact_prefix_bytes, value_text, lock_text, present, proto_type, proto_fields,
  default_fields, opt_in, opt_in_fields, project_obs, project_steps,
}

abbrev pub type_of : Option NativeObs → Option Bytes
type_of none = none
type_of (some n) = some n.type

abbrev pub message_of : Option Json → Option Bytes
message_of none = none
message_of (some p) = some (proto_type p)

-- By a relation of values: locks that differ in the number of their TTL and in their timestamp at
-- most, and observations that differ at most in timestamps, in the checksum, in the content of a
-- message of one type, and in the native error and the count of errors, unless `wanted` opts in.
module _ (Same : BytesObs → BytesObs → Type 0) (wanted : List Bytes) where
  abbrev pub ValueAlike : Option BytesObs → Option BytesObs → Type 0
  ValueAlike none none = Unit
  ValueAlike (some v) (some w) = Same v w
  ValueAlike _ _ = ⊥

  abbrev pub LocksAlike : List LockObs → List LockObs → Type 0
  LocksAlike [] [] = Unit
  LocksAlike (l ∷ ls) (m ∷ ms) =
      Same l.key m.key
      × Same l.primary m.primary
      × (l.kind ≡ m.kind)
      × ((l.ttl_ms == 0) ≡ (m.ttl_ms == 0))
      × LocksAlike ls ms
  LocksAlike _ _ = ⊥

  abbrev pub Alike : Observation → Observation → Type 0
  Alike o p =
      (o.class ≡ p.class)
      × ValueAlike o.value p.value
      × LocksAlike o.locks p.locks
      × (is_none o.commit_ts ≡ is_none p.commit_ts)
      × (message_of o.proto ≡ message_of p.proto)
      × (In (text "native.type") wanted → type_of o.native ≡ type_of p.native)
      × (In (text "proto") wanted → o.proto ≡ p.proto)
      × (In (text "errors.count") wanted → o.error_count ≡ p.error_count)

  abbrev pub StepsAlike : List Step → List Step → Type 0
  StepsAlike [] [] = Unit
  StepsAlike (s ∷ ss) (t ∷ ts) =
      (s.id ≡ t.id) × Alike s.observation t.observation × StepsAlike ss ts
  StepsAlike _ _ = ⊥

present_alike :
    (redacted : Bytes) (a b : Option ℕ)
    → is_none a ≡ is_none b
    → present redacted a ≡ present redacted b
present_alike redacted none none h = refl
present_alike redacted (some x) (some y) h = refl
present_alike redacted none (some y) h = absurd (cc)
present_alike redacted (some x) none h = absurd (cc)

proto_fields_alike :
    (a b : Option Json) (out : Map Bytes)
    → message_of a ≡ message_of b
    → proto_fields a out ≡ proto_fields b out
proto_fields_alike none none out h = refl
proto_fields_alike (some x) (some y) out h =
    ap (λ t. insert (text "proto.type") t (insert (text "proto.present") (text "true") out))
      (same _ _ h)
  where
    same : (s t : Bytes) → (some s ≡ some t) → s ≡ t
    same s t e = cc
proto_fields_alike none (some y) out h = absurd (cc)
proto_fields_alike (some x) none out h = absurd (cc)

-- Options that agree, and what comes next.
next :
    {A B : Type 0} (x y : Option A) (f g : A → Option B)
    → x ≡ y
    → ((v : A) → f v ≡ g v)
    → (elim x as (λ _. Option B) [ none ↦ none | some v ↦ f v ])
      ≡ (elim y as (λ _. Option B) [ none ↦ none | some v ↦ g v ])
next none none f g e h = refl
next (some v) (some w) f g e h = h v ∙ ap g (some_eq e)
  where
    some_eq : some v ≡ some w → v ≡ w
    some_eq q = cc
next none (some w) f g e h = absurd (cc)
next (some v) none f g e h = absurd (cc)

native_type_alike :
    (a b : Option NativeObs)
    → type_of a ≡ type_of b
    → (elim a as (λ x. Bytes) [ none ↦ text "<absent>" | some n ↦ n.type ])
      ≡ (elim b as (λ x. Bytes) [ none ↦ text "<absent>" | some n ↦ n.type ])
native_type_alike none none e = refl
native_type_alike (some n) (some m) e = cc
native_type_alike none (some m) e = absurd (cc)
native_type_alike (some n) none e = absurd (cc)

module _ (p q : Bytes) (Same : BytesObs → BytesObs → Type 0)
    (same : (v w : BytesObs)
      → Same v w
      → redact_prefix_bytes (as_slice v) p ≡ redact_prefix_bytes (as_slice w) q) where
  module _ (wanted : List Bytes) where
    value_text_alike :
        (v w : Option BytesObs) → ValueAlike Same wanted v w → value_text p v ≡ value_text q w
    value_text_alike none none h = refl
    value_text_alike (some v) (some w) h = same v w h
    value_text_alike none (some w) h = absurd h
    value_text_alike (some v) none h = absurd h

    lock_text_alike :
        (ls ms : List LockObs)
        → LocksAlike Same wanted ls ms
        → (map (lock_text p) ls ≡ map (lock_text q) ms) × (length ls ≡ length ms)
    lock_text_alike [] [] h = (refl, refl)
    lock_text_alike [] (m ∷ ms) h = absurd h
    lock_text_alike (l ∷ ls) [] h = absurd h
    lock_text_alike (l ∷ ls) (m ∷ ms) (key, primary, kind, ttl, rest) =
        let (texts, lengths) = lock_text_alike ls ms rest in
        (rw (same _ _ key, same _ _ primary, kind, ttl, texts) refl, rw lengths refl)

    default_fields-Alike :
        (o o' : Observation) (out : Map Bytes)
        → Alike Same wanted o o'
        → default_fields o p out ≡ default_fields o' q out
    unfolding default_fields
    default_fields-Alike o o' out (class, value, locks, stamped, message, native, proto, count) =
        let (texts, lengths) = lock_text_alike o.locks o'.locks locks in
        rw
          (
            class,
            value_text_alike o.value o'.value value,
            texts,
            lengths,
            present_alike (text "<ts>") o.commit_ts o'.commit_ts stamped,
          )
          (proto_fields_alike o.proto o'.proto _ message)

  module _ (to_json : Json → Bytes) (wanted : List Bytes) where
    opt_in-Alike :
        (o o' : Observation) (path : Bytes)
        → In path wanted
        → Alike Same wanted o o'
        → opt_in to_json o path ≡ opt_in to_json o' path
    unfolding opt_in
    opt_in-Alike o o' path h (class, value, locks, stamped, message, native, proto, count) =
        elim (Bool-cases (bytes_eq path (text "native.type"))) [
          | inl a ↦
              rw (a, native_type_alike o.native o'.native (native (named (bytes_eq→eq _ _ a)))) refl
          | inr a ↦ elim (Bool-cases (bytes_eq path (text "proto"))) [
            | inl b ↦ rw (a, b, proto (named (bytes_eq→eq _ _ b))) refl
            | inr b ↦ elim (Bool-cases (bytes_eq path (text "errors.count"))) [
              | inl c ↦ rw (a, b, c, count (named (bytes_eq→eq _ _ c))) refl
              | inr c ↦ rw (a, b, c) refl
            ]
          ]
        ]
      where
        named : {name : Bytes} → path ≡ name → In name wanted
        named e = subst (λ x. In x wanted) e h

    opt_in_fields-Alike :
        (o o' : Observation) (paths : List Bytes) (out : Map Bytes)
        → ((path : Bytes) → In path paths → In path wanted)
        → Alike Same wanted o o'
        → opt_in_fields to_json o paths out ≡ opt_in_fields to_json o' paths out
    unfolding opt_in_fields
    opt_in_fields-Alike o o' [] out sub h = refl
    opt_in_fields-Alike o o' (path ∷ paths) out sub h =
        next (opt_in to_json o path) (opt_in to_json o' path)
          (λ v. opt_in_fields to_json o paths (insert path v out))
          (λ v. opt_in_fields to_json o' paths (insert path v out))
          (opt_in-Alike o o' path (sub path (inl refl)) h)
          (λ v. opt_in_fields-Alike o o' paths (insert path v out) (λ x i. sub x (inr i)) h)

  module _ (to_json : Json → Bytes) (spec : Spec) where
    project_obs-Alike :
        (o o' : Observation)
        → Alike Same spec.also_compare o o'
        → project_obs to_json o p spec ≡ project_obs to_json o' q spec
    unfolding project_obs
    project_obs-Alike o o' h =
        opt_in_fields-Alike to_json spec.also_compare o o' spec.also_compare (default_fields o p [])
          (λ x i. i) h
        ∙ ap (λ out. opt_in_fields to_json o' spec.also_compare out)
            (default_fields-Alike spec.also_compare o o' [] h)

    -- Steps that are alike project to the same fields.
    pub project_steps-StepsAlike :
        (ss ts : List Step) (out : Canonical)
        → StepsAlike Same spec.also_compare ss ts
        → project_steps to_json p spec ss out ≡ project_steps to_json q spec ts out
    unfolding project_steps project_obs
    project_steps-StepsAlike [] [] out h = refl
    project_steps-StepsAlike [] (t ∷ ts) out h = absurd h
    project_steps-StepsAlike (s ∷ ss) [] out h = absurd h
    project_steps-StepsAlike (s ∷ ss) (t ∷ ts) out (id, alike, rest) =
        next (project_obs to_json s.observation p spec) (project_obs to_json t.observation q spec)
          (λ fields. project_steps to_json p spec ss (insert s.id fields out))
          (λ fields. project_steps to_json q spec ts (insert t.id fields out))
          (project_obs-Alike s.observation t.observation alike)
          (λ fields.
            project_steps-StepsAlike ss ts (insert s.id fields out) rest
            ∙ ap (λ k. project_steps to_json q spec ts (insert k fields out)) id)
