-- ===== src/Proto/Project/Shown.antt =====
-- What a run shows at the default paths: `project_obs` of crates/parity-proto/src/project.rs.
use client_rust_test.Base.{
  ℕ, ◌≡◌, ◌≢◌, refl, sym, ◌∙◌, ap, ◌⊎◌, inl, inr, Option, none, some, [], ◌++◌, map, true, false,
  if◌then◌else◌, Bytes, bytes_eq, length, text, is_utf8, decimal, In,
}
use client_rust_test.Base.Map.{Map, insert, get, sort, get-insert_self, get-insert_ne}
use client_rust_test.Base.Check.{is_none}
use client_rust_test.Proto.Json.{Json}
use client_rust_test.Proto.Class.{Class, tag}
use client_rust_test.Proto.Observation.{BytesObs, Observation, as_slice}
use client_rust_test.Proto.Trace.{Step, Trace}
use client_rust_test.Proto.Project.{
  occurs, redact_prefix_bytes, lock_text, join, proto_type, class_fields, proto_fields, value_text,
  present, default_fields,
}
use client_rust_test.Proto.Project.Paths.{known}
use client_rust_test.Proto.Project.Redaction.{replace_bytes-append, redact_prefix_bytes-occurs}

-- What a read shows: nothing, text in which the run's prefix does not stand, or a key of the run by
-- what follows the prefix.
abbrev pub ReadShows : Bytes → Option BytesObs → Bytes → Type 0
ReadShows p none x = x ≡ text "<absent>"
ReadShows p (some v) x =
    (k : Bytes) × (occurs p k ≡ false)
    × (((as_slice v ≡ k) × (is_utf8 k ≡ true) × (x ≡ k))
        ⊎ ((p ≢ [])
            × (as_slice v ≡ p ++ k)
            × (is_utf8 (text "{P}" ++ k) ≡ true)
            × (x ≡ text "{P}" ++ k)))

-- What an observation shows at a path, of a run under the prefix `p`: what it is, which capability
-- is missing, what was read, how many locks there are, whether it committed at a timestamp and
-- whether it came with a message.
pub data Shows (p : Bytes) (o : Observation) (path x : Bytes) : Type 0 where
  its_class : path ≡ text "class" → x ≡ tag o.class → Shows p o path x
  its_gap : path ≡ text "unsupported.detail" → o.class ≡ Class.unsupported x → Shows p o path x
  its_value : path ≡ text "value" → ReadShows p o.value x → Shows p o path x
  its_count : path ≡ text "locks.count" → x ≡ decimal (length o.locks) → Shows p o path x
  its_commit :
      path ≡ text "commit_ts"
      → x ≡ (if is_none o.commit_ts then text "<absent>" else text "<ts>")
      → Shows p o path x
  its_message :
      path ≡ text "proto.present"
      → x ≡ (if is_none o.proto then text "false" else text "true")
      → Shows p o path x

-- What a run shows at a step and a path: what the observation of the step shows, or that there is
-- no step.
abbrev pub RunShows : Trace → Bytes → Bytes → Bytes → Type 0
RunShows t id path x =
    ((s : Step) × In s t.steps × (s.id ≡ id) × Shows t.prefix s.observation path x)
    ⊎ ((¬ In id (map (λ (s : Step). s.id) t.steps)) × (x ≡ text "<step absent>"))

value_text-ReadShows :
    (p : Bytes) (v : Option BytesObs) (x : Bytes) → ReadShows p v x → value_text p v ≡ x
unfolding redact_prefix_bytes
value_text-ReadShows p none x h = sym h
value_text-ReadShows p (some v) x (k, apart, inl (e, utf8, q)) =
    ap (λ b. redact_prefix_bytes b p) e ∙ redact_prefix_bytes-occurs p k apart ∙ rw (utf8, q) refl
value_text-ReadShows p (some v) x (k, apart, inr (ne, e, utf8, q)) =
    rw (e, replace_bytes-append p (text "{P}") k ne apart, utf8, q) refl

class_fields-get :
    (c : Class) (path : Bytes) (out : Map Bytes)
    → bytes_eq (text "unsupported.detail") path ≡ false
    → bytes_eq (text "class.parts") path ≡ false
    → get path (class_fields c out) ≡ get path out
class_fields-get (Class.unsupported detail) path out a b =
    get-insert_ne path (text "unsupported.detail") _ out a
class_fields-get (Class.mixed parts) path out a b = get-insert_ne path (text "class.parts") _ out b
class_fields-get _ path out a b = refl

-- What was written under a key stays when another key is written.
later :
    (path k v : Bytes) (m : Map Bytes) {x : Option Bytes}
    → bytes_eq k path ≡ false
    → get path m ≡ x
    → get path (insert k v m) ≡ x
later path k v m ne e = get-insert_ne path k v m ne ∙ e

proto_fields_later :
    (path : Bytes) (p : Option Json) (out : Map Bytes) {x : Option Bytes}
    → bytes_eq (text "proto.present") path ≡ false
    → bytes_eq (text "proto.type") path ≡ false
    → get path out ≡ x
    → get path (proto_fields p out) ≡ x
proto_fields_later path none out a b e = later path (text "proto.present") _ out a e
proto_fields_later path (some p) out a b e =
    later path (text "proto.type") _ _ b (later path (text "proto.present") _ out a e)

proto_present :
    (p : Option Json) (out : Map Bytes)
    → get (text "proto.present") (proto_fields p out)
      ≡ some (if is_none p then text "false" else text "true")
unfolding bytes_eq text
proto_present none out = get-insert_self (text "proto.present") _ out
proto_present (some p) out =
    later (text "proto.present") (text "proto.type") (proto_type p)
      (insert (text "proto.present") (text "true") out) refl
      (get-insert_self (text "proto.present") _ out)

present-is_none :
    (n : Option ℕ) → present (text "<ts>") n ≡ (if is_none n then text "<absent>" else text "<ts>")
present-is_none none = refl
present-is_none (some n) = refl

-- The fields as they are written, one after the other.
module _ (p : Bytes) (o : Observation) where
  abbrev named : Map Bytes
  named = insert (text "class") (tag o.class) []

  abbrev classed : Map Bytes
  classed = class_fields o.class named

  abbrev valued : Map Bytes
  valued = insert (text "value") (value_text p o.value) classed

  abbrev counted : Map Bytes
  counted = insert (text "locks.count") (decimal (length o.locks)) valued

  abbrev locked : Map Bytes
  locked = insert (text "locks") (join (text " | ") (sort (map (lock_text p) o.locks))) counted

  abbrev stamped : Map Bytes
  stamped = insert (text "commit_ts") (present (text "<ts>") o.commit_ts) locked

  after_stamp :
      (path : Bytes) {x : Option Bytes}
      → bytes_eq (text "proto.present") path ≡ false
      → bytes_eq (text "proto.type") path ≡ false
      → get path stamped ≡ x
      → get path (default_fields o p []) ≡ x
  unfolding default_fields
  after_stamp path a b e = proto_fields_later path o.proto stamped a b e

  after_count :
      (path : Bytes) {x : Option Bytes}
      → bytes_eq (text "locks") path ≡ false
      → bytes_eq (text "commit_ts") path ≡ false
      → get path counted ≡ x
      → get path stamped ≡ x
  after_count path a b e =
      later path (text "commit_ts") _ locked b (later path (text "locks") _ counted a e)

  after_class :
      (path : Bytes) {x : Option Bytes}
      → bytes_eq (text "value") path ≡ false
      → bytes_eq (text "locks.count") path ≡ false
      → get path classed ≡ x
      → get path counted ≡ x
  after_class path a b e =
      later path (text "locks.count") _ valued b (later path (text "value") _ classed a e)

  -- The default fields have what the observation shows.
  pub default_fields-Shows :
      (path x : Bytes) → Shows p o path x → get path (default_fields o p []) ≡ some x
  unfolding default_fields bytes_eq text
  default_fields-Shows path x (its_class e q) =
      rw (e, q)
        (after_stamp (text "class") refl refl (
          after_count (text "class") refl refl (
            after_class (text "class") refl refl (
              class_fields-get o.class (text "class") named refl refl
              ∙ get-insert_self (text "class") _ []))))
  default_fields-Shows path x (its_gap e q) = rw e (
      after_stamp (text "unsupported.detail") refl refl (
        after_count (text "unsupported.detail") refl refl (
          after_class (text "unsupported.detail") refl refl (
            ap (λ c. get (text "unsupported.detail") (class_fields c named)) q
            ∙ get-insert_self (text "unsupported.detail") x named))))
  default_fields-Shows path x (its_value e q) =
      rw (e, sym (value_text-ReadShows p o.value x q))
        (after_stamp (text "value") refl refl (
          after_count (text "value") refl refl (
            later (text "value") (text "locks.count") _ valued refl
              (get-insert_self (text "value") _ classed))))
  default_fields-Shows path x (its_count e q) =
      rw (e, q)
        (after_stamp (text "locks.count") refl refl (
          after_count (text "locks.count") refl refl
            (get-insert_self (text "locks.count") _ valued)))
  default_fields-Shows path x (its_commit e q) =
      rw (e, q, sym (present-is_none o.commit_ts))
        (after_stamp (text "commit_ts") refl refl (get-insert_self (text "commit_ts") _ locked))
  default_fields-Shows path x (its_message e q) = rw (e, q) (proto_present o.proto stamped)

-- No such path can be opted in.
pub known-Shows :
    (p : Bytes) (o : Observation) (path x : Bytes) → Shows p o path x → known path ≡ false
unfolding bytes_eq text
known-Shows p o path x (its_class e q) = rw e refl
known-Shows p o path x (its_gap e q) = rw e refl
known-Shows p o path x (its_value e q) = rw e refl
known-Shows p o path x (its_count e q) = rw e refl
known-Shows p o path x (its_commit e q) = rw e refl
known-Shows p o path x (its_message e q) = rw e refl
