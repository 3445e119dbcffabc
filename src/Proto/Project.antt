-- ===== src/Proto/Project.antt =====
-- The projection of crates/parity-proto/src/project.rs: what a comparison looks at.
pub mod Redaction
pub mod Paths
pub mod Alike
pub mod Forgets
pub mod Renamed
pub mod Shown
pub mod Reported
pub mod Emitted
use client_rust_test.Base.{
  ℕ, zero, suc, ◌+◌, Option, none, some, List, [], ◌∷◌, ◌++◌, map, Bool, true, false, not, ◌&&◌,
  ◌||◌, ltb, ◌==◌, if◌then◌else◌, Bytes, bytes_eq, length, drop, all, any, text, is_utf8, decimal,
}
use client_rust_test.Base.Map.{Map, insert, sort}
use client_rust_test.Proto.Json.{Json, Fields, as_object}
use client_rust_test.Proto.Class.{Class, Parts, tag}
use client_rust_test.Proto.Base64.{b64_encode}
use client_rust_test.Proto.Observation.{BytesObs, LockObs, Observation, as_slice}
use client_rust_test.Proto.Diff.{Canonical}
use client_rust_test.Proto.Trace.{Step, Trace}

abbrev pub default_paths : List Bytes
default_paths =
    text "class"
    ∷ text "unsupported.detail"
    ∷ text "class.parts"
    ∷ text "value"
    ∷ text "locks.count"
    ∷ text "locks"
    ∷ text "commit_ts"
    ∷ text "proto.present"
    ∷ text "proto.type"
    ∷ []

abbrev pub opt_in_paths : List Bytes
opt_in_paths = text "native.type" ∷ text "proto" ∷ text "errors.count" ∷ []

-- Paths to compare besides the default ones.
pub record Spec : Type 0 where
  pub also_compare : List Bytes

-- Whether `Spec::validate` answers `Ok`.
unfoldable pub validate : Spec → Bool
validate spec = all (λ path. any (λ known. bytes_eq known path) opt_in_paths) spec.also_compare

unfoldable pub is_prefix : Bytes → Bytes → Bool
is_prefix [] haystack = true
is_prefix (n ∷ needle) [] = false
is_prefix (n ∷ needle) (h ∷ haystack) = (n == h) && is_prefix needle haystack

-- Whether `needle`, which is not empty, stands anywhere in the haystack.
unfoldable pub occurs : Bytes → Bytes → Bool
occurs needle [] = false
occurs needle (x ∷ xs) = is_prefix needle (x ∷ xs) || occurs needle xs

-- The loop of `replace_bytes`, from index `i` on; `skip` bytes are those of an occurrence that has
-- been replaced.
unfoldable pub replace_from : Bytes → Bytes → ℕ → Bytes → Bytes
replace_from needle with_bytes skip [] = []
replace_from needle with_bytes (suc skip) (x ∷ xs) = replace_from needle with_bytes skip xs
replace_from needle with_bytes zero (x ∷ xs) =
    let replaced = replace_from needle with_bytes (length (drop 1 needle)) xs in
    let kept = replace_from needle with_bytes zero xs in
    if is_prefix needle (x ∷ xs) then with_bytes ++ replaced else x ∷ kept

abbrev is_empty : Bytes → Bool
is_empty [] = true
is_empty (x ∷ xs) = false

unfoldable pub replace_bytes : Bytes → Bytes → Bytes → Bytes
unfolding replace_from
replace_bytes haystack needle with_bytes =
    if is_empty needle || ltb (length haystack) (length needle)
    then haystack
    else replace_from needle with_bytes zero haystack

unfoldable pub redact_prefix_bytes : Bytes → Bytes → Bytes
unfolding replace_bytes
redact_prefix_bytes raw prefix =
    let redacted = replace_bytes raw prefix (text "{P}") in
    if is_utf8 redacted then redacted else b64_encode redacted

abbrev pub bucket_ttl : ℕ → Bytes
bucket_ttl ttl_ms = if ttl_ms == 0 then text "zero" else text "positive"

-- The first entry of an object, and the first key of a value that is one.
abbrev first_key : Json → Option Bytes
first_key value = elim (as_object value) [
  | some (Fields.field name payload rest) ↦ some name
  | some Fields.end ↦ none
  | none ↦ none
]

-- The message type: container and message, never further.
unfoldable pub proto_type : Json → Bytes
proto_type p = elim (as_object p) [
  | none ↦ text "<malformed>"
  | some Fields.end ↦ text "<empty>"
  | some (Fields.field container inner rest) ↦ elim (first_key inner) [
    | some message ↦ container ++ (text "." ++ message)
    | none ↦ container
  ]
]

abbrev pub join : Bytes → List Bytes → Bytes
join separator [] = []
join separator (x ∷ []) = x
join separator (x ∷ y ∷ ys) = x ++ (separator ++ join separator (y ∷ ys))

abbrev pub tags : Parts → List Bytes
tags Parts.nil = []
tags (Parts.cons c cs) = tag c ∷ tags cs

abbrev pub class_fields : Class → Map Bytes → Map Bytes
class_fields (Class.unsupported detail) out = insert (text "unsupported.detail") detail out
class_fields (Class.mixed parts) out =
    insert (text "class.parts") (join (text ",") (sort (tags parts))) out
class_fields _ out = out

abbrev pub value_text : Bytes → Option BytesObs → Bytes
value_text prefix (some v) = redact_prefix_bytes (as_slice v) prefix
value_text prefix none = text "<absent>"

-- "key={} primary={} kind={} ttl={}"
abbrev pub lock_text : Bytes → LockObs → Bytes
lock_text prefix l =
    text "key="
    ++ (redact_prefix_bytes (as_slice l.key) prefix
        ++ (text " primary="
            ++ (redact_prefix_bytes (as_slice l.primary) prefix
                ++ (text " kind=" ++ (l.kind ++ (text " ttl=" ++ bucket_ttl l.ttl_ms))))))

abbrev pub proto_fields : Option Json → Map Bytes → Map Bytes
proto_fields none out = insert (text "proto.present") (text "false") out
proto_fields (some p) out =
    insert (text "proto.type") (proto_type p) (insert (text "proto.present") (text "true") out)

abbrev pub present : Bytes → Option ℕ → Bytes
present redacted none = text "<absent>"
present redacted (some n) = redacted

-- The fields that are compared by default.
unfoldable pub default_fields : Observation → Bytes → Map Bytes → Map Bytes
unfolding redact_prefix_bytes
default_fields obs prefix out =
    let classed = class_fields obs.class (insert (text "class") (tag obs.class) out) in
    let valued = insert (text "value") (value_text prefix obs.value) classed in
    let counted = insert (text "locks.count") (decimal (length obs.locks)) valued in
    let locked =
      insert (text "locks") (join (text " | ") (sort (map (lock_text prefix) obs.locks))) counted in
    let stamped = insert (text "commit_ts") (present (text "<ts>") obs.commit_ts) locked in
    proto_fields obs.proto stamped

-- `serde_json::to_string` is a parameter. `none` is the panic on an unknown path.
module _ (to_json : Json → Bytes) where
  abbrev pub native_type : Observation → Bytes
  native_type obs = elim obs.native [ none ↦ text "<absent>" | some n ↦ n.type ]

  abbrev pub proto_text : Observation → Bytes
  proto_text obs = elim obs.proto [ none ↦ text "<absent>" | some p ↦ to_json p ]

  abbrev pub count_text : Observation → Bytes
  count_text obs = elim obs.error_count [ none ↦ text "<absent>" | some n ↦ decimal n ]

  unfoldable pub opt_in : Observation → Bytes → Option Bytes
  opt_in obs path =
      if bytes_eq path (text "native.type")
      then some (native_type obs)
      else if bytes_eq path (text "proto")
      then some (proto_text obs)
      else if bytes_eq path (text "errors.count")
      then some (count_text obs)
      else none

  unfoldable pub opt_in_fields : Observation → List Bytes → Map Bytes → Option (Map Bytes)
  unfolding opt_in
  opt_in_fields obs [] out = some out
  opt_in_fields obs (path ∷ paths) out = elim (opt_in obs path) [
    | none ↦ none
    | some v ↦ opt_in_fields obs paths (insert path v out)
  ]

  unfoldable pub project_obs : Observation → Bytes → Spec → Option (Map Bytes)
  unfolding default_fields opt_in_fields
  project_obs obs prefix spec = opt_in_fields obs spec.also_compare (default_fields obs prefix [])

  unfoldable pub project_steps : Bytes → Spec → List Step → Canonical → Option Canonical
  unfolding project_obs
  project_steps prefix spec [] out = some out
  project_steps prefix spec (s ∷ steps) out = elim (project_obs s.observation prefix spec) [
    | none ↦ none
    | some fields ↦ project_steps prefix spec steps (insert s.id fields out)
  ]

  unfoldable pub project : Trace → Spec → Option Canonical
  unfolding project_steps
  project trace spec = project_steps trace.prefix spec trace.steps []
