-- ===== src/Tests/Project.antt =====
-- Traces, their projection and their difference at concrete inputs.
use client_rust_test.Base.{
  ℕ, ◌+◌, ◌<◌, inl, inr, text, ◌≡◌, ◌≢◌, refl, ◌↔◌, none, some, [], ◌∷◌, ◌++◌, true, Bytes,
  bytes_eq, is_utf8, In, all, arith,
}
use client_rust_test.Proto.Json.{Json}
use client_rust_test.Proto.Class.{Class, is_admissible}
use client_rust_test.Proto.Observation.{Observation, LockObs, bytes_obs, as_slice}
use client_rust_test.Proto.Observation.RoundTrip.{as_slice-bytes_obs}
use client_rust_test.Proto.Diff.{Canonical, Divergence, diff}
use client_rust_test.Proto.Diff.Exact.{Differs, diff-Differs}
use client_rust_test.Proto.Trace.{Trace, Step, inadmissible, is_transient}
use client_rust_test.Proto.Trace.Admission.{inadmissible-nil_iff, is_transient-inadmissible}
use client_rust_test.Proto.Project.{
  Spec, occurs, is_prefix, validate, redact_prefix_bytes, project_obs, project,
}
use client_rust_test.Proto.Project.Paths.{project-validate}
use client_rust_test.Proto.Project.Forgets.{project-StepsAlike}
use client_rust_test.Proto.Project.Renamed.{diff-project}
use client_rust_test.Proto.Project.Shown.{its_value}
use client_rust_test.Proto.Project.Reported.{diff-RunShows}
use client_rust_test.Proto.Project.Emitted.{paths_of, project_obs-keys}
use client_rust_test.Base.Map.{Map, keys}
use client_rust_test.Proto.Project.Redaction.{redact_prefix_bytes-append}

abbrev step_of : ℕ → Class → Step
step_of id class = record {
  id = id ∷ [];
  role = [];
  op = [];
  observation = record {
    class = class;
    value = none;
    locks = [];
    start_ts = some 5;
    commit_ts = none;
    error_count = none;
    proto = none;
    native = none;
    checksum = none;
  };
}

abbrev moved : Trace
moved = record {
  schema = [];
  scenario = [];
  run = [];
  provenance = Json.null;
  roles = [];
  prefix = 112 ∷ [];
  steps = step_of 97 Class.ok ∷ step_of 98 Class.region_error ∷ [];
}

is_transient-inadmissible_example : inadmissible moved ≢ []
unfolding is_transient
is_transient-inadmissible_example = is_transient-inadmissible moved refl

inadmissible-nil_iff_example :
    (inadmissible moved ≡ [])
    ↔ (all (λ (s : Step). is_admissible s.observation.class) moved.steps ≡ true)
inadmissible-nil_iff_example = inadmissible-nil_iff moved

abbrev default_spec : Spec
default_spec = record { also_compare = [] }

abbrev to_json : Json → Bytes
to_json p = []

project-validate_example : (m : Canonical) × (project to_json moved default_spec ≡ some m)
unfolding validate
project-validate_example = project-validate to_json moved default_spec refl

abbrev oracle_run : Canonical
oracle_run = (97 ∷ [], (99 ∷ [], 1 ∷ []) ∷ []) ∷ []

abbrev stopped_early : Canonical
stopped_early = []

abbrev missing : Divergence
missing = record { step = 97 ∷ []; path = 99 ∷ []; oracle = 1 ∷ []; subject = [] }

diff-Differs_example :
    In missing (diff oracle_run stopped_early) ↔ Differs oracle_run stopped_early missing
diff-Differs_example = diff-Differs oracle_run stopped_early missing

redact_prefix_bytes-append_example :
    redact_prefix_bytes ((1 ∷ 2 ∷ []) ++ 255 ∷ []) (1 ∷ 2 ∷ [])
    ≡ redact_prefix_bytes ((3 ∷ []) ++ 255 ∷ []) (3 ∷ [])
unfolding occurs is_prefix
redact_prefix_bytes-append_example =
    redact_prefix_bytes-append (1 ∷ 2 ∷ []) (3 ∷ []) (255 ∷ []) (λ e. cc) (λ e. cc) refl refl

abbrev lock_of : ℕ → ℕ → LockObs
lock_of start_ts ttl_ms = record {
  key = bytes_obs (1 ∷ 2 ∷ []);
  primary = bytes_obs (1 ∷ []);
  txn_start_ts = start_ts;
  ttl_ms = ttl_ms;
  kind = [];
}

abbrev locked_at : ℕ → ℕ → Observation
locked_at start_ts ttl_ms = record {
  class = Class.ok;
  value = none;
  locks = lock_of start_ts ttl_ms ∷ [];
  start_ts = some start_ts;
  commit_ts = some (start_ts + 1);
  error_count = none;
  proto = none;
  native = none;
  checksum = none;
}

abbrev run_at : ℕ → ℕ → Trace
run_at start_ts ttl_ms = record {
  schema = [];
  scenario = [];
  run = [];
  provenance = Json.null;
  roles = [];
  prefix = 1 ∷ [];
  steps = record { id = 97 ∷ []; role = []; op = []; observation = locked_at start_ts ttl_ms } ∷ [];
}

project-StepsAlike_example :
    project to_json (run_at 5 3000) default_spec ≡ project to_json (run_at 8 20) default_spec
project-StepsAlike_example =
    project-StepsAlike to_json (run_at 5 3000) (run_at 8 20) default_spec refl (
      refl,
      (refl, tt, (refl, refl, refl, refl, tt), refl, refl, λ i. refl, λ i. refl, λ i. refl),
      tt,
    )

abbrev counting : Spec
counting = record { also_compare = text "errors.count" ∷ [] }

project_obs-keys_example :
    (m : Map Bytes) × (project_obs to_json (locked_at 5 3000) (1 ∷ []) counting ≡ some m)
    × ((path : Bytes)
        → In path (keys m) ↔ In path (paths_of (locked_at 5 3000) ++ counting.also_compare))
unfolding validate bytes_eq text
project_obs-keys_example = project_obs-keys to_json (locked_at 5 3000) (1 ∷ []) counting refl

-- One read of one key, of a run under the prefix of one byte.
abbrev read_key : ℕ → ℕ → ℕ → Trace
read_key prefix key start_ts = record {
  schema = [];
  scenario = [];
  run = [];
  provenance = Json.null;
  roles = [];
  prefix = prefix ∷ [];
  steps =
      record {
        id = 97 ∷ [];
        role = [];
        op = [];
        observation = record {
          class = Class.ok;
          value = some (bytes_obs (prefix ∷ key ∷ []));
          locks = [];
          start_ts = some start_ts;
          commit_ts = none;
          error_count = none;
          proto = none;
          native = none;
          checksum = none;
        };
      }
      ∷ [];
}

abbrev read_under : ℕ → ℕ → Trace
read_under prefix start_ts = read_key prefix 9 start_ts

read_back :
    (prefix key : ℕ)
    → prefix < 256
    → key < 256
    → as_slice (bytes_obs (prefix ∷ key ∷ [])) ≡ prefix ∷ key ∷ []
read_back prefix key h k = as_slice-bytes_obs (prefix ∷ key ∷ []) (h, (k, tt))

diff-project_example :
    (m n : Canonical) × (project to_json (read_under 1 5) default_spec ≡ some m)
    × (project to_json (read_under 2 8) default_spec ≡ some n)
    × (diff m n ≡ [])
unfolding validate occurs is_prefix
diff-project_example =
    diff-project to_json (read_under 1 5) (read_under 2 8) default_spec refl (λ e. cc) (λ e. cc)
      (
        refl,
        (
          refl,
          (
            9 ∷ [],
            refl,
            refl,
            inl (
              read_back 1 9 (omega arith) (omega arith),
              read_back 2 9 (omega arith) (omega arith),
            ),
          ),
          tt,
          refl,
          refl,
          λ i. refl,
          λ i. refl,
          λ i. refl,
        ),
        tt,
      )

diff-RunShows_example :
    (m n : Canonical) × (project to_json (read_key 1 9 5) default_spec ≡ some m)
    × (project to_json (read_key 2 8 5) default_spec ≡ some n)
    × (In
          (record {
            step = 97 ∷ [];
            path = text "value";
            oracle = text "{P}" ++ 9 ∷ [];
            subject = text "{P}" ++ 8 ∷ [];
          })
          (diff m n)
        ↔ ((text "{P}" ++ 9 ∷ []) ≢ (text "{P}" ++ 8 ∷ [])))
unfolding validate occurs is_prefix is_utf8 text
diff-RunShows_example =
    diff-RunShows to_json (read_key 1 9 5) (read_key 2 8 5) default_spec refl (λ i. i, tt)
      (λ i. i, tt) (97 ∷ []) (text "value") (text "{P}" ++ 9 ∷ []) (text "{P}" ++ 8 ∷ [])
      (inl (
        _,
        inl refl,
        refl,
        its_value refl
            (9 ∷ [], refl, inr (λ e. cc, read_back 1 9 (omega arith) (omega arith), refl, refl)),
      ))
      (inl (
        _,
        inl refl,
        refl,
        its_value refl
            (8 ∷ [], refl, inr (λ e. cc, read_back 2 8 (omega arith) (omega arith), refl, refl)),
      ))
