-- ===== src/Proto/Project/Forgets.antt =====
-- What a comparison does not look at: `project` of crates/parity-proto/src/project.rs.
use client_rust_test.Base.{◌≡◌, ◌∙◌, ap, [], Bytes}
use client_rust_test.Proto.Json.{Json}
use client_rust_test.Proto.Observation.{BytesObs, as_slice}
use client_rust_test.Proto.Trace.{Trace}
use client_rust_test.Proto.Project.{Spec, redact_prefix_bytes, project_steps, project}
use client_rust_test.Proto.Project.Alike.{StepsAlike, project_steps-StepsAlike}

abbrev pub Equal : BytesObs → BytesObs → Type 0
Equal v w = v ≡ w

module _ (to_json : Json → Bytes) where
  -- Two traces under one prefix whose steps have the same ids and, pairwise, observations of one class
  -- that differ at most in start and commit timestamps, in the numbers of positive TTLs, in the
  -- checksum, in the content of a message of one type, and in the native error and the count of
  -- errors, are projected to the same fields; of the last three, what the specification opts in (a
  -- native error by its type) must be the same.
  pub project-StepsAlike :
      (a b : Trace) (spec : Spec)
      → a.prefix ≡ b.prefix
      → StepsAlike Equal spec.also_compare a.steps b.steps
      → project to_json a spec ≡ project to_json b spec
  unfolding project
  project-StepsAlike a b spec same alike =
      ap (λ prefix. project_steps to_json prefix spec a.steps []) same
      ∙ project_steps-StepsAlike b.prefix b.prefix Equal
          (λ v w e. ap (λ x. redact_prefix_bytes (as_slice x) b.prefix) e) to_json spec a.steps
          b.steps [] alike
