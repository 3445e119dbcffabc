-- ===== src/Proto/Project/Renamed.antt =====
-- Two runs of one scenario under two prefixes: `project` and `diff` of
-- crates/parity-proto/src/project.rs.
use client_rust_test.Base.{
  ◌≡◌, ◌≢◌, refl, sym, ◌∙◌, ◌⊎◌, inl, inr, some, List, [], ◌∷◌, ◌++◌, true, false, Bytes, In,
}
use client_rust_test.Proto.Json.{Json}
use client_rust_test.Proto.Observation.{BytesObs, as_slice}
use client_rust_test.Proto.Diff.{Canonical, Divergence, diff}
use client_rust_test.Proto.Diff.Exact.{diff-Differs}
use client_rust_test.Proto.Trace.{Trace}
use client_rust_test.Proto.Project.{Spec, validate, occurs, redact_prefix_bytes, project}
use client_rust_test.Proto.Project.Paths.{project-validate}
use client_rust_test.Proto.Project.Alike.{StepsAlike, project_steps-StepsAlike}
use client_rust_test.Proto.Project.Redaction.{
  redact_prefix_bytes-append, redact_prefix_bytes-occurs,
}

-- The same bytes in two runs: a key of the run, below its prefix, or bytes that no run's prefix
-- stands in.
abbrev pub SameUnder : Bytes → Bytes → BytesObs → BytesObs → Type 0
SameUnder p q v w =
    (k : Bytes) × (occurs p k ≡ false)
    × (occurs q k ≡ false)
    × (((as_slice v ≡ p ++ k) × (as_slice w ≡ q ++ k)) ⊎ ((as_slice v ≡ k) × (as_slice w ≡ k)))

redact_SameUnder :
    (p q : Bytes)
    → p ≢ []
    → q ≢ []
    → (v w : BytesObs) → SameUnder p q v w
    → redact_prefix_bytes (as_slice v) p ≡ redact_prefix_bytes (as_slice w) q
redact_SameUnder p q np nq v w (k, cp, cq, found) = elim found [
  | inl (e, f) ↦ rw (e, f) (redact_prefix_bytes-append p q k np nq cp cq)
  | inr (e, f) ↦
      rw (e, f) (redact_prefix_bytes-occurs p k cp ∙ sym (redact_prefix_bytes-occurs q k cq))
]

no_members : (ds : List Divergence) → ((d : Divergence) → In d ds → ⊥) → ds ≡ []
no_members [] h = refl
no_members (d ∷ ds) h = absurd (h d (inl refl))

-- A trace does not differ from itself.
diff_self : (m : Canonical) → diff m m ≡ []
diff_self m =
    no_members (diff m m) (λ d i. let (o, s, ne) = (diff-Differs m m d).0 i in ne (o ∙ sym s))

module _ (to_json : Json → Bytes) where
  -- Two runs of a scenario under two prefixes that are not empty, compared by a specification that
  -- `validate` accepts. Let the steps have the same ids and, pairwise, observations of one class that
  -- show the same bytes: a key below the prefix of the run in both, or bytes equal in both, where
  -- neither prefix stands in the key or the bytes. Let them differ further at most in timestamps, in
  -- the numbers of positive TTLs, in the checksum, in the content of a message of one type, and in
  -- the native error and the count of errors, where the specification does not opt these in. Then
  -- the comparison ends and reports no divergence.
  pub diff-project :
      (a b : Trace) (spec : Spec)
      → validate spec ≡ true
      → a.prefix ≢ []
      → b.prefix ≢ []
      → StepsAlike (SameUnder a.prefix b.prefix) spec.also_compare a.steps b.steps
      → (m n : Canonical) × (project to_json a spec ≡ some m)
        × (project to_json b spec ≡ some n)
        × (diff m n ≡ [])
  unfolding project
  diff-project a b spec ok na nb alike =
      let (m, e) = project-validate to_json a spec ok in
      let same =
        project_steps-StepsAlike a.prefix b.prefix (SameUnder a.prefix b.prefix)
          (redact_SameUnder a.prefix b.prefix na nb) to_json spec a.steps b.steps [] alike in
      (m, m, e, sym same ∙ e, diff_self m)
