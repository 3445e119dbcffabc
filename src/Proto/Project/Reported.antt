-- ===== src/Proto/Project/Reported.antt =====
-- What a comparison does not overlook: `project` and `diff` of crates/parity-proto/src/project.rs.
use mathlib.Core.Path.{subst}
use client_rust_test.Base.{
  ◌≡◌, ◌≢◌, refl, sym, ◌∙◌, ap, ◌↔◌, inl, inr, some, List, [], ◌∷◌, map, Bool-cases, true, false,
  Bytes, bytes_eq, bytes_eq→eq, all, In, arith,
}
use client_rust_test.Base.Map.{Map, insert, get, get-insert_self, get-insert_ne}
use client_rust_test.Base.Check.{Distinct}
use client_rust_test.Proto.Json.{Json}
use client_rust_test.Proto.Observation.{Observation}
use client_rust_test.Proto.Diff.{Canonical, Divergence, shown, fields_of, diff}
use client_rust_test.Proto.Diff.Exact.{value_at, diff-Differs, fields_of-none, bytes_eq-false}
use client_rust_test.Proto.Trace.{Step, Trace}
use client_rust_test.Proto.Project.{
  Spec, validate, default_fields, opt_in_fields, project_obs, project_steps, project,
}
use client_rust_test.Proto.Project.Paths.{known, opt_in-known}
use client_rust_test.Proto.Project.Shown.{Shows, RunShows, default_fields-Shows, known-Shows}

apart : (a b : Bytes) → known a ≡ true → known b ≡ false → bytes_eq a b ≡ false
apart a b h k = elim (Bool-cases (bytes_eq a b)) [
  | inl y ↦ absurd (cc (ap known (bytes_eq→eq a b y)))
  | inr n ↦ n
]

-- The fields have what the observation shows.
abbrev Told : Bytes → Observation → Map Bytes → Type 0
Told p o fields = (path x : Bytes) → Shows p o path x → get path fields ≡ some x

abbrev ids : List Step → List Bytes
ids = map (λ (s : Step). s.id)

module _ (to_json : Json → Bytes) where
  opt_in_fields-get :
      (o : Observation) (paths : List Bytes) (out : Map Bytes)
      → all known paths ≡ true
      → (m : Map Bytes) × (opt_in_fields to_json o paths out ≡ some m)
        × ((path : Bytes) → known path ≡ false → get path m ≡ get path out)
  unfolding opt_in_fields
  opt_in_fields-get o [] out h = (out, refl, λ path k. refl)
  opt_in_fields-get o (p ∷ paths) out h =
      let (v, e) = opt_in-known to_json o p (ground arith) in
      let (m, q, same) = opt_in_fields-get o paths (insert p v out) (ground arith) in
      (
        m,
        rw (e, opt_in_fields) q,
        λ path k. same path k ∙ get-insert_ne path p v out (apart p path (ground arith) k),
      )

  project_obs-Told :
      (p : Bytes) (o : Observation) (spec : Spec)
      → validate spec ≡ true
      → (m : Map Bytes) × (project_obs to_json o p spec ≡ some m) × Told p o m
  unfolding project_obs validate
  project_obs-Told p o spec h =
      let (m, e, same) = opt_in_fields-get o spec.also_compare (default_fields o p []) h in
      (
        m,
        e,
        λ path x shows.
            same path (known-Shows p o path x shows) ∙ default_fields-Shows p o path x shows,
      )

  -- Where the ids are distinct, each step has its own fields.
  project_steps-Told :
      (p : Bytes) (spec : Spec) (steps : List Step) (out : Canonical)
      → validate spec ≡ true
      → Distinct (ids steps)
      → (m : Canonical) × (project_steps to_json p spec steps out ≡ some m)
        × ((id : Bytes) → (¬ In id (ids steps)) → get id m ≡ get id out)
        × ((s : Step)
            → In s steps
            → (fields : Map Bytes) × (get s.id m ≡ some fields) × Told p s.observation fields)
  unfolding project_steps
  project_steps-Told p spec [] out h d = (out, refl, λ id k. refl, λ s i. absurd i)
  project_steps-Told p spec (s ∷ steps) out h (once, d) =
      let (fields, e, told) = project_obs-Told p s.observation spec h in
      let (m, q, other, own) = project_steps-Told p spec steps (insert s.id fields out) h d in
      (
        m,
        rw (e, project_steps) q,
        λ id k.
            other id (λ i. k (inr i))
            ∙ get-insert_ne id s.id fields out (bytes_eq-false s.id id (λ e. k (inl (sym e)))),
        λ t i. elim i [
          | inl same ↦
              subst (λ (r : Step). (f : Map Bytes) × (get r.id m ≡ some f) × Told p r.observation f)
                (sym same) (fields, other s.id once ∙ get-insert_self s.id fields out, told)
          | inr later ↦ own t later
        ],
      )

  -- What the projection has at a step and a path is what the run shows there.
  pub project-RunShows :
      (t : Trace) (spec : Spec)
      → validate spec ≡ true
      → Distinct (ids t.steps)
      → (m : Canonical) × (project to_json t spec ≡ some m)
        × ((id path x : Bytes) → RunShows t id path x → value_at m id path ≡ x)
  unfolding project fields_of shown
  project-RunShows t spec h d =
      let (m, e, other, own) = project_steps-Told t.prefix spec t.steps [] h d in
      (
        m,
        e,
        λ id path x shows. elim shows [
          | inl (s, i, q, here) ↦
              let (fields, f, told) = own s i in
              subst (λ k. value_at m k path ≡ x) q (rw (f, shown, told path x here) refl)
          | inr (absent, q) ↦ rw (fields_of-none m id (other id absent), q) refl
        ],
      )

  -- Nothing that two runs show is overlooked, and nothing of it is reported without a reason. For
  -- two traces whose step ids are distinct, and a specification that `validate` accepts, the
  -- comparison ends. Where the runs show the texts `x` and `y` at a step and a path, it reports that
  -- they differ there, with these texts, if and only if `x` is not `y`. A run shows, for each step:
  -- the class of its observation, the capability that is missing, what was read (nothing, UTF-8
  -- bytes in which the prefix of the run does not stand, or a UTF-8 key below the prefix), the
  -- number of locks, whether there is a commit timestamp, and whether there is a message. For an id
  -- that is none of its steps, it shows at every path that there is no step.
  pub diff-RunShows :
      (a b : Trace) (spec : Spec)
      → validate spec ≡ true
      → Distinct (map (λ (s : Step). s.id) a.steps)
      → Distinct (map (λ (s : Step). s.id) b.steps)
      → (id path x y : Bytes) → RunShows a id path x
      → RunShows b id path y
      → (m n : Canonical) × (project to_json a spec ≡ some m)
        × (project to_json b spec ≡ some n)
        × (In (record { step = id; path = path; oracle = x; subject = y }) (diff m n) ↔ (x ≢ y))
  diff-RunShows a b spec h da db id path x y shows_a shows_b =
      let (m, e, seen) = project-RunShows a spec h da in
      let (n, e', seen') = project-RunShows b spec h db in
      let d : Divergence = record { step = id; path = path; oracle = x; subject = y } in
      let exact = diff-Differs m n d in
      (
        m,
        n,
        e,
        e',
        (
          λ i. (exact.0 i).2,
          λ ne. exact.1 (sym (seen id path x shows_a), sym (seen' id path y shows_b), ne),
        ),
      )
