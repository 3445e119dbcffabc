-- ===== src/Proto/Diff/Exact.antt =====
-- The differences that `diff` reports are those that there are.
use mathlib.Core.Path.{subst}
use client_rust_test.Base.{
  ◌≡◌, ◌≢◌, refl, ◌∙◌, sym, ap, ◌↔◌, ◌⊎◌, inl, inr, none, List, [], ◌++◌, false, Bytes, bytes_eq,
  bytes_eq→eq, bytes_eq_refl, text, In, In-append_left, In-append_right, Bool-cases,
}
use client_rust_test.Base.Map.{get, keys, get-keys, sort, dedup, In-dedup-sort, In-flat_map}
use client_rust_test.Proto.Diff.{
  Fields, Canonical, Divergence, shown, fields_of, diff_path, diff_step, diff,
}

-- The value that a projected trace shows at a step and a path: its own, or that it has none.
abbrev pub value_at : Canonical → Bytes → Bytes → Bytes
value_at c step path = shown (fields_of c step) path

-- `d` states a difference of the two traces.
abbrev pub Differs : Canonical → Canonical → Divergence → Type 0
Differs oracle subject d =
    (d.oracle ≡ value_at oracle d.step d.path)
    × (d.subject ≡ value_at subject d.step d.path)
    × (d.oracle ≢ d.subject)

-- A key of neither of two maps.
keys_of_two :
    {V : Type 0} (k : Bytes) (m n : List (Bytes × V))
    → In k (dedup (sort (keys m ++ keys n))) ⊎ ((get k m ≡ none) × (get k n ≡ none))
keys_of_two k m n =
    let back = (In-dedup-sort k (keys m ++ keys n)).1 in
    elim (get-keys k m) [
      | inl h ↦ inl (back (In-append_left k (keys m) (keys n) h))
      | inr e ↦ elim (get-keys k n) [
        | inl h ↦ inl (back (In-append_right k (keys m) (keys n) h))
        | inr e' ↦ inr (e, e')
      ]
    ]

shown-none :
    (fields : Fields) (path : Bytes)
    → get path fields ≡ none
    → shown fields path ≡ text "<step absent>"
unfolding shown
shown-none fields path e = rw (e, shown) refl

pub fields_of-none : (c : Canonical) (step : Bytes) → get step c ≡ none → fields_of c step ≡ []
unfolding fields_of
fields_of-none c step e = rw (e, fields_of) refl

-- Where neither side has the path they show the same.
absent_same :
    (o s : Fields) (path : Bytes)
    → (get path o ≡ none) × (get path s ≡ none)
    → shown o path ≡ shown s path
absent_same o s path (e, e') = shown-none o path e ∙ sym (shown-none s path e')

pub bytes_eq-false : (a b : Bytes) → a ≢ b → bytes_eq a b ≡ false
bytes_eq-false a b h = elim (Bool-cases (bytes_eq a b)) [
  | inl y ↦ absurd (h (bytes_eq→eq a b y))
  | inr n ↦ n
]

eq-bytes_eq : (a b : Bytes) → bytes_eq a b ≡ false → a ≢ b
eq-bytes_eq a b n e = cc (bytes_eq_refl a)

module _ (step : Bytes) (o s : Fields) where
  abbrev entry : Bytes → Divergence
  entry path = record { step = step; path = path; oracle = shown o path; subject = shown s path }

  In-diff_path :
      (d : Divergence) (path : Bytes)
      → In d (diff_path step o s path) ↔ ((d ≡ entry path) × (shown o path ≢ shown s path))
  unfolding diff_path
  In-diff_path d path = elim (Bool-cases (bytes_eq (shown o path) (shown s path))) [
    | inl y ↦ rw y (λ h. absurd h, λ (e, n). n (bytes_eq→eq _ _ y))
    | inr n ↦
        rw n (λ h. elim h [ inl e ↦ (e, eq-bytes_eq _ _ n) | inr t ↦ absurd t ], λ (e, k). inl e)
  ]

module _ (oracle subject : Canonical) where
  diff→Differs : (d : Divergence) → In d (diff oracle subject) → Differs oracle subject d
  unfolding diff diff_step
  diff→Differs d h =
      let (step, m, found) = (In-flat_map (diff_step oracle subject) d _).0 h in
      let o = fields_of oracle step in
      let s = fields_of subject step in
      let (path, n, here) = (In-flat_map (diff_path step o s) d _).0 found in
      let (e, apart) = (In-diff_path step o s d path).0 here in
      subst (Differs oracle subject) (sym e) (refl, refl, apart)

  apart_In :
      (d : Divergence)
      → value_at oracle d.step d.path ≢ value_at subject d.step d.path
      → In d.step (dedup (sort (keys oracle ++ keys subject)))
        × In d.path
            (dedup (sort (keys (fields_of oracle d.step) ++ keys (fields_of subject d.step))))
  apart_In d apart = (
    elim (keys_of_two d.step oracle subject) [
      | inl h ↦ h
      | inr (e, e') ↦ absurd (
          apart (
            ap (λ f. shown f d.path)
              (fields_of-none oracle d.step e ∙ sym (fields_of-none subject d.step e'))))
    ],
    elim (keys_of_two d.path (fields_of oracle d.step) (fields_of subject d.step)) [
      | inl h ↦ h
      | inr none_of ↦
          absurd (
            apart (absent_same (fields_of oracle d.step) (fields_of subject d.step) d.path none_of))
    ],
  )

  Differs→diff : (d : Divergence) → Differs oracle subject d → In d (diff oracle subject)
  unfolding diff diff_step
  Differs→diff d (p, q, ne) =
      let o = fields_of oracle d.step in
      let s = fields_of subject d.step in
      let apart : shown o d.path ≢ shown s d.path = λ e. ne (p ∙ e ∙ sym q) in
      let (in_steps, in_paths) = apart_In d apart in
      let whole : d ≡ entry d.step o s d.path =
        ap (λ v. record d { oracle = v }) p
        ∙ ap (λ v. record d { oracle = shown o d.path; subject = v }) q in
      (In-flat_map (diff_step oracle subject) d _).1 (
        d.step,
        in_steps,
        (In-flat_map (diff_path d.step o s) d _).1
            (d.path, in_paths, (In-diff_path d.step o s d d.path).1 (whole, apart)),
      )

-- `diff` reports exactly the differences: a divergence is in its list if and only if it names two
-- different values, and they are what the two traces show at its step and path, where a step or a
-- path that one trace has not is shown as absent.
pub diff-Differs :
    (oracle subject : Canonical) (d : Divergence)
    → In d (diff oracle subject) ↔ Differs oracle subject d
diff-Differs oracle subject d = (diff→Differs oracle subject d, Differs→diff oracle subject d)
