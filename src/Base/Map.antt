-- ===== src/Base/Map.antt =====
-- `BTreeMap<String, V>` and the sorting of strings: maps are the lists of their entries in the order
-- of the keys.
use package.client_rust_test.Base.Tests.{if◌then◌else◌, Bool-cases, if-either}
use package.client_rust_test.Base.Lists.{In, In-append, In-append_left, In-append_right}
use package.client_rust_test.Base.Order.{Bytes, bytes_eq, bytes_lt, bytes_eq→eq, bytes_eq_refl}
use mathlib.Core.Path.{◌≡◌, refl, sym, ◌∙◌, ap, subst}
use mathlib.Core.Logic.{◌⊎◌, ◌↔◌, inl, inr}
use mathlib.Core.Bool.{false, true≢false}
use mathlib.Core.Option.{Option, none, some}
use mathlib.Core.List.{List, [], ◌∷◌, ◌++◌, map}

abbrev pub Map : Type 0 → Type 0
Map V = List (Bytes × V)

pub bytes_eq_flip : (a b : Bytes) → bytes_eq a b ≡ false → bytes_eq b a ≡ false
bytes_eq_flip a b h = elim (Bool-cases (bytes_eq b a)) [
  | inl y ↦
      absurd (
        true≢false
          (sym (bytes_eq_refl a) ∙ subst (λ c. bytes_eq a c ≡ false) (bytes_eq→eq b a y) h))
  | inr n ↦ n
]

module _ {V : Type 0} where
  abbrev pub insert : Bytes → V → Map V → Map V
  insert k v [] = (k, v) ∷ []
  insert k v ((j, u) ∷ m) =
      let rest = insert k v m in
      if bytes_eq k j
      then (k, v) ∷ m
      else if bytes_lt k j
      then (k, v) ∷ (j, u) ∷ m
      else (j, u) ∷ rest

  abbrev pub get : Bytes → Map V → Option V
  get k [] = none
  get k ((j, u) ∷ m) = if bytes_eq j k then some u else get k m

  abbrev pub remove : Bytes → Map V → Map V
  remove k [] = []
  remove k ((j, u) ∷ m) = if bytes_eq j k then remove k m else (j, u) ∷ remove k m

  abbrev pub keys : Map V → List Bytes
  keys = map (λ (e : Bytes × V). e.0)

  -- A key that no entry has.
  pub get-keys : (k : Bytes) (m : Map V) → In k (keys m) ⊎ (get k m ≡ none)
  get-keys k [] = inr refl
  get-keys k ((j, u) ∷ m) = elim (Bool-cases (bytes_eq j k)) [
    | inl y ↦ inl (inl (sym (bytes_eq→eq j k y)))
    | inr n ↦ elim (get-keys k m) [ inl h ↦ inl (inr h) | inr e ↦ inr (rw n e) ]
  ]

  pub get-insert_self : (k : Bytes) (v : V) (m : Map V) → get k (insert k v m) ≡ some v
  get-insert_self k v [] = rw (bytes_eq_refl k) refl
  get-insert_self k v ((j, u) ∷ m) = elim (Bool-cases (bytes_eq k j)) [
    | inl y ↦ rw (y, bytes_eq_refl k) refl
    | inr n ↦ elim (Bool-cases (bytes_lt k j)) [
      | inl l ↦ rw (n, l, bytes_eq_refl k) refl
      | inr g ↦ rw (n, g, bytes_eq_flip k j n) (get-insert_self k v m)
    ]
  ]

  pub get-insert_ne :
      (k j : Bytes) (v : V) (m : Map V) → bytes_eq j k ≡ false → get k (insert j v m) ≡ get k m
  get-insert_ne k j v [] h = rw h refl
  get-insert_ne k j v ((i, u) ∷ m) h = elim (Bool-cases (bytes_eq j i)) [
    | inl y ↦ rw (y, h, sym (bytes_eq→eq j i y), h) refl
    | inr n ↦ elim (Bool-cases (bytes_lt j i)) [
      | inl l ↦ rw (n, l, h) refl
      | inr g ↦ rw (n, g, get-insert_ne k j v m h) refl
    ]
  ]

  pub get-remove_self : (k : Bytes) (m : Map V) → get k (remove k m) ≡ none
  get-remove_self k [] = refl
  get-remove_self k ((j, u) ∷ m) = elim (Bool-cases (bytes_eq j k)) [
    | inl y ↦ rw y (get-remove_self k m)
    | inr n ↦ rw (n, n) (get-remove_self k m)
  ]

  pub get-remove_ne :
      (k j : Bytes) (m : Map V) → bytes_eq j k ≡ false → get k (remove j m) ≡ get k m
  get-remove_ne k j [] h = refl
  get-remove_ne k j ((i, u) ∷ m) h = elim (Bool-cases (bytes_eq i j)) [
    | inl y ↦
        rw (y, subst (λ x. bytes_eq x k ≡ false) (sym (bytes_eq→eq i j y)) h)
          (get-remove_ne k j m h)
    | inr n ↦ elim (Bool-cases (bytes_eq i k)) [
      | inl e ↦ rw (n, e) refl
      | inr f ↦ rw (n, f) (get-remove_ne k j m h)
    ]
  ]

  -- Removing a key that is not there changes nothing.
  pub remove-none : (k : Bytes) (m : Map V) → get k m ≡ none → remove k m ≡ m
  remove-none k [] h = refl
  remove-none k ((j, u) ∷ m) h = elim (Bool-cases (bytes_eq j k)) [
    | inl y ↦ absurd (found (subst (λ b. (if b then some u else get k m) ≡ none) y h))
    | inr n ↦ rw n (
        ap (λ r. (j, u) ∷ r)
          (remove-none k m (subst (λ b. (if b then some u else get k m) ≡ none) n h)))
  ]
    where
      found : some u ≡ none → ⊥
      found e = cc

  -- The keys after an insertion.
  pub In-keys-insert :
      (a k : Bytes) (v : V) (m : Map V) → In a (keys (insert k v m)) ↔ ((a ≡ k) ⊎ In a (keys m))
  In-keys-insert a k v [] = (λ h. h, λ h. h)
  In-keys-insert a k v ((j, u) ∷ m) = elim (Bool-cases (bytes_eq k j)) [
    | inl y ↦ rw y (
      λ h. elim h [ inl e ↦ inl e | inr t ↦ inr (inr t) ],
      λ h. elim h [
        | inl e ↦ inl e
        | inr t ↦ elim t [ inl e ↦ inl (e ∙ sym (bytes_eq→eq k j y)) | inr q ↦ inr q ]
      ],
    )
    | inr n ↦ elim (Bool-cases (bytes_lt k j)) [
      | inl l ↦ rw (n, l) (λ h. h, λ h. h)
      | inr g ↦
          rw (n, g)
            (
              λ h. elim h [
                | inl e ↦ inr (inl e)
                | inr t ↦ elim ((In-keys-insert a k v m).0 t) [
                  | inl e ↦ inl e
                  | inr q ↦ inr (inr q)
                ]
              ],
              λ h. elim h [
                | inl e ↦ inr ((In-keys-insert a k v m).1 (inl e))
                | inr t ↦ elim t [
                  | inl e ↦ inl e
                  | inr q ↦ inr ((In-keys-insert a k v m).1 (inr q))
                ]
              ],
            )
    ]
  ]

  -- What a map gives, it has an entry for.
  pub get_In : (k : Bytes) (m : Map V) (v : V) → get k m ≡ some v → In (k, v) m
  get_In k [] v h = absurd (cc)
  get_In k ((j, u) ∷ m) v h = elim (Bool-cases (bytes_eq j k)) [
    | inl y ↦ first (bytes_eq→eq j k y) (subst (λ b. (if b then some u else get k m) ≡ some v) y h)
    | inr n ↦ inr (get_In k m v (subst (λ b. (if b then some u else get k m) ≡ some v) n h))
  ]
    where
      first : (j ≡ k) → (some u ≡ some v) → In (k, v) ((j, u) ∷ m)
      first p q = let same : (u ≡ v) = cc in inl (sym (rw (p, same) refl))

abbrev pub insert_sorted : Bytes → List Bytes → List Bytes
insert_sorted x [] = x ∷ []
insert_sorted x (y ∷ ys) = if bytes_lt y x then y ∷ insert_sorted x ys else x ∷ y ∷ ys

-- `sort`
abbrev pub sort : List Bytes → List Bytes
sort [] = []
sort (x ∷ xs) = insert_sorted x (sort xs)

-- `dedup`: of equal neighbours one is left.
abbrev pub dedup : List Bytes → List Bytes
dedup [] = []
dedup (x ∷ []) = x ∷ []
dedup (x ∷ y ∷ ys) = let rest = dedup (y ∷ ys) in if bytes_eq x y then rest else x ∷ rest

In-insert_sorted : (a x : Bytes) (ys : List Bytes) → In a (insert_sorted x ys) ↔ ((a ≡ x) ⊎ In a ys)
In-insert_sorted a x [] = (λ h. h, λ h. h)
In-insert_sorted a x (y ∷ ys) =
    let ih = In-insert_sorted a x ys in
    if-either (λ zs. In a zs ↔ ((a ≡ x) ⊎ ((a ≡ y) ⊎ In a ys))) (bytes_lt y x)
      (y ∷ insert_sorted x ys) (x ∷ y ∷ ys)
      (
        λ h. elim h [
          | inl e ↦ inr (inl e)
          | inr t ↦ elim (ih.0 t) [ inl e ↦ inl e | inr u ↦ inr (inr u) ]
        ],
        λ h. elim h [
          | inl e ↦ inr (ih.1 (inl e))
          | inr t ↦ elim t [ inl e ↦ inl e | inr u ↦ inr (ih.1 (inr u)) ]
        ],
      )
      (λ h. h, λ h. h)

In-sort : (a : Bytes) (xs : List Bytes) → In a (sort xs) ↔ In a xs
In-sort a [] = (λ h. h, λ h. h)
In-sort a (x ∷ xs) =
    let ih = In-sort a xs in
    let step = In-insert_sorted a x (sort xs) in
    (
      λ h. elim (step.0 h) [ inl e ↦ inl e | inr t ↦ inr (ih.0 t) ],
      λ h. step.1 (elim h [ inl e ↦ inl e | inr t ↦ inr (ih.1 t) ]),
    )

In-dedup : (a : Bytes) (xs : List Bytes) → In a (dedup xs) ↔ In a xs
In-dedup a [] = (λ h. h, λ h. h)
In-dedup a (x ∷ []) = (λ h. h, λ h. h)
In-dedup a (x ∷ y ∷ ys) =
    let ih = In-dedup a (y ∷ ys) in
    elim (Bool-cases (bytes_eq x y)) [
      | inl e ↦ rw e (
        λ h. inr (ih.0 h),
        λ h. elim h [ inl q ↦ ih.1 (inl (q ∙ bytes_eq→eq x y e)) | inr t ↦ ih.1 t ],
      )
      | inr n ↦ rw n (
        λ h. elim h [ inl q ↦ inl q | inr t ↦ inr (ih.0 t) ],
        λ h. elim h [ inl q ↦ inl q | inr t ↦ inr (ih.1 t) ],
      )
    ]

-- Sorting and `dedup` keep the members.
pub In-dedup-sort : (a : Bytes) (xs : List Bytes) → In a (dedup (sort xs)) ↔ In a xs
In-dedup-sort a xs = (
  λ h. (In-sort a xs).0 ((In-dedup a (sort xs)).0 h),
  λ h. (In-dedup a (sort xs)).1 ((In-sort a xs).1 h),
)

abbrev pub flat_map : {A B : Type 0} → (A → List B) → List A → List B
flat_map f [] = []
flat_map f (x ∷ xs) = f x ++ flat_map f xs

pub In-flat_map :
    {A B : Type 0} (f : A → List B) (b : B) (xs : List A)
    → In b (flat_map f xs) ↔ ((a : A) × In a xs × In b (f a))
In-flat_map f b [] = (λ h. absurd h, λ (a, m, h). m)
In-flat_map f b (x ∷ xs) = (
  λ h. elim (In-append b (f x) (flat_map f xs) h) [
    | inl l ↦ (x, inl refl, l)
    | inr r ↦ let (a, m, q) = (In-flat_map f b xs).0 r in (a, inr m, q)
  ],
  λ (a, m, q). elim m [
    | inl e ↦ In-append_left b (f x) (flat_map f xs) (subst (λ y. In b (f y)) e q)
    | inr t ↦ In-append_right b (f x) (flat_map f xs) ((In-flat_map f b xs).1 (a, t, q))
  ],
)
