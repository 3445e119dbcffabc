-- ===== src/Proto/Diff.antt =====
-- `diff` of crates/parity-proto/src/project.rs: where two projected traces disagree.
pub mod Exact
use client_rust_test.Base.{
  Option, none, some, List, [], ◌∷◌, ◌++◌, if◌then◌else◌, Bytes, bytes_eq, text,
}
use client_rust_test.Base.Map.{Map, get, keys, sort, dedup, flat_map}

-- Step id, then path, then value.
abbrev pub Fields : Type 0
Fields = Map Bytes

abbrev pub Canonical : Type 0
Canonical = Map Fields

pub record Divergence : Type 0 where
  pub step : Bytes
  pub path : Bytes
  pub oracle : Bytes
  pub subject : Bytes

-- `o.get(path).map_or("<step absent>", ..)`
unfoldable pub shown : Fields → Bytes → Bytes
shown fields path = elim (get path fields) [ some v ↦ v | none ↦ text "<step absent>" ]

-- `oracle.get(step).unwrap_or(&empty)`
unfoldable pub fields_of : Canonical → Bytes → Fields
fields_of c step = elim (get step c) [ some fields ↦ fields | none ↦ [] ]

unfoldable pub diff_path : Bytes → Fields → Fields → Bytes → List Divergence
unfolding shown
diff_path step o s path =
    if bytes_eq (shown o path) (shown s path)
    then []
    else record { step = step; path = path; oracle = shown o path; subject = shown s path } ∷ []

unfoldable pub diff_step : Canonical → Canonical → Bytes → List Divergence
unfolding fields_of diff_path
diff_step oracle subject step =
    let o = fields_of oracle step in
    let s = fields_of subject step in
    flat_map (diff_path step o s) (dedup (sort (keys o ++ keys s)))

unfoldable pub diff : Canonical → Canonical → List Divergence
unfolding diff_step
diff oracle subject =
    flat_map (diff_step oracle subject) (dedup (sort (keys oracle ++ keys subject)))
