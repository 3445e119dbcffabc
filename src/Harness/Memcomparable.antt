-- ===== src/Harness/Memcomparable.antt =====
-- `encode_key` and the region lookup of crates/harness/src/cluster.rs.
pub mod Order
use client_rust_test.Base.{
  ℕ, zero, suc, ◌-◌, ◌%◌, Option, none, some, List, [], ◌∷◌, ◌++◌, Bool, true, false, not, ◌&&◌,
  ◌||◌, ◌==◌, if◌then◌else◌, Bytes, bytes_lt, length, take, drop, replicate,
}

abbrev pub group : ℕ
group = 8

-- `key.chunks(GROUP)`; the first argument bounds the number of chunks.
pub chunks : ℕ → Bytes → List Bytes
chunks zero xs = []
chunks (suc f) [] = []
chunks (suc f) (x ∷ xs) = take group (x ∷ xs) ∷ chunks f (drop group (x ∷ xs))

-- The chunk, its zero padding and the marker `0xFF - pad`.
pub encode_chunk : Bytes → Bytes
encode_chunk chunk =
    let pad = group - length chunk in chunk ++ (replicate pad 0 ++ (0xff - pad) ∷ [])

pub encode_chunks : List Bytes → Bytes
unfolding encode_chunk
encode_chunks [] = []
encode_chunks (c ∷ cs) = encode_chunk c ++ encode_chunks cs

-- The last group of a key whose length is a multiple of eight is all padding.
pub closing : ℕ → Bytes
closing len = if len % group == 0 then replicate group 0 ++ (0xff - group) ∷ [] else []

-- A key has at most as many chunks as bytes.
unfoldable pub encode_key : Bytes → Bytes
unfolding chunks encode_chunks closing
encode_key key = encode_chunks (chunks (length key) key) ++ closing (length key)

-- Bounds as PD reports them, encoded; an empty one is no bound.
pub record RegionInfo : Type 0 where
  pub id : ℕ
  pub start : Bytes
  pub end : Bytes

abbrev pub is_empty {ℓ} : {A : Type ℓ} → List A → Bool
is_empty [] = true
is_empty (x ∷ xs) = false

unfoldable pub contains : RegionInfo → Bytes → Bool
contains r encoded =
    (is_empty r.start || not (bytes_lt encoded r.start))
    && (is_empty r.end || bytes_lt encoded r.end)

find_region : List RegionInfo → Bytes → Option RegionInfo
find_region [] encoded = none
find_region (r ∷ rs) encoded = if contains r encoded then some r else find_region rs encoded

unfoldable pub locate : List RegionInfo → Bytes → Option RegionInfo
unfolding find_region contains
locate snapshot key = find_region snapshot (encode_key key)
