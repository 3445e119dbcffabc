-- ===== src/Gate/Batch.antt =====
-- The write batch of crates/parity-gate/src/traits.rs and its builder.
use client_rust_test.Base.{Option, none, some, List, [], ◌∷◌, ◌++◌, Bytes}

pub data CommitOutcome : Type 0 where
  committed conflict : CommitOutcome

pub record Precondition : Type 0 where
  pub key : Bytes
  pub expected : Option Bytes

pub record WriteBatch : Type 0 where
  pub preconditions : List Precondition
  pub puts : List (Bytes × Bytes)
  pub deletes : List Bytes

abbrev pub empty_batch : WriteBatch
empty_batch = record { preconditions = []; puts = []; deletes = [] }

abbrev pub require : WriteBatch → Bytes → Bytes → WriteBatch
require b k v = record b {
  preconditions = b.preconditions ++ record { key = k; expected = some v } ∷ [];
}

abbrev pub require_absent : WriteBatch → Bytes → WriteBatch
require_absent b k = record b {
  preconditions = b.preconditions ++ record { key = k; expected = none } ∷ [];
}

abbrev pub put : WriteBatch → Bytes → Bytes → WriteBatch
put b k v = record b { puts = b.puts ++ (k, v) ∷ [] }

abbrev pub delete : WriteBatch → Bytes → WriteBatch
delete b k = record b { deletes = b.deletes ++ k ∷ [] }
