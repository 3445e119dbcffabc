-- ===== src/Proto/Command/Placed.antt =====
-- Where the prefix of a run stands in its keys: `KeyArg::as_key` of crates/parity-proto/src/command.rs.
use client_rust_test.Base.{◌≡◌, ◌⊎◌, List, ◌∷◌, ◌++◌, false, Bytes, All}
use client_rust_test.Proto.Project.{occurs, join}
use client_rust_test.Proto.Command.{KeyArg, bytes, token, fill_in}
use client_rust_test.Proto.Command.Namespace.{has_token}

abbrev pub Free : Bytes → Type 0
Free piece = occurs token piece ≡ false

-- Text with the token is made of pieces without it, two at least, joined by the token; in the key
-- they are joined by the prefix. Before any other argument's bytes the prefix is put.
abbrev pub Placed : Bytes → KeyArg → Bytes → Type 0
Placed prefix arg key =
    ((has_token arg ≡ false) × (key ≡ prefix ++ bytes arg))
    ⊎ ((first : Bytes) × (second : Bytes) × (more : List Bytes) × All Free (first ∷ second ∷ more)
        × (bytes arg ≡ join token (first ∷ second ∷ more))
        × (key ≡ join prefix (first ∷ second ∷ more)))

abbrev Pieces : Bytes → Bytes → Type 0
Pieces prefix s =
    (p : Bytes) × (ps : List Bytes) × All Free (p ∷ ps)
    × (s ≡ join token (p ∷ ps))
    × (fill_in prefix s ≡ join prefix (p ∷ ps))
