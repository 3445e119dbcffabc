-- ===== src/Proto/Command.antt =====
-- The commands of crates/parity-proto/src/command.rs and their byte-string arguments.
pub mod Namespace
pub mod Placed
use client_rust_test.Base.{
  ℕ, Option, none, some, List, [], ◌∷◌, ◌++◌, Bool, true, false, if◌then◌else◌, Bytes, text,
}
use client_rust_test.Proto.Base64.{b64_encode, b64_decode}
use client_rust_test.Proto.Project.{replace_from, occurs}

pub data TxnMode : Type 0 where
  optimistic pessimistic : TxnMode

-- Text, or base64.
pub data KeyArg : Type 0 where
  utf8 : Bytes → KeyArg
  b64 : Bytes → KeyArg

-- The fields of a `RawKeyArg`: exactly one of them makes an argument.
unfoldable pub try_from : Option Bytes → Option Bytes → Option KeyArg
try_from (some s) none = some (utf8 s)
try_from none (some b) = some (b64 b)
try_from _ _ = none

pub data Command : Type 0 where
  hello : Command
  open_client : (name : Bytes) → Command
  close_client : (name : Bytes) → Command
  begin : (session client : Bytes) → TxnMode → Command
  put : (session : Bytes) (key value : KeyArg) → Command
  get : (session : Bytes) (key : KeyArg) → Command
  commit : (session : Bytes) → Command
  rollback : (session : Bytes) → Command
  snapshot_get : (client : Bytes) (key : KeyArg) → Command
  scan_locks : (client : Bytes) (start end : KeyArg) (batch_size : ℕ) → Command
  prewrite_only : (session : Bytes) (primary : KeyArg) (keys : List KeyArg) → Command
  abandon : (session : Bytes) → Command
  open_raw_client : (name : Bytes) → Command
  raw_put : (client : Bytes) (key value : KeyArg) → Command
  raw_checksum : (client : Bytes) (start end : KeyArg) → Command

unfoldable pub args : Command → List KeyArg
args (put session key value) = key ∷ value ∷ []
args (raw_put client key value) = key ∷ value ∷ []
args (get session key) = key ∷ []
args (snapshot_get client key) = key ∷ []
args (scan_locks client start end batch_size) = start ∷ end ∷ []
args (raw_checksum client start end) = start ∷ end ∷ []
args (prewrite_only session primary keys) = primary ∷ keys
args hello = []
args (open_client name) = []
args (close_client name) = []
args (open_raw_client name) = []
args (begin session client mode) = []
args (commit session) = []
args (rollback session) = []
args (abandon session) = []

abbrev pub or_default : Option Bytes → Bytes
or_default (some v) = v
or_default none = []

abbrev is_ok : Option Bytes → Bool
is_ok (some v) = true
is_ok none = false

-- Whether `KeyArg::validate` answers `Ok`.
unfoldable pub validate : KeyArg → Bool
validate (utf8 s) = true
validate (b64 b) = is_ok (b64_decode b)

unfoldable pub bytes : KeyArg → Bytes
bytes (utf8 s) = s
bytes (b64 b) = or_default (b64_decode b)

abbrev pub token : Bytes
token = text "{P}"

-- `s.replace("{P}", prefix)`
abbrev pub fill_in : Bytes → Bytes → Bytes
fill_in prefix s = replace_from token prefix 0 s

unfoldable pub as_key : KeyArg → Bytes → KeyArg
as_key (utf8 s) prefix = utf8 (if occurs token s then fill_in prefix s else prefix ++ s)
as_key (b64 b) prefix = b64 (b64_encode (prefix ++ or_default (b64_decode b)))

unfoldable pub as_value : KeyArg → Bytes → KeyArg
as_value (utf8 s) prefix = utf8 (fill_in prefix s)
as_value (b64 b) prefix = b64 b
