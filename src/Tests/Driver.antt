-- ===== src/Tests/Driver.antt =====
-- The Rust driver at concrete inputs, over a client all of whose calls succeed.
use client_rust_test.Base.{
  ℕ, ◌≡◌, refl, none, some, List, [], ◌∷◌, true, false, Bytes, text, if◌then◌else◌, bytes_eq,
  is_blank, arith,
}
use client_rust_test.Base.Map.{get}
use client_rust_test.Base.Result.{Result, ok, err}
use client_rust_test.Proto.Observation.{Observation}
use client_rust_test.Proto.Command.{Command, KeyArg, TxnMode, bytes}
use client_rust_test.Driver.Probe.{Api, Build}
use client_rust_test.Driver.Exec.{Driver, new_driver, execute}
use client_rust_test.Driver.Exec.Open.{is_some}
use client_rust_test.Driver.Exec.Log.{serve, open_in, serve-open_in}
use client_rust_test.Driver.Exec.Unknown.{Refused, execute-Unknown}
use client_rust_test.Driver.Exec.Shape.{HasAnswer}
use client_rust_test.Driver.Exec.Shape.Arms.{execute-HasAnswer}
use client_rust_test.Driver.Exec.Scan.{Scanned, execute-Scanned}
use client_rust_test.Tests.Paging.{regions, scan_locks, answers}

abbrev api : Api
api = record {
  World = Unit;
  TransactionClient = Unit;
  RawClient = Unit;
  Transaction = Unit;
  Timestamp = ℕ;
  TransactionOptions = Unit;
  Snapshot = Unit;
  new_client = λ w. (ok tt, w);
  new_raw_client = λ w. (ok tt, w);
  new_pessimistic = tt;
  new_optimistic = tt;
  drop_check = λ options level. options;
  begin_with_options = λ c options w. (ok tt, w);
  start_timestamp = λ txn. 7;
  version = λ ts. ts;
  put = λ txn key value w. (ok tt, w);
  get = λ txn key w. (ok none, w);
  commit = λ txn w. (ok (some 8), w);
  rollback = λ txn w. (ok tt, w);
  current_timestamp = λ c w. (ok 9, w);
  snapshot = λ c ts options. tt;
  snapshot_get = λ snap key w. (ok none, w);
  scan_locks = λ c ts start end n w. scan_locks start end n w;
  raw_put = λ c key value w. (ok tt, w);
  prewrite = λ txn primary ttl keys w. (some (ok tt), w);
  checksum = λ c start end w. (none, w);
  display = λ e. [];
  debug = λ e. [];
  debug_key_error = λ ke. [];
}

abbrev build : Build
build = record { test_probes = true; pre_raw_checksum = false }

abbrev from_str : Bytes → Result Bytes Command
from_str line =
    if bytes_eq line (text "open")
    then ok (Command.open_client (text "c"))
    else if bytes_eq line (text "begin")
    then ok (Command.begin (text "s") (text "c") TxnMode.optimistic)
    else if bytes_eq line (text "commit")
    then ok (Command.commit (text "s"))
    else err []

abbrev lines : List Bytes
lines = text "open" ∷ text "begin" ∷ text "?" ∷ []

serve-open_in_example :
    is_some
      (get (text "s") (serve build api 3 from_str lines (new_driver build api 3, tt)).1.0.txns)
    ≡ open_in build api 3 from_str
        (text "s")
        (serve build api 3 from_str lines (new_driver build api 3, tt)).0
        false
serve-open_in_example = serve-open_in build api 3 from_str (text "s") lines tt

-- The session of those lines is open at their end, and closed by a commit.
lines-open :
    is_some
      (get (text "s") (serve build api 3 from_str lines (new_driver build api 3, tt)).1.0.txns)
    ≡ true
unfolding serve execute is_blank text bytes_eq
lines-open = refl

execute-Unknown_example :
    (obs : Observation) × (execute build api 3
        (Command.commit (text "s"))
        (new_driver build api 3, tt)
      ≡ (record { hello = none; observation = some obs }, (new_driver build api 3, tt)))
    × Refused build api 3 false obs
execute-Unknown_example =
    execute-Unknown build api 3 (Command.commit (text "s")) (new_driver build api 3) tt refl

abbrev with_client : Driver build api 3
with_client = record { clients = (text "c", tt) ∷ []; raw_clients = []; txns = [] }

abbrev lowest : KeyArg
lowest = KeyArg.utf8 []

abbrev highest : KeyArg
highest = KeyArg.utf8 (20 ∷ [])

execute-Scanned_example :
    Scanned regions []
      (20 ∷ [])
      (execute build api 3
        (Command.scan_locks (text "c") lowest highest 1)
        (with_client, tt)).0.observation
unfolding bytes text bytes_eq
execute-Scanned_example =
    execute-Scanned build api 3 regions ((tt, tt), ((tt, tt), tt)) 1 (omega arith) lowest highest tt
      (λ ts cursor w batch h. answers cursor w batch h) (text "c") with_client tt refl (omega arith)

execute-HasAnswer_example :
    HasAnswer
      (Command.begin (text "s") (text "c") TxnMode.pessimistic)
      (execute build api 3
        (Command.begin (text "s") (text "c") TxnMode.pessimistic)
        (with_client, tt)).0
execute-HasAnswer_example =
    execute-HasAnswer build api 3 (Command.begin (text "s") (text "c") TxnMode.pessimistic)
      (with_client, tt)
