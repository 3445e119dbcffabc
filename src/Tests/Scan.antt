-- ===== src/Tests/Scan.antt =====
-- A client with one snapshot, and a scan of it.
use client_rust_test.Base.{◌≡◌, refl, sym, [], ◌∷◌, IsByte, bytes_lt, take, keep, All, arith}
use client_rust_test.Base.Result.{Result, Call, ok, err}
use client_rust_test.Tikv.Error.{Error, unimplemented}
use client_rust_test.Tikv.Client.{Client, range_holds}
use client_rust_test.Gate.Prefix.{starts_with}
use client_rust_test.Gate.Scan.{scan, snapshot}
use client_rust_test.Gate.Scan.Pages.{Rows, InOrder}
use client_rust_test.Gate.Scan.Complete.{Finds, scan-Finds}

abbrev shelf_rows : Rows
shelf_rows =
    (1 ∷ [], 10 ∷ []) ∷ (2 ∷ 7 ∷ [], 20 ∷ []) ∷ (2 ∷ 255 ∷ [], 30 ∷ []) ∷ (3 ∷ [], 40 ∷ []) ∷ []

abbrev refuse : {A : Type 0} → Call (Unit {0}) Error A
refuse w = (err unimplemented, w)

abbrev shelf : Client
shelf = record {
  World = Unit;
  Timestamp = Unit;
  TransactionOptions = Unit;
  Transaction = Unit;
  Snapshot = Unit;
  new_pessimistic = tt;
  new_optimistic = tt;
  drop_check = λ o l. o;
  read_only = λ o. o;
  current_timestamp = λ w. (ok tt, w);
  snapshot = λ ts o. tt;
  snapshot_get = λ s k. refuse;
  snapshot_scan = λ s r n w. (ok (take n (keep (λ p. range_holds r p.0) shelf_rows)), w);
  begin_with_options = λ o. refuse;
  get = λ t k. refuse;
  get_for_update = λ t k. refuse;
  lock_keys = λ t ks. refuse;
  put = λ t k v. refuse;
  delete = λ t k. refuse;
  commit = λ t. refuse;
  rollback = λ t. refuse;
}

abbrev okay : Rows → Result Error Rows
okay = ok

ok-injective : {a b : Rows} → okay a ≡ okay b → a ≡ b
ok-injective h = cc

shelf_rows-InOrder : InOrder shelf_rows
unfolding bytes_lt
shelf_rows-InOrder = ((refl, (refl, (refl, tt))), ((refl, (refl, tt)), ((refl, tt), (tt, tt))))

shelf_rows-IsByte : All (λ p. All IsByte p.0) shelf_rows
shelf_rows-IsByte = (
  (omega arith, tt),
  ((omega arith, (omega arith, tt)), ((omega arith, (omega arith, tt)), ((omega arith, tt), tt))),
)

scan-Finds_example :
    Finds (keep (λ p. starts_with (2 ∷ []) p.0) shelf_rows) (scan shelf 5 (2 ∷ []) tt).0
unfolding snapshot
scan-Finds_example =
    scan-Finds shelf (λ s. shelf_rows) (λ s. shelf_rows-InOrder)
      (λ s r n w page h. sym (ok-injective h)) (λ s. shelf_rows-IsByte) 5 (2 ∷ []) tt tt
      (omega arith, tt) refl (omega arith)
