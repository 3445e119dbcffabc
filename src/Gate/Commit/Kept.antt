-- ===== src/Gate/Commit/Kept.antt =====
-- What each call of a transaction keeps, `stage` of crates/parity-gate/src/lib.rs keeps.
use client_rust_test.Base.{List, [], ◌∷◌, Bool, true, false, if◌then◌else◌, Bytes}
use client_rust_test.Base.Result.{Call, pure, Keeps, bind-Keeps}
use client_rust_test.Tikv.Client.{Client}
use client_rust_test.Gate.Batch.{Precondition, WriteBatch}
use client_rust_test.Gate.Commit.{
  LockMode, pessimistic, optimistic_locked, optimistic_unlocked, holds, locking_read, check,
  put_all, delete_all, stage,
}

if_Keeps :
    {W E A : Type 0} (P : W → Type 0) (b : Bool) (m n : Call W E A)
    → Keeps P m
    → Keeps P n
    → Keeps P (if b then m else n)
if_Keeps P true m n km kn = km
if_Keeps P false m n km kn = kn

module _ (c : Client) (t : c.Transaction) (P : c.World → Type 0)
    (get : (k : Bytes) → Keeps P (c.get t k))
    (get_for_update : (k : Bytes) → Keeps P (c.get_for_update t k))
    (lock_keys : (ks : List Bytes) → Keeps P (c.lock_keys t ks))
    (put : (k v : Bytes) → Keeps P (c.put t k v))
    (delete : (k : Bytes) → Keeps P (c.delete t k)) where
  locking_read-Keeps : (mode : LockMode) (k : Bytes) → Keeps P (locking_read c mode t k)
  unfolding locking_read
  locking_read-Keeps pessimistic k w h = get_for_update k w h
  locking_read-Keeps optimistic_locked k w h =
      bind-Keeps P (c.lock_keys t (k ∷ [])) _ (lock_keys (k ∷ [])) (λ _. get k) w h
  locking_read-Keeps optimistic_unlocked k w h = get k w h

  check-Keeps : (mode : LockMode) (pres : List Precondition) → Keeps P (check c mode t pres)
  unfolding check
  check-Keeps mode [] w h = h
  check-Keeps mode (pre ∷ pres) w h =
      let rest = check-Keeps mode pres in
      bind-Keeps P (locking_read c mode t pre.key) _ (locking_read-Keeps mode pre.key)
        (λ v. if_Keeps P (holds pre.expected v) (check c mode t pres) (pure false) rest (λ w h. h))
        w h

  put_all-Keeps : (puts : List (Bytes × Bytes)) → Keeps P (put_all c t puts)
  unfolding put_all
  put_all-Keeps [] w h = h
  put_all-Keeps ((k, v) ∷ puts) w h =
      let rest = put_all-Keeps puts in bind-Keeps P (c.put t k v) _ (put k v) (λ _. rest) w h

  delete_all-Keeps : (ks : List Bytes) → Keeps P (delete_all c t ks)
  unfolding delete_all
  delete_all-Keeps [] w h = h
  delete_all-Keeps (k ∷ ks) w h =
      let rest = delete_all-Keeps ks in bind-Keeps P (c.delete t k) _ (delete k) (λ _. rest) w h

  pub stage-Keeps : (mode : LockMode) (b : WriteBatch) → Keeps P (stage c t mode b)
  unfolding stage
  stage-Keeps mode b =
      bind-Keeps P (check c mode t b.preconditions) _ (check-Keeps mode b.preconditions) (λ held.
        if_Keeps P held _ (pure false)
          (bind-Keeps P (put_all c t b.puts) _ (put_all-Keeps b.puts) (λ _.
            bind-Keeps P (delete_all c t b.deletes) _ (delete_all-Keeps b.deletes) (λ _ w h. h)))
          (λ w h. h))
