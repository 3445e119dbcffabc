-- ===== src/Gate/Commit/Contract.antt =====
-- What the gate relies on of a transaction, as TiKV documents it, and what its callers rely on of a
-- commit.
use client_rust_test.Base.{
  ◌≡◌, ◌≢◌, Option, none, some, List, [], ◌∷◌, ◌++◌, Bool, true, false, any, All, if◌then◌else◌,
  Bytes, bytes_eq,
}
use client_rust_test.Base.Result.{ok, err}
use client_rust_test.Tikv.Error.{Error, undetermined_error}
use client_rust_test.Tikv.Client.{Client, CheckLevel}
use client_rust_test.Gate.Batch.{Precondition, WriteBatch}

abbrev pub Store : Type 0
Store = Bytes → Option Bytes

pub data Write : Type 0 where
  put : Bytes → Bytes → Write
  delete : Bytes → Write

abbrev pub write : Write → Store → Store
write (put k v) s j = if bytes_eq k j then some v else s j
write (delete k) s j = if bytes_eq k j then none else s j

-- Buffered writes land in order.
abbrev pub apply : List Write → Store → Store
apply [] s = s
apply (x ∷ xs) s = apply xs (write x s)

-- A key with the value that it must have when the transaction commits.
abbrev pub Pin : Type 0
Pin = Bytes × Option Bytes

abbrev pub Agrees : Store → List Pin → Type 0
Agrees s pins = All (λ (p : Pin). s p.0 ≡ p.1) pins

-- States that the store has been in, the latest first, and again after some calls.
abbrev pub Since : List Store → List Store → Type 0
Since before after = (newer : List Store) × (after ≡ newer ++ before)

-- The state that the laws speak of: all states that the store has been in, the latest first, and of
-- each transaction whether it is optimistic, its buffered writes, the keys that it has locked, what
-- it saw at its start, and whether its commit has landed.
pub record Laws (c : Client) : Type 0 where
  pub history : c.World → List Store
  pub optimistic : c.Transaction → Bool
  pub writes : c.World → c.Transaction → List Write
  pub pinned : c.World → c.Transaction → List Pin
  pub at_start : c.World → c.Transaction → Store
  pub landed : c.World → c.Transaction → Bool
  -- A new transaction has no writes and no locks.
  pub begin_fresh :
      (o : c.TransactionOptions) (w : c.World) (t : c.Transaction)
      → (c.begin_with_options o w).0 ≡ ok t
      → (writes (c.begin_with_options o w).1 t ≡ [])
        × (pinned (c.begin_with_options o w).1 t ≡ [])
        × (landed (c.begin_with_options o w).1 t ≡ false)
  -- It is of the kind that its options ask for.
  pub begin_optimistic :
      (l : CheckLevel) (w : c.World) (t : c.Transaction)
      → (c.begin_with_options (c.drop_check c.new_optimistic l) w).0 ≡ ok t
      → optimistic t ≡ true
  pub begin_pessimistic :
      (l : CheckLevel) (w : c.World) (t : c.Transaction)
      → (c.begin_with_options (c.drop_check c.new_pessimistic l) w).0 ≡ ok t
      → optimistic t ≡ false
  -- The locking read of a pessimistic transaction returns the latest value, which stays until the
  -- transaction ends.
  pub get_for_update_pins :
      (t : c.Transaction) (k : Bytes) (w : c.World) (v : Option Bytes)
      → optimistic t ≡ false
      → (c.get_for_update t k w).0 ≡ ok v
      → (pinned (c.get_for_update t k w).1 t ≡ (k, v) ∷ pinned w t)
        × (writes (c.get_for_update t k w).1 t ≡ writes w t)
  -- A key that is added to the lock set of an optimistic transaction is checked at its commit for a
  -- change since its start.
  pub lock_keys_pins :
      (t : c.Transaction) (k : Bytes) (w : c.World)
      → optimistic t ≡ true
      → (c.lock_keys t (k ∷ []) w).0 ≡ ok tt
      → (pinned (c.lock_keys t (k ∷ []) w).1 t ≡ (k, at_start w t k) ∷ pinned w t)
        × (writes (c.lock_keys t (k ∷ []) w).1 t ≡ writes w t)
        × (at_start (c.lock_keys t (k ∷ []) w).1 t ≡ at_start w t)
  -- With nothing buffered a plain read sees the start of the transaction.
  pub get_reads :
      (t : c.Transaction) (k : Bytes) (w : c.World) (v : Option Bytes)
      → (c.get t k w).0 ≡ ok v
      → writes w t ≡ []
      → (v ≡ at_start w t k)
        × (pinned (c.get t k w).1 t ≡ pinned w t)
        × (writes (c.get t k w).1 t ≡ [])
  pub put_buffers :
      (t : c.Transaction) (k v : Bytes) (w : c.World)
      → (c.put t k v w).0 ≡ ok tt
      → (writes (c.put t k v w).1 t ≡ writes w t ++ put k v ∷ [])
        × (pinned (c.put t k v w).1 t ≡ pinned w t)
  pub delete_buffers :
      (t : c.Transaction) (k : Bytes) (w : c.World)
      → (c.delete t k w).0 ≡ ok tt
      → (writes (c.delete t k w).1 t ≡ writes w t ++ delete k ∷ [])
        × (pinned (c.delete t k w).1 t ≡ pinned w t)
  -- A commit lands, all writes at once, on the state that the store is in at some point of the call,
  -- and that state agrees with the locks. Others may have written before it, and may write after it.
  -- The state after a commit with no writes is the same, once more.
  pub commit_lands :
      (t : c.Transaction) (w : c.World) (ts : Option c.Timestamp)
      → (c.commit t w).0 ≡ ok ts
      → (s : Store) × (older : List Store) × Agrees s (pinned w t)
        × Since (history w) (s ∷ older)
        × Since (apply (writes w t) s ∷ s ∷ older) (history (c.commit t w).1)
  -- During any other call the history only grows.
  pub begin_later :
      (o : c.TransactionOptions) (w : c.World)
      → Since (history w) (history (c.begin_with_options o w).1)
  pub get_later :
      (t : c.Transaction) (k : Bytes) (w : c.World) → Since (history w) (history (c.get t k w).1)
  pub get_for_update_later :
      (t : c.Transaction) (k : Bytes) (w : c.World)
      → Since (history w) (history (c.get_for_update t k w).1)
  pub lock_keys_later :
      (t : c.Transaction) (ks : List Bytes) (w : c.World)
      → Since (history w) (history (c.lock_keys t ks w).1)
  pub put_later :
      (t : c.Transaction) (k v : Bytes) (w : c.World)
      → Since (history w) (history (c.put t k v w).1)
  pub delete_later :
      (t : c.Transaction) (k : Bytes) (w : c.World) → Since (history w) (history (c.delete t k w).1)
  -- A commit that fails has not landed, unless its outcome is undetermined.
  pub commit_fails :
      (t : c.Transaction) (w : c.World) (e : Error)
      → (c.commit t w).0 ≡ err e
      → e ≢ undetermined_error
      → landed w t ≡ false
      → landed (c.commit t w).1 t ≡ false
  -- No other call makes it land.
  pub get_lands :
      (t : c.Transaction) (k : Bytes) (w : c.World) → landed (c.get t k w).1 t ≡ landed w t
  pub get_for_update_lands :
      (t : c.Transaction) (k : Bytes) (w : c.World)
      → landed (c.get_for_update t k w).1 t ≡ landed w t
  pub lock_keys_lands :
      (t : c.Transaction) (ks : List Bytes) (w : c.World)
      → landed (c.lock_keys t ks w).1 t ≡ landed w t
  pub put_lands :
      (t : c.Transaction) (k v : Bytes) (w : c.World) → landed (c.put t k v w).1 t ≡ landed w t
  pub delete_lands :
      (t : c.Transaction) (k : Bytes) (w : c.World) → landed (c.delete t k w).1 t ≡ landed w t
  pub rollback_lands : (t : c.Transaction) (w : c.World) → landed (c.rollback t w).1 t ≡ landed w t

-- The batch's own meaning: where all preconditions hold, and what each key has afterwards.
abbrev pub HoldsIn : Store → List Precondition → Type 0
HoldsIn s pres = All (λ (p : Precondition). p.expected ≡ s p.key) pres

-- The value of the last put of `k`, if there is one.
abbrev pub last_put : Bytes → List (Bytes × Bytes) → Option Bytes → Option Bytes
last_put k [] d = d
last_put k ((j, v) ∷ puts) d = last_put k puts (if bytes_eq j k then some v else d)

abbrev pub after_batch : WriteBatch → Store → Store
after_batch b s k = if any (λ j. bytes_eq j k) b.deletes then none else last_put k b.puts (s k)
