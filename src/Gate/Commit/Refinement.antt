-- ===== src/Gate/Commit/Refinement.antt =====
-- `commit` against its contract in crates/parity-gate/src/traits.rs: all of a batch on a state where
-- its preconditions hold, or nothing.
use mathlib.Core.Path.{subst}
use client_rust_test.Base.{
  ◌≡◌, ◌≢◌, refl, ◌∙◌, sym, ap, Option, none, List, [], ◌∷◌, ◌++◌, map, Bool, true, false, any,
  append_assoc, if◌then◌else◌, Bytes, bytes_eq, arith,
}
use client_rust_test.Base.Result.{Result, ok, err, bind_ok, Keeps}
use client_rust_test.Tikv.Error.{Error, undetermined_error}
use client_rust_test.Tikv.Client.{Client}
use client_rust_test.Gate.Batch.{committed, conflict, WriteBatch}
use client_rust_test.Gate.Race.{is_lost_race}
use client_rust_test.Gate.Commit.{
  LockMode, optimistic_unlocked, txn_options, stage, finish, settle, commit, commit_failed,
  lost_race,
}
use client_rust_test.Gate.Commit.Contract.{
  Store, Write, put, delete, write, apply, Since, Laws, HoldsIn, last_put, after_batch,
}
use client_rust_test.Gate.Commit.Stage.{
  put_writes, batch_writes, Staged, stage-Staged, txn_options-Fits,
}
use client_rust_test.Gate.Commit.Kept.{stage-Keeps}

apply-append : (xs ys : List Write) (s : Store) → apply (xs ++ ys) s ≡ apply ys (apply xs s)
apply-append [] ys s = refl
apply-append (x ∷ xs) ys s = apply-append xs ys (write x s)

apply-puts :
    (puts : List (Bytes × Bytes)) (s : Store) (k : Bytes)
    → apply (map (λ (p : Bytes × Bytes). put p.0 p.1) puts) s k ≡ last_put k puts (s k)
apply-puts [] s k = refl
apply-puts ((j, v) ∷ puts) s k = apply-puts puts (write (put j v) s) k

apply-deletes :
    (ks : List Bytes) (s : Store) (k : Bytes)
    → apply (map delete ks) s k ≡ (if any (λ j. bytes_eq j k) ks then none else s k)
apply-deletes [] s k = refl
apply-deletes (j ∷ ks) s k = ground (arith, apply-deletes ks (write (delete j) s) k)

apply-batch_writes :
    (b : WriteBatch) (s : Store) (k : Bytes) → apply (batch_writes b) s k ≡ after_batch b s k
apply-batch_writes b s k =
    ap (λ r. r k) (apply-append (put_writes b.puts) (map delete b.deletes) s)
    ∙ apply-deletes b.deletes (apply (put_writes b.puts) s) k
    ∙ ap (λ r. if any (λ j. bytes_eq j k) b.deletes then none else r) (apply-puts b.puts s k)

module _ (c : Client) (laws : Laws c) where
  open laws use {history, writes}

  -- From the history `before` to the one of `w`, the store was in a state in which the preconditions
  -- of the batch hold, and directly after in the state that the batch makes of it.
  abbrev pub Landed : WriteBatch → List Store → c.World → Type 0
  Landed b before w =
      (s : Store) × (s' : Store) × (older : List Store) × Since before (s ∷ older)
      × Since (s' ∷ s ∷ older) (history w)
      × HoldsIn s b.preconditions
      × ((k : Bytes) → s' k ≡ after_batch b s k)

  Since-trans : (x y z : List Store) → Since x y → Since y z → Since x z
  Since-trans x y z (n, p) (m, q) = (m ++ n, q ∙ ap (λ h. m ++ h) p ∙ sym (append_assoc m n x))

  stage-Since :
      (before : List Store) (mode : LockMode) (t : c.Transaction) (b : WriteBatch)
      → Keeps (λ w. Since before (history w)) (stage c t mode b)
  stage-Since before mode t b =
      stage-Keeps c t (λ w. Since before (history w))
        (λ k w h. Since-trans _ _ _ h (laws.get_later t k w))
        (λ k w h. Since-trans _ _ _ h (laws.get_for_update_later t k w))
        (λ ks w h. Since-trans _ _ _ h (laws.lock_keys_later t ks w))
        (λ k v w h. Since-trans _ _ _ h (laws.put_later t k v w))
        (λ k w h. Since-trans _ _ _ h (laws.delete_later t k w)) mode b

  lost_race_committed : (e : Error) → lost_race c e ≢ ok committed
  lost_race_committed e = go (is_lost_race e)
    where
      go : (b : Bool) → (if b then ok conflict else err e) ≢ ok committed
      go true h = cc
      go false h = cc

  commit_failed_committed :
      (t : c.Transaction) (e : Error) (w : c.World) → (commit_failed c t e w).0 ≢ ok committed
  unfolding commit_failed
  commit_failed_committed t undetermined_error w h = cc
  commit_failed_committed t e w h = lost_race_committed e h

  finish-Landed :
      (t : c.Transaction) (b : WriteBatch) (before : List Store) (w : c.World)
      → Staged c laws b t w
      → Since before (history w)
      → (r : Result Error (Option c.Timestamp)) → (c.commit t w).0 ≡ r
      → (finish c t r (c.commit t w).1).0 ≡ ok committed
      → Landed b before (finish c t r (c.commit t w).1).1
  unfolding finish
  finish-Landed t b before w (same, held) since (ok ts) e h =
      let (s, older, agrees, on, now) = laws.commit_lands t w ts e in
      (
        s,
        apply (writes w t) s,
        older,
        Since-trans before (history w) (s ∷ older) since on,
        now,
        held s agrees,
        λ k. ap (λ ws. apply ws s k) same ∙ apply-batch_writes b s k,
      )
  finish-Landed t b before w (same, held) since (err x) e h =
      absurd (commit_failed_committed t x _ h)

  settle-Landed :
      (t : c.Transaction) (b : WriteBatch) (before : List Store) (w : c.World)
      (r : Result Error Bool)
      → (r ≡ ok true → Staged c laws b t w)
      → Since before (history w)
      → (settle c t r w).0 ≡ ok committed
      → Landed b before (settle c t r w).1
  unfolding settle
  settle-Landed t b before w (ok true) st since h =
      finish-Landed t b before w (st refl) since (c.commit t w).0 refl h
  settle-Landed t b before w (ok false) st since h = absurd (cc)
  settle-Landed t b before w (err e) st since h = absurd (lost_race_committed e h)

  -- On a client that keeps the laws of Gate.Commit.Contract, in a locking mode, let `commit` answer
  -- `Committed`. Then the store was, at some point of the call, in a state `s` in which every
  -- precondition held, and the state directly after it gives each key the value that `after_batch`
  -- gives it from `s`: all puts and deletes of the batch, and every other key as it was. What the
  -- store has been in before the call stays as it was, and others may write before `s` and after.
  pub commit-committed :
      (mode : LockMode) (b : WriteBatch) (w : c.World)
      → mode ≢ optimistic_unlocked
      → (commit c mode b w).0 ≡ ok committed
      → Landed b (history w) (commit c mode b w).1
  unfolding commit
  commit-committed mode b w m h =
      let (t, began, same) = bind_ok (c.begin_with_options (txn_options c mode)) _ w committed h in
      let fresh = (laws.begin_fresh (txn_options c mode) w t began).0 in
      let w1 = (c.begin_with_options (txn_options c mode) w).1 in
      subst (λ r. Landed b (history w) r.1) (sym same)
        (settle-Landed t b (history w) (stage c t mode b w1).1 (stage c t mode b w1).0
          (stage-Staged c laws mode t b w1 (txn_options-Fits c laws mode w t m began) fresh)
          (stage-Since (history w) mode t b w1 (laws.begin_later (txn_options c mode) w))
          (ap (λ r. r.0) (sym same) ∙ h))
