-- ===== src/Gate/Commit/Conflict.antt =====
-- What `commit` promises where it does not answer `Committed`.
use mathlib.Core.Path.{subst}
use client_rust_test.Base.{◌≡◌, ◌≢◌, refl, ◌∙◌, sym, Option, Bool, true, false}
use client_rust_test.Base.Result.{Result, ok, err, bind_step, Keeps}
use client_rust_test.Tikv.Error.{Error, undetermined_error}
use client_rust_test.Tikv.Client.{Client}
use client_rust_test.Gate.Batch.{CommitOutcome, committed, WriteBatch}
use client_rust_test.Gate.Commit.{
  LockMode, txn_options, stage, finish, settle, commit, commit_failed, rollback_quietly,
}
use client_rust_test.Gate.Commit.Kept.{stage-Keeps}
use client_rust_test.Gate.Commit.Contract.{Laws}

module _ (c : Client) (laws : Laws c) where
  open laws use {landed}

  abbrev Open : c.Transaction → c.World → Type 0
  Open t w = landed w t ≡ false

  stage-Open :
      (mode : LockMode) (t : c.Transaction) (b : WriteBatch) → Keeps (Open t) (stage c t mode b)
  stage-Open mode t b =
      stage-Keeps c t (Open t) (λ k w h. laws.get_lands t k w ∙ h)
        (λ k w h. laws.get_for_update_lands t k w ∙ h) (λ ks w h. laws.lock_keys_lands t ks w ∙ h)
        (λ k v w h. laws.put_lands t k v w ∙ h) (λ k w h. laws.delete_lands t k w ∙ h) mode b

  rollback_keeps : (t : c.Transaction) (w : c.World) → Open t w → Open t (rollback_quietly c t w)
  unfolding rollback_quietly
  rollback_keeps t w h = laws.rollback_lands t w ∙ h

  -- Any answer but these two says that nothing has changed.
  abbrev Unchanged : Result Error CommitOutcome → Type 0
  Unchanged r = (r ≢ ok committed) × (r ≢ err undetermined_error)

  commit_failed_keeps :
      (t : c.Transaction) (e : Error) (w : c.World)
      → (e ≢ undetermined_error → Open t w)
      → Unchanged (commit_failed c t e w).0
      → Open t (commit_failed c t e w).1
  unfolding commit_failed
  commit_failed_keeps t undetermined_error w f (a, b) = absurd (b refl)
  commit_failed_keeps t e w f u = rollback_keeps t w (f (λ x. cc))

  finish_keeps :
      (t : c.Transaction) (w : c.World) (r : Result Error (Option c.Timestamp))
      → (c.commit t w).0 ≡ r
      → Open t w
      → Unchanged (finish c t r (c.commit t w).1).0
      → Open t (finish c t r (c.commit t w).1).1
  unfolding finish
  finish_keeps t w (ok ts) e h u = absurd (u.0 refl)
  finish_keeps t w (err x) e h u =
      commit_failed_keeps t x (c.commit t w).1 (λ d. laws.commit_fails t w x e d h) u

  settle_keeps :
      (t : c.Transaction) (w : c.World) (r : Result Error Bool)
      → Open t w
      → Unchanged (settle c t r w).0
      → Open t (settle c t r w).1
  unfolding settle
  settle_keeps t w (ok true) h u = finish_keeps t w (c.commit t w).0 refl h u
  settle_keeps t w (ok false) h u = rollback_keeps t w h
  settle_keeps t w (err e) h u = rollback_keeps t w h

  -- On a client that keeps the laws of Gate.Commit.Contract, in every mode: where `commit` began a
  -- transaction and answers neither `Committed` nor the undetermined error, so also where it answers
  -- `Conflict`, that transaction has not landed.
  pub commit-conflict :
      (mode : LockMode) (b : WriteBatch) (w : c.World) (t : c.Transaction)
      → (c.begin_with_options (txn_options c mode) w).0 ≡ ok t
      → (commit c mode b w).0 ≢ ok committed
      → (commit c mode b w).0 ≢ err undetermined_error
      → landed (commit c mode b w).1 t ≡ false
  unfolding commit
  commit-conflict mode b w t began n u =
      let o = txn_options c mode in
      let same = bind_step (c.begin_with_options o) _ w t began in
      let w1 = (c.begin_with_options o w).1 in
      let fresh = (laws.begin_fresh o w t began).2 in
      subst (λ r. Unchanged r.0 → Open t r.1) (sym same)
        (settle_keeps t (stage c t mode b w1).1 (stage c t mode b w1).0
          (stage-Open mode t b w1 fresh))
        (n, u)
