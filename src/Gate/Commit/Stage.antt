-- ===== src/Gate/Commit/Stage.antt =====
-- Staging: which locks and writes a transaction has when it comes to commit.
use client_rust_test.Base.{
  ◌≡◌, ◌≢◌, refl, ◌∙◌, sym, ap, Option, none, some, List, [], ◌∷◌, ◌++◌, map, append_assoc,
  append-nil, Bool, true, false, if◌then◌else◌, Bytes, bytes_eq→eq,
}
use mathlib.Core.Path.{subst}
use client_rust_test.Base.Result.{Call, ok, ◌>>◌, pure, bind_ok}
use client_rust_test.Tikv.Error.{Error}
use client_rust_test.Tikv.Client.{Client, warn}
use client_rust_test.Gate.Batch.{Precondition, WriteBatch}
use client_rust_test.Gate.Commit.{
  LockMode, pessimistic, optimistic_locked, optimistic_unlocked, holds, txn_options, locking_read,
  check, put_all, delete_all, stage,
}
use client_rust_test.Gate.Commit.Contract.{Store, Write, put, delete, Agrees, Laws, HoldsIn}

pub holds→eq : (want got : Option Bytes) → holds want got ≡ true → want ≡ got
unfolding holds
holds→eq (some a) (some b) h = ap some (bytes_eq→eq a b h)
holds→eq none none h = refl
holds→eq (some a) none h = cc
holds→eq none (some b) h = cc

abbrev pub put_writes : List (Bytes × Bytes) → List Write
put_writes = map (λ (p : Bytes × Bytes). put p.0 p.1)

abbrev pub batch_writes : WriteBatch → List Write
batch_writes b = put_writes b.puts ++ map delete b.deletes

module _ (c : Client) (laws : Laws c) where
  open laws use {writes, pinned, at_start, optimistic}

  -- A transaction of the kind that a locking mode wants
  abbrev pub Fits : LockMode → c.Transaction → Type 0
  Fits pessimistic t = optimistic t ≡ false
  Fits optimistic_locked t = optimistic t ≡ true
  Fits optimistic_unlocked t = ⊥

  pub txn_options-Fits :
      (mode : LockMode) (w : c.World) (t : c.Transaction)
      → mode ≢ optimistic_unlocked
      → (c.begin_with_options (txn_options c mode) w).0 ≡ ok t
      → Fits mode t
  unfolding txn_options
  txn_options-Fits pessimistic w t m h = laws.begin_pessimistic warn w t h
  txn_options-Fits optimistic_locked w t m h = laws.begin_optimistic warn w t h
  txn_options-Fits optimistic_unlocked w t m h = absurd (m refl)

  -- The pins of `w'` include those of `w`, and make the conditions hold.
  abbrev pub Pins : List Precondition → c.Transaction → c.World → c.World → Type 0
  Pins pres t w w' =
      (writes w' t ≡ [])
      × ((s : Store) → Agrees s (pinned w' t) → Agrees s (pinned w t) × HoldsIn s pres)

  -- A locking read with nothing buffered pins the key at the value that it returns.
  locking_read_pins :
      (mode : LockMode) (t : c.Transaction) (k : Bytes) (w : c.World) (v : Option Bytes)
      → Fits mode t
      → writes w t ≡ []
      → (locking_read c mode t k w).0 ≡ ok v
      → (pinned (locking_read c mode t k w).1 t ≡ (k, v) ∷ pinned w t)
        × (writes (locking_read c mode t k w).1 t ≡ [])
  unfolding locking_read
  locking_read_pins pessimistic t k w v m e h =
      let (p, q) = laws.get_for_update_pins t k w v m h in (p, q ∙ e)
  locking_read_pins optimistic_locked t k w v m e h =
      let (u, locked, same) = bind_ok (c.lock_keys t (k ∷ [])) (λ _. c.get t k) w v h in
      let (p, q, s) = laws.lock_keys_pins t k w m locked in
      let (r, p', q') =
        laws.get_reads t k (c.lock_keys t (k ∷ []) w).1 v (sym (ap (λ x. x.0) same) ∙ h) (q ∙ e) in
      let value : at_start w t k ≡ v = sym (r ∙ ap (λ f. f k) s) in
      rw same (p' ∙ p ∙ ap (λ x. (k, x) ∷ pinned w t) value, q')
  locking_read_pins optimistic_unlocked t k w v m e h = absurd m

  -- One precondition, pinned, and what the others give from there on.
  check-Pins_step :
      (mode : LockMode) (t : c.Transaction) (pre : Precondition) (pres : List Precondition)
      (w w1 : c.World) (v : Option Bytes)
      → pinned w1 t ≡ (pre.key, v) ∷ pinned w t
      → ((check c mode t pres w1).0 ≡ ok true → Pins pres t w1 (check c mode t pres w1).1)
      → (b : Bool) → holds pre.expected v ≡ b
      → ((if b then check c mode t pres else pure false) w1).0 ≡ ok true
      → Pins (pre ∷ pres) t w ((if b then check c mode t pres else pure false) w1).1
  check-Pins_step mode t pre pres w w1 v p others true y h =
      let (q, f) = others h in
      (
        q,
        λ s a.
            let (agrees, held) = f s a in
            let (first, others) = subst (Agrees s) p agrees in
            (others, (holds→eq pre.expected v y ∙ sym first, held)),
      )
  check-Pins_step mode t pre pres w w1 v p others false y h = absurd (cc)

  -- The preconditions that were found to hold are pinned.
  pub check-Pins :
      (mode : LockMode) (t : c.Transaction) (pres : List Precondition) (w : c.World)
      → Fits mode t
      → writes w t ≡ []
      → (check c mode t pres w).0 ≡ ok true
      → Pins pres t w (check c mode t pres w).1
  unfolding check
  check-Pins mode t [] w m e h = (e, λ s a. (a, tt))
  check-Pins mode t (pre ∷ pres) w m e h =
      let (v, read, same) = bind_ok (locking_read c mode t pre.key) _ w true h in
      let (p, q) = locking_read_pins mode t pre.key w v m e read in
      let w1 = (locking_read c mode t pre.key w).1 in
      subst (λ r. Pins (pre ∷ pres) t w r.1) (sym same)
        (check-Pins_step mode t pre pres w w1 v p (check-Pins mode t pres w1 m q)
          (holds pre.expected v) refl (ap (λ r. r.0) (sym same) ∙ h))

  -- `w'` has the writes of `w` and then `ws`, and the same pins.
  abbrev pub Adds : List Write → c.Transaction → c.World → c.World → Type 0
  Adds ws t w w' = (writes w' t ≡ writes w t ++ ws) × (pinned w' t ≡ pinned w t)

  Adds-trans :
      (xs ys : List Write) (t : c.Transaction) (w w1 w2 : c.World)
      → Adds xs t w w1
      → Adds ys t w1 w2
      → Adds (xs ++ ys) t w w2
  Adds-trans xs ys t w w1 w2 (p, q) (p', q') =
      (p' ∙ ap (λ zs. zs ++ ys) p ∙ append_assoc (writes w t) xs ys, q' ∙ q)

  put_all-Adds :
      (t : c.Transaction) (puts : List (Bytes × Bytes)) (w : c.World)
      → (put_all c t puts w).0 ≡ ok tt
      → Adds (put_writes puts) t w (put_all c t puts w).1
  unfolding put_all
  put_all-Adds t [] w h = (sym (append-nil _), refl)
  put_all-Adds t ((k, v) ∷ puts) w h =
      let (u, done, same) = bind_ok (c.put t k v) (λ _. put_all c t puts) w tt h in
      let w1 = (c.put t k v w).1 in
      subst (λ r. Adds (put_writes ((k, v) ∷ puts)) t w r.1) (sym same)
        (Adds-trans (put k v ∷ []) (put_writes puts) t w w1 _ (laws.put_buffers t k v w done)
          (put_all-Adds t puts w1 (ap (λ r. r.0) (sym same) ∙ h)))

  delete_all-Adds :
      (t : c.Transaction) (ks : List Bytes) (w : c.World)
      → (delete_all c t ks w).0 ≡ ok tt
      → Adds (map delete ks) t w (delete_all c t ks w).1
  unfolding delete_all
  delete_all-Adds t [] w h = (sym (append-nil _), refl)
  delete_all-Adds t (k ∷ ks) w h =
      let (u, done, same) = bind_ok (c.delete t k) (λ _. delete_all c t ks) w tt h in
      let w1 = (c.delete t k w).1 in
      subst (λ r. Adds (map delete (k ∷ ks)) t w r.1) (sym same)
        (Adds-trans (delete k ∷ []) (map delete ks) t w w1 _ (laws.delete_buffers t k w done)
          (delete_all-Adds t ks w1 (ap (λ r. r.0) (sym same) ∙ h)))

  -- The second half of `stage`.
  abbrev buffer : c.Transaction → WriteBatch → Bool → Call c.World Error Bool
  buffer t b held =
      if held then (do put_all c t b.puts; delete_all c t b.deletes; pure true) else pure false

  buffer-Adds :
      (t : c.Transaction) (b : WriteBatch) (held : Bool) (w : c.World)
      → (buffer t b held w).0 ≡ ok true
      → (held ≡ true) × Adds (batch_writes b) t w (buffer t b held w).1
  buffer-Adds t b false w h = absurd (cc)
  buffer-Adds t b true w h =
      let (u, puts, same) = bind_ok (put_all c t b.puts) _ w true h in
      let w1 = (put_all c t b.puts w).1 in
      let (u', deletes, same') =
        bind_ok (delete_all c t b.deletes) (λ _. pure true) w1 true
          (ap (λ r. r.0) (sym same) ∙ h) in
      (
        refl,
        subst (λ r. Adds (batch_writes b) t w r.1) (sym (same ∙ same'))
            (Adds-trans (put_writes b.puts) (map delete b.deletes) t w w1 _
              (put_all-Adds t b.puts w puts) (delete_all-Adds t b.deletes w1 deletes)),
      )

  -- A transaction that staged a batch holds its writes, and pins that make its preconditions hold.
  abbrev pub Staged : WriteBatch → c.Transaction → c.World → Type 0
  Staged b t w =
      (writes w t ≡ batch_writes b)
      × ((s : Store) → Agrees s (pinned w t) → HoldsIn s b.preconditions)

  pub stage-Staged :
      (mode : LockMode) (t : c.Transaction) (b : WriteBatch) (w : c.World)
      → Fits mode t
      → writes w t ≡ []
      → (stage c t mode b w).0 ≡ ok true
      → Staged b t (stage c t mode b w).1
  unfolding stage
  stage-Staged mode t b w m e h =
      let (held, checked, same) = bind_ok (check c mode t b.preconditions) (buffer t b) w true h in
      let w1 = (check c mode t b.preconditions w).1 in
      let (all_held, added) = buffer-Adds t b held w1 (ap (λ r. r.0) (sym same) ∙ h) in
      let (q, f) = check-Pins mode t b.preconditions w m e (checked ∙ ap ok all_held) in
      subst (λ r. Staged b t r.1) (sym same)
        ((added.0 ∙ ap (λ xs. xs ++ batch_writes b) q, λ s a. (f s (subst (Agrees s) added.1 a)).1))
