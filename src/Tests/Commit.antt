-- ===== src/Tests/Commit.antt =====
-- A store in memory for one transaction at a time, and commits on it.
use client_rust_test.Base.{
  ◌≡◌, ◌≢◌, refl, ◌∙◌, sym, ap, Option, none, some, List, [], ◌∷◌, ◌++◌, map, Bool, true, false,
  ◌&&◌, if◌then◌else◌, bytes_eq, Bool-cases, ◌⊎◌, arith, inl, inr,
}
use client_rust_test.Base.Result.{Result, ok, err}
use client_rust_test.Tikv.Error.{Error, key_error, undetermined_error}
use client_rust_test.Tikv.Client.{Client}
use client_rust_test.Gate.Batch.{CommitOutcome, committed, conflict, WriteBatch, require_absent}
use client_rust_test.Gate.Commit.{pessimistic, optimistic_locked, holds, txn_options, commit}
use client_rust_test.Gate.Commit.Contract.{Store, Write, put, delete, apply, Pin, Agrees, Laws}
use client_rust_test.Gate.Commit.Refinement.{Landed, commit-committed}
use client_rust_test.Gate.Commit.Conflict.{commit-conflict}
use client_rust_test.Gate.Commit.Stage.{holds→eq}

record Memory : Type 0 where
  values : Store
  older : List Store
  start : Store
  buffer : List Write
  pins : List Pin
  done : Bool

abbrev agree : Store → List Pin → Bool
agree s [] = true
agree s ((k, v) ∷ ps) = holds v (s k) && agree s ps

agree-Agrees : (s : Store) (ps : List Pin) → agree s ps ≡ true → Agrees s ps
agree-Agrees s [] h = tt
agree-Agrees s ((k, v) ∷ ps) h =
    (sym (holds→eq v (s k) (ground arith)), agree-Agrees s ps (ground arith))

abbrev race : Error
race = key_error (record {
  conflict = some (record { start_ts = 7; conflict_ts = 8; conflict_commit_ts = 9; reason = [] });
  already_exist = false;
  txn_not_found = none;
  locked = false;
  deadlock = false;
  assertion_failed = false;
  commit_ts_expired = false;
  commit_ts_too_large = false;
  retryable = [];
  abort = [];
})

abbrev answer_if : {A : Type 0} → Bool → A → Memory → Memory → Result Error A × Memory
answer_if b a w v = if b then (ok a, w) else (err race, v)

abbrev memory : Client
memory = record {
  World = Memory;
  Timestamp = Unit;
  TransactionOptions = Bool;
  Transaction = Bool;
  Snapshot = Store;
  new_pessimistic = false;
  new_optimistic = true;
  drop_check = λ o l. o;
  read_only = λ o. o;
  current_timestamp = λ w. (ok tt, w);
  snapshot = λ ts o k. none;
  snapshot_get = λ s k w. (ok (s k), w);
  snapshot_scan = λ s r n w. (ok [], w);
  begin_with_options = λ o w. (
    ok o,
    record {
      values = w.values;
      older = w.older;
      start = w.values;
      buffer = [];
      pins = [];
      done = false;
    },
  );
  get = λ t k w. (ok (apply w.buffer w.start k), w);
  get_for_update = λ t k w. (ok (w.values k), record w { pins = (k, w.values k) ∷ w.pins });
  lock_keys = λ t ks w. (ok tt, record w { pins = map (λ k. (k, w.start k)) ks ++ w.pins });
  put = λ t k v w. (ok tt, record w { buffer = w.buffer ++ put k v ∷ [] });
  delete = λ t k w. (ok tt, record w { buffer = w.buffer ++ delete k ∷ [] });
  commit = λ t w.
      answer_if (agree w.values w.pins) none
        (record w { values = apply w.buffer w.values; older = w.values ∷ w.older; done = true }) w;
  rollback = λ t w. (ok tt, record w { buffer = []; pins = [] });
}

abbrev attempt : Memory → Result Error (Option Unit) × Memory
attempt w = memory.commit false w

abbrev okay : {A : Type 0} → A → Result Error A
okay = ok

ok-injective : {A : Type 0} {a b : A} → okay a ≡ okay b → a ≡ b
ok-injective h = cc

commit_cases :
    (w : Memory)
    → ((attempt w).0 ≡ err race) × ((attempt w).1 ≡ w)
      ⊎ Agrees w.values w.pins
        × ((attempt w).1.values ≡ apply w.buffer w.values)
        × ((attempt w).1.older ≡ w.values ∷ w.older)
        × ((attempt w).0 ≡ ok none)
commit_cases w = elim (Bool-cases (agree w.values w.pins)) [
  | inl y ↦ inr (agree-Agrees w.values w.pins y, rw y refl, rw y refl, rw y refl)
  | inr n ↦ inl (rw n refl, rw n refl)
]

abbrev memory_laws : Laws memory
memory_laws = record {
  history = λ w. w.values ∷ w.older;
  optimistic = λ t. t;
  writes = λ w t. w.buffer;
  pinned = λ w t. w.pins;
  at_start = λ w t. w.start;
  landed = λ w t. w.done;
  begin_fresh = λ o w t h. (refl, refl, refl);
  begin_optimistic = λ l w t h. sym (ok-injective h);
  begin_pessimistic = λ l w t h. sym (ok-injective h);
  get_for_update_pins = λ t k w v p h. (ap (λ x. (k, x) ∷ w.pins) (ok-injective h), refl);
  lock_keys_pins = λ t k w p h. (refl, refl, refl);
  get_reads = λ t k w v h e. (sym (ok-injective h) ∙ ap (λ ws. apply ws w.start k) e, refl, e);
  put_buffers = λ t k v w h. (refl, refl);
  delete_buffers = λ t k w h. (refl, refl);
  commit_lands = λ t w ts h. elim (commit_cases w) [
    | inl (q, r) ↦ absurd (cc)
    | inr (a, q, o, r) ↦ (w.values, w.older, a, ([], refl), ([], rw (q, o) refl))
  ];
  begin_later = λ o w. ([], refl);
  get_later = λ t k w. ([], refl);
  get_for_update_later = λ t k w. ([], refl);
  lock_keys_later = λ t ks w. ([], refl);
  put_later = λ t k v w. ([], refl);
  delete_later = λ t k w. ([], refl);
  commit_fails = λ t w e h u o. elim (commit_cases w) [
    | inl (q, r) ↦ ap (λ x. x.done) r ∙ o
    | inr (a, q, o, r) ↦ absurd (cc)
  ];
  get_lands = λ t k w. refl;
  get_for_update_lands = λ t k w. refl;
  lock_keys_lands = λ t ks w. refl;
  put_lands = λ t k v w. refl;
  delete_lands = λ t k w. refl;
  rollback_lands = λ t w. refl;
}

abbrev seeded : Memory
seeded = record {
  values = λ k. if bytes_eq k (1 ∷ []) then some (10 ∷ []) else none;
  older = [];
  start = λ k. none;
  buffer = [];
  pins = [];
  done = true;
}

-- Replaces the value of one key, deletes that key's neighbour, and creates a key that must be absent.
abbrev swap : WriteBatch
swap = record {
  preconditions =
      record { key = 1 ∷ []; expected = some (10 ∷ []) }
      ∷ record { key = 2 ∷ []; expected = none }
      ∷ [];
  puts = (1 ∷ [], 11 ∷ []) ∷ (2 ∷ [], 20 ∷ []) ∷ [];
  deletes = (3 ∷ []) ∷ [];
}

commit-committed_example :
    Landed memory memory_laws swap
      (seeded.values ∷ [])
      (commit memory optimistic_locked swap seeded).1
unfolding commit bytes_eq
commit-committed_example =
    commit-committed memory memory_laws optimistic_locked swap seeded (λ x. cc) refl

abbrev stale : WriteBatch
stale = require_absent swap (1 ∷ [])

abbrev answered : CommitOutcome → Result Error CommitOutcome
answered = ok

stale_conflict : (commit memory pessimistic stale seeded).0 ≡ ok conflict
unfolding commit bytes_eq
stale_conflict = refl

conflict-committed : answered conflict ≢ ok committed
conflict-committed h = cc

conflict-undetermined : answered conflict ≢ err undetermined_error
conflict-undetermined h = cc

commit-conflict_example : (commit memory pessimistic stale seeded).1.done ≡ false
unfolding txn_options
commit-conflict_example =
    commit-conflict memory memory_laws pessimistic stale seeded false refl
      (λ x. conflict-committed (sym stale_conflict ∙ x))
      (λ x. conflict-undetermined (sym stale_conflict ∙ x))
