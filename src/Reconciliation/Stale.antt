-- ===== src/Reconciliation/Stale.antt =====
-- `bumpSessionVersion` and the queued syncs of lib/reconciliation-worker.ts.
use brain_mate.Common.{
  ℕ, zero, suc, String, ◌≡◌, refl, ◌+◌, ◌≤◌, ◌<◌, Bool, true, false, Option, none, some, List, [],
  ◌∷◌, arith,
}
use brain_mate.Types.{Text, entry, QueueEntry, Op, token_revocation, session_sync, session_revoke}
use brain_mate.Errors.{Error}
use brain_mate.Redis.{Redis, IsLawful, IsCounter}
use brain_mate.Exec.{redis_pool, World, Result, ok, err, Exec, command}
use brain_mate.Exec.Keeps.{Keeps, On}
use brain_mate.Commands.{get, incr, expire}
use brain_mate.Reconciliation.Keys.{session_version_key, idem_ttl_secs}
use brain_mate.Reconciliation.Version.{bump_session_version, get_session_version}
use brain_mate.Reconciliation.Version.Monotone.{
  AtLeast, at_least, bump_session_version-AtLeast, get_session_version-AtLeast,
  ensure_session_version-AtLeast,
}
use brain_mate.Reconciliation.Operation.{raise_version, perform, execute_operation}
use brain_mate.Reconciliation.Enqueue.{TraceHeaders, insert_once, submit, enqueue_reconciliation}
use brain_mate.Reconciliation.OwnState.{own_state}
use brain_mate.Reconciliation.Worker.{
  give_up_or_retry, on_failure, on_success, attempt, process_entry, tally, process_batch,
  process_due, process_pending_operations,
}

ruleset versions = (
  at_least, own_state, bump_session_version-AtLeast, get_session_version-AtLeast,
  ensure_session_version-AtLeast,
)

module _ {S : Type 0} (R : Redis S) (laws : IsLawful R) (sid : String) (v : ℕ) where
  raise_version-AtLeast :
      (other : String) (target : Option ℕ)
      → Keeps (On (AtLeast R sid v)) (raise_version R other target)
  unfolding raise_version
  raise_version-AtLeast other none = search versions
  raise_version-AtLeast other (some target) = search versions depth 7

  execute_operation-AtLeast :
      (tokens : Result (List String)) (op : Op)
      → Keeps (On (AtLeast R sid v)) (execute_operation R tokens op)
  unfolding execute_operation perform
  execute_operation-AtLeast (err e) op = search versions
  execute_operation-AtLeast (ok []) op = search versions
  execute_operation-AtLeast (ok (t ∷ ts)) (token_revocation jti zero) = search versions
  execute_operation-AtLeast (ok (t ∷ ts)) (token_revocation jti (suc n)) = search versions
  execute_operation-AtLeast (ok (t ∷ ts)) (session_sync s u x n) = search versions depth 9
  execute_operation-AtLeast (ok (t ∷ ts)) (session_revoke s jti x n) =
      search (versions, raise_version-AtLeast) depth 9

  submit-AtLeast : (e : QueueEntry) → Keeps (On (AtLeast R sid v)) (submit R e)
  unfolding submit insert_once
  submit-AtLeast e = search versions depth 12

  pub enqueue-AtLeast :
      (trace : TraceHeaders) (op : Op)
      → Keeps (On (AtLeast R sid v)) (enqueue_reconciliation R trace op)
  unfolding enqueue_reconciliation
  enqueue-AtLeast trace op = search (versions, submit-AtLeast) depth 12

  give_up_or_retry-AtLeast :
      (now : ℕ) (e : QueueEntry) → Keeps (On (AtLeast R sid v)) (give_up_or_retry R now e)
  unfolding give_up_or_retry
  give_up_or_retry-AtLeast now e = search versions depth 12

  on_failure-AtLeast :
      (now : ℕ) (e : QueueEntry) (x : Error) → Keeps (On (AtLeast R sid v)) (on_failure R now e x)
  unfolding on_failure
  on_failure-AtLeast now e x = search (versions, give_up_or_retry-AtLeast) depth 12

  attempt-AtLeast :
      (tokens : Result (List String)) (now : ℕ) (e : QueueEntry)
      → Keeps (On (AtLeast R sid v)) (attempt R tokens now e)
  unfolding attempt on_success
  attempt-AtLeast tokens now e =
      search (versions, execute_operation-AtLeast, on_failure-AtLeast) depth 12

  process_entry-AtLeast :
      (owner : String) (tokens : Result (List String)) (now : ℕ) (m : Text)
      → Keeps (On (AtLeast R sid v)) (process_entry R owner tokens now m)
  unfolding process_entry
  process_entry-AtLeast owner tokens now (entry e) = search (versions, attempt-AtLeast) depth 12
  process_entry-AtLeast owner tokens now m = search versions depth 12

  tally-AtLeast :
      (x : Result Bool × World S) (n : ℕ) (rest : ℕ → Exec S ℕ)
      → On (AtLeast R sid v) x.1
      → ((k : ℕ) → Keeps (On (AtLeast R sid v)) (rest k))
      → On (AtLeast R sid v) (tally R x n rest).1
  tally-AtLeast (ok true, w) n rest p k = (k (n + 1)).at w p
  tally-AtLeast (ok false, w) n rest p k = (k n).at w p
  tally-AtLeast (err e, w) n rest p k = p

  process_batch-AtLeast :
      (owner : String) (tokens : Result (List String)) (now n : ℕ) (ms : List Text)
      → Keeps (On (AtLeast R sid v)) (process_batch R owner tokens now n ms)
  unfolding process_batch
  process_batch-AtLeast owner tokens now n [] = record { at = λ w p. p }
  process_batch-AtLeast owner tokens now n (m ∷ ms) = record {
    at = λ w p.
        tally-AtLeast _ n _ ((process_entry-AtLeast owner tokens now m).at w p)
          (λ k. process_batch-AtLeast owner tokens now k ms);
  }

  process-AtLeast :
      (owner : String) (tokens : Result (List String))
      → Keeps (On (AtLeast R sid v)) (process_pending_operations R owner tokens)
  unfolding process_pending_operations process_due
  process-AtLeast owner tokens = search (versions, process_batch-AtLeast) depth 12

-- What may happen after a logout: enqueues, batches of the worker, and other logouts.
pub data Call : Type 0 where
  enqueue : TraceHeaders → Op → Call
  process : String → Result (List String) → Call
  bump : String → Call

module _ {S : Type 0} (R : Redis S) where
  pub run : List Call → World S → World S
  run [] w = w
  run (enqueue trace op ∷ cs) w = run cs (enqueue_reconciliation R trace op w).1
  run (process owner tokens ∷ cs) w = run cs (process_pending_operations R owner tokens w).1
  run (bump sid ∷ cs) w = run cs (bump_session_version R sid w).1

module _ {S : Type 0} (R : Redis S) (laws : IsLawful R) where
  pub run-AtLeast :
      (sid : String) (v : ℕ) (cs : List Call) (w : World S)
      → On (AtLeast R sid v) w
      → On (AtLeast R sid v) (run R cs w)
  unfolding run
  run-AtLeast sid v [] w p = p
  run-AtLeast sid v (enqueue trace op ∷ cs) w p =
      run-AtLeast sid v cs _ ((enqueue-AtLeast R laws sid v trace op).at w p)
  run-AtLeast sid v (process owner tokens ∷ cs) w p =
      run-AtLeast sid v cs _ ((process-AtLeast R laws sid v owner tokens).at w p)
  run-AtLeast sid v (bump other ∷ cs) w p =
      run-AtLeast sid v cs _ ((bump_session_version-AtLeast R laws sid v other).at w p)

  bump_outcome :
      (sid : String) (n : ℕ) (w w' : World S)
      → bump_session_version R sid w ≡ (ok (suc n), w')
      → ((R.incr w.redis (session_version_key sid)).0 ≡ suc n)
        × (w'.redis
            ≡ R.expire
                (R.incr w.redis (session_version_key sid)).1
                (session_version_key sid)
                idem_ttl_secs)
  unfolding bump_session_version redis_pool incr expire command
  bump_outcome sid n w w' e = ground arith

  -- an answered bump has written what it returns
  pub bump-AtLeast :
      (sid : String) (n : ℕ) (w w' : World S)
      → IsCounter (R.get w.redis (session_version_key sid))
      → bump_session_version R sid w ≡ (ok (suc n), w')
      → On (AtLeast R sid (suc n)) w'
  bump-AtLeast sid n w w' c e =
      let (reply, state) = bump_outcome sid n w w' e in
      let written = laws.strings.get-incr_self w.redis (session_version_key sid) c in
      let answered = laws.strings.incr_reply w.redis (session_version_key sid) c in
      record {
        holds = record {
          numeric =
              rw (state, laws.strings.get-expire _ _ idem_ttl_secs _ (omega arith), written) tt;
          reached =
              rw (state, laws.strings.get-expire _ _ idem_ttl_secs _ (omega arith), written)
                (omega arith);
        };
      }

  pub stale_lem :
      (tokens : Result (List String)) (sid uid : String) (expires expected v : ℕ) (w : World S)
      → On (AtLeast R sid v) w
      → expected < v
      → (execute_operation R tokens (session_sync sid uid expires expected) w).1.sent ≡ w.sent
  unfolding execute_operation perform get_session_version get command
  stale_lem (err y) sid uid expires expected v w p h = refl
  stale_lem (ok []) sid uid expires expected v w p h = refl
  stale_lem (ok (t ∷ ts)) sid uid expires expected v w p h = ground arith

  -- After a logout that bumped a session's version to `n + 1`, and whatever enqueues, batches and
  -- logouts follow, with any failures of Redis and the gateway: an attempt at a queued
  -- `session_sync` of that session whose expected version is at most `n` sends no request. The
  -- version that the logout met must be missing or a number. The expiry of keys is left out: the
  -- version lives for 24 hours after it was last raised.
  pub stale_sync_sends_nothing :
      (sid uid : String) (n expires expected : ℕ) (tokens : Result (List String)) (cs : List Call)
      (w w' : World S)
      → IsCounter (R.get w.redis (session_version_key sid))
      → bump_session_version R sid w ≡ (ok (suc n), w')
      → expected ≤ n
      → (execute_operation R tokens (session_sync sid uid expires expected) (run R cs w')).1.sent
        ≡ (run R cs w').sent
  stale_sync_sends_nothing sid uid n expires expected tokens cs w w' c e h =
      stale_lem tokens sid uid expires expected (suc n) _
        (run-AtLeast sid (suc n) cs w' (bump-AtLeast sid n w w' c e)) (omega arith)
