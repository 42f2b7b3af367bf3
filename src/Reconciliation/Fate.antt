-- ===== src/Reconciliation/Fate.antt =====
-- One round of the loop of `processPendingOperations` in lib/reconciliation-worker.ts.
pub mod Outcomes
mod Calm
pub mod Claim
pub mod Gone
use brain_mate.Reconciliation.Fate.Gone.{IsGone, execute_operation-IsGone}
use brain_mate.Reconciliation.Once.{idem_apart_pending}
use brain_mate.Common.{
  ℕ, zero, suc, String, ◌≡◌, refl, sym, ap, ◌∙◌, ◌+◌, ◌-◌, ◌*◌, ◌^◌, ◌≤◌, ◌<◌, ◌⊎◌, inl, inr, Bool,
  true, false, Option, none, some, List, [], ◌∷◌, arith, leb, if◌then◌else◌, str_eq, eq_iff,
  eq_refl, Bool-cases, apart, str_eq-false, leb→le, is_some, ◌<>◌, decimal,
}
use brain_mate.Types.{
  Text, entry, QueueEntry, same, same_iff, plain, Op, token_revocation, session_sync,
  session_revoke,
}
use brain_mate.Errors.{Error, message_of}
use brain_mate.Redis.{Redis, IsLawful}
use brain_mate.Exec.{
  World, Result, ok, err, Exec, Request, date_now, command, deliver, handle, resume, catch, pure,
  ◌>>=◌, ◌>>◌,
}
use brain_mate.Exec.Keeps.{
  Keeps, IsCalm, On, calm_rules, resume_ok, handle_ok, date_now_reply, date_now-IsCalm,
}
use brain_mate.Commands.{get, setex, zadd, zrem, zremrangebyscore, set_nx, claim, del}
use brain_mate.Reconciliation.Keys.{
  worker_lock_ttl_secs, pending_queue, dlq_queue, idem_key, lock_key, dlq_retention_ms,
}
use brain_mate.Reconciliation.Operation.{raise_version, perform, execute_operation}
use brain_mate.Reconciliation.Version.{get_session_version, set_session_version}
use brain_mate.Reconciliation.Gateway.{try_tokens, fetch_with_token_fallback}
use brain_mate.Reconciliation.Worker.{
  retry_delay, next_attempt, with_error, record_success, count_failure, open_circuit,
  record_failure, give_up_or_retry, on_failure, on_success, attempt, process_entry,
}
use brain_mate.Reconciliation.Fate.Outcomes.{
  settle, settle_outcome, record_failure_outcome, retry_outcome, give_up_outcome, key_apart_pending,
  key_apart_dlq, idem_apart_dlq, same_refl,
}
use brain_mate.Reconciliation.Fate.Claim.{claimed, claim_steps}
use brain_mate.Reconciliation.Fate.Calm.{execute_operation-IsCalm}

-- What the client of the queue sees after a round at an entry: `x` is the outcome of the operation,
-- `r` what the round returns, and `w` the world that it leaves.
pub data Fate {S : Type 0} (R : Redis S) (now : ℕ) (e : QueueEntry) (x : Result (Unit {0}))
    (r : Result Bool) (w : World S) : Type 0 where
  done :
      x ≡ ok tt
      → r ≡ ok true
      → R.zscore w.redis pending_queue (entry e) ≡ none
      → R.get w.redis (idem_key e.id) ≡ none
      → R.get w.redis (lock_key e.id) ≡ none
      → Fate R now e x r w
  retried :
      (error : Error)
      → x ≡ err error
      → r ≡ ok false
      → e.attempt + 1 < e.max_attempts
      → R.zscore w.redis pending_queue (entry (with_error (message_of error) (next_attempt e)))
        ≡ some (w.clock + 1000 * 2 ^ e.attempt)
      → R.zscore w.redis pending_queue (entry e) ≡ none
      → R.get w.redis (lock_key e.id) ≡ none
      → Fate R now e x r w
  dead :
      (error : Error)
      → x ≡ err error
      → r ≡ ok false
      → e.max_attempts ≤ e.attempt + 1
      → (R.zscore w.redis dlq_queue (entry (with_error (message_of error) (next_attempt e)))
          ≡ some now)
        ⊎ (now + dlq_retention_ms ≤ w.clock)
      → R.zscore w.redis pending_queue (entry e) ≡ none
      → R.get w.redis (idem_key e.id) ≡ none
      → R.get w.redis (lock_key e.id) ≡ none
      → Fate R now e x r w

abbrev attempt_of : Text → ℕ
attempt_of (entry e) = e.attempt
attempt_of _ = 0

-- an entry that is counted up is another member
counted_up :
    (e : QueueEntry) (m : String) → same (entry (with_error m (next_attempt e))) (entry e) ≡ false
unfolding next_attempt with_error
counted_up e m = elim (Bool-cases (same (entry (with_error m (next_attempt e))) (entry e))) [
  | inl y ↦
      let again : e.attempt + 1 ≡ e.attempt = ap attempt_of ((same_iff _ _).0 y) in
      absurd (omega (arith, again))
  | inr n ↦ n
]

module _ {S : Type 0} (R : Redis S) (laws : IsLawful R) (now : ℕ) (e : QueueEntry) where
  freed_idem :
      (s : S) → R.get (R.del (R.del s (idem_key e.id)) (lock_key e.id)) (idem_key e.id) ≡ none
  freed_idem s = ground (
    arith,
    laws.strings.get-del (R.del s (idem_key e.id)) (lock_key e.id) (idem_key e.id),
    laws.strings.get-del s (idem_key e.id) (idem_key e.id),
    eq_refl (idem_key e.id),
  )

  freed_lock : (s : S) → R.get (R.del s (lock_key e.id)) (lock_key e.id) ≡ none
  freed_lock s = rw (laws.strings.get-del, eq_refl) refl

  -- the keys of operations are not the queue
  freed_gone :
      (s : S) (m : Text)
      → R.zscore s pending_queue m ≡ none
      → R.zscore (R.del (R.del s (idem_key e.id)) (lock_key e.id)) pending_queue m ≡ none
  freed_gone s m h =
      rw
        (
          laws.zset.zscore-del,
          key_apart_pending e.id,
          laws.zset.zscore-del,
          idem_apart_pending e.id,
        )
        h

  settle-Fate :
      (w : World S)
      → IsCalm w
      → R.zscore w.redis pending_queue (entry e) ≡ none
      → Fate R now e (ok tt) (settle R (next_attempt e) w).0 (settle R (next_attempt e) w).1
  unfolding next_attempt
  settle-Fate w p gone =
      let (reply, state) = settle_outcome R (next_attempt e) w p in
      done refl reply (rw state (freed_gone w.redis (entry e) gone)) (rw state (freed_idem w.redis))
        (rw state (freed_lock _))

  zadd_self : (s : S) (k : String) (n : ℕ) (m : Text) → R.zscore (R.zadd s k n m) k m ≡ some n
  zadd_self s k n m = rw (laws.zset.zscore-zadd, eq_refl k, same_refl m) refl

  -- the queue that an entry was written to, after its lock is released
  retried_score :
      (s : S) (m : QueueEntry) (n : ℕ)
      → R.zscore
          (R.del (R.zadd s pending_queue n (entry m)) (lock_key e.id))
          pending_queue
          (entry m)
        ≡ some n
  retried_score s m n =
      rw (laws.zset.zscore-del, key_apart_pending e.id) (zadd_self s pending_queue n (entry m))

  retried_gone :
      (s : S) (m : String) (n : ℕ)
      → R.zscore s pending_queue (entry e) ≡ none
      → R.zscore
          (R.del (R.zadd s pending_queue n (entry (with_error m (next_attempt e)))) (lock_key e.id))
          pending_queue
          (entry e)
        ≡ none
  retried_gone s m n h =
      rw (laws.zset.zscore-del, key_apart_pending e.id, laws.zset.zscore-zadd, counted_up e m) h

  dead_gone :
      (s : S) (m : Text) (below : ℕ)
      → R.zscore s pending_queue (entry e) ≡ none
      → R.zscore
          (R.del
            (R.del (R.zremrangebyscore (R.zadd s dlq_queue now m) dlq_queue below) (idem_key e.id))
            (lock_key e.id))
          pending_queue
          (entry e)
        ≡ none
  dead_gone s m below h =
      freed_gone _ (entry e)
        (laws.zset.zscore-zremrangebyscore_ne _ _ below _ _ refl ∙ rw (laws.zset.zscore-zadd) h)

  dead_score :
      (s : S) (m : QueueEntry) (below : ℕ)
      → below ≤ now
      → R.zscore
          (R.del
            (R.del
              (R.zremrangebyscore (R.zadd s dlq_queue now (entry m)) dlq_queue below)
              (idem_key e.id))
            (lock_key e.id))
          dlq_queue
          (entry m)
        ≡ some now
  dead_score s m below h =
      rw (laws.zset.zscore-del, key_apart_dlq e.id, laws.zset.zscore-del, idem_apart_dlq e.id)
        (laws.zset.zscore-zremrangebyscore_above _ _ below _ _ now
          (zadd_self s dlq_queue now (entry m)) h)

  failure_steps :
      (x : Error) (w : World S)
      → IsCalm w
      → on_failure R now (next_attempt e) x w
        ≡ resume
            (give_up_or_retry R now
              (with_error (message_of x) (next_attempt e))
              (record_failure w).1)
            (λ _. pure false)
  unfolding on_failure
  failure_steps x w p = resume_ok (record_failure w) tt _ (record_failure_outcome R w p).0

  module _ (x : Error) (w : World S) (p : IsCalm w)
      (gone : R.zscore w.redis pending_queue (entry e) ≡ none) where
    abbrev failed : QueueEntry
    failed = with_error (message_of x) (next_attempt e)

    abbrev counted : World S
    counted = (record_failure w).1

    abbrev ending : World S
    ending = (give_up_or_retry R now failed counted).1

    counted-IsCalm : IsCalm counted
    counted-IsCalm = record { calm = (record_failure_outcome R w p).2 ∙ p.calm }

    counted_gone : R.zscore counted.redis pending_queue (entry e) ≡ none
    counted_gone = rw ((record_failure_outcome R w p).1) gone

    on_failure_lem :
        (give_up_or_retry R now failed counted).0 ≡ ok tt
        → on_failure R now (next_attempt e) x w ≡ (ok false, ending)
    on_failure_lem h =
        failure_steps x w p ∙ resume_ok (give_up_or_retry R now failed counted) tt _ h

    retry-Fate : e.attempt + 1 < e.max_attempts → Fate R now e (err x) (ok false) ending
    unfolding retry_delay
    retry-Fate h =
        let (reply, state) = retry_outcome R now failed counted counted-IsCalm h in
        let back : e.attempt + 1 - 1 ≡ e.attempt = omega arith in
        retried x refl refl h
          (rw state (retried_score _ failed _) ∙ ap (λ k. some (ending.clock + 1000 * 2 ^ k)) back)
          (rw state (retried_gone _ (message_of x) _ counted_gone)) (rw state (freed_lock _))

    give_up-Fate : e.max_attempts ≤ e.attempt + 1 → Fate R now e (err x) (ok false) ending
    give_up-Fate h =
        let (reply, state) = give_up_outcome R now failed counted counted-IsCalm h in
        dead x refl refl h
          (elim (Bool-cases (leb (now + dlq_retention_ms) ending.clock)) [
            | inl late ↦ inr (leb→le _ _ late)
            | inr soon ↦
                let below : ending.clock + 1 - dlq_retention_ms ≤ now = ground (arith, soon) in
                inl (rw state (dead_score _ failed _ below))
          ])
          (rw state (dead_gone _ _ _ counted_gone)) (rw state (freed_idem _))
          (rw state (freed_lock _))

    on_failure-Fate :
        Fate R now e
          (err x)
          (on_failure R now (next_attempt e) x w).0
          (on_failure R now (next_attempt e) x w).1
    on_failure-Fate = elim (Bool-cases (leb e.max_attempts (e.attempt + 1))) [
      | inl out ↦
          let h = leb→le _ _ out in
          rw (on_failure_lem (give_up_outcome R now failed counted counted-IsCalm h).0)
            (give_up-Fate h)
      | inr more ↦
          let h : e.attempt + 1 < e.max_attempts = ground arith in
          rw (on_failure_lem (retry_outcome R now failed counted counted-IsCalm h).0) (retry-Fate h)
    ]

  attempt-Fate :
      (tokens : Result (List String)) (w : World S)
      → IsCalm (execute_operation R tokens e.op w).1
      → R.zscore (execute_operation R tokens e.op w).1.redis pending_queue (entry e) ≡ none
      → Fate R now e
          (execute_operation R tokens e.op w).0
          (attempt R tokens now (next_attempt e) w).0
          (attempt R tokens now (next_attempt e) w).1
  unfolding attempt on_success
  attempt-Fate tokens w p gone = after_execute (execute_operation R tokens e.op w) p gone
    where
      after_execute :
          (x : Result (Unit {0}) × World S)
          → IsCalm x.1
          → R.zscore x.1.redis pending_queue (entry e) ≡ none
          → Fate R now e x.0
              (handle
                (resume x (λ _. settle R (next_attempt e)))
                (on_failure R now (next_attempt e))).0
              (handle
                (resume x (λ _. settle R (next_attempt e)))
                (on_failure R now (next_attempt e))).1
      after_execute (ok u, w') q g =
          rw
            (handle_ok (settle R (next_attempt e) w') true (on_failure R now (next_attempt e))
              (settle_outcome R (next_attempt e) w' q).0)
            (settle-Fate w' q g)
      after_execute (err er, w') q g = on_failure-Fate er w' q g

module _ {S : Type 0} (R : Redis S) (laws : IsLawful R) where
  -- One round of the worker at a due entry, while Redis answers, the entry's lock is free and the
  -- entry is in the queue. The operation is executed in the world in which the lock is taken and
  -- the entry is out of the queue. It succeeds, the round returns true, and the operation's
  -- idempotency key is freed. Or it throws, and the round returns false: where that was not the
  -- last attempt, the entry is queued again with its attempt counted and the error's message, 1000
  -- * 2 ^ k milliseconds later than now where it had k attempts before; and after its last attempt
  -- it is in the dead-letter queue (where the attempt took less than the seven days of retention)
  -- and its idempotency key is freed. In each case the old entry is no more in the queue and the
  -- lock is free again.
  pub process_entry-Fate :
      (owner : String) (tokens : Result (List String)) (now n : ℕ) (e : QueueEntry) (w : World S)
      → IsCalm w
      → R.get w.redis (lock_key e.id) ≡ none
      → R.zscore w.redis pending_queue (entry e) ≡ some n
      → Fate R now e
          (execute_operation R tokens e.op (claimed R owner e w)).0
          (process_entry R owner tokens now (entry e) w).0
          (process_entry R owner tokens now (entry e) w).1
  process_entry-Fate owner tokens now n e w p free there =
      let (q, steps) = claim_steps R laws owner tokens now n e w p free there in
      let taken : On (IsGone R laws (entry e)) (claimed R owner e w) = record {
        holds = record { gone = rw (laws.zset.zscore-zrem, same_refl (entry e)) refl };
      } in
      rw steps (
        attempt-Fate R laws now e tokens (claimed R owner e w)
          ((execute_operation-IsCalm R tokens e.op).at (claimed R owner e w) q)
          ((execute_operation-IsGone R laws (entry e) tokens e.op).at (claimed R owner e w)
            taken).holds.gone)
