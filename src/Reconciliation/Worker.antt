-- ===== src/Reconciliation/Worker.antt =====
-- `processPendingOperations` of lib/reconciliation-worker.ts: a batch of due entries, each claimed
-- with a lock, attempted, and retried or moved to the dead-letter queue when it fails.
use brain_mate.Common.{
  ℕ, String, ◌+◌, ◌-◌, ◌*◌, ◌^◌, ◌<>◌, Bool, true, false, not, some, List, [], ◌∷◌, leb, ltb,
  decimal, if◌then◌else◌,
}
use brain_mate.Types.{Text, plain, entry, QueueEntry}
use brain_mate.Errors.{Error, message_of}
use brain_mate.Redis.{Redis}
use brain_mate.Exec.{
  World, Result, ok, err, Exec, pure, catch, date_now, is_circuit_open, redis_pool, ◌>>=◌, ◌>>◌,
}
use brain_mate.Commands.{zadd, zrem, zrangebyscore, zremrangebyscore, set_nx, del}
use brain_mate.Reconciliation.Keys.{
  pending_queue, dlq_queue, idem_key, lock_key, worker_lock_ttl_secs, base_delay_ms, batch_size,
  circuit_failure_threshold, circuit_cooldown_ms, dlq_retention_ms,
}
use brain_mate.Reconciliation.Operation.{execute_operation}

-- `BASE_DELAY_MS * Math.pow(2, entry.attempt - 1)`
unfoldable pub retry_delay : ℕ → ℕ
retry_delay attempt = base_delay_ms * 2 ^ (attempt - 1)

-- `entry.attempt += 1`
abbrev pub next_attempt : QueueEntry → QueueEntry
next_attempt e = record e { attempt = e.attempt + 1 }

abbrev pub with_error : String → QueueEntry → QueueEntry
with_error m e = record e { last_error = some m }

module _ {S : Type 0} where
  -- `circuitState.failures = 0`
  unfoldable pub record_success : Exec S (Unit {0})
  record_success w = (ok tt, record w { circuit = record w.circuit { failures = 0 } })

  unfoldable pub count_failure : Exec S ℕ
  count_failure w = (
    ok (w.circuit.failures + 1),
    record w { circuit = record w.circuit { failures = w.circuit.failures + 1 } },
  )

  unfoldable pub open_circuit : ℕ → Exec S (Unit {0})
  open_circuit until w = (ok tt, record w { circuit = record w.circuit { open_until = until } })

  unfoldable pub record_failure : Exec S (Unit {0})
  record_failure = do
    failures ← count_failure
    if leb circuit_failure_threshold failures
        then (do now ← date_now; open_circuit (now + circuit_cooldown_ms))
        else pure tt

  unfoldable pub own_circuit_open : Exec S Bool
  own_circuit_open = do now ← date_now; λ w. (ok (ltb now w.circuit.open_until), w)

module _ {S : Type 0} (R : Redis S) where
  -- The `catch` of one attempt; `e` is counted up already. The cutoff of the source, which may be
  -- negative and is removed too, is one less than the bound that is given here.
  unfoldable pub give_up_or_retry : ℕ → QueueEntry → Exec S (Unit {0})
  give_up_or_retry now e =
      if leb e.max_attempts e.attempt
      then (do
        zadd R dlq_queue now (entry e)
        moment ← date_now
        zremrangebyscore R dlq_queue (moment + 1 - dlq_retention_ms)
        del R (idem_key e.id)
        del R (lock_key e.id))
      else (do
        moment ← date_now
        zadd R pending_queue (moment + retry_delay e.attempt) (entry e)
        del R (lock_key e.id))

  unfoldable pub on_failure : ℕ → QueueEntry → Error → Exec S Bool
  on_failure now e error = do
    record_failure
    give_up_or_retry now (with_error (message_of error) e)
    pure false

  -- the `try` of one attempt
  unfoldable pub on_success : Result (List String) → QueueEntry → Exec S Bool
  on_success tokens e = do
    execute_operation R tokens e.op
    del R (idem_key e.id)
    del R (lock_key e.id)
    record_success
    pure true

  unfoldable pub attempt : Result (List String) → ℕ → QueueEntry → Exec S Bool
  attempt tokens now e = catch (on_success tokens e) (on_failure now e)

  -- One round of the loop, and whether it counts as processed; `owner` is WORKER_OWNER. The queue
  -- holds entries, which this module alone writes, and texts that do not parse.
  unfoldable pub process_entry : String → Result (List String) → ℕ → Text → Exec S Bool
  process_entry owner tokens now (entry e) = do
    stamp ← date_now
    claimed ←
        set_nx R (lock_key e.id) worker_lock_ttl_secs (plain (owner <> (":" <> decimal stamp)))
    if not claimed then pure false else do
      removed ← zrem R pending_queue (entry e)
      if not removed
          then (do del R (lock_key e.id); pure false)
          else attempt tokens now (next_attempt e)
  process_entry owner tokens now malformed = do
    zrem R pending_queue malformed
    zadd R dlq_queue now malformed
    pure false

  -- The loop: an exception that leaves a round ends the batch, and keeps the count so far.
  abbrev pub tally : Result Bool × World S → ℕ → (ℕ → Exec S ℕ) → Result ℕ × World S
  tally (ok true, w) n rest = rest (n + 1) w
  tally (ok false, w) n rest = rest n w
  tally (err e, w) n rest = (ok n, w)

  unfoldable pub process_batch : String → Result (List String) → ℕ → ℕ → List Text → Exec S ℕ
  process_batch owner tokens now n [] w = (ok n, w)
  process_batch owner tokens now n (m ∷ ms) w =
      tally (process_entry owner tokens now m w) n (λ k. process_batch owner tokens now k ms)

  -- the outer `try`
  unfoldable pub process_due : String → Result (List String) → Exec S ℕ
  process_due owner tokens =
      catch
        (do
          now ← date_now
          entries ← zrangebyscore R pending_queue now batch_size
          process_batch owner tokens now 0 entries)
        (λ _. pure 0)

  unfoldable pub process_pending_operations : String → Result (List String) → Exec S ℕ
  process_pending_operations owner tokens = do
    own ← own_circuit_open
    if own then pure 0 else do
      broken ← is_circuit_open
      if broken then pure 0 else do redis_pool; process_due owner tokens
