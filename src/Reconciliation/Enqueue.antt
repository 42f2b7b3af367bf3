-- ===== src/Reconciliation/Enqueue.antt =====
-- `enqueueReconciliation` of lib/reconciliation-worker.ts.
use brain_mate.Common.{ℕ, String, not, Option, none, leb, if◌then◌else◌}
use brain_mate.Types.{number, entry, QueueEntry, Op}
use brain_mate.Redis.{Redis}
use brain_mate.Exec.{Exec, pure, catch, date_now, is_circuit_open, redis_pool, ◌>>=◌, ◌>>◌}
use brain_mate.Commands.{zadd, zcard, exists, setex}
use brain_mate.Reconciliation.Keys.{
  pending_queue, dlq_queue, idem_key, idem_ttl_secs, max_attempts, max_queue_size,
  generate_operation_id,
}
use brain_mate.Reconciliation.Window.{allow_enqueue_now}
use brain_mate.Reconciliation.Version.{ensure_session_version}

-- The headers of `injectTraceContext`.
pub record TraceHeaders : Type 0 where
  pub traceparent : Option String
  pub tracestate : Option String

-- the entry that is queued
unfoldable pub new_entry : Op → ℕ → TraceHeaders → QueueEntry
new_entry op now trace = record {
  id = generate_operation_id op;
  op = op;
  attempt = 0;
  max_attempts = max_attempts;
  created_at = now;
  traceparent = trace.traceparent;
  tracestate = trace.tracestate;
  last_error = none;
}

module _ {S : Type 0} (R : Redis S) where
  -- the idempotency check, and the two writes
  unfoldable pub insert_once : QueueEntry → Exec S (Unit {0})
  insert_once e = do
    known ← exists R (idem_key e.id)
    if known then pure tt else do
      setex R (idem_key e.id) idem_ttl_secs (number 1)
      score ← date_now
      zadd R pending_queue score (entry e)

  -- the `try` block, from the queue's size on
  unfoldable pub submit : QueueEntry → Exec S (Unit {0})
  submit e = do
    pending_count ← zcard R pending_queue
    zcard R dlq_queue
    if leb max_queue_size pending_count
        then pure tt
        else do ensure_session_version R e.op; insert_once e

  unfoldable pub enqueue_reconciliation : TraceHeaders → Op → Exec S (Unit {0})
  enqueue_reconciliation trace op = do
    allowed ← allow_enqueue_now
    if not allowed then pure tt else do
      now ← date_now
      broken ← is_circuit_open
      if broken
          then pure tt
          else do redis_pool; catch (submit (new_entry op now trace)) (λ _. pure tt)
