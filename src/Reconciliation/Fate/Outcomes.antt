-- ===== src/Reconciliation/Fate/Outcomes.antt =====
-- What the worker's steps do to Redis while it answers.
use brain_mate.Common.{
  ℕ, String, ◌≡◌, refl, sym, ◌+◌, ◌-◌, ◌≤◌, ◌<◌, Bool, true, false, arith, str_eq, apart,
  str_eq-false,
}
use brain_mate.Types.{Text, entry, QueueEntry, same, same_iff}
use brain_mate.Redis.{Redis}
use brain_mate.Exec.{World, ok, Exec, date_now, command, pure, ◌>>◌}
use brain_mate.Exec.Keeps.{IsCalm}
use brain_mate.Commands.{zadd, zremrangebyscore, del}
use brain_mate.Reconciliation.Keys.{pending_queue, dlq_queue, idem_key, lock_key, dlq_retention_ms}
use brain_mate.Reconciliation.Worker.{
  retry_delay, record_success, count_failure, open_circuit, record_failure, give_up_or_retry,
}

module _ {S : Type 0} (R : Redis S) where
  -- what an attempt that succeeded does next
  abbrev pub settle : QueueEntry → Exec S Bool
  settle e = do del R (idem_key e.id); del R (lock_key e.id); record_success; pure true

  pub settle_outcome :
      (e : QueueEntry) (w : World S)
      → IsCalm w
      → (settle e w).0 ≡ ok true
        × ((settle e w).1.redis ≡ R.del (R.del w.redis (idem_key e.id)) (lock_key e.id))
  unfolding del command record_success
  settle_outcome e w p = ground arith

  pub record_failure_outcome :
      (w : World S)
      → IsCalm w
      → (record_failure w).0 ≡ ok tt
        × ((record_failure w).1.redis ≡ w.redis)
        × ((record_failure w).1.wire ≡ w.wire)
  unfolding record_failure count_failure open_circuit date_now
  record_failure_outcome w p = ground arith

  pub retry_outcome :
      (now : ℕ) (e : QueueEntry) (w : World S)
      → IsCalm w
      → e.attempt < e.max_attempts
      → (give_up_or_retry R now e w).0 ≡ ok tt
        × ((give_up_or_retry R now e w).1.redis
            ≡ R.del
                (R.zadd w.redis pending_queue
                  ((give_up_or_retry R now e w).1.clock + retry_delay e.attempt)
                  (entry e))
                (lock_key e.id))
  unfolding give_up_or_retry date_now zadd del command
  retry_outcome now e w p h = ground arith

  pub give_up_outcome :
      (now : ℕ) (e : QueueEntry) (w : World S)
      → IsCalm w
      → e.max_attempts ≤ e.attempt
      → (give_up_or_retry R now e w).0 ≡ ok tt
        × ((give_up_or_retry R now e w).1.redis
            ≡ R.del
                (R.del
                  (R.zremrangebyscore
                    (R.zadd w.redis dlq_queue now (entry e))
                    dlq_queue
                    ((give_up_or_retry R now e w).1.clock + 1 - dlq_retention_ms))
                  (idem_key e.id))
                (lock_key e.id))
  unfolding give_up_or_retry date_now zadd zremrangebyscore del command
  give_up_outcome now e w p h = ground arith

-- The bookkeeping keys are not the queues.
pub key_apart_pending : (id : String) → str_eq (lock_key id) pending_queue ≡ false
unfolding lock_key
key_apart_pending id =
    str_eq-false _ _ (apart "reconciliation:lock:" "reconciliation:pendi" "ng" id "" refl refl)

pub key_apart_dlq : (id : String) → str_eq (lock_key id) dlq_queue ≡ false
unfolding lock_key
key_apart_dlq id =
    str_eq-false _ _
      (λ e. apart "reconciliation:dlq" "reconciliation:loc" "k:" "" id refl refl (sym e))

pub idem_apart_dlq : (id : String) → str_eq (idem_key id) dlq_queue ≡ false
unfolding idem_key
idem_apart_dlq id =
    str_eq-false _ _
      (λ e. apart "reconciliation:dlq" "reconciliation:ide" "m:" "" id refl refl (sym e))

pub same_refl : (m : Text) → same m m ≡ true
same_refl m = (same_iff m m).1 refl
