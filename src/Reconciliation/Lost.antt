-- ===== src/Reconciliation/Lost.antt =====
-- `processPendingOperations` of lib/reconciliation-worker.ts where Redis fails after the claim.
use brain_mate.Common.{if◌then◌else◌, eq_refl}
use brain_mate.Types.{same}
use brain_mate.Common.{
  ℕ, String, ◌≡◌, refl, ◌∙◌, ◌+◌, ◌<◌, true, false, none, some, List, [], ◌∷◌, arith, str_eq,
  is_some, apart, str_eq-false, ◌<>◌, decimal,
}
use brain_mate.Types.{Text, plain, entry, QueueEntry}
use brain_mate.Errors.{failure}
use brain_mate.Redis.{Redis, IsLawful}
use brain_mate.Exec.{World, ok, err, Wire, fine, lost, command, date_now}
use brain_mate.Commands.{zadd, zrem, set_nx, claim, del}
use brain_mate.Reconciliation.Keys.{
  pending_queue, dlq_queue, lock_key, idem_key, worker_lock_ttl_secs,
}
use brain_mate.Reconciliation.Operation.{execute_operation}
use brain_mate.Reconciliation.Worker.{
  count_failure, open_circuit, record_failure, give_up_or_retry, on_failure, on_success, attempt,
  process_entry,
}
use brain_mate.Reconciliation.Fate.Outcomes.{key_apart_pending, key_apart_dlq}

lock_apart_idem : (id : String) → str_eq (lock_key id) (idem_key id) ≡ false
unfolding lock_key idem_key
lock_apart_idem id =
    str_eq-false _ _ (apart "reconciliation:lock:" "reconciliation:idem:" "" id id refl refl)

module _ {S : Type 0} (R : Redis S) (laws : IsLawful R) where
  lost_state :
      (owner : String) (now : ℕ) (e : QueueEntry) (m : String) (ws : List Wire) (w : World S)
      → w.wire ≡ fine ∷ fine ∷ lost m ∷ ws
      → w.ticks ≡ []
      → R.get w.redis (lock_key e.id) ≡ none
      → is_some (
          R.zscore
            (R.setex w.redis
              (lock_key e.id)
              worker_lock_ttl_secs
              (plain (owner <> (":" <> decimal w.clock))))
            pending_queue
            (entry e))
        ≡ true
      → e.attempt + 1 < e.max_attempts
      → ((process_entry R owner (ok []) now (entry e) w).0 ≡ err (failure m))
        × ((process_entry R owner (ok []) now (entry e) w).1.redis
            ≡ R.zrem
                (R.setex w.redis
                  (lock_key e.id)
                  worker_lock_ttl_secs
                  (plain (owner <> (":" <> decimal w.clock))))
                pending_queue
                (entry e))
  unfolding process_entry attempt on_success on_failure give_up_or_retry record_failure
      count_failure open_circuit execute_operation set_nx claim zrem zadd del command date_now
  lost_state owner now e m ws w h t free there more = ground arith

  -- A retry whose ZADD is lost loses the operation: the worker claims the entry of a due operation,
  -- the attempt fails (there is no internal token), the entry has attempts left, and the command
  -- that would queue it again is lost. Then the round throws, the entry is gone from the pending
  -- queue, and no member has come to it or to the dead-letter queue, whose other members are as
  -- before: neither the entry as it was nor one that is counted up. The entry's lock is set, and
  -- its idempotency key stays set, so that by `enqueue_known` an enqueue does not bring the
  -- operation back either. The clock stands still, the lock was free, and the first two commands
  -- are answered.
  pub lost_retry :
      (owner : String) (now n : ℕ) (e : QueueEntry) (v : Text) (m : String) (ws : List Wire)
      (w : World S)
      → w.wire ≡ fine ∷ fine ∷ lost m ∷ ws
      → w.ticks ≡ []
      → R.get w.redis (lock_key e.id) ≡ none
      → R.get w.redis (idem_key e.id) ≡ some v
      → R.zscore w.redis pending_queue (entry e) ≡ some n
      → e.attempt + 1 < e.max_attempts
      → ((process_entry R owner (ok []) now (entry e) w).0 ≡ err (failure m))
        × (((x : Text)
              → R.zscore (process_entry R owner (ok []) now (entry e) w).1.redis pending_queue x
                ≡ (if same (entry e) x then none else R.zscore w.redis pending_queue x))
            × (((x : Text)
                  → R.zscore (process_entry R owner (ok []) now (entry e) w).1.redis dlq_queue x
                    ≡ R.zscore w.redis dlq_queue x)
                × ((R.get (process_entry R owner (ok []) now (entry e) w).1.redis (lock_key e.id)
                      ≡ some (plain (owner <> (":" <> decimal w.clock))))
                    × (R.get (process_entry R owner (ok []) now (entry e) w).1.redis (idem_key e.id)
                        ≡ some v))))
  lost_retry owner now n e v m ws w h t free key there more =
      let still =
        laws.zset.zscore-setex w.redis (lock_key e.id) worker_lock_ttl_secs
          (plain (owner <> (":" <> decimal w.clock))) pending_queue (entry e)
          (key_apart_pending e.id)
        ∙ there in
      let (throws, state) = lost_state owner now e m ws w h t free (rw still refl) more in
      (
        throws,
        (
          λ x.
              rw
                (
                  state,
                  laws.zset.zscore-zrem,
                  laws.zset.zscore-setex _ _ _ _ _ x (key_apart_pending e.id),
                )
                refl,
          (
            λ x.
                rw
                  (
                    state,
                    laws.zset.zscore-zrem,
                    laws.zset.zscore-setex _ _ _ _ _ x (key_apart_dlq e.id),
                  )
                  refl,
            (
              rw (state, laws.strings.get-zrem, laws.strings.get-setex, eq_refl (lock_key e.id))
                  refl,
              rw (state, laws.strings.get-zrem, laws.strings.get-setex, lock_apart_idem e.id) key,
            ),
          ),
        ),
      )
