-- ===== src/Reconciliation/Lifecycle/Tests.antt =====
-- An operation of two attempts, while the gateway is down, on the server in memory.
use brain_mate.Reconciliation.Fate.Claim.{claimed}
use brain_mate.Common.{◌≡◌, refl, ◌+◌, ◌<◌, ◌⊎◌, none, some, [], ◌∷◌, arith}
use brain_mate.Types.{QueueEntry, session_sync, entry, same}
use brain_mate.Errors.{message_of}
use brain_mate.Redis.Memory.{Memory, memory, empty, memory-IsLawful}
use brain_mate.Exec.{World, ok, command, date_now, fetch, fetch_body}
use brain_mate.Commands.{set_nx, zrem, zadd, del, get, claim, setex}
use brain_mate.Reconciliation.Keys.{pending_queue, lock_key, session_version_key}
use brain_mate.Reconciliation.Version.{get_session_version, read_session_version}
use brain_mate.Reconciliation.Gateway.{try_tokens, fetch_with_token_fallback}
use brain_mate.Reconciliation.Operation.{perform, execute_operation}
use brain_mate.Reconciliation.Worker.{
  retry_delay, next_attempt, with_error, record_success, count_failure, record_failure,
  give_up_or_retry, on_failure, on_success, attempt, process_entry,
}
use brain_mate.Reconciliation.Lifecycle.{
  Phase, waiting, Steps, IsSettled, Shows, IsRetried, untried, again, life_refines,
}

abbrev process_with : Memory → World Memory
process_with s = record {
  redis = s;
  wire = [];
  clock = 10000;
  ticks = [];
  replies = [];
  sent = [];
  circuit = record { open_until = 0; failures = 0 };
  window = record { sec = 0; count = 0 };
  unusable = none;
  breaker = record { consecutive_errors = 0; open_until = 0; total_errors = 0; total_connects = 1 };
}

abbrev first : QueueEntry
first = record {
  id = "e1";
  op = session_sync "s1" "u1" 99 0;
  attempt = 0;
  max_attempts = 2;
  created_at = 9000;
  traceparent = none;
  tracestate = none;
  last_error = none;
}

abbrev second : QueueEntry
second = with_error "fetch failed" (next_attempt first)

abbrev holding : QueueEntry → World Memory
holding e = process_with (memory.zadd empty pending_queue 10000 (entry e))

first_fails :
    IsRetried memory first "fetch failed"
      (process_entry memory "w" (ok ("t" ∷ [])) 10000 (entry first) (holding first))
unfolding memory command date_now fetch fetch_body set_nx zrem zadd del get claim setex
    pending_queue lock_key session_version_key get_session_version read_session_version try_tokens
    fetch_with_token_fallback perform execute_operation retry_delay next_attempt with_error
    record_success count_failure record_failure give_up_or_retry on_failure on_success attempt
    process_entry same message_of
first_fails = record { reply = refl; more = omega arith; queued = (10000 + retry_delay 1, refl) }

second_free : memory.get (holding second).redis (lock_key second.id) ≡ none
unfolding memory
second_free = refl

second_there : memory.zscore (holding second).redis pending_queue (entry second) ≡ some 10000
unfolding same
second_there = memory-IsLawful.zset.zscore-zadd _ _ _ _ _ _

life_refines_example :
    (p : Phase) × (Steps 2 2 (waiting 0) p
      × (Shows memory 10000 second p
            (execute_operation memory
              (ok ("t" ∷ []))
              second.op
              (claimed memory "w" second (holding second))).0
            (process_entry memory "w" (ok ("t" ∷ [])) 10000 (entry second) (holding second)).1
          × ((memory.zscore
                  (process_entry memory "w"
                    (ok ("t" ∷ []))
                    10000
                    (entry second)
                    (holding second)).1.redis
                  pending_queue
                  (entry second)
                ≡ none)
              × (IsSettled p ⊎ (0 + 2 < 2)))))
life_refines_example =
    life_refines memory memory-IsLawful first second 1 "w" (ok ("t" ∷ [])) 10000 10000
      (holding second)
      (again "fetch failed" "w" (ok ("t" ∷ [])) 10000 (holding first) untried first_fails)
      (record { calm = refl }) second_free second_there
