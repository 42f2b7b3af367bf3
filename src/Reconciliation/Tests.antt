-- ===== src/Reconciliation/Tests.antt =====
-- The queue of lib/reconciliation-worker.ts on the server in memory.
use brain_mate.Reconciliation.Fate.Claim.{claimed}
use brain_mate.Common.{if◌then◌else◌, ◌<>◌, decimal}
use brain_mate.Types.{plain}
use brain_mate.Common.{◌≡◌, refl, ◌<◌, none, some, List, [], ◌∷◌, arith, min, ◌-◌, ◌∙◌, eq_refl}
use brain_mate.Common.{◌+◌, ◌<◌}
use brain_mate.Types.{Text, number, entry, QueueEntry, Op, token_revocation, session_sync, same}
use brain_mate.Redis.{IsCounter}
use brain_mate.Redis.Memory.{Memory, memory, empty, memory-IsLawful}
use brain_mate.Exec.{redis_pool, World, ok, Wire, fine, lost, Reply, command}
use brain_mate.Commands.{incr, expire}
use brain_mate.Reconciliation.Keys.{
  session_version_key, idem_key, lock_key, pending_queue, generate_operation_id,
}
use brain_mate.Reconciliation.Version.{bump_session_version}
use brain_mate.Reconciliation.Operation.{execute_operation}
use brain_mate.Reconciliation.Enqueue.{TraceHeaders, new_entry, enqueue_reconciliation}
use brain_mate.Reconciliation.Worker.{process_entry}
use brain_mate.Reconciliation.Stale.{enqueue, process, bump, run, stale_sync_sends_nothing}
use brain_mate.Reconciliation.Fate.{Fate, process_entry-Fate}
use brain_mate.Reconciliation.Once.{enqueue_known, lost_enqueue}
use brain_mate.Exec.{err}
use brain_mate.Reconciliation.Keys.{dlq_queue}
use brain_mate.Errors.{failure}
use brain_mate.Reconciliation.Lost.{lost_retry}
use brain_mate.Reconciliation.Queued.{enqueue_new}
use brain_mate.Reconciliation.Window.Bound.{allowed_at, calls_at, used, allowed_at_lem}

-- a process at ten seconds, with a server and a gateway
abbrev process_with : Memory → List Wire → List Reply → World Memory
process_with s wire replies = record {
  redis = s;
  wire = wire;
  clock = 10000;
  ticks = [];
  replies = replies;
  sent = [];
  circuit = record { open_until = 0; failures = 0 };
  window = record { sec = 10; count = 198 };
  unusable = none;
  breaker = record { consecutive_errors = 0; open_until = 0; total_errors = 0; total_connects = 1 };
}

abbrev trace : TraceHeaders
trace = record { traceparent = none; tracestate = none }

abbrev fresh : World Memory
fresh = process_with empty [] []

abbrev sync : Op
sync = session_sync "s1" "u1" 99 0

abbrev bumped : World Memory
bumped = (bump_session_version memory "s1" fresh).1

fresh_numeric : IsCounter (memory.get empty (session_version_key "s1"))
unfolding memory
fresh_numeric = tt

bump_reply : bump_session_version memory "s1" fresh ≡ (ok 1, bumped)
unfolding memory bump_session_version redis_pool incr expire command session_version_key
bump_reply = refl

stale_sync_sends_nothing_example :
    (execute_operation memory (ok ("t" ∷ [])) sync (
      run memory (enqueue trace sync ∷ process "w" (ok ("t" ∷ [])) ∷ bump "s1" ∷ []) bumped)).1.sent
    ≡ (run memory (enqueue trace sync ∷ process "w" (ok ("t" ∷ [])) ∷ bump "s1" ∷ []) bumped).sent
stale_sync_sends_nothing_example =
    stale_sync_sends_nothing memory memory-IsLawful "s1" "u1" 0 99 0 (ok ("t" ∷ []))
      (enqueue trace sync ∷ process "w" (ok ("t" ∷ [])) ∷ bump "s1" ∷ []) fresh bumped fresh_numeric
      bump_reply (omega arith)

abbrev revocation : Op
revocation = token_revocation "j1" 60

abbrev queued : QueueEntry
queued = new_entry revocation 10000 trace

abbrev holding : World Memory
holding = process_with (memory.zadd empty pending_queue 10000 (entry queued)) [] []

lock_free : memory.get holding.redis (lock_key queued.id) ≡ none
unfolding memory
lock_free = refl

entry_there : memory.zscore holding.redis pending_queue (entry queued) ≡ some 10000
unfolding same new_entry generate_operation_id
entry_there = memory-IsLawful.zset.zscore-zadd _ _ _ _ _ _

process_entry-Fate_example :
    Fate memory 10000 queued
      (execute_operation memory (ok ("t" ∷ [])) queued.op (claimed memory "w" queued holding)).0
      (process_entry memory "w" (ok ("t" ∷ [])) 10000 (entry queued) holding).0
      (process_entry memory "w" (ok ("t" ∷ [])) 10000 (entry queued) holding).1
process_entry-Fate_example =
    process_entry-Fate memory memory-IsLawful "w" (ok ("t" ∷ [])) 10000 10000 queued holding
      (record { calm = refl }) lock_free entry_there

abbrev known : World Memory
known =
    process_with (memory.setex empty (idem_key (generate_operation_id revocation)) 60 (number 1)) []
      []

is_known : memory.get known.redis (idem_key (generate_operation_id revocation)) ≡ some (number 1)
unfolding generate_operation_id
is_known = memory-IsLawful.strings.get-setex _ _ _ _ _ ∙ rw (eq_refl) refl

enqueue_known_example :
    memory.zscore
      (enqueue_reconciliation memory trace revocation known).1.redis
      pending_queue
      (entry queued)
    ≡ memory.zscore known.redis pending_queue (entry queued)
enqueue_known_example =
    enqueue_known memory memory-IsLawful trace revocation known (number 1) (entry queued) is_known

room : memory.zcard empty pending_queue < 5000
unfolding memory
room = omega arith

unknown : memory.get empty (idem_key (generate_operation_id revocation)) ≡ none
unfolding memory
unknown = refl

enqueue_new_example :
    ((enqueue_reconciliation memory trace revocation fresh).0 ≡ ok tt)
    × ((memory.zscore
            (enqueue_reconciliation memory trace revocation fresh).1.redis
            pending_queue
            (entry (new_entry revocation 10000 trace))
          ≡ some 10000)
        × (memory.get
              (enqueue_reconciliation memory trace revocation fresh).1.redis
              (idem_key (generate_operation_id revocation))
            ≡ some (number 1)))
enqueue_new_example =
    enqueue_new memory memory-IsLawful trace revocation fresh refl refl refl (omega arith)
      (omega arith) room unknown

abbrev broken_off : World Memory
broken_off = process_with empty (fine ∷ fine ∷ fine ∷ fine ∷ lost "timeout" ∷ []) []

lost_enqueue_example :
    ((enqueue_reconciliation memory trace revocation broken_off).0 ≡ ok tt)
    × (((x : Text)
          → memory.zscore
              (enqueue_reconciliation memory trace revocation broken_off).1.redis
              pending_queue
              x
            ≡ memory.zscore broken_off.redis pending_queue x)
        × (memory.get
              (enqueue_reconciliation memory trace revocation broken_off).1.redis
              (idem_key (generate_operation_id revocation))
            ≡ some (number 1)))
lost_enqueue_example =
    lost_enqueue memory memory-IsLawful trace "j1" 60 broken_off "timeout" [] refl refl
      (omega arith) (omega arith) refl room unknown

-- three more calls in a second that has two left
allowed_at_example : allowed_at 10 3 fresh ≡ min (calls_at 10 3 fresh) (200 - used 10 fresh)
allowed_at_example = allowed_at_lem 10 3 fresh (omega arith)

-- the queue with the entry, its idempotency key, and a third command that is lost
abbrev losing : World Memory
losing =
    process_with
      (memory.zadd (memory.setex empty (idem_key queued.id) 60 (number 1)) pending_queue 10000
        (entry queued))
      (fine ∷ fine ∷ lost "timeout" ∷ []) []

losing_lock : memory.get losing.redis (lock_key queued.id) ≡ none
unfolding memory idem_key lock_key new_entry generate_operation_id
losing_lock = refl

losing_key : memory.get losing.redis (idem_key queued.id) ≡ some (number 1)
losing_key =
    memory-IsLawful.strings.get-zadd _ _ _ _ _
    ∙ memory-IsLawful.strings.get-setex _ _ _ _ _
    ∙ rw (eq_refl) refl

losing_there : memory.zscore losing.redis pending_queue (entry queued) ≡ some 10000
unfolding same new_entry generate_operation_id
losing_there = memory-IsLawful.zset.zscore-zadd _ _ _ _ _ _

attempts_left : queued.attempt + 1 < queued.max_attempts
unfolding new_entry
attempts_left = omega arith

lost_retry_example :
    ((process_entry memory "w" (ok []) 10000 (entry queued) losing).0 ≡ err (failure "timeout"))
    × (((x : Text)
          → memory.zscore
              (process_entry memory "w" (ok []) 10000 (entry queued) losing).1.redis
              pending_queue
              x
            ≡ (if same (entry queued) x then none else memory.zscore losing.redis pending_queue x))
        × (((x : Text)
              → memory.zscore
                  (process_entry memory "w" (ok []) 10000 (entry queued) losing).1.redis
                  dlq_queue
                  x
                ≡ memory.zscore losing.redis dlq_queue x)
            × ((memory.get
                    (process_entry memory "w" (ok []) 10000 (entry queued) losing).1.redis
                    (lock_key queued.id)
                  ≡ some (plain ("w" <> (":" <> decimal 10000))))
                × (memory.get
                      (process_entry memory "w" (ok []) 10000 (entry queued) losing).1.redis
                      (idem_key queued.id)
                    ≡ some (number 1)))))
lost_retry_example =
    lost_retry memory memory-IsLawful "w" 10000 10000 queued (number 1) "timeout" [] losing refl
      refl losing_lock losing_key losing_there attempts_left
