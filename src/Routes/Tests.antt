-- ===== src/Routes/Tests.antt =====
-- The route handlers on the server in memory.
use brain_mate.Routes.Session.Retried.{sync_retried}
use brain_mate.Routes.Session.{sync, sync_failed}
use brain_mate.Common.{◌<◌, ◌<>◌, decimal, true}
use brain_mate.Types.{Op, entry}
use brain_mate.Reconciliation.Keys.{pending_queue, idem_key, max_queue_size, generate_operation_id}
use brain_mate.Reconciliation.Version.{parse_version}
use brain_mate.Reconciliation.Enqueue.{new_entry}
use brain_mate.Common.{field}
use brain_mate.Common.{String, ◌≡◌, refl, true, arith, Option, none, some, [], ◌∷◌}
use brain_mate.Types.{AiJobResult, session_sync}
use brain_mate.Redis.Memory.{Memory, memory, empty, memory-IsLawful}
use brain_mate.Exec.{redis_pool, World, Exec, ok, err, replied, unreachable, command}
use brain_mate.Queue.Keys.{job_status_key, job_result_key}
use brain_mate.Redis.{IsCounter}
use brain_mate.Commands.{incr, expire}
use brain_mate.Queue.Keys.{ns}
use brain_mate.Reconciliation.Keys.{session_version_key}
use brain_mate.Reconciliation.Version.{bump_session_version}
use brain_mate.Reconciliation.Operation.{execute_operation}
use brain_mate.Reconciliation.Enqueue.{TraceHeaders}
use brain_mate.Routes.Session.{Auth, logout}
use brain_mate.Routes.Session.LoggedOut.{history, syncs, logs_out, logout_stops_syncs}
use brain_mate.Routes.Session.GivesUp.{logout_gives_up}
use brain_mate.Queue.Jobs.{enqueue_write_right_job}
use brain_mate.Types.{WritingJobPayload}
use brain_mate.Routes.Poll.{in_status}
use brain_mate.Routes.Completion.Pending.{completed_polls_pending}
use brain_mate.Common.{false}
use brain_mate.Routes.Poll.{JobRow, job_not_found, poll}
use brain_mate.Routes.Poll.Owner.{foreign_job_hidden}
use brain_mate.Routes.Completion.{publish_completion}
use brain_mate.Routes.Completion.Unseen.{completion_unseen}

abbrev calm : World Memory
calm = record {
  redis = memory.hset empty (job_status_key "j1") (("status", "pending") ∷ []);
  wire = [];
  clock = 10000;
  ticks = [];
  replies = [];
  sent = [];
  circuit = record { open_until = 0; failures = 0 };
  window = record { sec = 0; count = 0 };
  unusable = none;
  breaker = record { consecutive_errors = 0; open_until = 0; total_errors = 0; total_connects = 1 };
}

abbrev answer : AiJobResult
answer = record {
  improved_text = "Hello";
  english_version = none;
  teaching = record { mistakes = []; better_versions = []; explanations = [] };
  follow_up = "";
  suggestions = none;
  scores = none;
  model = "m";
  prompt_tokens = 3;
  completion_tokens = 4;
}

completion_unseen_example :
    (memory.hgetall
        (publish_completion memory (λ n. "now") "j1" "u1" answer calm).1.redis
        (job_status_key "j1")
      ≡ memory.hgetall calm.redis (job_status_key "j1"))
    × (memory.stream
          (publish_completion memory (λ n. "now") "j1" "u1" answer calm).1.redis
          (job_result_key "j1")
        ≡ memory.stream calm.redis (job_result_key "j1"))
completion_unseen_example =
    completion_unseen memory memory-IsLawful (λ n. "now") "j1" "u1" answer calm

abbrev trace : TraceHeaders
trace = record { traceparent = none; tracestate = none }

abbrev bearer : Auth
bearer = record {
  user_id = some "u1";
  session_id = some "s1";
  token = some "jwt";
  jti = some "j1";
  exp = some 99;
}

version_missing : IsCounter (memory.get calm.redis (session_version_key "s1"))
unfolding memory
version_missing = tt

bump_answered : (bump_session_version memory "s1" calm).0 ≡ ok 1
unfolding memory bump_session_version redis_pool incr expire command session_version_key
bump_answered = refl

logout_stops_syncs_example :
    (execute_operation memory (ok ("t" ∷ [])) (session_sync "s1" "u1" 99 0) (
      history memory
        (syncs trace (ok ("t" ∷ [])) bearer ∷ logs_out trace (ok []) bearer ∷ [])
        (logout memory trace (ok ("t" ∷ [])) bearer calm).1)).1.sent
    ≡ (history memory
        (syncs trace (ok ("t" ∷ [])) bearer ∷ logs_out trace (ok []) bearer ∷ [])
        (logout memory trace (ok ("t" ∷ [])) bearer calm).1).sent
logout_stops_syncs_example =
    logout_stops_syncs memory memory-IsLawful trace (ok ("t" ∷ [])) (ok ("t" ∷ [])) bearer "s1" "u1"
      0 99 0 (syncs trace (ok ("t" ∷ [])) bearer ∷ logs_out trace (ok []) bearer ∷ []) calm refl
      version_missing bump_answered (omega arith)

abbrev refusing : World Memory
refusing = record calm { replies = unreachable "reset" ∷ replied 401 "" ∷ [] }

logout_gives_up_example :
    ((logout memory trace (ok ("t" ∷ [])) bearer refusing).0 ≡ ok tt)
    × ((logout memory trace (ok ("t" ∷ [])) bearer refusing).1.redis
        ≡ (bump_session_version memory "s1" refusing).1.redis)
logout_gives_up_example =
    logout_gives_up memory trace "t" "jwt" "s1" "reset" "" bearer [] refusing refl refl refl refl

abbrev busy : World Memory
busy = record calm { replies = replied 429 "slow down" ∷ [] }

abbrev queued_sync : Op
queued_sync =
    session_sync "s1" "u1" 99 (parse_version (memory.get busy.redis (session_version_key "s1")))

sync_unknown : memory.get busy.redis (idem_key (generate_operation_id queued_sync)) ≡ none
unfolding memory
sync_unknown = refl

room : memory.zcard busy.redis pending_queue < max_queue_size
unfolding memory
room = omega arith

sync_retried_example :
    ((sync memory trace (ok ("t" ∷ [])) bearer busy).0
      ≡ ok
          (sync_failed 429 ("Session sync failed: " <> (decimal 429 <> (" " <> "slow down"))) true))
    × (memory.zscore
          (sync memory trace (ok ("t" ∷ [])) bearer busy).1.redis
          pending_queue
          (entry (new_entry queued_sync 10000 trace))
        ≡ some 10000)
sync_retried_example =
    sync_retried memory memory-IsLawful trace bearer "u1" "s1" "t" "slow down" 99 [] busy refl refl
      refl refl refl refl (omega arith) (omega arith) refl room sync_unknown

-- a table with no row for the caller
abbrev no_row : String → String → Exec Memory (Option JobRow)
no_row job_id user_id w = (ok none, w)

abbrev owned : World Memory
owned = record calm {
  redis =
      memory.hset empty (job_status_key "j1") (("status", "completed") ∷ ("user_id", "u1") ∷ []);
}

owned_by : field "user_id" (memory.hgetall owned.redis (job_status_key "j1")) ≡ some "u1"
unfolding memory job_status_key ns
owned_by = refl

foreign_job_hidden_example :
    (poll memory (λ n. "now") (λ id. true) no_row "j1" (some "u2") owned).0 ≡ err job_not_found
foreign_job_hidden_example =
    foreign_job_hidden memory (λ n. "now") (λ id. true) no_row "u2" "j1" "u1" owned refl refl
      owned_by refl refl (λ v. refl)

abbrev payload : WritingJobPayload
payload = record {
  id = "j2";
  chat_id = "c1";
  user_id = "u1";
  message_id = "m1";
  content = "helo";
  tone = "formal";
  mode = "email";
  output_language = none;
  history = [];
  intensity = 3;
  quick = false;
  attempt = 0;
  traceparent = none;
}

completed_polls_pending_example :
    (poll memory
      (λ n. "now")
      (λ id. true)
      no_row
      "j2"
      (some "u1")
      (publish_completion memory
        (λ n. "now")
        "j2"
        "u1"
        answer
        (enqueue_write_right_job memory (λ n. "now") payload calm).1).1).0
    ≡ ok (in_status "pending")
completed_polls_pending_example =
    completed_polls_pending memory memory-IsLawful (λ n. "now") (λ id. true) no_row payload answer
      calm refl refl (omega arith) refl refl
