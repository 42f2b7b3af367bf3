-- ===== src/Queue/Tests.antt =====
-- lib/writeright-queue.ts on the server in memory.
use brain_mate.Common.{
  ℕ, suc, String, ◌≡◌, ◌↔◌, refl, ◌+◌, ◌-◌, ◌<◌, ◌==◌, if◌then◌else◌, true, false, none, some, List,
  [], ◌∷◌, length, arith, field,
}
use brain_mate.Types.{result, job, WritingJobPayload, AiJobResult}
use brain_mate.Errors.{failure}
use brain_mate.Redis.Memory.{Memory, memory, empty, memory-IsLawful}
use brain_mate.Exec.{World, ok, err, Wire, fine, lost}
use brain_mate.Queue.Keys.{jobs_key, job_status_key, job_result_key, rate_limit_key}
use brain_mate.Queue.Jobs.{
  processing, status_name, default_to, enqueue_write_right_job, set_job_status, get_job_status,
}
use brain_mate.Queue.Jobs.Status.{set_then_get, enqueue_then_get}
use brain_mate.Queue.Responses.{publish_job_result, read_job_result}
use brain_mate.Queue.Responses.RoundTrip.{publish_then_read}
use brain_mate.Queue.RateLimit.{Verdict, check_rate_limit, after_checks}
use brain_mate.Queue.RateLimit.Window.{admits_first}
use brain_mate.Queue.RateLimit.Stuck.{lost_expire}

abbrev process_with : List Wire → World Memory
process_with wire = record {
  redis = empty;
  wire = wire;
  clock = 10000;
  ticks = [];
  replies = [];
  sent = [];
  circuit = record { open_until = 0; failures = 0 };
  window = record { sec = 0; count = 0 };
  unusable = none;
  breaker = record { consecutive_errors = 0; open_until = 0; total_errors = 0; total_connects = 1 };
}

abbrev calm : World Memory
calm = process_with []

-- a stand-in for `toISOString`
abbrev iso : ℕ → String
iso n = "1970-01-01T00:00:10.000Z"

abbrev payload : WritingJobPayload
payload = record {
  id = "j1";
  chat_id = "c1";
  user_id = "u1";
  message_id = "m1";
  content = "helo";
  tone = "formal";
  mode = "email";
  output_language = none;
  history = [];
  intensity = 3;
  quick = false;
  attempt = 0;
  traceparent = none;
}

abbrev answer : AiJobResult
answer = record {
  improved_text = "Hello";
  english_version = none;
  teaching = record { mistakes = []; better_versions = []; explanations = [] };
  follow_up = "";
  suggestions = none;
  scores = none;
  model = "m";
  prompt_tokens = 3;
  completion_tokens = 4;
}

no_counter : memory.get empty (rate_limit_key "u1") ≡ none
unfolding memory
no_counter = refl

no_ttl : memory.ttl empty (rate_limit_key "u1") ≡ none
unfolding memory
no_ttl = refl

short_stream : length (memory.stream empty (job_result_key "j1")) < 1000
unfolding memory
short_stream = omega arith

admits_first_example :
    (v : Verdict) × (((check_rate_limit memory "u1" 10 (after_checks memory "u1" 10 12 calm)).0
        ≡ ok v)
      × (((v.allowed ≡ true) ↔ (12 < 10)) × (v.remaining ≡ 10 - (12 + 1))))
admits_first_example =
    admits_first memory memory-IsLawful "u1" 10 12 calm refl refl (omega arith) no_counter

lost_expire_example :
    ((check_rate_limit memory "u1" 10 (process_with (fine ∷ lost "timeout" ∷ []))).0
      ≡ err (failure "timeout"))
    × (memory.ttl
          (after_checks memory "u1" 10 (suc 30) (process_with (fine ∷ lost "timeout" ∷ []))).redis
          (rate_limit_key "u1")
        ≡ none)
lost_expire_example =
    lost_expire memory memory-IsLawful "u1" 10 (process_with (fine ∷ lost "timeout" ∷ [])) "timeout"
      [] 30 refl (omega arith) refl no_counter no_ttl

set_then_get_example :
    (get_job_status memory iso "j1" (set_job_status memory iso "j1" processing 60 [] calm).1).0
    ≡ ok (
        some (record {
          status = "processing";
          created_at =
              default_to "" (field "created_at" (memory.hgetall empty (job_status_key "j1")));
          user_id = default_to "" (field "user_id" (memory.hgetall empty (job_status_key "j1")));
          chat_id = default_to "" (field "chat_id" (memory.hgetall empty (job_status_key "j1")));
          error = field "error" (memory.hgetall empty (job_status_key "j1"));
        }))
unfolding status_name
set_then_get_example =
    set_then_get memory memory-IsLawful iso "j1" processing 60 [] calm refl (omega arith)

enqueue_then_get_example :
    (memory.zscore (enqueue_write_right_job memory iso payload calm).1.redis jobs_key (job payload)
      ≡ some 10000)
    × ((get_job_status memory iso "j1" (enqueue_write_right_job memory iso payload calm).1).0
        ≡ ok (
            some (record {
              status = "pending";
              created_at = "1970-01-01T00:00:10.000Z";
              user_id = "u1";
              chat_id = "c1";
              error = field "error" (memory.hgetall empty (job_status_key "j1"));
            })))
enqueue_then_get_example =
    enqueue_then_get memory memory-IsLawful iso payload calm refl refl (omega arith)

publish_then_read_example :
    (read_job_result memory "j1" (publish_job_result memory "j1" answer calm).1).0 ≡ (
      if length (memory.stream empty (job_result_key "j1")) == 0
      then ok (some (result answer))
      else (read_job_result memory "j1" calm).0)
publish_then_read_example =
    publish_then_read memory memory-IsLawful "j1" answer calm refl refl (omega arith) short_stream
