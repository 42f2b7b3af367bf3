-- ===== src/Routes/Message/Tests.antt =====
-- POST of app/api/writeright/message/route.ts on the server in memory and tables that answer.
use brain_mate.Common.{
  ℕ, String, ◌≡◌, refl, ◌==◌, if◌then◌else◌, true, false, Option, none, some, List, [], ◌∷◌, arith,
  str_eq, is_some, length, Fields,
}
use brain_mate.Types.{pending_reply}
use brain_mate.Redis.Memory.{Memory, memory, empty, memory-IsLawful}
use brain_mate.Exec.{World, ok, err, pure}
use brain_mate.Routes.Message.Input.{Value, text, MessageInput}
use brain_mate.Routes.Message.Parts.{MessageRequest, Posted, Runtime, Tables}
use brain_mate.Routes.Message.Input.{
  parse_enum, parse_enum_or, parse_intensity, parse_quick, parse_uuid, parse_text, parse_message,
  is_control, drop_controls, is_space, trim_start, trim, sanitize_input, normalize_idempotency_key,
  has_gmail_ref,
}
use brain_mate.Routes.Message.Admit.{
  tier_rate_limits, get_max_requests_per_minute, limit_for, token_limit, has_code,
  build_rate_limit_headers, check_quota, judge, unless_limited, judge_depth, unless_busy,
  limit_rate, limit_depth, admit_message,
}
use brain_mate.Routes.Message.Parts.{
  extract_content, to_history, format_emails, with_emails, invalidate_stats_cache,
  increment_quota_usage, fetch_chat_history, keep_reply,
}
use brain_mate.Routes.Quota.{tier_limits, quota_of, quota_for, get_quota}
use brain_mate.Routes.Message.Post.{
  Valid, validate_input, validate_body, validate_as, validate, job_payload, estimated_tokens,
  input_hash, reply_cached, from_cache, queued_content, enqueue_job, accept, queue_job,
  answer_or_queue, process_saved, save_message, submit_message, reply_or_submit, prior_reply,
  post_valid, post_validated, post,
}
use brain_mate.Commands.{batch, get, setex, del, incr, expire, zcard}
use brain_mate.Exec.{command, date_now, is_circuit_open}
use brain_mate.Queue.Responses.{
  parse_cached, get_idempotent_response, set_idempotent_response, get_cached_ai_response,
  compute_input_hash,
}
use brain_mate.Queue.RateLimit.{verdict, check_rate_limit}
use brain_mate.Queue.Jobs.{enqueue_write_right_job, first_fields, parse_json}
use brain_mate.Queue.Keys.{ns, jobs_key, job_status_key, cache_key, rate_limit_key, idempotency_key}
use brain_mate.Routes.Completion.{stats_key}
use brain_mate.Common.{decimal}
use brain_mate.Errors.{create_api_error, text_too_long, no_meta}
use brain_mate.Routes.Message.Input.Clean.{IsValid, parse_message-IsValid}
use brain_mate.Routes.Message.Admit.Tiers.{tier_decides}
use brain_mate.Routes.Message.Post.Calm.{AreApart, IsApart}
use brain_mate.Routes.Message.Post.Repeated.{repeated_reply}
use brain_mate.Routes.Message.Post.Accepted.{Accepted, post-Accepted}

abbrev calm : World Memory
calm = record {
  redis = empty;
  wire = [];
  clock = 10000;
  ticks = [];
  replies = [];
  sent = [];
  circuit = record { open_until = 0; failures = 0 };
  window = record { sec = 0; count = 0 };
  unusable = none;
  breaker = record { consecutive_errors = 0; open_until = 0; total_errors = 0; total_connects = 1 };
}

-- two texts and their code units
abbrev units : String → List ℕ
units s =
    if str_eq s "helo" then 104 ∷ 101 ∷ 108 ∷ 111 ∷ [] else if str_eq s "k" then 107 ∷ [] else []

abbrev of_units : List ℕ → String
of_units us = if length us == 1 then "k" else "helo"

abbrev env : Runtime
env = record {
  units = units;
  of_units = of_units;
  nfc = λ us. us;
  is_uuid = λ s. true;
  issues = λ b. "[]";
  digest = λ s. s;
  iso = λ n. "now";
  period_key = λ n. "1970-01";
  improved_text = λ s. none;
  configured = none;
}

-- tables that save what they are given
abbrev tables : Tables Memory
tables = record {
  select_tier = λ u. pure none;
  select_quota = λ u p. pure none;
  add_daily = λ u n. pure tt;
  select_chat = λ c u. pure (some c);
  insert_message = λ c u r t i. pure (some "m1");
  select_history = λ c m. pure (some []);
  insert_job = λ c u m i h. pure (some "j1");
  fail_job = λ j m. pure tt;
  increment_quota = λ u p n. pure true;
  upsert_quota = λ u p n. pure tt;
  recent_emails = λ u. pure [];
}

abbrev body : String → Option Value
body k =
    if str_eq k "chatId"
    then some (text "c1")
    else if str_eq k "text"
    then some (text "helo")
    else if str_eq k "tone"
    then some (text "Friendly")
    else if str_eq k "mode"
    then some (text "email")
    else none

abbrev request : MessageRequest
request = record {
  user_id = some "u1";
  body = some body;
  idempotency_key = some "k";
  traceparent = none;
}

abbrev input : MessageInput
input = record {
  chat_id = "c1";
  text = "helo";
  tone = "Friendly";
  mode = "email";
  output_language = "en";
  intensity = 3;
  quick = false;
}

abbrev valid : Valid
valid = record { user_id = "u1"; input = input; key = some "k" }

request_is_valid : validate env request ≡ ok valid
unfolding validate_input validate_body validate_as validate parse_enum parse_enum_or parse_intensity
    parse_quick parse_uuid parse_text parse_message is_control drop_controls is_space trim_start
    trim sanitize_input normalize_idempotency_key has_gmail_ref
request_is_valid = refl

abbrev headers : Fields
headers =
    ("X-RateLimit-Limit", "5") ∷ ("X-RateLimit-Remaining", "4") ∷ ("X-RateLimit-Reset", "70") ∷ []

abbrev accepted : Posted
accepted = record { status = 202; body = pending_reply "j1" "m1"; headers = headers }

post_accepts :
    ((post memory env tables request calm).0 ≡ ok accepted)
    × (((post memory env tables request calm).1.breaker ≡ calm.breaker)
        × ((post memory env tables request calm).1.clock ≡ 10000))
unfolding memory command date_now is_circuit_open batch get setex del incr expire zcard parse_cached
    get_idempotent_response set_idempotent_response get_cached_ai_response compute_input_hash
    verdict check_rate_limit enqueue_write_right_job first_fields parse_enum parse_enum_or
    parse_intensity parse_quick parse_uuid parse_text parse_message is_control drop_controls
    is_space trim_start trim sanitize_input normalize_idempotency_key has_gmail_ref validate_input
    validate_body validate_as validate tier_rate_limits get_max_requests_per_minute limit_for
    token_limit has_code build_rate_limit_headers check_quota judge unless_limited judge_depth
    unless_busy limit_rate limit_depth admit_message extract_content to_history format_emails
    with_emails invalidate_stats_cache increment_quota_usage fetch_chat_history keep_reply
    job_payload estimated_tokens input_hash reply_cached from_cache queued_content enqueue_job
    accept queue_job answer_or_queue process_saved save_message submit_message reply_or_submit
    prior_reply post_valid post_validated post tier_limits quota_of quota_for get_quota ns jobs_key
    job_status_key cache_key rate_limit_key idempotency_key stats_key decimal parse_json
post_accepts = (refl, (refl, refl))

stays : {A : Type 0} (a : A) → IsApart {S = Memory} (pure a)
stays a = record { redis = λ w. refl; wire = λ w. refl }

tables-AreApart : AreApart tables
tables-AreApart = record {
  select_tier = λ u. stays none;
  select_quota = λ u p. stays none;
  add_daily = λ u n. stays tt;
  select_chat = λ c u. stays (some c);
  insert_message = λ c u r t i. stays (some "m1");
  select_history = λ c m. stays (some []);
  insert_job = λ c u m i h. stays (some "j1");
  increment_quota = λ u p n. stays true;
  upsert_quota = λ u p n. stays tt;
  recent_emails = λ u. stays [];
}

post-Accepted_example :
    Accepted memory memory-IsLawful env tables tables-AreApart valid accepted
      (post memory env tables request calm).1
post-Accepted_example =
    post-Accepted memory memory-IsLawful env tables tables-AreApart valid request accepted calm
      request_is_valid (record { calm = refl }) post_accepts.0 refl

abbrev later : World Memory
later = record calm { redis = (post memory env tables request calm).1.redis }

repeated_reply_example :
    post memory env tables request later
    ≡ (ok (record { status = 200; body = pending_reply "j1" "m1"; headers = [] }), later)
repeated_reply_example =
    repeated_reply memory memory-IsLawful env tables valid "k" request accepted calm later
      request_is_valid refl post_accepts.0 refl
      (rw (post_accepts.1.0, post_accepts.1.1) (omega arith)) refl refl refl (omega arith)

body_parses : parse_message (λ s. true) units body ≡ some input
unfolding parse_enum parse_enum_or parse_intensity parse_quick parse_uuid parse_text parse_message
body_parses = refl

parse_message-IsValid_example : IsValid (λ s. true) units input
parse_message-IsValid_example = parse_message-IsValid (λ s. true) units body input body_parses

one_unit : length (trim (104 ∷ [])) ≡ 1
unfolding trim trim_start is_space
one_unit = refl

no_tier : tier_limits "gold" ≡ none
unfolding tier_limits
no_tier = refl

tier_decides_example : check_quota (quota_of "2026-01" (some "gold") none) (104 ∷ []) calm ≡ (
    if is_some (tier_limits "gold") then (ok tt, calm) else (
      err (create_api_error text_too_long "Text exceeds your plan limit." (some 400) no_meta),
      calm,
    ))
tier_decides_example =
    tier_decides "2026-01" "gold" none (104 ∷ []) calm (rw no_tier (omega arith))
      (rw no_tier (omega arith)) (rw one_unit (omega arith)) (rw one_unit (omega arith))
