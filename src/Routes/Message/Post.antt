-- ===== src/Routes/Message/Post.antt =====
-- POST of app/api/writeright/message/route.ts: the handler.
pub mod Calm
pub mod Queued
pub mod Accepted
pub mod Repeated
use brain_mate.Errors.Response.Handler.{with_timeout}
use brain_mate.Common.{
  ℕ, String, ◌+◌, ◌/◌, Bool, false, Option, none, some, List, [], ◌∷◌, length, str_eq,
  if◌then◌else◌, Fields,
}
use brain_mate.Types.{
  Text, WritingJobPayload, Role, user, assistant, plain, pending_reply, cached_reply,
}
use brain_mate.Errors.{
  create_api_error, unauthorized, invalid_body, validation_error, empty_text, chat_not_found,
  db_error, queue_error, no_meta,
}
use brain_mate.Redis.{Redis}
use brain_mate.Exec.{Exec, Result, ok, err, pure, throw, catch, ◌>>=◌, ◌>>◌}
use brain_mate.Queue.Jobs.{enqueue_write_right_job}
use brain_mate.Queue.Responses.{compute_input_hash, get_cached_ai_response, get_idempotent_response}
use brain_mate.Routes.Message.Input.{
  Body, MessageInput, parse_message, sanitize_input, normalize_idempotency_key, has_gmail_ref,
}
use brain_mate.Routes.Message.Admit.{admit_message}
use brain_mate.Routes.Message.Parts.{
  MessageRequest, Posted, Tables, Runtime, is_blank, with_emails, fetch_chat_history,
  increment_quota_usage, invalidate_stats_cache, keep_reply,
}

-- A request that is validated: its user, its fields, with the text sanitised, and its key.
pub record Valid : Type 0 where
  pub user_id : String
  pub input : MessageInput
  pub key : Option String

module _ (env : Runtime) where
  abbrev pub of_key : Option String → Option String
  of_key none = none
  of_key (some key) = elim (normalize_idempotency_key (some (env.units key))) [
    | none ↦ none
    | some normalized ↦ some (env.of_units normalized)
  ]

  -- the text is sanitised; one that is blank then is refused
  unfoldable pub validate_input :
      String → MessageRequest → Body → Option MessageInput → Result Valid
  validate_input user_id request body none = err (
      create_api_error validation_error "Invalid input" (some 400)
        (record { headers = []; extra = ("issues", env.issues body) ∷ [] }))
  validate_input user_id request body (some input) =
      let content = env.of_units (sanitize_input env.nfc (env.units input.text)) in
      if is_blank env content
      then err (create_api_error empty_text "Text is empty after sanitization" (some 400) no_meta)
      else ok (record {
        user_id = user_id;
        input = record input { text = content };
        key = of_key request.idempotency_key;
      })

  unfoldable pub validate_body : String → MessageRequest → Option Body → Result Valid
  validate_body user_id request none =
      err (create_api_error invalid_body "Invalid JSON body" (some 400) no_meta)
  validate_body user_id request (some body) =
      validate_input user_id request body (parse_message env.is_uuid env.units body)

  unfoldable pub validate_as : MessageRequest → Option String → Result Valid
  validate_as request none =
      err (create_api_error unauthorized "Not authenticated" (some 401) no_meta)
  validate_as request (some user_id) =
      if str_eq user_id ""
      then err (create_api_error unauthorized "Not authenticated" (some 401) no_meta)
      else validate_body user_id request request.body

  -- the checks of the request alone, up to the key
  unfoldable pub validate : MessageRequest → Result Valid
  validate request = validate_as request request.user_id

unfoldable pub job_payload :
    Valid → String → String → String → List (Role × String) → Option String → WritingJobPayload
job_payload v job_id message_id content history traceparent = record {
  id = job_id;
  chat_id = v.input.chat_id;
  user_id = v.user_id;
  message_id = message_id;
  content = content;
  tone = v.input.tone;
  mode = v.input.mode;
  output_language = some v.input.output_language;
  history = history;
  intensity = v.input.intensity;
  quick = v.input.quick;
  attempt = 0;
  traceparent = traceparent;
}

module _ {S : Type 0} (R : Redis S) (env : Runtime) (db : Tables S) where
  -- Math.ceil(text.length / 4)
  unfoldable pub estimated_tokens : Valid → ℕ
  estimated_tokens v = (length (env.units v.input.text) + 3) / 4

  unfoldable pub input_hash : Valid → String
  input_hash v =
      compute_input_hash env.digest v.input.text v.input.tone v.input.mode v.input.output_language
        v.input.intensity

  -- the `try` block of the cache check, where the cache has a result
  unfoldable pub reply_cached : Valid → Fields → String → Option Text → Exec S (Option Posted)
  reply_cached v headers message_id none = pure none
  reply_cached v headers message_id (some answer) = do
    db.insert_message v.input.chat_id v.user_id assistant answer v.input
    keep_reply R env db v.user_id v.key (cached_reply message_id answer)
    increment_quota_usage R env db v.user_id (estimated_tokens v)
    invalidate_stats_cache R env db v.user_id
    pure (some (record { status = 200; body = cached_reply message_id answer; headers = headers }))

  unfoldable pub from_cache : Valid → Fields → String → Exec S (Option Posted)
  from_cache v headers message_id =
      catch
        (do
          cached ← get_cached_ai_response R (input_hash v)
          reply_cached v headers message_id cached)
        (λ _. pure none)

  -- the content that is queued: with the user's emails where it speaks of them
  unfoldable pub queued_content : Valid → Exec S String
  queued_content v =
      if has_gmail_ref (env.units v.input.text)
      then catch (do emails ← db.recent_emails v.user_id; pure (with_emails v.input.text emails))
          (λ _. pure v.input.text)
      else pure v.input.text

  -- "Enqueue job to Redis ZSET"
  unfoldable pub enqueue_job : Valid → WritingJobPayload → Exec S (Unit {0})
  enqueue_job v payload =
      catch
        (do
          enqueue_write_right_job R env.iso payload
          increment_quota_usage R env db v.user_id (estimated_tokens v)
          invalidate_stats_cache R env db v.user_id)
        (λ _. do
          db.fail_job payload.id "Failed to enqueue to Redis"
          throw (
              create_api_error queue_error "Failed to enqueue job. Please try again." (some 503)
                no_meta))

  unfoldable pub accept : Valid → Fields → WritingJobPayload → Exec S Posted
  accept v headers payload = do
    enqueue_job v payload
    keep_reply R env db v.user_id v.key (pending_reply payload.id payload.message_id)
    pure (record {
      status = 202;
      body = pending_reply payload.id payload.message_id;
      headers = headers;
    })

  unfoldable pub queue_job :
      Valid → Fields → Option String → String → List (Role × String) → Option String → Exec S Posted
  queue_job v headers traceparent message_id history none =
      throw (create_api_error db_error "Failed to create AI job" (some 500) no_meta)
  queue_job v headers traceparent message_id history (some job_id) = do
    content ← queued_content v
    accept v headers (job_payload v job_id message_id content history traceparent)

  unfoldable pub answer_or_queue :
      Valid → Fields → Option String → String → List (Role × String) → Option Posted → Exec S Posted
  answer_or_queue v headers traceparent message_id history (some posted) = pure posted
  answer_or_queue v headers traceparent message_id history none = do
    job_id ← db.insert_job v.input.chat_id v.user_id message_id v.input (input_hash v)
    queue_job v headers traceparent message_id history job_id

  unfoldable pub process_saved : Valid → Fields → Option String → Option String → Exec S Posted
  process_saved v headers traceparent none =
      throw (create_api_error db_error "Failed to save message" (some 500) no_meta)
  process_saved v headers traceparent (some message_id) = do
    history ← fetch_chat_history R env db v.input.chat_id message_id
    cached ← from_cache v headers message_id
    answer_or_queue v headers traceparent message_id history cached

  unfoldable pub save_message : Valid → Fields → Option String → Option String → Exec S Posted
  save_message v headers traceparent none = throw (
      create_api_error chat_not_found "Chat not found or does not belong to you" (some 404) no_meta)
  save_message v headers traceparent (some chat) = do
    message_id ← db.insert_message v.input.chat_id v.user_id user (plain v.input.text) v.input
    process_saved v headers traceparent message_id

  -- from the quota check on
  unfoldable pub submit_message : Valid → Option String → Exec S Posted
  submit_message v traceparent = do
    headers ←
        admit_message R env.period_key db.select_tier db.select_quota db.add_daily env.configured
          v.user_id (env.units v.input.text)
    chat ← db.select_chat v.input.chat_id v.user_id
    save_message v headers traceparent chat

  unfoldable pub reply_or_submit : Valid → Option String → Option Text → Exec S Posted
  reply_or_submit v traceparent none = submit_message v traceparent
  reply_or_submit v traceparent (some prior) =
      pure (record { status = 200; body = prior; headers = [] })

  unfoldable pub prior_reply : String → Option String → Exec S (Option Text)
  prior_reply user_id none = pure none
  prior_reply user_id (some key) = get_idempotent_response R user_id key

  unfoldable pub post_valid : Valid → Option String → Exec S Posted
  post_valid v traceparent = do
    prior ← prior_reply v.user_id v.key
    reply_or_submit v traceparent prior

  unfoldable pub post_validated : Result Valid → Option String → Exec S Posted
  post_validated (ok v) traceparent = post_valid v traceparent
  post_validated (err e) traceparent = throw e

  unfoldable pub post : MessageRequest → Exec S Posted
  post request = post_validated (validate env request) request.traceparent

  -- the handler with its 30 seconds
  unfoldable pub post_in_time : MessageRequest → Exec S Posted
  post_in_time request = with_timeout 30000 "POST /api/writeright/message" (post request)
