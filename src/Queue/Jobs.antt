-- ===== src/Queue/Jobs.antt =====
-- lib/writeright-queue.ts: enqueueing and dequeueing jobs, and the hash of a job's status.
pub mod Status
use brain_mate.Common.{
  ℕ, String, Option, none, some, List, [], ◌∷◌, ◌++◌, if◌then◌else◌, Fields, field,
}
use brain_mate.Types.{Text, plain, job, WritingJobPayload}
use brain_mate.Errors.{create_api_error, redis_unavailable, no_meta}
use brain_mate.Redis.{Redis}
use brain_mate.Exec.{Exec, pure, throw, date_now, is_circuit_open, ◌>>=◌, ◌>>◌}
use brain_mate.Commands.{batch, zpopmin, hgetall}
use brain_mate.Queue.Keys.{jobs_key, job_status_key}

pub data JobStatus : Type 0 where
  pending processing completed failed retrying : JobStatus

unfoldable pub status_name : JobStatus → String
status_name pending = "pending"
status_name processing = "processing"
status_name completed = "completed"
status_name failed = "failed"
status_name retrying = "retrying"

-- `status` is whatever text the hash holds: the cast to `JobStatus` checks nothing.
pub record JobStatusPayload : Type 0 where
  pub status : String
  pub created_at : String
  pub user_id : String
  pub chat_id : String
  pub error : Option String

-- `a ?? b`
abbrev pub default_to {ℓ} : {A : Type ℓ} → A → Option A → A
default_to b none = b
default_to b (some a) = a

-- the fields that an enqueued job starts with
unfoldable pub first_fields : WritingJobPayload → String → Fields
first_fields payload now =
    ("status", "pending")
    ∷ ("updated_at", now)
    ∷ ("created_at", now)
    ∷ ("user_id", payload.user_id)
    ∷ ("chat_id", payload.chat_id)
    ∷ ("output_language", default_to "en" payload.output_language)
    ∷ []

-- the fields of `setJobStatus`: those of the caller come last
unfoldable pub status_fields : JobStatus → String → Fields → Fields
status_fields status now extra = ("status", status_name status) ∷ ("updated_at", now) ∷ extra

-- the payload that a hash stands for: `null` for a hash without fields
unfoldable pub to_payload : Fields → Option JobStatusPayload
to_payload [] = none
to_payload (f ∷ fs) =
    let data' = f ∷ fs in
    some (record {
      status = default_to "pending" (field "status" data');
      created_at = default_to "" (field "created_at" data');
      user_id = default_to "" (field "user_id" data');
      chat_id = default_to "" (field "chat_id" data');
      error = field "error" data';
    })

-- `JSON.parse`, which throws on a text that is no JSON
unfoldable pub parse_json : Text → Option Text
parse_json (plain m) = none
parse_json t = some t

-- the members that parse, in order
unfoldable pub parse_all : List Text → List Text
unfolding parse_json
parse_all [] = []
parse_all (plain m ∷ ts) = parse_all ts
parse_all (t ∷ ts) = t ∷ parse_all ts

-- `iso` is `new Date(ms).toISOString()`.
module _ {S : Type 0} (R : Redis S) (iso : ℕ → String) where
  unfoldable pub enqueue_write_right_job : WritingJobPayload → Exec S (Unit {0})
  enqueue_write_right_job payload = do
    broken ← is_circuit_open
    if broken
        then throw (
            create_api_error redis_unavailable
              "[writeright-queue] Cannot enqueue: Redis circuit is open" (some 503) no_meta)
        else do
          score ← date_now
          now ← date_now
          batch (λ s.
              R.expire
                (R.hset (R.zadd s jobs_key score (job payload)) (job_status_key payload.id)
                  (first_fields payload (iso now)))
                (job_status_key payload.id) 3600)

  unfoldable pub dequeue_write_right_jobs : ℕ → Exec S (List Text)
  dequeue_write_right_jobs batch_size = do
    broken ← is_circuit_open
    if broken then pure [] else do results ← zpopmin R jobs_key batch_size; pure (parse_all results)

  unfoldable pub set_job_status : String → JobStatus → ℕ → Fields → Exec S (Unit {0})
  set_job_status job_id status ttl_secs extra = do
    now ← date_now
    batch (λ s.
        R.expire (R.hset s (job_status_key job_id) (status_fields status (iso now) extra))
          (job_status_key job_id) ttl_secs)

  unfoldable pub get_job_status : String → Exec S (Option JobStatusPayload)
  get_job_status job_id = do data' ← hgetall R (job_status_key job_id); pure (to_payload data')
