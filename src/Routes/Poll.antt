-- ===== src/Routes/Poll.antt =====
-- GET of app/api/writeright/job/[jobId]/route.ts: polling a job.
pub mod Owner
use brain_mate.Common.{
  ℕ, String, Bool, true, false, not, ◌&&◌, Option, none, some, List, if◌then◌else◌, str_eq,
}
use brain_mate.Types.{Text}
use brain_mate.Errors.{Error, create_api_error, unauthorized, validation_error, not_found, no_meta}
use brain_mate.Redis.{Redis}
use brain_mate.Exec.{Exec, pure, throw, catch, ◌>>=◌}
use brain_mate.Reconciliation.Operation.{truthy_text}
use brain_mate.Queue.Jobs.{JobStatusPayload, get_job_status, default_to}
use brain_mate.Queue.Responses.{read_job_result}

-- the reply: a completed job with its result or `null`, a failed one, or another status
pub data Polled : Type 0 where
  completed_with : Option Text → Polled
  failed_with : String → Polled
  in_status : String → Polled

-- a row of the table `writeright_ai_jobs`
pub record JobRow : Type 0 where
  pub status : String
  pub output : Option Text
  pub error : Option String

-- what Redis has: nothing that settles the request, or the reply
abbrev pub fallback_message : String
fallback_message = "Job processing failed"

-- whether the hash names another user
unfoldable pub is_foreign : JobStatusPayload → String → Bool
is_foreign payload user_id = not (str_eq payload.user_id "") && not (str_eq payload.user_id user_id)

unfoldable pub job_not_found : Error
job_not_found = create_api_error not_found "Job not found" (some 404) no_meta

abbrev pub either : Option Text → Option Text → Option Text
either (some t) o = some t
either none o = o

-- `iso` is `toISOString`; `is_uuid` is the test of `UUID_RE`; `select_job` is the database's row of
-- a job and a user, `none` for an error or no row.
module _ {S : Type 0} (R : Redis S) (iso : ℕ → String) (is_uuid : String → Bool)
    (select_job : String → String → Exec S (Option JobRow)) where
  -- what the hash settles: `none` goes on to the database
  unfoldable pub from_payload : String → String → Option JobStatusPayload → Exec S (Option Polled)
  from_payload user_id job_id none = pure none
  from_payload user_id job_id (some payload) =
      if is_foreign payload user_id
      then throw job_not_found
      else if str_eq payload.status "completed"
      then (do result ← read_job_result R job_id; pure (some (completed_with result)))
      else if str_eq payload.status "failed"
      then pure (some (failed_with (default_to fallback_message payload.error)))
      else pure (some (in_status payload.status))

  -- the `try` block and its `catch`, which logs and goes on
  unfoldable pub from_redis : String → String → Exec S (Option Polled)
  from_redis user_id job_id =
      catch (do payload ← get_job_status R iso job_id; from_payload user_id job_id payload)
        (λ _. pure none)

  unfoldable pub from_row : String → Option JobRow → Exec S Polled
  from_row job_id none = throw job_not_found
  from_row job_id (some row) =
      if str_eq row.status "completed"
      then (do
        result ← catch (read_job_result R job_id) (λ _. pure none)
        pure (completed_with (either result row.output)))
      else if str_eq row.status "failed"
      then pure (failed_with (default_to fallback_message row.error))
      else pure (in_status row.status)

  unfoldable pub from_database : String → String → Exec S Polled
  from_database user_id job_id = do row ← select_job job_id user_id; from_row job_id row

  abbrev pub settle : String → String → Option Polled → Exec S Polled
  settle user_id job_id none = from_database user_id job_id
  settle user_id job_id (some reply) = pure reply

  unfoldable pub poll_as : String → Option String → Exec S Polled
  poll_as job_id none = throw (create_api_error unauthorized "Not authenticated" (some 401) no_meta)
  poll_as job_id (some user_id) =
      if not (is_uuid job_id)
      then throw (create_api_error validation_error "Invalid job ID" (some 400) no_meta)
      else do found ← from_redis user_id job_id; settle user_id job_id found

  unfoldable pub poll : String → Option String → Exec S Polled
  poll job_id user_id = poll_as job_id (truthy_text user_id)
