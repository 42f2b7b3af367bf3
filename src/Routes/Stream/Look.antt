-- ===== src/Routes/Stream/Look.antt =====
-- GET of app/api/writeright/job/[jobId]/stream/route.ts: one look at a job, in Redis and the
-- database.
use brain_mate.Common.{ℕ, String, ◌+◌, Option, none, some, str_eq, if◌then◌else◌, leb}
use brain_mate.Types.{Text}
use brain_mate.Errors.{unauthorized, not_found, internal_error}
use brain_mate.Redis.{Redis}
use brain_mate.Exec.{Exec, pure, catch, date_now, is_circuit_open, ◌>>=◌}
use brain_mate.Queue.Jobs.{JobStatusPayload, get_job_status, default_to}
use brain_mate.Queue.Responses.{read_job_result}
use brain_mate.Routes.Poll.{JobRow, is_foreign, either}
use brain_mate.Routes.Stream.Events.{
  failed, result, ping, Stream, Step, go_on, send, tell_status, stops,
}

-- `iso` is `toISOString`; `select_job` is the database's row of a job and a user, `none` for an
-- error or no row; `fail_active` marks a job that is pending or processing as failed.
module _ {S : Type 0} (R : Redis S) (iso : ℕ → String)
    (select_job : String → String → Exec S (Option JobRow))
    (fail_active : String → String → Exec S (Unit {0})) where
  -- a completed job's result; where reading it throws, the poll goes on
  unfoldable pub tell_result : Stream → Option (Option Text) → Exec S Step
  tell_result st none = pure (go_on st)
  tell_result st (some value) = do st' ← send (result value) st; stops st'

  unfoldable pub try_result : String → Exec S (Option (Option Text))
  try_result job_id =
      catch (do value ← read_job_result R job_id; pure (some value)) (λ _. pure none)

  -- what the status in Redis settles
  unfoldable pub settle_payload : String → String → JobStatusPayload → Stream → Exec S Step
  settle_payload user_id job_id payload st =
      if is_foreign payload user_id
      then (do st' ← send (failed unauthorized "Job not found") st; stops st')
      else do
        st' ← tell_status payload.status st
        if str_eq payload.status "completed"
            then (do value ← try_result job_id; tell_result st' value)
            else if str_eq payload.status "failed"
            then (do
              st'' ← send (failed internal_error (default_to "Job failed" payload.error)) st'
              stops st'')
            else pure (go_on st')

  unfoldable pub settle_row : String → Option JobRow → Stream → Exec S Step
  settle_row job_id none st = do st' ← send (failed not_found "Job not found") st; stops st'
  settle_row job_id (some row) st = do
    st' ← tell_status row.status st
    if str_eq row.status "completed"
        then (do
          value ← catch (read_job_result R job_id) (λ _. pure none)
          st'' ← send (result (either value row.output)) st'
          stops st'')
        else if str_eq row.status "failed"
        then (do
          st'' ← send (failed internal_error (default_to "Job failed" row.error)) st'
          stops st'')
        else pure (go_on st')

  unfoldable pub read_status : String → Exec S (Option JobStatusPayload)
  read_status job_id = do
    broken ← is_circuit_open
    if broken then pure none else catch (get_job_status R iso job_id) (λ _. pure none)

  unfoldable pub from_status : String → String → Option JobStatusPayload → Stream → Exec S Step
  from_status user_id job_id (some payload) st = settle_payload user_id job_id payload st
  from_status user_id job_id none st = do row ← select_job job_id user_id; settle_row job_id row st

  -- one look at the job
  unfoldable pub look : String → String → Stream → Exec S Step
  look user_id job_id st = do payload ← read_status job_id; from_status user_id job_id payload st

  unfoldable pub keep_alive : Stream → Exec S Stream
  keep_alive st = do
    now ← date_now
    if leb (st.last_event_at + 15000) now then send ping st else pure st
