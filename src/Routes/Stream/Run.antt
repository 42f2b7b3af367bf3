-- ===== src/Routes/Stream/Run.antt =====
-- GET of app/api/writeright/job/[jobId]/stream/route.ts: the loop and the handler.
use brain_mate.Common.{
  ℕ, zero, suc, String, ◌+◌, Bool, true, false, not, ◌||◌, Option, none, some, List, str_eq,
  if◌then◌else◌, leb,
}
use brain_mate.Errors.{
  Error, failure, create_api_error, unauthorized, validation_error, timeout, no_meta,
}
use brain_mate.Redis.{Redis}
use brain_mate.Exec.{Exec, pure, throw, catch, command, date_now, is_circuit_open, ◌>>=◌, ◌>>◌}
use brain_mate.Reconciliation.Operation.{truthy_text}
use brain_mate.Routes.Poll.{JobRow}
use brain_mate.Routes.Stream.Events.{
  StreamEvent, failed, result, Wait, Closing, hear, Stream, Step, go_on, stop, max_ms, send, wait,
  next_wait, later_waits, fresh_stream,
}
use brain_mate.Routes.Stream.Look.{look, keep_alive}

pub data Streamed : Type 0 where
  -- the one event of a job that was answered from the cache
  at_once : StreamEvent → Streamed
  streamed : Option Stream → Streamed

unfoldable pub already_closed : Error
already_closed = failure "Invalid state: Controller is already closed"

-- `iso` is `toISOString`; `select_job` is the database's row of a job and a user, `none` for an
-- error or no row; `fail_active` marks a job that is pending or processing as failed.
module _ {S : Type 0} (R : Redis S) (iso : ℕ → String)
    (select_job : String → String → Exec S (Option JobRow))
    (fail_active : String → String → Exec S (Unit {0})) where
  -- what follows a look: the end of the loop, or the wait and the rest of it
  unfoldable pub after_step :
      (Stream → Exec S (Option Stream)) → Bool → Wait → Step → Exec S (Option Stream)
  after_step rest subscribed during (stop st) = pure (some st)
  after_step rest subscribed during (go_on st) = do
    st' ← keep_alive R iso select_job fail_active st
    st'' ← wait subscribed during st'
    rest st''

  -- The loop, `none` out of fuel; `begin` is the time it began.
  unfoldable pub poll_loop :
      ℕ → ℕ → Bool → List Wait → String → String → Stream → Exec S (Option Stream)
  poll_loop zero begin subscribed waits user_id job_id st = pure none
  poll_loop (suc fuel) begin subscribed waits user_id job_id st = do
    now ← date_now
    if leb (begin + max_ms) now || st.aborted then pure (some st) else do
      st0 ← hear subscribed (next_wait waits).early st
      step ← look R iso select_job fail_active user_id job_id st0
      after_step (λ st'. poll_loop fuel begin subscribed (later_waits waits) user_id job_id st')
          subscribed (next_wait waits) step

  -- what follows the loop, up to `ended = true`
  unfoldable pub finish : ℕ → Bool → Closing → String → Option Stream → Exec S (Option Stream)
  finish begin subscribed closing job_id none = pure none
  finish begin subscribed closing job_id (some st) = do
    now ← date_now
    st' ←
        (if leb (begin + max_ms) now
          then (do
            catch (fail_active job_id "timeout_90s") (λ _. pure tt)
            st0 ← hear subscribed closing.updating st
            send (failed timeout "This took too long. Try with shorter text.") st0)
          else pure st)
    st'' ← hear subscribed closing.unsubscribing st'
    pure (some (record st'' { ended = true; gone = st''.gone || closing.leaves }))

  -- `controller.close()`, which throws where the client has cancelled the stream
  unfoldable pub close_controller : Option Stream → Exec S (Option Stream)
  close_controller none = pure none
  close_controller (some st) = if st.gone then throw already_closed else pure (some st)

  -- SUBSCRIBE, where the circuit is closed: whether it succeeded
  unfoldable pub subscribe : Exec S Bool
  subscribe = do
    broken ← is_circuit_open
    if broken
        then pure false
        else catch (do command (λ s. (tt {0}, s)); pure true) (λ _. pure false)

  -- `start` but for its last line, with fuel for the loop
  unfoldable pub run_stream : ℕ → List Wait → Closing → String → String → Exec S (Option Stream)
  run_stream fuel waits closing user_id job_id = do
    opened ← date_now
    subscribed ← subscribe
    begin ← date_now
    ended ← poll_loop fuel begin subscribed waits user_id job_id (fresh_stream opened)
    finish begin subscribed closing job_id ended

  unfoldable pub start : ℕ → List Wait → Closing → String → String → Exec S (Option Stream)
  start fuel waits closing user_id job_id = do
    ended ← run_stream fuel waits closing user_id job_id
    close_controller ended

  -- `GET`; `is_uuid` is the test of `UUID_RE`
  unfoldable pub stream_as :
      (String → Bool) → ℕ → List Wait → Closing → String → Option String → Exec S Streamed
  stream_as is_uuid fuel waits closing job_id none =
      throw (create_api_error unauthorized "Not authenticated" (some 401) no_meta)
  stream_as is_uuid fuel waits closing job_id (some user_id) =
      if str_eq job_id "cached"
      then pure (at_once (result none))
      else if not (is_uuid job_id)
      then throw (create_api_error validation_error "Invalid job ID" (some 400) no_meta)
      else do ended ← start fuel waits closing user_id job_id; pure (streamed ended)

  unfoldable pub stream :
      (String → Bool) → ℕ → List Wait → Closing → String → Option String → Exec S Streamed
  stream is_uuid fuel waits closing job_id user_id =
      stream_as is_uuid fuel waits closing job_id (truthy_text user_id)
