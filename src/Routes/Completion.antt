-- ===== src/Routes/Completion.antt =====
-- POST of app/api/writeright/job/[jobId]/complete/route.ts: the check of the worker's secret, and
-- what the handler does to Redis once the database is updated.
pub mod Unseen
pub mod Pending
pub mod Handler
pub mod Answered
mod Tests
use brain_mate.Common.{
  ℕ, String, Bool, true, false, Option, none, some, List, [], ◌∷◌, if◌then◌else◌, str_eq,
}
use brain_mate.Types.{result, AiJobResult}
use brain_mate.Errors.{Error, create_api_error, unauthorized, no_meta}
use brain_mate.Redis.{Redis}
use brain_mate.Exec.{Exec, pure, throw, catch, date_now, is_circuit_open, ◌>>=◌, ◌>>◌}
use brain_mate.Commands.{xadd, expire, hset, setex, del}
use brain_mate.Queue.Keys.{ns}

-- `value || fallback` of texts
unfoldable pub text_or : Option String → String → String
text_or none fallback = fallback
text_or (some value) fallback = if str_eq value "" then fallback else value

unfoldable pub stream_key : String → String
stream_key job_id = ns ("writeright" ∷ "job" ∷ "result" ∷ job_id ∷ [])

unfoldable pub status_key : String → String
status_key job_id = ns ("writeright" ∷ "job" ∷ "status" ∷ job_id ∷ [])

unfoldable pub completed_cache_key : String → String
completed_cache_key job_id = ns ("writeright" ∷ "cache" ∷ job_id ∷ [])

unfoldable pub stats_key : String → String
stats_key user_id = ns ("writeright" ∷ "stats" ∷ user_id ∷ [])

unfoldable pub analytics_key : String → String
analytics_key user_id = ns ("writeright" ∷ "analytics" ∷ user_id ∷ [])

unfoldable pub session_stats_key : String → String
session_stats_key user_id = ns ("writeright" ∷ "session-stats" ∷ user_id ∷ [])

module _ {S : Type 0} where
  -- the header `X-Worker-Secret` against `WRITERIGHT_WORKER_SECRET`: two buffers of one length and
  -- the same bytes are the same text
  unfoldable pub check_secret : Option String → Option String → Exec S (Unit {0})
  check_secret header environment =
      if str_eq (text_or header "") (text_or environment "fallback-secret")
      then pure tt
      else throw (create_api_error unauthorized "Invalid worker secret" (some 401) no_meta)

module _ {S : Type 0} (R : Redis S) where
  -- one promise of `Promise.allSettled`
  unfoldable pub settle_del : String → Exec S (Unit {0})
  settle_del key = catch (del R key) (λ _. pure tt)

-- `iso` is `new Date(ms).toISOString()`.
module _ {S : Type 0} (R : Redis S) (iso : ℕ → String) where
  -- the `try` block
  unfoldable pub write_completion : String → String → AiJobResult → Exec S (Unit {0})
  write_completion job_id user_id value = do
    xadd R (stream_key job_id) (result value)
    expire R (stream_key job_id) 3600
    now ← date_now
    hset R (status_key job_id) (("status", "completed") ∷ ("updated_at", iso now) ∷ [])
    setex R (completed_cache_key job_id) 3600 (result value)
    settle_del R (stats_key user_id)
    settle_del R (analytics_key user_id)
    settle_del R (session_stats_key user_id)

  -- "Update Redis status and stream result"
  unfoldable pub publish_completion : String → String → AiJobResult → Exec S (Unit {0})
  publish_completion job_id user_id value = do
    broken ← is_circuit_open
    if broken then pure tt else catch (write_completion job_id user_id value) (λ _. pure tt)
