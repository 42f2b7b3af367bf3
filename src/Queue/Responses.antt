-- ===== src/Queue/Responses.antt =====
-- lib/writeright-queue.ts: the results of jobs, the response cache and the idempotent responses.
pub mod RoundTrip
use brain_mate.Common.{ℕ, String, Option, none, some, List, [], ◌∷◌, if◌then◌else◌, ◌<>◌, decimal}
use brain_mate.Types.{Text, result, AiJobResult}
use brain_mate.Redis.{Redis}
use brain_mate.Exec.{Exec, pure, is_circuit_open, ◌>>=◌, ◌>>◌}
use brain_mate.Commands.{xadd, xrange, expire, get, setex}
use brain_mate.Queue.Keys.{job_result_key, cache_key, idempotency_key}
use brain_mate.Queue.Jobs.{parse_json}

-- the first entry of what XRANGE replies; each entry of these streams has the one field "data"
unfoldable pub first_result : List Text → Option Text
unfolding parse_json
first_result [] = none
first_result (data' ∷ _) = parse_json data'

-- what GET replies, parsed
unfoldable pub parse_cached : Option Text → Option Text
unfolding parse_json
parse_cached none = none
parse_cached (some text) = parse_json text

-- `hash` is the hexadecimal SHA-256 digest of `node:crypto`.
unfoldable pub compute_input_hash :
    (String → String) → String → String → String → String → ℕ → String
unfolding decimal
compute_input_hash hash text tone mode output_language intensity = hash (
    text
    <> (":"
        <> (tone <> (":" <> (mode <> (":" <> (output_language <> (":" <> decimal intensity))))))))

module _ {S : Type 0} (R : Redis S) where
  unfoldable pub publish_job_result : String → AiJobResult → Exec S (Unit {0})
  publish_job_result job_id value = do
    xadd R (job_result_key job_id) (result value)
    expire R (job_result_key job_id) 3600

  unfoldable pub read_job_result : String → Exec S (Option Text)
  read_job_result job_id = do
    broken ← is_circuit_open
    if broken
        then pure none
        else do entries ← xrange R (job_result_key job_id) 1; pure (first_result entries)

  unfoldable pub cache_ai_response : String → AiJobResult → ℕ → Exec S (Unit {0})
  cache_ai_response input_hash value ttl_secs = do
    broken ← is_circuit_open
    if broken then pure tt else setex R (cache_key input_hash) ttl_secs (result value)

  unfoldable pub get_cached_ai_response : String → Exec S (Option Text)
  get_cached_ai_response input_hash = do
    broken ← is_circuit_open
    if broken
        then pure none
        else do cached ← get R (cache_key input_hash); pure (parse_cached cached)

  unfoldable pub get_idempotent_response : String → String → Exec S (Option Text)
  get_idempotent_response user_id request_key = do
    broken ← is_circuit_open
    if broken
        then pure none
        else do cached ← get R (idempotency_key user_id request_key); pure (parse_cached cached)

  unfoldable pub set_idempotent_response : String → String → Text → ℕ → Exec S (Unit {0})
  set_idempotent_response user_id request_key response ttl_secs = do
    broken ← is_circuit_open
    if broken then pure tt else setex R (idempotency_key user_id request_key) ttl_secs response
