-- ===== src/Routes/Completion/Handler.antt =====
-- POST of app/api/writeright/job/[jobId]/complete/route.ts: the handler, over the tables that it
-- works on.
use brain_mate.Common.{ℕ, String, ◌+◌, Option, none, some}
use brain_mate.Types.{Scores, AiJobResult}
use brain_mate.Errors.{create_api_error, invalid_body, not_found, no_meta}
use brain_mate.Redis.{Redis}
use brain_mate.Exec.{Exec, pure, throw, catch, ◌>>=◌, ◌>>◌}
use brain_mate.Queue.Jobs.{default_to}
use brain_mate.Routes.Completion.{check_secret, publish_completion}

-- the body of the request
pub record CompletionBody : Type 0 where
  pub result : AiJobResult
  pub prompt_tokens : ℕ
  pub completion_tokens : ℕ
  pub model : String

-- the row of the job; `mode` is that of its metadata
pub record JobOwner : Type 0 where
  pub chat_id : String
  pub user_id : String
  pub mode : Option String

-- a row of `writeright_usage`
pub record Usage : Type 0 where
  pub user_id : String
  pub job_id : String
  pub chat_id : String
  pub model : String
  pub prompt_tokens : ℕ
  pub completion_tokens : ℕ
  pub total_tokens : ℕ

-- the arguments of `upsert_writing_session`
pub record WritingSession : Type 0 where
  pub user_id : String
  pub clarity : ℕ
  pub tone : ℕ
  pub impact : ℕ
  pub tokens : ℕ
  pub mode : String
  pub word_count : ℕ

abbrev pub clarity_of : Option Scores → ℕ
clarity_of none = 7
clarity_of (some s) = s.clarity

abbrev pub tone_of : Option Scores → ℕ
tone_of none = 7
tone_of (some s) = s.tone

abbrev pub impact_of : Option Scores → ℕ
impact_of none = 7
impact_of (some s) = s.impact

unfoldable pub usage_of : String → JobOwner → CompletionBody → Usage
usage_of job_id owner body = record {
  user_id = owner.user_id;
  job_id = job_id;
  chat_id = owner.chat_id;
  model = body.model;
  prompt_tokens = body.prompt_tokens;
  completion_tokens = body.completion_tokens;
  total_tokens = body.prompt_tokens + body.completion_tokens;
}

-- `words` counts the parts of a text between white space, the empty ones left out.
unfoldable pub session_of : (String → ℕ) → JobOwner → CompletionBody → WritingSession
session_of words owner body = record {
  user_id = owner.user_id;
  clarity = clarity_of body.result.scores;
  tone = tone_of body.result.scores;
  impact = impact_of body.result.scores;
  tokens = body.prompt_tokens + body.completion_tokens;
  mode = default_to "email" owner.mode;
  word_count = words body.result.improved_text;
}

-- The calls of the database, any actions: a query that fails is `none`, like one without a row.
pub record CompletionTables (S : Type 0) : Type 0 where
  pub select_owner : String → Exec S (Option JobOwner)
  pub complete_job : String → AiJobResult → Exec S (Unit {0})
  pub insert_usage : Usage → Exec S (Unit {0})
  pub upsert_session : WritingSession → Exec S (Unit {0})

-- `iso` is `toISOString`.
module _ {S : Type 0} (R : Redis S) (iso : ℕ → String) (words : String → ℕ)
    (db : CompletionTables S) where
  unfoldable pub complete_owned : String → CompletionBody → Option JobOwner → Exec S (Unit {0})
  complete_owned job_id body none =
      throw (create_api_error not_found "Job not found" (some 404) no_meta)
  complete_owned job_id body (some owner) = do
    db.complete_job job_id body.result
    db.insert_usage (usage_of job_id owner body)
    catch (db.upsert_session (session_of words owner body)) (λ _. pure tt)
    publish_completion R iso job_id owner.user_id body.result

  unfoldable pub complete_body : String → Option CompletionBody → Exec S (Unit {0})
  complete_body job_id none =
      throw (create_api_error invalid_body "Invalid JSON body" (some 400) no_meta)
  complete_body job_id (some body) = do
    owner ← db.select_owner job_id
    complete_owned job_id body owner

  -- from the header and the environment's secret on; it replies { received: true }
  unfoldable pub complete :
      Option String → Option String → String → Option CompletionBody → Exec S (Unit {0})
  complete header environment job_id body = do
    check_secret header environment
    complete_body job_id body
