-- ===== src/Routes/Message/Parts.antt =====
-- What POST of app/api/writeright/message/route.ts is made of: the tables and the runtime that it
-- uses, the history and the emails that go with a message, and its smaller steps.
use brain_mate.Common.{
  ℕ, String, ◌+◌, Bool, Option, none, some, List, [], ◌∷◌, ◌<>◌, length, if◌then◌else◌, ◌==◌,
  decimal, Fields,
}
use brain_mate.Types.{Text, Role, user, assistant}
use brain_mate.Redis.{Redis}
use brain_mate.Exec.{Exec, pure, catch, date_now, is_circuit_open, ◌>>=◌}
use brain_mate.Commands.{del}
use brain_mate.Queue.Responses.{set_idempotent_response}
use brain_mate.Routes.Completion.{stats_key}
use brain_mate.Routes.Quota.{Amount}
use brain_mate.Routes.Message.Input.{Body, MessageInput, trim}

pub record MessageRequest : Type 0 where
  pub user_id : Option String
  pub body : Option Body
  pub idempotency_key : Option String
  pub traceparent : Option String

pub record Posted : Type 0 where
  pub status : ℕ
  pub body : Text
  pub headers : Fields

-- one email of `fetchRecentEmails`
pub record Email : Type 0 where
  pub sender_name : String
  pub sender_email : String
  pub subject : String
  pub timestamp : String
  pub snippet : String
  pub body_preview : String

-- The calls of the database and of lib/gmail-service.ts, any actions: a query that fails is
-- `none`, like one without a row. `recent_emails` is the connection and the emails, none of them
-- for a user without a connection.
pub record Tables (S : Type 0) : Type 0 where
  pub select_tier : String → Exec S (Option String)
  pub select_quota : String → String → Exec S (Option Amount)
  pub add_daily : String → ℕ → Exec S (Unit {0})
  pub select_chat : String → String → Exec S (Option String)
  pub insert_message : String → String → Role → Text → MessageInput → Exec S (Option String)
  pub select_history : String → String → Exec S (Option (List (Role × String)))
  pub insert_job : String → String → String → MessageInput → String → Exec S (Option String)
  pub fail_job : String → String → Exec S (Unit {0})
  -- whether `increment_wr_quota` succeeded
  pub increment_quota : String → String → ℕ → Exec S Bool
  pub upsert_quota : String → String → ℕ → Exec S (Unit {0})
  pub recent_emails : String → Exec S (List Email)

-- What the code takes from the language's runtime and its environment: the two forms of a text, its
-- normal form, the test for a UUID, the issues of a body, the digest, dates, and the text that the
-- JSON of an assistant's message has as its `improved_text`.
pub record Runtime : Type 0 where
  pub units : String → List ℕ
  pub of_units : List ℕ → String
  pub nfc : List ℕ → List ℕ
  pub is_uuid : String → Bool
  pub issues : Body → String
  pub digest : String → String
  pub iso : ℕ → String
  pub period_key : ℕ → String
  pub improved_text : String → Option String
  pub configured : Option ℕ

module _ (env : Runtime) where
  abbrev pub is_blank : String → Bool
  is_blank s = length (trim (env.units s)) == 0

  -- `extractAssistantHistoryContent`
  unfoldable pub extract_content : String → String
  extract_content content = elim (env.improved_text content) [
    | none ↦ content
    | some improved ↦ if is_blank improved then content else improved
  ]

  abbrev pub of_role : Role → String → String
  of_role user content = content
  of_role assistant content = extract_content content

  -- the rows in order, from the newest first, less the blank ones
  unfoldable pub to_history : List (Role × String) → List (Role × String) → List (Role × String)
  to_history acc [] = acc
  to_history acc ((role, content) ∷ rows) =
      let entry = of_role role content in
      to_history (if is_blank entry then acc else (role, entry) ∷ acc) rows

unfoldable pub format_email : ℕ → Email → String
format_email n email =
    "Email "
    <> (decimal n
        <> (":\nSender: "
            <> (email.sender_name
                <> (" <"
                    <> (email.sender_email
                        <> (">\nSubject: "
                            <> (email.subject
                                <> ("\nDate: "
                                    <> (email.timestamp
                                        <> ("\nSnippet: "
                                            <> (email.snippet
                                                <> ("\nContent: "
                                                    <> (email.body_preview <> "\n---")))))))))))))

unfoldable pub format_emails : ℕ → List Email → String
format_emails n [] = ""
format_emails n (email ∷ []) = format_email n email
format_emails n (email ∷ emails) = format_email n email <> ("\n" <> format_emails (n + 1) emails)

unfoldable pub with_emails : String → List Email → String
with_emails content [] = content
with_emails content emails =
    "User's Recent Gmail Emails (for reference context):\n"
    <> (format_emails 1 emails <> ("\n\n" <> content))

module _ {S : Type 0} (R : Redis S) (env : Runtime) (db : Tables S) where
  unfoldable pub invalidate_stats_cache : String → Exec S (Unit {0})
  invalidate_stats_cache user_id = do
    broken ← is_circuit_open
    if broken then pure tt else catch (del R (stats_key user_id)) (λ _. pure tt)

  unfoldable pub increment_quota_usage : String → ℕ → Exec S (Unit {0})
  increment_quota_usage user_id tokens =
      catch
        (do
          now ← date_now
          done ← db.increment_quota user_id (env.period_key now) tokens
          if done then pure tt else db.upsert_quota user_id (env.period_key now) tokens)
        (λ _. pure tt)

  unfoldable pub fetch_chat_history : String → String → Exec S (List (Role × String))
  fetch_chat_history chat_id message_id = do
    rows ← db.select_history chat_id message_id
    pure (elim rows [ none ↦ [] | some rs ↦ to_history env [] rs ])

  -- what follows a reply's making: it is kept for the request's key
  unfoldable pub keep_reply : String → Option String → Text → Exec S (Unit {0})
  keep_reply user_id none reply = pure tt
  keep_reply user_id (some key) reply = set_idempotent_response R user_id key reply 60
