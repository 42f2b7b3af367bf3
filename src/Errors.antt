-- ===== src/Errors.antt =====
-- lib/writeright-errors.ts: the error codes, the table of user messages, `createApiError` and
-- `toApiResponse`.
pub mod Response
mod Tests
use brain_mate.Common.{ℕ, String, Option, none, some, List, []}

-- `ErrorCode`
pub data Code : Type 0 where
  confirmation_required quota_exceeded text_too_long file_too_large conflict : Code
  missing_secret expired_token invalid_token invalid_chat_id invalid_job_id upstream_error : Code
  gateway_error redis_unavailable db_error unauthorized invalid_body validation_error : Code
  missing_text empty_text invalid_tone invalid_mode invalid_keys chat_not_found not_found : Code
  rate_limited queue_error timeout stream_error worker_error internal_error : Code
  gmail_not_connected gmail_token_expired gmail_fetch_failed gmail_quota_exceeded : Code
  gateway_offline : Code

-- `USER_MESSAGES`, a partial table
unfoldable pub user_message : Code → Option String
user_message quota_exceeded = some "Monthly limit reached. Upgrade for more."
user_message file_too_large = some "File exceeds the 4MB limit."
user_message conflict = some "This request was already processed."
user_message missing_secret = some "Share feature unavailable."
user_message expired_token = some "This share link has expired."
user_message invalid_token = some "Invalid share link."
user_message invalid_chat_id = some "Invalid chat reference."
user_message db_error = some "Something went wrong saving your data."
user_message unauthorized = some "Session expired. Please refresh."
user_message invalid_body = some "Invalid request format."
user_message validation_error = some "Invalid input. Please check your data."
user_message missing_text = some "Please enter some text to improve."
user_message empty_text = some "Text is empty after processing. Please try different text."
user_message invalid_tone = some "Invalid tone selected."
user_message invalid_mode = some "Invalid mode selected."
user_message invalid_keys = some "Invalid request parameters."
user_message chat_not_found = some "Chat not found or does not belong to you."
user_message not_found = some "The requested resource was not found."
user_message rate_limited = some "You're moving fast! Wait a moment and try again."
user_message queue_error = some "Service is busy. Please try again in a moment."
user_message timeout = some "This took too long. Try with shorter text."
user_message stream_error = some "Live preview interrupted. Your result is still being saved."
user_message worker_error = some "The AI worker encountered an error. Please try again."
user_message internal_error = some "Something went wrong. We've been notified."
user_message gmail_not_connected = some "Connect your Gmail account to import emails."
user_message gmail_token_expired = some "Your Gmail connection expired. Please reconnect."
user_message gmail_fetch_failed = some "Could not fetch emails. Please try again."
user_message gmail_quota_exceeded = some "Gmail API limit reached. Please wait a moment."
user_message gateway_offline =
    some "Authentication gateway is offline. Please make sure it is running."
user_message _ = none

-- The code as it is sent to a client.
unfoldable pub code_name : Code → String
code_name confirmation_required = "CONFIRMATION_REQUIRED"
code_name quota_exceeded = "QUOTA_EXCEEDED"
code_name text_too_long = "TEXT_TOO_LONG"
code_name file_too_large = "FILE_TOO_LARGE"
code_name conflict = "CONFLICT"
code_name missing_secret = "MISSING_SECRET"
code_name expired_token = "EXPIRED_TOKEN"
code_name invalid_token = "INVALID_TOKEN"
code_name invalid_chat_id = "INVALID_CHAT_ID"
code_name invalid_job_id = "INVALID_JOB_ID"
code_name upstream_error = "UPSTREAM_ERROR"
code_name gateway_error = "GATEWAY_ERROR"
code_name redis_unavailable = "REDIS_UNAVAILABLE"
code_name db_error = "DB_ERROR"
code_name unauthorized = "UNAUTHORIZED"
code_name invalid_body = "INVALID_BODY"
code_name validation_error = "VALIDATION_ERROR"
code_name missing_text = "MISSING_TEXT"
code_name empty_text = "EMPTY_TEXT"
code_name invalid_tone = "INVALID_TONE"
code_name invalid_mode = "INVALID_MODE"
code_name invalid_keys = "INVALID_KEYS"
code_name chat_not_found = "CHAT_NOT_FOUND"
code_name not_found = "NOT_FOUND"
code_name rate_limited = "RATE_LIMITED"
code_name queue_error = "QUEUE_ERROR"
code_name timeout = "TIMEOUT"
code_name stream_error = "STREAM_ERROR"
code_name worker_error = "WORKER_ERROR"
code_name internal_error = "INTERNAL_ERROR"
code_name gmail_not_connected = "GMAIL_NOT_CONNECTED"
code_name gmail_token_expired = "GMAIL_TOKEN_EXPIRED"
code_name gmail_fetch_failed = "GMAIL_FETCH_FAILED"
code_name gmail_quota_exceeded = "GMAIL_QUOTA_EXCEEDED"
code_name gateway_offline = "GATEWAY_OFFLINE"

-- `ErrorMetadata`: the headers, and the other keys with their values
pub record Meta : Type 0 where
  pub headers : List (String × String)
  pub extra : List (String × String)

abbrev pub no_meta : Meta
no_meta = record { headers = []; extra = [] }

-- `WriteRightError`
pub record ApiError : Type 0 where
  pub code : Code
  pub message : String
  pub status : ℕ
  pub meta : Meta

-- What is thrown: a `WriteRightError`, a `ZodError`, or any other error with its message.
pub data Error : Type 0 where
  api : ApiError → Error
  zod : Error
  failure : String → Error

-- `err.message`
unfoldable pub message_of : Error → String
message_of (api e) = e.message
message_of zod = "ZodError"
message_of (failure m) = m

-- the status of `createApiError` where the caller gives none
unfoldable pub default_status : Code → ℕ
default_status unauthorized = 401
default_status rate_limited = 429
default_status quota_exceeded = 402
default_status file_too_large = 413
default_status expired_token = 410
default_status conflict = 409
default_status not_found = 404
default_status chat_not_found = 404
default_status validation_error = 400
default_status invalid_body = 400
default_status empty_text = 400
default_status missing_text = 400
default_status invalid_token = 400
default_status _ = 500

abbrev or_else {ℓ} : {A : Type ℓ} → Option A → A → A
or_else none a = a
or_else (some b) a = b

-- `createApiError`: the user-facing copy wins over the message of the caller
unfoldable pub create_api_error : Code → String → Option ℕ → Meta → Error
unfolding user_message default_status
create_api_error code msg status meta = api (record {
  code = code;
  message = or_else (user_message code) msg;
  status = or_else status (default_status code);
  meta = meta;
})
