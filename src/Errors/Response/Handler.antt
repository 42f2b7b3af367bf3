-- ===== src/Errors/Response/Handler.antt =====
-- `withErrorHandler`, `withTimeout` and `getUserMessage` of lib/writeright-errors.ts, around a
-- handler. The log of a request is left out.
use brain_mate.Common.{ℕ, String, ◌+◌, Option, ◌<>◌, decimal, ltb, if◌then◌else◌}
use brain_mate.Errors.{Code, user_message, timeout, no_meta, Error, api, or_else}
use brain_mate.Errors.Response.{Response, to_api_response}
use brain_mate.Exec.{World, Exec, Result, err, pure, catch}

-- `getUserMessage`
unfoldable pub get_user_message : Code → String
unfolding user_message
get_user_message code = or_else (user_message code) "Something went wrong. Please try again."

-- the `WriteRightError` of a timeout, whose message is the code's own
unfoldable pub timed_out : ℕ → String → Error
timed_out ms label = api (record {
  code = timeout;
  message = label <> (" timed out after " <> (decimal ms <> "ms"));
  status = 503;
  meta = no_meta;
})

module _ {S : Type 0} where
  abbrev pub late_if : {A : Type 0} → ℕ → ℕ → String → Result A × World S → Result A × World S
  late_if begin ms label (r, w) =
      (if ltb (begin + ms) w.clock then err (timed_out ms label) else r, w)

  -- The race of the action and the timer: the action goes on when the timer has won, and its value
  -- is lost.
  unfoldable pub with_timeout : {A : Type 0} → ℕ → String → Exec S A → Exec S A
  with_timeout ms label m w = late_if w.clock ms label (m w)

  -- every error becomes a response, with the id of the active trace
  unfoldable pub with_error_handler : Option String → Exec S Response → Exec S Response
  with_error_handler trace handler = catch handler (λ e. pure (to_api_response trace e))
