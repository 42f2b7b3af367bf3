-- ===== src/Errors/Response.antt =====
-- `toApiResponse` of lib/writeright-errors.ts: the response to an error.
pub mod Leaks
pub mod Handler
use text.Mathlib.Text.{find?}
use brain_mate.Common.{
  ℕ, String, ◌||◌, Option, none, some, [], ◌∷◌, ◌++◌, is_some, if◌then◌else◌, Fields, field,
}
use brain_mate.Errors.{
  Code, quota_exceeded, internal_error, rate_limited, queue_error, Error, api, zod, failure,
  ApiError, code_name, or_else,
}

pub record Response : Type 0 where
  pub status : ℕ
  pub body : Fields
  pub headers : Fields

-- what the code adds to the body after the metadata
unfoldable pub additions : Option String → Code → Fields → Fields → Fields
additions trace quota_exceeded body headers =
    ("upgrade_url", or_else (field "upgrade_url" body) "https://brainmate.ai/pricing") ∷ []
additions trace internal_error body headers = ("request_id", or_else trace "unknown") ∷ []
additions trace rate_limited body headers = headers
additions trace queue_error body headers = elim (field "Retry-After" headers) [
  | none ↦ []
  | some v ↦ ("Retry-After", v) ∷ []
]
additions trace _ body headers = []

unfoldable pub api_body : Option String → ApiError → Fields
unfolding additions code_name
api_body trace e =
    let body = ("error", code_name e.code) ∷ ("message", e.message) ∷ e.meta.extra in
    body ++ additions trace e.code body e.meta.headers

-- `toApiResponse`, with the id of the active trace
unfoldable pub to_api_response : Option String → Error → Response
unfolding api_body
to_api_response trace (api e) = record {
  status = e.status;
  body = api_body trace e;
  headers = e.meta.headers;
}
to_api_response trace zod = record {
  status = 400;
  body = ("error", "VALIDATION_ERROR") ∷ ("message", "Invalid input. Please check your data.") ∷ [];
  headers = [];
}
to_api_response trace (failure m) =
    if is_some (find? m "Unauthenticated") || is_some (find? m "unauthorized")
    then record {
      status = 401;
      body = ("error", "UNAUTHORIZED") ∷ ("message", "Session expired. Please refresh.") ∷ [];
      headers = [];
    }
    else record {
      status = 500;
      body =
          ("error", "INTERNAL_ERROR")
          ∷ ("message", "Something went wrong. We've been notified.")
          ∷ ("request_id", or_else trace "unknown")
          ∷ [];
      headers = [];
    }
