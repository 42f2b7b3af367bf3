-- ===== src/Reconciliation/Gateway.antt =====
-- `fetchWithTokenFallback` of lib/reconciliation-worker.ts: a request to the auth gateway, tried
-- with each internal token until one is accepted.
use brain_mate.Common.{
  ℕ, String, Bool, ◌&&◌, ◌||◌, Option, none, some, List, [], ◌∷◌, ◌==◌, leb, if◌then◌else◌,
}
use brain_mate.Errors.{Error, internal_error, create_api_error, no_meta}
use brain_mate.Exec.{Exec, Request, pure, throw, fetch, ◌>>=◌}

-- `res.ok`
abbrev pub is_ok : ℕ → Bool
is_ok status = leb 200 status && leb status 299

abbrev pub is_unauthorized : ℕ → Bool
is_unauthorized status = status == 401 || status == 403

unfoldable pub no_candidates : Error
no_candidates =
    create_api_error internal_error "No internal API token candidates available" (some 500) no_meta

module _ {S : Type 0} where
  -- the loop over the tokens, with `lastUnauthorized`
  unfoldable pub try_tokens : Request → Option ℕ → List String → Exec S ℕ
  try_tokens request none [] = throw no_candidates
  try_tokens request (some status) [] = pure status
  try_tokens request last (token ∷ tokens) = do
    status ← fetch request token
    if is_unauthorized status then try_tokens request (some status) tokens else pure status

  unfoldable pub fetch_with_token_fallback : Request → List String → Exec S ℕ
  fetch_with_token_fallback request tokens = try_tokens request none tokens
