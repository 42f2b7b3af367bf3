-- ===== src/Reconciliation/Operation.antt =====
-- `executeOperation` of lib/reconciliation-worker.ts: one attempt at a queued operation.
use brain_mate.Common.{
  ℕ, zero, suc, String, ◌/◌, not, ◌||◌, Option, none, some, List, [], ◌∷◌, ◌==◌, ltb, str_eq,
  decimal, ◌<>◌, if◌then◌else◌,
}
use brain_mate.Types.{number, Op, token_revocation, session_sync, session_revoke}
use brain_mate.Errors.{Error, internal_error, create_api_error, no_meta}
use brain_mate.Redis.{Redis}
use brain_mate.Exec.{
  Exec, Result, ok, err, post_session, delete_session, pure, throw, date_now, ◌>>=◌, ◌>>◌,
}
use brain_mate.Commands.{setex}
use brain_mate.Reconciliation.Keys.{blacklist_key}
use brain_mate.Reconciliation.Version.{get_session_version, set_session_version}
use brain_mate.Reconciliation.Gateway.{is_ok, fetch_with_token_fallback}

-- An optional text or number that is falsy when it is empty or 0.
abbrev pub truthy_text : Option String → Option String
truthy_text none = none
truthy_text (some s) = if str_eq s "" then none else some s

abbrev pub truthy_number : Option ℕ → Option ℕ
truthy_number none = none
truthy_number (some zero) = none
truthy_number (some (suc n)) = some (suc n)

unfoldable pub failed : String → ℕ → Error
failed what status =
    create_api_error internal_error (what <> (" failed: " <> decimal status)) (some status) no_meta

module _ {S : Type 0} (R : Redis S) where
  unfoldable pub raise_version : String → Option ℕ → Exec S (Unit {0})
  raise_version session_id none = pure tt
  raise_version session_id (some target) = do
    version ← get_session_version R session_id
    if ltb version target then set_session_version R session_id target else pure tt

  -- the `switch`, once there is a token
  unfoldable pub perform : Op → List String → Exec S (Unit {0})
  perform (token_revocation jti zero) tokens = pure tt
  perform (token_revocation jti (suc t)) tokens = setex R (blacklist_key jti) (suc t) (number 1)
  perform (session_sync session_id user_id expires_at expected_version) tokens = do
    version ← get_session_version R session_id
    if not (version == expected_version) then pure tt else do
      now ← date_now
      status ←
          fetch_with_token_fallback (post_session session_id user_id (now / 1000) expires_at) tokens
      if is_ok status then pure tt else throw (failed "Session sync" status)
  perform (session_revoke session_id jti token_exp target_version) tokens = do
    raise_version session_id target_version
    status ←
        fetch_with_token_fallback
          (delete_session session_id (truthy_text jti) (truthy_number token_exp)) tokens
    if is_ok status || status == 404 then pure tt else throw (failed "Session revoke" status)

  -- what `getInternalApiTokenCandidates` throws, this throws
  unfoldable pub execute_operation : Result (List String) → Op → Exec S (Unit {0})
  execute_operation (err e) op = throw e
  execute_operation (ok []) op =
      throw
        (create_api_error internal_error "Internal API token is not configured" (some 500) no_meta)
  execute_operation (ok (token ∷ tokens)) op = perform op (token ∷ tokens)
