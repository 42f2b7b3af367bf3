-- ===== src/Routes/Session.antt =====
-- POST of app/api/auth/logout/route.ts and of app/api/auth/sync/route.ts.
pub mod LoggedOut
pub mod GivesUp
pub mod Retried
use brain_mate.Common.{
  ℕ, zero, suc, String, Bool, true, false, ◌||◌, Option, none, some, List, [], ◌∷◌, ◌==◌, leb,
  if◌then◌else◌,
}
use brain_mate.Types.{Op, session_sync, session_revoke}
use brain_mate.Errors.{Error, create_api_error, unauthorized, validation_error, no_meta}
use brain_mate.Redis.{Redis}
use brain_mate.Exec.{Exec, Result, Request, post_logout, pure, throw, catch, fetch, ◌>>=◌, ◌>>◌}
use brain_mate.Reconciliation.Gateway.{is_ok}
use brain_mate.Reconciliation.Operation.{truthy_text, truthy_number}
use brain_mate.Reconciliation.Version.{bump_session_version, read_session_version}
use brain_mate.Reconciliation.Enqueue.{TraceHeaders, enqueue_reconciliation}
use brain_mate.RustAuth.{Outcome, accepted, rejected, sync_session, force_revoke_session}

-- what `auth()` and `getToken()` of the identity provider return, with the claims in use
pub record Auth : Type 0 where
  pub user_id : Option String
  pub session_id : Option String
  pub token : Option String
  pub jti : Option String
  pub exp : Option ℕ

-- `isRetryableFailure`, and `isRetryableSyncFailure` alike
unfoldable pub is_retryable : ℕ → Bool
is_retryable status = status == 429 || leb 500 status

-- the reply of the sync route: the session, or the failure with whether it was enqueued
pub data SyncReply : Type 0 where
  synced : String → SyncReply
  sync_failed : ℕ → String → Bool → SyncReply

module _ {S : Type 0} (R : Redis S) (trace : TraceHeaders) (tokens : Result (List String)) where
  -- a session without a token: any failure is enqueued
  unfoldable pub revoke_untokened : String → ℕ → Outcome → Exec S (Unit {0})
  revoke_untokened session_id version accepted = pure tt
  revoke_untokened session_id version (rejected status reason) =
      enqueue_reconciliation R trace (session_revoke session_id none none (some version))

  -- stage 3: a failure that may pass is enqueued
  unfoldable pub stage_three : String → Option String → Option ℕ → ℕ → Outcome → Exec S (Unit {0})
  stage_three session_id jti exp version accepted = pure tt
  stage_three session_id jti exp version (rejected status reason) =
      if is_retryable status
      then enqueue_reconciliation R trace (session_revoke session_id jti exp (some version))
      else pure tt

  -- stage 1: whether the public gateway has logged the bearer out
  unfoldable pub stage_one : String → Exec S Bool
  stage_one token =
      catch (do status ← fetch post_logout token; pure (is_ok status || status == 204))
        (λ _. pure false)

  -- the handler, once the session's version is bumped
  unfoldable pub after_bump : String → Auth → Option String → ℕ → Exec S (Unit {0})
  after_bump session_id auth none version = do
    outcome ← force_revoke_session tokens session_id none none
    revoke_untokened session_id version outcome
  after_bump session_id auth (some token) version = do
    public_succeeded ← stage_one token
    if public_succeeded then pure tt else do
      outcome ← force_revoke_session tokens session_id auth.jti auth.exp
      stage_three session_id auth.jti auth.exp version outcome

  unfoldable pub logout_session : String → Auth → Exec S (Unit {0})
  logout_session session_id auth = do
    version ← bump_session_version R session_id
    after_bump session_id auth (truthy_text auth.token) version

  -- once it is known whether there is a session
  unfoldable pub logout_from : Auth → Option String → Exec S (Unit {0})
  logout_from auth none = pure tt
  logout_from auth (some session_id) = logout_session session_id auth

  unfoldable pub logout : Auth → Exec S (Unit {0})
  logout auth = logout_from auth (truthy_text auth.session_id)

  unfoldable pub after_sync : String → String → ℕ → ℕ → Outcome → Exec S SyncReply
  after_sync session_id user_id expires_at expected accepted = pure (synced session_id)
  after_sync session_id user_id expires_at expected (rejected status reason) =
      if is_retryable status
      then (do
        enqueue_reconciliation R trace (session_sync session_id user_id expires_at expected)
        pure (sync_failed status reason true))
      else pure (sync_failed status reason false)

  unfoldable pub sync_claimed : String → String → Option ℕ → Exec S SyncReply
  sync_claimed user_id session_id none =
      throw
        (create_api_error validation_error "Missing session expiration claim" (some 400) no_meta)
  sync_claimed user_id session_id (some expires_at) = do
    expected ← read_session_version R session_id
    outcome ← sync_session tokens (record {
      session_id = session_id;
      user_id = user_id;
      issued_at = none;
      expires_at = expires_at;
    })
    after_sync session_id user_id expires_at expected outcome

  unfoldable pub sync_from : Auth → Option String → Option String → Exec S SyncReply
  sync_from auth (some user_id) (some session_id) =
      sync_claimed user_id session_id (truthy_number auth.exp)
  sync_from auth _ _ = throw (create_api_error unauthorized "Not authenticated" (some 401) no_meta)

  unfoldable pub sync : Auth → Exec S SyncReply
  sync auth = sync_from auth (truthy_text auth.user_id) (truthy_text auth.session_id)
