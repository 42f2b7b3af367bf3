-- ===== src/RustAuth.antt =====
-- lib/rust-auth.ts: the client of the auth gateway, with retries.
pub mod Outcomes
pub mod Quiet
mod Tests
use brain_mate.Common.{
  ℕ, zero, suc, String, ◌*◌, ◌^◌, min, Bool, true, false, ◌&&◌, ◌||◌, Option, none, some, List, [],
  ◌∷◌, ◌==◌, leb, ltb, if◌then◌else◌, ◌<>◌, decimal, ◌/◌,
}
use brain_mate.Errors.{Error, failure, message_of}
use brain_mate.Exec.{
  Exec, Result, ok, err, Request, post_session, delete_session, pure, throw, catch, fetch_body,
  date_now, ◌>>=◌,
}
use brain_mate.Reconciliation.Gateway.{is_ok, is_unauthorized}
use brain_mate.Reconciliation.Operation.{truthy_text, truthy_number}

abbrev pub max_retries : ℕ
max_retries = 3

-- the longest wait after an attempt; the wait itself is a random part of it
unfoldable pub backoff : ℕ → ℕ
backoff attempt = min (200 * 2 ^ attempt) 5000

-- what one attempt comes to: a reply that is returned, or the error to retry after
pub data Tried : Type 0 where
  returned : ℕ × String → Tried
  again : Error → Tried

-- `res.ok || (res.status >= 400 && res.status < 500)`
abbrev pub is_final : ℕ → Bool
is_final status = is_ok status || (leb 400 status && ltb status 500)

unfoldable pub sort_reply : ℕ × String → Tried
sort_reply (status, body) =
    if is_final status
    then returned (status, body)
    else again (failure ("Gateway returned " <> decimal status))

-- `{ ok: true } | { ok: false; status; reason }`
pub data Outcome : Type 0 where
  accepted : Outcome
  rejected : ℕ → String → Outcome

-- the parameters of `syncSession`, without the device
pub record SyncSessionParams : Type 0 where
  pub session_id : String
  pub user_id : String
  pub issued_at : Option ℕ
  pub expires_at : ℕ

module _ {S : Type 0} where
  unfoldable pub try_once : Request → String → Exec S Tried
  try_once request token =
      catch (do reply ← fetch_body request token; pure (sort_reply reply)) (λ e. pure (again e))

  -- a failed attempt throws its error, or is followed by the next
  abbrev pub give_up : Tried → Exec S (ℕ × String)
  give_up (returned reply) = pure reply
  give_up (again e) = throw e

  abbrev pub go_on : Tried → Exec S (ℕ × String) → Exec S (ℕ × String)
  go_on (returned reply) next = pure reply
  go_on (again e) next = next

  -- The attempts with this many retries left. The waits in between are left to the clock.
  unfoldable pub fetch_with_retry : ℕ → Request → String → Exec S (ℕ × String)
  fetch_with_retry zero request token = do tried ← try_once request token; give_up tried
  fetch_with_retry (suc retries) request token = do
    tried ← try_once request token
    go_on tried (fetch_with_retry retries request token)

  -- the catch of both operations
  unfoldable pub to_unreachable : Error → Exec S Outcome
  to_unreachable e = pure (rejected 503 (message_of e))

  -- `params.issuedAt ?? Math.floor(Date.now() / 1000)`
  unfoldable pub issued_or_now : Option ℕ → Exec S ℕ
  issued_or_now none = do now ← date_now; pure (now / 1000)
  issued_or_now (some t) = pure t

  -- the loop over the tokens of `syncSession`
  unfoldable pub sync_with : SyncSessionParams → List String → Exec S Outcome
  sync_with params [] = pure (rejected 401 "Session sync failed: 401 Invalid internal API token")
  sync_with params (token ∷ tokens) = do
    issued ← issued_or_now params.issued_at
    reply ←
        fetch_with_retry max_retries
          (post_session params.session_id params.user_id issued params.expires_at) token
    if is_ok reply.0
        then pure accepted
        else if is_unauthorized reply.0
        then sync_with params tokens
        else pure
            (rejected reply.0 ("Session sync failed: " <> (decimal reply.0 <> (" " <> reply.1))))

  -- after the tokens of `getInternalApiTokenCandidates`, whose `await` stands before the `try`:
  -- what it throws, this throws
  unfoldable pub sync_session : Result (List String) → SyncSessionParams → Exec S Outcome
  sync_session (err e) params = throw e
  sync_session (ok []) params = pure (rejected 500 "Internal gateway not configured")
  sync_session (ok (token ∷ tokens)) params =
      catch (sync_with params (token ∷ tokens)) to_unreachable

  -- the loop over the tokens of `forceRevokeSession`
  unfoldable pub revoke_with : Request → List String → Exec S Outcome
  revoke_with request [] = pure (rejected 401 "Force revoke failed: 401 Invalid internal API token")
  revoke_with request (token ∷ tokens) = do
    reply ← fetch_with_retry max_retries request token
    if is_ok reply.0 || reply.0 == 404
        then pure accepted
        else if is_unauthorized reply.0
        then revoke_with request tokens
        else pure (rejected reply.0 ("Force revoke failed: " <> decimal reply.0))

  unfoldable pub force_revoke_session :
      Result (List String) → String → Option String → Option ℕ → Exec S Outcome
  force_revoke_session (err e) session_id jti token_exp = throw e
  force_revoke_session (ok []) session_id jti token_exp =
      pure (rejected 500 "Internal gateway not configured")
  force_revoke_session (ok (token ∷ tokens)) session_id jti token_exp =
      catch
        (revoke_with (delete_session session_id (truthy_text jti) (truthy_number token_exp))
          (token ∷ tokens))
        to_unreachable
