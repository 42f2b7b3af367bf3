-- ===== src/Reconciliation/Version.antt =====
-- The session versions of lib/reconciliation-worker.ts: `getSessionVersion`,
-- `bumpSessionVersion`, `readSessionVersion`, `setSessionVersion`, `ensureSessionVersion`.
pub mod Monotone
use brain_mate.Common.{ℕ, String, Option, none, some, ltb, if◌then◌else◌}
use brain_mate.Types.{Text, number, Op, token_revocation, session_sync, session_revoke}
use brain_mate.Redis.{Redis}
use brain_mate.Exec.{Exec, pure, catch, redis_pool, ◌>>=◌, ◌>>◌}
use brain_mate.Commands.{get, setex, incr, expire}
use brain_mate.Reconciliation.Keys.{session_version_key, idem_ttl_secs}

-- `!raw` and `Number.parseInt`: 0 for a missing key and for a text that is no number
abbrev pub parse_version : Option Text → ℕ
parse_version (some (number n)) = n
parse_version _ = 0

module _ {S : Type 0} (R : Redis S) where
  unfoldable pub get_session_version : String → Exec S ℕ
  get_session_version session_id = do
    raw ← get R (session_version_key session_id)
    pure (parse_version raw)

  unfoldable pub bump_session_version : String → Exec S ℕ
  bump_session_version session_id = do
    redis_pool
    catch
        (do
          next ← incr R (session_version_key session_id)
          expire R (session_version_key session_id) idem_ttl_secs
          pure next)
        (λ _. pure 0)

  unfoldable pub read_session_version : String → Exec S ℕ
  read_session_version session_id = do
    redis_pool
    catch (get_session_version session_id) (λ _. pure 0)

  unfoldable pub set_session_version : String → ℕ → Exec S (Unit {0})
  set_session_version session_id version = do
    current ← get_session_version session_id
    if ltb current version
        then setex R (session_version_key session_id) idem_ttl_secs (number version)
        else pure tt

  unfoldable pub ensure_session_version : Op → Exec S (Unit {0})
  ensure_session_version (session_sync session_id user_id expires_at expected_version) =
      set_session_version session_id expected_version
  ensure_session_version (session_revoke session_id jti token_exp (some target_version)) =
      set_session_version session_id target_version
  ensure_session_version (session_revoke session_id jti token_exp none) = pure tt
  ensure_session_version (token_revocation jti ttl_secs) = pure tt
