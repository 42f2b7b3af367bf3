-- ===== src/Reconciliation/Keys.antt =====
-- The constants and keys of lib/reconciliation-worker.ts, and `generateOperationId`.
use brain_mate.Common.{ℕ, String, ◌*◌, none, some, ◌<>◌, decimal}
use brain_mate.Types.{Op, token_revocation, session_sync, session_revoke}

abbrev pub pending_queue : String
pending_queue = "reconciliation:pending"

abbrev pub dlq_queue : String
dlq_queue = "reconciliation:dlq"

abbrev pub idem_ttl_secs : ℕ
idem_ttl_secs = 86400

abbrev pub max_attempts : ℕ
max_attempts = 5

abbrev pub base_delay_ms : ℕ
base_delay_ms = 1000

abbrev pub batch_size : ℕ
batch_size = 10

abbrev pub max_queue_size : ℕ
max_queue_size = 5000

abbrev pub circuit_failure_threshold : ℕ
circuit_failure_threshold = 20

abbrev pub circuit_cooldown_ms : ℕ
circuit_cooldown_ms = 30000

abbrev pub worker_lock_ttl_secs : ℕ
worker_lock_ttl_secs = 15

abbrev pub max_enqueue_per_second : ℕ
max_enqueue_per_second = 200

abbrev pub dlq_retention_ms : ℕ
dlq_retention_ms = 7 * 24 * 60 * 60 * 1000

unfoldable pub idem_key : String → String
idem_key id = "reconciliation:idem:" <> id

unfoldable pub lock_key : String → String
lock_key id = "reconciliation:lock:" <> id

-- `sessionVersionKey`
unfoldable pub session_version_key : String → String
session_version_key session_id = "session_version:" <> session_id

unfoldable pub blacklist_key : String → String
blacklist_key jti = "blacklist:" <> jti

unfoldable pub generate_operation_id : Op → String
unfolding decimal
generate_operation_id (token_revocation jti ttl_secs) = "revoke:" <> jti
generate_operation_id (session_sync session_id user_id expires_at expected_version) =
    "sync:" <> (session_id <> (":v" <> decimal expected_version))
generate_operation_id (session_revoke session_id jti token_exp (some target_version)) =
    "logout:" <> (session_id <> (":v" <> decimal target_version))
generate_operation_id (session_revoke session_id jti token_exp none) = "logout:" <> session_id
