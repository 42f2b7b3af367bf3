-- ===== src/Reconciliation/Fate/Calm.antt =====
-- `executeOperation` of lib/reconciliation-worker.ts while Redis answers.
use brain_mate.Common.{ℕ, zero, suc, String, Option, none, some, List, [], ◌∷◌}
use brain_mate.Types.{Op, token_revocation, session_sync, session_revoke}
use brain_mate.Redis.{Redis}
use brain_mate.Exec.{Request, Result, ok, err}
use brain_mate.Exec.Keeps.{Keeps, IsCalm, calm_rules}
use brain_mate.Commands.{get, setex}
use brain_mate.Reconciliation.Operation.{raise_version, perform, execute_operation}
use brain_mate.Reconciliation.Version.{get_session_version, set_session_version}
use brain_mate.Reconciliation.Gateway.{try_tokens, fetch_with_token_fallback}

module _ {S : Type 0} (R : Redis S) where
  try_tokens-IsCalm :
      (r : Request) (last : Option ℕ) (tokens : List String)
      → Keeps IsCalm (try_tokens {S = S} r last tokens)
  unfolding try_tokens
  try_tokens-IsCalm r none [] = search calm_rules
  try_tokens-IsCalm r (some status) [] = search calm_rules
  try_tokens-IsCalm r none (token ∷ tokens) =
      search (calm_rules, λ (n : ℕ). try_tokens-IsCalm r (some n) tokens)
  try_tokens-IsCalm r (some status) (token ∷ tokens) =
      search (calm_rules, λ (n : ℕ). try_tokens-IsCalm r (some n) tokens)

  set_session_version-IsCalm : (sid : String) (n : ℕ) → Keeps IsCalm (set_session_version R sid n)
  unfolding set_session_version get_session_version get setex
  set_session_version-IsCalm sid n = search calm_rules depth 9

  get_session_version-IsCalm : (sid : String) → Keeps IsCalm (get_session_version R sid)
  unfolding get_session_version get
  get_session_version-IsCalm sid = search calm_rules depth 9

  raise_version-IsCalm :
      (sid : String) (target : Option ℕ) → Keeps IsCalm (raise_version R sid target)
  unfolding raise_version
  raise_version-IsCalm sid none = search calm_rules
  raise_version-IsCalm sid (some target) =
      search (calm_rules, set_session_version-IsCalm, get_session_version-IsCalm) depth 9

  pub execute_operation-IsCalm :
      (tokens : Result (List String)) (op : Op) → Keeps IsCalm (execute_operation R tokens op)
  unfolding execute_operation perform fetch_with_token_fallback setex
  execute_operation-IsCalm (err e) op = search calm_rules
  execute_operation-IsCalm (ok []) op = search calm_rules
  execute_operation-IsCalm (ok (t ∷ ts)) (token_revocation jti zero) = search calm_rules
  execute_operation-IsCalm (ok (t ∷ ts)) (token_revocation jti (suc n)) = search calm_rules
  execute_operation-IsCalm (ok (t ∷ ts)) (session_sync s u x n) =
      search (calm_rules, get_session_version-IsCalm, try_tokens-IsCalm) depth 9
  execute_operation-IsCalm (ok (t ∷ ts)) (session_revoke s jti x n) =
      search (calm_rules, raise_version-IsCalm, try_tokens-IsCalm) depth 9
