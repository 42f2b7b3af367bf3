-- ===== src/Reconciliation/Fate/Gone.antt =====
-- `executeOperation` of lib/reconciliation-worker.ts leaves the queue alone.
use brain_mate.Exec.{Result, ok, err}
use brain_mate.Common.{
  ℕ, zero, suc, String, ◌≡◌, refl, ◌∙◌, Option, none, some, List, [], ◌∷◌, str_eq, false, apart,
  str_eq-false,
}
use brain_mate.Types.{Text, Op, token_revocation, session_sync, session_revoke}
use brain_mate.Redis.{Redis, IsLawful}
use brain_mate.Exec.Keeps.{Keeps, On, command-On, on_rules}
use brain_mate.Commands.{get, setex}
use brain_mate.Reconciliation.Keys.{pending_queue, session_version_key, blacklist_key}
use brain_mate.Reconciliation.Once.{version_apart_pending}
use brain_mate.Reconciliation.Operation.{raise_version, perform, execute_operation}
use brain_mate.Reconciliation.Version.{get_session_version, set_session_version}
use brain_mate.Reconciliation.OwnState.{fetch_with_token_fallback-On}

blacklist_apart_pending : (jti : String) → str_eq (blacklist_key jti) pending_queue ≡ false
unfolding blacklist_key
blacklist_apart_pending jti =
    str_eq-false _ _ (apart "blacklist:" "reconcilia" "tion:pending" jti "" refl refl)

module _ {S : Type 0} (R : Redis S) (laws : IsLawful R) (m : Text) where
  -- a member is not in the queue
  pub record IsGone (s : S) : Type 0 where
    pub gone : R.zscore s pending_queue m ≡ none

  get-IsGone : (k : String) → Keeps (On IsGone) (get R k)
  unfolding get
  get-IsGone k = command-On _ (λ s q. q)

  setex_version-IsGone :
      (sid : String) (t : ℕ) (v : Text) → Keeps (On IsGone) (setex R (session_version_key sid) t v)
  unfolding setex
  setex_version-IsGone sid t v = command-On _ (λ s q. record {
    gone = laws.zset.zscore-setex _ _ _ _ _ _ (version_apart_pending sid) ∙ q.gone;
  })

  setex_blacklist-IsGone :
      (jti : String) (t : ℕ) (v : Text) → Keeps (On IsGone) (setex R (blacklist_key jti) t v)
  unfolding setex
  setex_blacklist-IsGone jti t v = command-On _ (λ s q. record {
    gone = laws.zset.zscore-setex _ _ _ _ _ _ (blacklist_apart_pending jti) ∙ q.gone;
  })

  get_version-IsGone : (sid : String) → Keeps (On IsGone) (get_session_version R sid)
  unfolding get_session_version
  get_version-IsGone sid = search (on_rules, get-IsGone)

  set_version-IsGone : (sid : String) (n : ℕ) → Keeps (On IsGone) (set_session_version R sid n)
  unfolding set_session_version
  set_version-IsGone sid n = search (on_rules, get_version-IsGone, setex_version-IsGone) depth 9

  raise_version-IsGone :
      (sid : String) (target : Option ℕ) → Keeps (On IsGone) (raise_version R sid target)
  unfolding raise_version
  raise_version-IsGone sid none = search on_rules
  raise_version-IsGone sid (some target) =
      search (on_rules, get_version-IsGone, set_version-IsGone) depth 9

  pub execute_operation-IsGone :
      (tokens : Result (List String)) (op : Op) → Keeps (On IsGone) (execute_operation R tokens op)
  unfolding execute_operation perform
  execute_operation-IsGone (err e) op = search on_rules
  execute_operation-IsGone (ok []) op = search on_rules
  execute_operation-IsGone (ok (t ∷ ts)) (token_revocation jti zero) = search on_rules
  execute_operation-IsGone (ok (t ∷ ts)) (token_revocation jti (suc n)) =
      search (on_rules, setex_blacklist-IsGone)
  execute_operation-IsGone (ok (t ∷ ts)) (session_sync s u x n) =
      search (on_rules, get_version-IsGone, fetch_with_token_fallback-On) depth 9
  execute_operation-IsGone (ok (t ∷ ts)) (session_revoke s jti x n) =
      search (on_rules, raise_version-IsGone, fetch_with_token_fallback-On) depth 9
