-- ===== src/Routes/Session/LoggedOut.antt =====
-- POST of app/api/auth/logout/route.ts and the queued syncs of its session.
use brain_mate.Common.{ℕ, suc, String, ◌≡◌, ap, ◌≤◌, Option, none, some, List, [], ◌∷◌, arith}
use brain_mate.Types.{session_sync}
use brain_mate.Redis.{Redis, IsLawful, IsCounter}
use brain_mate.Exec.{World, Result, ok}
use brain_mate.Exec.Keeps.{
  Keeps, On, Keeps-bind, Keeps-catch, Keeps-if, Keeps-pure, Keeps-throw, redis_pool-Keeps, fetch-On,
  resume_ok,
}
use brain_mate.Reconciliation.Keys.{session_version_key}
use brain_mate.Reconciliation.Version.{bump_session_version, read_session_version}
use brain_mate.Reconciliation.Version.Monotone.{
  AtLeast, bump_session_version-AtLeast, get_session_version-AtLeast,
}
use brain_mate.Reconciliation.Operation.{truthy_text, truthy_number, execute_operation}
use brain_mate.Reconciliation.Enqueue.{TraceHeaders}
use brain_mate.Reconciliation.Stale.{
  Call, run, run-AtLeast, enqueue-AtLeast, bump-AtLeast, stale_lem,
}
use brain_mate.RustAuth.{Outcome, accepted, rejected}
use brain_mate.RustAuth.Quiet.{sync_session-On, force_revoke_session-On}
use brain_mate.Routes.Session.{
  Auth, revoke_untokened, stage_one, stage_three, after_bump, logout_session, logout_from, logout,
  after_sync, sync_claimed, sync_from, sync,
}

module _ {S : Type 0} (R : Redis S) (laws : IsLawful R) (trace : TraceHeaders)
    (tokens : Result (List String)) (sid : String) (v : ℕ) where
  stage_one-AtLeast :
      (token : String) → Keeps (On (AtLeast R sid v)) (stage_one R trace tokens token)
  unfolding stage_one
  stage_one-AtLeast token =
      Keeps-catch _ _ (Keeps-bind _ _ (fetch-On _ token) (λ status. Keeps-pure _))
        (λ e. Keeps-pure _)

  revoke_untokened-AtLeast :
      (s : String) (n : ℕ) (o : Outcome)
      → Keeps (On (AtLeast R sid v)) (revoke_untokened R trace tokens s n o)
  unfolding revoke_untokened
  revoke_untokened-AtLeast s n accepted = Keeps-pure tt
  revoke_untokened-AtLeast s n (rejected status reason) = enqueue-AtLeast R laws sid v trace _

  stage_three-AtLeast :
      (s : String) (jti : Option String) (exp : Option ℕ) (n : ℕ) (o : Outcome)
      → Keeps (On (AtLeast R sid v)) (stage_three R trace tokens s jti exp n o)
  unfolding stage_three
  stage_three-AtLeast s jti exp n accepted = Keeps-pure tt
  stage_three-AtLeast s jti exp n (rejected status reason) =
      Keeps-if _ _ _ (enqueue-AtLeast R laws sid v trace _) (Keeps-pure tt)

  -- what follows the bump
  after_bump-AtLeast :
      (s : String) (auth : Auth) (token : Option String) (n : ℕ)
      → Keeps (On (AtLeast R sid v)) (after_bump R trace tokens s auth token n)
  unfolding after_bump
  after_bump-AtLeast s auth none n =
      Keeps-bind _ _ (force_revoke_session-On tokens s none none) (revoke_untokened-AtLeast s n)
  after_bump-AtLeast s auth (some token) n = Keeps-bind _ _ (stage_one-AtLeast token) (λ done.
      Keeps-if _ _ _ (Keeps-pure tt) (
        Keeps-bind _ _ (force_revoke_session-On tokens s auth.jti auth.exp)
          (stage_three-AtLeast s auth.jti auth.exp n)))

  logout_from-AtLeast :
      (auth : Auth) (s : Option String)
      → Keeps (On (AtLeast R sid v)) (logout_from R trace tokens auth s)
  unfolding logout_from logout_session
  logout_from-AtLeast auth none = Keeps-pure tt
  logout_from-AtLeast auth (some s) =
      Keeps-bind _ _ (bump_session_version-AtLeast R laws sid v s)
        (after_bump-AtLeast s auth (truthy_text auth.token))

  pub logout-AtLeast : (auth : Auth) → Keeps (On (AtLeast R sid v)) (logout R trace tokens auth)
  unfolding logout
  logout-AtLeast auth = logout_from-AtLeast auth (truthy_text auth.session_id)

  after_sync-AtLeast :
      (s u : String) (expires expected : ℕ) (o : Outcome)
      → Keeps (On (AtLeast R sid v)) (after_sync R trace tokens s u expires expected o)
  unfolding after_sync
  after_sync-AtLeast s u expires expected accepted = Keeps-pure _
  after_sync-AtLeast s u expires expected (rejected status reason) =
      Keeps-if _ _ _ (Keeps-bind _ _ (enqueue-AtLeast R laws sid v trace _) (λ x. Keeps-pure _))
        (Keeps-pure _)

  sync_claimed-AtLeast :
      (u s : String) (exp : Option ℕ)
      → Keeps (On (AtLeast R sid v)) (sync_claimed R trace tokens u s exp)
  unfolding sync_claimed read_session_version
  sync_claimed-AtLeast u s none = Keeps-throw _
  sync_claimed-AtLeast u s (some expires) =
      Keeps-bind _ _
        (Keeps-bind _ _ redis_pool-Keeps (λ client.
          Keeps-catch _ _ (get_session_version-AtLeast R laws sid v s) (λ e. Keeps-pure _)))
        (λ expected.
          Keeps-bind _ _ (sync_session-On tokens _) (after_sync-AtLeast s u expires expected))

  sync_from-AtLeast :
      (auth : Auth) (u s : Option String)
      → Keeps (On (AtLeast R sid v)) (sync_from R trace tokens auth u s)
  unfolding sync_from
  sync_from-AtLeast auth (some u) (some s) = sync_claimed-AtLeast u s (truthy_number auth.exp)
  sync_from-AtLeast auth none s = Keeps-throw _
  sync_from-AtLeast auth (some u) none = Keeps-throw _

  pub sync-AtLeast : (auth : Auth) → Keeps (On (AtLeast R sid v)) (sync R trace tokens auth)
  unfolding sync
  sync-AtLeast auth =
      sync_from-AtLeast auth (truthy_text auth.user_id) (truthy_text auth.session_id)

-- What may happen after a logout: other logouts and syncs, and the work of the queue.
pub data Event : Type 0 where
  logs_out syncs : TraceHeaders → Result (List String) → Auth → Event
  background : List Call → Event

module _ {S : Type 0} (R : Redis S) where
  pub history : List Event → World S → World S
  history [] w = w
  history (logs_out trace tokens auth ∷ es) w = history es (logout R trace tokens auth w).1
  history (syncs trace tokens auth ∷ es) w = history es (sync R trace tokens auth w).1
  history (background cs ∷ es) w = history es (run R cs w)

module _ {S : Type 0} (R : Redis S) (laws : IsLawful R) where
  history-AtLeast :
      (sid : String) (v : ℕ) (es : List Event) (w : World S)
      → On (AtLeast R sid v) w
      → On (AtLeast R sid v) (history R es w)
  unfolding history
  history-AtLeast sid v [] w p = p
  history-AtLeast sid v (logs_out trace tokens auth ∷ es) w p =
      history-AtLeast sid v es _ ((logout-AtLeast R laws trace tokens sid v auth).at w p)
  history-AtLeast sid v (syncs trace tokens auth ∷ es) w p =
      history-AtLeast sid v es _ ((sync-AtLeast R laws trace tokens sid v auth).at w p)
  history-AtLeast sid v (background cs ∷ es) w p =
      history-AtLeast sid v es _ (run-AtLeast R laws sid v cs w p)

  -- the logout of a session whose bump is answered
  logged_out :
      (trace : TraceHeaders) (tokens : Result (List String)) (auth : Auth) (sid : String) (n : ℕ)
      (w : World S)
      → truthy_text auth.session_id ≡ some sid
      → IsCounter (R.get w.redis (session_version_key sid))
      → (bump_session_version R sid w).0 ≡ ok (suc n)
      → On (AtLeast R sid (suc n)) (logout R trace tokens auth w).1
  unfolding logout logout_from logout_session
  logged_out trace tokens auth sid n w s c b =
      let bumped =
        bump-AtLeast R laws sid n w (bump_session_version R sid w).1 c
          (ap (λ r. (r, (bump_session_version R sid w).1)) b) in
      rw
        (
          s,
          resume_ok (bump_session_version R sid w) (suc n)
              (after_bump R trace tokens sid auth (truthy_text auth.token)) b,
        )
        ((after_bump-AtLeast R laws trace tokens sid (suc n) sid auth (truthy_text auth.token)
            (suc n)).at
          _ bumped)

  -- POST /api/auth/logout makes the older syncs of its session stale: after the logout of a session
  -- whose version it bumped to `n + 1`, whatever the gateway answered it, whether or not its tokens
  -- could be read, and whatever logouts, syncs, enqueues and batches follow, with any failures of
  -- Redis and the gateway, an attempt at a queued sync of that session whose expected version is at
  -- most `n` sends no request. The version that the logout met must be missing or a number. The
  -- expiry of keys is left out: the version lives for 24 hours after it was last raised.
  pub logout_stops_syncs :
      (trace : TraceHeaders) (tokens candidates : Result (List String)) (auth : Auth)
      (sid uid : String) (n expires expected : ℕ) (es : List Event) (w : World S)
      → truthy_text auth.session_id ≡ some sid
      → IsCounter (R.get w.redis (session_version_key sid))
      → (bump_session_version R sid w).0 ≡ ok (suc n)
      → expected ≤ n
      → (execute_operation R candidates
          (session_sync sid uid expires expected)
          (history R es (logout R trace tokens auth w).1)).1.sent
        ≡ (history R es (logout R trace tokens auth w).1).sent
  logout_stops_syncs trace tokens candidates auth sid uid n expires expected es w s c b h =
      stale_lem R laws candidates sid uid expires expected (suc n) _
        (history-AtLeast sid (suc n) es _ (logged_out trace tokens auth sid n w s c b))
        (omega arith)
