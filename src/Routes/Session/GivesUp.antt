-- ===== src/Routes/Session/GivesUp.antt =====
-- POST of app/api/auth/logout/route.ts where both gateways fail it.
use brain_mate.Common.{ℕ, String, ◌≡◌, ◌∙◌, none, some, List, [], ◌∷◌, arith}
use brain_mate.Redis.{Redis}
use brain_mate.Exec.{
  redis_pool, World, Result, ok, err, Reply, replied, unreachable, fetch, fetch_body, command,
}
use brain_mate.Exec.Keeps.{resume_ok}
use brain_mate.Commands.{incr, expire}
use brain_mate.Reconciliation.Version.{bump_session_version}
use brain_mate.Reconciliation.Operation.{truthy_text}
use brain_mate.Reconciliation.Enqueue.{TraceHeaders}
use brain_mate.RustAuth.{
  force_revoke_session, revoke_with, fetch_with_retry, try_once, sort_reply, to_unreachable,
}
use brain_mate.Routes.Session.{
  Auth, is_retryable, stage_one, stage_three, after_bump, logout_session, logout_from, logout,
}

abbrev number_of : Result ℕ → ℕ
number_of (ok n) = n
number_of (err e) = 0

module _ {S : Type 0} (R : Redis S) (trace : TraceHeaders) where
  bump_reply :
      (sid : String) (w : World S)
      → w.unusable ≡ none
      → ((bump_session_version R sid w).0 ≡ ok (number_of (bump_session_version R sid w).0))
        × ((bump_session_version R sid w).1.replies ≡ w.replies)
  unfolding bump_session_version redis_pool incr expire command
  bump_reply sid w u = ground arith

  refused :
      (candidate token sid m body : String) (auth : Auth) (n : ℕ) (rest : List Reply) (w : World S)
      → w.replies ≡ unreachable m ∷ replied 401 body ∷ rest
      → ((after_bump R trace (ok (candidate ∷ [])) sid auth (some token) n w).0 ≡ ok tt)
        × ((after_bump R trace (ok (candidate ∷ [])) sid auth (some token) n w).1.redis ≡ w.redis)
  unfolding after_bump stage_one stage_three is_retryable force_revoke_session revoke_with
      fetch_with_retry try_once sort_reply to_unreachable fetch fetch_body
  refused candidate token sid m body auth n rest w e = ground arith

  -- A logout is given up where lib/redis.ts has a client, the public gateway is unreachable and the
  -- internal one refuses the only internal token with 401: the handler replies as if all were well,
  -- and Redis is as the bump of the session's version left it, so that nothing was enqueued for a
  -- retry.
  pub logout_gives_up :
      (candidate token sid m body : String) (auth : Auth) (rest : List Reply) (w : World S)
      → w.unusable ≡ none
      → truthy_text auth.session_id ≡ some sid
      → truthy_text auth.token ≡ some token
      → w.replies ≡ unreachable m ∷ replied 401 body ∷ rest
      → ((logout R trace (ok (candidate ∷ [])) auth w).0 ≡ ok tt)
        × ((logout R trace (ok (candidate ∷ [])) auth w).1.redis
            ≡ (bump_session_version R sid w).1.redis)
  unfolding logout logout_from logout_session
  logout_gives_up candidate token sid m body auth rest w u s t e =
      let (reply, replies) = bump_reply sid w u in
      let (done, state) = refused candidate token sid m body auth _ rest _ (replies ∙ e) in
      let steps =
        resume_ok (bump_session_version R sid w) _
          (after_bump R trace (ok (candidate ∷ [])) sid auth (some token)) reply in
      (rw (s, t, steps) done, rw (s, t, steps) state)
