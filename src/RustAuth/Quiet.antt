-- ===== src/RustAuth/Quiet.antt =====
-- lib/rust-auth.ts and the invariants of Redis.
use brain_mate.Common.{ℕ, zero, suc, String, Option, none, some, List, [], ◌∷◌}
use brain_mate.Exec.{Exec, Result, ok, err, Request}
use brain_mate.Exec.Keeps.{
  Keeps, On, Keeps-bind, Keeps-catch, Keeps-if, Keeps-pure, Keeps-throw, on_rules, fetch_body-On,
}
use brain_mate.RustAuth.{
  Tried, returned, again, try_once, give_up, go_on, fetch_with_retry, SyncSessionParams, sync_with,
  to_unreachable, issued_or_now, sync_session, revoke_with, force_revoke_session,
}

module _ {S : Type 0} {Q : S → Type 0} where
  try_once-On : (r : Request) (t : String) → Keeps (On Q) (try_once r t)
  unfolding try_once
  try_once-On r t =
      Keeps-catch _ _ (Keeps-bind _ _ (fetch_body-On r t) (λ reply. Keeps-pure _))
        (λ e. Keeps-pure _)

  give_up-On : (t : Tried) → Keeps (On Q) (give_up t)
  give_up-On (returned reply) = Keeps-pure reply
  give_up-On (again e) = Keeps-throw e

  go_on-On :
      (t : Tried) (next : Exec S (ℕ × String)) → Keeps (On Q) next → Keeps (On Q) (go_on t next)
  go_on-On (returned reply) next k = Keeps-pure reply
  go_on-On (again e) next k = k

  fetch_with_retry-On : (n : ℕ) (r : Request) (t : String) → Keeps (On Q) (fetch_with_retry n r t)
  unfolding fetch_with_retry
  fetch_with_retry-On zero r t = Keeps-bind _ _ (try_once-On r t) give_up-On
  fetch_with_retry-On (suc n) r t =
      Keeps-bind _ _ (try_once-On r t) (λ tried. go_on-On tried _ (fetch_with_retry-On n r t))

  issued_or_now-On : (issued : Option ℕ) → Keeps (On Q) (issued_or_now issued)
  unfolding issued_or_now
  issued_or_now-On none = search on_rules
  issued_or_now-On (some t) = Keeps-pure t

  sync_with-On :
      (params : SyncSessionParams) (tokens : List String) → Keeps (On Q) (sync_with params tokens)
  unfolding sync_with
  sync_with-On params [] = Keeps-pure _
  sync_with-On params (token ∷ tokens) = Keeps-bind _ _ (issued_or_now-On _) (λ issued.
      Keeps-bind _ _ (fetch_with_retry-On _ _ token) (λ reply.
        Keeps-if _ _ _ (Keeps-pure _) (Keeps-if _ _ _ (sync_with-On params tokens) (Keeps-pure _))))

  revoke_with-On : (r : Request) (tokens : List String) → Keeps (On Q) (revoke_with r tokens)
  unfolding revoke_with
  revoke_with-On r [] = Keeps-pure _
  revoke_with-On r (token ∷ tokens) = Keeps-bind _ _ (fetch_with_retry-On _ r token) (λ reply.
      Keeps-if _ _ _ (Keeps-pure _) (Keeps-if _ _ _ (revoke_with-On r tokens) (Keeps-pure _)))

  pub sync_session-On :
      (tokens : Result (List String)) (params : SyncSessionParams)
      → Keeps (On Q) (sync_session tokens params)
  unfolding sync_session to_unreachable
  sync_session-On (err e) params = Keeps-throw e
  sync_session-On (ok []) params = Keeps-pure _
  sync_session-On (ok (t ∷ ts)) params =
      Keeps-catch _ _ (sync_with-On params (t ∷ ts)) (λ e. Keeps-pure _)

  pub force_revoke_session-On :
      (tokens : Result (List String)) (sid : String) (jti : Option String) (exp : Option ℕ)
      → Keeps (On Q) (force_revoke_session tokens sid jti exp)
  unfolding force_revoke_session to_unreachable
  force_revoke_session-On (err e) sid jti exp = Keeps-throw e
  force_revoke_session-On (ok []) sid jti exp = Keeps-pure _
  force_revoke_session-On (ok (t ∷ ts)) sid jti exp =
      Keeps-catch _ _ (revoke_with-On _ (t ∷ ts)) (λ e. Keeps-pure _)
