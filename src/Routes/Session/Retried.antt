-- ===== src/Routes/Session/Retried.antt =====
-- POST of app/api/auth/sync/route.ts where the gateway asks for a later try.
use brain_mate.Common.{
  ℕ, String, ◌≡◌, refl, ◌<◌, ◌≤◌, ◌/◌, ◌<>◌, decimal, true, none, some, List, [], ◌∷◌, arith,
}
use brain_mate.Types.{entry, session_sync}
use brain_mate.Redis.{Redis, IsLawful}
use brain_mate.Exec.{
  World, ok, Reply, replied, post_session, fetch_body, command, date_now, redis_pool, pure,
}
use brain_mate.Exec.Keeps.{resume_ok}
use brain_mate.Commands.{get}
use brain_mate.Reconciliation.Keys.{
  pending_queue, idem_key, session_version_key, max_queue_size, max_enqueue_per_second,
  generate_operation_id,
}
use brain_mate.Reconciliation.Version.{parse_version, get_session_version, read_session_version}
use brain_mate.Reconciliation.Operation.{truthy_text, truthy_number}
use brain_mate.Reconciliation.Enqueue.{TraceHeaders, new_entry, enqueue_reconciliation}
use brain_mate.Reconciliation.Queued.{enqueue_new}
use brain_mate.RustAuth.{
  rejected, sync_session, sync_with, issued_or_now, fetch_with_retry, try_once, sort_reply,
  to_unreachable,
}
use brain_mate.Routes.Session.{
  Auth, sync_failed, is_retryable, after_sync, sync_claimed, sync_from, sync,
}

module _ {S : Type 0} (R : Redis S) where
  read_calm :
      (sid : String) (w : World S)
      → w.unusable ≡ none
      → w.wire ≡ []
      → read_session_version R sid w
        ≡ (ok (parse_version (R.get w.redis (session_version_key sid))), w)
  unfolding read_session_version get_session_version redis_pool get command
  read_calm sid w u h = ground arith

  -- the world after the one request of a sync
  abbrev asked : String → String → ℕ → String → List Reply → World S → World S
  asked sid uid exp token rest w = record w {
    replies = rest;
    sent = (post_session sid uid (w.clock / 1000) exp, token) ∷ w.sent;
  }

  busy_sync :
      (sid uid token body : String) (exp : ℕ) (rest : List Reply) (w : World S)
      → w.ticks ≡ []
      → w.replies ≡ replied 429 body ∷ rest
      → sync_session
          (ok (token ∷ []))
          (record { session_id = sid; user_id = uid; issued_at = none; expires_at = exp })
          w
        ≡ (
          ok (rejected 429 ("Session sync failed: " <> (decimal 429 <> (" " <> body)))),
          asked sid uid exp token rest w,
        )
  unfolding sync_session sync_with issued_or_now date_now fetch_with_retry try_once fetch_body
      sort_reply to_unreachable
  busy_sync sid uid token body exp rest w t r = rw (t, r) refl

module _ {S : Type 0} (R : Redis S) (laws : IsLawful R) (trace : TraceHeaders) where
  -- A sync that the gateway refuses with 429 is queued: the route says that it failed with that
  -- status and was enqueued, and the entry of the sync, with the session's version in Redis as the
  -- expected one, is a member of the pending queue, due at once. The bearer names a user, a session
  -- and its expiry, one internal token is read, lib/redis.ts has a client and its circuit is
  -- closed, the commands are answered, the clock stands still, the process admits one more call,
  -- the queue is not full and the operation is not known.
  pub sync_retried :
      (auth : Auth) (uid sid token body : String) (exp : ℕ) (rest : List Reply) (w : World S)
      → truthy_text auth.user_id ≡ some uid
      → truthy_text auth.session_id ≡ some sid
      → truthy_number auth.exp ≡ some exp
      → w.unusable ≡ none
      → w.wire ≡ []
      → w.ticks ≡ []
      → w.window.count < max_enqueue_per_second
      → w.breaker.open_until ≤ w.clock
      → w.replies ≡ replied 429 body ∷ rest
      → R.zcard w.redis pending_queue < max_queue_size
      → R.get w.redis (
          idem_key (
            generate_operation_id
              (session_sync sid uid exp (parse_version (R.get w.redis (session_version_key sid))))))
        ≡ none
      → ((sync R trace (ok (token ∷ [])) auth w).0
          ≡ ok (sync_failed 429 ("Session sync failed: " <> (decimal 429 <> (" " <> body))) true))
        × (R.zscore (sync R trace (ok (token ∷ [])) auth w).1.redis pending_queue (
              entry (
                new_entry
                  (session_sync sid uid exp
                    (parse_version (R.get w.redis (session_version_key sid))))
                  w.clock
                  trace))
            ≡ some w.clock)
  unfolding sync sync_from sync_claimed after_sync is_retryable
  sync_retried auth uid sid token body exp rest w u i e usable h t c b r room new =
      let v = parse_version (R.get w.redis (session_version_key sid)) in
      let w2 = asked R sid uid exp token rest w in
      let queued =
        enqueue_new R laws trace (session_sync sid uid exp v) w2 h usable t c b room new in
      let steps =
        resume_ok (enqueue_reconciliation R trace (session_sync sid uid exp v) w2) tt
          (λ x.
            pure (sync_failed 429 ("Session sync failed: " <> (decimal 429 <> (" " <> body))) true))
          queued.0 in
      (
        rw
            (
              u,
              i,
              e,
              read_calm R sid w usable h,
              busy_sync R sid uid token body exp rest w t r,
              steps,
            )
            refl,
        rw
            (
              u,
              i,
              e,
              read_calm R sid w usable h,
              busy_sync R sid uid token body exp rest w t r,
              steps,
            )
            queued.1.0,
      )
