-- ===== src/Reconciliation/Queued.antt =====
-- What an enqueue that is carried out leaves in Redis.
use brain_mate.Common.{ℕ, String, ◌≡◌, refl, ◌∙◌, ◌/◌, ◌<◌, ◌≤◌, none, some, [], arith, eq_refl}
use brain_mate.Types.{
  number, entry, QueueEntry, Op, token_revocation, session_sync, session_revoke, same_iff,
}
use brain_mate.Redis.{Redis, IsLawful}
use brain_mate.Exec.{
  redis_pool, World, resume, handle, pure, ok, command, date_now, is_circuit_open,
}
use brain_mate.Exec.Keeps.{resume_ok, handle_ok}
use brain_mate.Commands.{zadd, zcard, exists, setex, get}
use brain_mate.Reconciliation.Keys.{
  pending_queue, idem_key, session_version_key, idem_ttl_secs, max_queue_size,
  max_enqueue_per_second, generate_operation_id,
}
use brain_mate.Reconciliation.Window.{allow_enqueue_now, write_window, admit, roll}
use brain_mate.Reconciliation.Version.{
  get_session_version, set_session_version, ensure_session_version,
}
use brain_mate.Reconciliation.Enqueue.{
  TraceHeaders, new_entry, insert_once, submit, enqueue_reconciliation,
}
use brain_mate.Reconciliation.Once.{version_apart_idem}

module _ {S : Type 0} (R : Redis S) (laws : IsLawful R) where
  -- writing a version returns, and leaves the keys of operations alone
  set_version_quiet :
      (sid id : String) (n : ℕ) (w : World S)
      → w.wire ≡ []
      → ((set_session_version R sid n w).0 ≡ ok tt)
        × (((set_session_version R sid n w).1.wire ≡ [])
            × (((set_session_version R sid n w).1.ticks ≡ w.ticks)
                × (((set_session_version R sid n w).1.clock ≡ w.clock)
                    × (R.get (set_session_version R sid n w).1.redis (idem_key id)
                        ≡ R.get w.redis (idem_key id)))))
  unfolding set_session_version get_session_version get setex command
  set_version_quiet sid id n w h = ground (
    arith,
    laws.strings.get-setex w.redis (session_version_key sid) idem_ttl_secs (number n) (idem_key id),
    version_apart_idem sid id,
  )

  ensure_quiet :
      (op : Op) (id : String) (w : World S)
      → w.wire ≡ []
      → ((ensure_session_version R op w).0 ≡ ok tt)
        × (((ensure_session_version R op w).1.wire ≡ [])
            × (((ensure_session_version R op w).1.ticks ≡ w.ticks)
                × (((ensure_session_version R op w).1.clock ≡ w.clock)
                    × (R.get (ensure_session_version R op w).1.redis (idem_key id)
                        ≡ R.get w.redis (idem_key id)))))
  unfolding ensure_session_version
  ensure_quiet (token_revocation jti ttl) id w h = (refl, (h, (refl, (refl, refl))))
  ensure_quiet (session_revoke sid jti exp none) id w h = (refl, (h, (refl, (refl, refl))))
  ensure_quiet (session_revoke sid jti exp (some n)) id w h = set_version_quiet sid id n w h
  ensure_quiet (session_sync sid user exp n) id w h = set_version_quiet sid id n w h

  -- the two writes of a new entry
  insert_new :
      (e : QueueEntry) (w : World S)
      → w.wire ≡ []
      → w.ticks ≡ []
      → R.get w.redis (idem_key e.id) ≡ none
      → ((insert_once R e w).0 ≡ ok tt)
        × ((insert_once R e w).1.redis
            ≡ R.zadd
                (R.setex w.redis (idem_key e.id) idem_ttl_secs (number 1))
                pending_queue
                w.clock
                (entry e))
  unfolding insert_once exists setex zadd command date_now
  insert_new e w h t k = ground arith

  -- the state of the queue and of the operation's key
  record Queued (e : QueueEntry) (score : ℕ) (s : S) : Type 0 where
    pub queued : R.zscore s pending_queue (entry e) ≡ some score
    pub keyed : R.get s (idem_key e.id) ≡ some (number 1)

  writes-Queued :
      (e : QueueEntry) (n : ℕ) (s : S)
      → Queued e n
          (R.zadd (R.setex s (idem_key e.id) idem_ttl_secs (number 1)) pending_queue n (entry e))
  writes-Queued e n s = record {
    queued = rw (laws.zset.zscore-zadd, (same_iff (entry e) (entry e)).1 refl) refl;
    keyed = rw (laws.strings.get-zadd, laws.strings.get-setex, eq_refl) refl;
  }

  submit_admitted :
      (e : QueueEntry) (w : World S)
      → w.wire ≡ []
      → R.zcard w.redis pending_queue < max_queue_size
      → submit R e w ≡ resume (ensure_session_version R e.op w) (λ _. insert_once R e)
  unfolding submit zcard command
  submit_admitted e w h c = ground arith

  submit_new :
      (e : QueueEntry) (w : World S)
      → w.wire ≡ []
      → w.ticks ≡ []
      → R.zcard w.redis pending_queue < max_queue_size
      → R.get w.redis (idem_key e.id) ≡ none
      → ((submit R e w).0 ≡ ok tt) × Queued e w.clock (submit R e w).1.redis
  submit_new e w h t c k =
      let (returns, (calm, (ticks, (clock, key)))) = ensure_quiet e.op e.id w h in
      let steps = submit_admitted e w h c ∙ resume_ok _ _ _ returns in
      let (done, state) =
        insert_new e (ensure_session_version R e.op w).1 calm (ticks ∙ t) (key ∙ k) in
      (rw steps done, rw (steps, state, clock) (writes-Queued e w.clock _))

  enqueue_admitted :
      (trace : TraceHeaders) (op : Op) (w : World S)
      → w.unusable ≡ none
      → w.ticks ≡ []
      → w.window.count < max_enqueue_per_second
      → w.breaker.open_until ≤ w.clock
      → enqueue_reconciliation R trace op w
        ≡ handle
            (submit R
              (new_entry op w.clock trace)
              (record w { window = (admit (w.clock / 1000) w.window).1 }))
            (λ _. pure tt)
  unfolding enqueue_reconciliation allow_enqueue_now write_window admit roll date_now
      is_circuit_open redis_pool
  enqueue_admitted trace op w u h c b = ground arith

  -- An operation that is new is queued: where the process admits the call, lib/redis.ts has a
  -- client and its circuit is closed, the commands are answered, the clock stands still, the queue
  -- is not full and the idempotency key is not set, the enqueue returns, the operation's entry is a
  -- member of the pending queue, due at once, and its idempotency key is set.
  pub enqueue_new :
      (trace : TraceHeaders) (op : Op) (w : World S)
      → w.wire ≡ []
      → w.unusable ≡ none
      → w.ticks ≡ []
      → w.window.count < max_enqueue_per_second
      → w.breaker.open_until ≤ w.clock
      → R.zcard w.redis pending_queue < max_queue_size
      → R.get w.redis (idem_key (generate_operation_id op)) ≡ none
      → ((enqueue_reconciliation R trace op w).0 ≡ ok tt)
        × ((R.zscore
                (enqueue_reconciliation R trace op w).1.redis
                pending_queue
                (entry (new_entry op w.clock trace))
              ≡ some w.clock)
            × (R.get
                  (enqueue_reconciliation R trace op w).1.redis
                  (idem_key (generate_operation_id op))
                ≡ some (number 1)))
  unfolding new_entry
  enqueue_new trace op w h u t c b room new =
      let v = record w { window = (admit (w.clock / 1000) w.window).1 } in
      let (done, state) = submit_new (new_entry op w.clock trace) v h t room new in
      let steps = enqueue_admitted trace op w u t c b ∙ handle_ok _ tt (λ _. pure tt) done in
      (rw steps done, (rw steps state.queued, rw steps state.keyed))
