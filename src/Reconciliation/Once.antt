-- ===== src/Reconciliation/Once.antt =====
-- The idempotency key of `enqueueReconciliation` in lib/reconciliation-worker.ts.
use brain_mate.Common.{
  ℕ, String, ◌≡◌, refl, ◌<◌, ◌≤◌, true, false, Option, none, some, List, [], ◌∷◌, arith, str_eq,
  str_eq-false, apart, is_some, eq_refl,
}
use brain_mate.Types.{Text, number, QueueEntry, Op, token_revocation, session_revoke}
use brain_mate.Redis.{Redis, IsLawful}
use brain_mate.Exec.{redis_pool, World, ok, Wire, fine, lost, command, date_now, is_circuit_open}
use brain_mate.Exec.Keeps.{
  Keeps, On, Keeps-bind, Keeps-if, Keeps-pure, keeps_rules, command-On, date_now-On,
}
use brain_mate.Commands.{zadd, zcard, exists, setex, get}
use brain_mate.Reconciliation.Keys.{
  pending_queue, idem_key, session_version_key, idem_ttl_secs, max_queue_size,
  max_enqueue_per_second, generate_operation_id,
}
use brain_mate.Reconciliation.Window.{allow_enqueue_now, write_window, admit, roll}
use brain_mate.Reconciliation.Version.{
  get_session_version, set_session_version, ensure_session_version,
}
use brain_mate.Reconciliation.Enqueue.{
  TraceHeaders, new_entry, insert_once, submit, enqueue_reconciliation,
}
use brain_mate.Reconciliation.OwnState.{own_state}

pub version_apart_pending : (sid : String) → str_eq (session_version_key sid) pending_queue ≡ false
unfolding session_version_key
version_apart_pending sid =
    str_eq-false _ _ (apart "session_version:" "reconciliation:p" "ending" sid "" refl refl)

pub version_apart_idem : (sid id : String) → str_eq (session_version_key sid) (idem_key id) ≡ false
unfolding session_version_key idem_key
version_apart_idem sid id =
    str_eq-false _ _ (apart "session_version:" "reconciliation:i" "dem:" sid id refl refl)

pub idem_apart_pending : (id : String) → str_eq (idem_key id) pending_queue ≡ false
unfolding idem_key
idem_apart_pending id =
    str_eq-false _ _ (apart "reconciliation:idem:" "reconciliation:pendi" "ng" id "" refl refl)

module _ {S : Type 0} (R : Redis S) (laws : IsLawful R) (id : String) (m : Text)
    (x : Option ℕ) where
  -- the operation is known, and a member of the queue has this score
  pub record Known (s : S) : Type 0 where
    pub known : is_some (R.get s (idem_key id)) ≡ true
    pub score : R.zscore s pending_queue m ≡ x

  setex_version-Known :
      (s : S) (sid : String) (t : ℕ) (v : Text)
      → Known s
      → Known (R.setex s (session_version_key sid) t v)
  setex_version-Known s sid t v k = record {
    known = rw (laws.strings.get-setex, version_apart_idem sid id) k.known;
    score = rw (laws.zset.zscore-setex _ _ _ _ _ _ (version_apart_pending sid)) k.score;
  }

  set_session_version-Known :
      (sid : String) (n : ℕ) → Keeps (On Known) (set_session_version R sid n)
  unfolding set_session_version get_session_version get setex
  set_session_version-Known sid n = search (keeps_rules, command-On, setex_version-Known) depth 9

  ensure-Known : (op : Op) → Keeps (On Known) (ensure_session_version R op)
  unfolding ensure_session_version
  ensure-Known (session_revoke s jti exp none) = search keeps_rules
  ensure-Known op = search (keeps_rules, set_session_version-Known)

  insert_skipped :
      (e : QueueEntry) (w : World S)
      → is_some (R.get w.redis (idem_key e.id)) ≡ true
      → (insert_once R e w).1.redis ≡ w.redis
  unfolding insert_once exists command
  insert_skipped e w h = ground arith

  insert_once-Known : (e : QueueEntry) → e.id ≡ id → Keeps (On Known) (insert_once R e)
  insert_once-Known e h = record {
    at = λ w p.
        let same_state = insert_skipped e w (rw h p.holds.known) in
        record {
          holds = record {
            known = rw same_state p.holds.known;
            score = rw same_state p.holds.score;
          };
        };
  }

  zcard-Known : (k : String) → Keeps (On Known) (zcard R k)
  unfolding zcard
  zcard-Known k = command-On _ (λ s q. q)

  submit-Known : (e : QueueEntry) → e.id ≡ id → Keeps (On Known) (submit R e)
  unfolding submit
  submit-Known e h = Keeps-bind _ _ (zcard-Known _) (λ n. Keeps-bind _ _ (zcard-Known _) (λ d.
      Keeps-if _ _ _ (Keeps-pure tt)
        (Keeps-bind _ _ (ensure-Known e.op) (λ u. insert_once-Known e h))))

  enqueue-Known :
      (trace : TraceHeaders) (op : Op)
      → generate_operation_id op ≡ id
      → Keeps (On Known) (enqueue_reconciliation R trace op)
  unfolding enqueue_reconciliation new_entry
  enqueue-Known trace op h =
      search
        (keeps_rules, own_state, date_now-On, λ (now : ℕ). submit-Known (new_entry op now trace) h)
        depth 12

module _ {S : Type 0} (R : Redis S) (laws : IsLawful R) where
  -- An operation whose idempotency key is set is not queued: whatever Redis answers, no member of
  -- the pending queue is added, removed or given another score.
  pub enqueue_known :
      (trace : TraceHeaders) (op : Op) (w : World S) (v : Text) (m : Text)
      → R.get w.redis (idem_key (generate_operation_id op)) ≡ some v
      → R.zscore (enqueue_reconciliation R trace op w).1.redis pending_queue m
        ≡ R.zscore w.redis pending_queue m
  enqueue_known trace op w v m h =
      ((enqueue-Known R laws (generate_operation_id op) m _ trace op refl).at w
        (record { holds = record { known = rw h refl; score = refl } })).holds.score

  -- What a failed ZADD leaves behind: the key is set and the queue is as it was.
  lost_insert :
      (e : QueueEntry) (w : World S) (m : String) (ws : List Wire)
      → w.wire ≡ fine ∷ fine ∷ lost m ∷ ws
      → R.get w.redis (idem_key e.id) ≡ none
      → (insert_once R e w).1.redis ≡ R.setex w.redis (idem_key e.id) idem_ttl_secs (number 1)
  unfolding insert_once exists setex zadd command date_now
  lost_insert e w m ws h k = ground arith

  -- the actions before the writes return, and leave the server and its first replies as they are
  admitted :
      (w : World S)
      → w.ticks ≡ []
      → w.window.count < max_enqueue_per_second
      → ((allow_enqueue_now w).0 ≡ ok true)
        × (((allow_enqueue_now w).1.redis ≡ w.redis)
            × (((allow_enqueue_now w).1.wire ≡ w.wire)
                × (((allow_enqueue_now w).1.ticks ≡ [])
                    × (((allow_enqueue_now w).1.clock ≡ w.clock)
                        × ((allow_enqueue_now w).1.breaker ≡ w.breaker)))))
  unfolding allow_enqueue_now write_window admit roll date_now
  admitted w h c = ground arith

  submit_revocation :
      (e : QueueEntry) (jti : String) (ttl : ℕ) (w : World S) (m : String) (ws : List Wire)
      → e.op ≡ token_revocation jti ttl
      → w.wire ≡ fine ∷ fine ∷ fine ∷ fine ∷ lost m ∷ ws
      → R.zcard w.redis pending_queue < max_queue_size
      → R.get w.redis (idem_key e.id) ≡ none
      → (submit R e w).1.redis ≡ R.setex w.redis (idem_key e.id) idem_ttl_secs (number 1)
  unfolding submit ensure_session_version insert_once exists setex zadd zcard command date_now
  submit_revocation e jti ttl w m ws o h c k = ground arith

  lost_state :
      (trace : TraceHeaders) (jti : String) (ttl : ℕ) (w : World S) (m : String) (ws : List Wire)
      → w.unusable ≡ none
      → w.ticks ≡ []
      → w.window.count < max_enqueue_per_second
      → w.breaker.open_until ≤ w.clock
      → w.wire ≡ fine ∷ fine ∷ fine ∷ fine ∷ lost m ∷ ws
      → R.zcard w.redis pending_queue < max_queue_size
      → R.get w.redis (idem_key (generate_operation_id (token_revocation jti ttl))) ≡ none
      → ((enqueue_reconciliation R trace (token_revocation jti ttl) w).0 ≡ ok tt)
        × ((enqueue_reconciliation R trace (token_revocation jti ttl) w).1.redis
            ≡ R.setex w.redis
                (idem_key (generate_operation_id (token_revocation jti ttl)))
                idem_ttl_secs
                (number 1))
  unfolding enqueue_reconciliation new_entry submit ensure_session_version insert_once exists setex
      zadd zcard command date_now is_circuit_open redis_pool allow_enqueue_now write_window admit
      roll
  lost_state trace jti ttl w m ws usable ticks window closed wire room new = ground arith

  -- An enqueue of a token revocation whose ZADD is lost, after the idempotency key was set: the
  -- caller is told nothing (it returns), no member was queued, and the key is set, so that by
  -- `enqueue_known` no later enqueue of this revocation queues it. The conditions are that the
  -- process admits the call, that lib/redis.ts has a client and its circuit is closed, that the
  -- clock stands still, that the four commands before are answered, that the queue is not full and
  -- that the operation was not known.
  pub lost_enqueue :
      (trace : TraceHeaders) (jti : String) (ttl : ℕ) (w : World S) (m : String) (ws : List Wire)
      → w.unusable ≡ none
      → w.ticks ≡ []
      → w.window.count < max_enqueue_per_second
      → w.breaker.open_until ≤ w.clock
      → w.wire ≡ fine ∷ fine ∷ fine ∷ fine ∷ lost m ∷ ws
      → R.zcard w.redis pending_queue < max_queue_size
      → R.get w.redis (idem_key (generate_operation_id (token_revocation jti ttl))) ≡ none
      → ((enqueue_reconciliation R trace (token_revocation jti ttl) w).0 ≡ ok tt)
        × (((x : Text)
              → R.zscore
                  (enqueue_reconciliation R trace (token_revocation jti ttl) w).1.redis
                  pending_queue
                  x
                ≡ R.zscore w.redis pending_queue x)
            × (R.get
                  (enqueue_reconciliation R trace (token_revocation jti ttl) w).1.redis
                  (idem_key (generate_operation_id (token_revocation jti ttl)))
                ≡ some (number 1)))
  lost_enqueue trace jti ttl w m ws usable ticks window closed wire room new =
      let state = lost_state trace jti ttl w m ws usable ticks window closed wire room new in
      (
        state.0,
        (
          λ x. rw (state.1, laws.zset.zscore-setex _ _ _ _ _ _ (idem_apart_pending _)) refl,
          rw (state.1, laws.strings.get-setex, eq_refl) refl,
        ),
      )
