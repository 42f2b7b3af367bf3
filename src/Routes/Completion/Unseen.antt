-- ===== src/Routes/Completion/Unseen.antt =====
-- The keys that app/api/writeright/job/[jobId]/complete/route.ts writes, and those that
-- lib/writeright-queue.ts reads.
use text.Mathlib.TextLemmas.{append_assoc}
use Prim.Native.String.{count}
use brain_mate.Common.{◌<◌, arith}
use brain_mate.Common.{
  ℕ, String, ◌≡◌, ◌≢◌, refl, sym, ap, ◌∙◌, false, List, [], ◌∷◌, ◌<>◌, str_eq, str_eq-false, apart,
  extended, Fields, arith,
}
use brain_mate.Types.{Text, AiJobResult}
use brain_mate.Redis.{Redis, IsLawful}
use brain_mate.Exec.{World, ◌>>◌}
use brain_mate.Exec.Keeps.{
  Keeps, On, Keeps-bind, Keeps-catch, Keeps-if, Keeps-pure, command-On, date_now-On,
}
use brain_mate.Commands.{xadd, expire, hset, setex, del}
use brain_mate.Queue.Keys.{ns, ns3, job_status_key, job_result_key}
use brain_mate.Routes.Completion.{
  stream_key, status_key, completed_cache_key, stats_key, analytics_key, session_stats_key,
  settle_del, write_completion, publish_completion,
}
use brain_mate.Reconciliation.OwnState.{is_circuit_open-On}

-- the keys of four parts
pub ns4 :
    (a b c x : String) → ns (a ∷ b ∷ c ∷ x ∷ []) ≡ (a <> (":" <> (b <> ":"))) <> (c <> (":" <> x))
unfolding ns
ns4 a b c x = ns3 a b (c <> (":" <> x))

-- The shorter prefix is that of the first key.
key_apart :
    (a b c q r x y : String)
    → str_eq (a <> (":" <> (b <> ":"))) q ≡ false
    → count (a <> (":" <> (b <> ":"))) ≡ count q
    → a <> (":" <> (c <> ":")) ≡ q <> r
    → ns (a ∷ b ∷ x ∷ []) ≢ ns (a ∷ c ∷ y ∷ [])
key_apart a b c q r x y h k p e =
    apart _ q r x y h k (sym (ns3 a b x) ∙ e ∙ ns3 a c y ∙ ap (λ t. t <> y) p)

stream_apart : (x : String) → str_eq (stream_key x) (job_result_key x) ≡ false
unfolding stream_key job_result_key
stream_apart x = str_eq-false _ _ (λ e.
    apart "writeright:job:" "writeright:resu" "lt:" ("result" <> (":" <> x)) x refl refl
      (sym (ns4 "writeright" "job" "result" x) ∙ e ∙ ns3 "writeright" "result" x))

status_apart : (x : String) → str_eq (status_key x) (job_status_key x) ≡ false
unfolding status_key job_status_key
status_apart x = str_eq-false _ _ (λ e. extended "writeright:job:" "status:" x (omega arith) (
    sym (ns3 "writeright" "job" x)
    ∙ sym e
    ∙ ns4 "writeright" "job" "status" x
    ∙ ap (λ t. "writeright:job:" <> t) (sym (append_assoc "status" ":" x))
    ∙ sym (append_assoc "writeright:job:" "status:" x)))

module _ (job_id user_id : String) where
  cache_apart_status : str_eq (completed_cache_key job_id) (job_status_key job_id) ≡ false
  unfolding completed_cache_key job_status_key
  cache_apart_status = str_eq-false _ _ (λ e.
      key_apart "writeright" "job" "cache" "writeright:cach" "e:" job_id job_id refl refl refl
        (sym e))

  cache_apart_result : str_eq (completed_cache_key job_id) (job_result_key job_id) ≡ false
  unfolding completed_cache_key job_result_key
  cache_apart_result =
      str_eq-false _ _ (
        key_apart "writeright" "cache" "result" "writeright:result" ":" job_id job_id refl refl
          refl)

  pub stats_apart_status : str_eq (stats_key user_id) (job_status_key job_id) ≡ false
  unfolding stats_key job_status_key
  stats_apart_status = str_eq-false _ _ (λ e.
      key_apart "writeright" "job" "stats" "writeright:stat" "s:" job_id user_id refl refl refl
        (sym e))

  stats_apart_result : str_eq (stats_key user_id) (job_result_key job_id) ≡ false
  unfolding stats_key job_result_key
  stats_apart_result = str_eq-false _ _ (
      key_apart "writeright" "stats" "result" "writeright:result" ":" user_id job_id refl refl refl)

  analytics_apart_status : str_eq (analytics_key user_id) (job_status_key job_id) ≡ false
  unfolding analytics_key job_status_key
  analytics_apart_status = str_eq-false _ _ (λ e.
      key_apart "writeright" "job" "analytics" "writeright:anal" "ytics:" job_id user_id refl refl
        refl (sym e))

  analytics_apart_result : str_eq (analytics_key user_id) (job_result_key job_id) ≡ false
  unfolding analytics_key job_result_key
  analytics_apart_result = str_eq-false _ _ (λ e.
      key_apart "writeright" "result" "analytics" "writeright:analyti" "cs:" job_id user_id refl
        refl refl (sym e))

  session_apart_status : str_eq (session_stats_key user_id) (job_status_key job_id) ≡ false
  unfolding session_stats_key job_status_key
  session_apart_status = str_eq-false _ _ (λ e.
      key_apart "writeright" "job" "session-stats" "writeright:sess" "ion-stats:" job_id user_id
        refl refl refl (sym e))

  session_apart_result : str_eq (session_stats_key user_id) (job_result_key job_id) ≡ false
  unfolding session_stats_key job_result_key
  session_apart_result = str_eq-false _ _ (λ e.
      key_apart "writeright" "result" "session-stats" "writeright:session" "-stats:" job_id user_id
        refl refl refl (sym e))

module _ {S : Type 0} (R : Redis S) (laws : IsLawful R) (job_id user_id : String) (fields : Fields)
    (results : List Text) where
  -- what the readers of the job see
  record Seen (s : S) : Type 0 where
    pub status : R.hgetall s (job_status_key job_id) ≡ fields
    pub stream : R.stream s (job_result_key job_id) ≡ results

  xadd-Seen : (v : Text) → Keeps (On Seen) (xadd R (stream_key job_id) v)
  unfolding xadd
  xadd-Seen v = command-On _ (λ s q. record {
    status = laws.hashes.hgetall-xadd s _ v _ ∙ q.status;
    stream = laws.hashes.stream-xadd_ne s _ v _ (stream_apart job_id) ∙ q.stream;
  })

  expire-Seen : (k : String) (t : ℕ) → 0 < t → Keeps (On Seen) (expire R k t)
  unfolding expire
  expire-Seen k t p = command-On _ (λ s q. record {
    status = laws.hashes.hgetall-expire s k t _ p ∙ q.status;
    stream = laws.hashes.stream-expire s k t _ p ∙ q.stream;
  })

  hset-Seen : (fs : Fields) → Keeps (On Seen) (hset R (status_key job_id) fs)
  unfolding hset
  hset-Seen fs = command-On _ (λ s q. record {
    status = laws.hashes.hgetall-hset_ne s _ fs _ (status_apart job_id) ∙ q.status;
    stream = laws.hashes.stream-hset s _ fs _ ∙ q.stream;
  })

  setex-Seen : (t : ℕ) (v : Text) → Keeps (On Seen) (setex R (completed_cache_key job_id) t v)
  unfolding setex
  setex-Seen t v = command-On _ (λ s q. record {
    status = laws.hashes.hgetall-setex s _ t v _ (cache_apart_status job_id user_id) ∙ q.status;
    stream = laws.hashes.stream-setex s _ t v _ (cache_apart_result job_id user_id) ∙ q.stream;
  })

  del-Seen :
      (k : String)
      → str_eq k (job_status_key job_id) ≡ false
      → str_eq k (job_result_key job_id) ≡ false
      → Keeps (On Seen) (settle_del R k)
  unfolding settle_del del
  del-Seen k a b =
      Keeps-catch _ _
        (command-On _ (λ s q. record {
          status = laws.hashes.hgetall-del s k _ a ∙ q.status;
          stream = laws.hashes.stream-del s k _ b ∙ q.stream;
        }))
        (λ e. Keeps-pure tt)

  invalidation-Seen : Keeps (On Seen) (
      settle_del R (stats_key user_id)
      >> (settle_del R (analytics_key user_id) >> settle_del R (session_stats_key user_id)))
  invalidation-Seen =
      Keeps-bind _ _
        (del-Seen _ (stats_apart_status job_id user_id) (stats_apart_result job_id user_id))
        (λ x1.
          Keeps-bind _ _
            (del-Seen _ (analytics_apart_status job_id user_id)
              (analytics_apart_result job_id user_id))
            (λ x2.
              del-Seen _ (session_apart_status job_id user_id)
                (session_apart_result job_id user_id)))

  write_completion-Seen :
      (iso : ℕ → String) (value : AiJobResult)
      → Keeps (On Seen) (write_completion R iso job_id user_id value)
  unfolding write_completion
  write_completion-Seen iso value = Keeps-bind _ _ (xadd-Seen _) (λ x1.
      Keeps-bind _ _ (expire-Seen _ 3600 (omega arith)) (λ x2. Keeps-bind _ _ date_now-On (λ now.
        Keeps-bind _ _ (hset-Seen _)
          (λ x3. Keeps-bind _ _ (setex-Seen _ _) (λ x4. invalidation-Seen)))))

  publish_completion-Seen :
      (iso : ℕ → String) (value : AiJobResult)
      → Keeps (On Seen) (publish_completion R iso job_id user_id value)
  unfolding publish_completion
  publish_completion-Seen iso value = Keeps-bind _ _ is_circuit_open-On (λ broken.
      Keeps-if _ _ _ (Keeps-pure tt)
        (Keeps-catch _ _ (write_completion-Seen iso value) (λ e. Keeps-pure tt)))

module _ {S : Type 0} (R : Redis S) (laws : IsLawful R) (iso : ℕ → String) where
  -- A job's completion does not reach its readers in Redis: whatever Redis answers the route, the
  -- hash that `getJobStatus` reads and the stream that `readJobResult` reads are as they were.
  pub completion_unseen :
      (job_id user_id : String) (value : AiJobResult) (w : World S)
      → (R.hgetall (publish_completion R iso job_id user_id value w).1.redis (job_status_key job_id)
          ≡ R.hgetall w.redis (job_status_key job_id))
        × (R.stream
              (publish_completion R iso job_id user_id value w).1.redis
              (job_result_key job_id)
            ≡ R.stream w.redis (job_result_key job_id))
  completion_unseen job_id user_id value w =
      let seen =
        ((publish_completion-Seen R laws job_id user_id _ _ iso value).at w
          (record { holds = record { status = refl; stream = refl } })).holds in
      (seen.status, seen.stream)
