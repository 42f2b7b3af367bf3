-- ===== src/Routes/Message/Post/Queued.antt =====
-- A job that POST of app/api/writeright/message/route.ts has queued, and what leaves it alone.
use brain_mate.Common.{arith}
use brain_mate.Common.{
  ℕ, String, ◌≡◌, refl, false, Option, none, some, field, str_eq, str_eq-false, eq_refl, ◌<>◌,
  apart, sym, ◌∙◌,
}
use brain_mate.Types.{Text, WritingJobPayload, job, same_iff}
use brain_mate.Redis.{Redis, IsLawful}
use brain_mate.Exec.Keeps.{
  Keeps, On, IsCalm, Keeps-bind, Keeps-if, Keeps-pure, Keeps-catch, command-On, date_now-On,
  date_now-IsCalm, command_lem,
}
use brain_mate.Exec.Ensures.{Ensures, Ensures-throw, Ensures-if, Ensures-bind}
use brain_mate.Commands.{batch, del, setex}
use brain_mate.Queue.Keys.{ns, ns3, jobs_key, job_status_key, idempotency_key}
use brain_mate.Queue.Jobs.{enqueue_write_right_job, first_fields}
use brain_mate.Queue.Jobs.Status.{hgetall-written}
use brain_mate.Queue.Responses.{set_idempotent_response}
use brain_mate.Reconciliation.OwnState.{is_circuit_open-On}
use brain_mate.Routes.Completion.{stats_key}
use brain_mate.Routes.Completion.Unseen.{ns4, stats_apart_status}
use brain_mate.Routes.Message.Parts.{
  Runtime, Tables, keep_reply, increment_quota_usage, invalidate_stats_cache,
}
use brain_mate.Routes.Message.Post.Calm.{AreApart, IsApart-On, is_circuit_open-IsCalm}

-- the keys of four parts
idempotency_prefix :
    (u k : String) → idempotency_key u k ≡ "writeright:idempotency:" <> (u <> (":" <> k))
unfolding idempotency_key
idempotency_prefix u k = ns4 "writeright" "idempotency" u k

idempotency_apart_status :
    (u k x : String) → str_eq (idempotency_key u k) (job_status_key x) ≡ false
unfolding job_status_key
idempotency_apart_status u k x = str_eq-false _ _ (λ e.
    apart "writeright:job:" "writeright:idem" "potency:" x (u <> (":" <> k)) refl refl
      (sym (ns3 "writeright" "job" x) ∙ sym e ∙ idempotency_prefix u k))

idempotency_apart_jobs : (u k : String) → str_eq (idempotency_key u k) jobs_key ≡ false
unfolding jobs_key ns
idempotency_apart_jobs u k = str_eq-false _ _ (λ e.
    apart "writeright:jobs" "writeright:idem" "potency:" "" (u <> (":" <> k)) refl refl
      (sym e ∙ idempotency_prefix u k))

stats_apart_jobs : (u : String) → str_eq (stats_key u) jobs_key ≡ false
unfolding stats_key jobs_key ns
stats_apart_jobs u = str_eq-false _ _ (λ e.
    apart "writeright:jobs" "writeright:stat" "s:" "" u refl refl
      (sym e ∙ ns3 "writeright" "stats" u))

-- The job is a member of the queue, and its status reads "pending", with its user and chat.
pub record IsQueued {S : Type 0} (R : Redis S) (j : WritingJobPayload) (s : S) : Type 0 where
  pub member : (n : ℕ) × (R.zscore s jobs_key (job j) ≡ some n)
  pub status : field "status" (R.hgetall s (job_status_key j.id)) ≡ some "pending"
  pub owner : field "user_id" (R.hgetall s (job_status_key j.id)) ≡ some j.user_id
  pub chat : field "chat_id" (R.hgetall s (job_status_key j.id)) ≡ some j.chat_id

module _ {S : Type 0} (R : Redis S) (laws : IsLawful R) (j : WritingJobPayload) where
  written-IsQueued :
      (s : S) (n : ℕ) (now : String)
      → IsQueued R j (
          R.expire
            (R.hset (R.zadd s jobs_key n (job j)) (job_status_key j.id) (first_fields j now))
            (job_status_key j.id)
            3600)
  unfolding first_fields
  written-IsQueued s n now =
      let written = λ (f : String).
        hgetall-written R laws (λ k. "") (R.zadd s jobs_key n (job j)) (job_status_key j.id) f
          (first_fields j now) 3600 (omega arith) in
      record {
        member = (
          n,
          rw
              (
                laws.zset.zscore-expire _ _ 3600 _ _ (omega arith),
                laws.zset.zscore-hset,
                laws.zset.zscore-zadd,
                eq_refl,
                (same_iff (job j) (job j)).1 refl,
              )
              refl,
        );
        status = written "status";
        owner = written "user_id";
        chat = written "chat_id";
      }

  batch-Ensures :
      (f : S → S) (Q : S → Type 0) → ((s : S) → Q (f s)) → Ensures IsCalm (λ _. On Q) (batch f)
  unfolding batch
  batch-Ensures f Q h = record {
    at = λ w p. rw (command_lem (λ s. (tt, f s)) w p) (record { holds = h w.redis });
  }

  pub enqueue-IsQueued :
      (iso : ℕ → String) → Ensures IsCalm (λ _. On (IsQueued R j)) (enqueue_write_right_job R iso j)
  unfolding enqueue_write_right_job
  enqueue-IsQueued iso = Ensures-bind _ _ (is_circuit_open-IsCalm R) (λ broken.
      Ensures-if broken _ _ (Ensures-throw _) (
        Ensures-bind _ _ date_now-IsCalm (λ score.
          Ensures-bind _ _ date_now-IsCalm
            (λ now. batch-Ensures _ _ (λ s. written-IsQueued s score (iso now))))))

  setex-IsQueued :
      (s : S) (k : String) (t : ℕ) (v : Text)
      → str_eq k jobs_key ≡ false
      → str_eq k (job_status_key j.id) ≡ false
      → IsQueued R j s
      → IsQueued R j (R.setex s k t v)
  setex-IsQueued s k t v h g q = record {
    member = (q.member.0, laws.zset.zscore-setex s k t v jobs_key (job j) h ∙ q.member.1);
    status = rw (laws.hashes.hgetall-setex s k t v (job_status_key j.id) g) q.status;
    owner = rw (laws.hashes.hgetall-setex s k t v (job_status_key j.id) g) q.owner;
    chat = rw (laws.hashes.hgetall-setex s k t v (job_status_key j.id) g) q.chat;
  }

  del-IsQueued :
      (s : S) (k : String)
      → str_eq k jobs_key ≡ false
      → str_eq k (job_status_key j.id) ≡ false
      → IsQueued R j s
      → IsQueued R j (R.del s k)
  del-IsQueued s k h g q = record {
    member = (q.member.0, rw (laws.zset.zscore-del s k jobs_key (job j), h) q.member.1);
    status = rw (laws.hashes.hgetall-del s k (job_status_key j.id) g) q.status;
    owner = rw (laws.hashes.hgetall-del s k (job_status_key j.id) g) q.owner;
    chat = rw (laws.hashes.hgetall-del s k (job_status_key j.id) g) q.chat;
  }

  -- what follows the enqueue leaves the queued job alone
  module _ (env : Runtime) (db : Tables S) (apart_db : AreApart db) where
    pub keep-IsQueued :
        (u : String) (key : Option String) (reply : Text)
        → Keeps (On (IsQueued R j)) (keep_reply R env db u key reply)
    unfolding keep_reply set_idempotent_response setex
    keep-IsQueued u none reply = Keeps-pure _
    keep-IsQueued u (some k) reply = Keeps-bind _ _ is_circuit_open-On (λ broken.
        Keeps-if broken _ _ (Keeps-pure _) (
          command-On _ (λ s q.
            setex-IsQueued s _ _ _ (idempotency_apart_jobs u k) (idempotency_apart_status u k j.id)
              q)))

    pub increment-IsQueued :
        (u : String) (n : ℕ) → Keeps (On (IsQueued R j)) (increment_quota_usage R env db u n)
    unfolding increment_quota_usage
    increment-IsQueued u n =
        Keeps-catch _ _
          (Keeps-bind _ _ date_now-On (λ now.
            Keeps-bind _ _ (IsApart-On _ (apart_db.increment_quota u _ n) _) (λ done.
              Keeps-if done _ _ (Keeps-pure _) (IsApart-On _ (apart_db.upsert_quota u _ n) _))))
          (λ e. Keeps-pure _)

    pub invalidate-IsQueued :
        (u : String) → Keeps (On (IsQueued R j)) (invalidate_stats_cache R env db u)
    unfolding invalidate_stats_cache del
    invalidate-IsQueued u = Keeps-bind _ _ is_circuit_open-On (λ broken.
        Keeps-if broken _ _ (Keeps-pure _) (
          Keeps-catch _ _
            (command-On _
              (λ s q. del-IsQueued s _ (stats_apart_jobs u) (stats_apart_status j.id u) q))
            (λ e. Keeps-pure _)))
