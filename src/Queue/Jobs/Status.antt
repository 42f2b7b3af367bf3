-- ===== src/Queue/Jobs/Status.antt =====
-- What a job's status reads after it was written.
use brain_mate.Common.{
  ◌<◌, ℕ, String, ◌≡◌, refl, ◌∙◌, ap, ◌≤◌, false, Option, none, some, [], ◌∷◌, arith, str_eq,
  eq_refl, Fields, over, field,
}
use brain_mate.Types.{WritingJobPayload, job, same_iff}
use brain_mate.Redis.{Redis, IsLawful}
use brain_mate.Exec.{World, ok, command, date_now, is_circuit_open}
use brain_mate.Commands.{batch, hgetall}
use brain_mate.Queue.Keys.{jobs_key, job_status_key}
use brain_mate.Queue.Jobs.{
  JobStatus, status_name, default_to, first_fields, status_fields, to_payload,
  enqueue_write_right_job, set_job_status, get_job_status,
}

to_payload_lem :
    (fs : Fields) (v : String)
    → field "status" fs ≡ some v
    → to_payload fs
      ≡ some (record {
        status = v;
        created_at = default_to "" (field "created_at" fs);
        user_id = default_to "" (field "user_id" fs);
        chat_id = default_to "" (field "chat_id" fs);
        error = field "error" fs;
      })
unfolding to_payload
to_payload_lem [] v h = absurd (cc)
to_payload_lem (f ∷ fs) v h = rw h refl

over-some {ℓ} : {A : Type ℓ} (o : Option A) (a : A) → over o (some a) ≡ some (default_to a o)
over-some none a = refl
over-some (some b) a = refl

over-none {ℓ} : {A : Type ℓ} (o : Option A) → over o none ≡ o
over-none none = refl
over-none (some b) = refl

status_field :
    (st : JobStatus) (now : String) (extra : Fields)
    → field "status" (status_fields st now extra)
      ≡ some (default_to (status_name st) (field "status" extra))
unfolding status_fields
status_field st now extra = rw (over-none, over-some) refl

other_field :
    (f : String) (st : JobStatus) (now : String) (extra : Fields)
    → str_eq "status" f ≡ false
    → str_eq "updated_at" f ≡ false
    → field f (status_fields st now extra) ≡ field f extra
unfolding status_fields
other_field f st now extra a b = rw (a, b, over-none, over-none) refl

module _ {S : Type 0} (R : Redis S) (laws : IsLawful R) (iso : ℕ → String) where
  -- the hash after fields were written to it
  pub hgetall-written :
      (s : S) (k f : String) (fs : Fields) (t : ℕ)
      → 0 < t
      → field f (R.hgetall (R.expire (R.hset s k fs) k t) k)
        ≡ over (field f fs) (field f (R.hgetall s k))
  hgetall-written s k f fs t p =
      rw (laws.hashes.hgetall-expire _ _ _ _ p, laws.hashes.hgetall-hset, eq_refl) refl

  pub get_job_status_lem :
      (id : String) (w : World S)
      → w.wire ≡ []
      → (get_job_status R iso id w).0 ≡ ok (to_payload (R.hgetall w.redis (job_status_key id)))
  unfolding get_job_status hgetall command
  get_job_status_lem id w h = ground arith

  set_state :
      (id : String) (st : JobStatus) (ttl : ℕ) (extra : Fields) (w : World S)
      → w.wire ≡ []
      → ((set_job_status R iso id st ttl extra w).1.redis
          ≡ R.expire
              (R.hset w.redis
                (job_status_key id)
                (status_fields st (iso (date_now w).1.clock) extra))
              (job_status_key id)
              ttl)
        × ((set_job_status R iso id st ttl extra w).1.wire ≡ [])
  unfolding set_job_status batch command date_now
  set_state id st ttl extra w h = ground arith

  set_status :
      (id : String) (st : JobStatus) (ttl : ℕ) (extra : Fields) (s : S) (now : String)
      → 0 < ttl
      → field "status" (
          R.hgetall
            (R.expire
              (R.hset s (job_status_key id) (status_fields st now extra))
              (job_status_key id)
              ttl)
            (job_status_key id))
        ≡ some (default_to (status_name st) (field "status" extra))
  set_status id st ttl extra s now p =
      hgetall-written s (job_status_key id) "status" (status_fields st now extra) ttl p
      ∙ rw (status_field st now extra) refl

  set_field :
      (f id : String) (st : JobStatus) (ttl : ℕ) (extra : Fields) (s : S) (now : String)
      → 0 < ttl
      → str_eq "status" f ≡ false
      → str_eq "updated_at" f ≡ false
      → field f (
          R.hgetall
            (R.expire
              (R.hset s (job_status_key id) (status_fields st now extra))
              (job_status_key id)
              ttl)
            (job_status_key id))
        ≡ over (field f extra) (field f (R.hgetall s (job_status_key id)))
  set_field f id st ttl extra s now p a b =
      hgetall-written s (job_status_key id) f (status_fields st now extra) ttl p
      ∙ rw (other_field f st now extra a b) refl

  -- A status that was set is read: with answered commands and a time to live that is not 0 (with
  -- which the hash would be deleted), `getJobStatus` after `setJobStatus` returns the status, or
  -- the one in the caller's extra fields if they name one, and the other fields are the caller's
  -- where it gives them and else what the hash held before.
  pub set_then_get :
      (id : String) (st : JobStatus) (ttl : ℕ) (extra : Fields) (w : World S)
      → w.wire ≡ []
      → 0 < ttl
      → (get_job_status R iso id (set_job_status R iso id st ttl extra w).1).0
        ≡ ok (
            some (record {
              status = default_to (status_name st) (field "status" extra);
              created_at = default_to "" (
                  over
                    (field "created_at" extra)
                    (field "created_at" (R.hgetall w.redis (job_status_key id))));
              user_id = default_to "" (
                  over
                    (field "user_id" extra)
                    (field "user_id" (R.hgetall w.redis (job_status_key id))));
              chat_id = default_to "" (
                  over
                    (field "chat_id" extra)
                    (field "chat_id" (R.hgetall w.redis (job_status_key id))));
              error =
                  over
                    (field "error" extra)
                    (field "error" (R.hgetall w.redis (job_status_key id)));
            }))
  set_then_get id st ttl extra w h p =
      let (state, calm) = set_state id st ttl extra w h in
      get_job_status_lem id _ calm
      ∙ rw state (
          ap ok (
            to_payload_lem _ _ (set_status id st ttl extra w.redis _ p)
            ∙ rw
                (
                  set_field "created_at" id st ttl extra w.redis _ p refl refl,
                  set_field "user_id" id st ttl extra w.redis _ p refl refl,
                  set_field "chat_id" id st ttl extra w.redis _ p refl refl,
                  set_field "error" id st ttl extra w.redis _ p refl refl,
                )
                refl))

  pub enqueue_state :
      (j : WritingJobPayload) (w : World S)
      → w.wire ≡ []
      → w.ticks ≡ []
      → w.breaker.open_until ≤ w.clock
      → ((enqueue_write_right_job R iso j w).0 ≡ ok tt)
        × (((enqueue_write_right_job R iso j w).1.wire ≡ [])
            × ((enqueue_write_right_job R iso j w).1.redis
                ≡ R.expire
                    (R.hset
                      (R.zadd w.redis jobs_key w.clock (job j))
                      (job_status_key j.id)
                      (first_fields j (iso w.clock)))
                    (job_status_key j.id)
                    3600))
  unfolding enqueue_write_right_job batch command date_now is_circuit_open
  enqueue_state j w h t b = ground arith

  -- A job that was enqueued is in the queue at the time of the call, and its status reads
  -- "pending", with the job's user and chat; an error that an earlier job of this id left in the
  -- hash stays. The conditions are that the circuit is closed, the commands are answered and the
  -- clock stands still.
  pub enqueue_then_get :
      (j : WritingJobPayload) (w : World S)
      → w.wire ≡ []
      → w.ticks ≡ []
      → w.breaker.open_until ≤ w.clock
      → (R.zscore (enqueue_write_right_job R iso j w).1.redis jobs_key (job j) ≡ some w.clock)
        × ((get_job_status R iso j.id (enqueue_write_right_job R iso j w).1).0
            ≡ ok (
                some (record {
                  status = "pending";
                  created_at = iso w.clock;
                  user_id = j.user_id;
                  chat_id = j.chat_id;
                  error = field "error" (R.hgetall w.redis (job_status_key j.id));
                })))
  unfolding first_fields
  enqueue_then_get j w h t b =
      let (returns, (calm, state)) = enqueue_state j w h t b in
      (
        rw
            (
              state,
              laws.zset.zscore-expire _ _ 3600 _ _ (omega arith),
              laws.zset.zscore-hset,
              laws.zset.zscore-zadd,
              eq_refl,
              (same_iff (job j) (job j)).1 refl,
            )
            refl,
        get_job_status_lem j.id _ calm
            ∙ rw state (
                ap ok (
                  to_payload_lem _ "pending"
                    (hgetall-written _ _ "status" (first_fields j (iso w.clock)) 3600 (omega arith))
                  ∙ rw
                      (
                        hgetall-written (R.zadd w.redis jobs_key w.clock (job j))
                            (job_status_key j.id) "created_at" (first_fields j (iso w.clock)) 3600
                            (omega arith),
                        hgetall-written (R.zadd w.redis jobs_key w.clock (job j))
                            (job_status_key j.id) "user_id" (first_fields j (iso w.clock)) 3600
                            (omega arith),
                        hgetall-written (R.zadd w.redis jobs_key w.clock (job j))
                            (job_status_key j.id) "chat_id" (first_fields j (iso w.clock)) 3600
                            (omega arith),
                        hgetall-written (R.zadd w.redis jobs_key w.clock (job j))
                            (job_status_key j.id) "error" (first_fields j (iso w.clock)) 3600
                            (omega arith),
                        laws.hashes.hgetall-zadd,
                      )
                      refl)),
      )
