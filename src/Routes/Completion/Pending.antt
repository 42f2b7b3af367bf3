-- ===== src/Routes/Completion/Pending.antt =====
-- The life of a job through enqueue, completion route and poll route.
use brain_mate.Common.{
  ℕ, String, ◌≡◌, refl, sym, ◌∙◌, ap, ◌≤◌, Bool, true, false, Option, some, [], str_eq, Bool-cases,
  inl, inr, eq_refl,
}
use brain_mate.Types.{AiJobResult, WritingJobPayload}
use brain_mate.Redis.{Redis, IsLawful}
use brain_mate.Exec.{World, Exec, ok, is_circuit_open}
use brain_mate.Exec.Keeps.{
  Keeps, IsCalm, Keeps-bind, Keeps-catch, Keeps-if, Keeps-pure, command-IsCalm, date_now-IsCalm,
  resume_ok,
}
use brain_mate.Commands.{xadd, expire, hset, setex, del}
use brain_mate.Queue.Jobs.{JobStatusPayload, to_payload, enqueue_write_right_job, get_job_status}
use brain_mate.Queue.Jobs.Status.{get_job_status_lem, enqueue_state, enqueue_then_get}
use brain_mate.Routes.Completion.{settle_del, write_completion, publish_completion}
use brain_mate.Routes.Completion.Unseen.{completion_unseen}
use brain_mate.Routes.Poll.{JobRow, in_status, is_foreign, from_payload, from_redis, poll_as, poll}

module _ {S : Type 0} (R : Redis S) (iso : ℕ → String) where
  settle_del-IsCalm : (k : String) → Keeps IsCalm (settle_del R k)
  unfolding settle_del del
  settle_del-IsCalm k = Keeps-catch _ _ (command-IsCalm _) (λ e. Keeps-pure tt)

  write_completion-IsCalm :
      (job_id user_id : String) (value : AiJobResult)
      → Keeps IsCalm (write_completion R iso job_id user_id value)
  unfolding write_completion xadd expire hset setex
  write_completion-IsCalm job_id user_id value = Keeps-bind _ _ (command-IsCalm _) (λ x1.
      Keeps-bind _ _ (command-IsCalm _) (λ x2. Keeps-bind _ _ date_now-IsCalm (λ now.
        Keeps-bind _ _ (command-IsCalm _) (λ x3. Keeps-bind _ _ (command-IsCalm _) (λ x4.
          Keeps-bind _ _ (settle_del-IsCalm _)
            (λ x5. Keeps-bind _ _ (settle_del-IsCalm _) (λ x6. settle_del-IsCalm _)))))))

  publish_completion-IsCalm :
      (job_id user_id : String) (value : AiJobResult)
      → Keeps IsCalm (publish_completion R iso job_id user_id value)
  unfolding publish_completion is_circuit_open
  publish_completion-IsCalm job_id user_id value =
      Keeps-bind _ _ (Keeps-bind _ _ date_now-IsCalm (λ now. record { at = λ w p. p })) (λ broken.
        Keeps-if _ _ _ (Keeps-pure tt)
          (Keeps-catch _ _ (write_completion-IsCalm job_id user_id value) (λ e. Keeps-pure tt)))

module _ {S : Type 0} (R : Redis S) (iso : ℕ → String) (is_uuid : String → Bool)
    (select_job : String → String → Exec S (Option JobRow)) where
  -- a poll that the hash settles
  poll_pending :
      (user_id job_id : String) (payload : JobStatusPayload) (w : World S)
      → str_eq user_id "" ≡ false
      → is_uuid job_id ≡ true
      → (get_job_status R iso job_id w).0 ≡ ok (some payload)
      → str_eq payload.user_id user_id ≡ true
      → payload.status ≡ "pending"
      → (poll R iso is_uuid select_job job_id (some user_id) w).0 ≡ ok (in_status "pending")
  unfolding poll poll_as from_redis from_payload is_foreign
  poll_pending user_id job_id payload w n u h o s =
      rw
        (
          n,
          u,
          resume_ok (get_job_status R iso job_id w) (some payload)
              (from_payload R iso is_uuid select_job user_id job_id) h,
          o,
          s,
        )
        (elim (Bool-cases (str_eq payload.user_id "")) [ inl e ↦ rw e refl | inr e ↦ rw e refl ])

module _ {S : Type 0} (R : Redis S) (laws : IsLawful R) (iso : ℕ → String) (is_uuid : String → Bool)
    (select_job : String → String → Exec S (Option JobRow)) where
  -- A job that was enqueued and then reported as complete still polls as pending: with answered
  -- commands, a closed circuit and a clock that stands still, its user's poll after
  -- `enqueueWriteRightJob` and the completion route's work on Redis replies "pending", whatever the
  -- database holds. The job's id is well formed and its user is named.
  pub completed_polls_pending :
      (j : WritingJobPayload) (value : AiJobResult) (w : World S)
      → w.wire ≡ []
      → w.ticks ≡ []
      → w.breaker.open_until ≤ w.clock
      → str_eq j.user_id "" ≡ false
      → is_uuid j.id ≡ true
      → (poll R iso is_uuid select_job j.id
          (some j.user_id)
          (publish_completion R iso j.id j.user_id value (enqueue_write_right_job R iso j w).1).1).0
        ≡ ok (in_status "pending")
  completed_polls_pending j value w h t b n u =
      let (returns, (quiet, state)) = enqueue_state R laws iso j w h t b in
      let still =
        (publish_completion-IsCalm R iso j.id j.user_id value).at _ (record { calm = quiet }) in
      let read =
        get_job_status_lem R laws iso j.id _ still.calm
        ∙ ap (λ fs. ok (to_payload fs)) (completion_unseen R laws iso j.id j.user_id value _).0
        ∙ sym (get_job_status_lem R laws iso j.id _ quiet)
        ∙ (enqueue_then_get R laws iso j w h t b).1 in
      poll_pending R iso is_uuid select_job j.user_id j.id _ _ n u read (eq_refl j.user_id) refl
