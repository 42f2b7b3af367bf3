-- ===== src/Routes/Message/Post/Accepted.antt =====
-- What a reply of status 202 means.
use brain_mate.Common.{String, ◌≡◌, refl, ◌⊎◌, inl, inr, Option, none, some, List, Fields, arith}
use brain_mate.Types.{Text, WritingJobPayload, Role, user, plain, pending_reply}
use brain_mate.Redis.{Redis, IsLawful}
use brain_mate.Exec.{World, ok}
use brain_mate.Exec.Keeps.{On, IsCalm}
use brain_mate.Exec.Ensures.{
  Ensures, Returned-ok, Returned-thrown, Ensures-pure, Ensures-throw, Ensures-bind, Ensures-then,
  Ensures-of_Keeps, Ensures-rethrow, Ensures-with, Ensures-weaker,
}
use brain_mate.Routes.Message.Parts.{Posted, MessageRequest, Runtime, Tables}
use brain_mate.Routes.Message.Post.{
  Valid, input_hash, job_payload, enqueue_job, accept, queue_job, answer_or_queue, process_saved,
  save_message, submit_message, reply_or_submit, post_valid, post_validated, validate, post,
}
use brain_mate.Routes.Message.Post.Calm.{
  AreApart, IsApart-IsCalm, prior_reply-IsCalm, admit_message-IsCalm, history-IsCalm,
  from_cache-IsCalm, queued_content-IsCalm,
}
use brain_mate.Routes.Message.Post.Queued.{
  IsQueued, enqueue-IsQueued, keep-IsQueued, increment-IsQueued, invalidate-IsQueued,
}
use brain_mate.Routes.Message.Post.Repeated.{Answers, from_cache-Answers}

module _ {S : Type 0} (R : Redis S) (laws : IsLawful R) (env : Runtime) (db : Tables S)
    (apart : AreApart db) (v : Valid) where
  -- a job of the request's user, chat, tone and mode that is queued and that the reply names
  pub record Accepted (posted : Posted) (w : World S) : Type 0 where
    pub job : WritingJobPayload
    pub user_id : job.user_id ≡ v.user_id
    pub chat_id : job.chat_id ≡ v.input.chat_id
    pub tone : job.tone ≡ v.input.tone
    pub mode : job.mode ≡ v.input.mode
    pub body : posted.body ≡ pending_reply job.id job.message_id
    pub queued : IsQueued R job w.redis

  abbrev Means : Posted → World S → Type 0
  Means posted w = (posted.status ≡ 200) ⊎ Accepted posted w

  enqueue_job-IsQueued :
      (j : WritingJobPayload) → Ensures IsCalm (λ _. On (IsQueued R j)) (enqueue_job R env db v j)
  unfolding enqueue_job
  enqueue_job-IsQueued j =
      Ensures-rethrow _ _
        (Ensures-then _ _ (enqueue-IsQueued R laws j env.iso) (λ _.
          Ensures-bind _ _ (increment-IsQueued R laws j env db apart v.user_id _)
            (λ _. Ensures-of_Keeps _ _ (invalidate-IsQueued R laws j env db apart v.user_id))))
        (λ e w. Returned-thrown _ (db.fail_job j.id "Failed to enqueue to Redis" w) _)

  accept-Means :
      (headers : Fields) (job_id message_id content : String) (history : List (Role × String))
      (trace : Option String)
      → Ensures IsCalm Means
          (accept R env db v headers (job_payload v job_id message_id content history trace))
  unfolding accept job_payload
  accept-Means headers job_id message_id content history trace =
      let j = job_payload v job_id message_id content history trace in
      Ensures-then _ _ (enqueue_job-IsQueued j) (λ _.
        Ensures-bind _ _ (keep-IsQueued R laws j env db apart v.user_id v.key _) (λ _.
          Ensures-pure
            (record { status = 202; body = pending_reply job_id message_id; headers = headers })
            (λ w p. inr (record {
              job = j;
              user_id = refl;
              chat_id = refl;
              tone = refl;
              mode = refl;
              body = refl;
              queued = p.holds;
            }))))

  queue_job-Means :
      (headers : Fields) (trace : Option String) (message_id : String)
      (history : List (Role × String)) (job_id : Option String)
      → Ensures IsCalm Means (queue_job R env db v headers trace message_id history job_id)
  unfolding queue_job
  queue_job-Means headers trace message_id history none = Ensures-throw _
  queue_job-Means headers trace message_id history (some job_id) =
      Ensures-bind _ _ (queued_content-IsCalm R env db apart v)
        (λ content. accept-Means headers job_id message_id content history trace)

  answer-Means :
      (headers : Fields) (trace : Option String) (message_id : String)
      (history : List (Role × String)) (cached : Option Posted)
      → Ensures
          (λ w. IsCalm w × Answers R laws env db v "" cached w)
          Means
          (answer_or_queue R env db v headers trace message_id history cached)
  unfolding answer_or_queue
  answer-Means headers trace message_id history none =
      Ensures-weaker _ _ (λ w p. p.0)
        (Ensures-bind _ _
          (IsApart-IsCalm _
            (apart.insert_job v.input.chat_id v.user_id message_id v.input (input_hash R env db v)))
          (λ job_id. queue_job-Means headers trace message_id history job_id))
  answer-Means headers trace message_id history (some posted) = Ensures-pure posted (λ w p. inl p.1)

  process_saved-Means :
      (headers : Fields) (trace : Option String) (message_id : Option String)
      → Ensures IsCalm Means (process_saved R env db v headers trace message_id)
  unfolding process_saved
  process_saved-Means headers trace none = Ensures-throw _
  process_saved-Means headers trace (some message_id) =
      Ensures-bind _ _ (history-IsCalm R env db apart v.input.chat_id message_id) (λ history.
        Ensures-then _ _
          (Ensures-with _ (from_cache-IsCalm R env db apart v headers message_id) (
            Ensures-weaker _ _ (λ w p. tt)
              (from_cache-Answers R laws env db v "" headers message_id)))
          (λ cached. answer-Means headers trace message_id history cached))

  save_message-Means :
      (headers : Fields) (trace chat : Option String)
      → Ensures IsCalm Means (save_message R env db v headers trace chat)
  unfolding save_message
  save_message-Means headers trace none = Ensures-throw _
  save_message-Means headers trace (some chat) =
      Ensures-bind _ _
        (IsApart-IsCalm _
          (apart.insert_message v.input.chat_id v.user_id user (plain v.input.text) v.input))
        (λ message_id. process_saved-Means headers trace message_id)

  submit_message-Means :
      (trace : Option String) → Ensures IsCalm Means (submit_message R env db v trace)
  unfolding submit_message
  submit_message-Means trace =
      Ensures-bind _ _ (admit_message-IsCalm R env db apart v.user_id _) (λ headers.
        Ensures-bind _ _ (IsApart-IsCalm _ (apart.select_chat v.input.chat_id v.user_id))
          (λ chat. save_message-Means headers trace chat))

  reply-Means :
      (trace : Option String) (prior : Option Text)
      → Ensures IsCalm Means (reply_or_submit R env db v trace prior)
  unfolding reply_or_submit
  reply-Means trace none = submit_message-Means trace
  reply-Means trace (some prior) = Ensures-pure _ (λ w p. inl refl)

  post-Means :
      (request : MessageRequest)
      → validate env request ≡ ok v
      → Ensures IsCalm Means (post R env db request)
  unfolding post post_validated post_valid
  post-Means request valid = rw valid (
      Ensures-bind _ _ (prior_reply-IsCalm R env db v.user_id v.key)
        (λ prior. reply-Means request.traceparent prior))

  -- A message that is accepted is queued: where POST replies 202 to a valid request, a job of the
  -- request's user, chat, tone and mode is a member of the queue, its status in Redis reads
  -- "pending" with the job's user and chat, and the reply's body names it. The commands to Redis
  -- must be answered, and the database and the mail service must not touch Redis or its connection.
  pub post-Accepted :
      (request : MessageRequest) (posted : Posted) (w : World S)
      → validate env request ≡ ok v
      → IsCalm w
      → (post R env db request w).0 ≡ ok posted
      → posted.status ≡ 202
      → Accepted posted (post R env db request w).1
  post-Accepted request posted w valid calm first accepted =
      elim (Returned-ok Means (post R env db request w) posted
        ((post-Means request valid).at w calm) first) [
          | inl other ↦ absurd (omega (arith, other, accepted))
          | inr p ↦ p
        ]
