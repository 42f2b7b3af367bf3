-- ===== src/Routes/Message/Post/Repeated.antt =====
-- A message that is submitted again with its idempotency key.
use brain_mate.Common.{
  ℕ, String, ◌≡◌, refl, ◌≤◌, ◌<◌, ◌⊎◌, inl, inr, Option, none, some, [], arith, eq_refl, Fields,
  List,
}
use brain_mate.Types.{assistant, user, plain, Text, WritingJobPayload, Role, cached_reply}
use brain_mate.Redis.{Redis, IsLawful}
use brain_mate.Exec.{World, Exec, ok, err, Result, date_now, command, is_circuit_open}
use brain_mate.Exec.Keeps.{Keeps}
use brain_mate.Exec.Ensures.{
  Ensures, Returned, Returned-ok, Ensures-pure, Ensures-throw, Ensures-bind, Ensures-then,
  Ensures-catch,
}
use brain_mate.Commands.{setex, get}
use brain_mate.Queue.Keys.{idempotency_key}
use brain_mate.Queue.Jobs.{parse_json}
use brain_mate.Queue.Responses.{parse_cached, set_idempotent_response, get_idempotent_response}
use brain_mate.Routes.Message.Parts.{
  Posted, MessageRequest, Runtime, Tables, keep_reply, increment_quota_usage,
  invalidate_stats_cache,
}
use brain_mate.Routes.Message.Post.{
  Valid, estimated_tokens, input_hash, accept, queue_job, reply_cached, from_cache, answer_or_queue,
  process_saved, save_message, submit_message, reply_or_submit, post_valid, validate,
  post_validated, post, prior_reply,
}

abbrev pub Any : {S : Type 0} → World S → Type 0
Any w = Unit

Keeps-Any : {S A : Type 0} (m : Exec S A) → Keeps Any m
Keeps-Any m = record { at = λ w h. tt }

module _ {S : Type 0} (R : Redis S) (laws : IsLawful R) where
  -- the reply is under the key, unless the circuit of lib/redis.ts is open
  abbrev IsKept : String → Text → World S → Type 0
  IsKept key reply w = (w.clock < w.breaker.open_until) ⊎ (R.get w.redis key ≡ some reply)

  set-IsKept :
      (user_id key : String) (reply : Text) (ttl : ℕ) (w : World S)
      → (set_idempotent_response R user_id key reply ttl w).0 ≡ ok tt
      → IsKept
          (idempotency_key user_id key)
          reply
          (set_idempotent_response R user_id key reply ttl w).1
  unfolding set_idempotent_response is_circuit_open date_now setex command
  set-IsKept user_id key reply ttl w h = ground (
    arith,
    laws.strings.get-setex w.redis (idempotency_key user_id key) ttl reply
        (idempotency_key user_id key),
    eq_refl (idempotency_key user_id key),
  )

  Returned-IsKept :
      (k : String) (reply : Text) (x : Result (Unit {0}) × World S)
      → (x.0 ≡ ok tt → IsKept k reply x.1)
      → Returned (λ _. IsKept k reply) x
  Returned-IsKept k reply (ok u, w) h = h refl
  Returned-IsKept k reply (err e, w) h = tt

  module _ (env : Runtime) (db : Tables S) (v : Valid) (k : String) where
    -- a message that was queued, by its reply, has its reply kept
    abbrev Kept : Posted → World S → Type 0
    Kept posted w =
        (posted.status ≡ 200)
        ⊎ ((parse_json posted.body ≡ some posted.body)
            × IsKept (idempotency_key v.user_id k) posted.body w)

    keep-IsKept :
        (reply : Text)
        → v.key ≡ some k
        → Ensures Any
            (λ _. IsKept (idempotency_key v.user_id k) reply)
            (keep_reply R env db v.user_id v.key reply)
    unfolding keep_reply
    keep-IsKept reply h = rw h (record {
      at = λ w p.
          Returned-IsKept (idempotency_key v.user_id k) reply _ (set-IsKept v.user_id k reply 60 w);
    })

    accept-Kept :
        (headers : Fields) (payload : WritingJobPayload)
        → v.key ≡ some k
        → Ensures Any Kept (accept R env db v headers payload)
    unfolding accept parse_json
    accept-Kept headers payload h =
        Ensures-bind _ _ (Keeps-Any _)
          (λ _. Ensures-then _ _ (keep-IsKept _ h) (λ _. Ensures-pure _ (λ w p. inr (refl, p))))

    queue_job-Kept :
        (headers : Fields) (trace : Option String) (message_id : String)
        (history : List (Role × String)) (job_id : Option String)
        → v.key ≡ some k
        → Ensures Any Kept (queue_job R env db v headers trace message_id history job_id)
    unfolding queue_job
    queue_job-Kept headers trace message_id history none h = Ensures-throw _
    queue_job-Kept headers trace message_id history (some job_id) h =
        Ensures-bind _ _ (Keeps-Any _) (λ _. accept-Kept headers _ h)

    -- what the cache answers is a reply of status 200
    abbrev pub Answers : Option Posted → World S → Type 0
    Answers none w = Unit
    Answers (some posted) w = posted.status ≡ 200

    reply_cached-Answers :
        (headers : Fields) (message_id : String) (cached : Option Text)
        → Ensures Any Answers (reply_cached R env db v headers message_id cached)
    unfolding reply_cached
    reply_cached-Answers headers message_id none = Ensures-pure _ (λ w p. tt)
    reply_cached-Answers headers message_id (some answer) =
        Ensures-bind (db.insert_message v.input.chat_id v.user_id assistant answer v.input) _
          (Keeps-Any _)
          (λ _.
            Ensures-bind (keep_reply R env db v.user_id v.key (cached_reply message_id answer)) _
              (Keeps-Any _)
              (λ _.
                Ensures-bind
                  (increment_quota_usage R env db v.user_id (estimated_tokens R env db v)) _
                  (Keeps-Any _)
                  (λ _.
                    Ensures-bind (invalidate_stats_cache R env db v.user_id) _ (Keeps-Any _) (λ _.
                      Ensures-pure
                        (some (record {
                          status = 200;
                          body = cached_reply message_id answer;
                          headers = headers;
                        }))
                        (λ w p. refl)))))

    pub from_cache-Answers :
        (headers : Fields) (message_id : String)
        → Ensures Any Answers (from_cache R env db v headers message_id)
    unfolding from_cache
    from_cache-Answers headers message_id =
        Ensures-catch _ _ (Keeps-Any _)
          (Ensures-bind _ _ (Keeps-Any _)
            (λ cached. reply_cached-Answers headers message_id cached))
          (λ e. Ensures-pure _ (λ w p. tt))

    answer-Kept :
        (headers : Fields) (trace : Option String) (message_id : String)
        (history : List (Role × String)) (cached : Option Posted)
        → v.key ≡ some k
        → Ensures
            (Answers cached)
            Kept
            (answer_or_queue R env db v headers trace message_id history cached)
    unfolding answer_or_queue
    answer-Kept headers trace message_id history none h =
        Ensures-bind
          (db.insert_job v.input.chat_id v.user_id message_id v.input (input_hash R env db v)) _
          (Keeps-Any _) (λ job_id. queue_job-Kept headers trace message_id history job_id h)
    answer-Kept headers trace message_id history (some posted) h =
        Ensures-pure posted (λ w p. inl p)

    process_saved-Kept :
        (headers : Fields) (trace : Option String) (message_id : Option String)
        → v.key ≡ some k
        → Ensures Any Kept (process_saved R env db v headers trace message_id)
    unfolding process_saved
    process_saved-Kept headers trace none h = Ensures-throw _
    process_saved-Kept headers trace (some message_id) h =
        Ensures-bind _ _ (Keeps-Any _) (λ history.
          Ensures-then _ _ (from_cache-Answers headers message_id)
            (λ cached. answer-Kept headers trace message_id history cached h))

    save_message-Kept :
        (headers : Fields) (trace chat : Option String)
        → v.key ≡ some k
        → Ensures Any Kept (save_message R env db v headers trace chat)
    unfolding save_message
    save_message-Kept headers trace none h = Ensures-throw _
    save_message-Kept headers trace (some chat) h =
        Ensures-bind (db.insert_message v.input.chat_id v.user_id user (plain v.input.text) v.input)
          _ (Keeps-Any _) (λ message_id. process_saved-Kept headers trace message_id h)

    submit_message-Kept :
        (trace : Option String)
        → v.key ≡ some k
        → Ensures Any Kept (submit_message R env db v trace)
    unfolding submit_message
    submit_message-Kept trace h = Ensures-bind _ _ (Keeps-Any _) (λ headers.
        Ensures-bind (db.select_chat v.input.chat_id v.user_id) _ (Keeps-Any _)
          (λ chat. save_message-Kept headers trace chat h))

    reply-Kept :
        (trace : Option String) (prior : Option Text)
        → v.key ≡ some k
        → Ensures Any Kept (reply_or_submit R env db v trace prior)
    unfolding reply_or_submit
    reply-Kept trace none h = submit_message-Kept trace h
    reply-Kept trace (some prior) h = Ensures-pure _ (λ w p. inl refl)

    post_valid-Kept :
        (trace : Option String) → v.key ≡ some k → Ensures Any Kept (post_valid R env db v trace)
    unfolding post_valid
    post_valid-Kept trace h = Ensures-bind _ _ (Keeps-Any _) (λ prior. reply-Kept trace prior h)

    -- a reply of POST is JSON
    repeated_read :
        (reply : Text) (trace : Option String) (w : World S)
        → v.key ≡ some k
        → R.get w.redis (idempotency_key v.user_id k) ≡ some reply
        → parse_json reply ≡ some reply
        → w.wire ≡ []
        → w.ticks ≡ []
        → w.breaker.open_until ≤ w.clock
        → post_valid R env db v trace w
          ≡ (ok (record { status = 200; body = reply; headers = [] }), w)
    unfolding post_valid prior_reply get_idempotent_response is_circuit_open date_now get command
        reply_or_submit parse_cached
    repeated_read reply trace w key there json wire ticks closed = ground arith

    post-Kept :
        (request : MessageRequest)
        → validate env request ≡ ok v
        → v.key ≡ some k
        → Ensures Any Kept (post R env db request)
    unfolding post post_validated
    post-Kept request valid key = rw valid (post_valid-Kept request.traceparent key)

    post_again :
        (request : MessageRequest) (reply : Text) (w : World S)
        → validate env request ≡ ok v
        → v.key ≡ some k
        → R.get w.redis (idempotency_key v.user_id k) ≡ some reply
        → parse_json reply ≡ some reply
        → w.wire ≡ []
        → w.ticks ≡ []
        → w.breaker.open_until ≤ w.clock
        → post R env db request w ≡ (ok (record { status = 200; body = reply; headers = [] }), w)
    unfolding post post_validated
    post_again request reply w valid key there json wire ticks closed =
        rw valid (repeated_read reply request.traceparent w key there json wire ticks closed)

    -- A message that is submitted again is not queued again: where POST replied 202 to a valid
    -- request with an idempotency key, and lib/redis.ts's circuit was closed at its end, the same
    -- request gets the reply's body again, with status 200, and changes nothing: not the queue, not
    -- the quota, no table. Whatever Redis, the database and the other services did the first time.
    -- The second request finds Redis as the first one left it (that the key expires after a minute
    -- is left out), the circuit closed, and its commands are answered.
    pub repeated_reply :
        (request : MessageRequest) (posted : Posted) (w w2 : World S)
        → validate env request ≡ ok v
        → v.key ≡ some k
        → (post R env db request w).0 ≡ ok posted
        → posted.status ≡ 202
        → (post R env db request w).1.breaker.open_until ≤ (post R env db request w).1.clock
        → w2.redis ≡ (post R env db request w).1.redis
        → w2.wire ≡ []
        → w2.ticks ≡ []
        → w2.breaker.open_until ≤ w2.clock
        → post R env db request w2
          ≡ (ok (record { status = 200; body = posted.body; headers = [] }), w2)
    repeated_reply request posted w w2 valid key first accepted closed same calm still closed2 =
        elim (Returned-ok Kept (post R env db request w) posted
          ((post-Kept request valid key).at w tt) first) [
            | inl other ↦ absurd (omega (arith, other, accepted))
            | inr (json, inl broken) ↦ absurd (omega (arith, broken, closed))
            | inr (json, inr there) ↦
                post_again request posted.body w2 valid key (rw same there) json calm still closed2
          ]
