-- ===== src/Routes/Message/Post/Calm.antt =====
-- While the commands to Redis are answered, the steps of POST up to the queue leave it so.
use brain_mate.Common.{ℕ, String, ◌≡◌, Option, none, some, List, Fields, ◌||◌, ltb, length}
use brain_mate.Types.{Text, Role, assistant, cached_reply}
use brain_mate.Redis.{Redis}
use brain_mate.Exec.{World, Exec, date_now, is_circuit_open}
use brain_mate.Exec.Keeps.{
  Keeps, IsCalm, On, Keeps-bind, Keeps-pure, Keeps-throw, Keeps-if, Keeps-catch, command-IsCalm,
  date_now-IsCalm,
}
use brain_mate.Commands.{get, setex, incr, expire, zcard, del}
use brain_mate.Queue.RateLimit.{Verdict, check_rate_limit}
use brain_mate.Queue.Responses.{
  set_idempotent_response, get_idempotent_response, get_cached_ai_response,
}
use brain_mate.Routes.Quota.{Quota, get_quota, quota_for}
use brain_mate.Routes.Message.Input.{MessageInput, trim}
use brain_mate.Routes.Message.Admit.{
  token_limit, check_quota, judge, unless_limited, judge_depth, unless_busy, limit_rate,
  limit_depth, admit_message,
}
use brain_mate.Routes.Message.Parts.{
  Runtime, Tables, keep_reply, increment_quota_usage, invalidate_stats_cache, fetch_chat_history,
}
use brain_mate.Routes.Message.Post.{Valid, reply_cached, from_cache, queued_content, prior_reply}

-- An action on other services: Redis and the outcomes of its commands stay as they are.
pub record IsApart {S A : Type 0} (m : Exec S A) : Type 0 where
  pub redis : (w : World S) → (m w).1.redis ≡ w.redis
  pub wire : (w : World S) → (m w).1.wire ≡ w.wire

pub record AreApart {S : Type 0} (db : Tables S) : Type 0 where
  pub select_tier : (u : String) → IsApart (db.select_tier u)
  pub select_quota : (u p : String) → IsApart (db.select_quota u p)
  pub add_daily : (u : String) (n : ℕ) → IsApart (db.add_daily u n)
  pub select_chat : (c u : String) → IsApart (db.select_chat c u)
  pub insert_message :
      (c u : String) (r : Role) (t : Text) (i : MessageInput)
      → IsApart (db.insert_message c u r t i)
  pub select_history : (c m : String) → IsApart (db.select_history c m)
  pub insert_job :
      (c u m : String) (i : MessageInput) (h : String) → IsApart (db.insert_job c u m i h)
  pub increment_quota : (u p : String) (n : ℕ) → IsApart (db.increment_quota u p n)
  pub upsert_quota : (u p : String) (n : ℕ) → IsApart (db.upsert_quota u p n)
  pub recent_emails : (u : String) → IsApart (db.recent_emails u)

module _ {S A : Type 0} (m : Exec S A) (h : IsApart m) where
  pub IsApart-IsCalm : Keeps IsCalm m
  IsApart-IsCalm = record { at = λ w p. record { calm = rw (h.wire w) p.calm } }

  pub IsApart-On : (Q : S → Type 0) → Keeps (On Q) m
  IsApart-On Q = record { at = λ w p. record { holds = rw (h.redis w) p.holds } }

module _ {S : Type 0} (R : Redis S) where
  pub is_circuit_open-IsCalm : Keeps IsCalm (is_circuit_open {S = S})
  unfolding is_circuit_open
  is_circuit_open-IsCalm = Keeps-bind date_now _ date_now-IsCalm (λ now. record { at = λ w p. p })

  check_rate_limit-IsCalm : (u : String) (n : ℕ) → Keeps IsCalm (check_rate_limit R u n)
  unfolding check_rate_limit incr expire
  check_rate_limit-IsCalm u n = Keeps-bind _ _ is_circuit_open-IsCalm (λ broken.
      Keeps-if broken _ _ (Keeps-pure _) (
        Keeps-bind _ _ (command-IsCalm _) (λ count.
          Keeps-bind _ _ (Keeps-if _ _ _ (command-IsCalm _) (Keeps-pure _)) (λ _. Keeps-pure _))))

  judge-IsCalm : (n : ℕ) (v : Verdict) → Keeps IsCalm (judge {S = S} n v)
  unfolding judge
  judge-IsCalm n v =
      Keeps-bind _ _ date_now-IsCalm (λ now. Keeps-if _ _ _ (Keeps-pure _) (Keeps-throw _))

  limit_rate-IsCalm : (u : String) (n : ℕ) → Keeps IsCalm (limit_rate R u n)
  unfolding limit_rate unless_limited
  limit_rate-IsCalm u n =
      Keeps-catch _ _ (Keeps-bind _ _ (check_rate_limit-IsCalm u n) (judge-IsCalm n))
        (λ e. Keeps-if _ _ _ (Keeps-throw _) (Keeps-bind _ _ date_now-IsCalm (λ now. Keeps-pure _)))

  limit_depth-IsCalm : Keeps IsCalm (limit_depth R)
  unfolding limit_depth judge_depth unless_busy zcard
  limit_depth-IsCalm = Keeps-bind _ _ is_circuit_open-IsCalm (λ broken.
      Keeps-if broken _ _ (Keeps-pure _) (
        Keeps-catch _ _
          (Keeps-bind _ _ (command-IsCalm _)
            (λ depth. Keeps-if _ _ _ (Keeps-throw _) (Keeps-pure _)))
          (λ e. Keeps-if _ _ _ (Keeps-throw _) (Keeps-pure _))))

  check_quota-IsCalm : (q : Quota) (us : List ℕ) → Keeps IsCalm (check_quota {S = S} q us)
  unfolding check_quota
  check_quota-IsCalm q us =
      Keeps-if (q.exhausted.requests || q.exhausted.tokens) _ _ (Keeps-throw _)
        (Keeps-if (ltb (token_limit q.tier) (length (trim us))) _ _ (Keeps-throw _) (Keeps-pure _))

  set_idempotent-IsCalm :
      (u k : String) (t : Text) (n : ℕ) → Keeps IsCalm (set_idempotent_response R u k t n)
  unfolding set_idempotent_response setex
  set_idempotent-IsCalm u k t n =
      Keeps-bind _ _ is_circuit_open-IsCalm
        (λ broken. Keeps-if broken _ _ (Keeps-pure _) (command-IsCalm _))

  get_cached-IsCalm : (h : String) → Keeps IsCalm (get_cached_ai_response R h)
  unfolding get_cached_ai_response get
  get_cached-IsCalm h = Keeps-bind _ _ is_circuit_open-IsCalm (λ broken.
      Keeps-if broken _ _ (Keeps-pure _)
        (Keeps-bind _ _ (command-IsCalm _) (λ cached. Keeps-pure _)))

  get_idempotent-IsCalm : (u k : String) → Keeps IsCalm (get_idempotent_response R u k)
  unfolding get_idempotent_response get
  get_idempotent-IsCalm u k = Keeps-bind _ _ is_circuit_open-IsCalm (λ broken.
      Keeps-if broken _ _ (Keeps-pure _)
        (Keeps-bind _ _ (command-IsCalm _) (λ cached. Keeps-pure _)))

  pub prior_reply-IsCalm :
      (env : Runtime) (db : Tables S) (u : String) (key : Option String)
      → Keeps IsCalm (prior_reply R env db u key)
  unfolding prior_reply
  prior_reply-IsCalm env db u none = Keeps-pure _
  prior_reply-IsCalm env db u (some k) = get_idempotent-IsCalm u k

module _ {S : Type 0} (R : Redis S) (env : Runtime) (db : Tables S) (apart : AreApart db) where
  quota-IsCalm :
      (u : Option String) → Keeps IsCalm (get_quota env.period_key db.select_tier db.select_quota u)
  unfolding get_quota quota_for
  quota-IsCalm none = Keeps-throw _
  quota-IsCalm (some u) = Keeps-if _ _ _ (Keeps-throw _) (
      Keeps-bind _ _ date_now-IsCalm (λ now.
        Keeps-bind _ _ (IsApart-IsCalm _ (apart.select_tier u)) (λ tier.
          Keeps-bind _ _ (IsApart-IsCalm _ (apart.select_quota u (env.period_key now)))
            (λ row. Keeps-pure _))))

  pub admit_message-IsCalm :
      (u : String) (us : List ℕ)
      → Keeps IsCalm (
          admit_message R env.period_key db.select_tier db.select_quota db.add_daily env.configured
            u us)
  unfolding admit_message
  admit_message-IsCalm u us =
      Keeps-bind _ _ (Keeps-catch _ _ (quota-IsCalm (some u)) (λ e. Keeps-throw _)) (λ quota.
        Keeps-bind _ _ (check_quota-IsCalm R quota us) (λ _.
          Keeps-bind _ _
            (Keeps-catch _ _ (IsApart-IsCalm _ (apart.add_daily u _)) (λ e. Keeps-pure _))
            (λ _.
              Keeps-bind _ _ (limit_rate-IsCalm R u _)
                (λ headers. Keeps-bind _ _ (limit_depth-IsCalm R) (λ _. Keeps-pure headers)))))

  pub history-IsCalm : (c m : String) → Keeps IsCalm (fetch_chat_history R env db c m)
  unfolding fetch_chat_history
  history-IsCalm c m =
      Keeps-bind _ _ (IsApart-IsCalm _ (apart.select_history c m)) (λ rows. Keeps-pure _)

  keep_reply-IsCalm :
      (u : String) (key : Option String) (t : Text) → Keeps IsCalm (keep_reply R env db u key t)
  unfolding keep_reply
  keep_reply-IsCalm u none t = Keeps-pure _
  keep_reply-IsCalm u (some k) t = set_idempotent-IsCalm R u k t 60

  increment-IsCalm : (u : String) (n : ℕ) → Keeps IsCalm (increment_quota_usage R env db u n)
  unfolding increment_quota_usage
  increment-IsCalm u n =
      Keeps-catch _ _
        (Keeps-bind _ _ date_now-IsCalm (λ now.
          Keeps-bind _ _ (IsApart-IsCalm _ (apart.increment_quota u _ n)) (λ done.
            Keeps-if done _ _ (Keeps-pure _) (IsApart-IsCalm _ (apart.upsert_quota u _ n)))))
        (λ e. Keeps-pure _)

  invalidate-IsCalm : (u : String) → Keeps IsCalm (invalidate_stats_cache R env db u)
  unfolding invalidate_stats_cache del
  invalidate-IsCalm u = Keeps-bind _ _ (is_circuit_open-IsCalm R) (λ broken.
      Keeps-if broken _ _ (Keeps-pure _) (Keeps-catch _ _ (command-IsCalm _) (λ e. Keeps-pure _)))

  reply_cached-IsCalm :
      (v : Valid) (headers : Fields) (m : String) (cached : Option Text)
      → Keeps IsCalm (reply_cached R env db v headers m cached)
  unfolding reply_cached
  reply_cached-IsCalm v headers m none = Keeps-pure _
  reply_cached-IsCalm v headers m (some answer) =
      Keeps-bind _ _
        (IsApart-IsCalm _ (apart.insert_message v.input.chat_id v.user_id assistant answer v.input))
        (λ _. Keeps-bind _ _ (keep_reply-IsCalm v.user_id v.key (cached_reply m answer)) (λ _.
          Keeps-bind _ _ (increment-IsCalm v.user_id _)
            (λ _. Keeps-bind _ _ (invalidate-IsCalm v.user_id) (λ _. Keeps-pure _))))

  pub from_cache-IsCalm :
      (v : Valid) (headers : Fields) (m : String) → Keeps IsCalm (from_cache R env db v headers m)
  unfolding from_cache
  from_cache-IsCalm v headers m =
      Keeps-catch _ _ (Keeps-bind _ _ (get_cached-IsCalm R _) (reply_cached-IsCalm v headers m))
        (λ e. Keeps-pure _)

  pub queued_content-IsCalm : (v : Valid) → Keeps IsCalm (queued_content R env db v)
  unfolding queued_content
  queued_content-IsCalm v =
      Keeps-if _ _ _
        (Keeps-catch _ _
          (Keeps-bind _ _ (IsApart-IsCalm _ (apart.recent_emails v.user_id)) (λ es. Keeps-pure _))
          (λ e. Keeps-pure _))
        (Keeps-pure _)
