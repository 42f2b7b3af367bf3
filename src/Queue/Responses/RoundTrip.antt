-- ===== src/Queue/Responses/RoundTrip.antt =====
-- What is read of a job's result, of the response cache and of the idempotent responses after they
-- were written.
use brain_mate.Common.{
  ℕ, String, ◌≡◌, refl, ◌∙◌, ◌≤◌, ◌<◌, Bool, true, false, some, List, [], ◌∷◌, ◌++◌, take, length,
  arith, eq_refl, if◌then◌else◌, ◌==◌,
}
use brain_mate.Types.{Text, result, AiJobResult}
use brain_mate.Redis.{Redis, IsLawful}
use brain_mate.Exec.{World, ok, command, date_now, is_circuit_open}
use brain_mate.Commands.{xadd, xrange, expire, get, setex}
use brain_mate.Queue.Keys.{job_result_key, cache_key, idempotency_key}
use brain_mate.Queue.Jobs.{parse_json}
use brain_mate.Queue.Responses.{
  first_result, parse_cached, publish_job_result, read_job_result, cache_ai_response,
  get_cached_ai_response, get_idempotent_response, set_idempotent_response,
}

if_ok : {A : Type 0} (b : Bool) (x y : A) → ok (if b then x else y) ≡ (if b then ok x else ok y)
if_ok true x y = refl
if_ok false x y = refl

module _ {S : Type 0} (R : Redis S) (laws : IsLawful R) where
  -- A cached response is found: with a closed circuit, answered commands and a clock that stands
  -- still, `getCachedAIResponse` after `cacheAIResponse` of the same hash returns the response.
  pub cache_then_get :
      (hash : String) (v : AiJobResult) (ttl : ℕ) (w : World S)
      → w.wire ≡ []
      → w.ticks ≡ []
      → w.breaker.open_until ≤ w.clock
      → (get_cached_ai_response R hash (cache_ai_response R hash v ttl w).1).0
        ≡ ok (some (result v))
  unfolding cache_ai_response get_cached_ai_response parse_cached parse_json get setex command
      date_now is_circuit_open
  cache_then_get hash v ttl w h t b = ground (
    arith,
    laws.strings.get-setex w.redis (cache_key hash) ttl (result v) (cache_key hash),
    eq_refl (cache_key hash),
  )

  -- A response that was kept for a request is found by the user's repeated request, if it is JSON,
  -- under the conditions of `cache_then_get`.
  pub respond_then_get :
      (user_id request_key : String) (response : Text) (ttl : ℕ) (w : World S)
      → w.wire ≡ []
      → w.ticks ≡ []
      → w.breaker.open_until ≤ w.clock
      → parse_json response ≡ some response
      → (get_idempotent_response R user_id request_key
          (set_idempotent_response R user_id request_key response ttl w).1).0
        ≡ ok (some response)
  unfolding set_idempotent_response get_idempotent_response parse_cached get setex command date_now
      is_circuit_open
  respond_then_get user_id request_key response ttl w h t b p = ground (
    arith,
    laws.strings.get-setex w.redis (idempotency_key user_id request_key) ttl response
        (idempotency_key user_id request_key),
    eq_refl (idempotency_key user_id request_key),
  )

  publish_state :
      (id : String) (v : AiJobResult) (w : World S)
      → w.wire ≡ []
      → publish_job_result R id v w ≡ (
        ok tt,
        record w {
          redis = R.expire (R.xadd w.redis (job_result_key id) (result v)) (job_result_key id) 3600;
        },
      )
  unfolding publish_job_result xadd expire command
  publish_state id v w h = ground arith

  read_job_result_lem :
      (id : String) (w : World S)
      → w.wire ≡ []
      → w.ticks ≡ []
      → w.breaker.open_until ≤ w.clock
      → (read_job_result R id w).0
        ≡ ok (first_result (take 1 (R.stream w.redis (job_result_key id))))
  unfolding read_job_result xrange command date_now is_circuit_open
  read_job_result_lem id w h t b = ground arith

  first-append :
      (ts : List Text) (v : AiJobResult)
      → first_result (take 1 (ts ++ result v ∷ []))
        ≡ (if length ts == 0 then some (result v) else first_result (take 1 ts))
  unfolding first_result parse_json
  first-append [] v = refl
  first-append (u ∷ ts) v = ground arith

  -- After a result was published, `readJobResult` returns the oldest entry of the job's stream:
  -- the result that was published if the stream was empty, and else what it returned before. The
  -- conditions are a closed circuit, answered commands, a clock that stands still, and a stream of
  -- less than 1000 entries.
  pub publish_then_read :
      (id : String) (v : AiJobResult) (w : World S)
      → w.wire ≡ []
      → w.ticks ≡ []
      → w.breaker.open_until ≤ w.clock
      → length (R.stream w.redis (job_result_key id)) < 1000
      → (read_job_result R id (publish_job_result R id v w).1).0 ≡ (
          if length (R.stream w.redis (job_result_key id)) == 0
          then ok (some (result v))
          else (read_job_result R id w).0)
  publish_then_read id v w h t b room =
      let after = publish_state id v w h in
      rw (after) (
        read_job_result_lem id _ h t b
        ∙ rw
            (
              laws.hashes.stream-expire _ _ 3600 _ (omega arith),
              laws.hashes.stream-xadd _ _ _ _ room,
              eq_refl,
              first-append,
              read_job_result_lem id w h t b,
            )
            (if_ok _ _ _))
