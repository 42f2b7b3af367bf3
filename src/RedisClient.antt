-- ===== src/RedisClient.antt =====
-- lib/redis.ts: the client's retry strategy, the circuit breaker that its events drive, and the
-- pool of one client.
pub mod Circuit
pub mod Pool
mod Tests
use brain_mate.Common.{
  ℕ, zero, suc, ◌+◌, ◌-◌, ◌*◌, ◌/◌, ◌^◌, min, Bool, true, false, not, ◌||◌, Option, none, some,
  List, [], ◌∷◌, leb, ltb, if◌then◌else◌,
}
use brain_mate.Errors.{Error, create_api_error, internal_error, no_meta}
use brain_mate.Exec.{Breaker, Result, ok, err}

abbrev pub max_retries : ℕ
max_retries = 10

abbrev pub circuit_error_threshold : ℕ
circuit_error_threshold = 5

abbrev pub circuit_cooldown_ms : ℕ
circuit_cooldown_ms = 15000

-- `Math.min(BASE_BACKOFF_MS * Math.pow(2, times - 1), MAX_BACKOFF_MS)`, for the first attempt on
unfoldable pub backoff_base : ℕ → ℕ
backoff_base times = min (200 * 2 ^ (times - 1)) 3000

-- `retryStrategy`, where `Math.random()` is `draw / 2 ^ 53`: the product rounded to the nearest
-- number, or `null`
unfoldable pub retry_strategy : ℕ → ℕ → Option ℕ
unfolding backoff_base
retry_strategy draw times =
    if ltb max_retries times
    then none
    else some ((2 * draw * backoff_base times + 2 ^ 53) / (2 * 2 ^ 53))

-- client.on("connect")
unfoldable pub on_connect : Breaker → Breaker
on_connect b = record b { consecutive_errors = 0; total_connects = b.total_connects + 1 }

-- client.on("error"), at a time
unfoldable pub on_error : ℕ → Breaker → Breaker
on_error now b = record b {
  consecutive_errors = b.consecutive_errors + 1;
  total_errors = b.total_errors + 1;
  open_until =
      if leb circuit_error_threshold (b.consecutive_errors + 1)
      then now + circuit_cooldown_ms
      else b.open_until;
}

-- a client, by the number of its creation, and whether its status is "end"
pub record Client : Type 0 where
  pub id : ℕ
  pub ended : Bool

-- `_poolInstance` and `globalThis.__ioredis_pool__`
pub record PoolState : Type 0 where
  pub instance_slot : Option Client
  pub global_slot : Option Client
  pub created : ℕ

-- where the code runs: NODE_ENV is "production", NEXT_RUNTIME is "nodejs"
pub record Place : Type 0 where
  pub production : Bool
  pub node : Bool

-- `!client || client.status === "end"`
unfoldable pub is_gone : Option Client → Bool
is_gone none = true
is_gone (some c) = c.ended

-- the slot that is in use
unfoldable pub slot : Place → PoolState → Option Client
slot place pool = if place.production then pool.instance_slot else pool.global_slot

unfoldable pub fill : Place → Client → PoolState → PoolState
fill place c pool =
    if place.production
    then record pool { instance_slot = some c; created = pool.created + 1 }
    else record pool { global_slot = some c; created = pool.created + 1 }

-- The messages of both errors are replaced by the copy for users, so that they do not differ.
unfoldable pub edge_error : Error
edge_error =
    create_api_error internal_error "[redis] ioredis is not supported in the Edge Runtime"
      (some 500) no_meta

unfoldable pub not_initialized : Error
not_initialized = create_api_error internal_error "[redis] Pool not initialized." (some 500) no_meta

abbrev or_not_initialized : Option Client → Result Client
or_not_initialized none = err not_initialized
or_not_initialized (some c) = ok c

-- `initRedisPool`, where a new client is made if the one in use is gone
unfoldable pub init_redis_pool : Place → PoolState → Result Client × PoolState
init_redis_pool place pool =
    if is_gone (slot place pool)
    then (if place.node
        then (
          ok (record { id = pool.created; ended = false }),
          fill place (record { id = pool.created; ended = false }) pool,
        )
        else (err edge_error, pool))
    else (or_not_initialized (slot place pool), pool)

-- `getRedisPool`
unfoldable pub get_redis_pool : Place → PoolState → Result Client
get_redis_pool place pool =
    if not place.node
    then err edge_error
    else if is_gone (slot place pool)
    then err not_initialized
    else or_not_initialized (slot place pool)

-- client.on("end")
unfoldable pub on_end : PoolState → PoolState
on_end pool = record pool { instance_slot = none }

-- `a ?? b`
abbrev pub first_of : Option Client → Option Client → Option Client
first_of none b = b
first_of (some c) b = some c

-- `shutdownRedisPool`, whose QUIT or disconnect ends the client
unfoldable pub shutdown_redis_pool : Place → PoolState → PoolState
shutdown_redis_pool place pool =
    if not place.node
    then pool
    else if is_gone (first_of pool.instance_slot pool.global_slot)
    then pool
    else record pool { instance_slot = none; global_slot = none }
