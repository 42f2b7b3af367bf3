-- ===== src/RedisClient/Pool.antt =====
-- The pool of lib/redis.ts over its life.
use brain_mate.Common.{◌≡◌, true, some, arith}
use brain_mate.Exec.{err}
use brain_mate.RedisClient.{
  Client, PoolState, Place, is_gone, slot, fill, not_initialized, init_redis_pool, get_redis_pool,
  shutdown_redis_pool,
}

-- On Node.js: after `initRedisPool`, `getRedisPool` returns the client that was returned, and so
-- does another `initRedisPool`, which creates none.
pub init_then_get :
    (place : Place) (pool : PoolState)
    → place.node ≡ true
    → (get_redis_pool place (init_redis_pool place pool).1 ≡ (init_redis_pool place pool).0)
      × (init_redis_pool place (init_redis_pool place pool).1 ≡ init_redis_pool place pool)
unfolding init_redis_pool get_redis_pool is_gone slot fill
init_then_get place pool h = ground arith

-- On Node.js: after `shutdownRedisPool` of a client that is in use in production,
-- `getRedisPool` throws until the pool is initialized again.
pub shutdown_then_get :
    (place : Place) (pool : PoolState) (c : Client)
    → place.node ≡ true
    → place.production ≡ true
    → pool.instance_slot ≡ some c
    → (get_redis_pool place (shutdown_redis_pool place pool) ≡ err not_initialized)
unfolding shutdown_redis_pool get_redis_pool is_gone slot
shutdown_then_get place pool c n p h = ground arith
