-- ===== src/RedisClient/Tests.antt =====
-- lib/redis.ts on concrete values.
use brain_mate.Common.{
  ℕ, ◌≡◌, refl, ◌+◌, ◌^◌, true, false, none, some, [], ◌∷◌, length, leb, if◌then◌else◌,
}
use brain_mate.Exec.{Breaker}
use brain_mate.RedisClient.{
  Client, PoolState, Place, circuit_error_threshold, retry_strategy, on_connect, on_error,
}
use brain_mate.RedisClient.Circuit.{fail_at, circuit_opens}

abbrev breaker : Breaker
breaker = record { consecutive_errors = 3; open_until = 7; total_errors = 9; total_connects = 1 }

circuit_opens_example :
    (on_error 500 (fail_at (100 ∷ 200 ∷ 300 ∷ 400 ∷ []) (on_connect breaker))).open_until ≡ (
      if leb circuit_error_threshold (length {A = ℕ} (100 ∷ 200 ∷ 300 ∷ 400 ∷ []) + 1)
      then 500 + 15000
      else breaker.open_until)
circuit_opens_example = circuit_opens (100 ∷ 200 ∷ 300 ∷ 400 ∷ []) 500 breaker

-- half of 1600 ms
retry_test : retry_strategy (2 ^ 52) 4 ≡ some 800
unfolding retry_strategy
retry_test = refl

abbrev server : Place
server = record { production = true; node = true }

abbrev blank : PoolState
blank = record { instance_slot = none; global_slot = none; created = 0 }

abbrev client : Client
client = record { id = 0; ended = false }

abbrev running : PoolState
running = record { instance_slot = some client; global_slot = none; created = 1 }
