-- ===== src/Commands.antt =====
-- The commands of lib/redis.ts's client (`getRedisPool()`), as actions.
pub mod OneKey
use brain_mate.Common.{ℕ, String, Bool, true, false, not, Option, List, take, is_some, Fields}
use brain_mate.Types.{Text}
use brain_mate.Redis.{Redis}
use brain_mate.Exec.{Exec, command, catch, pure}

module _ {S : Type 0} (R : Redis S) where
  unfoldable pub zadd : String → ℕ → Text → Exec S (Unit {0})
  unfolding command
  zadd k n m = command (λ s. (tt, R.zadd s k n m))

  -- whether the member was there
  unfoldable pub zrem : String → Text → Exec S Bool
  unfolding command
  zrem k m = command (λ s. (is_some (R.zscore s k m), R.zrem s k m))

  unfoldable pub zcard : String → Exec S ℕ
  unfolding command
  zcard k = command (λ s. (R.zcard s k, s))

  unfoldable pub zrangebyscore : String → ℕ → ℕ → Exec S (List Text)
  unfolding command
  zrangebyscore k top count = command (λ s. (R.zrangebyscore s k top count, s))

  unfoldable pub zrange_all : String → Exec S (List Text)
  unfolding command
  zrange_all k = command (λ s. (R.zrange_all s k, s))

  unfoldable pub zremrangebyscore : String → ℕ → Exec S (Unit {0})
  unfolding command
  zremrangebyscore k below = command (λ s. (tt, R.zremrangebyscore s k below))

  unfoldable pub zpopmin : String → ℕ → Exec S (List Text)
  unfolding command
  zpopmin k count = command (λ s. R.zpopmin s k count)

  unfoldable pub get : String → Exec S (Option Text)
  unfolding command
  get k = command (λ s. (R.get s k, s))

  unfoldable pub exists : String → Exec S Bool
  unfolding command
  exists k = command (λ s. (is_some (R.get s k), s))

  unfoldable pub setex : String → ℕ → Text → Exec S (Unit {0})
  unfolding command
  setex k t v = command (λ s. (tt, R.setex s k t v))

  -- SET key value EX seconds NX: whether the reply is "OK"
  unfoldable pub claim : Bool → S → String → ℕ → Text → Bool × S
  claim true s k t v = (false, s)
  claim false s k t v = (true, R.setex s k t v)

  unfoldable pub set_nx : String → ℕ → Text → Exec S Bool
  unfolding command
  set_nx k t v = command (λ s. claim (is_some (R.get s k)) s k t v)

  unfoldable pub del : String → Exec S (Unit {0})
  unfolding command
  del k = command (λ s. (tt, R.del s k))

  unfoldable pub incr : String → Exec S ℕ
  unfolding command
  incr k = command (λ s. R.incr s k)

  unfoldable pub expire : String → ℕ → Exec S (Unit {0})
  unfolding command
  expire k t = command (λ s. (tt, R.expire s k t))

  unfoldable pub hgetall : String → Exec S Fields
  unfolding command
  hgetall k = command (λ s. (R.hgetall s k, s))

  unfoldable pub hset : String → Fields → Exec S (Unit {0})
  unfolding command
  hset k fs = command (λ s. (tt, R.hset s k fs))

  unfoldable pub xadd : String → Text → Exec S (Unit {0})
  unfolding command
  xadd k v = command (λ s. (tt, R.xadd s k v))

  -- XRANGE key - + COUNT n: the oldest entries
  unfoldable pub xrange : String → ℕ → Exec S (List Text)
  unfolding command
  xrange k n = command (λ s. (take n (R.stream s k), s))

module _ {S : Type 0} where
  -- `pipeline.exec()` of a batch that is sent at once. Its promise resolves whatever becomes of the
  -- batch: the failures stand in the array of replies, which no caller reads.
  unfoldable pub batch : (S → S) → Exec S (Unit {0})
  unfolding command
  batch f = catch (command (λ s. (tt, f s))) (λ _. pure tt)
