-- ===== src/Redis.antt =====
-- The Redis server that lib/redis.ts connects to, as an interface: the commands that the program
-- sends, over an unknown server state, and what the documentation of Redis says of them. The
-- server and its client ioredis are not part of the repository.
--
-- The laws speak of one moment: that keys with a time to live vanish later is left to the server.
-- They say nothing of EXPIRE with a time to live of 0, which deletes the key.
pub mod Memory
use brain_mate.Common.{
  ℕ, String, ◌≡◌, ◌+◌, ◌<◌, ◌≤◌, false, ◌&&◌, Option, none, some, List, [], ◌∷◌, ◌++◌, length,
  str_eq, if◌then◌else◌, is_some, Fields, over, field,
}
use brain_mate.Types.{Text, number, same}

pub record Redis (S : Type 0) : Type 0 where
  -- sorted sets
  pub zadd : S → String → ℕ → Text → S
  pub zrem : S → String → Text → S
  pub zscore : S → String → Text → Option ℕ
  pub zcard : S → String → ℕ
  -- ZRANGEBYSCORE key -inf max LIMIT 0 count
  pub zrangebyscore : S → String → ℕ → ℕ → List Text
  -- ZRANGEBYSCORE key -inf +inf
  pub zrange_all : S → String → List Text
  -- ZREMRANGEBYSCORE key -inf (below: the scores under a bound
  pub zremrangebyscore : S → String → ℕ → S
  pub zpopmin : S → String → ℕ → List Text × S
  -- strings
  pub get : S → String → Option Text
  pub setex : S → String → ℕ → Text → S
  pub del : S → String → S
  pub incr : S → String → ℕ × S
  -- the time to live of a key: `none` is a key that never expires, or no key
  pub ttl : S → String → Option ℕ
  pub expire : S → String → ℕ → S
  -- hashes
  pub hgetall : S → String → Fields
  pub hset : S → String → Fields → S
  -- streams
  pub xadd : S → String → Text → S
  pub stream : S → String → List Text

-- The number that INCR reads: 0 for a missing key.
abbrev pub counter : Option Text → ℕ
counter (some (number n)) = n
counter _ = 0

abbrev pub IsCounter : Option Text → Type 0
IsCounter none = Unit
IsCounter (some (number n)) = Unit
IsCounter _ = ⊥

-- What the documentation says of sorted sets, one member of one key at a time.
pub record ZsetLaws {S : Type 0} (R : Redis S) : Type 0 where
  pub zscore-zadd :
      (s : S) (k : String) (n : ℕ) (m : Text) (j : String) (m' : Text)
      → R.zscore (R.zadd s k n m) j m'
        ≡ (if str_eq k j && same m m' then some n else R.zscore s j m')
  pub zscore-zrem :
      (s : S) (k : String) (m : Text) (j : String) (m' : Text)
      → R.zscore (R.zrem s k m) j m' ≡ (if str_eq k j && same m m' then none else R.zscore s j m')
  pub zscore-zremrangebyscore_ne :
      (s : S) (k : String) (n : ℕ) (j : String) (m : Text)
      → str_eq k j ≡ false
      → R.zscore (R.zremrangebyscore s k n) j m ≡ R.zscore s j m
  -- a member that is not under the bound stays
  pub zscore-zremrangebyscore_above :
      (s : S) (k : String) (n : ℕ) (j : String) (m : Text) (score : ℕ)
      → R.zscore s j m ≡ some score
      → n ≤ score
      → R.zscore (R.zremrangebyscore s k n) j m ≡ some score
  pub zscore-setex :
      (s : S) (k : String) (t : ℕ) (v : Text) (j : String) (m : Text)
      → str_eq k j ≡ false
      → R.zscore (R.setex s k t v) j m ≡ R.zscore s j m
  pub zscore-del :
      (s : S) (k j : String) (m : Text)
      → R.zscore (R.del s k) j m ≡ (if str_eq k j then none else R.zscore s j m)
  pub zscore-incr : (s : S) (k j : String) (m : Text) → R.zscore (R.incr s k).1 j m ≡ R.zscore s j m
  pub zscore-expire :
      (s : S) (k : String) (t : ℕ) (j : String) (m : Text)
      → 0 < t
      → R.zscore (R.expire s k t) j m ≡ R.zscore s j m
  pub zscore-hset :
      (s : S) (k : String) (fs : Fields) (j : String) (m : Text)
      → R.zscore (R.hset s k fs) j m ≡ R.zscore s j m

-- Strings: what GET replies after each command that the program sends.
pub record StringLaws {S : Type 0} (R : Redis S) : Type 0 where
  pub get-setex :
      (s : S) (k : String) (t : ℕ) (v : Text) (j : String)
      → R.get (R.setex s k t v) j ≡ (if str_eq k j then some v else R.get s j)
  pub get-del :
      (s : S) (k j : String) → R.get (R.del s k) j ≡ (if str_eq k j then none else R.get s j)
  pub incr_reply :
      (s : S) (k : String) → IsCounter (R.get s k) → (R.incr s k).0 ≡ counter (R.get s k) + 1
  pub get-incr_self :
      (s : S) (k : String)
      → IsCounter (R.get s k)
      → R.get (R.incr s k).1 k ≡ some (number (counter (R.get s k) + 1))
  pub get-incr_ne : (s : S) (k j : String) → str_eq k j ≡ false → R.get (R.incr s k).1 j ≡ R.get s j
  pub get-expire :
      (s : S) (k : String) (t : ℕ) (j : String) → 0 < t → R.get (R.expire s k t) j ≡ R.get s j
  pub get-zadd :
      (s : S) (k : String) (n : ℕ) (m : Text) (j : String) → R.get (R.zadd s k n m) j ≡ R.get s j
  pub get-zrem : (s : S) (k : String) (m : Text) (j : String) → R.get (R.zrem s k m) j ≡ R.get s j
  pub get-zremrangebyscore :
      (s : S) (k : String) (n : ℕ) (j : String) → R.get (R.zremrangebyscore s k n) j ≡ R.get s j
  pub get-hset :
      (s : S) (k : String) (fs : Fields) (j : String) → R.get (R.hset s k fs) j ≡ R.get s j
  pub get-xadd : (s : S) (k : String) (v : Text) (j : String) → R.get (R.xadd s k v) j ≡ R.get s j
  -- INCR leaves the time to live alone, and a new counter has none
  pub ttl-incr : (s : S) (k j : String) → R.ttl (R.incr s k).1 j ≡ R.ttl s j
  pub ttl-expire :
      (s : S) (k : String) (t : ℕ) (j : String)
      → 0 < t
      → R.ttl (R.expire s k t) j ≡ (if str_eq k j && is_some (R.get s k) then some t else R.ttl s j)
  pub ttl-setex :
      (s : S) (k : String) (t : ℕ) (v : Text) (j : String)
      → R.ttl (R.setex s k t v) j ≡ (if str_eq k j then some t else R.ttl s j)

-- Hashes and streams.
pub record HashLaws {S : Type 0} (R : Redis S) : Type 0 where
  pub hgetall-hset :
      (s : S) (k : String) (fs : Fields) (j f : String)
      → field f (R.hgetall (R.hset s k fs) j) ≡ (
          if str_eq k j
          then over (field f fs) (field f (R.hgetall s j))
          else field f (R.hgetall s j))
  pub hgetall-hset_ne :
      (s : S) (k : String) (fs : Fields) (j : String)
      → str_eq k j ≡ false
      → R.hgetall (R.hset s k fs) j ≡ R.hgetall s j
  pub hgetall-expire :
      (s : S) (k : String) (t : ℕ) (j : String)
      → 0 < t
      → R.hgetall (R.expire s k t) j ≡ R.hgetall s j
  pub hgetall-zadd :
      (s : S) (k : String) (n : ℕ) (m : Text) (j : String)
      → R.hgetall (R.zadd s k n m) j ≡ R.hgetall s j
  pub hgetall-setex :
      (s : S) (k : String) (t : ℕ) (v : Text) (j : String)
      → str_eq k j ≡ false
      → R.hgetall (R.setex s k t v) j ≡ R.hgetall s j
  pub hgetall-del :
      (s : S) (k j : String) → str_eq k j ≡ false → R.hgetall (R.del s k) j ≡ R.hgetall s j
  pub hgetall-xadd :
      (s : S) (k : String) (v : Text) (j : String) → R.hgetall (R.xadd s k v) j ≡ R.hgetall s j
  -- the entries of a stream, oldest first; XADD with MAXLEN ~ 1000 trims none of the first 1000
  pub stream-xadd :
      (s : S) (k : String) (v : Text) (j : String)
      → length (R.stream s j) < 1000
      → R.stream (R.xadd s k v) j ≡ (if str_eq k j then R.stream s j ++ v ∷ [] else R.stream s j)
  pub stream-xadd_ne :
      (s : S) (k : String) (v : Text) (j : String)
      → str_eq k j ≡ false
      → R.stream (R.xadd s k v) j ≡ R.stream s j
  pub stream-expire :
      (s : S) (k : String) (t : ℕ) (j : String) → 0 < t → R.stream (R.expire s k t) j ≡ R.stream s j
  pub stream-hset :
      (s : S) (k : String) (fs : Fields) (j : String) → R.stream (R.hset s k fs) j ≡ R.stream s j
  pub stream-setex :
      (s : S) (k : String) (t : ℕ) (v : Text) (j : String)
      → str_eq k j ≡ false
      → R.stream (R.setex s k t v) j ≡ R.stream s j
  pub stream-del :
      (s : S) (k j : String) → str_eq k j ≡ false → R.stream (R.del s k) j ≡ R.stream s j

pub record IsLawful {S : Type 0} (R : Redis S) : Type 0 where
  pub zset : ZsetLaws R
  pub strings : StringLaws R
  pub hashes : HashLaws R
