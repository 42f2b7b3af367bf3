-- ===== src/Queue/RateLimit/Stuck.antt =====
-- `checkRateLimit` of lib/writeright-queue.ts where its EXPIRE is lost.
use brain_mate.Common.{
  ℕ, zero, suc, String, ◌≡◌, ◌≤◌, ◌∙◌, none, List, [], ◌∷◌, arith, ◌⊎◌, inl, inr,
}
use brain_mate.Errors.{failure}
use brain_mate.Redis.{Redis, IsLawful, counter, IsCounter}
use brain_mate.Exec.{World, err, Wire, fine, lost, command, date_now, is_circuit_open}
use brain_mate.Commands.{incr, expire}
use brain_mate.Queue.Keys.{rate_limit_key}
use brain_mate.Queue.RateLimit.{check_rate_limit, after_checks}

module _ {S : Type 0} (R : Redis S) (laws : IsLawful R) (user_id : String)
    (max_per_minute : ℕ) where
  -- the counter has begun, and never expires
  record Stuck (s : S) : Type 0 where
    pub numeric : IsCounter (R.get s (rate_limit_key user_id))
    pub begun : 1 ≤ counter (R.get s (rate_limit_key user_id))
    pub immortal : R.ttl s (rate_limit_key user_id) ≡ none

  incr-Stuck :
      (s : S)
      → IsCounter (R.get s (rate_limit_key user_id))
      → R.ttl s (rate_limit_key user_id) ≡ none
      → Stuck (R.incr s (rate_limit_key user_id)).1
  incr-Stuck s c t = record {
    numeric = rw (laws.strings.get-incr_self s _ c) tt;
    begun = rw (laws.strings.get-incr_self s _ c) (omega arith);
    immortal = laws.strings.ttl-incr s _ _ ∙ t;
  }

  -- whatever Redis answers, a check of a counter that has begun does nothing but INCR
  check_begun :
      (w : World S)
      → IsCounter (R.get w.redis (rate_limit_key user_id))
      → 1 ≤ counter (R.get w.redis (rate_limit_key user_id))
      → ((check_rate_limit R user_id max_per_minute w).1.redis ≡ w.redis)
        ⊎ ((check_rate_limit R user_id max_per_minute w).1.redis
            ≡ (R.incr w.redis (rate_limit_key user_id)).1)
  unfolding check_rate_limit incr expire command date_now is_circuit_open
  check_begun w c b = ground (arith, laws.strings.incr_reply w.redis (rate_limit_key user_id) c)

  check-Stuck :
      (w : World S) → Stuck w.redis → Stuck (check_rate_limit R user_id max_per_minute w).1.redis
  check-Stuck w p = elim (check_begun w p.numeric p.begun) [
    | inl e ↦ rw e p
    | inr e ↦ rw e (incr-Stuck w.redis p.numeric p.immortal)
  ]

  after_checks-Stuck :
      (n : ℕ) (w : World S)
      → Stuck w.redis
      → Stuck (after_checks R user_id max_per_minute n w).redis
  unfolding after_checks
  after_checks-Stuck zero w p = p
  after_checks-Stuck (suc n) w p = after_checks-Stuck n _ (check-Stuck w p)

  first_check :
      (w : World S) (m : String) (ws : List Wire)
      → w.ticks ≡ []
      → w.breaker.open_until ≤ w.clock
      → w.wire ≡ fine ∷ lost m ∷ ws
      → R.get w.redis (rate_limit_key user_id) ≡ none
      → ((check_rate_limit R user_id max_per_minute w).0 ≡ err (failure m))
        × ((check_rate_limit R user_id max_per_minute w).1.redis
            ≡ (R.incr w.redis (rate_limit_key user_id)).1)
  unfolding check_rate_limit incr expire command date_now is_circuit_open
  first_check w m ws t b h k =
      ground (arith, laws.strings.incr_reply w.redis (rate_limit_key user_id))

  -- The first check of a window whose EXPIRE is lost throws, and the counter that it leaves has no
  -- time to live: neither then nor after any number of further checks of the user, whatever Redis
  -- answers them, so that the count never starts anew. The conditions are that the circuit is
  -- closed, that the clock stands still, that the INCR of the first check is answered, and that the
  -- user has no counter yet.
  pub lost_expire :
      (w : World S) (m : String) (ws : List Wire) (n : ℕ)
      → w.ticks ≡ []
      → w.breaker.open_until ≤ w.clock
      → w.wire ≡ fine ∷ lost m ∷ ws
      → R.get w.redis (rate_limit_key user_id) ≡ none
      → R.ttl w.redis (rate_limit_key user_id) ≡ none
      → ((check_rate_limit R user_id max_per_minute w).0 ≡ err (failure m))
        × (R.ttl (after_checks R user_id max_per_minute (suc n) w).redis (rate_limit_key user_id)
            ≡ none)
  unfolding after_checks
  lost_expire w m ws n t b h k none_yet =
      let (throws, state) = first_check w m ws t b h k in
      (throws, (after_checks-Stuck n _ (rw state (incr-Stuck w.redis (rw k tt) none_yet))).immortal)
