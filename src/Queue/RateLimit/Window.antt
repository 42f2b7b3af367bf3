-- ===== src/Queue/RateLimit/Window.antt =====
-- `checkRateLimit` of lib/writeright-queue.ts within one window.
use brain_mate.Common.{
  ℕ, zero, suc, String, ◌≡◌, refl, ◌+◌, ◌-◌, ◌≤◌, ◌<◌, ap, ◌∙◌, true, none, some, [], arith, ◌↔◌,
}
use brain_mate.Types.{number}
use brain_mate.Redis.{Redis, IsLawful, counter, IsCounter}
use brain_mate.Exec.{World, ok, command, date_now, is_circuit_open}
use brain_mate.Commands.{incr, expire}
use brain_mate.Queue.Keys.{rate_limit_key}
use brain_mate.Queue.RateLimit.{Verdict, verdict, check_rate_limit, after_checks}

module _ {S : Type 0} (R : Redis S) (laws : IsLawful R) (user_id : String)
    (max_per_minute : ℕ) where
  -- the circuit is closed, the commands are answered, and the key holds this count
  pub record Counting (n : ℕ) (w : World S) : Type 0 where
    pub calm : w.wire ≡ []
    pub still : w.ticks ≡ []
    pub closed : w.breaker.open_until ≤ w.clock
    pub numeric : IsCounter (R.get w.redis (rate_limit_key user_id))
    pub count : counter (R.get w.redis (rate_limit_key user_id)) ≡ n

  check_state :
      (w : World S)
      → w.wire ≡ []
      → w.ticks ≡ []
      → w.breaker.open_until ≤ w.clock
      → IsCounter (R.get w.redis (rate_limit_key user_id))
      → ((check_rate_limit R user_id max_per_minute w).0
          ≡ ok (verdict max_per_minute (counter (R.get w.redis (rate_limit_key user_id)) + 1)))
        × (((check_rate_limit R user_id max_per_minute w).1.wire ≡ [])
            × (((check_rate_limit R user_id max_per_minute w).1.ticks ≡ [])
                × (((check_rate_limit R user_id max_per_minute w).1.clock ≡ w.clock)
                    × (((check_rate_limit R user_id max_per_minute w).1.breaker ≡ w.breaker)
                        × (R.get
                              (check_rate_limit R user_id max_per_minute w).1.redis
                              (rate_limit_key user_id)
                            ≡ some
                                (number (counter (R.get w.redis (rate_limit_key user_id)) + 1)))))))
  unfolding check_rate_limit incr expire command date_now is_circuit_open
  check_state w h t b c = ground (
    arith,
    laws.strings.incr_reply w.redis (rate_limit_key user_id) c,
    laws.strings.get-incr_self w.redis (rate_limit_key user_id) c,
    laws.strings.get-expire (R.incr w.redis (rate_limit_key user_id)).1 (rate_limit_key user_id) 60
        (rate_limit_key user_id) (omega arith),
  )

  check-Counting :
      (n : ℕ) (w : World S)
      → Counting n w
      → Counting (n + 1) (check_rate_limit R user_id max_per_minute w).1
  check-Counting n w p =
      let (returns, (calm, (still, (clock, (breaker, key))))) =
        check_state w p.calm p.still p.closed p.numeric in
      record {
        calm = calm;
        still = still;
        closed = rw (clock, breaker) p.closed;
        numeric = rw key tt;
        count = rw key (ap (λ x. x + 1) p.count);
      }

  nth_verdict :
      (k n : ℕ) (w : World S)
      → Counting k w
      → (check_rate_limit R user_id max_per_minute (after_checks R user_id max_per_minute n w)).0
        ≡ ok (verdict max_per_minute (k + n + 1))
  unfolding after_checks
  nth_verdict k zero w p =
      (check_state w p.calm p.still p.closed p.numeric).0
      ∙ ap (λ x. ok (verdict max_per_minute x)) (omega (arith, p.count))
  nth_verdict k (suc n) w p =
      nth_verdict (k + 1) n (check_rate_limit R user_id max_per_minute w).1 (check-Counting k w p)
      ∙ ap (λ x. ok (verdict max_per_minute x)) (omega arith)

  Counting-new :
      (w : World S)
      → w.wire ≡ []
      → w.ticks ≡ []
      → w.breaker.open_until ≤ w.clock
      → R.get w.redis (rate_limit_key user_id) ≡ none
      → Counting 0 w
  Counting-new w h t b k = record {
    calm = h;
    still = t;
    closed = b;
    numeric = rw k tt;
    count = rw k refl;
  }

  verdict_iff : (n : ℕ) → ((verdict max_per_minute (n + 1)).allowed ≡ true) ↔ (n < max_per_minute)
  unfolding verdict
  verdict_iff n = ground arith

  -- While the counter of a window lives, a user's checks are admitted up to the maximum, and none
  -- after it: the check after `n` others returns, it is admitted just if `n` is under the maximum,
  -- and `remaining` is what the maximum leaves after it. The conditions are that the circuit is
  -- closed, that the commands are answered, that the clock stands still and that the user has no
  -- counter at the start.
  pub admits_first :
      (n : ℕ) (w : World S)
      → w.wire ≡ []
      → w.ticks ≡ []
      → w.breaker.open_until ≤ w.clock
      → R.get w.redis (rate_limit_key user_id) ≡ none
      → (v : Verdict) × (((check_rate_limit R user_id max_per_minute
              (after_checks R user_id max_per_minute n w)).0
            ≡ ok v)
          × (((v.allowed ≡ true) ↔ (n < max_per_minute))
              × (v.remaining ≡ max_per_minute - (n + 1))))
  unfolding verdict
  admits_first n w h t b k = (
    verdict max_per_minute (n + 1),
    (
      nth_verdict 0 n w (Counting-new w h t b k)
          ∙ ap (λ x. ok (verdict max_per_minute x)) (omega arith),
      (verdict_iff n, refl),
    ),
  )
