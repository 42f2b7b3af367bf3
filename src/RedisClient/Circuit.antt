-- ===== src/RedisClient/Circuit.antt =====
-- The circuit and the retry strategy of lib/redis.ts.
use native.Mathlib.Nat.{mul-le-mul_right}
use brain_mate.Common.{
  ℕ, ◌≡◌, refl, ◌+◌, ◌*◌, ◌/◌, ◌^◌, ◌≤◌, ◌<◌, none, some, List, [], ◌∷◌, length, leb, ltb,
  if◌then◌else◌, arith, ◌⊎◌, inl, inr, Bool-cases, ltb→lt,
}
use brain_mate.Exec.{Breaker}
use brain_mate.RedisClient.{
  max_retries, circuit_error_threshold, backoff_base, retry_strategy, on_connect, on_error,
}

-- errors at these times, one after the other
pub fail_at : List ℕ → Breaker → Breaker
fail_at [] b = b
fail_at (t ∷ ts) b = fail_at ts (on_error t b)

consecutive-fail_at :
    (ts : List ℕ) (b : Breaker)
    → (fail_at ts b).consecutive_errors ≡ b.consecutive_errors + length ts
unfolding fail_at on_error
consecutive-fail_at [] b = omega arith
consecutive-fail_at (t ∷ ts) b = ground (arith, consecutive-fail_at ts (on_error t b))

stays_shut :
    (ts : List ℕ) (b : Breaker)
    → b.consecutive_errors + length ts < circuit_error_threshold
    → (fail_at ts b).open_until ≡ b.open_until
unfolding fail_at on_error
stays_shut [] b h = refl
stays_shut (t ∷ ts) b h = ground (arith, stays_shut ts (on_error t b))

-- After a connection, fewer than five errors leave the circuit as it was, and from the fifth
-- without a connection in between on, each opens it until 15 seconds after that error.
pub circuit_opens :
    (ts : List ℕ) (t : ℕ) (b : Breaker)
    → (on_error t (fail_at ts (on_connect b))).open_until
      ≡ (if leb circuit_error_threshold (length ts + 1) then t + 15000 else b.open_until)
unfolding on_error on_connect
circuit_opens ts t b =
    ground (arith, consecutive-fail_at ts (on_connect b), stays_shut ts (on_connect b))

rounded : (draw base : ℕ) → draw < 2 ^ 53 → (2 * draw * base + 2 ^ 53) / (2 * 2 ^ 53) ≤ base
rounded draw base h =
    let below : 2 * draw ≤ 2 * 2 ^ 53 = omega arith in omega (arith, mul-le-mul_right base below)

-- The client reconnects at most ten times. Then the strategy gives up; up to then it waits at most
-- the doubled base delay, which is at most three seconds. `draw / 2 ^ 53` is the random number.
pub retry_bounded :
    (draw times : ℕ)
    → draw < 2 ^ 53
    → ((max_retries < times) × (retry_strategy draw times ≡ none))
      ⊎ ((times ≤ max_retries)
          × ((d : ℕ) × ((retry_strategy draw times ≡ some d)
                × ((d ≤ backoff_base times) × (d ≤ 3000)))))
unfolding retry_strategy backoff_base
retry_bounded draw times h = elim (Bool-cases (ltb max_retries times)) [
  | inl out ↦ inl (ltb→lt _ _ out, rw out refl)
  | inr more ↦
      let small = rounded draw (backoff_base times) h in
      inr (ground (arith, more), (_, (rw more refl, (small, omega arith))))
]
