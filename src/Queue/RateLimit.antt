-- ===== src/Queue/RateLimit.antt =====
-- `checkRateLimit` of lib/writeright-queue.ts.
pub mod Window
pub mod Stuck
use brain_mate.Common.{ℕ, zero, suc, String, ◌-◌, Bool, true, if◌then◌else◌, ◌==◌, leb}
use brain_mate.Redis.{Redis}
use brain_mate.Exec.{World, Exec, pure, is_circuit_open, ◌>>=◌, ◌>>◌}
use brain_mate.Commands.{incr, expire}
use brain_mate.Queue.Keys.{rate_limit_key}

pub record Verdict : Type 0 where
  pub allowed : Bool
  pub remaining : ℕ

-- Math.max(0, max - count) is the difference that stops at 0
unfoldable pub verdict : ℕ → ℕ → Verdict
verdict max_per_minute count = record {
  allowed = leb count max_per_minute;
  remaining = max_per_minute - count;
}

module _ {S : Type 0} (R : Redis S) where
  unfoldable pub check_rate_limit : String → ℕ → Exec S Verdict
  check_rate_limit user_id max_per_minute = do
    broken ← is_circuit_open
    if broken then pure (record { allowed = true; remaining = max_per_minute }) else do
      count ← incr R (rate_limit_key user_id)
      if count == 1 then expire R (rate_limit_key user_id) 60 else pure tt
      pure (verdict max_per_minute count)

  -- the world after `n` checks of one user, one after the other
  unfoldable pub after_checks : String → ℕ → ℕ → World S → World S
  after_checks user_id max_per_minute zero w = w
  after_checks user_id max_per_minute (suc n) w =
      after_checks user_id max_per_minute n (check_rate_limit user_id max_per_minute w).1
