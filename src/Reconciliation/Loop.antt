-- ===== src/Reconciliation/Loop.antt =====
-- `startWorker` and `getQueueStats` of lib/reconciliation-worker.ts.
use brain_mate.Common.{
  ℕ, zero, suc, String, ◌+◌, Bool, Option, none, some, List, length, if◌then◌else◌,
}
use brain_mate.Redis.{Redis}
use brain_mate.Exec.{Exec, Result, ok, pure, catch, redis_pool, ◌>>=◌, ◌>>◌}
use brain_mate.Commands.{zrange_all}
use brain_mate.Reconciliation.Keys.{pending_queue, dlq_queue}
use brain_mate.Reconciliation.Worker.{process_pending_operations}

abbrev pub poll_interval_ms : ℕ
poll_interval_ms = 5000

pub record QueueStats : Type 0 where
  pub pending : ℕ
  pub dlq : ℕ

abbrev pub stats_from : Option ℕ → Option ℕ → Option QueueStats
stats_from (some p) (some d) = some (record { pending = p; dlq = d })
stats_from _ _ = none

module _ {S : Type 0} where
  unfoldable pub pause : Exec S (Unit {0})
  pause w = (ok tt, record w { clock = w.clock + poll_interval_ms })

module _ {S : Type 0} (R : Redis S) where
  unfoldable pub worker_round : String → Result (List String) → Exec S (Unit {0})
  worker_round owner tokens = do
    catch (process_pending_operations R owner tokens) (λ _. pure 0)
    pause

  -- the rounds until a signal asks for the shutdown
  unfoldable pub worker_rounds : ℕ → String → Result (List String) → Exec S (Unit {0})
  worker_rounds zero owner tokens = pure tt
  worker_rounds (suc n) owner tokens = do worker_round owner tokens; worker_rounds n owner tokens

  -- `nodejs` is whether NEXT_RUNTIME is "nodejs"; the signal comes after `n` rounds.
  unfoldable pub start_worker : Bool → ℕ → String → Result (List String) → Exec S (Unit {0})
  start_worker nodejs n owner tokens = if nodejs then worker_rounds n owner tokens else pure tt

  -- one of the two commands of `Promise.all`, which are both sent
  unfoldable pub count_members : String → Exec S (Option ℕ)
  count_members key =
      catch (do members ← zrange_all R key; pure (some (length members))) (λ _. pure none)

  unfoldable pub get_queue_stats : Exec S (Option QueueStats)
  get_queue_stats = do
    redis_pool
    pending ← count_members pending_queue
    dlq ← count_members dlq_queue
    pure (stats_from pending dlq)
