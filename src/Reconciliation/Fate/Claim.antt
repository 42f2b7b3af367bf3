-- ===== src/Reconciliation/Fate/Claim.antt =====
-- The claim of an entry in `processPendingOperations` of lib/reconciliation-worker.ts.
use brain_mate.Common.{ℕ, String, ◌≡◌, refl, ap, ◌∙◌, true, none, some, List, [], ◌<>◌, decimal}
use brain_mate.Types.{Text, entry, QueueEntry, plain}
use brain_mate.Redis.{Redis, IsLawful}
use brain_mate.Exec.{World, Result, ok, date_now, command, deliver}
use brain_mate.Exec.Keeps.{IsCalm, resume_ok, date_now_reply}
use brain_mate.Commands.{zrem, set_nx, claim}
use brain_mate.Reconciliation.Keys.{worker_lock_ttl_secs, pending_queue, lock_key}
use brain_mate.Reconciliation.Worker.{next_attempt, attempt, process_entry}
use brain_mate.Reconciliation.Fate.Outcomes.{key_apart_pending}

module _ {S : Type 0} (R : Redis S) where
  -- the world in which the attempt at an entry begins: the lock is taken, and the entry is out of
  -- the queue
  abbrev pub claimed : String → QueueEntry → World S → World S
  claimed owner e w =
      let w1 = (date_now w).1 in
      record w1 {
        redis =
            R.zrem
              (R.setex w1.redis (lock_key e.id) worker_lock_ttl_secs
                (plain (owner <> (":" <> decimal w1.clock))))
              pending_queue (entry e);
      }

module _ {S : Type 0} (R : Redis S) (laws : IsLawful R) where
  set_nx_free :
      (k : String) (t : ℕ) (v : Text) (w : World S)
      → IsCalm w
      → R.get w.redis k ≡ none
      → set_nx R k t v w ≡ (ok true, record w { redis = R.setex w.redis k t v })
  unfolding set_nx claim command
  set_nx_free k t v w p h = rw (p.calm, h, deliver) refl

  zrem_there :
      (k : String) (m : Text) (n : ℕ) (w : World S)
      → IsCalm w
      → R.zscore w.redis k m ≡ some n
      → zrem R k m w ≡ (ok true, record w { redis = R.zrem w.redis k m })
  unfolding zrem command
  zrem_there k m n w p h = rw (p.calm, h, deliver) refl

  -- the lock is free and the entry is there, so that the attempt is made
  pub claim_steps :
      (owner : String) (tokens : Result (List String)) (now n : ℕ) (e : QueueEntry) (w : World S)
      → IsCalm w
      → R.get w.redis (lock_key e.id) ≡ none
      → R.zscore w.redis pending_queue (entry e) ≡ some n
      → IsCalm (claimed R owner e w)
        × (process_entry R owner tokens now (entry e) w
            ≡ attempt R tokens now (next_attempt e) (claimed R owner e w))
  unfolding process_entry
  claim_steps owner tokens now n e w p free there =
      let (reply, state, wire) = date_now_reply w in
      let w1 : World S = (date_now w).1 in
      let v : Text = plain (owner <> (":" <> decimal w1.clock)) in
      let w2 : World S = record w1 {
        redis = R.setex w1.redis (lock_key e.id) worker_lock_ttl_secs v;
      } in
      let calm : w1.wire ≡ [] = wire ∙ p.calm in
      let set =
        set_nx_free (lock_key e.id) worker_lock_ttl_secs v w1 (record { calm = calm })
          (rw state free) in
      let still_there : R.zscore w2.redis pending_queue (entry e) ≡ some n =
        rw (laws.zset.zscore-setex _ _ _ _ _ _ (key_apart_pending e.id), state) there in
      (
        record { calm = calm },
        resume_ok (date_now w) w1.clock _ reply
            ∙ resume_ok (set_nx R (lock_key e.id) worker_lock_ttl_secs v w1) true _
                (ap (λ x. x.0) set)
            ∙ rw (set, zrem_there pending_queue (entry e) n w2 (record { calm = calm }) still_there)
                refl,
      )
