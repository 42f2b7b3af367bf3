-- ===== src/Reconciliation/Lifecycle.antt =====
-- The life of a queued operation in lib/reconciliation-worker.ts, as a diagram of its phases, and
-- the worker's rounds as steps of it.
mod Tests
use brain_mate.Common.{◌*◌, ◌^◌}
use brain_mate.Errors.{Error, message_of}
use brain_mate.Exec.{err}
use brain_mate.Reconciliation.Fate.Claim.{claimed}
use brain_mate.Reconciliation.Operation.{execute_operation}
use brain_mate.Common.{
  ℕ, zero, suc, String, ◌≡◌, ◌≢◌, refl, sym, ◌∙◌, ap, ◌+◌, ◌≤◌, ◌<◌, ◌⊎◌, inl, inr, Bool, false,
  true, Option, none, some, List, arith,
}
use brain_mate.Types.{QueueEntry, entry}
use brain_mate.Redis.{Redis, IsLawful}
use brain_mate.Exec.{World, Result, ok}
use brain_mate.Exec.Keeps.{IsCalm}
use brain_mate.Reconciliation.Keys.{pending_queue, dlq_queue, idem_key, lock_key, dlq_retention_ms}
use brain_mate.Reconciliation.Worker.{retry_delay, next_attempt, with_error, process_entry}
use brain_mate.Reconciliation.Fate.{Fate, done, retried, dead, process_entry-Fate}

-- waiting in the queue after this many attempts, done, or in the dead-letter queue
pub data Phase : Type 0 where
  waiting : ℕ → Phase
  finished : Phase
  dead_lettered : Phase

-- What one attempt does to an operation with at most `most` attempts.
pub data Step (most : ℕ) : Phase → Phase → Type 0 where
  succeeds : (k : ℕ) → Step most (waiting k) finished
  fails : (k : ℕ) → k + 1 < most → Step most (waiting k) (waiting (k + 1))
  gives_up : (k : ℕ) → most ≤ k + 1 → Step most (waiting k) dead_lettered

pub data Steps (most : ℕ) : ℕ → Phase → Phase → Type 0 where
  stay : {p : Phase} → Steps most 0 p p
  onwards : {n : ℕ} {p q r : Phase} → Steps most n p q → Step most q r → Steps most (suc n) p r

abbrev pub IsSettled : Phase → Type 0
IsSettled (waiting k) = ⊥
IsSettled finished = Unit
IsSettled dead_lettered = Unit

-- a step settles the operation, or leaves it a later attempt
Step-settles : {most k : ℕ} {p : Phase} → Step most (waiting k) p → IsSettled p ⊎ (k + 1 < most)
Step-settles (succeeds k) = inl tt
Step-settles (fails k h) = inr h
Step-settles (gives_up k h) = inl tt

module _ {S : Type 0} (R : Redis S) (now : ℕ) where
  -- the entry `e` after an attempt that threw
  abbrev pub after_error : QueueEntry → Error → QueueEntry
  after_error e error = with_error (message_of error) (next_attempt e)

  -- What the client of the queue sees in a phase that a round at the entry `e` leads to, by the
  -- outcome of the operation.
  abbrev pub Shows : QueueEntry → Phase → Result (Unit {0}) → World S → Type 0
  Shows e (waiting k) (ok u) w = ⊥
  Shows e (waiting k) (err error) w =
      (k ≡ e.attempt + 1)
      × ((R.get w.redis (lock_key e.id) ≡ none)
          × (R.zscore w.redis pending_queue (entry (after_error e error))
              ≡ some (w.clock + 1000 * 2 ^ e.attempt)))
  Shows e finished (ok u) w =
      (R.get w.redis (idem_key e.id) ≡ none) × (R.get w.redis (lock_key e.id) ≡ none)
  Shows e finished (err error) w = ⊥
  Shows e dead_lettered (ok u) w = ⊥
  Shows e dead_lettered (err error) w =
      ((R.zscore w.redis dlq_queue (entry (after_error e error)) ≡ some now)
        ⊎ (now + dlq_retention_ms ≤ w.clock))
      × ((R.get w.redis (idem_key e.id) ≡ none) × (R.get w.redis (lock_key e.id) ≡ none))

  -- The outcome of a round at an entry, as a step of the diagram.
  pub record Refines (e : QueueEntry) (x : Result (Unit {0})) (w : World S) : Type 0 where
    pub phase : Phase
    pub step : Step e.max_attempts (waiting e.attempt) phase
    pub left : R.zscore w.redis pending_queue (entry e) ≡ none
    pub shows : Shows e phase x w

  Fate-Refines :
      (e : QueueEntry) (x : Result (Unit {0})) (r : Result Bool) (w : World S)
      → Fate R now e x r w
      → Refines e x w
  Fate-Refines e (ok u) r w (done _ reply gone idem lock) = record {
    phase = finished;
    step = succeeds e.attempt;
    left = gone;
    shows = (idem, lock);
  }
  Fate-Refines e (err y) r w (done same reply gone idem lock) = absurd (cc)
  Fate-Refines e (ok u) r w (retried error same reply more score gone lock) = absurd (cc)
  Fate-Refines e (err y) r w (retried error same reply more score gone lock) =
      let this : error ≡ y = cc in
      record {
        phase = waiting (e.attempt + 1);
        step = fails e.attempt more;
        left = gone;
        shows = (refl, (lock, rw (sym this) score));
      }
  Fate-Refines e (ok u) r w (dead error same reply out score gone idem lock) = absurd (cc)
  Fate-Refines e (err y) r w (dead error same reply out score gone idem lock) =
      let this : error ≡ y = cc in
      record {
        phase = dead_lettered;
        step = gives_up e.attempt out;
        left = gone;
        shows = (rw (sym this) score, (idem, lock));
      }

module _ {S : Type 0} (R : Redis S) where
  -- What a round that failed and was not the last leaves: its entry is queued again.
  pub record IsRetried (e : QueueEntry) (m : String) (x : Result Bool × World S) : Type 0 where
    pub reply : x.0 ≡ ok false
    pub more : e.attempt + 1 < e.max_attempts
    pub queued :
        (score : ℕ) × (R.zscore x.1.redis pending_queue (entry (with_error m (next_attempt e)))
          ≡ some score)

  -- The rounds that an entry went through, each of which queued it again; the worlds of the rounds
  -- are any, since other work goes on between them.
  pub data Retries (e : QueueEntry) : ℕ → QueueEntry → Type 0 where
    untried : Retries e 0 e
    again :
        {n : ℕ} {e' : QueueEntry} (m owner : String) (tokens : Result (List String)) (now : ℕ)
        (w : World S)
        → Retries e n e'
        → IsRetried e' m (process_entry R owner tokens now (entry e') w)
        → Retries e (suc n) (with_error m (next_attempt e'))

  record IsLater (n : ℕ) (e e' : QueueEntry) : Type 0 where
    most : e'.max_attempts ≡ e.max_attempts
    counted : e'.attempt ≡ e.attempt + n
    steps : Steps e.max_attempts n (waiting e.attempt) (waiting e'.attempt)

  Retries-IsLater : {e e' : QueueEntry} {n : ℕ} → Retries e n e' → IsLater n e e'
  unfolding with_error next_attempt
  Retries-IsLater untried = record { most = refl; counted = omega arith; steps = stay }
  Retries-IsLater (again m owner tokens now w h r) =
      let p = Retries-IsLater h in
      record {
        most = p.most;
        counted = omega (arith, p.counted);
        steps = onwards p.steps (fails _ (omega (arith, r.more, p.most)));
      }

  -- The worker's rounds implement the diagram of the phases, and an operation comes to its end:
  -- after any number of rounds that failed and queued the entry again, whatever else went on
  -- between them, the next round at the entry takes it out of the queue and is one more step of the
  -- diagram. The operation is done just if it is executed without an error. If it throws, the entry
  -- is counted up with the error's message, and waits in the queue again, or is in the dead-letter
  -- queue (where the attempt took less than the seven days of retention). The round settles the
  -- operation, or the attempts so far are fewer than the most that the entry has. For this round
  -- Redis answers, the entry's lock is free and the entry is in the queue.
  pub life_refines :
      (laws : IsLawful R) (e e' : QueueEntry) (n : ℕ) (owner : String)
      (tokens : Result (List String)) (now score : ℕ) (w : World S)
      → Retries e n e'
      → IsCalm w
      → R.get w.redis (lock_key e'.id) ≡ none
      → R.zscore w.redis pending_queue (entry e') ≡ some score
      → (p : Phase) × (Steps e.max_attempts (suc n) (waiting e.attempt) p
          × (Shows R now e' p
                (execute_operation R tokens e'.op (claimed R owner e' w)).0
                (process_entry R owner tokens now (entry e') w).1
              × ((R.zscore
                      (process_entry R owner tokens now (entry e') w).1.redis
                      pending_queue
                      (entry e')
                    ≡ none)
                  × (IsSettled p ⊎ (e.attempt + suc n < e.max_attempts)))))
  life_refines laws e e' n owner tokens now score w history calm free there =
      let r =
        Fate-Refines R now e' _ _ _
          (process_entry-Fate R laws owner tokens now score e' w calm free there) in
      let p = Retries-IsLater history in
      let step : Step e.max_attempts (waiting e'.attempt) r.phase = rw⁻¹ p.most r.step in
      (
        r.phase,
        (
          onwards p.steps step,
          (
            r.shows,
            (
              r.left,
              elim (Step-settles step) [
                | inl s ↦ inl s
                | inr h ↦ inr (omega (arith, h, p.counted))
              ],
            ),
          ),
        ),
      )
