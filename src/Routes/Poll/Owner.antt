-- ===== src/Routes/Poll/Owner.antt =====
-- Whose job a poll shows.
use brain_mate.Common.{
  ℕ, String, ◌≡◌, refl, ap, ◌∙◌, ◌⊎◌, inl, inr, Bool, true, false, Option, none, some, List, [],
  ◌∷◌, str_eq, Fields, field,
}
use brain_mate.Errors.{Error}
use brain_mate.Redis.{Redis}
use brain_mate.Exec.{
  World, Result, ok, err, Exec, Wire, fine, lost, late, deliver, command, pure, handle, resume,
}
use brain_mate.Exec.Keeps.{resume_ok}
use brain_mate.Commands.{hgetall}
use brain_mate.Queue.Keys.{job_status_key}
use brain_mate.Queue.Jobs.{JobStatusPayload, to_payload, get_job_status}
use brain_mate.Routes.Poll.{
  JobRow, is_foreign, job_not_found, from_payload, from_redis, from_row, from_database, settle,
  poll_as, poll,
}

-- the payload of a hash that names a user
record Names (owner : String) (o : Option JobStatusPayload) : Type 0 where
  payload : JobStatusPayload
  there : o ≡ some payload
  owns : payload.user_id ≡ owner

to_payload-Names :
    (owner : String) (fs : Fields) → field "user_id" fs ≡ some owner → Names owner (to_payload fs)
unfolding to_payload
to_payload-Names owner [] h = absurd (cc)
to_payload-Names owner (f ∷ fs) h = record { payload = _; there = refl; owns = rw h refl }

is_foreign-named :
    (payload : JobStatusPayload) (owner user_id : String)
    → payload.user_id ≡ owner
    → str_eq owner "" ≡ false
    → str_eq owner user_id ≡ false
    → is_foreign payload user_id ≡ true
unfolding is_foreign
is_foreign-named payload owner user_id h n d = rw (h, n, d) refl

module _ {S : Type 0} (R : Redis S) (iso : ℕ → String) (is_uuid : String → Bool)
    (select_job : String → String → Exec S (Option JobRow)) where
  -- a read that is answered, or one that throws
  delivered :
      {A : Type 0} (ws : List Wire) (x : A × S) (w : World S)
      → ((deliver ws x w).0 ≡ ok x.0) ⊎ ((e : Error) × ((deliver ws x w).0 ≡ err e))
  delivered [] (a, s) w = inl refl
  delivered (fine ∷ ws) (a, s) w = inl refl
  delivered (lost m ∷ ws) (a, s) w = inr (_, refl)
  delivered (late m ∷ ws) (a, s) w = inr (_, refl)

  foreign_payload :
      (user_id job_id owner : String) (o : Option JobStatusPayload) (w : World S)
      → Names owner o
      → str_eq owner "" ≡ false
      → str_eq owner user_id ≡ false
      → (handle (from_payload R iso is_uuid select_job user_id job_id o w) (λ _. pure none)).0
        ≡ ok none
  unfolding from_payload
  foreign_payload user_id job_id owner o w h n d =
      rw (h.there, is_foreign-named h.payload owner user_id h.owns n d) refl

  read_foreign :
      (user_id job_id owner : String) (fs : Fields) (x : Result Fields × World S)
      → (x.0 ≡ ok fs) ⊎ ((e : Error) × (x.0 ≡ err e))
      → field "user_id" fs ≡ some owner
      → str_eq owner "" ≡ false
      → str_eq owner user_id ≡ false
      → (handle
          (resume
            (resume x (λ data'. pure (to_payload data')))
            (λ payload. from_payload R iso is_uuid select_job user_id job_id payload))
          (λ _. pure none)).0
        ≡ ok none
  read_foreign user_id job_id owner fs (ok d, w) (inl e) h n o =
      let same : d ≡ fs = cc in
      foreign_payload user_id job_id owner (to_payload d) w
        (to_payload-Names owner d (ap (field "user_id") same ∙ h)) n o
  read_foreign user_id job_id owner fs (ok d, w) (inr (x, e)) h n o = absurd (cc)
  read_foreign user_id job_id owner fs (err x, w) e h n o = refl

  foreign_redis :
      (user_id job_id owner : String) (w : World S)
      → field "user_id" (R.hgetall w.redis (job_status_key job_id)) ≡ some owner
      → str_eq owner "" ≡ false
      → str_eq owner user_id ≡ false
      → (from_redis R iso is_uuid select_job user_id job_id w).0 ≡ ok none
  unfolding from_redis get_job_status hgetall command
  foreign_redis user_id job_id owner w h n d =
      read_foreign user_id job_id owner (R.hgetall w.redis (job_status_key job_id))
        (deliver w.wire (R.hgetall w.redis (job_status_key job_id), w.redis) w)
        (delivered w.wire (R.hgetall w.redis (job_status_key job_id), w.redis) w) h n d

  -- A job of another user is not shown: where the hash in Redis names a user who is not the caller,
  -- and the database has no row of this job for the caller, the poll fails as for a job that does
  -- not exist, whatever else the hash and the results in Redis are, and whether Redis answers or
  -- not. The caller is signed in, and the job's id is well formed.
  pub foreign_job_hidden :
      (user_id job_id owner : String) (w : World S)
      → str_eq user_id "" ≡ false
      → is_uuid job_id ≡ true
      → field "user_id" (R.hgetall w.redis (job_status_key job_id)) ≡ some owner
      → str_eq owner "" ≡ false
      → str_eq owner user_id ≡ false
      → ((v : World S) → (select_job job_id user_id v).0 ≡ ok none)
      → (poll R iso is_uuid select_job job_id (some user_id) w).0 ≡ err job_not_found
  unfolding poll poll_as from_database from_row
  foreign_job_hidden user_id job_id owner w n u h o d r =
      let first = from_redis R iso is_uuid select_job user_id job_id w in
      let hidden = foreign_redis user_id job_id owner w h o d in
      rw (n, u)
        (ap (λ x. x.0)
          (resume_ok first none (settle R iso is_uuid select_job user_id job_id) hidden
            ∙ resume_ok (select_job job_id user_id first.1) none
                (from_row R iso is_uuid select_job job_id) (r first.1)))
