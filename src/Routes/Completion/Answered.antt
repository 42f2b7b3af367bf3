-- ===== src/Routes/Completion/Answered.antt =====
-- What the worker is told when it reports a completed job.
use brain_mate.Common.{
  ℕ, String, ◌≡◌, refl, ap, ◌∙◌, Option, none, some, is_some, str_eq, if◌then◌else◌, Bool-cases,
  inl, inr,
}
use brain_mate.Types.{AiJobResult}
use brain_mate.Errors.{create_api_error, not_found, unauthorized, no_meta}
use brain_mate.Redis.{Redis}
use brain_mate.Exec.{World, ok, err, pure, catch, is_circuit_open}
use brain_mate.Exec.Ensures.{resume-ok}
use brain_mate.Exec.Returns.{Returns, caught, follows, choice, nothing, is_circuit_open-Returns}
use brain_mate.Routes.Completion.{text_or, check_secret, write_completion, publish_completion}
use brain_mate.Routes.Completion.Handler.{
  CompletionBody, JobOwner, Usage, CompletionTables, usage_of, session_of, complete_owned,
  complete_body, complete,
}

-- The first three calls of the database return, the query with the rows that are given.
pub record Answers {S : Type 0} (db : CompletionTables S) (rows : String → Option JobOwner)
    : Type 0 where
  pub selected : (job_id : String) (w : World S) → (db.select_owner job_id w).0 ≡ ok (rows job_id)
  pub completed :
      (job_id : String) (value : AiJobResult) (w : World S)
      → (db.complete_job job_id value w).0 ≡ ok tt
  pub inserted : (usage : Usage) (w : World S) → (db.insert_usage usage w).0 ≡ ok tt

module _ {S : Type 0} (R : Redis S) (iso : ℕ → String) (words : String → ℕ)
    (db : CompletionTables S) (rows : String → Option JobOwner) (answers : Answers db rows) where
  publish-Returns :
      (job_id user_id : String) (value : AiJobResult) (w : World S)
      → Returns (publish_completion R iso job_id user_id value w)
  unfolding publish_completion
  publish-Returns job_id user_id value w =
      follows (is_circuit_open w) _ (is_circuit_open-Returns w) (λ broken w1.
        choice broken (pure tt) _ w1 (nothing tt w1)
          (caught (write_completion R iso job_id user_id value w1) tt))

  owned_outcome :
      (job_id : String) (body : CompletionBody) (owner : Option JobOwner) (w : World S)
      → (complete_owned R iso words db job_id body owner w).0 ≡ (
          if is_some owner
          then ok tt
          else err (create_api_error not_found "Job not found" (some 404) no_meta))
  unfolding complete_owned
  owned_outcome job_id body none w = refl
  owned_outcome job_id body (some owner) w =
      let returned =
        follows (db.complete_job job_id body.result w) _
          (record { value = tt; returned = answers.completed job_id body.result w })
          (λ u w1.
            follows (db.insert_usage (usage_of job_id owner body) w1) _
              (record { value = tt; returned = answers.inserted (usage_of job_id owner body) w1 })
              (λ v w2.
                follows (catch (db.upsert_session (session_of words owner body)) (λ _. pure tt) w2)
                  _ (caught (db.upsert_session (session_of words owner body) w2) tt)
                  (λ x w3. publish-Returns job_id owner.user_id body.result w3))) in
      returned.returned

  -- A report with the worker's secret is received whenever the job exists, whatever becomes of the
  -- writing session and of Redis; it is refused for a job that does not exist, and without the
  -- secret. The other calls of the database return.
  pub complete_lem :
      (header environment : Option String) (job_id : String) (body : CompletionBody) (w : World S)
      → (complete R iso words db header environment job_id (some body) w).0 ≡ (
          if str_eq (text_or header "") (text_or environment "fallback-secret")
          then (if is_some (rows job_id)
              then ok tt
              else err (create_api_error not_found "Job not found" (some 404) no_meta))
          else err (create_api_error unauthorized "Invalid worker secret" (some 401) no_meta))
  unfolding complete complete_body check_secret
  complete_lem header environment job_id body w =
      elim (Bool-cases (str_eq (text_or header "") (text_or environment "fallback-secret"))) [
        | inl y ↦ rw (y) (
            ap (λ x. x.0)
              (resume-ok (db.select_owner job_id w) (rows job_id)
                (complete_owned R iso words db job_id body) (answers.selected job_id w))
            ∙ owned_outcome job_id body (rows job_id) (db.select_owner job_id w).1)
        | inr n ↦ rw (n) refl
      ]
