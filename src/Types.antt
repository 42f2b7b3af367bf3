-- ===== src/Types.antt =====
-- The data that the components exchange: lib/reconciliation-worker.ts and lib/writeright-queue.ts
-- (their interfaces), and the texts that they store in Redis.
--
-- A stored text is represented by what it was printed from: `JSON.stringify` of an entry by the
-- entry, `String(n)` by the number. `plain` is any other text, which `JSON.parse` and `parseInt`
-- reject.
use native.Mathlib.Decide.{ℕ_discrete}
use mathlib.Core.Bool.{false≢true}
use brain_mate.Common.{ℕ, String, Bool, true, false, Option, List, string_discrete, ◌≡◌, ◌↔◌, refl}

pub data Op : Type 0 where
  token_revocation : String → ℕ → Op
  session_sync : String → String → ℕ → ℕ → Op
  session_revoke : String → Option String → Option ℕ → Option ℕ → Op

pub record QueueEntry : Type 0 where
  pub id : String
  pub op : Op
  pub attempt : ℕ
  pub max_attempts : ℕ
  pub created_at : ℕ
  pub traceparent : Option String
  pub tracestate : Option String
  pub last_error : Option String

pub data Role : Type 0 where
  user assistant : Role

pub record WritingJobPayload : Type 0 where
  pub id : String
  pub chat_id : String
  pub user_id : String
  pub message_id : String
  pub content : String
  pub tone : String
  pub mode : String
  pub output_language : Option String
  pub history : List (Role × String)
  pub intensity : ℕ
  pub quick : Bool
  pub attempt : ℕ
  pub traceparent : Option String

pub record Teaching : Type 0 where
  pub mistakes : List String
  pub better_versions : List String
  pub explanations : List String

pub record Scores : Type 0 where
  pub clarity : ℕ
  pub tone : ℕ
  pub impact : ℕ
  pub verdict : String

pub record AiJobResult : Type 0 where
  pub improved_text : String
  pub english_version : Option String
  pub teaching : Teaching
  pub follow_up : String
  pub suggestions : Option (List String)
  pub scores : Option Scores
  pub model : String
  pub prompt_tokens : ℕ
  pub completion_tokens : ℕ

pub data Text : Type 0 where
  plain : String → Text
  number : ℕ → Text
  entry : QueueEntry → Text
  job : WritingJobPayload → Text
  result : AiJobResult → Text
  -- the replies of POST /api/writeright/message: the ids of the job and the message of a queued
  -- message, and the id of the message and the result of one that is answered from the cache
  pending_reply : String → String → Text
  cached_reply : String → Text → Text

unfoldable pub Text-discrete : Discrete Text
unfolding string_discrete ℕ_discrete
Text-discrete = hlevel (ℕ_discrete, string_discrete)

-- Whether two stored texts are the same.
unfoldable pub same : Text → Text → Bool
unfolding Text-discrete
same a b = elim (Text-discrete a b) [ yes _ ↦ true | no _ ↦ false ]

pub same_iff : (a b : Text) → (same a b ≡ true) ↔ (a ≡ b)
unfolding same
same_iff a b =
    elim (Text-discrete a b) as (λ d. ((elim d [ yes _ ↦ true | no _ ↦ false ]) ≡ true) ↔ (a ≡ b)) [
      | yes p ↦ (λ _. p, λ _. refl)
      | no h ↦ (λ e. absurd (false≢true e), λ p. absurd (h p))
    ]
