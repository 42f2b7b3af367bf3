-- ===== src/Routes/Completion/Tests.antt =====
-- The completion route over a database whose writing sessions fail, and a Redis that does not
-- answer.
use brain_mate.Common.{
  String, ◌≡◌, refl, Option, none, some, is_some, [], ◌∷◌, str_eq, if◌then◌else◌,
}
use brain_mate.Types.{AiJobResult}
use brain_mate.Errors.{create_api_error, not_found, unauthorized, no_meta, failure}
use brain_mate.Redis.Memory.{Memory, memory, empty}
use brain_mate.Exec.{World, lost, ok, err, pure, throw}
use brain_mate.Routes.Completion.{text_or}
use brain_mate.Routes.Completion.Handler.{
  CompletionBody, JobOwner, CompletionTables, session_of, complete,
}
use brain_mate.Routes.Completion.Answered.{Answers, complete_lem}

abbrev owner : JobOwner
owner = record { chat_id = "c1"; user_id = "u1"; mode = none }

abbrev rows : String → Option JobOwner
rows job_id = if str_eq job_id "j1" then some owner else none

abbrev tables : CompletionTables Memory
tables = record {
  select_owner = λ job_id. pure (rows job_id);
  complete_job = λ job_id value. pure tt;
  insert_usage = λ usage. pure tt;
  upsert_session = λ session. throw (failure "timeout");
}

tables-Answers : Answers tables rows
tables-Answers = record {
  selected = λ job_id w. refl;
  completed = λ job_id value w. refl;
  inserted = λ usage w. refl;
}

abbrev broken_off : World Memory
broken_off = record {
  redis = empty;
  wire = lost "ECONNRESET" ∷ lost "ECONNRESET" ∷ [];
  clock = 10000;
  ticks = [];
  replies = [];
  sent = [];
  circuit = record { open_until = 0; failures = 0 };
  window = record { sec = 0; count = 0 };
  unusable = none;
  breaker = record { consecutive_errors = 0; open_until = 0; total_errors = 0; total_connects = 1 };
}

abbrev answer : AiJobResult
answer = record {
  improved_text = "Dear all";
  english_version = none;
  teaching = record { mistakes = []; better_versions = []; explanations = [] };
  follow_up = "";
  suggestions = none;
  scores = some (record { clarity = 8; tone = 9; impact = 6; verdict = "good" });
  model = "m";
  prompt_tokens = 10;
  completion_tokens = 20;
}

abbrev report : CompletionBody
report = record { result = answer; prompt_tokens = 10; completion_tokens = 20; model = "m" }

complete_lem_example :
    (complete memory
      (λ n. "now")
      (λ text. 2)
      tables
      (some "key")
      (some "key")
      "j1"
      (some report)
      broken_off).0
    ≡ (if str_eq (text_or (some "key") "") (text_or (some "key") "fallback-secret")
        then (if is_some (rows "j1")
            then ok tt
            else err (create_api_error not_found "Job not found" (some 404) no_meta))
        else err (create_api_error unauthorized "Invalid worker secret" (some 401) no_meta))
complete_lem_example =
    complete_lem memory (λ n. "now") (λ text. 2) tables rows tables-Answers (some "key")
      (some "key") "j1" report broken_off

-- the session that is recorded: the scores, both counts of tokens, and the mode of a job without
-- one
recorded : session_of (λ text. 2) owner report ≡ record {
  user_id = "u1";
  clarity = 8;
  tone = 9;
  impact = 6;
  tokens = 30;
  mode = "email";
  word_count = 2;
}
unfolding session_of
recorded = refl
