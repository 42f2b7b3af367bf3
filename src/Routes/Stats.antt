-- ===== src/Routes/Stats.antt =====
-- What GET of app/api/writeright/stats/route.ts computes from the rows of the database.
pub mod Breakdown
pub mod Weekly
use brain_mate.Common.{
  ℕ, zero, suc, String, ◌+◌, ◌-◌, ◌*◌, ◌/◌, Bool, Option, none, some, List, [], ◌∷◌, length, str_eq,
  if◌then◌else◌, leb, ltb, ◌&&◌,
}

-- a row of a completed job: the mode and the tone of its metadata, where they are texts
pub record CompletedJob : Type 0 where
  pub mode : Option String
  pub tone : Option String

-- `TokenUsageRow`
pub record TokenUsage : Type 0 where
  pub prompt_tokens : ℕ
  pub completion_tokens : ℕ
  pub total_tokens : ℕ
  pub model : String

-- a `Map` from texts to counts, in the order of insertion
abbrev pub Counter : Type 0
Counter = List (String × ℕ)

-- `counter.set(k, (counter.get(k) ?? 0) + n)`
unfoldable pub add_to : String → ℕ → Counter → Counter
add_to k n [] = (k, n) ∷ []
add_to k n ((j, i) ∷ counter) =
    if str_eq j k then (j, i + n) ∷ counter else (j, i) ∷ add_to k n counter

-- the texts of the rows, less the empty ones
unfoldable pub named : List (Option String) → List String
named [] = []
named (none ∷ names) = named names
named (some name ∷ names) = if str_eq name "" then named names else name ∷ named names

unfoldable pub count_all : List String → Counter → Counter
count_all [] counter = counter
count_all (name ∷ names) counter = count_all names (add_to name 1 counter)

pub record Share : Type 0 where
  pub name : String
  pub count : ℕ
  pub percent : ℕ

-- `completedJobs.length || 1`
unfoldable pub or_one : ℕ → ℕ
or_one zero = 1
or_one (suc n) = suc n

-- `.sort((a, b) => b.count - a.count)`, which keeps the order of equal counts
unfoldable pub insert_share : Share → List Share → List Share
insert_share s [] = s ∷ []
insert_share s (t ∷ ts) = if ltb t.count s.count then s ∷ t ∷ ts else t ∷ insert_share s ts

unfoldable pub sort_shares : List Share → List Share → List Share
sort_shares sorted [] = sorted
sort_shares sorted (s ∷ ss) = sort_shares (insert_share s sorted) ss

abbrev pub modes_of : List CompletedJob → List (Option String)
modes_of [] = []
modes_of (j ∷ js) = j.mode ∷ modes_of js

abbrev pub tones_of : List CompletedJob → List (Option String)
tones_of [] = []
tones_of (j ∷ js) = j.tone ∷ tones_of js

-- `percent` is `Math.round((count / total) * 100)`, in floating point.
module _ (percent : ℕ → ℕ → ℕ) where
  unfoldable pub to_shares : ℕ → Counter → List Share
  to_shares total [] = []
  to_shares total ((name, count) ∷ counter) =
      record { name = name; count = count; percent = percent count total } ∷ to_shares total counter

  unfoldable pub breakdown : List (Option String) → List Share
  breakdown names = sort_shares [] (to_shares (or_one (length names)) (count_all (named names) []))

  unfoldable pub mode_breakdown : List CompletedJob → List Share
  mode_breakdown jobs = breakdown (modes_of jobs)

  unfoldable pub tone_breakdown : List CompletedJob → List Share
  tone_breakdown jobs = breakdown (tones_of jobs)

-- `buckets[i] += 1`
unfoldable pub bump : ℕ → List ℕ → List ℕ
bump i [] = []
bump zero (n ∷ ns) = suc n ∷ ns
bump (suc i) (n ∷ ns) = n ∷ bump i ns

abbrev pub day_ms : ℕ
day_ms = 86400000

-- `Math.floor` of the quotient, and the test that it is from 0 to 6: a negative one is no bucket
unfoldable pub count_day : ℕ → ℕ → List ℕ → List ℕ
count_day base midnight buckets =
    let day_diff = (base - midnight) / day_ms in
    if leb midnight base && ltb day_diff 7 then bump (6 - day_diff) buckets else buckets

-- `midnight` is `setHours(0, 0, 0, 0)`, in the server's zone; a moment is in milliseconds.
module _ (midnight : ℕ → ℕ) where
  -- the loop over the rows of the last week, by their `created_at`
  unfoldable pub count_week : ℕ → List (Option ℕ) → List ℕ → List ℕ
  count_week base [] buckets = buckets
  count_week base (none ∷ rows) buckets = count_week base rows buckets
  count_week base (some created ∷ rows) buckets =
      count_week base rows (count_day base (midnight created) buckets)

  unfoldable pub weekly_counts : ℕ → List (Option ℕ) → List ℕ
  weekly_counts now rows = count_week (midnight now) rows (0 ∷ 0 ∷ 0 ∷ 0 ∷ 0 ∷ 0 ∷ 0 ∷ [])

unfoldable pub total_tokens : List TokenUsage → ℕ
total_tokens [] = 0
total_tokens (r ∷ rs) = r.total_tokens + total_tokens rs

unfoldable pub total_prompt_tokens : List TokenUsage → ℕ
total_prompt_tokens [] = 0
total_prompt_tokens (r ∷ rs) = r.prompt_tokens + total_prompt_tokens rs

unfoldable pub total_completion_tokens : List TokenUsage → ℕ
total_completion_tokens [] = 0
total_completion_tokens (r ∷ rs) = r.completion_tokens + total_completion_tokens rs

unfoldable pub count_models : List TokenUsage → Counter → Counter
count_models [] counter = counter
count_models (r ∷ rs) counter =
    count_models rs (if str_eq r.model "" then counter else add_to r.model r.total_tokens counter)

-- `.sort((a, b) => b.tokens - a.tokens)`
unfoldable pub insert_model : String × ℕ → Counter → Counter
insert_model s [] = s ∷ []
insert_model s (t ∷ ts) = if ltb t.1 s.1 then s ∷ t ∷ ts else t ∷ insert_model s ts

unfoldable pub sort_models : Counter → Counter → Counter
sort_models sorted [] = sorted
sort_models sorted (s ∷ ss) = sort_models (insert_model s sorted) ss

unfoldable pub by_model : List TokenUsage → Counter
by_model rows = sort_models [] (count_models rows [])
