-- ===== src/Routes/Analytics.antt =====
-- What GET of app/api/writeright/analytics/route.ts computes from the rows of the database without
-- fractions. A date is its day, counted from 1970, and its start in milliseconds where times are
-- compared.
pub mod Streak
mod Tests
use brain_mate.Common.{
  ℕ, zero, suc, String, ◌+◌, ◌-◌, ◌*◌, min, max, Bool, true, false, not, ◌&&◌, Option, none, some,
  List, [], ◌∷◌, ◌++◌, ◌<>◌, length, str_eq, if◌then◌else◌, ◌==◌, leb, ltb, decimal,
}
use brain_mate.Queue.Jobs.{default_to}

-- a row of `writeright_writing_sessions`
pub record Session : Type 0 where
  pub session_date : ℕ
  pub improvements : Option ℕ
  pub word_count : Option ℕ

unfoldable pub total_improvements : List Session → ℕ
total_improvements [] = 0
total_improvements (s ∷ ss) = default_to 0 s.improvements + total_improvements ss

unfoldable pub total_words_improved : List Session → ℕ
total_words_improved [] = 0
total_words_improved (s ∷ ss) = default_to 0 s.word_count + total_words_improved ss

unfoldable pub heatmap : List Session → List (ℕ × ℕ)
heatmap [] = []
heatmap (s ∷ ss) = (s.session_date, default_to 0 s.improvements) ∷ heatmap ss

pub record WeeklyReport : Type 0 where
  pub this_week_words : ℕ
  pub last_week_words : ℕ
  pub this_week_improvements : ℕ
  pub last_week_improvements : ℕ

abbrev pub day_ms : ℕ
day_ms = 86400000

-- one row: of the last seven days, of the seven before, or of neither
unfoldable pub report_session : ℕ → Session → WeeklyReport → WeeklyReport
report_session now s r =
    if leb now (s.session_date * day_ms + 7 * day_ms)
    then record r {
      this_week_words = r.this_week_words + default_to 0 s.word_count;
      this_week_improvements = r.this_week_improvements + default_to 0 s.improvements;
    }
    else if leb now (s.session_date * day_ms + 14 * day_ms)
    then record r {
      last_week_words = r.last_week_words + default_to 0 s.word_count;
      last_week_improvements = r.last_week_improvements + default_to 0 s.improvements;
    }
    else r

unfoldable pub report_all : ℕ → List Session → WeeklyReport → WeeklyReport
report_all now [] r = r
report_all now (s ∷ ss) r = report_all now ss (report_session now s r)

unfoldable pub weekly_report : ℕ → List Session → WeeklyReport
weekly_report now sessions = report_all now sessions (record {
  this_week_words = 0;
  last_week_words = 0;
  this_week_improvements = 0;
  last_week_improvements = 0;
})

-- the percentile, where the database has none
unfoldable pub percentile_or : Option ℕ → ℕ → ℕ
percentile_or (some p) improvements = p
percentile_or none improvements = min 99 (max 40 (50 + improvements * 2))

unfoldable pub fallback_signature_phrases : String → List String
fallback_signature_phrases dominant_tone =
    if str_eq dominant_tone "Professional"
    then "Best regards" ∷ "Please find attached" ∷ "Thank you for your time" ∷ []
    else if str_eq dominant_tone "Friendly"
    then "Hope you're doing well" ∷ "Cheers" ∷ "Looking forward to it" ∷ []
    else "To summarise" ∷ "In brief" ∷ "Key point" ∷ []

abbrev pub when : Bool → String → List String
when b s = if b then s ∷ [] else []

abbrev pub mistake_insight : List (String × ℕ) → List String
mistake_insight [] = []
mistake_insight ((mistake, count) ∷ rest) =
    ("Most common friction: \"" <> (mistake <> ("\" — flagged " <> (decimal count <> " times."))))
    ∷ []

abbrev pub or_hint : List String → List String
or_hint [] = "Complete more writing sessions to unlock personalised insights." ∷ []
or_hint (x ∷ xs) = x ∷ xs

-- `clear` is whether the average clarity is at least 8, `improving` whether the trajectory is.
unfoldable pub fallback_insights : ℕ → Bool → String → Bool → List (String × ℕ) → List String
fallback_insights improvements clear dominant_mode improving top_mistakes = or_hint (
    when (leb 10 improvements)
      ("You've completed " <> (decimal improvements <> " writing improvements — top 30% of users."))
    ++ when clear "Clarity is your strongest metric. Keep the sentences tight."
    ++ when (str_eq dominant_mode "email")
        "Email is your primary channel — consider exploring LinkedIn posts."
    ++ when improving "Your writing quality is on an upward trajectory this month."
    ++ mistake_insight top_mistakes)

-- `.sort()` of the dates, read from its end
unfoldable pub insert_day : ℕ → List ℕ → List ℕ
insert_day d [] = d ∷ []
insert_day d (x ∷ xs) = if ltb x d then d ∷ x ∷ xs else x ∷ insert_day d xs

unfoldable pub latest_first : List ℕ → List ℕ
latest_first [] = []
latest_first (d ∷ ds) = insert_day d (latest_first ds)

-- the loop of the current streak: each day must be the one before the last
unfoldable pub count_back : ℕ → List ℕ → ℕ
count_back expected [] = 0
count_back zero (d ∷ ds) = if d == 0 then 1 else 0
count_back (suc e) (d ∷ ds) = let rest = count_back e ds in if d == suc e then suc rest else 0

unfoldable pub streak_of : ℕ → List ℕ → ℕ
streak_of today [] = 0
streak_of today (last ∷ ds) =
    if not (last == today) && not (last + 1 == today) then 0 else count_back today (last ∷ ds)

-- the current streak, where the table of streaks has none
unfoldable pub current_streak : Option ℕ → ℕ → List ℕ → ℕ
current_streak (some n) today dates = n
current_streak none today dates = streak_of today (latest_first dates)

abbrev pub earliest_first : List ℕ → List ℕ → List ℕ
earliest_first acc [] = acc
earliest_first acc (d ∷ ds) = earliest_first (d ∷ acc) ds

-- the loop of the longest streak: the day before, the run so far and the longest one
unfoldable pub longest_of : Option ℕ → ℕ → ℕ → List ℕ → ℕ
longest_of prev cur most [] = most
longest_of none cur most (d ∷ ds) = longest_of (some d) 1 (max most 1) ds
longest_of (some p) cur most (d ∷ ds) =
    let run = if d == p + 1 then cur + 1 else 1 in longest_of (some d) run (max most run) ds

unfoldable pub longest_streak : Option ℕ → List ℕ → ℕ
longest_streak (some n) dates = n
longest_streak none dates = longest_of none 0 0 (earliest_first [] (latest_first dates))
