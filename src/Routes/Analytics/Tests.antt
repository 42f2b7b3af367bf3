-- ===== src/Routes/Analytics/Tests.antt =====
-- The figures of app/api/writeright/analytics/route.ts and app/api/writeright/stats/route.ts on
-- small tables.
use brain_mate.Common.{◌+◌, ◌*◌, ◌/◌}
use brain_mate.Routes.Stats.{count_week, count_day, bump}
use brain_mate.Common.{
  ℕ, String, ◌≡◌, refl, ◌-◌, ◌≤◌, none, some, List, [], ◌∷◌, arith, ltb, Option,
}
use brain_mate.Routes.Stats.{breakdown, weekly_counts}
use brain_mate.Routes.Stats.Breakdown.{
  occurrences, total_of, shares_of, IsDescending, breakdown_lem,
}
use brain_mate.Routes.Stats.Weekly.{bucket, days_ago, weekly_counts_lem}
use brain_mate.Routes.Analytics.{current_streak, streak_of, latest_first, insert_day, count_back}
use brain_mate.Routes.Analytics.Streak.{is_active, current_streak-active}

abbrev names : List (Option String)
names = some "email" ∷ none ∷ some "linkedin" ∷ some "email" ∷ some "" ∷ []

abbrev percent : ℕ → ℕ → ℕ
percent count total = (2 * (count * 100) + total) / (2 * total)

breakdown_lem_example :
    (total_of "email" (breakdown percent names) ≡ occurrences "email" names)
    × ((shares_of "email" (breakdown percent names) ≤ 1) × IsDescending (breakdown percent names))
breakdown_lem_example = breakdown_lem percent names "email" refl

-- midnight of UTC
abbrev midnight : ℕ → ℕ
midnight moment = moment / 86400000 * 86400000

-- an hour of the days 4, 5 and 4, no date, and a row of a later day
abbrev rows : List (Option ℕ)
rows =
    some (4 * 86400000 + 3600000)
    ∷ some (5 * 86400000 + 3600000)
    ∷ some (4 * 86400000 + 7200000)
    ∷ none
    ∷ some (9 * 86400000)
    ∷ []

weekly_counts_lem_example :
    bucket (6 - 2) (weekly_counts midnight (6 * 86400000 + 1) rows)
    ≡ days_ago midnight (midnight (6 * 86400000 + 1)) 2 rows
weekly_counts_lem_example = weekly_counts_lem midnight (6 * 86400000 + 1) 2 rows (omega arith)

weekly_test : weekly_counts midnight (6 * 86400000 + 1) rows ≡ 0 ∷ 0 ∷ 0 ∷ 0 ∷ 2 ∷ 1 ∷ 0 ∷ []
unfolding weekly_counts count_week count_day bump
weekly_test = refl

abbrev dates : List ℕ
dates = 19 ∷ 20 ∷ 16 ∷ []

two_days : current_streak none 20 dates ≡ 2
unfolding current_streak streak_of latest_first insert_day count_back
two_days = refl

current_streak-active_example : is_active (20 - 2) dates ≡ ltb 2 (current_streak none 20 dates)
current_streak-active_example =
    current_streak-active 20 2 dates (refl, (refl, (refl, tt)))
      (omega arith, (omega arith, (omega arith, tt))) (rw two_days (omega arith)) (omega arith)
