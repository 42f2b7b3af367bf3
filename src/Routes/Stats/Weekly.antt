-- ===== src/Routes/Stats/Weekly.antt =====
-- What the seven buckets of app/api/writeright/stats/route.ts count.
use brain_mate.Common.{Option, none, some, leb, ltb, ◌&&◌, ◌*◌, ◌/◌, ◌≤◌}
use brain_mate.Routes.Stats.{count_day}
use brain_mate.Common.{
  ℕ, zero, suc, ◌≡◌, refl, ◌∙◌, ◌+◌, ◌-◌, List, [], ◌∷◌, if◌then◌else◌, ◌==◌, arith, length, ◌<◌,
}
use brain_mate.Routes.Stats.{bump, count_week, weekly_counts}

-- the rows whose midnight is `ago` times 24 hours before the base, and less than 24 hours more
abbrev pub days_ago : (ℕ → ℕ) → ℕ → ℕ → List (Option ℕ) → ℕ
days_ago midnight base ago [] = 0
days_ago midnight base ago (none ∷ rows) = days_ago midnight base ago rows
days_ago midnight base ago (some created ∷ rows) =
    if leb (midnight created + 86400000 * ago) base
      && ltb base (midnight created + 86400000 * (ago + 1))
    then suc (days_ago midnight base ago rows)
    else days_ago midnight base ago rows

-- the number in a bucket
abbrev pub bucket : ℕ → List ℕ → ℕ
bucket j [] = 0
bucket zero (n ∷ ns) = n
bucket (suc j) (n ∷ ns) = bucket j ns

bucket-bump :
    (j i : ℕ) (ns : List ℕ)
    → j < length ns
    → (bucket j (bump i ns) ≡ (if i == j then suc (bucket j ns) else bucket j ns))
      × (length (bump i ns) ≡ length ns)
unfolding bump
bucket-bump j i [] h = absurd (omega (arith, h))
bucket-bump zero zero (n ∷ ns) h = (refl, refl)
bucket-bump (suc j) zero (n ∷ ns) h = ground arith
bucket-bump zero (suc i) (n ∷ []) h = ground arith
bucket-bump zero (suc i) (n ∷ m ∷ ns) h = ground (arith, bucket-bump zero i (m ∷ ns) (omega arith))
bucket-bump (suc j) (suc i) (n ∷ ns) h = ground (arith, bucket-bump j i ns (omega (arith, h)))

-- one row
bucket-count_day :
    (base midnight j : ℕ) (ns : List ℕ)
    → length ns ≡ 7
    → j < 7
    → (bucket j (count_day base midnight ns) ≡ (
        if leb (midnight + 86400000 * (6 - j)) base && ltb base (midnight + 86400000 * (6 - j + 1))
        then suc (bucket j ns)
        else bucket j ns))
      × (length (count_day base midnight ns) ≡ 7)
unfolding count_day
bucket-count_day base midnight j ns h k =
    let d : ℕ = (base - midnight) / 86400000 in
    let low : d * 86400000 ≤ base - midnight = omega arith in
    let high : base - midnight < d * 86400000 + 86400000 = omega arith in
    let (kept, long) = bucket-bump j (6 - d) ns (omega (arith, h, k)) in
    ground (arith, h, k, kept, long, low, high)

module _ (midnight : ℕ → ℕ) where
  bucket-count_week :
      (base j : ℕ) (rows : List (Option ℕ)) (ns : List ℕ)
      → length ns ≡ 7
      → j < 7
      → bucket j (count_week midnight base rows ns)
        ≡ bucket j ns + days_ago midnight base (6 - j) rows
  unfolding count_week
  bucket-count_week base j [] ns h k = omega arith
  bucket-count_week base j (none ∷ rows) ns h k = bucket-count_week base j rows ns h k
  bucket-count_week base j (some created ∷ rows) ns h k =
      let (one, long) = bucket-count_day base (midnight created) j ns h k in
      ground
        (arith, one, bucket-count_week base j rows (count_day base (midnight created) ns) long k)

bucket-empty : (j : ℕ) → bucket j (0 ∷ 0 ∷ 0 ∷ 0 ∷ 0 ∷ 0 ∷ 0 ∷ []) ≡ 0
bucket-empty zero = refl
bucket-empty (suc zero) = refl
bucket-empty (suc (suc zero)) = refl
bucket-empty (suc (suc (suc zero))) = refl
bucket-empty (suc (suc (suc (suc zero)))) = refl
bucket-empty (suc (suc (suc (suc (suc zero))))) = refl
bucket-empty (suc (suc (suc (suc (suc (suc zero)))))) = refl
bucket-empty (suc (suc (suc (suc (suc (suc (suc j))))))) = refl

-- The weekly counts sort the rows by the time from their day's midnight to today's: the bucket
-- `ago` places before the last one, for each of the seven, has the number of the rows whose
-- midnight is at least `ago` and less than `ago + 1` times 24 hours before today's midnight. Rows
-- without a date, rows of later days and older rows are not counted.
pub weekly_counts_lem :
    (midnight : ℕ → ℕ) (now ago : ℕ) (rows : List (Option ℕ))
    → ago < 7
    → bucket (6 - ago) (weekly_counts midnight now rows) ≡ days_ago midnight (midnight now) ago rows
unfolding weekly_counts
weekly_counts_lem midnight now ago rows h =
    bucket-count_week midnight (midnight now) (6 - ago) rows _ refl (omega (arith, h))
    ∙ (let back : 6 - (6 - ago) ≡ ago = omega (arith, h) in
        rw (bucket-empty (6 - ago), back) (omega arith))
