-- ===== src/Routes/Analytics/Streak.antt =====
-- What the current streak of app/api/writeright/analytics/route.ts counts.
use brain_mate.Common.{
  ℕ, zero, suc, ◌≡◌, refl, sym, ◌∙◌, ◌+◌, ◌-◌, ◌≤◌, ◌<◌, Bool, false, not, ◌&&◌, ◌||◌, none, List,
  [], ◌∷◌, ◌==◌, ltb, arith, Bool-cases, inl, inr, All,
}
use brain_mate.Routes.Analytics.{insert_day, latest_first, count_back, streak_of, current_streak}

-- whether the day is one of the dates
abbrev pub is_active : ℕ → List ℕ → Bool
is_active d [] = false
is_active d (x ∷ xs) = x == d || is_active d xs

-- no date stands twice
abbrev pub AreDistinct : List ℕ → Type 0
AreDistinct [] = Unit
AreDistinct (d ∷ ds) = (is_active d ds ≡ false) × AreDistinct ds

-- the dates fall from one to the next, all under a bound
abbrev Falls : ℕ → List ℕ → Type 0
Falls n [] = Unit
Falls n (d ∷ ds) = (d < n) × Falls d ds

abbrev pub AreAtMost : ℕ → List ℕ → Type 0
AreAtMost n = All (λ d. d ≤ n)

Falls-active : (n m : ℕ) (ds : List ℕ) → Falls n ds → n ≤ m → is_active m ds ≡ false
Falls-active n m [] h k = refl
Falls-active n m (d ∷ ds) (p, h) k =
    ground (arith, Falls-active d m ds h (omega (arith, p, k)), p, k)

Falls-weaker : (n m : ℕ) (ds : List ℕ) → Falls n ds → n ≤ m → Falls m ds
Falls-weaker n m [] h k = tt
Falls-weaker n m (d ∷ ds) (p, h) k = (omega (arith, p, k), h)

insert-active : (m d : ℕ) (ds : List ℕ) → is_active m (insert_day d ds) ≡ (d == m || is_active m ds)
unfolding insert_day
insert-active m d [] = refl
insert-active m d (x ∷ xs) = ground (arith, insert-active m d xs)

insert-Falls :
    (n d : ℕ) (ds : List ℕ)
    → d < n
    → is_active d ds ≡ false
    → Falls n ds
    → Falls n (insert_day d ds)
unfolding insert_day
insert-Falls n d [] h a f = (h, tt)
insert-Falls n d (x ∷ xs) h a (p, f) = elim (Bool-cases (ltb x d)) [
  | inl e ↦ let under : x < d = ground (arith, e) in rw e (h, (under, f))
  | inr e ↦
      let over : d < x = ground (arith, e, a) in
      let rest : is_active d xs ≡ false = ground (arith, a) in
      rw e (p, insert-Falls x d xs over rest f)
]

latest-active : (m : ℕ) (ds : List ℕ) → is_active m (latest_first ds) ≡ is_active m ds
unfolding latest_first
latest-active m [] = refl
latest-active m (d ∷ ds) = ground (arith, insert-active m d (latest_first ds), latest-active m ds)

latest-Falls :
    (n : ℕ) (ds : List ℕ) → AreDistinct ds → AreAtMost n ds → Falls (n + 1) (latest_first ds)
unfolding latest_first
latest-Falls n [] a b = tt
latest-Falls n (d ∷ ds) (p, a) (q, b) =
    insert-Falls (n + 1) d (latest_first ds) (omega (arith, q)) (latest-active d ds ∙ p)
      (latest-Falls n ds a b)

count_back-active :
    (e k : ℕ) (ds : List ℕ)
    → Falls (e + 1) ds
    → k ≤ count_back e ds
    → k ≤ e
    → is_active (e - k) ds ≡ ltb k (count_back e ds)
unfolding count_back
count_back-active e k [] f h b = ground (arith, h)
count_back-active zero k (d ∷ ds) (p, f) h b = ground (arith, p, h, b)
count_back-active (suc e) zero (d ∷ ds) (p, f) h b = ground (arith, p, Falls-active d (suc e) ds f)
count_back-active (suc e) (suc k) (d ∷ ds) (p, f) h b = elim (Bool-cases (d == suc e)) [
  | inl here ↦
      let same : d ≡ suc e = ground (arith, here) in
      let fewer : k ≤ count_back e ds = ground (arith, h, here) in
      let rest =
        count_back-active e k ds (Falls-weaker d (e + 1) ds f (omega (arith, same))) fewer
          (omega (arith, b)) in
      ground (arith, here, same, rest, b)
  | inr gone ↦ absurd (ground (arith, h, gone))
]

streak_of-active :
    (today k : ℕ) (ds : List ℕ)
    → Falls (today + 1) ds
    → k ≤ streak_of today ds
    → k ≤ today
    → is_active (today - k) ds ≡ ltb k (streak_of today ds)
unfolding streak_of
streak_of-active today k [] f h b = ground (arith, h)
streak_of-active today k (d ∷ ds) f h b =
    elim (Bool-cases (not (d == today) && not (d + 1 == today))) [
      | inl away ↦
          let earlier : d + 1 ≤ today = ground (arith, away, f.0) in
          let none_today = Falls-active (d + 1) today (d ∷ ds) (omega arith, f.1) earlier in
          ground (arith, away, h, none_today)
      | inr near ↦
          let steps : streak_of today (d ∷ ds) ≡ count_back today (d ∷ ds) = rw near refl in
          rw steps (count_back-active today k (d ∷ ds) f (rw⁻¹ steps h) b)
    ]

-- The current streak is the run of active days that ends today: where the table of streaks has
-- none and no date stands twice or lies in the future, the days of today and before, as many as
-- the streak counts, are active, and the day before them is not. So a user who was active
-- yesterday, but not yet today, has a streak of 0, whatever came before.
pub current_streak-active :
    (today k : ℕ) (dates : List ℕ)
    → AreDistinct dates
    → AreAtMost today dates
    → k ≤ current_streak none today dates
    → k ≤ today
    → is_active (today - k) dates ≡ ltb k (current_streak none today dates)
unfolding current_streak
current_streak-active today k dates distinct past h b =
    sym (latest-active (today - k) dates)
    ∙ streak_of-active today k (latest_first dates) (latest-Falls today dates distinct past) h b
