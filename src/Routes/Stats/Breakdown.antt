-- ===== src/Routes/Stats/Breakdown.antt =====
-- What the breakdowns of app/api/writeright/stats/route.ts count.
use brain_mate.Common.{
  ℕ, suc, String, ◌≡◌, refl, ◌+◌, ◌≤◌, max, false, Option, none, some, List, [], ◌∷◌, str_eq,
  eq_iff, if◌then◌else◌, arith, ltb, Bool-cases, inl, inr, length,
}
use brain_mate.Routes.Stats.{
  Counter, add_to, named, count_all, Share, to_shares, insert_share, sort_shares, breakdown, or_one,
}

-- how often a name occurs in the rows
abbrev pub occurrences : String → List (Option String) → ℕ
occurrences k [] = 0
occurrences k (none ∷ names) = occurrences k names
occurrences k (some name ∷ names) =
    if str_eq name k then suc (occurrences k names) else occurrences k names

-- the counts and the number of the shares of a name
abbrev pub total_of : String → List Share → ℕ
total_of k [] = 0
total_of k (s ∷ ss) = if str_eq s.name k then s.count + total_of k ss else total_of k ss

abbrev pub shares_of : String → List Share → ℕ
shares_of k [] = 0
shares_of k (s ∷ ss) = if str_eq s.name k then suc (shares_of k ss) else shares_of k ss

abbrev pub IsBelow : ℕ → List Share → Type 0
IsBelow n [] = Unit
IsBelow n (s ∷ ss) = s.count ≤ n

abbrev pub IsDescending : List Share → Type 0
IsDescending [] = Unit
IsDescending (s ∷ ss) = IsBelow s.count ss × IsDescending ss

abbrev sum_of : String → Counter → ℕ
sum_of k [] = 0
sum_of k ((j, n) ∷ c) = if str_eq j k then n + sum_of k c else sum_of k c

abbrev keys_of : String → Counter → ℕ
keys_of k [] = 0
keys_of k ((j, n) ∷ c) = if str_eq j k then suc (keys_of k c) else keys_of k c

abbrev found : String → List String → ℕ
found k [] = 0
found k (name ∷ names) = if str_eq name k then suc (found k names) else found k names

sum-add_to :
    (k j : String) (n : ℕ) (c : Counter)
    → sum_of k (add_to j n c) ≡ (if str_eq j k then sum_of k c + n else sum_of k c)
unfolding add_to
sum-add_to k j n [] = ground arith
sum-add_to k j n ((i, x) ∷ c) = ground (arith, sum-add_to k j n c, eq_iff i j)

keys-add_to :
    (k j : String) (n : ℕ) (c : Counter)
    → keys_of k (add_to j n c) ≡ (if str_eq j k then max 1 (keys_of k c) else keys_of k c)
unfolding add_to
keys-add_to k j n [] = ground arith
keys-add_to k j n ((i, x) ∷ c) =
    ground (arith, keys-add_to k j n c, eq_iff i j, eq_iff j k, eq_iff i k)

sum-count_all :
    (k : String) (names : List String) (c : Counter)
    → sum_of k (count_all names c) ≡ sum_of k c + found k names
unfolding count_all
sum-count_all k [] c = omega arith
sum-count_all k (name ∷ names) c =
    ground (arith, sum-count_all k names (add_to name 1 c), sum-add_to k name 1 c)

keys-count_all :
    (k : String) (names : List String) (c : Counter)
    → keys_of k c ≤ 1
    → keys_of k (count_all names c) ≤ 1
unfolding count_all
keys-count_all k [] c h = h
keys-count_all k (name ∷ names) c h =
    keys-count_all k names (add_to name 1 c) (ground (arith, keys-add_to k name 1 c, h))

found-named :
    (k : String) (names : List (Option String))
    → str_eq k "" ≡ false
    → found k (named names) ≡ occurrences k names
unfolding named
found-named k [] h = refl
found-named k (none ∷ names) h = found-named k names h
found-named k (some name ∷ names) h =
    ground (arith, found-named k names h, eq_iff name "", eq_iff name k)

total-to_shares :
    (percent : ℕ → ℕ → ℕ) (k : String) (t : ℕ) (c : Counter)
    → (total_of k (to_shares percent t c) ≡ sum_of k c)
      × (shares_of k (to_shares percent t c) ≡ keys_of k c)
unfolding to_shares
total-to_shares percent k t [] = (refl, refl)
total-to_shares percent k t ((j, n) ∷ c) = ground (arith, total-to_shares percent k t c)

total-insert :
    (k : String) (s : Share) (ts : List Share)
    → (total_of k (insert_share s ts) ≡ total_of k (s ∷ ts))
      × (shares_of k (insert_share s ts) ≡ shares_of k (s ∷ ts))
unfolding insert_share
total-insert k s [] = (refl, refl)
total-insert k s (t ∷ ts) = ground (arith, total-insert k s ts)

total-sort :
    (k : String) (sorted ss : List Share)
    → (total_of k (sort_shares sorted ss) ≡ total_of k sorted + total_of k ss)
      × (shares_of k (sort_shares sorted ss) ≡ shares_of k sorted + shares_of k ss)
unfolding sort_shares
total-sort k sorted [] = (omega arith, omega arith)
total-sort k sorted (s ∷ ss) =
    ground (arith, total-sort k (insert_share s sorted) ss, total-insert k s sorted)

insert-IsBelow :
    (n : ℕ) (s : Share) (ts : List Share)
    → s.count ≤ n
    → IsBelow n ts
    → IsBelow n (insert_share s ts)
unfolding insert_share
insert-IsBelow n s [] h b = h
insert-IsBelow n s (t ∷ ts) h b = elim (Bool-cases (ltb t.count s.count)) [
  | inl e ↦ rw e h
  | inr e ↦ rw e b
]

insert-IsDescending :
    (s : Share) (ts : List Share) → IsDescending ts → IsDescending (insert_share s ts)
unfolding insert_share
insert-IsDescending s [] d = (tt, tt)
insert-IsDescending s (t ∷ ts) d = elim (Bool-cases (ltb t.count s.count)) [
  | inl e ↦ let under : t.count ≤ s.count = ground (arith, e) in rw e (under, d)
  | inr e ↦
      let over : s.count ≤ t.count = ground (arith, e) in
      rw e (insert-IsBelow t.count s ts over d.0, insert-IsDescending s ts d.1)
]

sort-IsDescending :
    (sorted ss : List Share) → IsDescending sorted → IsDescending (sort_shares sorted ss)
unfolding sort_shares
sort-IsDescending sorted [] d = d
sort-IsDescending sorted (s ∷ ss) d =
    sort-IsDescending (insert_share s sorted) ss (insert-IsDescending s sorted d)

-- The breakdown of the completed jobs counts each mode, or tone: the share of a name that is not
-- empty has the number of the jobs with that name as its count, there is one share of it at most,
-- and the shares stand in the order of their counts, the largest first.
pub breakdown_lem :
    (percent : ℕ → ℕ → ℕ) (names : List (Option String)) (k : String)
    → str_eq k "" ≡ false
    → (total_of k (breakdown percent names) ≡ occurrences k names)
      × ((shares_of k (breakdown percent names) ≤ 1) × IsDescending (breakdown percent names))
unfolding breakdown
breakdown_lem percent names k h =
    let shares = to_shares percent (or_one (length names)) (count_all (named names) []) in
    let (total, number) = total-sort k [] shares in
    let (sum, keys) =
      total-to_shares percent k (or_one (length names)) (count_all (named names) []) in
    (
      omega (arith, total, sum, sum-count_all k (named names) [], found-named k names h),
      (
        omega (arith, number, keys, keys-count_all k (named names) [] (omega arith)),
        sort-IsDescending [] shares tt,
      ),
    )
