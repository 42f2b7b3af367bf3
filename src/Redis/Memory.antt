-- ===== src/Redis/Memory.antt =====
-- A server in memory that meets the laws: it shows that they can hold, and runs the tests.
use brain_mate.Common.{
  ℕ, String, ◌≡◌, refl, ◌∙◌, inl, inr, Bool-cases, ◌+◌, Bool, true, false, ◌&&◌, Option, none, some,
  List, [], ◌∷◌, ◌++◌, length, take, str_eq, eq_iff, eq_refl, if◌then◌else◌, is_some, Fields,
  field-append, arith, leb, ltb, ◌≤◌,
}
use brain_mate.Types.{Text, number, same, same_iff}
use brain_mate.Redis.{Redis, counter, ZsetLaws, StringLaws, HashLaws, IsLawful}

record Scored : Type 0 where
  key : String
  member : Text
  score : ℕ

pub record Memory : Type 0 where
  zsets : List Scored
  strings : String → Option Text
  ttls : String → Option ℕ
  hashes : String → Fields
  streams : String → List Text

abbrev pub empty : Memory
empty = record {
  zsets = [];
  strings = λ _. none;
  ttls = λ _. none;
  hashes = λ _. [];
  streams = λ _. [];
}

update {ℓ} : {A : Type ℓ} → (String → A) → String → A → String → A
update f k v j = if str_eq k j then v else f j

is_at : String → Text → Scored → Bool
is_at k m x = str_eq x.key k && same x.member m

score : List Scored → String → Text → Option ℕ
unfolding is_at
score [] k m = none
score (x ∷ z) k m = if is_at k m x then some x.score else score z k m

-- keep the items that a test rejects
drop_if : (Scored → Bool) → List Scored → List Scored
drop_if p [] = []
drop_if p (x ∷ z) = let rest = drop_if p z in if p x then rest else x ∷ rest

-- in order of the scores, the older first among equals
insert : Scored → List Scored → List Scored
insert y [] = y ∷ []
insert y (x ∷ z) = if leb x.score y.score then x ∷ insert y z else y ∷ x ∷ z

members : String → (ℕ → Bool) → List Scored → List Text
members k p [] = []
members k p (x ∷ z) =
    let rest = members k p z in if str_eq x.key k && p x.score then x.member ∷ rest else rest

remove : String → Text → List Scored → List Scored
remove k m = drop_if (is_at k m)

remove_all : String → List Text → List Scored → List Scored
remove_all k [] z = z
remove_all k (m ∷ ms) z = remove_all k ms (remove k m z)

unfoldable pub memory : Redis Memory
unfolding insert remove score members drop_if remove_all update
memory = record {
  zadd = λ s k n m. record s {
    zsets = insert (record { key = k; member = m; score = n }) (remove k m s.zsets);
  };
  zrem = λ s k m. record s { zsets = remove k m s.zsets };
  zscore = λ s k m. score s.zsets k m;
  zcard = λ s k. length (members k (λ _. true) s.zsets);
  zrangebyscore = λ s k top n. take n (members k (λ x. leb x top) s.zsets);
  zrange_all = λ s k. members k (λ _. true) s.zsets;
  zremrangebyscore =
      λ s k top. record s { zsets = drop_if (λ x. str_eq x.key k && ltb x.score top) s.zsets };
  zpopmin = λ s k n. (
    take n (members k (λ _. true) s.zsets),
    record s { zsets = remove_all k (take n (members k (λ _. true) s.zsets)) s.zsets },
  );
  get = λ s k. s.strings k;
  setex = λ s k t v. record s {
    strings = update s.strings k (some v);
    ttls = update s.ttls k (some t);
  };
  del = λ s k. record s {
    zsets = drop_if (λ x. str_eq x.key k) s.zsets;
    strings = update s.strings k none;
    ttls = update s.ttls k none;
    hashes = update s.hashes k [];
    streams = update s.streams k [];
  };
  incr = λ s k. (
    counter (s.strings k) + 1,
    record s { strings = update s.strings k (some (number (counter (s.strings k) + 1))) },
  );
  ttl = λ s k. s.ttls k;
  expire = λ s k t. record s {
    ttls = if is_some (s.strings k) then update s.ttls k (some t) else s.ttls;
  };
  hgetall = λ s k. s.hashes k;
  hset = λ s k fs. record s { hashes = update s.hashes k (s.hashes k ++ fs) };
  xadd = λ s k v. record s { streams = update s.streams k (s.streams k ++ v ∷ []) };
  stream = λ s k. s.streams k;
}

module _ (k : String) (m : Text) (j : String) (m' : Text) where
  score-remove :
      (z : List Scored)
      → score (remove k m z) j m' ≡ (if str_eq k j && same m m' then none else score z j m')
  unfolding score remove drop_if
  score-remove [] = ground arith
  score-remove (x ∷ z) = ground (
    arith,
    score-remove z,
    eq_iff x.key k,
    eq_iff x.key j,
    eq_iff k j,
    same_iff x.member m,
    same_iff x.member m',
    same_iff m m',
  )

  score-insert :
      (n : ℕ) (z : List Scored)
      → (str_eq k j && same m m' ≡ true → score z j m' ≡ none)
      → score (insert (record { key = k; member = m; score = n }) z) j m'
        ≡ (if str_eq k j && same m m' then some n else score z j m')
  unfolding score insert
  score-insert n [] h = refl
  score-insert n (x ∷ z) h =
      ground
        (arith, score-insert n z, eq_iff x.key j, eq_iff k j, same_iff x.member m', same_iff m m')

drop_if-keep :
    (p : Scored → Bool) (z : List Scored) (j : String) (m : Text)
    → ((x : Scored) → is_at j m x ≡ true → score z j m ≡ some x.score → p x ≡ false)
    → score (drop_if p z) j m ≡ score z j m
unfolding score drop_if
drop_if-keep p [] j m h = refl
drop_if-keep p (x ∷ z) j m h = elim (Bool-cases (is_at j m x)) [
  | inl here ↦ rw (h x here (rw here)) (rw here)
  | inr there ↦
      let ih = drop_if-keep p z j m (λ y at found. h y at (rw there found)) in
      elim (Bool-cases (p x)) [ inl gone ↦ rw (gone, there) ih | inr kept ↦ rw (kept, there) ih ]
]

drop_if_key :
    (k : String) (z : List Scored) (j : String) (m : Text)
    → score (drop_if (λ x. str_eq x.key k) z) j m ≡ (if str_eq k j then none else score z j m)
unfolding score drop_if
drop_if_key k [] j m = ground arith
drop_if_key k (x ∷ z) j m =
    ground (arith, drop_if_key k z j m, eq_iff x.key k, eq_iff x.key j, eq_iff k j)

other_key :
    (k j : String) (m : Text) (n : ℕ) (x : Scored)
    → str_eq k j ≡ false
    → is_at j m x ≡ true
    → (str_eq x.key k && ltb x.score n) ≡ false
unfolding is_at
other_key k j m n x e at = ground (arith, eq_iff x.key k, eq_iff x.key j, eq_iff k j)

above :
    (k : String) (n : ℕ) (x : Scored) (sc : ℕ)
    → x.score ≡ sc
    → n ≤ sc
    → (str_eq x.key k && ltb x.score n) ≡ false
above k n x sc e l = ground arith

zset : ZsetLaws memory
unfolding memory
zset = record {
  zscore-zadd = λ s k n m j m'.
      score-insert k m j m' n (remove k m s.zsets) (λ e. rw (score-remove k m j m' s.zsets) (rw e))
      ∙ ground (arith, score-remove k m j m' s.zsets);
  zscore-zrem = λ s k m j m'. score-remove k m j m' s.zsets;
  zscore-zremrangebyscore_ne =
      λ s k n j m e. drop_if-keep _ s.zsets j m (λ x at _. other_key k j m n x e at);
  zscore-zremrangebyscore_above =
      λ s k n j m sc e l. drop_if-keep _ s.zsets j m (λ x at found. above k n x sc (cc) l) ∙ e;
  zscore-setex = λ s k t v j m e. refl;
  zscore-del = λ s k j m. drop_if_key k s.zsets j m;
  zscore-incr = λ s k j m. refl;
  zscore-expire = λ s k t j m p. refl;
  zscore-hset = λ s k fs j m. refl;
}

strings : StringLaws memory
unfolding memory
strings = record {
  get-setex = λ s k t v j. refl;
  get-del = λ s k j. refl;
  incr_reply = λ s k c. refl;
  get-incr_self = λ s k c. rw (eq_refl k);
  get-incr_ne = λ s k j e. rw e;
  get-expire = λ s k t j p. refl;
  get-zadd = λ s k n m j. refl;
  get-zrem = λ s k m j. refl;
  get-zremrangebyscore = λ s k n j. refl;
  get-hset = λ s k fs j. refl;
  get-xadd = λ s k v j. refl;
  ttl-incr = λ s k j. refl;
  ttl-expire = λ s k t j p. ground arith;
  ttl-setex = λ s k t v j. refl;
}

hashes : HashLaws memory
unfolding memory
hashes = record {
  hgetall-hset = λ s k fs j f. ground (arith, field-append f (s.hashes k) fs, eq_iff k j);
  hgetall-hset_ne = λ s k fs j e. rw e;
  hgetall-expire = λ s k t j p. refl;
  hgetall-zadd = λ s k n m j. refl;
  hgetall-setex = λ s k t v j e. refl;
  hgetall-del = λ s k j e. rw e;
  hgetall-xadd = λ s k v j. refl;
  stream-xadd = λ s k v j h. ground (arith, eq_iff k j);
  stream-xadd_ne = λ s k v j e. rw e;
  stream-expire = λ s k t j p. refl;
  stream-hset = λ s k fs j. refl;
  stream-setex = λ s k t v j e. refl;
  stream-del = λ s k j e. rw e;
}

pub memory-IsLawful : IsLawful memory
memory-IsLawful = record { zset = zset; strings = strings; hashes = hashes }
