-- ===== src/Routes/Search/Once.antt =====
-- The results of a search: each chat once, the newest first, and no more than the limit.
use brain_mate.Common.{
  ℕ, zero, suc, String, ◌≡◌, refl, ap, ◌∙◌, ◌+◌, ◌≤◌, true, false, Option, none, some, List, [],
  ◌∷◌, ◌++◌, take, length, length-take-le, str_eq, eq_iff, leb, leb→le, All, ◌⊎◌, eq_refl,
  if◌then◌else◌, arith, Bool-cases, inl, inr,
}
use brain_mate.Queue.Jobs.{default_to}
use brain_mate.Reconciliation.Operation.{truthy_text}
use brain_mate.Routes.Search.Merge.{
  search_limit, ChatMatch, MessageMatch, Snippet, of_title, SearchResult, has_result, chat_meta,
  result_for, add_result, add_found, add_in, add_messages, add_titles, insert_result, sort_results,
  search_results,
}

-- the number of the results of a chat
abbrev pub results_of : String → List SearchResult → ℕ
results_of id [] = 0
results_of id (r ∷ rs) = if str_eq r.chat_id id then suc (results_of id rs) else results_of id rs

results_of-append :
    (id : String) (xs : List SearchResult) (r : SearchResult)
    → results_of id (xs ++ r ∷ []) ≡ results_of id xs + results_of id (r ∷ [])
results_of-append id [] r = ground arith
results_of-append id (x ∷ xs) r = ground (arith, results_of-append id xs r)

has_result-none :
    (id : String) (xs : List SearchResult) → has_result id xs ≡ false → results_of id xs ≡ 0
unfolding has_result
has_result-none id [] h = refl
has_result-none id (x ∷ xs) h = ground (arith, has_result-none id xs, h)

has_result-some :
    (id : String) (xs : List SearchResult) → has_result id xs ≡ true → 1 ≤ results_of id xs
unfolding has_result
has_result-some id [] h = absurd (cc)
has_result-some id (x ∷ xs) h = ground (arith, has_result-some id xs, h)

take-all : (n : ℕ) (xs : List SearchResult) → length xs ≤ n → take n xs ≡ xs
take-all zero [] h = refl
take-all zero (x ∷ xs) h = absurd (omega (arith, h))
take-all (suc n) [] h = refl
take-all (suc n) (x ∷ xs) h = ap (λ s. x ∷ s) (take-all n xs (omega (arith, h)))

length-take : (n : ℕ) (xs : List SearchResult) → n ≤ length xs → length (take n xs) ≡ n
length-take zero xs h = refl
length-take (suc n) [] h = absurd (omega (arith, h))
length-take (suc n) (x ∷ xs) h = ap suc (length-take n xs (omega (arith, h)))

results_of-take :
    (id : String) (n : ℕ) (xs : List SearchResult) → results_of id (take n xs) ≤ results_of id xs
results_of-take id zero xs = omega arith
results_of-take id (suc n) [] = omega arith
results_of-take id (suc n) (x ∷ xs) = ground (arith, results_of-take id n xs)

module _ (lower : List ℕ → List ℕ) (epoch : String) (time : String → ℕ) (query : List ℕ) where
  add_result-once :
      (id : String) (rs : List SearchResult) (chat : ChatMatch) (s : Snippet)
      → results_of id rs ≤ 1
      → results_of id (add_result lower epoch time query rs chat s) ≤ 1
  unfolding add_result result_for
  add_result-once id rs chat s h = elim (Bool-cases (has_result chat.id rs)) [
    | inl y ↦ rw (y) h
    | inr n ↦
        rw (n, results_of-append id rs (result_for lower epoch time query chat s))
          (ground (arith, has_result-none chat.id rs n, eq_iff chat.id id, h))
  ]

  add_found-once :
      (id : String) (rs : List SearchResult) (content : List ℕ) (found : Option ChatMatch)
      → results_of id rs ≤ 1
      → results_of id (add_found lower epoch time query rs content found) ≤ 1
  add_found-once id rs content none h = h
  add_found-once id rs content (some chat) h = add_result-once id rs chat _ h

  add_in-once :
      (id : String) (chats : List ChatMatch) (rs : List SearchResult) (content : List ℕ)
      (key : Option String)
      → results_of id rs ≤ 1
      → results_of id (add_in lower epoch time query chats rs content key) ≤ 1
  add_in-once id chats rs content none h = h
  add_in-once id chats rs content (some key) h =
      add_found-once id rs content (chat_meta key chats) h

  add_messages-once :
      (id : String) (chats : List ChatMatch) (rs : List SearchResult) (ms : List MessageMatch)
      → results_of id rs ≤ 1
      → results_of id (add_messages lower epoch time query chats rs ms) ≤ 1
  unfolding add_messages
  add_messages-once id chats rs [] h = h
  add_messages-once id chats rs (m ∷ ms) h =
      add_messages-once id chats
        (add_in lower epoch time query chats rs (default_to [] m.content) (truthy_text m.chat_id))
        ms (add_in-once id chats rs (default_to [] m.content) (truthy_text m.chat_id) h)

  add_titles-once :
      (id : String) (rs : List SearchResult) (chats : List ChatMatch)
      → results_of id rs ≤ 1
      → results_of id (add_titles lower epoch time query rs chats) ≤ 1
  unfolding add_titles
  add_titles-once id rs [] h = h
  add_titles-once id rs (chat ∷ chats) h =
      add_titles-once id (add_result lower epoch time query rs chat (of_title query)) chats
        (add_result-once id rs chat (of_title query) h)

  results_of-insert :
      (id : String) (r : SearchResult) (rs : List SearchResult)
      → results_of id (insert_result lower epoch time query r rs) ≡ results_of id (r ∷ rs)
  unfolding insert_result
  results_of-insert id r [] = refl
  results_of-insert id r (s ∷ ss) = ground (arith, results_of-insert id r ss)

  results_of-sort :
      (id : String) (rs : List SearchResult)
      → results_of id (sort_results lower epoch time query rs) ≡ results_of id rs
  unfolding sort_results
  results_of-sort id [] = refl
  results_of-sort id (r ∷ rs) =
      results_of-insert id r (sort_results lower epoch time query rs)
      ∙ ground (arith, results_of-sort id rs)

  abbrev pub IsBelow : ℕ → List SearchResult → Type 0
  IsBelow n [] = Unit
  IsBelow n (r ∷ rs) = time r.updated_at ≤ n

  -- each result is followed by one that is not newer
  abbrev pub IsNewestFirst : List SearchResult → Type 0
  IsNewestFirst [] = Unit
  IsNewestFirst (r ∷ rs) = IsBelow (time r.updated_at) rs × IsNewestFirst rs

  insert-IsBelow :
      (n : ℕ) (r : SearchResult) (rs : List SearchResult)
      → time r.updated_at ≤ n
      → IsBelow n rs
      → IsBelow n (insert_result lower epoch time query r rs)
  unfolding insert_result
  insert-IsBelow n r [] h b = h
  insert-IsBelow n r (s ∷ ss) h b =
      elim (Bool-cases (leb (time s.updated_at) (time r.updated_at))) [
        | inl y ↦ rw (y) h
        | inr f ↦ rw (f) b
      ]

  insert-IsNewestFirst :
      (r : SearchResult) (rs : List SearchResult)
      → IsNewestFirst rs
      → IsNewestFirst (insert_result lower epoch time query r rs)
  unfolding insert_result
  insert-IsNewestFirst r [] h = (tt, tt)
  insert-IsNewestFirst r (s ∷ ss) h =
      elim (Bool-cases (leb (time s.updated_at) (time r.updated_at))) [
        | inl y ↦ rw (y) (ground (arith, y), h)
        | inr f ↦ rw (f) (
          insert-IsBelow (time s.updated_at) r ss (ground (arith, f)) h.0,
          insert-IsNewestFirst r ss h.1,
        )
      ]

  sort-IsNewestFirst :
      (rs : List SearchResult) → IsNewestFirst (sort_results lower epoch time query rs)
  unfolding sort_results
  sort-IsNewestFirst [] = tt
  sort-IsNewestFirst (r ∷ rs) =
      insert-IsNewestFirst r (sort_results lower epoch time query rs) (sort-IsNewestFirst rs)

  take-IsBelow : (n k : ℕ) (rs : List SearchResult) → IsBelow k rs → IsBelow k (take n rs)
  take-IsBelow zero k rs h = tt
  take-IsBelow (suc n) k [] h = tt
  take-IsBelow (suc n) k (r ∷ rs) h = h

  take-IsNewestFirst :
      (n : ℕ) (rs : List SearchResult) → IsNewestFirst rs → IsNewestFirst (take n rs)
  take-IsNewestFirst zero rs h = tt
  take-IsNewestFirst (suc n) [] h = tt
  take-IsNewestFirst (suc n) (r ∷ rs) h =
      (take-IsBelow n (time r.updated_at) rs h.0, take-IsNewestFirst n rs h.1)

  add_result-grows :
      (id : String) (rs : List SearchResult) (chat : ChatMatch) (s : Snippet)
      → results_of id rs ≤ results_of id (add_result lower epoch time query rs chat s)
  unfolding add_result
  add_result-grows id rs chat s = elim (Bool-cases (has_result chat.id rs)) [
    | inl y ↦ rw (y) (omega arith)
    | inr n ↦
        rw (n, results_of-append id rs (result_for lower epoch time query chat s)) (omega arith)
  ]

  add_result-there :
      (rs : List SearchResult) (chat : ChatMatch) (s : Snippet)
      → 1 ≤ results_of chat.id (add_result lower epoch time query rs chat s)
  unfolding add_result result_for
  add_result-there rs chat s = elim (Bool-cases (has_result chat.id rs)) [
    | inl y ↦ rw (y) (has_result-some chat.id rs y)
    | inr n ↦
        rw (n, results_of-append chat.id rs (result_for lower epoch time query chat s))
          (ground (arith, eq_refl chat.id))
  ]

  add_titles-grows :
      (id : String) (rs : List SearchResult) (chats : List ChatMatch)
      → results_of id rs ≤ results_of id (add_titles lower epoch time query rs chats)
  unfolding add_titles
  add_titles-grows id rs [] = omega arith
  add_titles-grows id rs (chat ∷ chats) = omega (
    arith,
    add_result-grows id rs chat (of_title query),
    add_titles-grows id (add_result lower epoch time query rs chat (of_title query)) chats,
  )

  -- every chat of a list is among the results
  abbrev pub AreFound : List SearchResult → List ChatMatch → Type 0
  AreFound results = All (λ chat. 1 ≤ results_of chat.id results)

  add_titles-AreFound :
      (rs : List SearchResult) (chats : List ChatMatch)
      → AreFound (add_titles lower epoch time query rs chats) chats
  unfolding add_titles
  add_titles-AreFound rs [] = tt
  add_titles-AreFound rs (chat ∷ chats) =
      let next = add_result lower epoch time query rs chat (of_title query) in
      (
        omega
            (arith, add_result-there rs chat (of_title query), add_titles-grows chat.id next chats),
        add_titles-AreFound next chats,
      )

  sort-AreFound :
      (rs : List SearchResult) (chats : List ChatMatch)
      → AreFound rs chats
      → AreFound (sort_results lower epoch time query rs) chats
  sort-AreFound rs [] h = tt
  sort-AreFound rs (chat ∷ chats) (p, h) =
      (omega (arith, p, results_of-sort chat.id rs), sort-AreFound rs chats h)

  take-AreFound :
      (n : ℕ) (rs : List SearchResult) (chats : List ChatMatch)
      → AreFound rs chats
      → (length (take n rs) ≡ n) ⊎ AreFound (take n rs) chats
  take-AreFound n rs chats h = elim (Bool-cases (leb (length rs) n)) [
    | inl y ↦ inr (rw (take-all n rs (leb→le (length rs) n y)) h)
    | inr f ↦ inl (length-take n rs (ground (arith, f)))
  ]

  -- A search gives no more than thirty results, the chat that was updated last first, and no chat
  -- twice, whatever rows match. Unless there are thirty, every chat whose title matches is among
  -- them.
  pub search_results-IsNewestFirst :
      (titles : List ChatMatch) (messages : List MessageMatch) (supplemental : List ChatMatch)
      → IsNewestFirst (search_results lower epoch time query titles messages supplemental)
        × ((length (search_results lower epoch time query titles messages supplemental) ≤ 30)
            × (((id : String)
                  → results_of id
                      (search_results lower epoch time query titles messages supplemental)
                    ≤ 1)
                × ((length (search_results lower epoch time query titles messages supplemental)
                      ≡ 30)
                    ⊎ AreFound
                        (search_results lower epoch time query titles messages supplemental)
                        titles)))
  unfolding search_results
  search_results-IsNewestFirst titles messages supplemental =
      let quoted = add_messages lower epoch time query (titles ++ supplemental) [] messages in
      let merged = add_titles lower epoch time query quoted titles in
      let sorted = sort_results lower epoch time query merged in
      (
        take-IsNewestFirst search_limit sorted (sort-IsNewestFirst merged),
        (
          length-take-le search_limit sorted,
          (
            λ id. omega (
              arith,
              results_of-take id search_limit sorted,
              results_of-sort id merged,
              add_titles-once id quoted titles
                  (add_messages-once id (titles ++ supplemental) [] messages (omega arith)),
            ),
            take-AreFound search_limit sorted titles
                (sort-AreFound merged titles (add_titles-AreFound quoted titles)),
          ),
        ),
      )
