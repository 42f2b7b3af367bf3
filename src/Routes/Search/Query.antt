-- ===== src/Routes/Search/Query.antt =====
-- `sanitizeSearchQuery` and `snippetForQuery` of app/api/writeright/search/route.ts. A text is the
-- list of its UTF-16 code units.
use brain_mate.Common.{
  ℕ, zero, suc, ◌+◌, ◌-◌, min, Bool, true, false, ◌&&◌, ◌||◌, Option, none, some, List, [], ◌∷◌,
  ◌++◌, length, take, ◌==◌, ltb, if◌then◌else◌,
}
use brain_mate.Routes.Message.Input.{is_space, trim}

abbrev pub drop : ℕ → List ℕ → List ℕ
drop zero xs = xs
drop (suc n) [] = []
drop (suc n) (x ∷ xs) = drop n xs

abbrev starts_with_space : List ℕ → Bool
starts_with_space [] = false
starts_with_space (u ∷ us) = u == 32

-- `replace(/\s+/g, " ")`: a run of white space is one space
unfoldable pub collapse : List ℕ → List ℕ
collapse [] = []
collapse (u ∷ us) =
    let rest = collapse us in
    if is_space u then (if starts_with_space rest then rest else 32 ∷ rest) else u ∷ rest

-- one of | & ! ( )
unfoldable pub is_operator : ℕ → Bool
is_operator u = (u == 124) || (u == 38) || (u == 33) || (u == 40) || (u == 41)

unfoldable pub escape : List ℕ → List ℕ
escape [] = []
escape (u ∷ us) =
    let rest = escape us in
    if u == 39 then 39 ∷ 39 ∷ rest else if is_operator u then 32 ∷ rest else u ∷ rest

unfoldable pub sanitize_search_query : List ℕ → List ℕ
sanitize_search_query query = trim (collapse (escape query))

unfoldable pub is_prefix : List ℕ → List ℕ → Bool
is_prefix [] us = true
is_prefix (q ∷ qs) [] = false
is_prefix (q ∷ qs) (u ∷ us) = (q == u) && is_prefix qs us

abbrev after_one : Option ℕ → Option ℕ
after_one none = none
after_one (some n) = some (suc n)

-- `indexOf`
unfoldable pub index_of : List ℕ → List ℕ → Option ℕ
index_of qs [] = if is_prefix qs [] then some 0 else none
index_of qs (u ∷ us) =
    let rest = index_of qs us in if is_prefix qs (u ∷ us) then some 0 else after_one rest

abbrev ellipsis : Bool → List ℕ
ellipsis true = 8230 ∷ []
ellipsis false = []

unfoldable pub snippet_at : List ℕ → ℕ → Option ℕ → List ℕ
snippet_at normalized q none = take 180 normalized
snippet_at normalized q (some idx) =
    let start = idx - 40 in
    let end = min (length normalized) (idx + q + 90) in
    ellipsis (ltb 0 start)
    ++ (take (end - start) (drop start normalized) ++ ellipsis (ltb end (length normalized)))

-- `lower` is `toLowerCase`.
unfoldable pub snippet_for_query : (List ℕ → List ℕ) → List ℕ → List ℕ → List ℕ
snippet_for_query lower content query =
    let normalized = trim (collapse content) in
    snippet_at normalized (length (lower query)) (index_of (lower query) (lower normalized))
