-- ===== src/Routes/Search/Tests.antt =====
-- A search on concrete rows.
use brain_mate.Common.{
  ℕ, String, ◌≡◌, refl, ◌≤◌, ◌⊎◌, none, some, List, [], ◌∷◌, length, str_eq, if◌then◌else◌,
}
use brain_mate.Routes.Search.Query.{
  sanitize_search_query, collapse, escape, is_operator, snippet_for_query, snippet_at, index_of,
  is_prefix,
}
use brain_mate.Routes.Message.Input.{is_space, trim, trim_start}
use brain_mate.Routes.Search.Merge.{
  ChatMatch, MessageMatch, of_message, of_title, search_results, sort_results, insert_result,
  add_titles, add_messages, add_result, result_for, has_result, chat_meta,
}
use brain_mate.Routes.Search.Once.{
  results_of, IsNewestFirst, AreFound, search_results-IsNewestFirst,
}

abbrev time : String → ℕ
time text = if str_eq text "monday" then 1 else if str_eq text "tuesday" then 2 else 0

abbrev lower : List ℕ → List ℕ
lower units = units

-- "hi"
abbrev query : List ℕ
query = 104 ∷ 105 ∷ []

abbrev first : ChatMatch
first = record { id = "c1"; title = some "hi all"; mode = none; updated_at = some "monday" }

abbrev second : ChatMatch
second = record { id = "c2"; title = none; mode = some "linkedin"; updated_at = some "tuesday" }

-- "oh,  hi" in the second chat, and a message of no chat
abbrev messages : List MessageMatch
messages =
    record { chat_id = some "c2"; content = some (111 ∷ 104 ∷ 44 ∷ 32 ∷ 32 ∷ 104 ∷ 105 ∷ []) }
    ∷ record { chat_id = none; content = some query }
    ∷ []

search_results-IsNewestFirst_example :
    IsNewestFirst lower "epoch" time query
      (search_results lower "epoch" time query (first ∷ []) messages (second ∷ []))
    × ((length (search_results lower "epoch" time query (first ∷ []) messages (second ∷ [])) ≤ 30)
        × (((id : String)
              → results_of id
                  (search_results lower "epoch" time query (first ∷ []) messages (second ∷ []))
                ≤ 1)
            × ((length (search_results lower "epoch" time query (first ∷ []) messages (second ∷ []))
                  ≡ 30)
                ⊎ AreFound lower "epoch" time query
                    (search_results lower "epoch" time query (first ∷ []) messages (second ∷ []))
                    (first ∷ []))))
search_results-IsNewestFirst_example =
    search_results-IsNewestFirst lower "epoch" time query (first ∷ []) messages (second ∷ [])

-- The message's snippet has one space where the message has two, and its chat is the newer one.
two_results :
    search_results lower "epoch" time query (first ∷ []) messages (second ∷ [])
    ≡ record {
      chat_id = "c2";
      chat_title = "Untitled Chat";
      message_snippet = of_message (111 ∷ 104 ∷ 44 ∷ 32 ∷ 104 ∷ 105 ∷ []);
      mode = "linkedin";
      updated_at = "tuesday";
    }
      ∷ record {
        chat_id = "c1";
        chat_title = "hi all";
        message_snippet = of_title query;
        mode = "email";
        updated_at = "monday";
      }
      ∷ []
unfolding search_results sort_results insert_result add_titles add_messages add_result result_for
    has_result chat_meta snippet_for_query snippet_at index_of is_prefix collapse is_space trim
    trim_start
two_results = refl

-- "(it's)" is quoted and loses its parentheses
sanitized :
    sanitize_search_query (40 ∷ 105 ∷ 116 ∷ 39 ∷ 115 ∷ 41 ∷ []) ≡ 105 ∷ 116 ∷ 39 ∷ 39 ∷ 115 ∷ []
unfolding sanitize_search_query escape is_operator collapse is_space trim trim_start
sanitized = refl
