-- ===== src/Routes/Search/Merge.antt =====
-- How app/api/writeright/search/route.ts merges the matches of titles and of messages.
use brain_mate.Common.{
  ℕ, String, Bool, false, ◌||◌, Option, none, some, List, [], ◌∷◌, ◌++◌, take, is_some, str_eq, leb,
  if◌then◌else◌,
}
use brain_mate.Queue.Jobs.{default_to}
use brain_mate.Reconciliation.Operation.{truthy_text}
use brain_mate.Routes.Search.Query.{snippet_for_query}

abbrev pub search_limit : ℕ
search_limit = 30

-- a row of `writeright_chats`
pub record ChatMatch : Type 0 where
  pub id : String
  pub title : Option String
  pub mode : Option String
  pub updated_at : Option String

-- a row of `writeright_messages`
pub record MessageMatch : Type 0 where
  pub chat_id : Option String
  pub content : Option (List ℕ)

-- what a result quotes: a part of a message, or the query that the title matches
pub data Snippet : Type 0 where
  of_message of_title : List ℕ → Snippet

pub record SearchResult : Type 0 where
  pub chat_id : String
  pub chat_title : String
  pub message_snippet : Snippet
  pub mode : String
  pub updated_at : String

unfoldable pub has_result : String → List SearchResult → Bool
has_result id [] = false
has_result id (r ∷ rs) = str_eq r.chat_id id || has_result id rs

-- The entry of `chatMeta`: the last of the rows with the id.
unfoldable pub chat_meta : String → List ChatMatch → Option ChatMatch
chat_meta id [] = none
chat_meta id (row ∷ rows) =
    let later = chat_meta id rows in
    if is_some later then later else if str_eq row.id id then some row else none

-- `lower` is `toLowerCase`, `epoch` is `new Date(0).toISOString()`, `time` is `getTime` of a text.
module _ (lower : List ℕ → List ℕ) (epoch : String) (time : String → ℕ) (query : List ℕ) where
  unfoldable pub result_for : ChatMatch → Snippet → SearchResult
  result_for chat snippet = record {
    chat_id = chat.id;
    chat_title = default_to "Untitled Chat" chat.title;
    message_snippet = snippet;
    mode = default_to "email" chat.mode;
    updated_at = default_to epoch chat.updated_at;
  }

  -- A new key of the map goes to its end.
  unfoldable pub add_result : List SearchResult → ChatMatch → Snippet → List SearchResult
  add_result results chat snippet =
      if has_result chat.id results then results else results ++ result_for chat snippet ∷ []

  abbrev pub add_found : List SearchResult → List ℕ → Option ChatMatch → List SearchResult
  add_found results content none = results
  add_found results content (some chat) =
      add_result results chat (of_message (snippet_for_query lower content query))

  abbrev pub add_in :
      List ChatMatch → List SearchResult → List ℕ → Option String → List SearchResult
  add_in chats results content none = results
  add_in chats results content (some id) = add_found results content (chat_meta id chats)

  -- the first loop
  unfoldable pub add_messages :
      List ChatMatch → List SearchResult → List MessageMatch → List SearchResult
  add_messages chats results [] = results
  add_messages chats results (m ∷ ms) =
      add_messages chats (add_in chats results (default_to [] m.content) (truthy_text m.chat_id)) ms

  -- the second loop
  unfoldable pub add_titles : List SearchResult → List ChatMatch → List SearchResult
  add_titles results [] = results
  add_titles results (chat ∷ chats) = add_titles (add_result results chat (of_title query)) chats

  -- the sort, the newest first, which keeps the order of equal times
  unfoldable pub insert_result : SearchResult → List SearchResult → List SearchResult
  insert_result r [] = r ∷ []
  insert_result r (s ∷ ss) =
      let rest = insert_result r ss in
      if leb (time s.updated_at) (time r.updated_at) then r ∷ s ∷ ss else s ∷ rest

  unfoldable pub sort_results : List SearchResult → List SearchResult
  sort_results [] = []
  sort_results (r ∷ rs) = insert_result r (sort_results rs)

  unfoldable pub search_results :
      List ChatMatch → List MessageMatch → List ChatMatch → List SearchResult
  search_results titles messages supplemental =
      take search_limit
        (sort_results (add_titles (add_messages (titles ++ supplemental) [] messages) titles))
