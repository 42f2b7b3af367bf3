-- ===== src/Routes/Search/Handler.antt =====
-- The rate limit and the handler of app/api/writeright/search/route.ts.
use brain_mate.Common.{
  ℕ, String, Bool, true, false, ◌||◌, Option, none, some, List, [], ◌∷◌, ◌++◌, length, str_eq, leb,
  ◌==◌, if◌then◌else◌,
}
use brain_mate.Errors.{
  Error, api, zod, failure, create_api_error, unauthorized, validation_error, rate_limited,
  db_error, no_meta,
}
use brain_mate.Redis.{Redis}
use brain_mate.Exec.{Exec, pure, throw, catch, is_circuit_open, ◌>>=◌, ◌>>◌}
use brain_mate.Commands.{incr, expire}
use brain_mate.Queue.Keys.{ns}
use brain_mate.Queue.RateLimit.{Verdict, verdict}
use brain_mate.Reconciliation.Operation.{truthy_text}
use brain_mate.Routes.Message.Input.{trim}
use brain_mate.Routes.Search.Query.{sanitize_search_query}
use brain_mate.Routes.Search.Merge.{
  search_limit, ChatMatch, MessageMatch, SearchResult, search_results,
}

unfoldable pub search_rate_key : String → String
search_rate_key user_id = ns ("writeright" ∷ "search" ∷ "ratelimit" ∷ user_id ∷ [])

unfoldable pub too_many_searches : Error
too_many_searches =
    create_api_error rate_limited "Search rate limit exceeded" (some 429)
      (record { headers = ("Retry-After", "60") ∷ []; extra = [] })

unfoldable pub search_failed : Error
search_failed = create_api_error db_error "Search failed" (some 500) no_meta

module _ {S : Type 0} (R : Redis S) where
  unfoldable pub check_search_rate_limit : String → Exec S Verdict
  check_search_rate_limit user_id = do
    broken ← is_circuit_open
    if broken then pure (record { allowed = true; remaining = 60 }) else do
      count ← incr R (search_rate_key user_id)
      if count == 1 then expire R (search_rate_key user_id) 60 else pure tt
      pure (verdict 60 count)

  -- only a `WriteRightError` is thrown on
  abbrev rethrow_api : Error → Exec S (Unit {0})
  rethrow_api (api e) = throw (api e)
  rethrow_api zod = pure tt
  rethrow_api (failure m) = pure tt

  unfoldable pub admit_search : String → Exec S (Unit {0})
  admit_search user_id =
      catch
        (do
          rate ← check_search_rate_limit user_id
          if rate.allowed then pure tt else throw too_many_searches)
        rethrow_api

unfoldable pub has_id : String → List String → Bool
has_id id [] = false
has_id id (x ∷ xs) = str_eq x id || has_id id xs

abbrev add_id : List String → Option String → List String
add_id ids none = ids
add_id ids (some id) = if has_id id ids then ids else ids ++ id ∷ []

-- the set of the chats of the messages, each where it occurs first
unfoldable pub ids_from : List String → List MessageMatch → List String
ids_from ids [] = ids
ids_from ids (m ∷ ms) = ids_from (add_id ids (truthy_text m.chat_id)) ms

-- The queries of a user, `none` for an error: the chats whose title matches and the messages of the
-- user whose content does, at most so many, and the chats with one of the ids.
pub record SearchTables (S : Type 0) : Type 0 where
  pub select_titles : String → List ℕ → ℕ → Exec S (Option (List ChatMatch))
  pub select_messages : String → List ℕ → ℕ → Exec S (Option (List MessageMatch))
  pub select_chats : String → List String → Exec S (Option (List ChatMatch))

module _ {S : Type 0} (R : Redis S) (lower : List ℕ → List ℕ) (epoch : String) (time : String → ℕ)
    (db : SearchTables S) where
  abbrev merged :
      List ℕ
      → List ChatMatch
      → List MessageMatch
      → Option (List ChatMatch)
      → Exec S (List SearchResult)
  merged query titles messages none = throw search_failed
  merged query titles messages (some chats) =
      pure (search_results lower epoch time query titles messages chats)

  abbrev supplement : String → List String → Exec S (Option (List ChatMatch))
  supplement user_id [] = pure (some [])
  supplement user_id (id ∷ ids) = db.select_chats user_id (id ∷ ids)

  abbrev both :
      String
      → List ℕ
      → Option (List ChatMatch)
      → Option (List MessageMatch)
      → Exec S (List SearchResult)
  both user_id query (some titles) (some messages) = do
    chats ← supplement user_id (ids_from [] messages)
    merged query titles messages chats
  both user_id query none _ = throw search_failed
  both user_id query (some titles) none = throw search_failed

  -- the queries, of which the first two are sent at once
  unfoldable pub find_matches : String → List ℕ → Exec S (List SearchResult)
  find_matches user_id query = do
    titles ← db.select_titles user_id query search_limit
    messages ← db.select_messages user_id query search_limit
    both user_id query titles messages

  abbrev search_for : String → List ℕ → Exec S (List SearchResult)
  search_for user_id [] =
      throw (create_api_error validation_error "Query too short" (some 400) no_meta)
  search_for user_id (u ∷ us) = find_matches user_id (u ∷ us)

  -- the query without the white space around it
  unfoldable pub search_trimmed : String → List ℕ → Exec S (List SearchResult)
  search_trimmed user_id [] = pure []
  search_trimmed user_id (u ∷ us) =
      if leb (length (u ∷ us)) 100
      then search_for user_id (sanitize_search_query (u ∷ us))
      else throw (create_api_error validation_error "Invalid query" (some 400) no_meta)

  unfoldable pub search_as : Option String → List ℕ → Exec S (List SearchResult)
  search_as none q = throw (create_api_error unauthorized "Not authenticated" (some 401) no_meta)
  search_as (some user_id) q = do admit_search R user_id; search_trimmed user_id (trim q)

  -- `q` is the parameter of the URL, empty where it has none
  unfoldable pub search : Option String → List ℕ → Exec S (List SearchResult)
  search user_id q = search_as (truthy_text user_id) q
