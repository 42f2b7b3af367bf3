-- ===== src/RustAuth/Outcomes.antt =====
-- What the client returns, and how often it asks.
use brain_mate.Common.{
  ℕ, zero, suc, String, ◌≡◌, ◌+◌, ◌≤◌, ◌<◌, Bool, true, ◌&&◌, not, List, [], ◌∷◌, ◌++◌, length,
  arith,
}
use brain_mate.Exec.{World, ok, Request, Reply, replied, unreachable, fetch_body}
use brain_mate.RustAuth.{is_final, sort_reply, try_once, fetch_with_retry}

-- a reply that is retried
abbrev pub is_transient : Reply → Bool
is_transient (replied n body) = not (is_final n)
is_transient (unreachable m) = true

abbrev pub all_transient : List Reply → Bool
all_transient [] = true
all_transient (r ∷ rs) = is_transient r && all_transient rs

module _ {S : Type 0} (request : Request) (token : String) where
  try_sent : (w : World S) → length (try_once request token w).1.sent ≡ length w.sent + 1
  unfolding try_once fetch_body sort_reply
  try_sent w = ground arith

  -- The client asks at least once, and at most once more than it has retries left.
  pub attempts_bounded :
      (retries : ℕ) (w : World S)
      → (length w.sent < length (fetch_with_retry retries request token w).1.sent)
        × (length (fetch_with_retry retries request token w).1.sent ≤ length w.sent + retries + 1)
  unfolding fetch_with_retry
  attempts_bounded zero w = ground (arith, try_sent w)
  attempts_bounded (suc retries) w =
      ground (arith, try_sent w, attempts_bounded retries (try_once request token w).1)

  -- A transient failure is ridden out: replies of which the first ones fail (no answer, or a
  -- status that is neither a success nor a 4xx), no more of them than there are retries left, and
  -- the next is final, make the client return the final one, and the later ones are still to come.
  pub rides_out :
      (retries : ℕ) (w : World S) (fails : List Reply) (n : ℕ) (body : String) (rest : List Reply)
      → w.replies ≡ fails ++ replied n body ∷ rest
      → all_transient fails ≡ true
      → is_final n ≡ true
      → length fails ≤ retries
      → ((fetch_with_retry retries request token w).0 ≡ ok (n, body))
        × ((fetch_with_retry retries request token w).1.replies ≡ rest)
  unfolding fetch_with_retry try_once fetch_body sort_reply
  rides_out zero w [] n body rest e t f l = ground arith
  rides_out zero w (r ∷ fails) n body rest e t f l = absurd (omega arith)
  rides_out (suc retries) w [] n body rest e t f l = ground arith
  rides_out (suc retries) w (replied k b ∷ fails) n body rest e t f l =
      ground (arith, rides_out retries (try_once request token w).1 fails n body rest)
  rides_out (suc retries) w (unreachable m ∷ fails) n body rest e t f l =
      ground (arith, rides_out retries (try_once request token w).1 fails n body rest)
