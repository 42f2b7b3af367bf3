-- ===== src/Routes/Share/View.antt =====
-- GET of app/api/writeright/public/share/[token]/route.ts: what anyone with the link sees.
use brain_mate.Common.{ℕ, String, true, Option, none, some, List, [], ◌∷◌, if◌then◌else◌, ◌==◌}
use brain_mate.Types.{Scores}
use brain_mate.Errors.{create_api_error, rate_limited, not_found, no_meta}
use brain_mate.Redis.{Redis}
use brain_mate.Exec.{Exec, pure, throw, is_circuit_open, ◌>>=◌, ◌>>◌}
use brain_mate.Commands.{incr, expire}
use brain_mate.Queue.Keys.{ns}
use brain_mate.Queue.RateLimit.{Verdict, verdict}
use brain_mate.Routes.Completion.{text_or}
use brain_mate.Routes.Share.Token.{Codec, check_token}

-- a row of the view `writeright_public_shares`
pub record PublicRow : Type 0 where
  pub after_text : String
  pub mode : String
  pub tone : String
  pub scores : Option Scores
  pub created_at : String
  pub expires_at : String

pub record PublicShare : Type 0 where
  pub before : String
  pub after : PublicRow
  pub app_url : String

-- The queries, `none` for an error or no row: the view's row and the shared job of a token, the
-- message of a job, and the content of a message.
pub record PublicTables (S : Type 0) : Type 0 where
  pub select_public : List ℕ → Exec S (Option PublicRow)
  pub select_link : List ℕ → Exec S (Option String)
  pub select_message : String → Exec S (Option String)
  pub select_content : String → Exec S (Option String)

unfoldable pub public_share_key : String → String
public_share_key ip = ns ("writeright" ∷ "public_share_ratelimit" ∷ ip ∷ [])

module _ {S : Type 0} (R : Redis S) where
  unfoldable pub check_public_share_rate_limit : String → Exec S Verdict
  check_public_share_rate_limit ip = do
    broken ← is_circuit_open
    if broken then pure (record { allowed = true; remaining = 60 }) else do
      count ← incr R (public_share_key ip)
      if count == 1 then expire R (public_share_key ip) 60 else pure tt
      pure (verdict 60 count)

module _ {S : Type 0} (db : PublicTables S) where
  abbrev content_of : Option String → Exec S String
  content_of none = pure ""
  content_of (some message_id) = do
    content ← db.select_content message_id
    pure (text_or content "")

  unfoldable pub before_text : String → Exec S String
  before_text job_id = do message_id ← db.select_message job_id; content_of message_id

  abbrev linked : Option String → PublicRow → Option String → Exec S PublicShare
  linked app_url row none =
      throw (create_api_error not_found "Share link not found or expired" (some 404) no_meta)
  linked app_url row (some job_id) = do
    before ← before_text job_id
    pure (record {
      before = before;
      after = row;
      app_url = text_or app_url "https://brainmateai.com";
    })

  abbrev found : Option String → List ℕ → Option PublicRow → Exec S PublicShare
  found app_url token none =
      throw (create_api_error not_found "Share link not found or expired" (some 404) no_meta)
  found app_url token (some row) = do link ← db.select_link token; linked app_url row link

  -- the queries, once the token is checked
  unfoldable pub load_share : Option String → List ℕ → Exec S PublicShare
  load_share app_url token = do row ← db.select_public token; found app_url token row

-- `secret` is `share_secret` of the environment's three variables.
module _ {S : Type 0} (R : Redis S) (C : Codec) (secret app_url : Option String)
    (db : PublicTables S) where
  unfoldable pub view_checked : List ℕ → Exec S PublicShare
  view_checked token = do check_token C secret token; load_share db app_url token

  -- `ip` is the header `x-forwarded-for`
  unfoldable pub view_share : Option String → List ℕ → Exec S PublicShare
  view_share ip token = do
    rate ← check_public_share_rate_limit R (text_or ip "unknown")
    if rate.allowed
        then view_checked token
        else throw (
            create_api_error rate_limited "Rate limit exceeded" (some 429)
              (record { headers = ("Retry-After", "60") ∷ []; extra = [] }))
