-- ===== src/Routes/Share/Create.antt =====
-- POST of app/api/writeright/share/route.ts: a link to a completed job, for seven days.
use brain_mate.Common.{
  ℕ, String, ◌+◌, ◌*◌, ◌/◌, Bool, ◌&&◌, Option, none, some, List, ◌++◌, str_eq, if◌then◌else◌,
}
use brain_mate.Errors.{
  create_api_error, unauthorized, invalid_body, validation_error, not_found, internal_error,
  db_error, no_meta,
}
use brain_mate.Exec.{Exec, pure, throw, date_now, ◌>>=◌}
use brain_mate.Reconciliation.Operation.{truthy_text}
use brain_mate.Routes.Completion.{text_or}
use brain_mate.Routes.Share.Token.{Claims, Codec, create_share_token, share_secret, strip_end}

abbrev pub share_ttl_secs : ℕ
share_ttl_secs = 7 * 24 * 60 * 60

-- `ShareSchema`: both are UUIDs
pub record ShareInput : Type 0 where
  pub chat_id : String
  pub job_id : String

-- a row of `writeright_shares`
pub record ShareRow : Type 0 where
  pub user_id : String
  pub chat_id : String
  pub job_id : String
  pub token : List ℕ
  pub expires_at : String

pub record ShareReply : Type 0 where
  pub share_url : List ℕ
  pub expires_at : String
  pub card_url : List ℕ

-- The test of a UUID, `toISOString`, the code units of a text, and the variables of the
-- environment: the secrets WRITERIGHT_SHARE_SECRET, WRITERIGHT_SHARE_JWT_SECRET and
-- NEXTAUTH_SECRET, and the base of the URLs.
pub record ShareEnv : Type 0 where
  pub codec : Codec
  pub is_uuid : String → Bool
  pub iso : ℕ → String
  pub units : String → List ℕ
  pub own_secret : Option String
  pub jwt_secret : Option String
  pub auth_secret : Option String
  pub app_url : Option String

-- The calls of the database: the status of a job of a chat and a user, and whether the insert
-- succeeded; `random_uuid` makes an id.
pub record ShareTables (S : Type 0) : Type 0 where
  pub select_status : String → String → String → Exec S (Option String)
  pub insert_share : ShareRow → Exec S Bool
  pub random_uuid : Exec S String

unfoldable pub claims_of : String → ShareInput → ℕ → String → Claims
claims_of user_id input now jti = record {
  sub = user_id;
  chat_id = input.chat_id;
  job_id = input.job_id;
  iat = now;
  exp = now + share_ttl_secs;
  jti = jti;
}

module _ (env : ShareEnv) where
  -- the base without its slashes at the end, a path and the token
  unfoldable pub url_of : String → List ℕ → List ℕ
  url_of path token =
      strip_end 47 (env.units (text_or env.app_url "https://brainmateai.com"))
      ++ (env.units path ++ token)

  unfoldable pub expiry_of : ℕ → String
  expiry_of now = env.iso ((now + share_ttl_secs) * 1000)

  unfoldable pub share_row : String → ShareInput → ℕ → List ℕ → ShareRow
  share_row user_id input now token = record {
    user_id = user_id;
    chat_id = input.chat_id;
    job_id = input.job_id;
    token = token;
    expires_at = expiry_of now;
  }

  unfoldable pub reply_of : ℕ → List ℕ → ShareReply
  reply_of now token = record {
    share_url = url_of "/share/" token;
    expires_at = expiry_of now;
    card_url = url_of "/api/writeright/og/" token;
  }

module _ {S : Type 0} (env : ShareEnv) (db : ShareTables S) where
  unfoldable pub store_share : String → ShareInput → ℕ → List ℕ → Exec S ShareReply
  store_share user_id input now token = do
    stored ← db.insert_share (share_row env user_id input now token)
    if stored
        then pure (reply_of env now token)
        else throw (create_api_error db_error "Failed to create share link" (some 500) no_meta)

  unfoldable pub sign_share : String → ShareInput → ℕ → Option String → Exec S ShareReply
  sign_share user_id input now none =
      throw
        (create_api_error internal_error "Server misconfigured — missing secret" (some 500) no_meta)
  sign_share user_id input now (some secret) = do
    jti ← db.random_uuid
    store_share user_id input now
        (create_share_token env.codec (claims_of user_id input now jti) secret)

  unfoldable pub share_job : String → ShareInput → Option String → Exec S ShareReply
  share_job user_id input none =
      throw (create_api_error not_found "Job not found" (some 404) no_meta)
  share_job user_id input (some status) =
      if str_eq status "completed"
      then (do
        now ← date_now
        sign_share user_id input (now / 1000)
            (share_secret env.own_secret env.jwt_secret env.auth_secret))
      else throw
          (create_api_error validation_error "Can only share completed jobs" (some 400) no_meta)

  unfoldable pub share_valid : String → ShareInput → Exec S ShareReply
  share_valid user_id input =
      if env.is_uuid input.chat_id && env.is_uuid input.job_id
      then (do
        status ← db.select_status input.job_id input.chat_id user_id
        share_job user_id input status)
      else throw (create_api_error validation_error "Invalid input" (some 400) no_meta)

  unfoldable pub share_body : String → Option ShareInput → Exec S ShareReply
  share_body user_id none =
      throw (create_api_error invalid_body "Invalid JSON body" (some 400) no_meta)
  share_body user_id (some input) = share_valid user_id input

  abbrev share_as : Option String → Option ShareInput → Exec S ShareReply
  share_as none body = throw (create_api_error unauthorized "Not authenticated" (some 401) no_meta)
  share_as (some user_id) body = share_body user_id body

  -- the user of the session and the body, a JSON object with both ids
  unfoldable pub share : Option String → Option ShareInput → Exec S ShareReply
  share user_id body = share_as (truthy_text user_id) body
