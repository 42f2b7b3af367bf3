-- ===== src/Routes/Message/Admit.antt =====
-- The checks of POST of app/api/writeright/message/route.ts that stand before the message is
-- saved: the quota, the length, the rate limit and the depth of the queue.
pub mod Tiers
use brain_mate.Common.{
  ℕ, String, ◌+◌, ◌/◌, Bool, false, ◌||◌, Option, none, some, List, [], ◌∷◌, length, str_eq,
  if◌then◌else◌, ltb, decimal, Fields, ◌++◌,
}
use brain_mate.Errors.{
  Code, code_name, Error, api, create_api_error, failure, quota_exceeded, text_too_long,
  rate_limited, queue_error, no_meta,
}
use brain_mate.Redis.{Redis}
use brain_mate.Exec.{Exec, pure, throw, catch, date_now, is_circuit_open, ◌>>=◌, ◌>>◌}
use brain_mate.Commands.{zcard}
use brain_mate.Queue.Keys.{jobs_key}
use brain_mate.Queue.Jobs.{default_to}
use brain_mate.Queue.RateLimit.{Verdict, check_rate_limit}
use brain_mate.Routes.Quota.{Amount, tier_limits, Quota, get_quota}
use brain_mate.Routes.Message.Input.{trim}

-- `TIER_RATE_LIMITS`
unfoldable pub tier_rate_limits : String → Option ℕ
tier_rate_limits tier =
    if str_eq tier "free"
    then some 5
    else if str_eq tier "pro"
    then some 30
    else if str_eq tier "team"
    then some 120
    else none

-- `getMaxRequestsPerMinute`, from what `parseInt` reads: `none` is no number or a negative one
unfoldable pub get_max_requests_per_minute : Option ℕ → ℕ
get_max_requests_per_minute none = 10
get_max_requests_per_minute (some n) = if ltb 0 n then n else 10

unfoldable pub limit_for : Option ℕ → String → ℕ
limit_for configured tier =
    default_to (get_max_requests_per_minute configured) (tier_rate_limits tier)

abbrev pub tokens_of : Option Amount → ℕ
tokens_of none = 0
tokens_of (some limits) = limits.tokens

-- `TIER_LIMITS[tier]?.tokens || 0`
unfoldable pub token_limit : String → ℕ
token_limit tier = tokens_of (tier_limits tier)

-- `err.code === code`
unfoldable pub has_code : Code → Error → Bool
has_code code (api e) = str_eq (code_name e.code) (code_name code)
has_code code _ = false

unfoldable pub build_rate_limit_headers : ℕ → ℕ → ℕ → Fields
build_rate_limit_headers now limit remaining =
    ("X-RateLimit-Limit", decimal limit)
    ∷ ("X-RateLimit-Remaining", decimal remaining)
    ∷ ("X-RateLimit-Reset", decimal (now / 1000 + 60))
    ∷ []

module _ {S : Type 0} where
  unfoldable pub check_quota : Quota → List ℕ → Exec S (Unit {0})
  check_quota quota units =
      if quota.exhausted.requests || quota.exhausted.tokens
      then throw (
          create_api_error quota_exceeded "Monthly limit reached. Upgrade for more." (some 402)
            (record {
              headers = [];
              extra = ("tier", quota.tier) ∷ ("upgrade_url", "https://brainmate.ai/pricing") ∷ [];
            }))
      else if ltb (token_limit quota.tier) (length (trim units))
      then throw (create_api_error text_too_long "Text exceeds your plan limit." (some 400) no_meta)
      else pure tt

  -- the headers of the reply, where the request is admitted
  unfoldable pub judge : ℕ → Verdict → Exec S Fields
  judge limit verdict = do
    now ← date_now
    let headers = build_rate_limit_headers now limit verdict.remaining
    if verdict.allowed
        then pure headers
        else throw (
            create_api_error rate_limited "Rate limit exceeded" (some 429)
              (record { headers = headers ++ ("Retry-After", "60") ∷ []; extra = [] }))

  unfoldable pub unless_limited : ℕ → Error → Exec S Fields
  unless_limited limit e =
      if has_code rate_limited e
      then throw e
      else do now ← date_now; pure (build_rate_limit_headers now limit limit)

  unfoldable pub judge_depth : ℕ → Exec S (Unit {0})
  judge_depth depth =
      if ltb 500 depth
      then throw (
          create_api_error queue_error "Service is busy. Please try again in a moment." (some 503)
            (record { headers = ("Retry-After", "30") ∷ []; extra = [] }))
      else pure tt

  unfoldable pub unless_busy : Error → Exec S (Unit {0})
  unless_busy e = if has_code queue_error e then throw e else pure tt

module _ {S : Type 0} (R : Redis S) where
  -- "Rate limit check"
  unfoldable pub limit_rate : String → ℕ → Exec S Fields
  limit_rate user_id limit =
      catch (do verdict ← check_rate_limit R user_id limit; judge limit verdict)
        (unless_limited limit)

  unfoldable pub limit_depth : Exec S (Unit {0})
  limit_depth = do
    broken ← is_circuit_open
    if broken then pure tt else catch (do depth ← zcard R jobs_key; judge_depth depth) unless_busy

-- The quota's error response has no `exhausted`, and reading it throws a `TypeError`.
unfoldable pub no_quota : Error
no_quota = failure "Cannot read properties of undefined (reading 'requests')"

-- `add_daily` is the call of `increment_wr_daily_usage`.
module _ {S : Type 0} (R : Redis S) (period_key : ℕ → String)
    (select_tier : String → Exec S (Option String))
    (select_quota : String → String → Exec S (Option Amount))
    (add_daily : String → ℕ → Exec S (Unit {0})) (configured : Option ℕ) where
  unfoldable pub admit_message : String → List ℕ → Exec S Fields
  admit_message user_id units = do
    quota ←
        catch (get_quota period_key select_tier select_quota (some user_id)) (λ _. throw no_quota)
    check_quota quota units
    catch (add_daily user_id (length units)) (λ _. pure tt)
    headers ← limit_rate R user_id (limit_for configured quota.tier)
    limit_depth R
    pure headers
