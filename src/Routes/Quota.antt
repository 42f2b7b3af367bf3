-- ===== src/Routes/Quota.antt =====
-- GET of app/api/writeright/quota/route.ts: a user's tier and what is left of the period's quota.
use brain_mate.Common.{ℕ, ◌-◌, String, Bool, Option, none, some, str_eq, if◌then◌else◌, leb}
use brain_mate.Errors.{create_api_error, unauthorized, no_meta}
use brain_mate.Exec.{Exec, pure, throw, date_now, ◌>>=◌}
use brain_mate.Queue.Jobs.{default_to}

pub record Amount : Type 0 where
  pub requests : ℕ
  pub tokens : ℕ

-- `TIER_LIMITS`
unfoldable pub tier_limits : String → Option Amount
tier_limits tier =
    if str_eq tier "free"
    then some (record { requests = 50; tokens = 200000 })
    else if str_eq tier "pro"
    then some (record { requests = 500; tokens = 2000000 })
    else if str_eq tier "team"
    then some (record { requests = 2000; tokens = 10000000 })
    else none

pub record Exhausted : Type 0 where
  pub requests : Bool
  pub tokens : Bool

pub record Quota : Type 0 where
  pub tier : String
  pub period : String
  pub limits : Amount
  pub used : Amount
  pub remaining : Amount
  pub exhausted : Exhausted

abbrev pub free_limits : Amount
free_limits = record { requests = 50; tokens = 200000 }

abbrev pub unused : Amount
unused = record { requests = 0; tokens = 0 }

-- the body of the reply, from the rows that the database has: a failed query is a missing row
unfoldable pub quota_of : String → Option String → Option Amount → Quota
quota_of period tier_row quota_row =
    let tier = default_to "free" tier_row in
    let limits = default_to free_limits (tier_limits tier) in
    let used = default_to unused quota_row in
    record {
      tier = tier;
      period = period;
      limits = limits;
      used = used;
      remaining = record {
        requests = limits.requests - used.requests;
        tokens = limits.tokens - used.tokens;
      };
      exhausted = record {
        requests = leb limits.requests used.requests;
        tokens = leb limits.tokens used.tokens;
      };
    }

-- `period_key` prints the year and the month of a moment; the two others are the queries.
module _ {S : Type 0} (period_key : ℕ → String) (select_tier : String → Exec S (Option String))
    (select_quota : String → String → Exec S (Option Amount)) where
  unfoldable pub quota_for : String → Exec S Quota
  quota_for user_id = do
    now ← date_now
    tier_row ← select_tier user_id
    quota_row ← select_quota user_id (period_key now)
    pure (quota_of (period_key now) tier_row quota_row)

  unfoldable pub get_quota : Option String → Exec S Quota
  get_quota none = throw (create_api_error unauthorized "Not authenticated" (some 401) no_meta)
  get_quota (some user_id) =
      if str_eq user_id ""
      then throw (create_api_error unauthorized "Not authenticated" (some 401) no_meta)
      else quota_for user_id
