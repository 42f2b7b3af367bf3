-- ===== src/Routes/Message/Admit/Tiers.antt =====
-- Which tiers can send messages at all.
use brain_mate.Common.{
  ℕ, String, ◌≡◌, refl, ◌≤◌, ◌<◌, true, false, Option, some, List, length, arith, ltb, leb, is_some,
  Bool-cases, inl, inr, if◌then◌else◌,
}
use brain_mate.Errors.{create_api_error, text_too_long, no_meta}
use brain_mate.Exec.{World, ok, err}
use brain_mate.Queue.Jobs.{default_to}
use brain_mate.Routes.Quota.{Amount, tier_limits, free_limits, unused, quota_of}
use brain_mate.Routes.Message.Input.{trim}
use brain_mate.Routes.Message.Admit.{check_quota, token_limit}

token_limit-none : (tier : String) → is_some (tier_limits tier) ≡ false → token_limit tier ≡ 0
unfolding token_limit
token_limit-none tier h = ground (arith, h)

token_limit-some : (tier : String) → is_some (tier_limits tier) ≡ true → 200000 ≤ token_limit tier
unfolding token_limit tier_limits
token_limit-some tier h = ground (arith, h)

module _ {S : Type 0} where
  -- A user whose tier is in the table of limits passes the quota check with any text of at most
  -- 10,000 units, and a user of any other tier, to whom the quota route grants the free tier's
  -- limits, has every message refused as too long. The user's quota is not used up, and the text
  -- is not blank.
  pub tier_decides :
      (period tier : String) (row : Option Amount) (units : List ℕ) (w : World S)
      → (default_to unused row).requests < (default_to free_limits (tier_limits tier)).requests
      → (default_to unused row).tokens < (default_to free_limits (tier_limits tier)).tokens
      → 1 ≤ length (trim units)
      → length (trim units) ≤ 10000
      → check_quota (quota_of period (some tier) row) units w ≡ (
          if is_some (tier_limits tier) then (ok tt, w) else (
            err (create_api_error text_too_long "Text exceeds your plan limit." (some 400) no_meta),
            w,
          ))
  unfolding check_quota quota_of
  tier_decides period tier row units w r t short long =
      let requests : leb (default_to free_limits (tier_limits tier)).requests
            (default_to unused row).requests
          ≡ false =
        ground (arith, r) in
      let tokens : leb (default_to free_limits (tier_limits tier)).tokens
            (default_to unused row).tokens
          ≡ false =
        ground (arith, t) in
      elim (Bool-cases (is_some (tier_limits tier))) [
        | inl there ↦
            let fits : ltb (token_limit tier) (length (trim units)) ≡ false =
              ground (arith, token_limit-some tier there, long) in
            rw (requests, tokens, fits, there) refl
        | inr missing ↦
            let over : ltb (token_limit tier) (length (trim units)) ≡ true =
              ground (arith, token_limit-none tier missing, short) in
            rw (requests, tokens, over, missing) refl
      ]
