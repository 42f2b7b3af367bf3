-- ===== src/Secrets.antt =====
-- lib/secrets.ts: the cache of secrets in front of a secret manager, and the check for rotation.
pub mod Cached
mod Tests
use brain_mate.Common.{
  ℕ, String, ◌-◌, ◌*◌, Bool, true, false, not, ◌&&◌, Option, none, some, List, [], ◌∷◌, ltb, str_eq,
  if◌then◌else◌,
}
use brain_mate.Reconciliation.Operation.{truthy_text}

-- `SecretProvider`
pub data Provider : Type 0 where
  env aws_sm gcp_sm : Provider

-- without the version, which nothing sets
pub record CachedSecret : Type 0 where
  pub value : String
  pub fetched_at : ℕ

-- `secretCache`
abbrev pub Cache : Type 0
Cache = String → Option CachedSecret

abbrev pub cache_ttl_ms : ℕ
cache_ttl_ms = 5 * 60 * 1000

-- Map.set and Map.delete
unfoldable pub put : String → Option CachedSecret → Cache → Cache
put name entry cache j = if str_eq name j then entry else cache j

-- a secret that is still good at a time; a time before `fetchedAt` counts as no time at all
abbrev pub is_fresh : ℕ → CachedSecret → Bool
is_fresh now c = ltb (now - c.fetched_at) cache_ttl_ms

-- a cached secret that is served, unless a refresh is forced
unfoldable pub served : Bool → ℕ → Option CachedSecret → Option String
served force now none = none
served force now (some c) = if not force && is_fresh now c then some c.value else none

-- `value ?? ""`
abbrev pub or_empty : Option String → String
or_empty none = ""
or_empty (some v) = v

-- what the provider gives: the environment, or what the secret manager replied
unfoldable pub provided : Provider → Option String → Option String → Option String
provided env environment reply = environment
provided aws_sm environment reply = reply
provided gcp_sm environment reply = reply

-- an empty or missing value falls back to the environment
abbrev pub or_environment : Option String → Option String → String
or_environment none environment = or_empty environment
or_environment (some v) environment = v

-- What one call meets: the clock before and after the fetch, the variable in the environment, and
-- the reply of the secret manager.
pub record Moment : Type 0 where
  pub now : ℕ
  pub later : ℕ
  pub environment : Option String
  pub reply : Option String

unfoldable pub fetched : Provider → Moment → String
unfolding provided
fetched provider at =
    or_environment (truthy_text (provided provider at.environment at.reply)) at.environment

abbrev pub serve_or_fetch : Option String → Provider → Moment → String → Cache → String × Cache
serve_or_fetch (some v) provider at name cache = (v, cache)
serve_or_fetch none provider at name cache = (
  fetched provider at,
  put name (some (record { value = fetched provider at; fetched_at = at.later })) cache,
)

-- `getSecretWithOptions`
unfoldable pub get_secret_with_options : Provider → Bool → Moment → String → Cache → String × Cache
get_secret_with_options provider force at name cache =
    serve_or_fetch (served force at.now (cache name)) provider at name cache

unfoldable pub get_secret : Provider → Moment → String → Cache → String × Cache
get_secret provider = get_secret_with_options provider false

unfoldable pub invalidate_secret : String → Cache → Cache
invalidate_secret name = put name none

unfoldable pub invalidate_all_secrets : Cache → Cache
invalidate_all_secrets cache name = none

-- One secret of `checkRotation`: whether it was rotated, and the cache after the forced refresh.
unfoldable pub check_one : Provider → Moment → String → Option CachedSecret → Cache → Bool × Cache
check_one provider at name none cache = (false, cache)
check_one provider at name (some c) cache =
    let current = get_secret_with_options provider true at name cache in
    (not (str_eq current.0 c.value), current.1)

-- the loop over the names, each with what its call meets
unfoldable pub check_names : Provider → List (String × Moment) → Cache → List String × Cache
check_names provider [] cache = ([], cache)
check_names provider ((name, at) ∷ names) cache =
    let one = check_one provider at name (cache name) cache in
    let rest = check_names provider names one.1 in
    ((if one.0 then name ∷ rest.0 else rest.0), rest.1)

unfoldable pub check_rotation : Provider → List (String × Moment) → Cache → List String × Cache
check_rotation env names cache = ([], cache)
check_rotation aws_sm names cache = check_names aws_sm names cache
check_rotation gcp_sm names cache = check_names gcp_sm names cache
