-- ===== src/Secrets/Cached.antt =====
-- The age of the secrets that lib/secrets.ts serves, and their rotation.
use brain_mate.Common.{
  ℕ, String, ◌≡◌, refl, ◌+◌, ◌<◌, true, false, not, Option, none, some, str_eq, eq_refl, arith,
}
use brain_mate.Secrets.{
  Provider, CachedSecret, Cache, cache_ttl_ms, put, served, fetched, Moment,
  get_secret_with_options, get_secret, invalidate_secret, check_one,
}

forced : (now : ℕ) (o : Option CachedSecret) → served true now o ≡ none
unfolding served
forced now none = refl
forced now (some c) = refl

still_served :
    (now later : ℕ) (v : String)
    → now < later + cache_ttl_ms
    → served false now (some (record { value = v; fetched_at = later })) ≡ some v
unfolding served
still_served now later v h = ground arith

module _ (provider : Provider) (name : String) (cache : Cache) (first second : Moment) where
  -- A secret that was just fetched is served from the cache for five minutes, whatever the secret
  -- manager and the environment hold then, and the cache stays as it is.
  pub served_from_cache :
      second.now < first.later + cache_ttl_ms
      → get_secret provider second name (get_secret_with_options provider true first name cache).1
        ≡ get_secret_with_options provider true first name cache
  unfolding get_secret get_secret_with_options put
  served_from_cache h =
      rw (forced, eq_refl name, still_served second.now first.later (fetched provider first) h) refl

  -- An invalidated secret is fetched again, whatever its age, and a rotated one is found: the check
  -- of a cached secret reports it just if its value is no longer the fetched one, and then the
  -- cache serves the fetched one for five minutes.
  pub rotation_found :
      (old : CachedSecret)
      → second.now < first.later + cache_ttl_ms
      → ((get_secret provider second name (invalidate_secret name cache)).0
          ≡ fetched provider second)
        × (((check_one provider first name (some old) cache).0
              ≡ not (str_eq (fetched provider first) old.value))
            × ((get_secret provider second name
                  (check_one provider first name (some old) cache).1).0
                ≡ fetched provider first))
  unfolding get_secret get_secret_with_options served invalidate_secret put check_one
  rotation_found old h = (
    rw (eq_refl) refl,
    (
      rw (forced first.now (cache name)) refl,
      rw
          (
            forced first.now (cache name),
            eq_refl name,
            still_served second.now first.later (fetched provider first) h,
          )
          refl,
    ),
  )
