-- ===== src/Secrets/Tests.antt =====
-- lib/secrets.ts on concrete values.
use brain_mate.Common.{◌≡◌, not, none, some, str_eq, arith}
use brain_mate.Secrets.{
  aws_sm, CachedSecret, Cache, Moment, fetched, get_secret, invalidate_secret, check_one,
}
use brain_mate.Secrets.Cached.{rotation_found}

abbrev first : Moment
first = record { now = 1000; later = 1200; environment = some "local"; reply = some "two" }

abbrev second : Moment
second = record { now = 200000; later = 200100; environment = none; reply = some "three" }

abbrev old : CachedSecret
old = record { value = "one"; fetched_at = 0 }

abbrev cache : Cache
cache name = some old

rotation_found_example :
    ((get_secret aws_sm second "INTERNAL_API_TOKEN"
        (invalidate_secret "INTERNAL_API_TOKEN" cache)).0
      ≡ fetched aws_sm second)
    × (((check_one aws_sm first "INTERNAL_API_TOKEN" (some old) cache).0
          ≡ not (str_eq (fetched aws_sm first) old.value))
        × ((get_secret aws_sm second "INTERNAL_API_TOKEN"
              (check_one aws_sm first "INTERNAL_API_TOKEN" (some old) cache).1).0
            ≡ fetched aws_sm first))
rotation_found_example =
    rotation_found aws_sm "INTERNAL_API_TOKEN" cache first second old (omega arith)
