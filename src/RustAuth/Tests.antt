-- ===== src/RustAuth/Tests.antt =====
-- lib/rust-auth.ts against a gateway in memory.
use brain_mate.Common.{◌≡◌, refl, none, [], ◌∷◌, arith}
use brain_mate.Redis.Memory.{Memory, empty}
use brain_mate.Exec.{World, ok, Request, delete_session, replied, unreachable}
use brain_mate.RustAuth.{SyncSessionParams, fetch_with_retry}
use brain_mate.RustAuth.Outcomes.{rides_out}

abbrev flaky : World Memory
flaky = record {
  redis = empty;
  wire = [];
  clock = 10000;
  ticks = [];
  replies = unreachable "reset" ∷ replied 502 "" ∷ replied 204 "" ∷ replied 200 "next" ∷ [];
  sent = [];
  circuit = record { open_until = 0; failures = 0 };
  window = record { sec = 0; count = 0 };
  unusable = none;
  breaker = record { consecutive_errors = 0; open_until = 0; total_errors = 0; total_connects = 1 };
}

abbrev request : Request
request = delete_session "s1" none none

abbrev params : SyncSessionParams
params = record { session_id = "s1"; user_id = "u1"; issued_at = none; expires_at = 99 }

rides_out_example :
    ((fetch_with_retry 3 request "t" flaky).0 ≡ ok (204, ""))
    × ((fetch_with_retry 3 request "t" flaky).1.replies ≡ replied 200 "next" ∷ [])
rides_out_example =
    rides_out request "t" 3 flaky (unreachable "reset" ∷ replied 502 "" ∷ []) 204 ""
      (replied 200 "next" ∷ []) refl refl refl (omega arith)
