-- ===== src/Routes/Stream/Tests.antt =====
-- GET of app/api/writeright/job/[jobId]/stream/route.ts on the server in memory.
use brain_mate.Common.{ℕ, String, Option, none, some, [], ◌∷◌, false}
use brain_mate.Redis.Memory.{Memory, empty}
use brain_mate.Exec.{World, Exec, pure}
use brain_mate.Routes.Poll.{JobRow}
use brain_mate.Routes.Stream.Events.{Closing, of_chunk, Stream}

abbrev calm : ℕ → World Memory
calm clock = record {
  redis = empty;
  wire = [];
  clock = clock;
  ticks = [];
  replies = [];
  sent = [];
  circuit = record { open_until = 0; failures = 0 };
  window = record { sec = 0; count = 0 };
  unusable = none;
  breaker = record { consecutive_errors = 0; open_until = 0; total_errors = 0; total_connects = 1 };
}

-- a job that stays pending
abbrev pending_row : String → String → Exec Memory (Option JobRow)
pending_row job_id user_id =
    pure (some (record { status = "pending"; output = none; error = none }))

abbrev fails : String → String → Exec Memory (Unit {0})
fails job_id message = pure tt

abbrev quiet : Closing
quiet = record { updating = []; unsubscribing = of_chunk "late" none ∷ []; leaves = false }
