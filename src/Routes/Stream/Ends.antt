-- ===== src/Routes/Stream/Ends.antt =====
-- The stream of a job ends, and how.
use brain_mate.Routes.Stream.Over.{Over}
use brain_mate.Exec.{◌>>=◌}
use brain_mate.Common.{ℕ, ◌≡◌, ◌+◌, ◌*◌, ◌≤◌, ◌⊎◌, Bool, true, Option, none, some}
use brain_mate.Redis.{Redis}
use brain_mate.Exec.{World, Exec, ◌>>◌}
use brain_mate.Exec.Yields.{Yields}
use brain_mate.Routes.Stream.Events.{Stream, max_ms}
use brain_mate.Routes.Stream.Settles.{Sound, Closed}

-- the loop has at most `n` waits left before its time is out
abbrev At : {S : Type 0} → ℕ → ℕ → World S → Type 0
At begin n w = begin + max_ms ≤ w.clock + 250 * n

-- the loop has ended: by an abort, by a closed stream, or because its time is out
abbrev LoopEnd : {S : Type 0} → ℕ → Option Stream → World S → Type 0
LoopEnd begin none w = ⊥
LoopEnd begin (some st) w =
    Sound st × ((st.aborted ≡ true) ⊎ (Closed st ⊎ (begin + max_ms ≤ w.clock)))
