-- ===== src/Reconciliation/Window.antt =====
-- `allowEnqueueNow` of lib/reconciliation-worker.ts: the window of the enqueues of one second.
pub mod Bound
use brain_mate.Common.{
  ℕ, suc, ◌≡◌, refl, ◌+◌, ◌≤◌, ◌/◌, Bool, true, false, List, [], ◌∷◌, if◌then◌else◌, ◌==◌, leb,
  arith, Bool-cases, inl, inr, min,
}
use brain_mate.Exec.{EnqueueWindow, World, Exec, ok, pure, date_now, ◌>>=◌}
use brain_mate.Reconciliation.Keys.{max_enqueue_per_second}

-- the window at second `sec`, reset if it is of another second
unfoldable pub roll : ℕ → EnqueueWindow → EnqueueWindow
roll sec w = if w.sec == sec then w else record { sec = sec; count = 0 }

-- what one call does to the window, and what it returns
unfoldable pub admit : ℕ → EnqueueWindow → Bool × EnqueueWindow
unfolding roll
admit sec w =
    let r = roll sec w in
    (leb (r.count + 1) max_enqueue_per_second, record r { count = r.count + 1 })

module _ {S : Type 0} where
  unfoldable pub write_window : Bool × EnqueueWindow → Exec S Bool
  write_window (b, v) w = (ok b, record w { window = v })

  unfoldable pub allow_enqueue_now : Exec S Bool
  unfolding admit write_window date_now
  allow_enqueue_now = do now ← date_now; λ w. write_window (admit (now / 1000) w.window) w
