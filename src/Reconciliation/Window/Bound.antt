-- ===== src/Reconciliation/Window/Bound.antt =====
-- The calls of `allowEnqueueNow` in lib/reconciliation-worker.ts that one second admits.
use brain_mate.Common.{
  ℕ, zero, suc, ◌≡◌, refl, ◌-◌, ◌≤◌, ◌<◌, ◌/◌, ◌&&◌, Bool, false, if◌then◌else◌, ◌==◌, arith, min,
}
use brain_mate.Exec.{World, Result, ok, err}
use brain_mate.Reconciliation.Window.{admit, allow_enqueue_now}

abbrev answered_true : Result Bool → Bool
answered_true (ok b) = b
answered_true (err e) = false

monotone : (a b : ℕ) → a ≤ b → a / 1000 ≤ b / 1000
monotone a b h = omega arith

-- `n` calls of `allow_enqueue_now` one after the other: the second of each, and its reply as 1 or
-- 0.
module _ {S : Type 0} where
  after : World S → World S
  after w = (allow_enqueue_now w).1

  pub allowed_at : ℕ → ℕ → World S → ℕ
  allowed_at s zero w = 0
  allowed_at s (suc n) w =
      let rest = allowed_at s n (after w) in
      if (after w).clock / 1000 == s && answered_true (allow_enqueue_now w).0
      then suc rest
      else rest

  pub calls_at : ℕ → ℕ → World S → ℕ
  calls_at s zero w = 0
  calls_at s (suc n) w =
      let rest = calls_at s n (after w) in if (after w).clock / 1000 == s then suc rest else rest

  -- what the window has counted of second `s`
  pub used : ℕ → World S → ℕ
  used s w = if w.window.sec == s then w.window.count else 0

  clock-after : (w : World S) → w.clock ≤ (after w).clock
  unfolding after allow_enqueue_now
  clock-after w = ground arith

  window-after : (w : World S) → (after w).window ≡ (admit ((after w).clock / 1000) w.window).1
  unfolding after allow_enqueue_now
  window-after w = ground arith

  reply_lem :
      (w : World S)
      → answered_true (allow_enqueue_now w).0 ≡ (admit ((after w).clock / 1000) w.window).0
  unfolding after allow_enqueue_now
  reply_lem w = ground arith

  calls_at_past : (s n : ℕ) (w : World S) → s < w.clock / 1000 → calls_at s n w ≡ 0
  unfolding calls_at after allow_enqueue_now
  calls_at_past s zero w h = refl
  calls_at_past s (suc n) w h = ground (arith, calls_at_past s n (after w))

  -- Of any number of calls one after the other, those of one second are admitted until the window
  -- has counted 200 of that second: as many are admitted as there are calls, or as the window has
  -- left. The window must not be of a later second than the clock.
  pub allowed_at_lem :
      (s n : ℕ) (w : World S)
      → w.window.sec ≤ w.clock / 1000
      → allowed_at s n w ≡ min (calls_at s n w) (200 - used s w)
  unfolding calls_at allowed_at used admit
  allowed_at_lem s zero w h = omega arith
  allowed_at_lem s (suc n) w h = ground (
    arith,
    clock-after w,
    window-after w,
    reply_lem w,
    allowed_at_lem s n (after w),
    calls_at_past s n (after w),
    monotone w.clock (after w).clock (clock-after w),
  )
