-- ===== src/Timer/Tests.antt =====
-- A timer with two events, and the theorems at it.
use akari.Prelude.{ℕ, ◌≤◌, ◌<◌, ◌≡◌, refl, true, [], ◌∷◌, ◌++◌, arith}
use akari.Timer.{WakeEvent, Timer, tick, wake, wake_in, wait_after, running_total}
use akari.Timer.Due.{dues, total, wake_in-dues}
use akari.Timer.Ticks.{ticks, ticks-wake}

abbrev event : ℕ → ℕ → ℕ → WakeEvent
event task uid us = record { to_wake = task; uid = uid; us_left = us }

-- Task 4 is due in 10 ms, and task 5 in 15 ms; a tick is 1 ms.
abbrev two_events : Timer
two_events = record {
  wakeevents = event 4 1 10000 ∷ event 5 2 5000 ∷ [];
  last_wake_id = 2;
  us_per_tick = 1000;
  switches = 0;
  tick_hz = 1000;
  system_us = 0;
}

-- A wake-up asked for in 3 ms is due in 18 ms.
wakes_late :
    dues 0 (wake_in two_events 3000 6).0.wakeevents ≡ (1, 10000) ∷ (2, 15000) ∷ (3, 18000) ∷ []
unfolding dues wake_in wait_after running_total
wakes_late = refl

wake_in-dues_example :
    let (t', uid) = wake_in two_events 3000 6 in
    (due : ℕ) × (dues 0 t'.wakeevents ≡ dues 0 two_events.wakeevents ++ (uid, due) ∷ [])
    × (total two_events.wakeevents ≤ 3000 → due ≡ 3000)
    × (3000 < total two_events.wakeevents → (3000 < due) × (total two_events.wakeevents ≤ due))
unfolding total
wake_in-dues_example = wake_in-dues two_events 3000 6 (omega arith) (omega arith)

ticks-wake_example :
    let (before, waiting_before) = ticks 9 two_events (λ _. true) in
    let (after, waiting_after) = tick before waiting_before in
    (waiting_before ≡ (λ _. true))
    × (before.wakeevents ≡ event 4 1 1000 ∷ event 5 2 5000 ∷ [])
    × (waiting_after ≡ wake 4 (λ _. true))
    × (after.wakeevents ≡ event 5 2 5000 ∷ [])
ticks-wake_example =
    ticks-wake 9 two_events (λ _. true) (event 4 1 10000) (event 5 2 5000 ∷ []) refl (omega arith)
      (omega arith) (omega arith)
