-- ===== src/Timer/Ticks.antt =====
-- When a tick wakes the task of the first event.
use akari.Prelude.{
  ℕ, zero, suc, ◌+◌, ◌-◌, ◌*◌, ◌≤◌, ◌<◌, ◌≡◌, refl, ap, ◌∙◌, Bool, List, ◌∷◌, arith, u32_mod,
}
use akari.Timer.{WakeEvent, Timer, tick, wake}

-- `n` ticks in a row.
unfoldable pub ticks : ℕ → Timer → (ℕ → Bool) → Timer × (ℕ → Bool)
ticks zero t waiting = (t, waiting)
ticks (suc n) t waiting = let (t', waiting') = tick t waiting in ticks n t' waiting'

tick_short :
    (t : Timer) (waiting : ℕ → Bool) (e : WakeEvent) (rest : List WakeEvent)
    → t.wakeevents ≡ e ∷ rest
    → t.us_per_tick < e.us_left
    → e.us_left < u32_mod
    → let (t', waiting') = tick t waiting in
      (t'.wakeevents ≡ record e { us_left = e.us_left - t.us_per_tick } ∷ rest)
      × (waiting' ≡ waiting)
      × (t'.us_per_tick ≡ t.us_per_tick)
unfolding tick
tick_short t waiting e rest h short w = rw h (ground arith, ground arith, refl)

tick_wakes :
    (t : Timer) (waiting : ℕ → Bool) (e : WakeEvent) (rest : List WakeEvent)
    → t.wakeevents ≡ e ∷ rest
    → e.us_left ≤ t.us_per_tick
    → let (t', waiting') = tick t waiting in
      (t'.wakeevents ≡ rest) × (waiting' ≡ wake e.to_wake waiting)
unfolding tick
tick_wakes t waiting e rest h due = rw h (ground arith, ground arith)

-- While `n` ticks fall short of the first event's wait, they take their time off it and wake nobody.
ticks_short :
    (n : ℕ) (t : Timer) (waiting : ℕ → Bool) (e : WakeEvent) (rest : List WakeEvent)
    → t.wakeevents ≡ e ∷ rest
    → n * t.us_per_tick < e.us_left
    → e.us_left < u32_mod
    → let (t', waiting') = ticks n t waiting in
      (t'.wakeevents ≡ record e { us_left = e.us_left - n * t.us_per_tick } ∷ rest)
      × (waiting' ≡ waiting)
      × (t'.us_per_tick ≡ t.us_per_tick)
unfolding ticks
ticks_short zero t waiting e rest h short w =
    (h ∙ ap (λ us. record e { us_left = us } ∷ rest) (omega arith), refl, refl)
ticks_short (suc n) t waiting e rest h short w =
    let (events, same, speed) = tick_short t waiting e rest h (omega arith) w in
    let (events', same', speed') =
      ticks_short n (tick t waiting).0 (tick t waiting).1
        (record e { us_left = e.us_left - t.us_per_tick }) rest events (rw speed (omega arith))
        (omega arith) in
    (
      events' ∙ ap (λ us. record e { us_left = us } ∷ rest) (rw speed (omega arith)),
      same' ∙ same,
      speed' ∙ speed,
    )

-- For a wait below 2 ^ 32, the first event's task is woken by the tick with which the ticks first add up
-- to its wait, and nobody by those before it; that tick takes the event, and no other, off the list.
pub ticks-wake :
    (n : ℕ) (t : Timer) (waiting : ℕ → Bool) (e : WakeEvent) (rest : List WakeEvent)
    → t.wakeevents ≡ e ∷ rest
    → e.us_left < u32_mod
    → n * t.us_per_tick < e.us_left
    → e.us_left ≤ (n + 1) * t.us_per_tick
    → let (before, waiting_before) = ticks n t waiting in
      let (after, waiting_after) = tick before waiting_before in
      (waiting_before ≡ waiting)
      × (before.wakeevents ≡ record e { us_left = e.us_left - n * t.us_per_tick } ∷ rest)
      × (waiting_after ≡ wake e.to_wake waiting)
      × (after.wakeevents ≡ rest)
ticks-wake n t waiting e rest h w short due =
    let (events, same, speed) = ticks_short n t waiting e rest h short w in
    let (events', woken) =
      tick_wakes (ticks n t waiting).0 (ticks n t waiting).1 _ rest events (omega (arith, speed)) in
    (same, events, woken ∙ ap (wake e.to_wake) same, events')
