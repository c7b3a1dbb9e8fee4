-- ===== src/Timer.antt =====
-- Timer.cpp and inc/Timer.hpp: the tick counter and the list of events that wake tasks. Each event
-- holds the time that it waits after the one before it. A task is its id, and `waiting` is the
-- `userWaiting` field of the tasks.
pub mod Due
pub mod Ticks
mod Tests
use akari.Prelude.{
  ℕ, ◌+◌, ◌-◌, ◌*◌, ◌/◌, ◌%◌, Bool, true, false, List, [], ◌∷◌, ◌++◌, Option, none, some, ltb, ◌==◌,
  if◌then◌else◌, add32, sub32, u16_mod, u32_mod,
}

pub record WakeEvent : Type 0 where
  pub to_wake : ℕ
  pub uid : ℕ
  pub us_left : ℕ

-- `wakeevents`, and the file's `lastWakeId`, `usPerTick`, `AkariMicrokernelSwitches`, `AkariTickHz`
-- and `AkariSystemUs`.
pub record Timer : Type 0 where
  pub wakeevents : List WakeEvent
  pub last_wake_id : ℕ
  pub us_per_tick : ℕ
  pub switches : ℕ
  pub tick_hz : ℕ
  pub system_us : ℕ

-- `setTimer`, with the bytes that it writes to ports. `hz` is not 0: the division would trap.
unfoldable pub set_timer : Timer → ℕ → Timer × List (ℕ × ℕ)
set_timer t hz =
    let r = 0x1234dc / hz % u16_mod in
    (
      record t { tick_hz = hz; us_per_tick = 1000000 / hz },
      (0x43, 0x36) ∷ (0x40, r % 256) ∷ (0x40, r / 256 % 256) ∷ [],
    )

abbrev pub wake : ℕ → (ℕ → Bool) → ℕ → Bool
wake task waiting id = if id == task then false else waiting id

tick_events : ℕ → List WakeEvent → (ℕ → Bool) → List WakeEvent × (ℕ → Bool)
tick_events us_per_tick [] waiting = ([], waiting)
tick_events us_per_tick (top ∷ rest) waiting =
    if ltb us_per_tick top.us_left
    then (record top { us_left = sub32 top.us_left us_per_tick } ∷ rest, waiting)
    else (rest, wake top.to_wake waiting)

unfoldable pub tick : Timer → (ℕ → Bool) → Timer × (ℕ → Bool)
unfolding tick_events
tick t waiting =
    let (events, waiting') = tick_events t.us_per_tick t.wakeevents waiting in
    (
      record t {
        wakeevents = events;
        switches = add32 t.switches 1;
        system_us = add32 t.system_us t.us_per_tick;
      },
      waiting',
    )

-- The loop of `wakeIn`: the running total when it stops.
unfoldable pub running_total : ℕ → List WakeEvent → ℕ → ℕ
running_total us [] total = total
running_total us (e ∷ rest) total =
    let next = running_total us rest (add32 total e.us_left) in
    if ltb us (add32 total e.us_left) then total else next

-- The new event's `usLeft`.
unfoldable pub wait_after : ℕ → List WakeEvent → ℕ
wait_after us [] = us
wait_after us (e ∷ rest) = sub32 us (running_total us (e ∷ rest) 0)

-- It returns the new event's uid. The event goes to the end of the list, wherever the loop stopped.
unfoldable pub wake_in : Timer → ℕ → ℕ → Timer × ℕ
wake_in t us task =
    let uid = add32 t.last_wake_id 1 in
    (
      record t {
        wakeevents =
            t.wakeevents
            ++ record { to_wake = task; uid = uid; us_left = wait_after us t.wakeevents } ∷ [];
        last_wake_id = uid;
      },
      uid,
    )

-- The event after the one that goes takes over its wait.
abbrev pub add_wait : ℕ → List WakeEvent → List WakeEvent
add_wait wait [] = []
add_wait wait (e ∷ rest) = record e { us_left = add32 e.us_left wait } ∷ rest

unfoldable pub desched_events : ℕ → List WakeEvent → Option (List WakeEvent)
desched_events uid [] = none
desched_events uid (e ∷ rest) =
    if e.uid == uid
    then some (add_wait e.us_left rest)
    else elim (desched_events uid rest) [ none ↦ none | some rest' ↦ some (e ∷ rest') ]

unfoldable pub desched : Timer → ℕ → Timer × Bool
unfolding desched_events
desched t uid = elim (desched_events uid t.wakeevents) [
  | none ↦ (t, false)
  | some events ↦ (record t { wakeevents = events }, true)
]
