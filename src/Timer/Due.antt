-- ===== src/Timer/Due.antt =====
-- When each event is due: its wait and those of all events before it.
use mathlib.Core.Bool.{false≢true}
use akari.Prelude.{
  ℕ, ◌+◌, ◌≤◌, ◌<◌, ◌≡◌, refl, ap, ◌∙◌, Bool, true, false, List, [], ◌∷◌, ◌++◌, none, some, arith,
  ◌==◌, if◌then◌else◌, add32, u32_mod, Bool-cases, inl, inr,
}
use akari.Timer.{
  WakeEvent, Timer, running_total, wait_after, wake_in, desched_events, desched, add_wait,
}

-- The uid of each event and the time at which it is due, `from` being the time now.
unfoldable pub dues : ℕ → List WakeEvent → List (ℕ × ℕ)
dues from [] = []
dues from (e ∷ rest) = (e.uid, from + e.us_left) ∷ dues (from + e.us_left) rest

-- When the last event is due.
unfoldable pub total : List WakeEvent → ℕ
total [] = 0
total (e ∷ rest) = e.us_left + total rest

-- The first entry of a uid is taken out.
unfoldable pub without : ℕ → List (ℕ × ℕ) → List (ℕ × ℕ)
without uid [] = []
without uid ((i, d) ∷ rest) = if i == uid then rest else (i, d) ∷ without uid rest

unfoldable pub knows : ℕ → List WakeEvent → Bool
knows uid [] = false
knows uid (e ∷ rest) = if e.uid == uid then true else knows uid rest

dues-append :
    (from : ℕ) (ws : List WakeEvent) (e : WakeEvent)
    → dues from (ws ++ e ∷ []) ≡ dues from ws ++ (e.uid, from + total ws + e.us_left) ∷ []
unfolding dues total
dues-append from [] e = ap (λ d. (e.uid, d) ∷ []) (omega arith)
dues-append from (w ∷ ws) e = ap (◌∷◌ (w.uid, from + w.us_left)) (
    dues-append (from + w.us_left) ws e
    ∙ ap (λ d. dues (from + w.us_left) ws ++ (e.uid, d) ∷ []) (omega arith))

running_total-le :
    (us : ℕ) (ws : List WakeEvent) (from : ℕ)
    → from + total ws < u32_mod
    → from ≤ us
    → (running_total us ws from ≤ us) × (running_total us ws from ≤ from + total ws)
unfolding running_total total
running_total-le us [] from w h = (h, omega arith)
running_total-le us (e ∷ rest) from w h =
    ground (arith, running_total-le us rest (add32 from e.us_left))

running_total_past :
    (us : ℕ) (ws : List WakeEvent) (from : ℕ)
    → from + total ws ≤ us
    → us < u32_mod
    → running_total us ws from ≡ from + total ws
unfolding running_total total
running_total_past us [] from h w = omega arith
running_total_past us (e ∷ rest) from h w =
    ground (arith, running_total_past us rest (add32 from e.us_left))

running_total_early :
    (us : ℕ) (ws : List WakeEvent) (from : ℕ)
    → from + total ws < u32_mod
    → from ≤ us
    → us < from + total ws
    → running_total us ws from < from + total ws
unfolding running_total total
running_total_early us [] from w h k = absurd (omega arith)
running_total_early us (e ∷ rest) from w h k =
    ground (arith, running_total_early us rest (add32 from e.us_left))

wait_after-due :
    (us : ℕ) (ws : List WakeEvent)
    → us < u32_mod
    → total ws < u32_mod
    → let due = total ws + wait_after us ws in
      (total ws ≤ us → due ≡ us) × (us < total ws → (us < due) × (total ws ≤ due))
unfolding wait_after total
wait_after-due us [] w k = (λ h. omega arith, λ h. absurd (omega arith))
wait_after-due us (e ∷ rest) w k =
    let ws = e ∷ rest in
    let le = running_total-le us ws 0 (omega arith) (omega arith) in
    (
      λ h. omega (arith, running_total_past us ws 0 (omega arith) w),
      λ h. omega (arith, le, running_total_early us ws 0 (omega arith) (omega arith) (omega arith)),
    )

-- For times below 2 ^ 32, `wakeIn` leaves the events that are there due when they were, and adds one at
-- the end. If no event is due later than `us` from now, the new one is due then; otherwise it is due
-- later than `us`, and not before any other.
pub wake_in-dues :
    (t : Timer) (us task : ℕ)
    → us < u32_mod
    → total t.wakeevents < u32_mod
    → let (t', uid) = wake_in t us task in
      (due : ℕ) × (dues 0 t'.wakeevents ≡ dues 0 t.wakeevents ++ (uid, due) ∷ [])
      × (total t.wakeevents ≤ us → due ≡ us)
      × (us < total t.wakeevents → (us < due) × (total t.wakeevents ≤ due))
unfolding wake_in
wake_in-dues t us task w k =
    let (on_time, late) = wait_after-due us t.wakeevents w k in
    (
      total t.wakeevents + wait_after us t.wakeevents,
      dues-append 0 t.wakeevents _
          ∙ ap (λ d. dues 0 t.wakeevents ++ (add32 t.last_wake_id 1, d) ∷ []) (omega arith),
      on_time,
      late,
    )

add_wait-dues :
    (from wait : ℕ) (ws : List WakeEvent)
    → wait + total ws < u32_mod
    → dues from (add_wait wait ws) ≡ dues (from + wait) ws
unfolding dues total
add_wait-dues from wait [] w = refl
add_wait-dues from wait (e ∷ rest) w = ap (λ d. (e.uid, d) ∷ dues d rest) (omega arith)

desched_events_unknown :
    (uid : ℕ) (ws : List WakeEvent) → knows uid ws ≡ false → desched_events uid ws ≡ none
unfolding desched_events knows
desched_events_unknown uid [] k = refl
desched_events_unknown uid (e ∷ rest) k = ground (arith, desched_events_unknown uid rest)

desched_events-dues :
    (uid from : ℕ) (ws : List WakeEvent)
    → total ws < u32_mod
    → knows uid ws ≡ true
    → (ws' : List WakeEvent) × (desched_events uid ws ≡ some ws')
      × (dues from ws' ≡ without uid (dues from ws))
unfolding desched_events dues total without knows
desched_events-dues uid from [] w k = absurd (false≢true k)
desched_events-dues uid from (e ∷ rest) w k = elim (Bool-cases (e.uid == uid)) [
  | inl this ↦ rw this (add_wait e.us_left rest, refl, add_wait-dues from e.us_left rest w)
  | inr other ↦
      let (ws', s, d) =
        desched_events-dues uid (from + e.us_left) rest (omega arith) (ground arith) in
      (e ∷ ws', ground (arith, s), ground (arith, d))
]

-- For times below 2 ^ 32, `desched` of an event that is there returns true and takes it out, and every
-- other event stays due when it was. With any other uid it returns false and the times stay.
pub desched-dues :
    (t : Timer) (uid : ℕ)
    → total t.wakeevents < u32_mod
    → let (t', found) = desched t uid in
      (found ≡ knows uid t.wakeevents)
      × (dues 0 t'.wakeevents ≡ (
          if knows uid t.wakeevents
          then without uid (dues 0 t.wakeevents)
          else dues 0 t.wakeevents))
unfolding desched
desched-dues t uid w = elim (Bool-cases (knows uid t.wakeevents)) [
  | inl known ↦
      let (ws', s, d) = desched_events-dues uid 0 t.wakeevents w known in
      (ground (arith, s), ground (arith, s, d))
  | inr unknown ↦
      let s = desched_events_unknown uid t.wakeevents unknown in
      (ground (arith, s), ground (arith, s))
]
