-- ===== src/Tasks/Schedule.antt =====
-- The choice of the next task: the first in ring order after the current one that does not wait.
use akari.Prelude.{
  ℕ, zero, suc, ◌+◌, ◌-◌, ◌<◌, ◌≡◌, ◌≢◌, refl, ap, ◌⊎◌, Option-cases, sym, ◌∙◌, subst, Bool, true,
  false, List, [], ◌∷◌, none, some, arith, get_elem?, length, get_elem?-lt, ltb, if◌then◌else◌,
  Bool-cases, inl, inr, Result, ok, panic,
}
use native.Mathlib.Decide.{ℕ_discrete}
use akari.Tasks.{Task, Kernel, next_task, next_ready, prepare_fetch_next_task, position}

-- Whether the task at a position waits.
unfoldable pub waits : List Task → ℕ → Bool
waits ts i = elim (get_elem? ts i) [ some t ↦ t.user_waiting | none ↦ false ]

-- The position that is `d` places after `t` in a ring of `n` tasks.
abbrev pub ring : ℕ → ℕ → ℕ → ℕ
ring n t d = if ltb (t + d) n then t + d else (t + d) - n

-- What the search from position `t` finds: the first that is ready, or a panic if all wait.
pub data FirstReady (ts : List Task) (t : ℕ) : Result ℕ → Type 0 where
  ready :
      (d : ℕ)
      → d < length ts
      → waits ts (ring (length ts) t d) ≡ false
      → ((e : ℕ) → e < d → waits ts (ring (length ts) t e) ≡ true)
      → FirstReady ts t (ok (ring (length ts) t d))
  all_wait :
      ((e : ℕ) → e < length ts → waits ts (ring (length ts) t e) ≡ true) → FirstReady ts t panic

ring-next_task :
    (ts : List Task) (t d : ℕ)
    → t < length ts
    → suc d < length ts
    → next_task ts (ring (length ts) t d) ≡ ring (length ts) t (suc d)
unfolding next_task
ring-next_task ts t d u l = ground arith

next_task-bound : (ts : List Task) (i : ℕ) → i < length ts → next_task ts i < length ts
unfolding next_task
next_task-bound ts i l = ground arith

ring-end :
    (ts : List Task) (t d : ℕ)
    → t < length ts
    → suc d ≡ length ts
    → next_task ts (ring (length ts) t d) ≡ t
unfolding next_task
ring-end ts t d u l = ground arith

ring-off :
    (ts : List Task) (t d : ℕ) → t < length ts → suc d < length ts → ring (length ts) t (suc d) ≢ t
ring-off ts t d u l = ground arith

-- One round of the search, at a position of the list.
module _ (ts : List Task) (t i rounds : ℕ) (inside : i < length ts) where
  round_ready : waits ts i ≡ false → next_ready ts t i (suc rounds) ≡ ok i
  unfolding next_ready waits
  round_ready w = let (task, e) = get_elem?-lt ts i inside in ground (arith, e, w)

  round_panic : waits ts i ≡ true → next_task ts i ≡ t → next_ready ts t i (suc rounds) ≡ panic
  unfolding next_ready waits
  round_panic w p = let (task, e) = get_elem?-lt ts i inside in ground (arith, e, w, p)

  round_next :
      waits ts i ≡ true
      → next_task ts i ≢ t
      → next_ready ts t i (suc rounds) ≡ next_ready ts t (next_task ts i) rounds
  unfolding next_ready waits
  round_next w n = let (task, e) = get_elem?-lt ts i inside in ground (arith, e, w, n)

-- All that the search has passed so far waits, with the position it stands at.
waits_until :
    (ts : List Task) (t d : ℕ)
    → ((e : ℕ) → e < d → waits ts (ring (length ts) t e) ≡ true)
    → waits ts (ring (length ts) t d) ≡ true
    → (e : ℕ) → e < suc d
    → waits ts (ring (length ts) t e) ≡ true
waits_until ts t d h w e l = elim (ℕ_discrete e d) [
  | yes p ↦ ap (λ x. waits ts (ring (length ts) t x)) p ∙ w
  | no n ↦ h e (omega (arith, n))
]

next_ready-FirstReady :
    (ts : List Task) (t d rounds : ℕ)
    → t < length ts
    → d + suc rounds ≡ length ts
    → ((e : ℕ) → e < d → waits ts (ring (length ts) t e) ≡ true)
    → FirstReady ts t (next_ready ts t (ring (length ts) t d) (suc rounds))
next_ready-FirstReady ts t d zero u n h =
    let i = ring (length ts) t d in
    let inside : i < length ts = ground (arith, u, n) in
    elim (Bool-cases (waits ts i)) [
      | inr w ↦
          subst (FirstReady ts t) (sym (round_ready ts t i zero inside w))
            (ready d (omega (arith, n)) w h)
      | inl w ↦
          subst (FirstReady ts t)
            (sym (round_panic ts t i zero inside w (ring-end ts t d u (omega (arith, n)))))
            (all_wait λ e l. waits_until ts t d h w e (omega (arith, n, l)))
    ]
next_ready-FirstReady ts t d (suc rounds) u n h =
    let i = ring (length ts) t d in
    let inside : i < length ts = ground (arith, u, n) in
    let next : next_task ts i ≡ ring (length ts) t (suc d) =
      ring-next_task ts t d u (omega (arith, n)) in
    elim (Bool-cases (waits ts i)) [
      | inr w ↦
          subst (FirstReady ts t) (sym (round_ready ts t i (suc rounds) inside w))
            (ready d (omega (arith, n)) w h)
      | inl w ↦
          subst (FirstReady ts t)
            (sym (
              round_next ts t i (suc rounds) inside w
                (λ p. ring-off ts t d u (omega (arith, n)) (sym next ∙ p))
              ∙ ap (λ j. next_ready ts t j (suc rounds)) next))
            (next_ready-FirstReady ts t (suc d) rounds u (omega (arith, n))
              (waits_until ts t d h w))
    ]

position-bound : (ts : List Task) (id : ℕ) {c : ℕ} → position ts id ≡ some c → c < length ts
unfolding position
position-bound [] id e = absurd (ground (arith, e))
position-bound (t ∷ ts) id {c} e = elim (Option-cases (position ts id)) [
  | inl none_here ↦ ground (arith, e, none_here)
  | inr found ↦
      let (i, at) = found in
      let rest : i < length ts = position-bound ts id at in ground (arith, e, at, rest)
]

-- The search from its start, with a round for each task.
next_ready-start :
    (ts : List Task) (t n : ℕ)
    → t < length ts
    → n ≡ length ts
    → FirstReady ts t (next_ready ts t t n)
next_ready-start ts t zero u p = absurd (omega (arith, u, p))
next_ready-start ts t (suc n) u p =
    subst (λ i. FirstReady ts t (next_ready ts t i (suc n))) (ground (arith, u))
      (next_ready-FirstReady ts t 0 n u (omega (arith, p)) (λ e l. absurd (omega (arith, l))))

-- Every position is in the ring.
ring_all :
    (ts : List Task) (t : ℕ)
    → t < length ts
    → ((e : ℕ) → e < length ts → waits ts (ring (length ts) t e) ≡ true)
    → (i : ℕ) → i < length ts
    → waits ts i ≡ true
ring_all ts t u h i l =
    let e : ℕ = if ltb i t then (i + length ts) - t else i - t in
    let at : ring (length ts) t e ≡ i = ground (arith, u, l) in
    ap (waits ts) (sym at) ∙ h e (ground (arith, u, l))

ready_task :
    (ts : List Task) (i : ℕ)
    → i < length ts
    → waits ts i ≡ false
    → (t : Task) × (get_elem? ts i ≡ some t) × (t.user_waiting ≡ false)
unfolding waits
ready_task ts i l w = let (t, e) = get_elem?-lt ts i l in (t, e, ground (arith, e, w))

-- With no priority task, `prepareFetchNextTask` returns the first task in the ring after the
-- current one that does not wait, and changes nothing; if all wait, it panics.
pub prepare_fetch_next_task-FirstReady :
    (k : Kernel) (c : ℕ)
    → k.priority ≡ []
    → position k.tasks k.current ≡ some c
    → let n = length k.tasks in
      let start = next_task k.tasks c in
      ((d : ℕ) × (t : Task) × (get_elem? k.tasks (ring n start d) ≡ some t)
        × (t.user_waiting ≡ false)
        × ((e : ℕ) → e < d → waits k.tasks (ring n start e) ≡ true)
        × (prepare_fetch_next_task k ≡ ok (t.id, k)))
      ⊎ ((i : ℕ) → i < n → waits k.tasks i ≡ true) × (prepare_fetch_next_task k ≡ panic)
unfolding prepare_fetch_next_task
prepare_fetch_next_task-FirstReady k c empty at =
    let inside : c < length k.tasks = position-bound k.tasks k.current at in
    let u : next_task k.tasks c < length k.tasks = next_task-bound k.tasks c inside in
    chosen u (next_ready k.tasks (next_task k.tasks c) (next_task k.tasks c) (length k.tasks)) refl
      (next_ready-start k.tasks (next_task k.tasks c) (length k.tasks) u refl)
  where
    chosen :
        next_task k.tasks c < length k.tasks
        → (r : Result ℕ)
        → next_ready k.tasks (next_task k.tasks c) (next_task k.tasks c) (length k.tasks) ≡ r
        → FirstReady k.tasks (next_task k.tasks c) r
        → ((d : ℕ) × (t : Task) × (get_elem? k.tasks (ring (length k.tasks) (next_task k.tasks c) d)
              ≡ some t)
            × (t.user_waiting ≡ false)
            × ((e : ℕ)
                → e < d
                → waits k.tasks (ring (length k.tasks) (next_task k.tasks c) e) ≡ true)
            × (prepare_fetch_next_task k ≡ ok (t.id, k)))
          ⊎ ((i : ℕ) → i < length k.tasks → waits k.tasks i ≡ true)
            × (prepare_fetch_next_task k ≡ panic)
    chosen u _ f (ready d l w h) =
        let (t, e, awake) =
          ready_task k.tasks (ring (length k.tasks) (next_task k.tasks c) d) (ground (arith, u, l))
            w in
        inl (d, t, e, awake, h, ground (arith, empty, at, f, e))
    chosen u _ f (all_wait h) =
        inr (ring_all k.tasks (next_task k.tasks c) u h, ground (arith, empty, at, f))
