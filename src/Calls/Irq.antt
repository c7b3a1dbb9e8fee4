-- ===== src/Calls/Irq.antt =====
-- `callHandler` of Descriptor.cpp: an interrupt and the processes that listen for it.
use akari.Prelude.{
  Option, some, none, true, Result, panic, Bool, add32, ℕ, ◌≡◌, ◌≢◌, refl, ap, sym, ◌∙◌, false, not,
  ◌&&◌, List, [], ◌∷◌, ◌++◌, map, arith, inl, inr, ◌==◌, if◌then◌else◌, ok, All, append-nil,
  Bool-cases,
}
use akari.Tasks.{
  probe_queue_call, process_id_by_name_call, wait_process_call, read_stream_call, irq_wait_call,
  nanosleep_call, Task, Kernel, Call, CallType, unblock_type, insttype, same_type,
}

-- A task put at the end of the priority list. One that is on it already becomes its end.
unfoldable pub append_priority : List ℕ → ℕ → List ℕ
append_priority [] id = id ∷ []
append_priority (p ∷ ps) id = if p == id then id ∷ [] else p ∷ append_priority ps id

-- What an interrupt does to a task that listens for it.
abbrev pub hit : Task → Task
hit t = unblock_type (record t { irq_listen_hits = add32 t.irq_listen_hits 1 }) CallType.irq_wait

-- The loop of `IRQT::callHandler` over the tasks.
unfoldable pub hit_listeners : List Task → ℕ → List ℕ → List Task × List ℕ
hit_listeners [] irq priority = ([], priority)
hit_listeners (t ∷ ts) irq priority =
    let t' = if t.irq_listen == irq then hit t else t in
    let ready = t.irq_listen == irq && not t'.user_waiting in
    let (ts', priority') =
      hit_listeners ts irq (if ready then append_priority priority t.id else priority) in
    (t' ∷ ts', priority')

-- `IRQT::callHandler`, with whether the interrupt has a routine, which none has.
unfoldable pub call_handler : Kernel → ℕ → Bool → Result Kernel
call_handler k irq routine =
    let (tasks, priority) = hit_listeners k.tasks irq k.priority in
    elim priority [
      | p ∷ ps ↦ ok (record k { tasks = tasks; priority = ps; current = p })
      | [] ↦ if routine then panic else ok (record k { tasks = tasks; priority = [] })
    ]

-- Ids that a list does not have.
abbrev pub Absent : ℕ → List ℕ → Type 0
Absent id = All (λ p. p ≢ id)

-- The tasks have ids of their own.
abbrev pub Distinct : List Task → Type 0
Distinct [] = Unit
Distinct (t ∷ ts) = All (λ u. u.id ≢ t.id) ts × Distinct ts

-- Whether the call that a task is in waits for an interrupt.
abbrev pub waits_for_irq : Option Call → Bool
waits_for_irq (some (irq_wait_call timeout wakeevent_id)) = true
waits_for_irq _ = false

-- The task after an interrupt: one that listens for it has one more to take, and waits no longer if it
-- waited for an interrupt.
abbrev pub after_hit : ℕ → Task → Task
after_hit irq t =
    if t.irq_listen == irq
    then record t {
      irq_listen_hits = add32 t.irq_listen_hits 1;
      user_waiting = t.user_waiting && not (waits_for_irq t.user_call);
    }
    else t

-- The ids of the tasks that it makes ready, in the order of the list.

unfoldable pub ready_ids : List Task → ℕ → List ℕ
ready_ids [] irq = []
ready_ids (t ∷ ts) irq =
    if t.irq_listen == irq && not (after_hit irq t).user_waiting
    then t.id ∷ ready_ids ts irq
    else ready_ids ts irq

append_priority-Absent :
    (ps : List ℕ) (id : ℕ) → Absent id ps → append_priority ps id ≡ ps ++ id ∷ []
unfolding append_priority
append_priority-Absent [] id h = refl
append_priority-Absent (p ∷ ps) id h = ground (arith, h.0, append_priority-Absent ps id h.1)

-- The priority list has none of the tasks.
abbrev Apart : List ℕ → List Task → Type 0
Apart ps ts = All (λ t. Absent t.id ps) ts

Absent-append :
    (ps : List ℕ) (id other : ℕ) → Absent other ps → other ≢ id → Absent other (ps ++ id ∷ [])
Absent-append [] id other h n = (λ e. n (sym e), tt)
Absent-append (p ∷ ps) id other h n = (h.0, Absent-append ps id other h.1 n)

Apart-append :
    (ps : List ℕ) (id : ℕ) (ts : List Task)
    → Apart ps ts
    → All (λ u. u.id ≢ id) ts
    → Apart (ps ++ id ∷ []) ts
Apart-append ps id [] h d = tt
Apart-append ps id (t ∷ ts) h d = (Absent-append ps id t.id h.0 d.0, Apart-append ps id ts h.1 d.1)

append_one : (ps : List ℕ) (p : ℕ) (qs : List ℕ) → (ps ++ p ∷ []) ++ qs ≡ ps ++ p ∷ qs
append_one [] p qs = refl
append_one (q ∷ ps) p qs = ap (◌∷◌ q) (append_one ps p qs)

none-Apart : (ts : List Task) → Apart [] ts
none-Apart [] = tt
none-Apart (t ∷ ts) = (tt, none-Apart ts)

-- A hit is what the description says, whatever the task's call is and whether it waits.
hit-call :
    (t : Task) (call : Option Call) (waiting : Bool)
    → let u : Task = record t { user_call = call; user_waiting = waiting } in
      hit u ≡ record u {
        irq_listen_hits = add32 t.irq_listen_hits 1;
        user_waiting = waiting && not (waits_for_irq call);
      }
unfolding unblock_type insttype same_type
hit-call t none true = refl
hit-call t (some (probe_queue_call a)) true = refl
hit-call t (some (process_id_by_name_call a)) true = refl
hit-call t (some (wait_process_call a)) true = refl
hit-call t (some (read_stream_call a b c d)) true = refl
hit-call t (some (irq_wait_call a b)) true = refl
hit-call t (some (nanosleep_call a b c)) true = refl
hit-call t none false = refl
hit-call t (some (probe_queue_call a)) false = refl
hit-call t (some (process_id_by_name_call a)) false = refl
hit-call t (some (wait_process_call a)) false = refl
hit-call t (some (read_stream_call a b c d)) false = refl
hit-call t (some (irq_wait_call a b)) false = refl
hit-call t (some (nanosleep_call a b c)) false = refl

hit-after_hit : (irq : ℕ) (t : Task) → (if t.irq_listen == irq then hit t else t) ≡ after_hit irq t
hit-after_hit irq t =
    ap (λ u. if t.irq_listen == irq then u else t) (hit-call t t.user_call t.user_waiting)

hit_listeners-step :
    (t t' : Task) (ts : List Task) (irq : ℕ) (ps : List ℕ)
    → (if t.irq_listen == irq then hit t else t) ≡ t'
    → let rest =
        hit_listeners ts irq
          (if t.irq_listen == irq && not t'.user_waiting then append_priority ps t.id else ps) in
      hit_listeners (t ∷ ts) irq ps ≡ (t' ∷ rest.0, rest.1)
unfolding hit_listeners
hit_listeners-step t t' ts irq ps e =
    ap
      (λ (u : Task).
        let rest =
          hit_listeners ts irq
            (if t.irq_listen == irq && not u.user_waiting then append_priority ps t.id else ps) in
        (u ∷ rest.0, rest.1))
      e

hit_listeners-ready_ids :
    (ts : List Task) (irq : ℕ) (ps : List ℕ)
    → Distinct ts
    → Apart ps ts
    → hit_listeners ts irq ps ≡ (map (after_hit irq) ts, ps ++ ready_ids ts irq)
unfolding hit_listeners ready_ids
hit_listeners-ready_ids [] irq ps d h = ap (λ qs. ([], qs)) (sym (append-nil ps))
hit_listeners-ready_ids (t ∷ ts) irq ps d h =
    let cons : List Task × List ℕ → List Task × List ℕ = λ r. (after_hit irq t ∷ r.0, r.1) in
    let step = hit_listeners-step t (after_hit irq t) ts irq ps (hit-after_hit irq t) in
    elim (Bool-cases (t.irq_listen == irq && not (after_hit irq t).user_waiting)) [
      | inl ready ↦
          let longer : append_priority ps t.id ≡ ps ++ t.id ∷ [] =
            append_priority-Absent ps t.id h.0 in
          let rest =
            hit_listeners-ready_ids ts irq (ps ++ t.id ∷ []) d.1
              (Apart-append ps t.id ts h.1 d.0) in
          let moved : (ps ++ t.id ∷ []) ++ ready_ids ts irq ≡ ps ++ ready_ids (t ∷ ts) irq =
            append_one ps t.id (ready_ids ts irq) ∙ ap (λ l. ps ++ l) (ground (arith, ready)) in
          step
          ∙ ground (arith, ready, longer)
          ∙ ap cons rest
          ∙ ap (λ l. (map (after_hit irq) (t ∷ ts), l)) moved
      | inr idle ↦
          let rest = hit_listeners-ready_ids ts irq ps d.1 h.1 in
          let same : ready_ids ts irq ≡ ready_ids (t ∷ ts) irq = ground (arith, idle) in
          step
          ∙ ground (arith, idle)
          ∙ ap cons rest
          ∙ ap (λ l. (map (after_hit irq) (t ∷ ts), ps ++ l)) same
    ]

-- What the tasks and the processor come to when an interrupt without a routine comes, as an independent
-- description: all listeners are hit at once, and the ready ones queue up in the order of the list.
abbrev pub interrupted : Kernel → ℕ → Kernel
interrupted k irq = elim (ready_ids k.tasks irq) [
  | [] ↦ record k { tasks = map (after_hit irq) k.tasks; priority = [] }
  | p ∷ ps ↦ record k { tasks = map (after_hit irq) k.tasks; priority = ps; current = p }
]

-- When no task is left on the priority list and the tasks have ids of their own, `callHandler` without a
-- routine hits each task that listens, lets the first of them that is then ready run, and leaves the other
-- ready ones on the priority list in the order of the tasks; with none ready the current task runs on.
pub call_handler-interrupted :
    (k : Kernel) (irq : ℕ)
    → Distinct k.tasks
    → k.priority ≡ []
    → call_handler k irq false ≡ ok (interrupted k irq)
unfolding call_handler
call_handler-interrupted k irq d e =
    let hits : hit_listeners k.tasks irq k.priority
        ≡ (map (after_hit irq) k.tasks, ready_ids k.tasks irq) =
      ap (hit_listeners k.tasks irq) e
      ∙ hit_listeners-ready_ids k.tasks irq [] d (none-Apart k.tasks) in
    ground (arith, hits)
