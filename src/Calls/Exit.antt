-- ===== src/Calls/Exit.antt =====
-- `sysexit`: the process leaves the list, and those that wait for it go on.
use native.Mathlib.Decide.{ℕ_discrete}
use akari.Prelude.{
  ℕ, ◌≡◌, ◌≢◌, refl, ap, subst, sym, ◌∙◌, Bool, false, not, ◌&&◌, List, [], ◌∷◌, map, none, some,
  arith, inl, inr, ◌==◌, if◌then◌else◌, ok, Result, All, Option-cases, ◌>>=◌, ◌>>◌, assert, bind_ok,
  or_fault, get_elem?, length, ◌⊎◌,
}
use akari.Tasks.{
  Task, Kernel, Call, CallType, wait_process_call, probe_queue_call, process_id_by_name_call,
  read_stream_call, irq_wait_call, nanosleep_call, insttype, same_type, unblock_with,
  unblock_type_with, get_task_by_id, position, next_task, next_ready, prepare_fetch_next_task,
  return_to_next_task,
}
use akari.Calls.Irq.{Distinct}
use akari.Calls.{System, wake_waiting, unlink, erase_task, sysexit}

-- What the exit of a process does to another task.
unfoldable pub awaits_exit : Task → ℕ → Bool
awaits_exit t id = elim t.user_call [
  | some (wait_process_call pid) ↦ t.user_waiting && pid == id
  | _ ↦ false
]

abbrev pub after_exit : ℕ → Task → Task
after_exit id t =
    if awaits_exit t id && not (t.id == id) then record t { user_waiting = false } else t

none-wakes :
    (t : Task) (id : ℕ)
    → t.user_call ≡ none
    → unblock_type_with t CallType.wait_process id
      ≡ ok (if awaits_exit t id then record t { user_waiting = false } else t)
unfolding unblock_type_with awaits_exit
none-wakes t id c = ground (arith, c)

call-wakes :
    (t : Task) (call : Call) (id : ℕ)
    → t.user_call ≡ some call
    → unblock_type_with t CallType.wait_process id
      ≡ ok (if awaits_exit t id then record t { user_waiting = false } else t)
unfolding unblock_type_with awaits_exit insttype same_type unblock_with
call-wakes t (wait_process_call pid) id c = ground (arith, c)
call-wakes t (probe_queue_call r) id c = ground (arith, c)
call-wakes t (process_id_by_name_call n) id c = ground (arith, c)
call-wakes t (read_stream_call p n l m) id c = ground (arith, c)
call-wakes t (irq_wait_call m e) id c = ground (arith, c)
call-wakes t (nanosleep_call m n e) id c = ground (arith, c)

unblock-after_exit :
    (t : Task) (id : ℕ)
    → (if t.id == id then ok t else unblock_type_with t CallType.wait_process id)
      ≡ ok (after_exit id t)
unblock-after_exit t id = elim (Option-cases t.user_call) [
  | inl nothing ↦ ground (arith, none-wakes t id nothing)
  | inr r ↦ let (call, c) = r in ground (arith, call-wakes t call id c)
]

wake_waiting-map : (ts : List Task) (id : ℕ) → wake_waiting ts id ≡ ok (map (after_exit id) ts)
unfolding wake_waiting
wake_waiting-map [] id = refl
wake_waiting-map (t ∷ ts) id = ground (arith, unblock-after_exit t id, wake_waiting-map ts id)

priority-cases : (ps : List ℕ) → (ps ≡ []) ⊎ ((p : ℕ) × (rest : List ℕ) × (ps ≡ p ∷ rest))
priority-cases [] = inl refl
priority-cases (p ∷ rest) = inr (p, rest, refl)

prepare_fetch_next_task-tasks :
    (k : Kernel) (r : ℕ × Kernel)
    → prepare_fetch_next_task k ≡ ok r
    → (r.1.tasks ≡ k.tasks) × (r.1.current ≡ k.current)
unfolding prepare_fetch_next_task
prepare_fetch_next_task-tasks k r e = elim (priority-cases k.priority) [
  | inl empty ↦
      let after : ℕ → Result (ℕ × Kernel) = λ c.
        next_ready k.tasks (next_task k.tasks c) (next_task k.tasks c) (length k.tasks)
        >>= (λ i. or_fault (get_elem? k.tasks i) >>= (λ task. ok (task.id, k))) in
      let found : (or_fault (position k.tasks k.current) >>= after) ≡ ok r =
        ground (arith, e, empty) in
      let (c, _, e1) = bind_ok (or_fault (position k.tasks k.current)) after found in
      let (i, _, e2) =
        bind_ok (next_ready k.tasks (next_task k.tasks c) (next_task k.tasks c) (length k.tasks))
          (λ i. or_fault (get_elem? k.tasks i) >>= (λ task. ok (task.id, k))) e1 in
      let (task, _, e3) = bind_ok (or_fault (get_elem? k.tasks i)) (λ task. ok (task.id, k)) e2 in
      (ground (arith, e3), ground (arith, e3))
  | inr r ↦ let (p, rest, f) = r in (ground (arith, e, f), ground (arith, e, f))
]

return_to_next_task-tasks :
    (k k' : Kernel)
    → return_to_next_task k ≡ ok k'
    → (k'.tasks ≡ k.tasks)
      × (k'.current ≡ k.current)
      × ((n : ℕ) × (k'.return_task ≡ some n) × (n ≢ k.current))
unfolding return_to_next_task
return_to_next_task-tasks k k' e =
    let after : ℕ × Kernel → Result Kernel =
      λ r. assert (not (r.0 == r.1.current)) >> ok (record r.1 { return_task = some r.0 }) in
    let (r, p, e1) = bind_ok (prepare_fetch_next_task k) after e in
    let (same, current) = prepare_fetch_next_task-tasks k r p in
    let last : (k' ≡ record r.1 { return_task = some r.0 }) × (r.0 ≢ r.1.current) =
      (ground (arith, e1), ground (arith, e1)) in
    (
      ap Kernel.tasks last.0 ∙ same,
      ap Kernel.current last.0 ∙ current,
      (r.0, ap Kernel.return_task last.0, λ q. last.1 (q ∙ sym current)),
    )

get_task_by_id-map :
    (ts : List Task) (gone id : ℕ) (t : Task)
    → get_task_by_id ts id ≡ some t
    → get_task_by_id (map (after_exit gone) ts) id ≡ some (after_exit gone t)
unfolding get_task_by_id
get_task_by_id-map [] gone id t e = absurd (ground (arith, e))
get_task_by_id-map (u ∷ ts) gone id t e = elim (ℕ_discrete u.id id) [
  | yes p ↦
      let same : u ≡ t = ground (arith, e, p) in
      ground (arith, p) ∙ ap (λ t. some (after_exit gone t)) same
  | no n ↦
      let there : get_task_by_id ts id ≡ some t = ground (arith, e, n) in
      ground (arith, n, get_task_by_id-map ts gone id t there)
]

get_task_by_id-none :
    (ts : List Task) (id : ℕ) → All (λ u. u.id ≢ id) ts → get_task_by_id ts id ≡ none
unfolding get_task_by_id
get_task_by_id-none [] id h = refl
get_task_by_id-none (t ∷ ts) id h = ground (arith, h.0, get_task_by_id-none ts id h.1)

unlink-none :
    (ts rest : List Task) (gone : ℕ) (t : Task)
    → Distinct ts
    → unlink ts gone ≡ some (t, rest)
    → get_task_by_id rest gone ≡ none
unfolding get_task_by_id unlink
unlink-none [] rest gone t d e = absurd (ground (arith, e))
unlink-none (u ∷ ts) rest gone t d e = elim (ℕ_discrete u.id gone) [
  | yes p ↦
      let same : ts ≡ rest = ground (arith, e, p) in
      ap (λ l. get_task_by_id l gone) (sym same)
      ∙ get_task_by_id-none ts gone (subst (λ i. All (λ u. u.id ≢ i) ts) p d.0)
  | no n ↦ elim (Option-cases (unlink ts gone)) [
    | inl absent ↦ absurd (ground (arith, e, n, absent))
    | inr r ↦
        let ((v, us), f) = r in
        let same : u ∷ us ≡ rest = ground (arith, e, n, f) in
        let behind : get_task_by_id us gone ≡ none = unlink-none ts us gone v d.1 f in
        ap (λ l. get_task_by_id l gone) (sym same) ∙ ground (arith, n, behind)
  ]
]

after_exit-id : (gone : ℕ) (t : Task) → (after_exit gone t).id ≡ t.id
after_exit-id gone t = ground arith

Distinct-after_exit :
    (gone : ℕ) (ts : List Task) → Distinct ts → Distinct (map (after_exit gone) ts)
Distinct-after_exit gone [] d = tt
Distinct-after_exit gone (t ∷ ts) d = (others ts d.0, Distinct-after_exit gone ts d.1)
  where
    others :
        (us : List Task)
        → All (λ u. u.id ≢ t.id) us
        → All (λ u. u.id ≢ (after_exit gone t).id) (map (after_exit gone) us)
    others [] h = tt
    others (u ∷ us) h =
        (λ e. h.0 (sym (after_exit-id gone u) ∙ e ∙ after_exit-id gone t), others us h.1)

get_task_by_id-unlink :
    (ts : List Task) (gone : ℕ) (t : Task)
    → get_task_by_id ts gone ≡ some t
    → (rest : List Task) × (unlink ts gone ≡ some (t, rest))
      × ((id : ℕ) → id ≢ gone → get_task_by_id rest id ≡ get_task_by_id ts id)
unfolding get_task_by_id unlink
get_task_by_id-unlink [] gone t e = absurd (ground (arith, e))
get_task_by_id-unlink (u ∷ ts) gone t e = elim (ℕ_discrete u.id gone) [
  | yes p ↦
      let same : u ≡ t = ground (arith, e, p) in
      (
        ts,
        ground (arith, p) ∙ ap (λ t. some (t, ts)) same,
        λ id n. let m : u.id ≢ id = λ q. n (sym q ∙ p) in ground (arith, m),
      )
  | no n ↦
      let there : get_task_by_id ts gone ≡ some t = ground (arith, e, n) in
      let (rest, f, law) = get_task_by_id-unlink ts gone t there in
      (u ∷ rest, ground (arith, n, f), λ id m. ground (arith, law id m))
]

-- The exit of a process of the list, when the processes have ids of their own and another is there to run:
-- it is found by its id no more, every other task is
-- found by its id as before, but awake when it waited for this process to end, and the processor goes to
-- a task other than the process.
pub sysexit-tasks :
    (s : System) (k : Kernel) (t : Task)
    → Distinct s.kernel.tasks
    → get_task_by_id s.kernel.tasks s.kernel.current ≡ some t
    → return_to_next_task
        (record s.kernel { tasks = map (after_exit s.kernel.current) s.kernel.tasks })
      ≡ ok k
    → (s' : System) × (sysexit s ≡ ok s')
      × ((id : ℕ) (u : Task)
          → id ≢ s.kernel.current
          → get_task_by_id s.kernel.tasks id ≡ some u
          → get_task_by_id s'.kernel.tasks id ≡ some (after_exit s.kernel.current u))
      × (get_task_by_id s'.kernel.tasks s.kernel.current ≡ none)
      × ((n : ℕ) × (s'.kernel.return_task ≡ some n) × (n ≢ s.kernel.current))
unfolding sysexit
sysexit-tasks s k t d e r =
    let id = s.kernel.current in
    let (same, current, next) = return_to_next_task-tasks _ k r in
    let there = get_task_by_id-map s.kernel.tasks id id t e in
    let (rest, u, law) =
      get_task_by_id-unlink (map (after_exit id) s.kernel.tasks) id (after_exit id t) there in
    let gone : unlink k.tasks id ≡ some (after_exit id t, rest) =
      ap (λ ts. unlink ts id) same ∙ u in
    (
      record s {
        kernel = record k { tasks = rest };
        others = after_exit id t ∷ s.others;
        registered_tasks = erase_task s.registered_tasks id;
      },
      ground (arith, wake_waiting-map s.kernel.tasks id, r, gone),
      λ i v n f. law i n ∙ get_task_by_id-map s.kernel.tasks id i v f,
      unlink-none (map (after_exit id) s.kernel.tasks) rest id (after_exit id t)
          (Distinct-after_exit id s.kernel.tasks d) u,
      next,
    )
