-- ===== src/Calls/Names.antt =====
-- Names: a process registers one, and others look it up and wait for it.
use native.Mathlib.Decide.{ℕ_discrete}
use akari.Prelude.{
  ℕ, ◌≡◌, ◌≢◌, refl, ap, sym, ◌∙◌, true, false, List, [], ◌∷◌, ◌++◌, none, some, arith, ok,
}
use akari.Text.{strcmp}
use akari.Text.Compare.{IsText, strcmp-same}
use akari.Ipc.{wont_block}
use akari.Tasks.{Name, Task, Call, get_task_by_id, put_task, has_privilege}
use akari.Tasks.Lookup.{get_task_by_id-id, get_task_by_id-put_task_other}
use akari.Calls.{
  System, current_task, find_name, require_privilege, waits_for_name, wake_for, wake_named,
  register_name, lookup_name,
}

find_name-append_new :
    (names : List (Name × ℕ)) (name : Name) (pid : ℕ)
    → IsText name
    → find_name names name ≡ none
    → find_name (names ++ (name, pid) ∷ []) name ≡ some pid
unfolding find_name
find_name-append_new [] name pid v e =
    let same : strcmp name name ≡ 0 = (strcmp-same name name v v).1 refl in ground (arith, same)
find_name-append_new ((n, id) ∷ names) name pid v e = elim (ℕ_discrete (strcmp name n) 0) [
  | yes p ↦ absurd (ground (arith, e, p))
  | no m ↦
      let absent : find_name names name ≡ none = ground (arith, e, m) in
      ground (arith, m, find_name-append_new names name pid v absent)
]

find_name-append_other :
    (names : List (Name × ℕ)) (name other : Name) (pid : ℕ)
    → strcmp other name ≢ 0
    → find_name (names ++ (name, pid) ∷ []) other ≡ find_name names other
unfolding find_name
find_name-append_other [] name other pid n = ground (arith, n)
find_name-append_other ((m, id) ∷ names) name other pid n =
    ground (arith, find_name-append_other names name other pid n)

wake_for-id : (t : Task) (name : Name) → (wake_for t name).id ≡ t.id
unfolding wake_for
wake_for-id t name = ground arith

get_task_by_id-wake_named :
    (ts : List Task) (name : Name) (id : ℕ) (t : Task)
    → get_task_by_id ts id ≡ some t
    → get_task_by_id (wake_named ts name) id ≡ some (wake_for t name)
unfolding get_task_by_id wake_named
get_task_by_id-wake_named [] name id t e = absurd (ground (arith, e))
get_task_by_id-wake_named (u ∷ ts) name id t e = elim (ℕ_discrete u.id id) [
  | yes p ↦
      let same : u ≡ t = ground (arith, e, p) in
      let here : (wake_for u name).id ≡ id = wake_for-id u name ∙ p in
      ground (arith, here) ∙ ap (λ t. some (wake_for t name)) same
  | no n ↦
      let there : get_task_by_id ts id ≡ some t = ground (arith, e, n) in
      let here : (wake_for u name).id ≢ id = λ q. n (sym (wake_for-id u name) ∙ q) in
      ground (arith, here, get_task_by_id-wake_named ts name id t there)
]

-- That a task waits for a name.
abbrev pub Awaits : Task → Name → Type 0
Awaits t name =
    (call : Call) × (t.user_waiting ≡ true)
    × (t.user_call ≡ some call)
    × (waits_for_name call name ≡ true)

wake_for-Awaits :
    (t : Task) (name : Name) → Awaits t name → wake_for t name ≡ record t { user_waiting = false }
unfolding wake_for
wake_for-Awaits t name (call, w, c, n) = ground (arith, w, c, n)

-- A process that may register names gives a name that nobody has to a process that is in the list: then a
-- lookup of the name comes to that process, lookups of other names are as before, and a process other
-- than that one which waited for the name waits no more, its other fields kept.
pub register_name-lookup_name :
    (s : System) (caller named : Task) (pid : ℕ) (name : Name)
    → current_task s ≡ ok caller
    → has_privilege caller 5 ≡ ok true
    → IsText name
    → find_name s.registered_tasks name ≡ none
    → get_task_by_id s.kernel.tasks pid ≡ some named
    → (s' : System) × (register_name s pid name ≡ ok (true, s'))
      × (lookup_name s' name ≡ wont_block pid)
      × ((other : Name) → strcmp other name ≢ 0 → lookup_name s' other ≡ lookup_name s other)
      × ((id : ℕ) (t : Task)
          → id ≢ pid
          → get_task_by_id s.kernel.tasks id ≡ some t
          → Awaits t name
          → get_task_by_id s'.kernel.tasks id ≡ some (record t { user_waiting = false }))
unfolding register_name lookup_name require_privilege
register_name-lookup_name s caller named pid name c h v fresh e =
    let t : Task = record named { registered_name = some name } in
    let tid : t.id ≡ pid = get_task_by_id-id s.kernel.tasks pid {t = named} e in
    let s' : System = record s {
      kernel = record s.kernel { tasks = wake_named (put_task s.kernel.tasks t) name };
      registered_tasks = s.registered_tasks ++ (name, pid) ∷ [];
    } in
    (
      s',
      ground (arith, c, h, fresh, e),
      ground (arith, find_name-append_new s.registered_tasks name pid v fresh),
      λ other n. ground (arith, find_name-append_other s.registered_tasks name other pid n),
      λ id u n f w.
          let before : get_task_by_id (put_task s.kernel.tasks t) id ≡ some u =
            get_task_by_id-put_task_other s.kernel.tasks id t (λ p. n (sym p ∙ tid)) ∙ f in
          get_task_by_id-wake_named (put_task s.kernel.tasks t) name id u before
          ∙ ap some (wake_for-Awaits u name w),
    )
