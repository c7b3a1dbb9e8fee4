-- ===== src/Calls/Privileges.antt =====
-- What a process is granted by another.
use native.Mathlib.Decide.{ℕ_discrete}
use akari.Prelude.{
  get_elem?-lt, set, set_bit, subst, ◌/◌, ◌%◌, Bool, ℕ, ◌<◌, ◌≡◌, ◌≢◌, refl, ◌∙◌, true, List, [],
  ◌∷◌, none, some, arith, inl, inr, length, ◌==◌, if◌then◌else◌, ok, Option-cases,
}
use akari.Tasks.{Task, priv_count, get_task_by_id, put_task, grant_privilege, has_privilege}
use akari.Tasks.Lookup.{get_task_by_id-id, get_task_by_id-put_task_same}
use akari.Tasks.Access.{has_privilege-grant_privilege}
use akari.Calls.{
  System, current_task, sysexit, task_by_pid, write_task, require_privilege, grant_privilege_to,
}

get_task_by_id-put_task-none :
    (ts : List Task) (id : ℕ) (t : Task)
    → get_task_by_id ts id ≡ none
    → get_task_by_id (put_task ts t) id ≡ none
unfolding get_task_by_id put_task
get_task_by_id-put_task-none [] id t e = refl
get_task_by_id-put_task-none (u ∷ ts) id t e = elim (ℕ_discrete u.id id) [
  | yes p ↦ absurd (ground (arith, e, p))
  | no n ↦
      let rest : get_task_by_id ts id ≡ none = ground (arith, e, n) in
      elim (ℕ_discrete u.id t.id) [
        | yes q ↦ let m : t.id ≢ id = λ r. n (q ∙ r) in ground (arith, q, m, rest)
        | no m ↦ ground (arith, m, n, get_task_by_id-put_task-none ts id t rest)
      ]
]

-- A task that is written is the one that its id leads to.
pub task_by_pid-write_task :
    (s : System) (id : ℕ) (t t' : Task)
    → task_by_pid s id ≡ some t
    → t'.id ≡ t.id
    → task_by_pid (write_task s t') id ≡ some t'
unfolding task_by_pid write_task
task_by_pid-write_task s id t t' e p = elim (Option-cases (get_task_by_id s.kernel.tasks id)) [
  | inl absent ↦
      let there : get_task_by_id s.others id ≡ some t = ground (arith, e, absent) in
      let same =
        get_task_by_id-put_task_same s.others id t t' there
          (p ∙ get_task_by_id-id s.others id {t = t} there) in
      ground (arith, get_task_by_id-put_task-none s.kernel.tasks id t' absent, same)
  | inr r ↦
      let (u, f) = r in
      let here : get_task_by_id s.kernel.tasks id ≡ some t = ground (arith, e, f) in
      ground (
        arith,
        get_task_by_id-put_task_same s.kernel.tasks id t t' here
            (p ∙ get_task_by_id-id s.kernel.tasks id {t = t} here),
      )
]

-- All of a task but its map of privileges is as before.
grant_privilege-priv_map :
    (t t' : Task) (priv : ℕ)
    → priv < priv_count
    → 0 < length t.priv_map
    → grant_privilege t priv ≡ ok t'
    → t' ≡ record t { priv_map = t'.priv_map }
unfolding grant_privilege
grant_privilege-priv_map t t' priv u l e =
    let (byte, f) = get_elem?-lt t.priv_map (priv / 8) (omega (arith, u, l)) in
    let granted : Task = record t {
      priv_map = set t.priv_map (priv / 8) (set_bit byte (priv % 8));
    } in
    let same : granted ≡ t' = ground (arith, u, f, e) in
    subst (λ (v : Task). v ≡ record t { priv_map = v.priv_map }) same refl

grant_privilege-id : (t t' : Task) (priv : ℕ) → grant_privilege t priv ≡ ok t' → t'.id ≡ t.id
unfolding grant_privilege
grant_privilege-id t t' priv e = ground (arith, e)

-- `grantPrivilege` of a privilege that exists, for a process that exists, first exits the calling task
-- when that has not the privilege 0. It goes on after that in either case: it writes the process's task,
-- which then has the privilege, no other that it had not, and is otherwise as it was; and it writes
-- nothing else.
pub grant_privilege_to-has_privilege :
    (s s' : System) (caller : Task) (allowed : Bool) (pid priv : ℕ) (t : Task)
    → current_task s ≡ ok caller
    → has_privilege caller 0 ≡ ok allowed
    → (if allowed then ok s else sysexit s) ≡ ok s'
    → task_by_pid s' pid ≡ some t
    → priv < priv_count
    → 0 < length t.priv_map
    → (t' : Task) × (grant_privilege_to s pid priv ≡ ok (true, write_task s' t'))
      × (task_by_pid (write_task s' t') pid ≡ some t')
      × (t' ≡ record t { priv_map = t'.priv_map })
      × ((other : ℕ)
          → has_privilege t' other ≡ (if priv == other then ok true else has_privilege t other))
unfolding grant_privilege_to require_privilege
grant_privilege_to-has_privilege s s' caller allowed pid priv t c h x e l m =
    let (t', g, _, law) = has_privilege-grant_privilege t priv l m in
    let same : t'.id ≡ t.id = grant_privilege-id t t' priv g in
    let r : require_privilege s 0 ≡ ok s' = ground (arith, c, h, x) in
    (
      t',
      ground (arith, r, e, g),
      task_by_pid-write_task s' pid t t' e same,
      grant_privilege-priv_map t t' priv l m g,
      law,
    )
