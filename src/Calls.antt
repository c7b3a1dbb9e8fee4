-- ===== src/Calls.antt =====
-- UserIPC.cpp, UserCalls.cpp, UserProcess.cpp and UserPrivs.cpp: the system calls by which processes
-- find, wait for and start each other.
pub mod Names
pub mod Privileges
pub mod Exit
pub mod Irq
mod Tests
use akari.Prelude.{
  ℕ, zero, suc, ◌+◌, ◌-◌, Bool, true, false, not, ◌&&◌, ◌||◌, List, [], ◌∷◌, ◌++◌, Option, none,
  some, ltb, ◌==◌, if◌then◌else◌, add32, sub32, Result, ok, panic, fault, ◌>>=◌, ◌>>◌, assert,
  or_fault,
}
use akari.Text.{strcmp}
use akari.Ipc.{Outcome, wont_block, will_block}
use akari.Tasks.{
  Name, Task, Kernel, Call, CallType, process_id_by_name_call, wait_process_call, irq_wait_call,
  priv_count, get_task_by_id, put_task, has_privilege, grant_privilege, set_io_map, unblock_type,
  unblock_type_with, return_to_next_task,
}

-- The kernel with the other tasks that a pointer still leads to, those not begun yet and those that
-- exited, and with `registeredTasks`.
pub record System : Type 0 where
  pub kernel : Kernel
  pub others : List Task
  pub registered_tasks : List (Name × ℕ)

-- `tasksByPid[id]`, which has every task that was made.
unfoldable pub task_by_pid : System → ℕ → Option Task
task_by_pid s id = elim (get_task_by_id s.kernel.tasks id) [
  | some t ↦ some t
  | none ↦ get_task_by_id s.others id
]

-- A write through a pointer to a task.
unfoldable pub write_task : System → Task → System
write_task s t = record s {
  kernel = record s.kernel { tasks = put_task s.kernel.tasks t };
  others = put_task s.others t;
}

abbrev pub current_task : System → Result Task
current_task s = or_fault (task_by_pid s s.kernel.current)

-- `map::find` and `map::erase` on the names.
unfoldable pub find_name : List (Name × ℕ) → Name → Option ℕ
find_name [] name = none
find_name ((n, id) ∷ rest) name = if strcmp name n == 0 then some id else find_name rest name

-- The first name of a task, taken off: the loop of `sysexit`.
unfoldable pub erase_task : List (Name × ℕ) → ℕ → List (Name × ℕ)
erase_task [] id = []
erase_task ((n, i) ∷ rest) id = if i == id then rest else (n, i) ∷ erase_task rest id

-- The tasks but one, woken when they wait for it.
unfoldable pub wake_waiting : List Task → ℕ → Result (List Task)
wake_waiting [] id = ok []
wake_waiting (t ∷ ts) id = do
  t' ← (if t.id == id then ok t else unblock_type_with t CallType.wait_process id)
  ts' ← wake_waiting ts id
  ok (t' ∷ ts')

-- The list without a task, which is returned with it.
unfoldable pub unlink : List Task → ℕ → Option (Task × List Task)
unlink [] id = none
unlink (t ∷ ts) id =
    let rest : Option (Task × List Task) = elim (unlink ts id) [
      | none ↦ none
      | some (u, us) ↦ some (u, t ∷ us)
    ] in
    if t.id == id then some (t, ts) else rest

-- `sysexit`
unfoldable pub sysexit : System → Result System
sysexit s = do
  let id = s.kernel.current
  tasks ← wake_waiting s.kernel.tasks id
  k ← return_to_next_task (record s.kernel { tasks = tasks })
  (gone, rest) ← or_fault (unlink k.tasks id)
  ok (record s {
    kernel = record k { tasks = rest };
    others = gone ∷ s.others;
    registered_tasks = erase_task s.registered_tasks id;
  })

-- `requirePrivilege`. Without the privilege it calls `User::panic`, which prints, exits the process and
-- returns, so that the call that required it goes on.
unfoldable pub require_privilege : System → ℕ → Result System
require_privilege s priv = do
  assert (ltb priv priv_count)
  t ← current_task s
  has ← has_privilege t priv
  if has then ok s else sysexit s

-- `grantPrivilege` and `grantIOPriv` of UserProcess.cpp.
unfoldable pub grant_privilege_to : System → ℕ → ℕ → Result (Bool × System)
grant_privilege_to s pid priv = do
  s' ← require_privilege s 0
  elim (task_by_pid s' pid) [
    | none ↦ ok (false, s')
    | some t ↦ grant_privilege t priv >>= (λ t'. ok (true, write_task s' t'))
  ]

unfoldable pub grant_io_priv : System → ℕ → ℕ → Result (Bool × System)
grant_io_priv s pid port = do
  s' ← require_privilege s 0
  elim (task_by_pid s' pid) [
    | none ↦ ok (false, s')
    | some t ↦ set_io_map t port true >>= (λ t'. ok (true, write_task s' t'))
  ]

-- `beginExecution`, which puts the task in front of the list. One that is on the list already makes it
-- a cycle, which no value here is.
unfoldable pub begin_execution : System → ℕ → Result (Bool × System)
begin_execution s pid = elim (get_task_by_id s.kernel.tasks pid) [
  | some t ↦ fault
  | none ↦ elim (unlink s.others pid) [
    | none ↦ ok (false, s)
    | some (t, rest) ↦
        ok (
          true,
          record s { kernel = record s.kernel { tasks = t ∷ s.kernel.tasks }; others = rest },
        )
  ]
]

-- The loop of `registerName` over the tasks.
unfoldable pub waits_for_name : Call → Name → Bool
waits_for_name (process_id_by_name_call n) name = strcmp n name == 0
waits_for_name _ name = false

unfoldable pub wake_for : Task → Name → Task
wake_for t name = elim t.user_call [
  | some call ↦
      if t.user_waiting && waits_for_name call name then record t { user_waiting = false } else t
  | none ↦ t
]

unfoldable pub wake_named : List Task → Name → List Task
wake_named [] name = []
wake_named (t ∷ ts) name = wake_for t name ∷ wake_named ts name

-- `registerName`
unfoldable pub register_name : System → ℕ → Name → Result (Bool × System)
register_name s pid name = do
  s' ← require_privilege s 5
  elim (find_name s'.registered_tasks name) [
    | some id ↦ ok (false, s')
    | none ↦ elim (get_task_by_id s'.kernel.tasks pid) [
      | none ↦ ok (false, s')
      | some t ↦
          let named : Task = record t { registered_name = some name } in
          ok (
            true,
            record s' {
              kernel = record s'.kernel {
                tasks = wake_named (put_task s'.kernel.tasks named) name;
              };
              registered_tasks = s'.registered_tasks ++ (name, pid) ∷ [];
            },
          )
    ]
  ]

-- The current task waits on a call, and the next one goes on. A task that has exited has no place among
-- the others here, and its `next` is not kept.
unfoldable pub block_on : System → Call → Result System
block_on s call = do
  t ← current_task s
  let asleep : Task = record t { user_waiting = true; user_call = some call }
  k ← return_to_next_task ((write_task s asleep).kernel)
  ok (record (write_task s asleep) { kernel = k })

-- `ProcessIdByNameCall::operator()` and `processIdByName_impl`.
unfoldable pub lookup_name : System → Name → Outcome ℕ
lookup_name s name = elim (find_name s.registered_tasks name) [
  | none ↦ will_block
  | some id ↦ wont_block id
]

unfoldable pub process_id_by_name_impl : System → Name → Bool → Result (ℕ × System)
process_id_by_name_impl s name block =
    let wait : Result (ℕ × System) =
      block_on s (process_id_by_name_call name) >>= (λ s'. ok (0, s')) in
    elim (lookup_name s name) [
      | wont_block id ↦ ok (id, s)
      | will_block ↦ if block then wait else ok (0, s)
    ]

-- `WaitProcessCall::operator()` and `waitProcess`.
unfoldable pub wait_process_outcome : System → ℕ → Outcome ℕ
wait_process_outcome s pid = elim (get_task_by_id s.kernel.tasks pid) [
  | some t ↦ will_block
  | none ↦ wont_block 0
]

unfoldable pub wait_process : System → ℕ → Result (ℕ × System)
wait_process s pid = elim (wait_process_outcome s pid) [
  | wont_block status ↦ ok (status, s)
  | will_block ↦ block_on s (wait_process_call pid) >>= (λ s'. ok (0, s'))
]

-- `irqListen`, `irqCheck`, and `irqWait`, whose `IRQWaitCall` has no timeout.
unfoldable pub irq_listen : System → ℕ → Result System
irq_listen s irq = do
  s' ← require_privilege s 2
  t ← current_task s'
  ok (write_task s' (record t { irq_listen = irq; irq_listen_hits = 0 }))

unfoldable pub irq_check : System → Result (Bool × System)
irq_check s = do
  t ← current_task s
  ok (
      if t.irq_listen_hits == 0
      then (false, s)
      else (true, write_task s (record t { irq_listen_hits = t.irq_listen_hits - 1 })))

unfoldable pub irq_wait : System → Result System
irq_wait s = do
  s' ← require_privilege s 2
  t ← current_task s'
  if t.irq_listen_hits == 0
      then block_on s' (irq_wait_call 0 0)
      else ok (write_task s' (record t { irq_listen_hits = t.irq_listen_hits - 1 }))
