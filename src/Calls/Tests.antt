-- ===== src/Calls/Tests.antt =====
-- A server, a client that waits for its name, a parent that waits for its exit, a driver and the idle task.
use akari.Prelude.{
  ℕ, ◌≡◌, ◌≢◌, refl, true, false, List, [], ◌∷◌, map, Option, none, some, arith, ok, ◌==◌,
  if◌then◌else◌, test_bit,
}
use akari.Text.{strcmp}
use akari.Text.Compare.{IsText}
use akari.Ipc.{wont_block}
use akari.Tasks.{
  Name, Task, Kernel, Call, process_id_by_name_call, wait_process_call, irq_wait_call,
  has_privilege, get_task_by_id, return_to_next_task, prepare_fetch_next_task, position, next_task,
  next_ready, unblock_type_with, insttype, same_type, unblock_with,
}
use akari.Calls.{
  write_task, System, current_task, task_by_pid, find_name, register_name, lookup_name, sysexit,
  wake_waiting, unlink, erase_task, grant_privilege_to,
}
use akari.Calls.Names.{Awaits, register_name-lookup_name}
use akari.Calls.Privileges.{grant_privilege_to-has_privilege}
use akari.Calls.Exit.{after_exit, awaits_exit, sysexit-tasks}
use akari.Calls.Irq.{call_handler, Distinct, interrupted, call_handler-interrupted}

abbrev task : ℕ → ℕ → ℕ → Option Call → Task
task id privileges irq call = record {
  id = id;
  cpl = 3;
  irq_listen = irq;
  irq_listen_hits = 0;
  user_waiting = elim call [ some c ↦ true | none ↦ false ];
  user_call = call;
  registered_name = none;
  iomap = [];
  priv_map = privileges ∷ [];
  reply_queue = [];
}

abbrev vfs : Name
vfs = b'v' ∷ b'f' ∷ b's' ∷ []

-- It may register names, and may not grant privileges.
abbrev server : Task
server = task 1 42 0 none

abbrev client : Task
client = task 2 10 0 (some (process_id_by_name_call vfs))

abbrev parent : Task
parent = task 3 10 0 (some (wait_process_call 1))

abbrev driver : Task
driver = task 4 14 1 (some (irq_wait_call 0 0))

abbrev idle : Task
idle = task 5 10 0 none

abbrev kernel : Kernel
kernel = record {
  tasks = server ∷ client ∷ parent ∷ driver ∷ idle ∷ [];
  current = 1;
  priority = [];
  last_msg_id = 0;
  switches = 0;
  return_task = none;
}

abbrev system : System
system = record { kernel = kernel; others = []; registered_tasks = [] }

distinct : Distinct kernel.tasks
distinct = ground arith

server_runs : current_task system ≡ ok server
unfolding task_by_pid get_task_by_id
server_runs = refl

server_may_register : has_privilege server 5 ≡ ok true
unfolding has_privilege test_bit
server_may_register = refl

vfs-IsText : IsText vfs
vfs-IsText =
    ((omega arith, omega arith), ((omega arith, omega arith), ((omega arith, omega arith), tt)))

vfs_is_free : find_name system.registered_tasks vfs ≡ none
unfolding find_name
vfs_is_free = refl

has_server : get_task_by_id kernel.tasks 1 ≡ some server
unfolding get_task_by_id
has_server = refl

register_name-lookup_name_example :
    (s' : System) × (register_name system 1 vfs ≡ ok (true, s'))
    × (lookup_name s' vfs ≡ wont_block 1)
    × ((other : Name) → strcmp other vfs ≢ 0 → lookup_name s' other ≡ lookup_name system other)
    × ((id : ℕ) (t : Task)
        → id ≢ 1
        → get_task_by_id kernel.tasks id ≡ some t
        → Awaits t vfs
        → get_task_by_id s'.kernel.tasks id ≡ some (record t { user_waiting = false }))
register_name-lookup_name_example =
    register_name-lookup_name system server server 1 vfs server_runs server_may_register vfs-IsText
      vfs_is_free has_server

call_handler-interrupted_example : call_handler kernel 1 false ≡ ok (interrupted kernel 1)
call_handler-interrupted_example = call_handler-interrupted kernel 1 distinct refl

-- The kernel once the server has exited.
abbrev tasks_after : List Task
tasks_after = server ∷ client ∷ record parent { user_waiting = false } ∷ driver ∷ idle ∷ []

abbrev kernel_after : Kernel
kernel_after = record kernel { tasks = tasks_after; return_task = some 3 }

goes_on :
    return_to_next_task (record kernel { tasks = map (after_exit 1) kernel.tasks })
    ≡ ok kernel_after
unfolding return_to_next_task prepare_fetch_next_task position next_task next_ready awaits_exit
goes_on = refl

sysexit-tasks_example :
    (s' : System) × (sysexit system ≡ ok s')
    × ((id : ℕ) (u : Task)
        → id ≢ 1
        → get_task_by_id kernel.tasks id ≡ some u
        → get_task_by_id s'.kernel.tasks id ≡ some (after_exit 1 u))
    × (get_task_by_id s'.kernel.tasks 1 ≡ none)
    × ((n : ℕ) × (s'.kernel.return_task ≡ some n) × (n ≢ 1))
sysexit-tasks_example = sysexit-tasks system kernel_after server distinct has_server goes_on

abbrev system_after : System
system_after = record {
  kernel = record kernel_after {
    tasks = client ∷ record parent { user_waiting = false } ∷ driver ∷ idle ∷ [];
  };
  others = server ∷ [];
  registered_tasks = [];
}

-- The server may not grant privileges, so that it is exited.
server_has_not : has_privilege server 0 ≡ ok false
unfolding has_privilege test_bit
server_has_not = refl

exits : sysexit system ≡ ok system_after
unfolding task_by_pid get_task_by_id sysexit wake_waiting unblock_type_with insttype same_type
    unblock_with return_to_next_task prepare_fetch_next_task position next_task next_ready unlink
    erase_task
exits = refl

has_client : task_by_pid system_after 2 ≡ some client
unfolding task_by_pid get_task_by_id
has_client = refl

-- The client is granted the privilege all the same.
grant_privilege_to-has_privilege_example :
    (t' : Task) × (grant_privilege_to system 2 4 ≡ ok (true, write_task system_after t'))
    × (task_by_pid (write_task system_after t') 2 ≡ some t')
    × (t' ≡ record client { priv_map = t'.priv_map })
    × ((other : ℕ)
        → has_privilege t' other ≡ (if 4 == other then ok true else has_privilege client other))
grant_privilege_to-has_privilege_example =
    grant_privilege_to-has_privilege system system_after server false 2 4 client server_runs
      server_has_not exits has_client (omega arith) (omega arith)

-- Of two names of a process, its exit takes off the first alone.
keeps_name : erase_task ((vfs, 1) ∷ (b'x' ∷ [], 1) ∷ []) 1 ≡ (b'x' ∷ [], 1) ∷ []
unfolding erase_task
keeps_name = refl
