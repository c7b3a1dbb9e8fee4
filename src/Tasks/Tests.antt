-- ===== src/Tasks/Tests.antt =====
-- Three tasks, the second of which waits, and the theorems at them.
use akari.Prelude.{
  ℕ, ◌<◌, ◌≡◌, refl, Bool, true, false, ◌⊎◌, [], ◌∷◌, Option, none, some, get_elem?, length,
  replicate, ok, panic,
}
use akari.Tasks.{
  Task, Kernel, Call, wait_process_call, next_task, next_ready, position, prepare_fetch_next_task,
}
use akari.Tasks.Schedule.{waits, ring, prepare_fetch_next_task-FirstReady}

abbrev task : ℕ → Bool → Option Call → Task
task id waiting call = record {
  id = id;
  cpl = 3;
  irq_listen = 0;
  irq_listen_hits = 0;
  user_waiting = waiting;
  user_call = call;
  registered_name = none;
  iomap = replicate 4 0xFF;
  priv_map = 10 ∷ [];
  reply_queue = [];
}

abbrev three_tasks : Kernel
three_tasks = record {
  tasks = task 1 false none ∷ task 2 true (some (wait_process_call 3)) ∷ task 3 false none ∷ [];
  current = 1;
  priority = [];
  last_msg_id = 0;
  switches = 20;
  return_task = none;
}

next_is_3 : prepare_fetch_next_task three_tasks ≡ ok (3, three_tasks)
unfolding prepare_fetch_next_task next_task next_ready position
next_is_3 = refl

at_0 : position three_tasks.tasks 1 ≡ some 0
unfolding position
at_0 = refl

prepare_fetch_next_task-FirstReady_example :
    let n = length three_tasks.tasks in
    let start = next_task three_tasks.tasks 0 in
    ((d : ℕ) × (t : Task) × (get_elem? three_tasks.tasks (ring n start d) ≡ some t)
      × (t.user_waiting ≡ false)
      × ((e : ℕ) → e < d → waits three_tasks.tasks (ring n start e) ≡ true)
      × (prepare_fetch_next_task three_tasks ≡ ok (t.id, three_tasks)))
    ⊎ ((i : ℕ) → i < n → waits three_tasks.tasks i ≡ true)
      × (prepare_fetch_next_task three_tasks ≡ panic)
prepare_fetch_next_task-FirstReady_example =
    prepare_fetch_next_task-FirstReady three_tasks 0 refl at_0
