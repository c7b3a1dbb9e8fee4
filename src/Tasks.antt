-- ===== src/Tasks.antt =====
-- Tasks.cpp and inc/Tasks.hpp: the tasks, their message queues, their port and privilege maps, the
-- calls they block on, and the choice of the next task. A task is known by its id.
pub mod Access
pub mod Schedule
pub mod Lookup
mod Tests
use akari.Prelude.{
  ℕ, zero, suc, ◌+◌, ◌/◌, ◌%◌, Bool, true, false, not, ◌&&◌, List, [], ◌∷◌, ◌++◌, Option, none,
  some, get_elem?, set, length, replicate, ltb, ◌==◌, if◌then◌else◌, add32, test_bit, set_bit,
  clear_bit, Result, ok, panic, fault, ◌>>=◌, ◌>>◌, assert, or_fault,
}

-- A C string without its final NUL.
abbrev pub Name : Type 0
Name = List ℕ

-- `Queue::Item`, with `queue_item_info` as its first fields. Its data has `data_len` bytes.
pub record Item : Type 0 where
  pub item_id : ℕ
  pub timestamp : ℕ
  pub from : ℕ
  pub reply_to : ℕ
  pub data_len : ℕ
  pub payload : List ℕ

abbrev pub Queue : Type 0
Queue = List Item

-- The constructor of an item. `new_item id now from reply_to payload` copies the payload.
abbrev pub new_item : ℕ → ℕ → ℕ → ℕ → List ℕ → Item
new_item id now from reply_to payload = record {
  item_id = id;
  timestamp = now;
  from = from;
  reply_to = reply_to;
  data_len = length payload;
  payload = payload;
}

-- `Queue::push_back`, of the new item.
unfoldable pub push_back : Queue → Item → Queue
push_back q item = q ++ item ∷ []

unfoldable pub shift : Queue → Queue
shift [] = []
shift (item ∷ q) = q

unfoldable pub first : Queue → Option Item
first [] = none
first (item ∷ q) = some item

unfoldable pub item_by_reply_to : Queue → ℕ → Option Item
item_by_reply_to [] reply_to = none
item_by_reply_to (item ∷ q) reply_to =
    if item.reply_to == reply_to then some item else item_by_reply_to q reply_to

unfoldable pub item_by_id : Queue → ℕ → Option Item
item_by_id [] id = none
item_by_id (item ∷ q) id = if item.item_id == id then some item else item_by_id q id

-- `list.remove` takes one item off, which its id stands for.
unfoldable pub remove_item : Queue → Item → Queue
remove_item [] old = []
remove_item (item ∷ q) old = if item.item_id == old.item_id then q else item ∷ remove_item q old

-- `Queue::remove` of the item that was found, or of a null pointer, which no list holds.
unfoldable pub remove_found : Queue → Option Item → Queue
remove_found q none = q
remove_found q (some item) = remove_item q item

-- The classes that derive from `BlockingCall`, with what they wait for.
pub data Call : Type 0 where
  probe_queue_call : (reply_to : ℕ) → Call
  process_id_by_name_call : (name : Name) → Call
  wait_process_call : (pid : ℕ) → Call
  read_stream_call : (pid : ℕ) (node : Name) (listener n : ℕ) → Call
  irq_wait_call : (timeout wakeevent_id : ℕ) → Call
  nanosleep_call : (tv_sec tv_nsec wakeevent_id : ℕ) → Call

-- What their `type` returns.
pub data CallType : Type 0 where
  probe_queue process_id_by_name wait_process read_stream irq_wait nanosleep : CallType

unfoldable pub insttype : Call → CallType
insttype (probe_queue_call reply_to) = probe_queue
insttype (process_id_by_name_call name) = process_id_by_name
insttype (wait_process_call pid) = wait_process
insttype (read_stream_call pid node listener n) = read_stream
insttype (irq_wait_call timeout wakeevent_id) = irq_wait
insttype (nanosleep_call tv_sec tv_nsec wakeevent_id) = nanosleep

-- `==` of two such symbols, whose texts differ for each class.
unfoldable pub same_type : CallType → CallType → Bool
same_type probe_queue probe_queue = true
same_type process_id_by_name process_id_by_name = true
same_type wait_process wait_process = true
same_type read_stream read_stream = true
same_type irq_wait irq_wait = true
same_type nanosleep nanosleep = true
same_type _ _ = false

-- `unblockWith`, which panics in the classes that do not declare it.
unfoldable pub unblock_with : Call → ℕ → Result Bool
unblock_with (probe_queue_call reply_to) word = ok (reply_to == word)
unblock_with (wait_process_call pid) word = ok (pid == word)
unblock_with _ word = panic

-- `Tasks::Task`, less its page directory, heap, stack and streams.
pub record Task : Type 0 where
  pub id : ℕ
  pub cpl : ℕ
  pub irq_listen : ℕ
  pub irq_listen_hits : ℕ
  pub user_waiting : Bool
  pub user_call : Option Call
  pub registered_name : Option Name
  pub iomap : List ℕ
  pub priv_map : List ℕ
  pub reply_queue : Queue

unfoldable pub get_io_map : Task → ℕ → Result Bool
get_io_map t port = do
  byte ← or_fault (get_elem? t.iomap (port / 8))
  ok (not (test_bit byte (port % 8)))

unfoldable pub set_io_map : Task → ℕ → Bool → Result Task
set_io_map t port enabled = do
  byte ← or_fault (get_elem? t.iomap (port / 8))
  let byte' = if enabled then clear_bit byte (port % 8) else set_bit byte (port % 8)
  ok (record t { iomap = set t.iomap (port / 8) byte' })

abbrev pub priv_count : ℕ
priv_count = 7

unfoldable pub grant_privilege : Task → ℕ → Result Task
grant_privilege t priv = do
  assert (ltb priv priv_count)
  byte ← or_fault (get_elem? t.priv_map (priv / 8))
  ok (record t { priv_map = set t.priv_map (priv / 8) (set_bit byte (priv % 8)) })

unfoldable pub has_privilege : Task → ℕ → Result Bool
has_privilege t priv = do
  assert (ltb priv priv_count)
  byte ← or_fault (get_elem? t.priv_map (priv / 8))
  ok (test_bit byte (priv % 8))

-- The constructor, with a port map of `ports` bytes: the kernel's has 8192.
unfoldable pub new_task : ℕ → ℕ → ℕ → Result Task
new_task ports id cpl =
    let blank : Task = record {
      id = id;
      cpl = cpl;
      irq_listen = 0;
      irq_listen_hits = 0;
      user_waiting = false;
      user_call = none;
      registered_name = none;
      iomap = replicate ports 0xFF;
      priv_map = replicate ((priv_count + 7) / 8) 0;
      reply_queue = [];
    } in
    grant_privilege blank 1 >>= (λ t. grant_privilege t 3)

unfoldable pub unblock_type : Task → CallType → Task
unblock_type t type = elim t.user_call [
  | some call ↦
      if t.user_waiting && same_type (insttype call) type
      then record t { user_waiting = false }
      else t
  | none ↦ t
]

unfoldable pub unblock_type_with : Task → CallType → ℕ → Result Task
unblock_type_with t type word = elim t.user_call [
  | some call ↦
      let wake : Result Task =
        unblock_with call word >>= (λ b. ok (if b then record t { user_waiting = false } else t)) in
      if t.user_waiting && same_type (insttype call) type then wake else ok t
  | none ↦ ok t
]

-- `Tasks`, with the statics and globals its operations use: the tasks from `start` on, the ids of the
-- priority list, and `Syscall::_returnTask`.
pub record Kernel : Type 0 where
  pub tasks : List Task
  pub current : ℕ
  pub priority : List ℕ
  pub last_msg_id : ℕ
  pub switches : ℕ
  pub return_task : Option ℕ

unfoldable pub get_task_by_id : List Task → ℕ → Option Task
get_task_by_id [] id = none
get_task_by_id (t ∷ ts) id = if t.id == id then some t else get_task_by_id ts id

-- The list after a write through a pointer to the task with the id.
unfoldable pub put_task : List Task → Task → List Task
put_task [] t = []
put_task (u ∷ ts) t = if u.id == t.id then t ∷ ts else u ∷ put_task ts t

-- Where in the list a task stands.
unfoldable pub position : List Task → ℕ → Option ℕ
position [] id = none
position (t ∷ ts) id =
    if t.id == id then some 0 else elim (position ts id) [ some i ↦ some (i + 1) | none ↦ none ]

-- `_NextTask`, on positions.
unfoldable pub next_task : List Task → ℕ → ℕ
next_task ts i = if ltb (i + 1) (length ts) then i + 1 else 0

-- The loop of `prepareFetchNextTask` that began at `t` and stands at `i`.
unfoldable pub next_ready : List Task → ℕ → ℕ → ℕ → Result ℕ
next_ready ts t i zero = fault
next_ready ts t i (suc rounds) =
    let later = next_ready ts t (next_task ts i) rounds in
    do
      task ← or_fault (get_elem? ts i)
      if task.user_waiting then assert (not (next_task ts i == t)) >> later else ok i

unfoldable pub prepare_fetch_next_task : Kernel → Result (ℕ × Kernel)
prepare_fetch_next_task k = elim k.priority [
  | t ∷ rest ↦ ok (t, record k { priority = rest })
  | [] ↦ do
    c ← or_fault (position k.tasks k.current)
    i ← next_ready k.tasks (next_task k.tasks c) (next_task k.tasks c) (length k.tasks)
    task ← or_fault (get_elem? k.tasks i)
    ok (task.id, k)
]

unfoldable pub cycle_task : Kernel → Result Kernel
cycle_task k = do (t, k') ← prepare_fetch_next_task k; ok (record k' { current = t })

-- `Syscall::returnToNextTask`
unfoldable pub return_to_next_task : Kernel → Result Kernel
return_to_next_task k = do
  (t, k') ← prepare_fetch_next_task k
  assert (not (t == k'.current))
  ok (record k' { return_task = some t })
