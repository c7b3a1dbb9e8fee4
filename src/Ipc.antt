-- ===== src/Ipc.antt =====
-- UserIPCQueue.cpp and UserPrivs.cpp: the system calls by which processes send messages to each other
-- and wait for them.
pub mod Send
pub mod Read
pub mod Probe
mod Tests
use akari.Prelude.{
  ℕ, zero, suc, ◌+◌, ◌-◌, Bool, true, false, List, [], ◌∷◌, Option, none, some, get_elem?, ltb, leb,
  ◌==◌, if◌then◌else◌, add32, Result, ok, panic, fault, ◌>>=◌, or_fault,
}
use akari.Tasks.{
  Item, Queue, Task, Kernel, CallType, probe_queue_call, push_back, new_item, first,
  item_by_reply_to, item_by_id, remove_found, unblock_type_with, get_task_by_id, put_task,
  return_to_next_task,
}

-- What a blocking call comes to: a value, or `_willBlock`.
pub data Outcome {ℓ} (V : Type ℓ) : Type ℓ where
  wont_block : V → Outcome V
  will_block : Outcome V

-- `ProbeQueueCall::operator()`, which returns a pointer to the message's info.
unfoldable pub probe : Task → ℕ → Outcome Item
probe t reply_to =
    elim (if reply_to == 0 then first t.reply_queue else item_by_reply_to t.reply_queue reply_to) [
      | none ↦ will_block
      | some item ↦ wont_block item
    ]

-- `probeQueue_impl`: the returned pointer, with none for 0.
unfoldable pub probe_queue_impl : Kernel → Bool → ℕ → Result (Option Item × Kernel)
probe_queue_impl k block reply_to = do
  t ← or_fault (get_task_by_id k.tasks k.current)
  let asleep : Task = record t { user_waiting = true; user_call = some (probe_queue_call reply_to) }
  let wait : Result (Option Item × Kernel) =
      return_to_next_task (record k { tasks = put_task k.tasks asleep }) >>= (λ k'. ok (none, k'))
  elim (probe t reply_to) [
    | wont_block item ↦ ok (some item, k)
    | will_block ↦ if block then wait else ok (none, k)
  ]

abbrev pub probe_queue : Kernel → Result (Option Item × Kernel)
probe_queue k = probe_queue_impl k true 0

abbrev pub probe_queue_unblock : Kernel → Result (Option Item × Kernel)
probe_queue_unblock k = probe_queue_impl k false 0

abbrev pub probe_queue_for : Kernel → ℕ → Result (Option Item × Kernel)
probe_queue_for k reply_to = probe_queue_impl k true reply_to

abbrev pub probe_queue_for_unblock : Kernel → ℕ → Result (Option Item × Kernel)
probe_queue_for_unblock k reply_to = probe_queue_impl k false reply_to

-- `memcpy` out of a message: `n` bytes from an offset on.
unfoldable pub copy_from : List ℕ → ℕ → ℕ → Result (List ℕ)
copy_from payload offset zero = ok []
copy_from payload offset (suc n) = do
  byte ← or_fault (get_elem? payload offset)
  rest ← copy_from payload (offset + 1) n
  ok (byte ∷ rest)

-- `readQueue`, with the id that the caller's info holds: the bytes written to `dest`, and the value
-- returned.
unfoldable pub read_queue : Kernel → ℕ → ℕ → ℕ → Result (List ℕ × ℕ)
read_queue k id offset len = do
  t ← or_fault (get_task_by_id k.tasks k.current)
  elim (item_by_id t.reply_queue id) [
    | none ↦ ok ([], 0)
    | some item ↦
        let n = if ltb item.data_len (add32 offset len) then item.data_len - offset else len in
        if leb item.data_len offset
        then ok ([], item.item_id)
        else copy_from item.payload offset n >>= (λ out. ok (out, n))
  ]

-- `shiftQueue`
unfoldable pub shift_queue : Kernel → ℕ → Result Kernel
shift_queue k id = do
  t ← or_fault (get_task_by_id k.tasks k.current)
  let t' : Task = record t {
    reply_queue = remove_found t.reply_queue (item_by_id t.reply_queue id);
  }
  ok (record k { tasks = put_task k.tasks t' })

-- `sendQueue`, which reads through the task's pointer with no test for 0.
unfoldable pub send_queue : Kernel → ℕ → ℕ → List ℕ → Result (ℕ × Kernel)
send_queue k id reply_to payload = do
  t ← or_fault (get_task_by_id k.tasks id)
  let msg_id = add32 k.last_msg_id 1
  let sent : Task = record t {
    reply_queue = push_back t.reply_queue (new_item msg_id k.switches k.current reply_to payload);
  }
  t' ← unblock_type_with sent CallType.probe_queue reply_to
  ok (msg_id, record k { tasks = put_task k.tasks t'; last_msg_id = msg_id })
