-- ===== src/Ipc/Tests.antt =====
-- A sender and two receivers that wait, and the theorems at them.
use akari.Prelude.{
  ℕ, ◌≡◌, ◌≢◌, refl, Bool, true, false, not, ◌&&◌, List, [], ◌∷◌, Option, none, some, arith, ok,
}
use akari.Tasks.{
  Item, Task, Kernel, Call, probe_queue_call, push_back, new_item, item_by_id, item_by_reply_to,
  get_task_by_id,
}
use akari.Ipc.{wont_block, will_block, probe, read_queue, shift_queue, send_queue}
use akari.Ipc.Send.{probes, send_queue-push_back}
use akari.Ipc.Read.{read_queue-send_queue}
use akari.Ipc.Probe.{probe-send_queue}

abbrev hello : List ℕ
hello = 104 ∷ 101 ∷ 108 ∷ 108 ∷ 111 ∷ []

abbrev greeting : Item
greeting = new_item 4 15 1 0 hello

abbrev task : ℕ → Bool → Option Call → List Item → Task
task id waiting call queue = record {
  id = id;
  cpl = 3;
  irq_listen = 0;
  irq_listen_hits = 0;
  user_waiting = waiting;
  user_call = call;
  registered_name = none;
  iomap = [];
  priv_map = 10 ∷ [];
  reply_queue = queue;
}

abbrev sender : Task
sender = task 1 false none (greeting ∷ [])

-- Task 2 waits for a reply to message 4, and task 3 for any message.
abbrev for_reply : Task
for_reply = task 2 true (some (probe_queue_call 4)) []

abbrev for_any : Task
for_any = task 3 true (some (probe_queue_call 0)) []

abbrev talk : Kernel
talk = record {
  tasks = sender ∷ for_reply ∷ for_any ∷ [];
  current = 1;
  priority = [];
  last_msg_id = 4;
  switches = 20;
  return_task = none;
}

abbrev HasTask : ℕ → Task → Type 0
HasTask id t = get_task_by_id talk.tasks id ≡ some t

has_sender : HasTask 1 sender
unfolding get_task_by_id
has_sender = refl

has_for_reply : HasTask 2 for_reply
unfolding get_task_by_id
has_for_reply = refl

has_for_any : HasTask 3 for_any
unfolding get_task_by_id
has_for_any = refl

has_greeting : item_by_id sender.reply_queue 4 ≡ some greeting
unfolding item_by_id
has_greeting = refl

no_message : item_by_id for_reply.reply_queue 5 ≡ none
unfolding item_by_id
no_message = refl

no_reply : probe for_reply 4 ≡ will_block
unfolding probe item_by_reply_to
no_reply = refl

send_queue-push_back_example :
    (k' : Kernel) × (send_queue talk 2 4 hello ≡ ok (5, k'))
    × (get_task_by_id k'.tasks 2
        ≡ some (record for_reply {
          reply_queue = push_back [] (new_item 5 20 1 4 hello);
          user_waiting = true && not (probes (some (probe_queue_call 4)) 4);
        }))
    × ((other : ℕ) → 2 ≢ other → get_task_by_id k'.tasks other ≡ get_task_by_id talk.tasks other)
send_queue-push_back_example = send_queue-push_back talk 2 4 hello for_reply has_for_reply

read_queue-send_queue_example :
    (k' : Kernel) × (send_queue talk 2 4 hello ≡ ok (5, k'))
    × (read_queue (record k' { current = 2 }) 5 0 5 ≡ ok (hello, 5))
    × (k'' : Kernel) × (shift_queue (record k' { current = 2 }) 5 ≡ ok k'')
    × (t' : Task) × (get_task_by_id k''.tasks 2 ≡ some t')
    × (t'.reply_queue ≡ [])
read_queue-send_queue_example =
    read_queue-send_queue talk 2 4 hello for_reply has_for_reply no_message (omega arith)
      (omega arith)

probe-send_queue_example :
    (k' : Kernel) × (t' : Task) × (send_queue talk 2 4 hello ≡ ok (5, k'))
    × (get_task_by_id k'.tasks 2 ≡ some t')
    × (t'.user_waiting ≡ false)
    × (probe t' 4 ≡ wont_block (new_item 5 20 1 4 hello))
probe-send_queue_example = probe-send_queue talk 2 4 hello for_reply has_for_reply refl no_reply
