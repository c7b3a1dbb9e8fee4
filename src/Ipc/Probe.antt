-- ===== src/Ipc/Probe.antt =====
-- Which messages wake a process that waits in `probeQueue` or `probeQueueFor`.
use native.Mathlib.Decide.{ℕ_discrete}
use akari.Prelude.{
  ℕ, ◌≡◌, ◌≢◌, refl, ap, ◌∙◌, true, false, List, [], ◌∷◌, none, some, arith, ◌==◌, if◌then◌else◌,
  add32, ok,
}
use akari.Tasks.{
  Item, Queue, Task, Kernel, probe_queue_call, first, new_item, push_back, item_by_reply_to,
  get_task_by_id,
}
use akari.Tasks.Lookup.{item_by_reply_to-push_back}
use akari.Ipc.{wont_block, will_block, probe, send_queue}
use akari.Ipc.Send.{probes, send_queue-push_back}

first_alone : (item : Item) → first (push_back [] item) ≡ some item
unfolding first push_back
first_alone item = refl

first-push_back : (q : Queue) (item : Item) → first q ≡ none → first (push_back q item) ≡ some item
unfolding first push_back
first-push_back [] item e = refl
first-push_back (i ∷ q) item e = absurd (ground (arith, e))

-- A probe that found nothing finds the new message.
probe-push_back :
    (q : Queue) (item : Item)
    → (if item.reply_to == 0 then first q else item_by_reply_to q item.reply_to) ≡ none
    → (if item.reply_to == 0
        then first (push_back q item)
        else item_by_reply_to (push_back q item) item.reply_to)
      ≡ some item
probe-push_back q item h = elim (ℕ_discrete item.reply_to 0) [
  | yes p ↦ ground (arith, p, h, first-push_back q item)
  | no n ↦ ground (arith, n, h, item_by_reply_to-push_back q item)
]

-- A task that waits for a reply, with none in its queue, is woken by a message with that reply, and
-- then finds that message.
pub probe-send_queue :
    (k : Kernel) (id reply_to : ℕ) (payload : List ℕ) (t : Task)
    → get_task_by_id k.tasks id ≡ some t
    → t.user_call ≡ some (probe_queue_call reply_to)
    → probe t reply_to ≡ will_block
    → let msg_id = add32 k.last_msg_id 1 in
      (k' : Kernel) × (t' : Task) × (send_queue k id reply_to payload ≡ ok (msg_id, k'))
      × (get_task_by_id k'.tasks id ≡ some t')
      × (t'.user_waiting ≡ false)
      × (probe t' reply_to ≡ wont_block (new_item msg_id k.switches k.current reply_to payload))
unfolding probe probes
probe-send_queue k id reply_to payload t e call asleep =
    let item : Item = new_item (add32 k.last_msg_id 1) k.switches k.current reply_to payload in
    let (k', sent, at, _) = send_queue-push_back k id reply_to payload t e in
    let idle : (if reply_to == 0
          then first t.reply_queue
          else item_by_reply_to t.reply_queue reply_to)
        ≡ none =
      ground (arith, asleep) in
    (k', _, sent, at, ground (arith, call), ground (arith, probe-push_back t.reply_queue item idle))

-- A task that waits for any message, with an empty queue, sleeps on when a message comes that replies
-- to something, though a probe would now find that message.
pub probe_first-send_queue :
    (k : Kernel) (id reply_to : ℕ) (payload : List ℕ) (t : Task)
    → get_task_by_id k.tasks id ≡ some t
    → t.user_call ≡ some (probe_queue_call 0)
    → t.user_waiting ≡ true
    → t.reply_queue ≡ []
    → reply_to ≢ 0
    → let msg_id = add32 k.last_msg_id 1 in
      (k' : Kernel) × (t' : Task) × (send_queue k id reply_to payload ≡ ok (msg_id, k'))
      × (get_task_by_id k'.tasks id ≡ some t')
      × (t'.user_waiting ≡ true)
      × (probe t' 0 ≡ wont_block (new_item msg_id k.switches k.current reply_to payload))
unfolding probe probes
probe_first-send_queue k id reply_to payload t e call waiting empty n =
    let item : Item = new_item (add32 k.last_msg_id 1) k.switches k.current reply_to payload in
    let (k', sent, at, _) = send_queue-push_back k id reply_to payload t e in
    let alone : first (push_back t.reply_queue item) ≡ some item =
      ap (λ q. first (push_back q item)) empty ∙ first_alone item in
    (k', _, sent, at, ground (arith, call, waiting, n), ground (arith, alone))
