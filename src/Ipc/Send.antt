-- ===== src/Ipc/Send.antt =====
-- `sendQueue` puts the message at the end of the receiver's queue, and wakes the receiver if it waits
-- for just that reply.
use akari.Prelude.{
  ℕ, ◌≡◌, ◌≢◌, refl, sym, ◌∙◌, Bool, true, false, not, ◌&&◌, List, Option, none, some, arith, ◌==◌,
  add32, ok,
}
use akari.Tasks.{
  Task, Kernel, Call, CallType, probe_queue_call, process_id_by_name_call, wait_process_call,
  read_stream_call, irq_wait_call, nanosleep_call, insttype, same_type, unblock_with, new_item,
  push_back, unblock_type_with, get_task_by_id, put_task,
}
use akari.Tasks.Lookup.{
  get_task_by_id-id, get_task_by_id-put_task_same, get_task_by_id-put_task_other,
}
use akari.Ipc.{send_queue}

-- Whether a call waits in a queue for this reply.
unfoldable pub probes : Option Call → ℕ → Bool
probes none reply_to = false
probes (some call) reply_to = elim call [ probe_queue_call r ↦ r == reply_to | _ ↦ false ]

-- The receiver after it is told of a message.
unblock_probe :
    (t : Task) (reply_to : ℕ)
    → unblock_type_with t CallType.probe_queue reply_to
      ≡ ok (record t { user_waiting = t.user_waiting && not (probes t.user_call reply_to) })
unfolding unblock_type_with probes insttype same_type unblock_with
unblock_probe t reply_to = by_call t.user_waiting t.user_call
  where
    by_call :
        (w : Bool) (c : Option Call)
        → unblock_type_with
            (record t { user_waiting = w; user_call = c })
            CallType.probe_queue
            reply_to
          ≡ ok (record t { user_waiting = w && not (probes c reply_to); user_call = c })
    by_call false none = refl
    by_call true none = refl
    by_call true (some (probe_queue_call r)) = ground arith
    by_call false (some (probe_queue_call r)) = ground arith
    by_call true (some (process_id_by_name_call name)) = refl
    by_call false (some (process_id_by_name_call name)) = refl
    by_call true (some (wait_process_call pid)) = refl
    by_call false (some (wait_process_call pid)) = refl
    by_call true (some (read_stream_call pid node listener n)) = refl
    by_call false (some (read_stream_call pid node listener n)) = refl
    by_call true (some (irq_wait_call timeout wakeevent_id)) = refl
    by_call false (some (irq_wait_call timeout wakeevent_id)) = refl
    by_call true (some (nanosleep_call tv_sec tv_nsec wakeevent_id)) = refl
    by_call false (some (nanosleep_call tv_sec tv_nsec wakeevent_id)) = refl

-- To a task that exists, the send succeeds with the next message id. The message goes to the end of
-- the task's queue; the task stops waiting only if it waits for just this reply; and no other task
-- changes.
pub send_queue-push_back :
    (k : Kernel) (id reply_to : ℕ) (payload : List ℕ) (t : Task)
    → get_task_by_id k.tasks id ≡ some t
    → let msg_id = add32 k.last_msg_id 1 in
      (k' : Kernel) × (send_queue k id reply_to payload ≡ ok (msg_id, k'))
      × (get_task_by_id k'.tasks id
          ≡ some (record t {
            reply_queue =
                push_back t.reply_queue (new_item msg_id k.switches k.current reply_to payload);
            user_waiting = t.user_waiting && not (probes t.user_call reply_to);
          }))
      × ((other : ℕ) → id ≢ other → get_task_by_id k'.tasks other ≡ get_task_by_id k.tasks other)
unfolding send_queue
send_queue-push_back k id reply_to payload t e =
    let msg_id = add32 k.last_msg_id 1 in
    let sent : Task = record t {
      reply_queue = push_back t.reply_queue (new_item msg_id k.switches k.current reply_to payload);
    } in
    let t' : Task = record sent {
      user_waiting = t.user_waiting && not (probes t.user_call reply_to);
    } in
    let same : t.id ≡ id = get_task_by_id-id k.tasks id {t = t} e in
    (
      record k { tasks = put_task k.tasks t'; last_msg_id = msg_id },
      ground (arith, e, unblock_probe sent reply_to),
      get_task_by_id-put_task_same k.tasks id t t' e same,
      λ other n. get_task_by_id-put_task_other k.tasks other t' (λ p. n (sym same ∙ p)),
    )
