-- ===== src/Ipc/Read.antt =====
-- `readQueue` copies the part of a message that was asked for; what is sent can be read back, and
-- shifted off.
use akari.Prelude.{
  ℕ, zero, suc, ◌+◌, ◌-◌, ◌≤◌, ◌<◌, ◌≡◌, refl, ap, sym, ◌∙◌, List, [], ◌∷◌, none, some, arith,
  get_elem?, length, get_elem?-lt, ltb, same_cells, if◌then◌else◌, add32, u32_mod, ok,
}
use akari.Tasks.{
  Item, Task, Kernel, new_item, item_by_id, remove_item, remove_found, get_task_by_id, put_task,
}
use akari.Tasks.Lookup.{
  get_task_by_id-id, get_task_by_id-put_task_same, item_by_id-push_back, remove_item-push_back,
}
use akari.Ipc.{copy_from, read_queue, shift_queue, send_queue}
use akari.Ipc.Send.{send_queue-push_back}

-- A part of a message, as it stands in the message's bytes.
pub record IsPart (payload : List ℕ) (offset n : ℕ) (out : List ℕ) : Type 0 where
  pub size : length out ≡ n
  pub same : (i : ℕ) → i < n → get_elem? out i ≡ get_elem? payload (offset + i)

copy_from-IsPart :
    (payload : List ℕ) (offset n : ℕ)
    → offset + n ≤ length payload
    → (out : List ℕ) × (copy_from payload offset n ≡ ok out) × IsPart payload offset n out
unfolding copy_from
copy_from-IsPart payload offset zero u =
    ([], refl, record { size = refl; same = λ i l. absurd (omega (arith, l)) })
copy_from-IsPart payload offset (suc n) u =
    let (byte, e) = get_elem?-lt payload offset (omega (arith, u)) in
    let (rest, c, part) = copy_from-IsPart payload (offset + 1) n (omega (arith, u)) in
    (
      byte ∷ rest,
      ground (arith, e, c),
      record { size = omega (arith, part.size); same = shifted byte e rest part },
    )
  where
    shifted :
        (byte : ℕ)
        → get_elem? payload offset ≡ some byte
        → (rest : List ℕ) → IsPart payload (offset + 1) n rest
        → (i : ℕ) → i < suc n
        → get_elem? (byte ∷ rest) i ≡ get_elem? payload (offset + i)
    shifted byte e rest part zero l = sym e ∙ ap (get_elem? payload) (omega arith)
    shifted byte e rest part (suc i) l =
        part.same i (omega (arith, l)) ∙ ap (get_elem? payload) (omega arith)

-- Reading a message of the current task from an offset inside it, with an end that is a u32, gives as
-- many of the bytes asked for as there are, and returns their number.
pub read_queue-IsPart :
    (k : Kernel) (t : Task) (item : Item) (id offset len : ℕ)
    → get_task_by_id k.tasks k.current ≡ some t
    → item_by_id t.reply_queue id ≡ some item
    → item.data_len ≡ length item.payload
    → offset < item.data_len
    → offset + len < u32_mod
    → let n = if ltb item.data_len (offset + len) then item.data_len - offset else len in
      (out : List ℕ) × (read_queue k id offset len ≡ ok (out, n)) × IsPart item.payload offset n out
unfolding read_queue
read_queue-IsPart k t item id offset len e f whole u fits =
    let n = if ltb item.data_len (offset + len) then item.data_len - offset else len in
    let (out, c, part) = copy_from-IsPart item.payload offset n (ground (arith, whole, u)) in
    (out, ground (arith, e, f, c, u, fits), part)

-- `shiftQueue` takes the message off the current task's queue.
pub shift_queue-remove_item :
    (k : Kernel) (t : Task) (item : Item) (id : ℕ)
    → get_task_by_id k.tasks k.current ≡ some t
    → item_by_id t.reply_queue id ≡ some item
    → (k' : Kernel) × (shift_queue k id ≡ ok k')
      × (get_task_by_id k'.tasks k.current
          ≡ some (record t { reply_queue = remove_item t.reply_queue item }))
unfolding shift_queue remove_found
shift_queue-remove_item k t item id e f =
    let t' : Task = record t { reply_queue = remove_item t.reply_queue item } in
    (
      record k { tasks = put_task k.tasks t' },
      ground (arith, e, f),
      get_task_by_id-put_task_same k.tasks k.current t t' e
          (get_task_by_id-id k.tasks k.current {t = t} e),
    )

-- A message whose id is new to the receiver's queue, and which is not empty and not longer than a
-- u32, is read back by the receiver just as it was sent, and shifting it off leaves the queue as it
-- was before the send.
pub read_queue-send_queue :
    (k : Kernel) (id reply_to : ℕ) (payload : List ℕ) (t : Task)
    → get_task_by_id k.tasks id ≡ some t
    → item_by_id t.reply_queue (add32 k.last_msg_id 1) ≡ none
    → 0 < length payload
    → length payload < u32_mod
    → let msg_id = add32 k.last_msg_id 1 in
      (k' : Kernel) × (send_queue k id reply_to payload ≡ ok (msg_id, k'))
      × (read_queue (record k' { current = id }) msg_id 0 (length payload)
          ≡ ok (payload, length payload))
      × (k'' : Kernel) × (shift_queue (record k' { current = id }) msg_id ≡ ok k'')
      × (t' : Task) × (get_task_by_id k''.tasks id ≡ some t')
      × (t'.reply_queue ≡ t.reply_queue)
read_queue-send_queue k id reply_to payload t e fresh some_bytes fits =
    let item : Item = new_item (add32 k.last_msg_id 1) k.switches k.current reply_to payload in
    let (k', sent, at, _) = send_queue-push_back k id reply_to payload t e in
    let found = item_by_id-push_back t.reply_queue item fresh in
    let (out, r, part) =
      read_queue-IsPart (record k' { current = id }) _ item (add32 k.last_msg_id 1) 0
        (length payload) at found refl some_bytes (omega (arith, fits)) in
    let n : (if ltb (length payload) (0 + length payload)
          then length payload - 0
          else length payload)
        ≡ length payload =
      ground arith in
    let whole : out ≡ payload =
      same_cells out payload (part.size ∙ n)
        (λ i l. part.same i (ground (arith, l)) ∙ ap (get_elem? payload) (omega arith)) in
    let (k'', shifted, at') =
      shift_queue-remove_item (record k' { current = id }) _ item (add32 k.last_msg_id 1) at
        found in
    (
      k',
      sent,
      ground (arith, r, whole, n),
      k'',
      shifted,
      _,
      at',
      remove_item-push_back t.reply_queue item fresh,
    )
