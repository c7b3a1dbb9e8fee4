-- ===== src/LinkedList/Change.antt =====
-- The operations of inc/list that change a list inside: `insert`, `erase`, `pop_back` and `remove`.
use akari.Prelude.{
  ℕ, zero, suc, Bool, none, some, ◌==◌, if◌then◌else◌, Result, ok, fault, ◌>>=◌, or_fault,
}
use akari.LinkedList.{Node, Store, LinkedList, write, push_front, push_back, pop_front}

module _ {ℓ} {A : Type ℓ} where
  -- `node->next = next` and `node->prev = prev`
  unfoldable pub set_next : Store A → ℕ → ℕ → Result (Store A)
  set_next s address next = do
    node ← or_fault (s address)
    ok (write s address (some (record node { next = next })))

  unfoldable pub set_prev : Store A → ℕ → ℕ → Result (Store A)
  set_prev s address prev = do
    node ← or_fault (s address)
    ok (write s address (some (record node { prev = prev })))

  unfoldable pub pop_back : LinkedList A → Result (LinkedList A)
  pop_back l = do
    old ← or_fault (l.nodes l.end)
    let alone : LinkedList A = record { nodes = write l.nodes l.end none; begin = 0; end = 0 }
    let rest : Result (LinkedList A) = do
      s ← set_next l.nodes old.prev 0
      ok (record { nodes = write s l.end none; begin = l.begin; end = old.prev })
    (if old.prev == 0 then ok alone else rest)

  -- The list, and the iterator's address after the erased item; `end()` is at 0.
  unfoldable pub erase : LinkedList A → ℕ → Result (LinkedList A × ℕ)
  erase l pos = do
    old ← or_fault (l.nodes pos)
    let first : Result (LinkedList A × ℕ) = pop_front l >>= (λ l'. ok (l', l'.begin))
    let last : Result (LinkedList A × ℕ) = pop_back l >>= (λ l'. ok (l', 0))
    let inner : Result (LinkedList A × ℕ) = do
      s ← set_next l.nodes old.prev old.next
      s' ← set_prev s old.next old.prev
      ok (record { nodes = write s' pos none; begin = l.begin; end = l.end }, old.next)
    (if old.prev == 0 then first else (if old.next == 0 then last else inner))

  unfoldable pub insert_inner : LinkedList A → ℕ → Node A → ℕ → A → Result (LinkedList A × ℕ)
  insert_inner l pos at new item =
      let s = write l.nodes new (some (record { item = item; next = pos; prev = at.prev })) in
      do
        s1 ← set_prev s pos new
        s2 ← set_next s1 at.prev new
        ok (record { nodes = s2; begin = l.begin; end = l.end }, new)

  -- Before an iterator's address, with the address of the new node.
  unfoldable pub insert : LinkedList A → ℕ → ℕ → A → Result (LinkedList A × ℕ)
  insert l pos new item =
      let last : Result (LinkedList A × ℕ) = push_back l new item >>= (λ l'. ok (l', l'.end)) in
      let first : Result (LinkedList A × ℕ) = push_front l new item >>= (λ l'. ok (l', l'.begin)) in
      let before : Result (LinkedList A × ℕ) = do
        at ← or_fault (l.nodes pos)
        (if at.prev == 0 then first else insert_inner l pos at new item)
      in if pos == 0 then last else before

  -- The node at an address, found behind `last`, taken out: 0 stands for the list's own pointer.
  unfoldable pub unlink : LinkedList A → ℕ → ℕ → Node A → Result (LinkedList A)
  unlink l last address node = do
    s ← (if last == 0 then ok l.nodes else set_next l.nodes last node.next)
    s' ← (if node.next == 0 then ok s else set_prev s node.next last)
    ok (record {
      nodes = write s' address none;
      begin = if last == 0 then node.next else l.begin;
      end = if l.end == address then last else l.end;
    })

  -- The loop of `remove`, with the equality of items.
  unfoldable pub remove_from : (A → Bool) → LinkedList A → ℕ → ℕ → ℕ → Result (LinkedList A)
  remove_from is_data l last address zero = fault
  remove_from is_data l last address (suc rounds) =
      let step : Result (LinkedList A) = do
        node ← or_fault (l.nodes address)
        let rest = remove_from is_data l address node.next rounds
        (if is_data node.item then unlink l last address node else rest)
      in if address == 0 then ok l else step
