-- ===== src/Tasks/Lookup.antt =====
-- Tasks found by id, messages found by id, and what a write or a new message changes of them.
use native.Mathlib.Decide.{ℕ_discrete}
use akari.Prelude.{ℕ, ◌≡◌, ◌≢◌, refl, ap, sym, ◌∙◌, List, [], ◌∷◌, none, some, arith}
use akari.Tasks.{
  Item, Queue, Task, get_task_by_id, put_task, item_by_id, item_by_reply_to, push_back, remove_item,
}

pub get_task_by_id-id :
    (ts : List Task) (id : ℕ) {t : Task} → get_task_by_id ts id ≡ some t → t.id ≡ id
unfolding get_task_by_id
get_task_by_id-id [] id e = absurd (ground (arith, e))
get_task_by_id-id (u ∷ ts) id {t} e = elim (ℕ_discrete u.id id) [
  | yes p ↦ let same : u ≡ t = ground (arith, p, e) in ap Task.id (sym same) ∙ p
  | no n ↦ get_task_by_id-id ts id {t = t} (ground (arith, n, e))
]

-- The task that is put in the place of one with its id is found there.
pub get_task_by_id-put_task_same :
    (ts : List Task) (id : ℕ) (t t' : Task)
    → get_task_by_id ts id ≡ some t
    → t'.id ≡ id
    → get_task_by_id (put_task ts t') id ≡ some t'
unfolding get_task_by_id put_task
get_task_by_id-put_task_same [] id t t' e p = absurd (ground (arith, e))
get_task_by_id-put_task_same (u ∷ ts) id t t' e p = elim (ℕ_discrete u.id id) [
  | yes q ↦ ground (arith, q, p)
  | no n ↦
      let later : get_task_by_id ts id ≡ some t = ground (arith, n, e) in
      ground (arith, n, p, get_task_by_id-put_task_same ts id t t' later p)
]

-- And every other task is found as before.
pub get_task_by_id-put_task_other :
    (ts : List Task) (other : ℕ) (t : Task)
    → t.id ≢ other
    → get_task_by_id (put_task ts t) other ≡ get_task_by_id ts other
unfolding get_task_by_id put_task
get_task_by_id-put_task_other [] other t n = refl
get_task_by_id-put_task_other (u ∷ ts) other t n = elim (ℕ_discrete u.id t.id) [
  | yes p ↦ ground (arith, p, n)
  | no m ↦ ground (arith, m, get_task_by_id-put_task_other ts other t n)
]

-- A new message with an id that is not in the queue is the one found by that id.
pub item_by_id-push_back :
    (q : Queue) (item : Item)
    → item_by_id q item.item_id ≡ none
    → item_by_id (push_back q item) item.item_id ≡ some item
unfolding item_by_id push_back
item_by_id-push_back [] item fresh = ground arith
item_by_id-push_back (i ∷ q) item fresh = elim (ℕ_discrete i.item_id item.item_id) [
  | yes p ↦ absurd (ground (arith, p, fresh))
  | no n ↦
      let later : item_by_id q item.item_id ≡ none = ground (arith, n, fresh) in
      ground (arith, n, item_by_id-push_back q item later)
]

-- Taking it off leaves the queue as it was.
pub remove_item-push_back :
    (q : Queue) (item : Item)
    → item_by_id q item.item_id ≡ none
    → remove_item (push_back q item) item ≡ q
unfolding item_by_id push_back remove_item
remove_item-push_back [] item fresh = ground arith
remove_item-push_back (i ∷ q) item fresh = elim (ℕ_discrete i.item_id item.item_id) [
  | yes p ↦ absurd (ground (arith, p, fresh))
  | no n ↦
      let later : item_by_id q item.item_id ≡ none = ground (arith, n, fresh) in
      ground (arith, n, remove_item-push_back q item later)
]

-- A new message is the first for its reply, when the queue had none for it.
pub item_by_reply_to-push_back :
    (q : Queue) (item : Item)
    → item_by_reply_to q item.reply_to ≡ none
    → item_by_reply_to (push_back q item) item.reply_to ≡ some item
unfolding item_by_reply_to push_back
item_by_reply_to-push_back [] item fresh = ground arith
item_by_reply_to-push_back (i ∷ q) item fresh = elim (ℕ_discrete i.reply_to item.reply_to) [
  | yes p ↦ absurd (ground (arith, p, fresh))
  | no n ↦
      let later : item_by_reply_to q item.reply_to ≡ none = ground (arith, n, fresh) in
      ground (arith, n, item_by_reply_to-push_back q item later)
]
