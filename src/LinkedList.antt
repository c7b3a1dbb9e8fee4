-- ===== src/LinkedList.antt =====
-- inc/list: the doubly linked list, on a store of nodes. A node is known by its address, and 0 is the null
-- pointer; `new` is an argument of the operations, the address that the allocator gives.
pub mod Linked
pub mod Push
pub mod Walk
pub mod Change
pub mod Segments
pub mod Unlink
pub mod Erase
pub mod Insert
mod Tests
use akari.Prelude.{
  ℕ, zero, suc, List, [], ◌∷◌, Option, none, some, ◌==◌, if◌then◌else◌, Result, ok, fault, ◌>>=◌,
  or_fault,
}

-- `listNode`
pub record Node {ℓ} (A : Type ℓ) : Type ℓ where
  pub item : A
  pub next : ℕ
  pub prev : ℕ

abbrev pub Store {ℓ} : Type ℓ → Type ℓ
Store A = ℕ → Option (Node A)

-- The list's two pointers, with the store that they lead into.
pub record LinkedList {ℓ} (A : Type ℓ) : Type ℓ where
  pub nodes : Store A
  pub begin : ℕ
  pub end : ℕ

module _ {ℓ} {A : Type ℓ} where
  abbrev pub empty_list : LinkedList A
  empty_list = record { nodes = λ address. none; begin = 0; end = 0 }

  unfoldable pub write : Store A → ℕ → Option (Node A) → Store A
  write s address node other = if other == address then node else s other

  unfoldable pub push_front : LinkedList A → ℕ → A → Result (LinkedList A)
  push_front l new item =
      let node : Node A = record { item = item; next = l.begin; prev = 0 } in
      let s = write l.nodes new (some node) in
      let behind : Result (LinkedList A) = do
        old ← or_fault (s l.begin)
        ok (record {
          nodes = write s l.begin (some (record old { prev = new }));
          begin = new;
          end = l.end;
        })
      in if l.begin == 0 then ok (record { nodes = s; begin = new; end = new }) else behind

  unfoldable pub push_back : LinkedList A → ℕ → A → Result (LinkedList A)
  push_back l new item =
      let node : Node A = record { item = item; next = 0; prev = l.end } in
      let s = write l.nodes new (some node) in
      let behind : Result (LinkedList A) = do
        old ← or_fault (s l.end)
        ok (record {
          nodes = write s l.end (some (record old { next = new }));
          begin = l.begin;
          end = new;
        })
      in if l.end == 0 then ok (record { nodes = s; begin = new; end = new }) else behind

  unfoldable pub pop_front : LinkedList A → Result (LinkedList A)
  pop_front l = do
    old ← or_fault (l.nodes l.begin)
    let alone : LinkedList A = record { nodes = write l.nodes l.begin none; begin = 0; end = 0 }
    let rest : Result (LinkedList A) = do
      node ← or_fault (l.nodes old.next)
      let s = write l.nodes old.next (some (record node { prev = 0 }))
      ok (record { nodes = write s l.begin none; begin = old.next; end = l.end })
    if old.next == 0 then ok alone else rest

  -- The items that an iterator comes by from an address on: `begin` and `++` up to `end`, and `rbegin` and
  -- `++` up to `rend`.
  unfoldable pub forward : Store A → ℕ → ℕ → Result (List A)
  forward s address zero = fault
  forward s address (suc rounds) =
      let rest : Result (List A) = do
        node ← or_fault (s address)
        items ← forward s node.next rounds
        ok (node.item ∷ items)
      in if address == 0 then ok [] else rest

  unfoldable pub backward : Store A → ℕ → ℕ → Result (List A)
  backward s address zero = fault
  backward s address (suc rounds) =
      let rest : Result (List A) = do
        node ← or_fault (s address)
        items ← backward s node.prev rounds
        ok (node.item ∷ items)
      in if address == 0 then ok [] else rest
