-- ===== src/LinkedList/Erase.antt =====
-- `erase`, `pop_back` and `remove` on the cells that a list holds.
use akari.Prelude.{
  ℕ, suc, ◌+◌, ◌≡◌, ◌≢◌, ap, subst, sym, ◌∙◌, Bool, true, false, List, [], ◌∷◌, ◌++◌, length, some,
  arith, ok, ◌==◌, All, append-nil, Bool-cases, inl, inr,
}
use akari.LinkedList.{Node, Store, LinkedList, pop_front}
use akari.LinkedList.Change.{set_prev, unlink, erase, pop_back, remove_from}
use akari.LinkedList.Linked.{
  Linked, linked_cons, Absent, Holds, end-Absent, first-Linked, nil-Linked,
}
use akari.LinkedList.Segments.{Segment, segment_nil, segment_cons, Distinct-both, Segment-nonzero}
use akari.LinkedList.Unlink.{At, Holds-At, unlink-Holds}

module _ {ℓ} {A : Type ℓ} where
  -- The address that the cells begin at.
  abbrev pub start_of : List (ℕ × A) → ℕ
  start_of [] = 0
  start_of (c ∷ cells) = c.0

  Linked-nonzero :
      (s : Store A) {prev address end : ℕ} (c : ℕ × A) (cells : List (ℕ × A))
      → Linked s prev address (c ∷ cells) end
      → address ≢ 0
  Linked-nonzero s c cells (linked_cons m e l) = m

  module _ (l : LinkedList A) (pos : ℕ) (node : Node A) {l' : LinkedList A}
      (found : l.nodes pos ≡ some node) (runs : unlink l node.prev pos node ≡ ok l') where
    erase-only :
        l.begin ≡ pos
        → l.end ≡ pos
        → node.prev ≡ 0
        → node.next ≡ 0
        → erase l pos ≡ ok (l', node.next)
    unfolding erase pop_front unlink
    erase-only b e p n =
        let first : l.nodes l.begin ≡ some node = ap l.nodes b ∙ found in
        ground (arith, found, runs, b, e, p, n, first)

    erase-first :
        l.begin ≡ pos
        → l.end ≢ pos
        → node.prev ≡ 0
        → node.next ≢ 0
        → erase l pos ≡ ok (l', node.next)
    unfolding erase pop_front unlink set_prev
    erase-first b e p n =
        let first : l.nodes l.begin ≡ some node = ap l.nodes b ∙ found in
        ground (arith, found, runs, b, e, p, n, first)

    erase-last : l.end ≡ pos → node.prev ≢ 0 → node.next ≡ 0 → erase l pos ≡ ok (l', node.next)
    unfolding erase pop_back unlink
    erase-last e p n =
        let last : l.nodes l.end ≡ some node = ap l.nodes e ∙ found in
        ground (arith, found, runs, e, p, n, last)

    erase-inner : l.end ≢ pos → node.prev ≢ 0 → node.next ≢ 0 → erase l pos ≡ ok (l', node.next)
    unfolding erase unlink
    erase-inner e p n = ground (arith, found, runs, e, p, n)

  erase-cases :
      (l l' : LinkedList A) (xs : List (ℕ × A)) (c : ℕ × A) (ys : List (ℕ × A)) (at : At l xs c ys)
      → Absent c.0 ys
      → unlink l at.node.prev c.0 at.node ≡ ok l'
      → erase l c.0 ≡ ok (l', at.node.next)
  erase-cases l l' [] c [] at d runs = elim at.before [
    | segment_nil e f ↦
        let (n, p) = nil-Linked l.nodes at.behind in
        erase-only l c.0 at.node at.found runs e p (sym f) n
  ]
  erase-cases l l' [] c (y ∷ ys) at d runs = elim at.before [
    | segment_nil e f ↦
        erase-first l c.0 at.node at.found runs e (end-Absent l.nodes y ys c.0 at.behind d) (sym f)
          (Linked-nonzero l.nodes y ys at.behind)
  ]
  erase-cases l l' (x ∷ xs) c [] at d runs =
      let (n, p) = nil-Linked l.nodes at.behind in
      erase-last l c.0 at.node at.found runs p (Segment-nonzero l.nodes x xs at.before).1 n
  erase-cases l l' (x ∷ xs) c (y ∷ ys) at d runs =
      erase-inner l c.0 at.node at.found runs (end-Absent l.nodes y ys c.0 at.behind d)
        (Segment-nonzero l.nodes x xs at.before).1 (Linked-nonzero l.nodes y ys at.behind)

  next-start_of :
      (s : Store A) {prev address end : ℕ} (cells : List (ℕ × A))
      → Linked s prev address cells end
      → address ≡ start_of cells
  next-start_of s [] r = (nil-Linked s r).0
  next-start_of s (c ∷ cells) r = let (next, at, _, _) = first-Linked s c cells r in at

  -- `erase` at a node takes its item out, whether it is the first, the last or between others, and
  -- returns an iterator at the item after it.
  pub erase-Holds :
      (l : LinkedList A) (xs : List (ℕ × A)) (c : ℕ × A) (ys : List (ℕ × A))
      → Holds l (xs ++ c ∷ ys)
      → (l' : LinkedList A) × (erase l c.0 ≡ ok (l', start_of ys)) × Holds l' (xs ++ ys)
  erase-Holds l xs c ys h =
      let at = Holds-At l xs c ys h in
      let (l', x, held) = unlink-Holds l xs c ys at h.distinct in
      let (_, d, _) = Distinct-both xs (c ∷ ys) h.distinct in
      (
        l',
        erase-cases l l' xs c ys at d.0 x
            ∙ ap (λ i. ok (l', i)) (next-start_of l.nodes ys at.behind),
        held,
      )

  pop_back-unlink :
      (l : LinkedList A) (pos : ℕ) (node : Node A) {l' : LinkedList A}
      → l.nodes pos ≡ some node
      → unlink l node.prev pos node ≡ ok l'
      → l.end ≡ pos
      → node.next ≡ 0
      → pop_back l ≡ ok l'
  unfolding pop_back unlink
  pop_back-unlink l pos node found runs e n =
      let last : l.nodes l.end ≡ some node = ap l.nodes e ∙ found in
      elim (Bool-cases (node.prev == 0)) [
        | inl p ↦ ground (arith, found, runs, e, p, n, last)
        | inr p ↦ ground (arith, found, runs, e, p, n, last)
      ]

  -- `pop_back` takes the last item off a list that is not empty.
  pub pop_back-Holds :
      (l : LinkedList A) (xs : List (ℕ × A)) (c : ℕ × A)
      → Holds l (xs ++ c ∷ [])
      → (l' : LinkedList A) × (pop_back l ≡ ok l') × Holds l' xs
  pop_back-Holds l xs c h =
      let at = Holds-At l xs c [] h in
      let (l', x, held) = unlink-Holds l xs c [] at h.distinct in
      let (n, e) = nil-Linked l.nodes at.behind in
      (l', pop_back-unlink l c.0 at.node at.found x e n, subst (Holds l') (append-nil xs) held)

  module _ (is_data : A → Bool) (l : LinkedList A) where
    remove-skip :
        (last address rounds : ℕ) {node : Node A}
        → address ≢ 0
        → l.nodes address ≡ some node
        → is_data node.item ≡ false
        → remove_from is_data l last address (suc rounds)
          ≡ remove_from is_data l address node.next rounds
    unfolding remove_from
    remove-skip last address rounds m e t = ground (arith, m, e, t)

    remove-here :
        (last address rounds : ℕ) {node : Node A}
        → address ≢ 0
        → l.nodes address ≡ some node
        → is_data node.item ≡ true
        → remove_from is_data l last address (suc rounds) ≡ unlink l last address node
    unfolding remove_from
    remove-here last address rounds m e t = ground (arith, m, e, t)

    remove-walk :
        (rounds : ℕ) {last address behind before : ℕ} (xs : List (ℕ × A))
        → Segment l.nodes last address xs behind before
        → All (λ x. is_data x.1 ≡ false) xs
        → remove_from is_data l last address (length xs + rounds)
          ≡ remove_from is_data l before behind rounds
    remove-walk rounds {last} {address} {behind} [] (segment_nil e f) t =
        ap (remove_from is_data l last address) {x = 0 + rounds} {y = rounds} (omega arith)
        ∙ ap (λ a. remove_from is_data l last a rounds) e
        ∙ ap (λ p. remove_from is_data l p behind rounds) f
    remove-walk rounds {last} {address} (x ∷ xs) (segment_cons m e k) t =
        ap (remove_from is_data l last address) {x = suc (length xs) + rounds}
          {y = suc (length xs + rounds)} (omega arith)
        ∙ remove-skip last address (length xs + rounds) m e t.0
        ∙ remove-walk rounds xs k t.1

  -- `remove` takes out the first item that is equal to the given one, and no other.
  pub remove-Holds :
      (is_data : A → Bool) (l : LinkedList A) (xs : List (ℕ × A)) (c : ℕ × A) (ys : List (ℕ × A))
      → Holds l (xs ++ c ∷ ys)
      → All (λ x. is_data x.1 ≡ false) xs
      → is_data c.1 ≡ true
      → (l' : LinkedList A) × (remove_from is_data l 0 l.begin (length xs + 1) ≡ ok l')
        × Holds l' (xs ++ ys)
  remove-Holds is_data l xs c ys h before t =
      let at = Holds-At l xs c ys h in
      let (l', x, held) = unlink-Holds l xs c ys at h.distinct in
      (
        l',
        remove-walk is_data l 1 xs at.before before
            ∙ remove-here is_data l at.node.prev c.0 0 at.here at.found (ap is_data at.item ∙ t)
            ∙ x,
        held,
      )
