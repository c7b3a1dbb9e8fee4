-- ===== src/LinkedList/Walk.antt =====
-- The lists that the operations lead to, and what iterators find in them.
use akari.Prelude.{
  All, Bool, true, false, ℕ, suc, ◌+◌, ◌≡◌, ◌≢◌, ◌⊎◌, inl, inr, refl, ap, subst, sym, ◌∙◌, List, [],
  ◌∷◌, ◌++◌, append_assoc, append-nil, map, length, arith, Result, ok,
}
use akari.LinkedList.{
  Store, LinkedList, empty_list, push_front, push_back, pop_front, forward, backward,
}
use akari.LinkedList.Linked.{Linked, linked_nil, linked_cons, Absent, Holds}
use akari.LinkedList.Change.{pop_back, insert, erase, remove_from}
use akari.LinkedList.Erase.{start_of, erase-Holds, pop_back-Holds, remove-Holds}
use akari.LinkedList.Insert.{insert-Holds}
use akari.LinkedList.Push.{push_back-Holds, push_front-Holds, pop_front-Holds}

module _ {ℓ} {A : Type ℓ} where
  -- The lists that operations lead to from the empty one, with the addresses and items that a sequence under the
  -- same operations would have.
  pub data Reaches : LinkedList A → List (ℕ × A) → Type ℓ where
    starts : Reaches empty_list []
    pushes_back :
        {l l' : LinkedList A} {cells : List (ℕ × A)} (new : ℕ) (item : A)
        → Reaches l cells
        → new ≢ 0
        → Absent new cells
        → push_back l new item ≡ ok l'
        → Reaches l' (cells ++ (new, item) ∷ [])
    pushes_front :
        {l l' : LinkedList A} {cells : List (ℕ × A)} (new : ℕ) (item : A)
        → Reaches l cells
        → new ≢ 0
        → Absent new cells
        → push_front l new item ≡ ok l'
        → Reaches l' ((new, item) ∷ cells)
    pops_front :
        {l l' : LinkedList A} {cells : List (ℕ × A)} {c : ℕ × A}
        → Reaches l (c ∷ cells)
        → pop_front l ≡ ok l'
        → Reaches l' cells
    pops_back :
        {l l' : LinkedList A} {cells : List (ℕ × A)} (c : ℕ × A)
        → Reaches l (cells ++ c ∷ [])
        → pop_back l ≡ ok l'
        → Reaches l' cells
    inserts :
        {l l' : LinkedList A} (before behind : List (ℕ × A)) (c : ℕ × A) (new : ℕ) (item : A)
        {i : ℕ}
        → Reaches l (before ++ c ∷ behind)
        → new ≢ 0
        → Absent new (before ++ c ∷ behind)
        → insert l c.0 new item ≡ ok (l', i)
        → Reaches l' (before ++ (new, item) ∷ c ∷ behind)
    erases :
        {l l' : LinkedList A} (before behind : List (ℕ × A)) (c : ℕ × A) {i : ℕ}
        → Reaches l (before ++ c ∷ behind)
        → erase l c.0 ≡ ok (l', i)
        → Reaches l' (before ++ behind)
    removes :
        {l l' : LinkedList A} (before behind : List (ℕ × A)) (c : ℕ × A) (is_data : A → Bool)
        → Reaches l (before ++ c ∷ behind)
        → All (λ b. is_data b.1 ≡ false) before
        → is_data c.1 ≡ true
        → remove_from is_data l 0 l.begin (length before + 1) ≡ ok l'
        → Reaches l' (before ++ behind)

  same_result :
      {l l' : LinkedList A} {r : Result (LinkedList A)} (cells : List (ℕ × A))
      → r ≡ ok l
      → r ≡ ok l'
      → Holds l cells
      → Holds l' cells
  same_result {l} {l'} cells e f h =
      let same : l ≡ l' = ground (arith, e, f) in subst (λ l. Holds l cells) same h

  same_pair :
      {l l' : LinkedList A} {i j : ℕ} {r : Result (LinkedList A × ℕ)} (cells : List (ℕ × A))
      → r ≡ ok (l, i)
      → r ≡ ok (l', j)
      → Holds l cells
      → Holds l' cells
  same_pair {l} {l'} cells e f h =
      let same : l ≡ l' = ground (arith, e, f) in subst (λ l. Holds l cells) same h

  Reaches-Holds : {l : LinkedList A} {cells : List (ℕ × A)} → Reaches l cells → Holds l cells
  Reaches-Holds starts = record { linked = linked_nil refl refl; distinct = tt }
  Reaches-Holds (pushes_back {l = l} {cells = cells} new item r z a e) =
      let (l1, f, h) = push_back-Holds l cells new item (Reaches-Holds r) z a in same_result _ f e h
  Reaches-Holds (pushes_front {l = l} {cells = cells} new item r z a e) =
      let (l1, f, h) = push_front-Holds l cells new item (Reaches-Holds r) z a in
      same_result _ f e h
  Reaches-Holds (pops_front {l = l} {cells = cells} {c = c} r e) =
      let (l1, f, h) = pop_front-Holds l cells c (Reaches-Holds r) in same_result _ f e h
  Reaches-Holds (pops_back {l = l} {cells = cells} c r e) =
      let (l1, f, h) = pop_back-Holds l cells c (Reaches-Holds r) in same_result _ f e h
  Reaches-Holds (inserts {l = l} before behind c new item r z a e) =
      let (l1, f, h) = insert-Holds l before c behind new item (Reaches-Holds r) z a in
      same_pair _ f e h
  Reaches-Holds (erases {l = l} before behind c r e) =
      let (l1, f, h) = erase-Holds l before c behind (Reaches-Holds r) in same_pair _ f e h
  Reaches-Holds (removes {l = l} before behind c is_data r b t e) =
      let (l1, f, h) = remove-Holds is_data l before c behind (Reaches-Holds r) b t in
      same_result _ f e h

  abbrev pub items : List (ℕ × A) → List A
  items = map (λ c. c.1)

  unfoldable pub reversed : List A → List A
  reversed [] = []
  reversed (x ∷ xs) = reversed xs ++ x ∷ []

  forward-items :
      (s : Store A) {prev address end : ℕ} {cells : List (ℕ × A)}
      → Linked s prev address cells end
      → forward s address (suc (length cells)) ≡ ok (items cells)
  unfolding forward
  forward-items s (linked_nil e f) = ground (arith, e)
  forward-items s (linked_cons m e l) = ground (arith, m, e, forward-items s l)

  -- From the last node back to the node before the first.
  backward-items :
      (s : Store A) {prev address end : ℕ} {cells : List (ℕ × A)} (rounds : ℕ) (rest : List A)
      → Linked s prev address cells end
      → backward s prev rounds ≡ ok rest
      → backward s end (length cells + rounds) ≡ ok (reversed (items cells) ++ rest)
  unfolding backward reversed
  backward-items s {prev} {end = end} rounds rest (linked_nil e f) b =
      ap (backward s end) {x = 0 + rounds} {y = rounds} (omega arith)
      ∙ ap (λ a. backward s a rounds) f
      ∙ b
  backward-items s {address = address} {end = end} rounds rest
        (linked_cons {item = item} {cells = cells} m e l) b =
      let here : backward s address (suc rounds) ≡ ok (item ∷ rest) = ground (arith, m, e, b) in
      ap (backward s end) {x = suc (length cells) + rounds} {y = length cells + suc rounds}
        (omega arith)
      ∙ backward-items s (suc rounds) (item ∷ rest) l here
      ∙ ap ok (sym (append_assoc (reversed (items cells)) (item ∷ []) rest))

  backward-nil : (s : Store A) → backward s 0 1 ≡ ok []
  unfolding backward
  backward-nil s = refl

  pop_front-ok :
      (l : LinkedList A) (cells : List (ℕ × A))
      → Holds l cells
      → (cells ≡ []) ⊎ ((l' : LinkedList A) × (pop_front l ≡ ok l'))
  pop_front-ok l [] h = inl refl
  pop_front-ok l (c ∷ cells) h = let (l', e, _) = pop_front-Holds l cells c h in inr (l', e)

  last_of :
      (cells : List (ℕ × A))
      → (cells ≡ []) ⊎ ((xs : List (ℕ × A)) × (c : ℕ × A) × (cells ≡ xs ++ c ∷ []))
  last_of [] = inl refl
  last_of (b ∷ cells) = inr (elim (last_of cells) [
    | inl e ↦ ([], b, ap (◌∷◌ b) e)
    | inr p ↦ let (xs, c, e) = p in (b ∷ xs, c, ap (◌∷◌ b) e)
  ])

  pop_back-ok :
      (l : LinkedList A) (cells : List (ℕ × A))
      → Holds l cells
      → (cells ≡ []) ⊎ ((l' : LinkedList A) × (pop_back l ≡ ok l'))
  pop_back-ok l cells h = elim (last_of cells) [
    | inl e ↦ inl e
    | inr p ↦
        let (xs, c, e) = p in
        let (l', f, _) = pop_back-Holds l xs c (subst (Holds l) e h) in inr (l', f)
  ]

  -- In a list that pushes, pops, insertions, erasures and removals of a first match lead to, an iterator
  -- from the beginning comes by the items in their order, and one from the end by the reverse, and both
  -- end; a push at an address that the list does not use succeeds at both ends, and so does a pop, unless
  -- there are no items.
  pub Reaches-items :
      (l : LinkedList A) (cells : List (ℕ × A)) (new : ℕ) (item : A)
      → Reaches l cells
      → new ≢ 0
      → Absent new cells
      → (forward l.nodes l.begin (suc (length cells)) ≡ ok (items cells))
        × (backward l.nodes l.end (length cells + 1) ≡ ok (reversed (items cells)))
        × ((l' : LinkedList A) × (push_back l new item ≡ ok l'))
        × ((l' : LinkedList A) × (push_front l new item ≡ ok l'))
        × ((cells ≡ []) ⊎ ((l' : LinkedList A) × (pop_front l ≡ ok l')))
        × ((cells ≡ []) ⊎ ((l' : LinkedList A) × (pop_back l ≡ ok l')))
  Reaches-items l cells new item r z a =
      let h = Reaches-Holds r in
      let (back, e, _) = push_back-Holds l cells new item h z a in
      let (front, f, _) = push_front-Holds l cells new item h z a in
      (
        forward-items l.nodes h.linked,
        backward-items l.nodes 1 [] h.linked (backward-nil l.nodes)
            ∙ ap ok (append-nil (reversed (items cells))),
        (back, e),
        (front, f),
        pop_front-ok l cells h,
        pop_back-ok l cells h,
      )

  -- In such a list, an insertion before an item, at an address that the list does not use, succeeds with
  -- an iterator at the new item; an erasure of an item succeeds with one at the item after it, or at the
  -- end; and a removal of the first item that matches succeeds. Each leads to a list of the items with
  -- just that one more, or less.
  pub Reaches-changes :
      (l : LinkedList A) (before behind : List (ℕ × A)) (c : ℕ × A) (new : ℕ) (item : A)
      (is_data : A → Bool)
      → Reaches l (before ++ c ∷ behind)
      → new ≢ 0
      → Absent new (before ++ c ∷ behind)
      → All (λ b. is_data b.1 ≡ false) before
      → is_data c.1 ≡ true
      → ((l' : LinkedList A) × (insert l c.0 new item ≡ ok (l', new))
          × Reaches l' (before ++ (new, item) ∷ c ∷ behind))
        × ((l' : LinkedList A) × (erase l c.0 ≡ ok (l', start_of behind))
            × Reaches l' (before ++ behind))
        × ((l' : LinkedList A) × (remove_from is_data l 0 l.begin (length before + 1) ≡ ok l')
            × Reaches l' (before ++ behind))
  Reaches-changes l before behind c new item is_data r z a b t =
      let h = Reaches-Holds r in
      let (inserted, e, _) = insert-Holds l before c behind new item h z a in
      let (erased, f, _) = erase-Holds l before c behind h in
      let (removed, g, _) = remove-Holds is_data l before c behind h b t in
      (
        (inserted, e, inserts before behind c new item r z a e),
        (erased, f, erases before behind c r f),
        (removed, g, removes before behind c is_data r b t g),
      )
