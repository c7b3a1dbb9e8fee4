-- ===== src/LinkedList/Insert.antt =====
-- `insert` on the cells that a list holds.
use akari.Prelude.{ℕ, ◌≡◌, ◌≢◌, ap, subst, sym, ◌∙◌, List, [], ◌∷◌, ◌++◌, some, arith, ok}
use akari.LinkedList.{Node, Store, LinkedList, write, push_front}
use akari.LinkedList.Change.{set_next, set_prev, insert, insert_inner}
use akari.LinkedList.Linked.{
  linked_cons, Absent, Holds, write-same, write-other, write-Linked, first-Linked,
}
use akari.LinkedList.Push.{push_front-Holds}
use akari.LinkedList.Segments.{
  Segment, segment_nil, Apart, Distinct-both, Distinct-append, Linked-cut, Segment-join,
  write-Segment, Segment-last, Segment-nonzero, Segment-turn, Linked-turn, Absent-both,
}
use akari.LinkedList.Unlink.{Holds-At, set_next-ok, set_prev-ok, first_of}

module _ {ℓ} {A : Type ℓ} where
  insert-first :
      (l : LinkedList A) (pos new : ℕ) (item : A) {at : Node A} {l' : LinkedList A}
      → pos ≢ 0
      → l.nodes pos ≡ some at
      → at.prev ≡ 0
      → push_front l new item ≡ ok l'
      → l'.begin ≡ new
      → insert l pos new item ≡ ok (l', new)
  unfolding insert
  insert-first l pos new item z e p x b = ground (arith, z, e, p, x, b)

  insert-inner_lem :
      (l : LinkedList A) (pos new : ℕ) (item : A) {at : Node A} {s1 s2 : Store A}
      → pos ≢ 0
      → l.nodes pos ≡ some at
      → at.prev ≢ 0
      → set_prev
          (write l.nodes new (some (record { item = item; next = pos; prev = at.prev })))
          pos
          new
        ≡ ok s1
      → set_next s1 at.prev new ≡ ok s2
      → insert l pos new item ≡ ok (record { nodes = s2; begin = l.begin; end = l.end }, new)
  unfolding insert insert_inner
  insert-inner_lem l pos new item z e p x y = ground (arith, z, e, p, x, y)

  Apart-cons :
      (xs ys : List (ℕ × A)) (new : ℕ) (item : A)
      → Absent new xs
      → Apart xs ys
      → Apart xs ((new, item) ∷ ys)
  Apart-cons [] ys new item h a = tt
  Apart-cons (x ∷ xs) ys new item h a = ((λ e. h.0 (sym e), a.0), Apart-cons xs ys new item h.1 a.1)

  -- The store after an item is put between two cells.
  module _ (l : LinkedList A) (x : ℕ × A) (xs : List (ℕ × A)) (c : ℕ × A) (ys : List (ℕ × A))
      (new : ℕ) (item : A) (h : Holds l ((x ∷ xs) ++ c ∷ ys)) (z : new ≢ 0)
      (a : Absent new ((x ∷ xs) ++ c ∷ ys)) where
    insert-between :
        (l' : LinkedList A) × (insert l c.0 new item ≡ ok (l', new))
        × Holds l' ((x ∷ xs) ++ (new, item) ∷ c ∷ ys)
    insert-between =
        let (pos, prev, k, r) = Linked-cut l.nodes (x ∷ xs) (c ∷ ys) h.linked in
        let (next, at, e, _) = first-Linked l.nodes c ys r in
        let (dx, dcy, apart) = Distinct-both (x ∷ xs) (c ∷ ys) h.distinct in
        let (ax, acy) = Absent-both new (x ∷ xs) (c ∷ ys) a in
        let (absent, _) = first_of c (x ∷ xs) ys apart in
        let N : Node A = record { item = item; next = pos; prev = prev } in
        let s0 = write l.nodes new (some N) in
        let (n1, e1, _, here, r1) =
          Linked-turn s0 new c ys (write-Linked l.nodes new (some N) r acy) dcy in
        let s1 = write s0 pos (some (record n1 { prev = new })) in
        let k1 =
          write-Segment s0 pos (some (record n1 { prev = new }))
            (write-Segment l.nodes new (some N) k ax)
            (subst (λ d. Absent d (x ∷ xs)) (sym at) absent) in
        let (n2, e2, k2) = Segment-turn s1 new x xs k1 dx in
        let after = some (record n2 { next = new }) in
        let s2 = write s1 prev after in
        let r2 =
          write-Linked s1 prev after r1
            (Segment-last (λ d. Absent d (c ∷ ys)) l.nodes x xs k apart) in
        let other : prev ≢ new = Segment-last (λ d. d ≢ new) l.nodes x xs k ax in
        let mine : s2 new ≡ some N =
          write-other s1 prev new after (λ q. other (sym q))
          ∙ write-other s0 pos new (some (record n1 { prev = new })) (λ q. acy.0 (sym (q ∙ at)))
          ∙ write-same l.nodes new (some N) in
        let there : l.nodes c.0 ≡ some (record { item = c.1; next = next; prev = prev }) =
          ap l.nodes (sym at) ∙ e in
        let x1 : set_prev
              (write l.nodes new (some (record { item = item; next = c.0; prev = prev }))) c.0 new
            ≡ ok s1 =
          subst
            (λ p.
              set_prev (write l.nodes new (some (record { item = item; next = p; prev = prev }))) p
                new
              ≡ ok s1)
            at (set_prev-ok s0 pos new e1) in
        (
          record { nodes = s2; begin = l.begin; end = l.end },
          insert-inner_lem l c.0 new item (λ q. here (at ∙ q)) there
              (Segment-nonzero l.nodes x xs k).1 x1 (set_next-ok s1 prev new e2),
          record {
            linked = Segment-join s2 ((new, item) ∷ c ∷ ys) k2 (linked_cons z mine r2);
            distinct =
                Distinct-append (x ∷ xs) ((new, item) ∷ c ∷ ys) dx (acy, dcy)
                  (Apart-cons (x ∷ xs) (c ∷ ys) new item ax apart);
          },
        )

  -- `insert` before a node, at an address that the list does not use, puts the item there, and returns
  -- an iterator at it.
  pub insert-Holds :
      (l : LinkedList A) (xs : List (ℕ × A)) (c : ℕ × A) (ys : List (ℕ × A)) (new : ℕ) (item : A)
      → Holds l (xs ++ c ∷ ys)
      → new ≢ 0
      → Absent new (xs ++ c ∷ ys)
      → (l' : LinkedList A) × (insert l c.0 new item ≡ ok (l', new))
        × Holds l' (xs ++ (new, item) ∷ c ∷ ys)
  insert-Holds l [] c ys new item h z a =
      let at = Holds-At l [] c ys h in
      let (l', x, held) = push_front-Holds l (c ∷ ys) new item h z a in
      let (_, b, _, _) = first-Linked l'.nodes (new, item) (c ∷ ys) held.linked in
      (l', insert-first l c.0 new item at.here at.found (no_prev at.before) x b, held)
    where
      no_prev : {p : ℕ} → Segment l.nodes 0 l.begin [] c.0 p → p ≡ 0
      no_prev (segment_nil e f) = sym f
  insert-Holds l (x ∷ xs) c ys new item h z a = insert-between l x xs c ys new item h z a
