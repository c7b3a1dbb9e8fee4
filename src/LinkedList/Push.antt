-- ===== src/LinkedList/Push.antt =====
-- `push_back`, `push_front` and `pop_front` on the cells that a list holds.
use akari.Prelude.{
  ℕ, ◌≡◌, ◌≢◌, refl, ap, subst, sym, ◌∙◌, List, [], ◌∷◌, ◌++◌, none, some, arith, ok,
}
use akari.LinkedList.{Node, Store, LinkedList, write, push_front, push_back, pop_front}
use akari.LinkedList.Linked.{
  Linked, linked_nil, linked_cons, Absent, Distinct, Holds, write-same, write-other, write-Linked,
  end-Absent, first-Linked, nil-Linked,
}

module _ {ℓ} {A : Type ℓ} where
  -- The store after a node is put behind the last one.
  abbrev extended : Store A → ℕ → A → ℕ → Node A → Store A
  extended s new item end old =
      write (write s new (some (record { item = item; next = 0; prev = end }))) end
        (some (record old { next = new }))

  extended-Linked :
      (s : Store A) (new : ℕ) (item : A) {prev address end : ℕ} (c : ℕ × A) (cells : List (ℕ × A))
      → new ≢ 0
      → Linked s prev address (c ∷ cells) end
      → Distinct (c ∷ cells)
      → Absent new (c ∷ cells)
      → (old : Node A) × (s end ≡ some old)
        × (address ≢ 0)
        × (end ≢ 0)
        × Linked (extended s new item end old) prev address ((c ∷ cells) ++ (new, item) ∷ []) new
  extended-Linked s new item {prev} {address} {end} (b, y) [] z
        (linked_cons {next = next} m e (linked_nil f g)) d h =
      let old : Node A = record { item = y; next = next; prev = prev } in
      let node : Node A = record { item = item; next = 0; prev = address } in
      let there : s end ≡ some old = ap s g ∙ e in
      let t : Store A = extended s new item end old in
      let first : t address ≡ some (record { item = y; next = new; prev = prev }) =
        ap t (sym g)
        ∙ write-same (write s new (some (record { item = item; next = 0; prev = end }))) end
            (some (record old { next = new })) in
      let second : t new ≡ some node =
        write-other (write s new (some (record { item = item; next = 0; prev = end }))) end new
          (some (record old { next = new })) (λ p. h.0 (sym (p ∙ g)))
        ∙ write-same s new (some (record { item = item; next = 0; prev = end }))
        ∙ ap (λ p. some (record { item = item; next = 0; prev = p })) g in
      (
        old,
        there,
        m,
        (λ p. m (sym g ∙ p)),
        linked_cons m first (linked_cons z second (linked_nil refl refl)),
      )
  extended-Linked s new item {prev} {address} {end} (b, y) (c ∷ cells) z
        (linked_cons {next = next} m e l) d h =
      let (old, there, _, last, tail) = extended-Linked s new item c cells z l d.1 h.1 in
      let apart : address ≢ end = λ p. end-Absent s c cells address l d.0 (sym p) in
      let kept : extended s new item end old address ≡ s address =
        write-other (write s new (some (record { item = item; next = 0; prev = end }))) end address
          (some (record old { next = new })) apart
        ∙ write-other s new address (some (record { item = item; next = 0; prev = end })) h.0 in
      (old, there, m, last, linked_cons m (kept ∙ e) tail)

  Absent-end :
      (c : ℕ × A) (cells : List (ℕ × A)) (new : ℕ) (item : A)
      → Absent c.0 cells
      → c.0 ≢ new
      → Absent c.0 (cells ++ (new, item) ∷ [])
  Absent-end c [] new item h n = (λ e. n (sym e), tt)
  Absent-end c (c' ∷ cells) new item h n = (h.0, Absent-end c cells new item h.1 n)

  Distinct-end :
      (cells : List (ℕ × A)) (new : ℕ) (item : A)
      → Distinct cells
      → Absent new cells
      → Distinct (cells ++ (new, item) ∷ [])
  Distinct-end [] new item d h = (tt, tt)
  Distinct-end (c ∷ cells) new item d h =
      (Absent-end c cells new item d.0 h.0, Distinct-end cells new item d.1 h.1)

  -- `push_back` of an item, at an address that the list does not use, puts it behind the list's items, and the
  -- list's links in both directions are those of the longer list.
  pub push_back-Holds :
      (l : LinkedList A) (cells : List (ℕ × A)) (new : ℕ) (item : A)
      → Holds l cells
      → new ≢ 0
      → Absent new cells
      → (l' : LinkedList A) × (push_back l new item ≡ ok l') × Holds l' (cells ++ (new, item) ∷ [])
  unfolding push_back
  push_back-Holds l [] new item h z a = elim h.linked [
    | linked_nil e f ↦
        let node : Node A = record { item = item; next = 0; prev = l.end } in
        let at : write l.nodes new (some node) new
            ≡ some (record { item = item; next = 0; prev = 0 }) =
          write-same l.nodes new (some node)
          ∙ ap (λ p. some (record { item = item; next = 0; prev = p })) f in
        (
          record { nodes = write l.nodes new (some node); begin = new; end = new },
          ground (arith, f),
          record { linked = linked_cons z at (linked_nil refl refl); distinct = (tt, tt) },
        )
  ]
  push_back-Holds l (c ∷ cells) new item h z a =
      let (old, there, _, last, linked) =
        extended-Linked l.nodes new item c cells z h.linked h.distinct a in
      let s : Store A = write l.nodes new (some (record { item = item; next = 0; prev = l.end })) in
      let found : s l.end ≡ some old =
        write-other l.nodes new l.end (some (record { item = item; next = 0; prev = l.end }))
          (end-Absent l.nodes c cells new h.linked a)
        ∙ there in
      (
        record { nodes = extended l.nodes new item l.end old; begin = l.begin; end = new },
        ground (arith, last, found),
        record { linked = linked; distinct = Distinct-end (c ∷ cells) new item h.distinct a },
      )

  front-Linked :
      (s : Store A) (new : ℕ) (item : A) {address end : ℕ} (c : ℕ × A) (cells : List (ℕ × A))
      → new ≢ 0
      → Linked s 0 address (c ∷ cells) end
      → Distinct (c ∷ cells)
      → Absent new (c ∷ cells)
      → (old : Node A) × (s address ≡ some old)
        × (address ≢ 0)
        × (address ≢ new)
        × Linked
            (write
              (write s new (some (record { item = item; next = address; prev = 0 })))
              address
              (some (record old { prev = new })))
            0
            new
            ((new, item) ∷ c ∷ cells)
            end
  front-Linked s new item {address} (b, y) cells z (linked_cons {next = next} m e l) d h =
      let node : Node A = record { item = item; next = address; prev = 0 } in
      let old : Node A = record { item = y; next = next; prev = 0 } in
      let s' : Store A = write s new (some node) in
      let first =
        write-other s' address new (some (record old { prev = new })) (λ p. h.0 (sym p))
        ∙ write-same s new (some node) in
      let second = write-same s' address (some (record old { prev = new })) in
      let tail =
        write-Linked s' address (some (record old { prev = new }))
          (write-Linked s new (some node) l h.1) d.0 in
      (old, e, m, h.0, linked_cons z first (linked_cons m second tail))

  -- `push_front`, likewise, puts it before them.
  pub push_front-Holds :
      (l : LinkedList A) (cells : List (ℕ × A)) (new : ℕ) (item : A)
      → Holds l cells
      → new ≢ 0
      → Absent new cells
      → (l' : LinkedList A) × (push_front l new item ≡ ok l') × Holds l' ((new, item) ∷ cells)
  unfolding push_front
  push_front-Holds l [] new item h z a = elim h.linked [
    | linked_nil e f ↦
        let node : Node A = record { item = item; next = l.begin; prev = 0 } in
        let at : write l.nodes new (some node) new
            ≡ some (record { item = item; next = 0; prev = 0 }) =
          write-same l.nodes new (some node)
          ∙ ap (λ n. some (record { item = item; next = n; prev = 0 })) e in
        (
          record { nodes = write l.nodes new (some node); begin = new; end = new },
          ground (arith, e),
          record { linked = linked_cons z at (linked_nil refl refl); distinct = (tt, tt) },
        )
  ]
  push_front-Holds l (c ∷ cells) new item h z a =
      let (old, there, m, apart, linked) =
        front-Linked l.nodes new item c cells z h.linked h.distinct a in
      let node : Node A = record { item = item; next = l.begin; prev = 0 } in
      let found : write l.nodes new (some node) l.begin ≡ some old =
        write-other l.nodes new l.begin (some node) apart ∙ there in
      (
        record {
          nodes = write (write l.nodes new (some node)) l.begin (some (record old { prev = new }));
          begin = new;
          end = l.end;
        },
        ground (arith, m, found),
        record { linked = linked; distinct = (a, h.distinct) },
      )

  rest-Linked :
      (s : Store A) {prev address end : ℕ} (c : ℕ × A) (cells : List (ℕ × A)) (gone : ℕ)
      → Linked s prev address (c ∷ cells) end
      → Distinct (c ∷ cells)
      → Absent gone (c ∷ cells)
      → (node : Node A) × (s address ≡ some node)
        × (address ≢ 0)
        × Linked
            (write (write s address (some (record node { prev = 0 }))) gone none)
            0
            address
            (c ∷ cells)
            end
  rest-Linked s {prev} {address} (b, y) cells gone (linked_cons {next = next} m e l) d h =
      let node : Node A = record { item = y; next = next; prev = prev } in
      let moved : Node A = record { item = y; next = next; prev = 0 } in
      let s' : Store A = write s address (some moved) in
      let first = write-other s' gone address none h.0 ∙ write-same s address (some moved) in
      (
        node,
        e,
        m,
        linked_cons m first
            (write-Linked s' gone none (write-Linked s address (some moved) l d.0) h.1),
      )

  -- `pop_front` takes the first item off a list that is not empty.
  pub pop_front-Holds :
      (l : LinkedList A) (cells : List (ℕ × A)) (c : ℕ × A)
      → Holds l (c ∷ cells)
      → (l' : LinkedList A) × (pop_front l ≡ ok l') × Holds l' cells
  unfolding pop_front
  pop_front-Holds l [] c h =
      let (next, at, e, tail) = first-Linked l.nodes c [] h.linked in
      let (f, _) = nil-Linked l.nodes tail in
      (
        record { nodes = write l.nodes l.begin none; begin = 0; end = 0 },
        ground (arith, e, f),
        record { linked = linked_nil refl refl; distinct = tt },
      )
  pop_front-Holds l (c' ∷ cells) c h =
      let (next, at, e, tail) = first-Linked l.nodes c (c' ∷ cells) h.linked in
      let absent : Absent l.begin (c' ∷ cells) =
        subst (λ b. Absent b (c' ∷ cells)) (sym at) h.distinct.0 in
      let (node, there, z, linked) =
        rest-Linked l.nodes c' cells l.begin tail h.distinct.1 absent in
      (
        record {
          nodes = write (write l.nodes next (some (record node { prev = 0 }))) l.begin none;
          begin = next;
          end = l.end;
        },
        ground (arith, e, z, there),
        record { linked = linked; distinct = h.distinct.1 },
      )
