-- ===== src/LinkedList/Unlink.antt =====
-- One node taken out of a list, wherever it is.
use akari.Prelude.{
  ℕ, ◌≡◌, ◌≢◌, refl, ap, subst, sym, ◌∙◌, true, false, List, [], ◌∷◌, ◌++◌, none, some, arith, ok,
  ◌==◌, if◌then◌else◌,
}
use akari.LinkedList.{Node, Store, LinkedList, write}
use akari.LinkedList.Change.{set_next, set_prev, unlink}
use akari.LinkedList.Linked.{
  Linked, linked_nil, linked_cons, Absent, Distinct, Holds, write-Linked, end-Absent, first-Linked,
  nil-Linked,
}
use akari.LinkedList.Segments.{
  Segment, segment_nil, Apart, Distinct-both, Distinct-append, Linked-cut, Segment-join,
  write-Segment, Segment-last, Segment-nonzero, Segment-turn, Linked-turn,
}

module _ {ℓ} {A : Type ℓ} where
  pub set_next-ok :
      (s : Store A) (address next : ℕ) {node : Node A}
      → s address ≡ some node
      → set_next s address next ≡ ok (write s address (some (record node { next = next })))
  unfolding set_next
  set_next-ok s address next e = ground (arith, e)

  pub set_prev-ok :
      (s : Store A) (address prev : ℕ) {node : Node A}
      → s address ≡ some node
      → set_prev s address prev ≡ ok (write s address (some (record node { prev = prev })))
  unfolding set_prev
  set_prev-ok s address prev e = ground (arith, e)

  -- The cells before the node led to what is behind it.
  before_turned :
      (s : Store A) (begin pos next last end : ℕ) (xs ys : List (ℕ × A))
      → Segment s 0 begin xs pos last
      → Distinct xs
      → Apart xs ys
      → Linked s pos next ys end
      → (s' : Store A) × ((if last == 0 then ok s else set_next s last next) ≡ ok s')
        × Segment s' 0 (if last == 0 then next else begin) xs next last
        × Linked s' pos next ys end
  before_turned s begin pos next last end [] ys (segment_nil e f) d a l =
      let z : last == 0 ≡ true = ground (arith, f) in
      (s, ground (arith, z), segment_nil (ground (arith, z)) f, l)
  before_turned s begin pos next last end (x ∷ xs) ys k d a l =
      let (node, e, turned) = Segment-turn s next x xs k d in
      let z : last == 0 ≡ false = ground (arith, (Segment-nonzero s x xs k).1) in
      let n = set_next-ok s last next e in
      let b : begin ≡ (if last == 0 then next else begin) = ground (arith, z) in
      (
        write s last (some (record node { next = next })),
        ground (arith, z, n),
        subst
            (λ c.
              Segment (write s last (some (record node { next = next }))) 0 c (x ∷ xs) next last)
            b turned,
        write-Linked s last (some (record node { next = next })) l
            (Segment-last (λ c. Absent c ys) s x xs k a),
      )

  -- The cells behind the node led back to what is before it.
  after_turned :
      (s : Store A) (begin pos next last end : ℕ) (xs ys : List (ℕ × A))
      → Segment s 0 begin xs next last
      → Distinct ys
      → Absent pos ys
      → Apart xs ys
      → Linked s pos next ys end
      → (s' : Store A) × ((if next == 0 then ok s else set_prev s next last) ≡ ok s')
        × Segment s' 0 begin xs next last
        × Linked s' last next ys (if end == pos then last else end)
  after_turned s begin pos next last end xs [] k d a apart l =
      let (e, f) = nil-Linked s l in (s, ground (arith, e), k, linked_nil e (ground (arith, f)))
  after_turned s begin pos next last end xs (y ∷ ys) k d a apart l =
      let (node, e, at, z, turned) = Linked-turn s last y ys l d in
      let other : end ≢ pos = end-Absent s y ys pos l a in
      let n = set_prev-ok s next last e in
      let b : end ≡ (if end == pos then last else end) = ground (arith, other) in
      (
        write s next (some (record node { prev = last })),
        ground (arith, z, n),
        write-Segment s next (some (record node { prev = last })) k (first_absent xs apart at),
        subst (Linked (write s next (some (record node { prev = last }))) last next (y ∷ ys)) b
            turned,
      )
    where
      first_absent : (zs : List (ℕ × A)) → Apart zs (y ∷ ys) → next ≡ y.0 → Absent next zs
      first_absent [] h e = tt
      first_absent (x ∷ zs) h e = (λ q. h.0.0 (sym (q ∙ e)), first_absent zs h.1 e)

  pub first_of :
      (c : ℕ × A) (xs ys : List (ℕ × A)) → Apart xs (c ∷ ys) → Absent c.0 xs × Apart xs ys
  first_of c [] ys h = (tt, tt)
  first_of c (x ∷ xs) ys h =
      let r = first_of c xs ys h.1 in ((λ q. h.0.0 (sym q), r.0), (h.0.1, r.1))

  unlink-steps :
      (l : LinkedList A) (last address : ℕ) (node : Node A) {s s' : Store A}
      → (if last == 0 then ok l.nodes else set_next l.nodes last node.next) ≡ ok s
      → (if node.next == 0 then ok s else set_prev s node.next last) ≡ ok s'
      → unlink l last address node
        ≡ ok (record {
          nodes = write s' address none;
          begin = if last == 0 then node.next else l.begin;
          end = if l.end == address then last else l.end;
        })
  unfolding unlink
  unlink-steps l last address node x y = ground (arith, x, y)

  -- What a list has where it is cut at a cell.
  pub record At (l : LinkedList A) (xs : List (ℕ × A)) (c : ℕ × A) (ys : List (ℕ × A))
      : Type ℓ where
    pub node : Node A
    pub found : l.nodes c.0 ≡ some node
    pub item : node.item ≡ c.1
    pub here : c.0 ≢ 0
    pub before : Segment l.nodes 0 l.begin xs c.0 node.prev
    pub behind : Linked l.nodes c.0 node.next ys l.end

  nonzero :
      {s : Store A} {prev address end : ℕ} (c : ℕ × A) (cells : List (ℕ × A))
      → Linked s prev address (c ∷ cells) end
      → address ≢ 0
  nonzero c cells (linked_cons m e l) = m

  pub Holds-At :
      (l : LinkedList A) (xs : List (ℕ × A)) (c : ℕ × A) (ys : List (ℕ × A))
      → Holds l (xs ++ c ∷ ys)
      → At l xs c ys
  Holds-At l xs c ys h =
      let (behind, last, k, r) = Linked-cut l.nodes xs (c ∷ ys) h.linked in
      let (next, at, e, tail) = first-Linked l.nodes c ys r in
      record {
        node = record { item = c.1; next = next; prev = last };
        found = ap l.nodes (sym at) ∙ e;
        item = refl;
        here = λ z. nonzero c ys r (at ∙ z);
        before = subst (λ b. Segment l.nodes 0 l.begin xs b last) at k;
        behind = subst (λ b. Linked l.nodes b next ys l.end) at tail;
      }

  pub unlink-Holds :
      (l : LinkedList A) (xs : List (ℕ × A)) (c : ℕ × A) (ys : List (ℕ × A)) (at : At l xs c ys)
      → Distinct (xs ++ c ∷ ys)
      → (l' : LinkedList A) × (unlink l at.node.prev c.0 at.node ≡ ok l') × Holds l' (xs ++ ys)
  unlink-Holds l xs c ys at d =
      let (dx, dcy, apart) = Distinct-both xs (c ∷ ys) d in
      let (absent, apart') = first_of c xs ys apart in
      let last = at.node.prev in
      let next = at.node.next in
      let (s1, x1, k1, r1) =
        before_turned l.nodes l.begin c.0 next last l.end xs ys at.before dx apart' at.behind in
      let (s2, x2, k2, r2) =
        after_turned s1 (if last == 0 then next else l.begin) c.0 next last l.end xs ys k1 dcy.1
          dcy.0 apart' r1 in
      (
        record {
          nodes = write s2 c.0 none;
          begin = if last == 0 then next else l.begin;
          end = if l.end == c.0 then last else l.end;
        },
        unlink-steps l last c.0 at.node x1 x2,
        record {
          linked =
              Segment-join (write s2 c.0 none) ys (write-Segment s2 c.0 none k2 absent)
                (write-Linked s2 c.0 none r2 dcy.0);
          distinct = Distinct-append xs ys dx dcy.1 apart';
        },
      )
