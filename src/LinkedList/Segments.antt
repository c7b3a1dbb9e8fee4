-- ===== src/LinkedList/Segments.antt =====
-- A list cut in two, and the ends at the cut.
use akari.Prelude.{ℕ, ◌≡◌, ◌≢◌, refl, ap, subst, sym, ◌∙◌, List, [], ◌∷◌, ◌++◌, Option, some, All}
use akari.LinkedList.{Node, Store, write}
use akari.LinkedList.Linked.{
  Linked, linked_cons, Absent, Distinct, write-same, write-other, write-Linked,
}

-- Cells from an address on, whose last, at `last`, leads to the address `behind`.
pub data Segment {ℓ} {A : Type ℓ} (s : Store A) : ℕ → ℕ → List (ℕ × A) → ℕ → ℕ → Type ℓ where
  segment_nil :
      {prev address behind last : ℕ}
      → address ≡ behind
      → prev ≡ last
      → Segment s prev address [] behind last
  segment_cons :
      {prev address next behind last : ℕ} {item : A} {cells : List (ℕ × A)}
      → address ≢ 0
      → s address ≡ some (record { item = item; next = next; prev = prev })
      → Segment s address next cells behind last
      → Segment s prev address ((address, item) ∷ cells) behind last

module _ {ℓ} {A : Type ℓ} where
  -- No address of one list is in another.
  abbrev pub Apart : List (ℕ × A) → List (ℕ × A) → Type 0
  Apart xs ys = All (λ x. Absent x.0 ys) xs

  pub Absent-both : (d : ℕ) (xs ys : List (ℕ × A)) → Absent d (xs ++ ys) → Absent d xs × Absent d ys
  Absent-both d [] ys h = (tt, h)
  Absent-both d (x ∷ xs) ys h = let r = Absent-both d xs ys h.1 in ((h.0, r.0), r.1)

  Absent-append : (d : ℕ) (xs ys : List (ℕ × A)) → Absent d xs → Absent d ys → Absent d (xs ++ ys)
  Absent-append d [] ys h k = k
  Absent-append d (x ∷ xs) ys h k = (h.0, Absent-append d xs ys h.1 k)

  pub Distinct-both :
      (xs ys : List (ℕ × A)) → Distinct (xs ++ ys) → Distinct xs × Distinct ys × Apart xs ys
  Distinct-both [] ys h = (tt, h, tt)
  Distinct-both (x ∷ xs) ys h =
      let (a, b, c) = Distinct-both xs ys h.1 in
      let r = Absent-both x.0 xs ys h.0 in ((r.0, a), b, (r.1, c))

  pub Distinct-append :
      (xs ys : List (ℕ × A)) → Distinct xs → Distinct ys → Apart xs ys → Distinct (xs ++ ys)
  Distinct-append [] ys a b c = b
  Distinct-append (x ∷ xs) ys a b c =
      (Absent-append x.0 xs ys a.0 c.0, Distinct-append xs ys a.1 b c.1)

  pub Linked-cut :
      (s : Store A) {prev address end : ℕ} (xs ys : List (ℕ × A))
      → Linked s prev address (xs ++ ys) end
      → (behind : ℕ) × (last : ℕ) × Segment s prev address xs behind last
        × Linked s last behind ys end
  Linked-cut s {prev} {address} [] ys l = (address, prev, segment_nil refl refl, l)
  Linked-cut s (x ∷ xs) ys (linked_cons m e l) =
      let (behind, last, k, r) = Linked-cut s xs ys l in (behind, last, segment_cons m e k, r)

  pub Segment-join :
      (s : Store A) {prev address behind last end : ℕ} {xs : List (ℕ × A)} (ys : List (ℕ × A))
      → Segment s prev address xs behind last
      → Linked s last behind ys end
      → Linked s prev address (xs ++ ys) end
  Segment-join s {prev} {behind = behind} {end = end} ys (segment_nil e f) l =
      subst (λ a. Linked s prev a ys end) (sym e) (subst (λ p. Linked s p behind ys end) (sym f) l)
  Segment-join s ys (segment_cons m e k) l = linked_cons m e (Segment-join s ys k l)

  pub write-Segment :
      (s : Store A) (d : ℕ) (n : Option (Node A)) {prev address behind last : ℕ}
      {cells : List (ℕ × A)}
      → Segment s prev address cells behind last
      → Absent d cells
      → Segment (write s d n) prev address cells behind last
  write-Segment s d n (segment_nil e f) h = segment_nil e f
  write-Segment s d n (segment_cons {address = b} m e k) h =
      segment_cons m (write-other s d b n h.0 ∙ e) (write-Segment s d n k h.1)

  -- What holds of the addresses of all cells holds of the last.
  pub Segment-last :
      (P : ℕ → Type 0) (s : Store A) {prev address behind last : ℕ} (x : ℕ × A) (xs : List (ℕ × A))
      → Segment s prev address (x ∷ xs) behind last
      → All (λ c. P c.0) (x ∷ xs)
      → P last
  Segment-last P s x [] (segment_cons m e (segment_nil f g)) h = subst P g h.0
  Segment-last P s x (y ∷ ys) (segment_cons m e k) h = Segment-last P s y ys k h.1

  pub Segment-nonzero :
      (s : Store A) {prev address behind last : ℕ} (x : ℕ × A) (xs : List (ℕ × A))
      → Segment s prev address (x ∷ xs) behind last
      → (address ≢ 0) × (last ≢ 0)
  Segment-nonzero s x [] (segment_cons m e (segment_nil f g)) = (m, λ q. m (g ∙ q))
  Segment-nonzero s x (y ∷ ys) (segment_cons m e k) = (m, (Segment-nonzero s y ys k).1)

  -- The last cell led to another address.
  pub Segment-turn :
      (s : Store A) (to : ℕ) {prev address behind last : ℕ} (x : ℕ × A) (xs : List (ℕ × A))
      → Segment s prev address (x ∷ xs) behind last
      → Distinct (x ∷ xs)
      → (node : Node A) × (s last ≡ some node)
        × Segment (write s last (some (record node { next = to }))) prev address (x ∷ xs) to last
  Segment-turn s to {prev} {address} (b, y) [] (segment_cons m e (segment_nil f g)) d =
      let node : Node A = record { item = y; next = _; prev = prev } in
      (
        node,
        ap s (sym g) ∙ e,
        segment_cons m
            (ap (write s _ (some (record node { next = to }))) g
              ∙ write-same s _ (some (record node { next = to })))
            (segment_nil refl g),
      )
  Segment-turn s to {prev} {address} (b, y) (c ∷ cells) (segment_cons m e k) d =
      let (node, x, t) = Segment-turn s to c cells k d.1 in
      let apart = Segment-last (λ a. a ≢ address) s c cells k d.0 in
      (
        node,
        x,
        segment_cons m
            (write-other s _ address (some (record node { next = to })) (λ q. apart (sym q)) ∙ e) t,
      )

  -- The first cell led back to another address.
  pub Linked-turn :
      (s : Store A) (to : ℕ) {prev address end : ℕ} (y : ℕ × A) (ys : List (ℕ × A))
      → Linked s prev address (y ∷ ys) end
      → Distinct (y ∷ ys)
      → (node : Node A) × (s address ≡ some node)
        × (address ≡ y.0)
        × (address ≢ 0)
        × Linked (write s address (some (record node { prev = to }))) to address (y ∷ ys) end
  Linked-turn s to {prev} {address} (b, y) ys (linked_cons {next = next} m e l) d =
      let node : Node A = record { item = y; next = next; prev = prev } in
      (
        node,
        e,
        refl,
        m,
        linked_cons m (write-same s address (some (record node { prev = to })))
            (write-Linked s address (some (record node { prev = to })) l d.0),
      )
