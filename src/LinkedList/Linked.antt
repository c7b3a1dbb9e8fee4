-- ===== src/LinkedList/Linked.antt =====
-- The cells of a list in the store, in both directions.
use akari.Prelude.{ℕ, ◌≡◌, ◌≢◌, refl, sym, ◌∙◌, List, [], ◌∷◌, Option, some, arith, All}
use akari.LinkedList.{Node, Store, LinkedList, write}

-- From an address on, after a node, the store has cells with these addresses and items, up to a last node.
pub data Linked {ℓ} {A : Type ℓ} (s : Store A) : ℕ → ℕ → List (ℕ × A) → ℕ → Type ℓ where
  linked_nil : {prev address end : ℕ} → address ≡ 0 → end ≡ prev → Linked s prev address [] end
  linked_cons :
      {prev address next end : ℕ} {item : A} {cells : List (ℕ × A)}
      → address ≢ 0
      → s address ≡ some (record { item = item; next = next; prev = prev })
      → Linked s address next cells end
      → Linked s prev address ((address, item) ∷ cells) end

module _ {ℓ} {A : Type ℓ} where
  -- An address that no cell has, and cells with addresses of their own.
  abbrev pub Absent : ℕ → List (ℕ × A) → Type 0
  Absent d = All (λ c. c.0 ≢ d)

  abbrev pub Distinct : List (ℕ × A) → Type 0
  Distinct [] = Unit
  Distinct (c ∷ cells) = Absent c.0 cells × Distinct cells

  -- A list holds cells.
  pub record Holds (l : LinkedList A) (cells : List (ℕ × A)) : Type ℓ where
    pub linked : Linked l.nodes 0 l.begin cells l.end
    pub distinct : Distinct cells

  pub write-same : (s : Store A) (d : ℕ) (n : Option (Node A)) → write s d n d ≡ n
  unfolding write
  write-same s d n = ground arith

  pub write-other : (s : Store A) (d b : ℕ) (n : Option (Node A)) → b ≢ d → write s d n b ≡ s b
  unfolding write
  write-other s d b n m = ground (arith, m)

  -- A write elsewhere.
  pub write-Linked :
      (s : Store A) (d : ℕ) (n : Option (Node A)) {prev address end : ℕ} {cells : List (ℕ × A)}
      → Linked s prev address cells end
      → Absent d cells
      → Linked (write s d n) prev address cells end
  write-Linked s d n (linked_nil e f) h = linked_nil e f
  write-Linked s d n (linked_cons {address = b} m e l) h =
      linked_cons m (write-other s d b n h.0 ∙ e) (write-Linked s d n l h.1)

  -- The last node is one of the cells.
  pub end-Absent :
      (s : Store A) {prev address end : ℕ} (c : ℕ × A) (cells : List (ℕ × A)) (d : ℕ)
      → Linked s prev address (c ∷ cells) end
      → Absent d (c ∷ cells)
      → end ≢ d
  end-Absent s c [] d (linked_cons m e (linked_nil f g)) h = λ p. h.0 (sym g ∙ p)
  end-Absent s c (c' ∷ cells) d (linked_cons m e l) h = end-Absent s c' cells d l h.1

  -- What a list with a first cell, or with none, has in the store.
  pub first-Linked :
      (s : Store A) {prev address end : ℕ} (c : ℕ × A) (cells : List (ℕ × A))
      → Linked s prev address (c ∷ cells) end
      → (next : ℕ) × (address ≡ c.0)
        × (s address ≡ some (record { item = c.1; next = next; prev = prev }))
        × Linked s address next cells end
  first-Linked s c cells (linked_cons {next = next} m e l) = (next, refl, e, l)

  pub nil-Linked :
      (s : Store A) {prev address end : ℕ}
      → Linked s prev address [] end
      → (address ≡ 0) × (end ≡ prev)
  nil-Linked s (linked_nil e f) = (e, f)
