-- ===== src/Heap/Carve.antt =====
-- The end of `alloc` and `allocAligned`: a block is cut from the front of a hole.
use akari.Prelude.{
  ℕ, ◌+◌, ◌≤◌, ◌<◌, ◌≡◌, sym, subst, ◌∙◌, inl, inr, false, List, [], ◌∷◌, arith, ltb, add32, sub32,
  u32_mod, if◌then◌else◌, Bool-cases, ok, Pick,
}
use akari.OrderedArray
use akari.OrderedArray.{OrderedArray}
use akari.OrderedArray.Contents.{items, IsValid}
use akari.OrderedArray.Refines.{insert-Inserted}
use akari.OrderedArray.Order.{insert_item-Pick}
use akari.Heap.{Entry, entry, Heap, carve}
use akari.Heap.Tiles.{Chain, Picks, none_left, picked, Picks-append, Positive}

-- What becomes of a hole that gives `n` bytes: a block, and the rest of the hole if there is any.
abbrev pub carved : Entry → ℕ → List Entry
carved hole n =
    if ltb n hole.size
    then entry hole.start n false
      ∷ record hole { size = sub32 hole.size n; start = add32 hole.start n }
      ∷ []
    else entry hole.start n false ∷ []

pub carved-Chain :
    (hole : Entry) (n : ℕ)
    → n ≤ hole.size
    → hole.start + hole.size < u32_mod
    → Chain hole.start (hole.start + hole.size) (carved hole n)
carved-Chain hole n h w = ground arith

pub carved-Positive :
    (hole : Entry) (n : ℕ)
    → 0 < n
    → n ≤ hole.size
    → hole.start + hole.size < u32_mod
    → Positive (carved hole n)
carved-Positive hole n p h w = ground arith

-- An index that gained the entries `es` over those of `a`.
pub record Gains (a : OrderedArray Entry) (es : List Entry) (a' : OrderedArray Entry) : Type 0 where
  pub valid : IsValid a'
  pub contents : Picks es (items a') (items a)
  pub size : a.size ≤ a'.size
  pub max_size : a'.max_size ≡ a.max_size

pub insert-Gains :
    (a : OrderedArray Entry) (e : Entry)
    → IsValid a
    → a.size < a.max_size
    → (a' : OrderedArray Entry) × (OrderedArray.insert a e ≡ ok a')
      × Gains a (e ∷ []) a'
      × (a'.size ≡ a.size + 1)
insert-Gains a e v r =
    let (a', s, i) = insert-Inserted a e v r in
    (
      a',
      s,
      record {
        valid = i.valid;
        contents =
            picked
              (subst (λ l. Pick e l (items a)) (sym i.contents)
                (insert_item-Pick a.less_than e (items a)))
              none_left;
        size = omega arith;
        max_size = i.max_size;
      },
      i.size,
    )

pub carve-Gains :
    (h : Heap) (a : OrderedArray Entry) (hole : Entry) (n : ℕ)
    → IsValid a
    → a.size + 1 < a.max_size
    → (a' : OrderedArray Entry) × (carve h a hole n
        ≡ ok (hole.start, record h { index = a'; used = add32 h.used n }))
      × Gains a (carved hole n) a'
unfolding carve
carve-Gains h a hole n v r = elim (Bool-cases (ltb n hole.size)) [
  | inl less ↦
      let rest = record hole { size = sub32 hole.size n; start = add32 hole.start n } in
      let (b, s, g, m) = insert-Gains a rest v (omega arith) in
      let (c, t, k, _) =
        insert-Gains b (entry hole.start n false) g.valid (omega (arith, m, g.max_size)) in
      rw less (
        c,
        ground (arith, s, t),
        record {
          valid = k.valid;
          contents = Picks-append k.contents g.contents;
          size = omega (arith, k.size, g.size);
          max_size = k.max_size ∙ g.max_size;
        },
      )
  | inr exact ↦
      let (c, t, k, _) = insert-Gains a (entry hole.start n false) v (omega arith) in
      rw exact (c, ground (arith, t), k)
]
