-- ===== src/Heap/Aligned.antt =====
-- `allocAligned`: the block begins at a page boundary, and the hole keeps what lies before it.
use mathlib.Core.List.{append-nil}
use mathlib.Core.Path.{ap₂}
use akari.Prelude.{
  ℕ, ◌+◌, ◌-◌, ◌%◌, ◌^◌, ◌≤◌, ◌<◌, ◌≡◌, ◌≢◌, refl, sym, subst, ◌∙◌, true, List, [], ◌∷◌, ◌++◌,
  if◌then◌else◌, ◌==◌, arith, add32, u32_mod, inl, inr, Bool-cases, ok, Pick, here, there, All-Pick,
}
use akari.OrderedArray.{OrderedArray}
use akari.OrderedArray.Contents.{items, IsValid}
use akari.Heap.{
  Entry, Heap, is_aligned_fit, to_page, next_page, smallest_aligned_hole, carve_aligned,
  alloc_aligned,
}
use akari.Heap.Tiles.{
  Tiles, Chain, Picks, none_left, picked, Picks-split, Picks-none, Picks-one, Picks-All,
  Picks-append, Positive, Tiles-bounds, Tiles-replace,
}
use akari.Heap.Search.{first_index-Finds, Finds-some}
use akari.Heap.Invariant.{IsHeap}
use akari.Heap.Carve.{carved, carved-Chain, Gains, insert-Gains, carve-Gains}
use akari.Heap.Alloc.{take_hole}

-- The hole from its first page boundary on.
unfoldable pub aligned_part : Entry → Entry
aligned_part hole = record hole {
  start = hole.start + to_page hole.start;
  size = hole.size - to_page hole.start;
}

-- What lies before that boundary: nothing, or a hole.
unfoldable pub waste : Entry → List Entry
waste hole = if hole.start % 0x1000 == 0 then [] else record hole { size = to_page hole.start } ∷ []

pub record AllocatedAligned (h : Heap) (n : ℕ) (address : ℕ) (h' : Heap) : Type 0 where
  pub hole : Entry
  pub others : List Entry
  pub from : Pick hole (items h.index) others
  pub is_hole : hole.is_hole ≡ true
  pub fits : to_page hole.start + n ≤ hole.size
  pub at_boundary : address ≡ hole.start + to_page hole.start
  pub entries : Picks (carved (aligned_part hole) n ++ waste hole) (items h'.index) others
  pub used : h'.used ≡ add32 h.used n

-- The signed test is the right one while sizes stay below 2 ^ 31.
is_aligned_fit-fits :
    (n : ℕ) (e : Entry)
    → n < 2 ^ 31
    → e.size < 2 ^ 31
    → is_aligned_fit n e ≡ true
    → (e.is_hole ≡ true) × (to_page e.start + n ≤ e.size)
is_aligned_fit-fits n e h k t = ground arith

next_page_lem : (x : ℕ) → x % 0x1000 ≢ 0 → x + to_page x < u32_mod → next_page x ≡ x + to_page x
unfolding next_page
next_page_lem x h k = ground arith

to_page_aligns : (x : ℕ) → (x + to_page x) % 0x1000 ≡ 0
to_page_aligns x = ground arith

carve_aligned-Gains :
    (h : Heap) (a : OrderedArray Entry) (hole : Entry) (n : ℕ)
    → IsValid a
    → a.size + 2 < a.max_size
    → to_page hole.start + n ≤ hole.size
    → hole.start + hole.size < u32_mod
    → (a' : OrderedArray Entry) × (carve_aligned h a hole n
        ≡ ok (hole.start + to_page hole.start, record h { index = a'; used = add32 h.used n }))
      × Gains a (carved (aligned_part hole) n ++ waste hole) a'
unfolding carve_aligned aligned_part waste
carve_aligned-Gains h a hole n v r f w = elim (Bool-cases (hole.start % 0x1000 == 0)) [
  | inl even ↦
      let (a', s, g) = carve-Gains h a hole n v (omega arith) in
      let whole : aligned_part hole ≡ hole = ground arith in
      let none_left : waste hole ≡ [] = ground arith in
      (
        a',
        ground (arith, s),
        subst (λ es. Gains a es a')
            (sym (append-nil (carved hole n))
              ∙ ap₂ (λ x y. carved x n ++ y) (sym whole) (sym none_left))
            g,
      )
  | inr odd ↦
      let left_over = record hole { size = to_page hole.start } in
      let (b, s, g, m) = insert-Gains a left_over v (omega arith) in
      let (c, t, k) =
        carve-Gains h b (aligned_part hole) n g.valid (ground (arith, m, g.max_size)) in
      let one_left : waste hole ≡ left_over ∷ [] = ground arith in
      (
        c,
        ground (arith, s, t, next_page_lem hole.start),
        subst (λ es. Gains a (carved (aligned_part hole) n ++ es) c) (sym one_left)
            (record {
              valid = k.valid;
              contents = Picks-append k.contents g.contents;
              size = omega (arith, k.size, g.size);
              max_size = k.max_size ∙ g.max_size;
            }),
      )
]

-- The block, what follows it in the hole and what lies before it tile the hole's interval.
aligned-Tiles :
    {lo hi : ℕ} (hole : Entry) (n : ℕ) {xs rest ys : List Entry}
    → Tiles lo hi xs
    → Pick hole xs rest
    → Picks (carved (aligned_part hole) n ++ waste hole) ys rest
    → to_page hole.start + n ≤ hole.size
    → hole.start + hole.size < u32_mod
    → Tiles lo hi ys
unfolding aligned_part waste
aligned-Tiles hole n {rest = rest} {ys} t p q f w =
    let (mid, front, back) = Picks-split (carved (aligned_part hole) n) q in
    let chain = carved-Chain (aligned_part hole) n (omega arith) (ground arith) in
    elim (Bool-cases (hole.start % 0x1000 == 0)) [
      | inl even ↦
          let whole : aligned_part hole ≡ hole = ground arith in
          let none_left : waste hole ≡ [] = ground arith in
          Tiles-replace t p
            (subst (Picks (carved (aligned_part hole) n) ys)
              (Picks-none (subst (λ es. Picks es mid rest) none_left back)) front)
            (subst (λ z. Chain z.start (z.start + z.size) (carved (aligned_part hole) n)) whole
              chain)
      | inr odd ↦
          let left_over = record hole { size = to_page hole.start } in
          let one_left : waste hole ≡ left_over ∷ [] = ground arith in
          let before = Picks-one (subst (λ es. Picks es mid rest) one_left back) in
          let parts : Chain hole.start (hole.start + hole.size)
              (left_over ∷ aligned_part hole ∷ []) =
            omega arith in
          Tiles-replace
            (Tiles-replace t p
              (picked (there {y = aligned_part hole} before) (picked here none_left)) parts)
            here front chain
    ]

aligned-Positive :
    (hole : Entry) (n : ℕ)
    → 0 < n
    → to_page hole.start + n ≤ hole.size
    → hole.start + hole.size < u32_mod
    → Positive (carved (aligned_part hole) n ++ waste hole)
unfolding aligned_part waste
aligned-Positive hole n p f w = ground arith

-- On a valid heap below 2 ^ 31 with room in its index, if some hole has `n` bytes from its first page
-- boundary on, `allocAligned` returns a block at such a boundary, keeps what lies before it in the
-- hole as a hole, leaves every other entry as it was, and keeps the invariant.
pub alloc_aligned-Allocated :
    (h : Heap) (lo n : ℕ) (e : Entry) (rest : List Entry)
    → IsHeap lo h
    → h.end < 2 ^ 31
    → h.index.size + 1 < h.index.max_size
    → 0 < n
    → n < 2 ^ 31
    → Pick e (items h.index) rest
    → is_aligned_fit n e ≡ true
    → (address : ℕ) × (h' : Heap) × (alloc_aligned h n ≡ ok (address, h'))
      × (address % 0x1000 ≡ 0)
      × IsHeap lo h'
      × AllocatedAligned h n address h'
unfolding alloc_aligned smallest_aligned_hole
alloc_aligned-Allocated h lo n e rest v small room pos less p fit =
    let (r, s, f) =
      first_index-Finds (is_aligned_fit n) h.index 0 h.index.size v.valid (omega arith) in
    let (it, hole, u, g, t) = Finds-some f p fit in
    let k = take_hole h.index it hole v.valid (omega arith) g in
    let bounds = Tiles-bounds v.tiles k.contents in
    let (is_hole, fits) = is_aligned_fit-fits n hole less (omega arith) t in
    let w : hole.start + hole.size < u32_mod = omega (arith, v.word) in
    let (a', c, gains) =
      carve_aligned-Gains h k.index hole n k.valid (omega (arith, k.size, k.max_size)) fits w in
    (
      hole.start + to_page hole.start,
      record h { index = a'; used = add32 h.used n },
      ground (arith, s, u, k.got, k.removed, c),
      to_page_aligns hole.start,
      record {
        valid = gains.valid;
        tiles = aligned-Tiles hole n v.tiles k.contents gains.contents fits w;
        positive =
            Picks-All _ gains.contents (aligned-Positive hole n pos fits w)
              (All-Pick _ k.contents v.positive).1;
        word = v.word;
      },
      record {
        hole = hole;
        others = items k.index;
        from = k.contents;
        is_hole = is_hole;
        fits = fits;
        at_boundary = refl;
        entries = gains.contents;
        used = refl;
      },
    )
