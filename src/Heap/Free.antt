-- ===== src/Heap/Free.antt =====
-- `free`: the block becomes a hole, joined with the holes before and after it.
use akari.Prelude.{
  ℕ, ◌<◌, ◌≡◌, ◌≢◌, refl, sym, ap, subst, ◌∙◌, true, false, List, some, arith, get_elem?,
  get_elem?-bound, get_elem?-set_self, add32, u32_mod, ok, Pick, same, apart, Pick-Diamond, All,
  All-Pick, Pick-All, ◌==◌,
}
use akari.OrderedArray
use akari.OrderedArray.{OrderedArray}
use akari.OrderedArray.Contents.{items, IsValid, remove_at}
use akari.OrderedArray.Access.{get-items, put-Written, length-items}
use akari.OrderedArray.Order.{remove_at-Pick, set-Pick}
use akari.Heap.{
  Entry, Heap, index_of_entry_starting, index_of_entry_ending, free_entry, free_found, free,
}
use akari.Heap.Tiles.{none_left, picked, Tiles-Disjoint, Tiles-replace}
use akari.Heap.Search.{first_index-Finds, Finds-some}
use akari.Heap.Invariant.{IsHeap, IsIndex, IsHeap-IsIndex, HasRoom}
use akari.Heap.Alloc.{no_fit}
use akari.Heap.Blocks.{among, other}
use akari.Heap.Join.{is_hole_at-HoleFound, free_before-Stage, free_after-IsIndex}

-- The blocks of `ys` are those of `xs` but the one at `p`.
pub record FreedBlocks (p : ℕ) (xs ys : List Entry) : Type 0 where
  pub kept :
      (d : Entry) (rest : List Entry)
      → d.is_hole ≡ false
      → d.start ≢ p
      → Pick d xs rest
      → (rest' : List Entry) × Pick d ys rest'
  pub none_new :
      (d : Entry) (rest : List Entry)
      → d.is_hole ≡ false
      → Pick d ys rest
      → (d.start ≢ p) × (rest' : List Entry) × Pick d xs rest'

-- The entry at `i` is marked as a hole.
record Marked (lo hi : ℕ) (a : OrderedArray Entry) (i : ℕ) (e : Entry) : Type 0 where
  index : OrderedArray Entry
  put : OrderedArray.put a i (record e { is_hole = true }) ≡ ok index
  tiled : IsIndex lo hi index
  at : get_elem? (items index) i ≡ some (record e { is_hole = true })
  blocks : FreedBlocks e.start (items a) (items index)
  size : index.size ≡ a.size
  max_size : index.max_size ≡ a.max_size

mark-Marked :
    (lo hi : ℕ) (a : OrderedArray Entry) (i : ℕ) (e : Entry)
    → IsIndex lo hi a
    → get_elem? (items a) i ≡ some e
    → Marked lo hi a i e
mark-Marked lo hi a i e v g =
    let f = record e { is_hole = true } in
    let inside = get_elem?-bound (items a) i g in
    let (a', s, w) = put-Written a i f v.valid (omega (arith, length-items a v.valid)) in
    let old = remove_at-Pick i (items a) g in
    let new =
      subst (λ l. Pick f l (remove_at i (items a))) (sym w.contents) (set-Pick i (items a) f g) in
    let pos = All-Pick _ old v.positive in
    let tiles = Tiles-replace v.tiles old (picked new none_left) (refl, refl) in
    record {
      index = a';
      put = s;
      tiled = record { valid = w.valid; tiles = tiles; positive = Pick-All _ new pos.0 pos.1 };
      at = ap (λ l. get_elem? l i) w.contents ∙ get_elem?-set_self (items a) i f inside;
      blocks = record {
        kept = λ d rest h n p. elim (Pick-Diamond old p) [
          | same u _ ↦ absurd (n (ap (λ (z : Entry). z.start) (sym u)))
          | apart r _ ↦ among new r
        ];
        none_new = λ d rest h p.
            let (_, q) = other p new h refl in
            let pd = All-Pick _ q pos.1 in
            let (rest', r) = among old q in
            (λ same_start. omega (arith, Tiles-Disjoint tiles new q, pos.0, pd.0), rest', r);
      };
      size = w.size;
      max_size = w.max_size;
    }

free_entry-IsIndex :
    (lo hi : ℕ) (a : OrderedArray Entry) (i : ℕ) (e : Entry)
    → IsIndex lo hi a
    → hi < u32_mod
    → a.size < a.max_size
    → get_elem? (items a) i ≡ some e
    → (a' : OrderedArray Entry) × (free_entry a e.start i ≡ ok a')
      × IsIndex lo hi a'
      × FreedBlocks e.start (items a) (items a')
unfolding free_entry index_of_entry_ending index_of_entry_starting
free_entry-IsIndex lo hi a i e v w room g =
    let m = mark-Marked lo hi a i e v g in
    let (r, s, k) =
      first_index-Finds (λ x. add32 x.start x.size == e.start) m.index 0 m.index.size m.tiled.valid
        (omega arith) in
    let (o, t, hb) = is_hole_at-HoleFound m.index k in
    let (b, j, u, st) =
      free_before-Stage lo hi m.index i (record e { is_hole = true }) m.tiled w
        (omega (arith, m.size, m.max_size)) m.at refl hb in
    let (r', s', k') =
      first_index-Finds (λ x. x.start == add32 st.joined.start st.joined.size) b 0 b.size
        st.tiled.valid (omega arith) in
    let (o', t', ha) = is_hole_at-HoleFound b k' in
    let (c, u', v', blocks) =
      free_after-IsIndex lo hi b j st.joined st.tiled w
        (omega (arith, m.size, m.max_size, st.size, st.max_size)) st.at st.is_hole ha in
    (
      c,
      ground (arith, get-items a i g, m.put, s, t, u, get-items b j st.at, s', t', u'),
      v',
      record {
        kept = λ d rest h n p.
            let (_, p1) = m.blocks.kept d rest h n p in
            let (_, p2) = st.blocks.kept d _ h p1 in blocks.kept d _ h p2;
        none_new = λ d rest h p.
            let (_, p1) = blocks.none_new d rest h p in
            let (_, p2) = st.blocks.none_new d _ h p1 in m.blocks.none_new d _ h p2;
      },
    )

-- On a valid heap with room in its index, if an entry begins at `p`, `free` returns true and keeps
-- the invariant. The blocks that are left are those that began elsewhere. Nothing but the index
-- changes, so `_used` stays as it was.
pub free-IsHeap :
    (h : Heap) (lo p : ℕ) (e : Entry) (rest : List Entry)
    → IsHeap lo h
    → HasRoom h
    → Pick e (items h.index) rest
    → e.start ≡ p
    → (index : OrderedArray Entry) × (free h p ≡ ok (true, record h { index = index }))
      × IsHeap lo (record h { index = index })
      × FreedBlocks p (items h.index) (items index)
unfolding free free_found index_of_entry_starting
free-IsHeap h lo p e rest v room q n =
    let (r, s, f) =
      first_index-Finds (λ x. x.start == p) h.index 0 h.index.size v.valid (omega arith) in
    let (i, x, u, g, t) = Finds-some f q (ground arith) in
    let at_p : x.start ≡ p = ground arith in
    let (a, k, w, b) = free_entry-IsIndex lo h.end h.index i x (IsHeap-IsIndex v) v.word room g in
    (
      a,
      ground (arith, s, u, k, at_p),
      record { valid = w.valid; tiles = w.tiles; positive = w.positive; word = v.word },
      subst (λ z. FreedBlocks z (items h.index) (items a)) at_p b,
    )

-- If no entry begins at `p`, `free` returns false and changes nothing.
pub free_missing :
    (h : Heap) (p : ℕ)
    → IsValid h.index
    → All (λ e. (e.start == p) ≡ false) (items h.index)
    → free h p ≡ ok (false, h)
unfolding free free_found index_of_entry_starting
free_missing h p v a =
    let (r, s, f) = first_index-Finds (λ x. x.start == p) h.index 0 h.index.size v (omega arith) in
    ground (arith, s, no_fit f a)
