-- ===== src/Heap/Join.antt =====
-- The two joins of `free`: a new hole with the holes before and after it.
use akari.Prelude.{
  ℕ, ◌+◌, ◌≤◌, ◌<◌, ◌≡◌, refl, ap, ◌∙◌, Bool, true, Option, List, none, some, arith, get_elem?,
  add32, u32_mod, inl, inr, Bool-cases, ok, Pick, same, apart, Pick-Diamond, All-Pick, ◌==◌,
}
use akari.OrderedArray.{OrderedArray}
use akari.OrderedArray.Contents.{items}
use akari.OrderedArray.Access.{get-items}
use akari.OrderedArray.Order.{remove_at-Pick}
use akari.Heap.{
  Entry, index_of_entry_ending, is_hole_at, free_before, free_after, merge_before, merge_after,
}
use akari.Heap.Tiles.{Tiles, Positive, Tiles-bounds, Tiles-Disjoint}
use akari.Heap.Search.{Finds, missing, found, first_index-Finds, Finds-some}
use akari.Heap.Invariant.{IsIndex}
use akari.Heap.Merge.{merge-Merges}
use akari.Heap.Blocks.{SameBlocks, SameBlocks-refl, Fused-SameBlocks}

-- A search for an entry, kept if it is a hole.
pub data HoleFound (test : Entry → Bool) (xs : List Entry) : Option ℕ → Type 0 where
  no_hole : HoleFound test xs none
  hole_at :
      (i : ℕ) (e : Entry)
      → get_elem? xs i ≡ some e
      → test e ≡ true
      → e.is_hole ≡ true
      → HoleFound test xs (some i)

pub is_hole_at-HoleFound :
    {test : Entry → Bool} (a : OrderedArray Entry) {r : Option ℕ}
    → Finds test (items a) 0 r
    → (o : Option ℕ) × (is_hole_at a r ≡ ok o) × HoleFound test (items a) o
unfolding is_hole_at
is_hole_at-HoleFound a (missing h) = (none, refl, no_hole)
is_hole_at-HoleFound a (found i e _ g t _) = elim (Bool-cases e.is_hole) [
  | inl hole ↦ (some i, ground (arith, get-items a i g), hole_at i e g t hole)
  | inr block ↦ (none, ground (arith, get-items a i g), no_hole)
]

-- The index `a'` came of `a` by joining holes, and the entry at `i` is one.
pub record Stage (lo hi : ℕ) (a a' : OrderedArray Entry) (i : ℕ) : Type 0 where
  pub tiled : IsIndex lo hi a'
  pub joined : Entry
  pub at : get_elem? (items a') i ≡ some joined
  pub is_hole : joined.is_hole ≡ true
  pub blocks : SameBlocks (items a) (items a')
  pub size : a'.size ≤ a.size
  pub max_size : a'.max_size ≡ a.max_size

-- Entries that are not empty and end at the same address are the same.
ends_eq :
    {lo hi : ℕ} {d e : Entry} {xs ys zs : List Entry}
    → Tiles lo hi xs
    → Positive xs
    → Pick d xs ys
    → Pick e xs zs
    → d.start + d.size ≡ e.start + e.size
    → d ≡ e
ends_eq t v p q h = elim (Pick-Diamond p q) [
  | same u _ ↦ u
  | apart r _ ↦
      let pd = All-Pick _ p v in
      let pe = All-Pick _ q v in absurd (omega (arith, Tiles-Disjoint t p r, pd.0, pe.0))
]

merge_before-Stage :
    (lo hi : ℕ) (a : OrderedArray Entry) (i b : ℕ) (f g : Entry)
    → IsIndex lo hi a
    → hi < u32_mod
    → a.size < a.max_size
    → get_elem? (items a) i ≡ some f
    → f.is_hole ≡ true
    → get_elem? (items a) b ≡ some g
    → g.is_hole ≡ true
    → f.start ≡ g.start + g.size
    → (a' : OrderedArray Entry) × (i' : ℕ) × (merge_before a i b ≡ ok (a', i'))
      × Stage lo hi a a' i'
unfolding merge_before index_of_entry_ending
merge_before-Stage lo hi a i b f g v w room p hf q hg next =
    let m = merge-Merges lo hi a b i g f v w room q p next in
    let c = record g { size = add32 g.size f.size } in
    let new_end = add32 (add32 g.size f.size) g.start in
    let (r, s, k) =
      first_index-Finds (λ e. add32 e.start e.size == new_end) m.index 0 m.index.size m.tiled.valid
        (omega arith) in
    let (i', x, u, y, t) = Finds-some k m.entries.result (ground arith) in
    let px = remove_at-Pick i' (items m.index) y in
    let bx = Tiles-bounds m.tiled.tiles px in
    let bc = Tiles-bounds m.tiled.tiles m.entries.result in
    let one : x ≡ c = ends_eq m.tiled.tiles m.tiled.positive px m.entries.result (ground arith) in
    (
      m.index,
      i',
      ground (arith, get-items a b q, get-items a i p, m.put, m.removed, s, u),
      record {
        tiled = m.tiled;
        joined = c;
        at = y ∙ ap some one;
        is_hole = hg;
        blocks = Fused-SameBlocks m.entries hg hf hg;
        size = omega (arith, m.size);
        max_size = m.max_size;
      },
    )

pub free_before-Stage :
    (lo hi : ℕ) (a : OrderedArray Entry) (i : ℕ) (f : Entry) {o : Option ℕ}
    → IsIndex lo hi a
    → hi < u32_mod
    → a.size < a.max_size
    → get_elem? (items a) i ≡ some f
    → f.is_hole ≡ true
    → HoleFound (λ e. add32 e.start e.size == f.start) (items a) o
    → (a' : OrderedArray Entry) × (i' : ℕ) × (free_before a i o ≡ ok (a', i')) × Stage lo hi a a' i'
unfolding free_before
free_before-Stage lo hi a i f v w room p hf no_hole = (
  a,
  i,
  refl,
  record {
    tiled = v;
    joined = f;
    at = p;
    is_hole = hf;
    blocks = SameBlocks-refl (items a);
    size = omega arith;
    max_size = refl;
  },
)
free_before-Stage lo hi a i f v w room p hf (hole_at b g q t hg) =
    let bounds = Tiles-bounds v.tiles (remove_at-Pick b (items a) q) in
    merge_before-Stage lo hi a i b f g v w room p hf q hg (ground arith)

pub free_after-IsIndex :
    (lo hi : ℕ) (a : OrderedArray Entry) (i : ℕ) (f : Entry) {o : Option ℕ}
    → IsIndex lo hi a
    → hi < u32_mod
    → a.size < a.max_size
    → get_elem? (items a) i ≡ some f
    → f.is_hole ≡ true
    → HoleFound (λ e. e.start == add32 f.start f.size) (items a) o
    → (a' : OrderedArray Entry) × (free_after a i o ≡ ok a')
      × IsIndex lo hi a'
      × SameBlocks (items a) (items a')
unfolding free_after merge_after
free_after-IsIndex lo hi a i f v w room p hf no_hole = (a, refl, v, SameBlocks-refl (items a))
free_after-IsIndex lo hi a i f v w room p hf (hole_at e x q t hx) =
    let bounds = Tiles-bounds v.tiles (remove_at-Pick i (items a) p) in
    let m = merge-Merges lo hi a i e f x v w room p q (ground arith) in
    (
      m.index,
      ground (arith, get-items a i p, get-items a e q, m.put, m.removed),
      m.tiled,
      Fused-SameBlocks m.entries hf hx hf,
    )
