-- ===== src/Heap/History.antt =====
-- Heaps as sequences of calls leave them.
use akari.Prelude.{
  ℕ, ◌+◌, ◌≤◌, ◌<◌, ◌≡◌, ◌^◌, ◌%◌, ◌==◌, subst, Bool, true, false, Option, none, some, List, arith,
  Result, ok, Pick, get_elem?,
}
use akari.OrderedArray.Contents.{items}
use akari.OrderedArray.Order.{remove_at-Pick}
use akari.Heap.{
  Entry, Heap, is_fit, is_aligned_fit, first_index, smallest_hole, smallest_aligned_hole, alloc,
  alloc_aligned, free, free_found, index_of_entry_starting,
}
use akari.Heap.Tiles.{Disjoint, Tiles-Disjoint, Tiles-bounds}
use akari.Heap.Search.{Finds, found, first_index-Finds}
use akari.Heap.Invariant.{IsHeap, HasRoom}
use akari.Heap.Alloc.{Allocated, alloc-Allocated}
use akari.Heap.Aligned.{AllocatedAligned, alloc_aligned-Allocated}
use akari.Heap.Free.{free-IsHeap}

-- A call has one outcome.
same_outcome {ℓ} : {A : Type ℓ} {r : Result A} {a b : A} → r ≡ ok a → r ≡ ok b → a ≡ b
same_outcome p q = cc

-- An entry that a search returned.
Finds-hit :
    {test : Entry → Bool} {xs : List Entry} {i : ℕ}
    → Finds test xs 0 (some i)
    → (e : Entry) × (get_elem? xs i ≡ some e) × (test e ≡ true)
Finds-hit (found i e _ g t _) = (e, g, t)

-- Whenever `alloc` returns, it has kept the invariant and cut the block from a hole.
pub alloc-IsHeap :
    (h : Heap) (lo n : ℕ) {address : ℕ} {h' : Heap}
    → IsHeap lo h
    → HasRoom h
    → 0 < n
    → alloc h n ≡ ok (address, h')
    → IsHeap lo h' × Allocated h n address h'
unfolding alloc smallest_hole
alloc-IsHeap h lo n {address} {h'} v room p e =
    let (r, s, f) = first_index-Finds (is_fit n) h.index 0 h.index.size v.valid (omega arith) in
    go r s f
  where
    go :
        (r : Option ℕ)
        → first_index (is_fit n) h.index 0 h.index.size ≡ ok r
        → Finds (is_fit n) (items h.index) 0 r
        → IsHeap lo h' × Allocated h n address h'
    go none s f = absurd (ground (arith, s))
    go (some i) s f =
        let (x, g, t) = Finds-hit f in
        let (b, h1, a, w, k) =
          alloc-Allocated h lo n x _ v room p (remove_at-Pick i (items h.index) g) t in
        subst (λ (z : ℕ × Heap). IsHeap lo z.1 × Allocated h n z.0 z.1) (same_outcome a e) (w, k)

-- The same of `allocAligned`; the address is that of a page.
pub alloc_aligned-IsHeap :
    (h : Heap) (lo n : ℕ) {address : ℕ} {h' : Heap}
    → IsHeap lo h
    → h.end < 2 ^ 31
    → h.index.size + 1 < h.index.max_size
    → 0 < n
    → n < 2 ^ 31
    → alloc_aligned h n ≡ ok (address, h')
    → (address % 0x1000 ≡ 0) × IsHeap lo h' × AllocatedAligned h n address h'
unfolding alloc_aligned smallest_aligned_hole
alloc_aligned-IsHeap h lo n {address} {h'} v small room p less e =
    let (r, s, f) =
      first_index-Finds (is_aligned_fit n) h.index 0 h.index.size v.valid (omega arith) in
    go r s f
  where
    go :
        (r : Option ℕ)
        → first_index (is_aligned_fit n) h.index 0 h.index.size ≡ ok r
        → Finds (is_aligned_fit n) (items h.index) 0 r
        → (address % 0x1000 ≡ 0) × IsHeap lo h' × AllocatedAligned h n address h'
    go none s f = absurd (ground (arith, s))
    go (some i) s f =
        let (x, g, t) = Finds-hit f in
        let (b, h1, a, q, w, k) =
          alloc_aligned-Allocated h lo n x _ v small room p less
            (remove_at-Pick i (items h.index) g) t in
        subst (λ (z : ℕ × Heap). (z.0 % 0x1000 ≡ 0) × IsHeap lo z.1 × AllocatedAligned h n z.0 z.1)
          (same_outcome a e) (q, w, k)

-- `free` always returns, and has kept the invariant.
pub free_total :
    (h : Heap) (lo p : ℕ)
    → IsHeap lo h
    → HasRoom h
    → (found : Bool) × (h' : Heap) × (free h p ≡ ok (found, h')) × IsHeap lo h'
unfolding free free_found index_of_entry_starting
free_total h lo p v room =
    let (r, s, f) =
      first_index-Finds (λ x. x.start == p) h.index 0 h.index.size v.valid (omega arith) in
    go r s f
  where
    go :
        (r : Option ℕ)
        → first_index (λ x. x.start == p) h.index 0 h.index.size ≡ ok r
        → Finds (λ x. x.start == p) (items h.index) 0 r
        → (found : Bool) × (h' : Heap) × (free h p ≡ ok (found, h')) × IsHeap lo h'
    go none s f = (false, h, ground (arith, s), v)
    go (some i) s f =
        let (x, g, t) = Finds-hit f in
        let (a, e, w, _) =
          free-IsHeap h lo p x _ v room (remove_at-Pick i (items h.index) g) (ground arith) in
        (true, record h { index = a }, e, w)

-- A call that returns, on a heap whose index has room for it.
pub data Step (h : Heap) : Heap → Type 0 where
  allocates :
      {h' : Heap} (n : ℕ) {address : ℕ}
      → HasRoom h
      → 0 < n
      → alloc h n ≡ ok (address, h')
      → Step h h'
  allocates_aligned :
      {h' : Heap} (n : ℕ) {address : ℕ}
      → h.end < 2 ^ 31
      → h.index.size + 1 < h.index.max_size
      → 0 < n
      → n < 2 ^ 31
      → alloc_aligned h n ≡ ok (address, h')
      → Step h h'
  frees : {h' : Heap} (p : ℕ) {found : Bool} → HasRoom h → free h p ≡ ok (found, h') → Step h h'

pub data Reaches (h : Heap) : Heap → Type 0 where
  start : Reaches h h
  then_call : {g k : Heap} → Reaches h g → Step g k → Reaches h k

pub Step-IsHeap : {lo : ℕ} {h h' : Heap} → Step h h' → IsHeap lo h → IsHeap lo h'
Step-IsHeap {lo} {h} (allocates n room p e) v = (alloc-IsHeap h lo n v room p e).0
Step-IsHeap {lo} {h} (allocates_aligned n small room p less e) v =
    (alloc_aligned-IsHeap h lo n v small room p less e).1
Step-IsHeap {lo} {h} (frees p room e) v =
    let (b, h1, a, w) = free_total h lo p v room in
    subst (λ (z : Bool × Heap). IsHeap lo z.1) (same_outcome a e) w

Reaches-IsHeap : {lo : ℕ} {h h' : Heap} → IsHeap lo h → Reaches h h' → IsHeap lo h'
Reaches-IsHeap v start = v
Reaches-IsHeap v (then_call r s) = Step-IsHeap s (Reaches-IsHeap v r)

-- After any sequence of calls on a valid heap, the entries of the index, blocks and holes, lie within the
-- heap, and no two overlap. The calls are of alloc for a positive size with room in the index, of free with
-- room in the index, and of allocAligned on a heap that ends below 2^31, for a positive size below 2^31,
-- with two places left in the index.
pub Reaches-Disjoint :
    {lo : ℕ} {h h' : Heap} {d e : Entry} {rest rest' : List Entry}
    → IsHeap lo h
    → Reaches h h'
    → Pick d (items h'.index) rest
    → Pick e rest rest'
    → (lo ≤ d.start) × (d.start + d.size ≤ h'.end) × Disjoint d e
Reaches-Disjoint {lo} v r p q =
    let w = Reaches-IsHeap v r in
    let b = Tiles-bounds w.tiles p in (b.0, b.1, Tiles-Disjoint w.tiles p q)
