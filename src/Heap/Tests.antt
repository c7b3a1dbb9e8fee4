-- ===== src/Heap/Tests.antt =====
-- A small heap, runs of the allocator on it, and the theorems at it.
use akari.Prelude.{
  ℕ, ◌-◌, ◌%◌, ◌≤◌, ◌≡◌, refl, Bool, true, false, List, [], ◌∷◌, arith, Result, ok, panic, ◌>>=◌,
  Pick, here, there,
}
use akari.OrderedArray
use akari.OrderedArray.{OrderedArray}
use akari.OrderedArray.Contents.{items}
use akari.Heap.{
  Entry, entry, Heap, index_sort, init, first_address, next_page, alloc, alloc_aligned, free, carve,
  smallest_hole, first_index, free_found, free_entry, free_before, free_after, merge_before,
  merge_after, is_hole_at, index_of_entry_starting, index_of_entry_ending,
}
use akari.Heap.Tiles.{done, next, Disjoint}
use akari.Heap.Invariant.{IsHeap}
use akari.Heap.Alloc.{Allocated, alloc-Allocated, alloc_no_fit}
use akari.Heap.Aligned.{AllocatedAligned, alloc_aligned-Allocated}
use akari.Heap.Free.{FreedBlocks, free-IsHeap, free_missing}
use akari.Heap.Init.{init-IsHeap}
use akari.Heap.History.{start, then_call, allocates, Reaches-Disjoint, alloc-IsHeap, free_total}

-- A block of 0x10 bytes, a hole of 0x100 and a hole of 0x3ef0.
abbrev small_heap : Heap
small_heap = record {
  index = record {
    array =
        entry 0x4100 0x10 false
        ∷ entry 0x4000 0x100 true
        ∷ entry 0x4110 0x3ef0 true
        ∷ entry 0 0 false
        ∷ entry 0 0 false
        ∷ entry 0 0 false
        ∷ [];
    size = 3;
    max_size = 6;
    less_than = index_sort;
  };
  start = 0x3000;
  end = 0x8000;
  max = 0x8000;
  used = 0x1010;
  supervisor = false;
  readonly = false;
}

small_heap-IsHeap : IsHeap 0x4000 small_heap
small_heap-IsHeap = record {
  valid = omega arith;
  tiles = next (entry 0x4000 0x100 true) (there here) refl (
      next (entry 0x4100 0x10 false) here refl
        (next (entry 0x4110 0x3ef0 true) here refl (done refl)));
  positive = omega arith;
  word = omega arith;
}

run_both : Heap → Result (Bool × Heap)
unfolding alloc free smallest_hole carve first_index free_found free_entry free_before free_after
    merge_before merge_after is_hole_at index_of_entry_starting index_of_entry_ending
    OrderedArray.get OrderedArray.put OrderedArray.insert OrderedArray.remove
    OrderedArray.find_place OrderedArray.insert_at OrderedArray.shift_up OrderedArray.shift_down
    OrderedArray.store index_sort
run_both h = do (address, h') ← alloc h 0x80; free h' 0x4100

abbrev entries_of {ℓ} : {A : Type ℓ} → Result (A × Heap) → List Entry
entries_of (ok (a, h)) = items h.index
entries_of panic = []
entries_of _ = []

-- The freed block joins the holes on both sides of it.
run_both_joins :
    entries_of (run_both small_heap) ≡ entry 0x4000 0x80 false ∷ entry 0x4080 0x3f80 true ∷ []
unfolding run_both
run_both_joins = refl

-- `small_heap` after `alloc(0x80)`.
abbrev allocated_heap : Heap
allocated_heap = record small_heap {
  index = record {
    array =
        entry 0x4100 0x10 false
        ∷ entry 0x4000 0x80 false
        ∷ entry 0x4080 0x80 true
        ∷ entry 0x4110 0x3ef0 true
        ∷ entry 0 0 false
        ∷ entry 0 0 false
        ∷ [];
    size = 4;
    max_size = 6;
    less_than = index_sort;
  };
  used = 0x1090;
}

alloc_runs : alloc small_heap 0x80 ≡ ok (0x4000, allocated_heap)
unfolding run_both
alloc_runs = refl

Reaches-Disjoint_example :
    (0x4000 ≤ 0x4000)
    × (0x4080 ≤ 0x8000)
    × Disjoint (entry 0x4000 0x80 false) (entry 0x4080 0x80 true)
Reaches-Disjoint_example =
    Reaches-Disjoint {d = entry 0x4000 0x80 false} {e = entry 0x4080 0x80 true} small_heap-IsHeap
      (then_call start (allocates 0x80 (omega arith) (omega arith) alloc_runs)) (there here)
      (there here)

alloc-IsHeap_example :
    IsHeap 0x4000 allocated_heap × Allocated small_heap 0x80 0x4000 allocated_heap
alloc-IsHeap_example =
    alloc-IsHeap small_heap 0x4000 0x80 small_heap-IsHeap (omega arith) (omega arith) alloc_runs

alloc-Allocated_example :
    (address : ℕ) × (h' : Heap) × (alloc small_heap 0x80 ≡ ok (address, h'))
    × IsHeap 0x4000 h'
    × Allocated small_heap 0x80 address h'
alloc-Allocated_example =
    alloc-Allocated small_heap 0x4000 0x80 (entry 0x4110 0x3ef0 true) _ small_heap-IsHeap
      (omega arith) (omega arith) (there (there here)) refl

alloc_no_fit_example : alloc small_heap 0x4000 ≡ panic
alloc_no_fit_example =
    alloc_no_fit small_heap 0x4000 small_heap-IsHeap.valid (refl, (refl, (refl, tt)))

alloc_aligned-Allocated_example :
    (address : ℕ) × (h' : Heap) × (alloc_aligned small_heap 0x2000 ≡ ok (address, h'))
    × (address % 0x1000 ≡ 0)
    × IsHeap 0x4000 h'
    × AllocatedAligned small_heap 0x2000 address h'
alloc_aligned-Allocated_example =
    alloc_aligned-Allocated small_heap 0x4000 0x2000 (entry 0x4110 0x3ef0 true) _ small_heap-IsHeap
      (omega arith) (omega arith) (omega arith) (omega arith) (there (there here)) refl

free-IsHeap_example :
    (index : OrderedArray Entry) × (free small_heap 0x4100
      ≡ ok (true, record small_heap { index = index }))
    × IsHeap 0x4000 (record small_heap { index = index })
    × FreedBlocks 0x4100 (items small_heap.index) (items index)
free-IsHeap_example =
    free-IsHeap small_heap 0x4000 0x4100 (entry 0x4100 0x10 false) _ small_heap-IsHeap (omega arith)
      here refl

free_missing_example : free small_heap 0x4200 ≡ ok (false, small_heap)
free_missing_example =
    free_missing small_heap 0x4200 small_heap-IsHeap.valid (refl, (refl, (refl, tt)))

free_total_example :
    (found : Bool) × (h' : Heap) × (free small_heap 0x4200 ≡ ok (found, h')) × IsHeap 0x4000 h'
free_total_example = free_total small_heap 0x4000 0x4200 small_heap-IsHeap (omega arith)

init-IsHeap_example :
    let first = first_address 0x10000 0x1000 in
    (h : Heap) × (init 0x10000 0x40000 0x40000 0x1000 false false ≡ ok h)
    × IsHeap first h
    × (h.end ≡ 0x40000)
    × (h.index.size ≡ 1)
    × (h.index.max_size ≡ 0x1000)
    × Pick (entry first (0x40000 - first) true) (items h.index) []
unfolding first_address next_page
init-IsHeap_example =
    init-IsHeap 0x10000 0x40000 0x40000 0x1000 false false (omega arith) (omega arith) (omega arith)
      (omega arith) refl refl refl (omega arith)
