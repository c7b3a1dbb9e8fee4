-- ===== src/Heap/Invariant.antt =====
-- The invariant of a heap.
use akari.Prelude.{ℕ, ◌<◌, u32_mod}
use akari.OrderedArray.{OrderedArray}
use akari.OrderedArray.Contents.{items, IsValid}
use akari.Heap.{Entry, Heap}
use akari.Heap.Tiles.{Tiles, Positive}

-- The entries of the index, in whatever order, tile the interval from `lo` to the end of the heap,
-- and none is empty.
pub record IsHeap (lo : ℕ) (h : Heap) : Type 0 where
  pub valid : IsValid h.index
  pub tiles : Tiles lo h.end (items h.index)
  pub positive : Positive (items h.index)
  pub word : h.end < u32_mod

-- A heap whose index has a cell to spare.
abbrev pub HasRoom : Heap → Type 0
HasRoom h = h.index.size < h.index.max_size

-- The same of an index alone, while an operation is at work on it.
pub record IsIndex (lo hi : ℕ) (a : OrderedArray Entry) : Type 0 where
  pub valid : IsValid a
  pub tiles : Tiles lo hi (items a)
  pub positive : Positive (items a)

pub IsHeap-IsIndex : {lo : ℕ} {h : Heap} → IsHeap lo h → IsIndex lo h.end h.index
IsHeap-IsIndex v = record { valid = v.valid; tiles = v.tiles; positive = v.positive }
