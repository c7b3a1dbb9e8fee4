-- ===== src/Heap.antt =====
-- Heap.cpp and inc/Heap.hpp: the allocator of the kernel and of every process, over an index of
-- entries (holes and blocks) kept in an ordered array. Addresses and sizes are u32.
pub mod Tiles
pub mod Search
pub mod Invariant
pub mod Carve
pub mod Alloc
pub mod Aligned
pub mod Merge
pub mod Blocks
pub mod Join
pub mod Free
pub mod Init
pub mod History
mod Tests
use akari.Prelude.{
  ℕ, zero, suc, ◌+◌, ◌-◌, ◌*◌, ◌%◌, Bool, true, false, Option, none, some, ltb, leb, ◌==◌,
  if◌then◌else◌, ◌&&◌, add32, sub32, u32_mod, s32_rank, Result, ok, panic, ◌>>=◌, ◌>>◌, assert,
  or_panic,
}
use akari.OrderedArray
use akari.OrderedArray.{OrderedArray}

pub record Entry : Type 0 where
  pub start : ℕ
  pub size : ℕ
  pub is_hole : Bool

abbrev pub entry : ℕ → ℕ → Bool → Entry
entry start size is_hole = record { start = start; size = size; is_hole = is_hole }

pub record Heap : Type 0 where
  pub index : OrderedArray Entry
  pub start : ℕ
  pub end : ℕ
  pub max : ℕ
  pub used : ℕ
  pub supervisor : Bool
  pub readonly : Bool

-- `IndexSort`
unfoldable pub index_sort : Entry → Entry → Bool
index_sort a b = ltb a.size b.size

-- `sizeof(Entry)` where pointers have 32 bits: two words and a `bool`, padded.
abbrev pub sizeof_entry : ℕ
sizeof_entry = 12

-- `(x & ~0xFFF) + 0x1000`
unfoldable pub next_page : ℕ → ℕ
next_page x = add32 (x - x % 0x1000) 0x1000

-- Where the memory behind an index of `index_size` entries begins. The test really masks by 0xFFFF,
-- and not by 0xFFF.
unfoldable pub first_address : ℕ → ℕ → ℕ
first_address start index_size =
    let after_index = add32 start (sizeof_entry * index_size % u32_mod) in
    if after_index % 0x10000 == 0 then after_index else next_page after_index

-- The constructor.
unfoldable pub init : ℕ → ℕ → ℕ → ℕ → Bool → Bool → Result Heap
init start end max index_size supervisor readonly = do
  index ← OrderedArray.init start index_size index_sort (entry 0 0 false)
  assert (start % 0x1000 == 0)
  assert (end % 0x1000 == 0)
  assert (max % 0x1000 == 0)
  let first = first_address start index_size
  index' ← OrderedArray.insert index (entry first (sub32 end first) true)
  assert (ltb first end)
  ok (record {
    index = index';
    start = start;
    end = end;
    max = max;
    used = sub32 first start;
    supervisor = supervisor;
    readonly = readonly;
  })

-- The loops over the index stop at the first entry that passes a test; `none` when there is none.
unfoldable pub first_index : (Entry → Bool) → OrderedArray Entry → ℕ → ℕ → Result (Option ℕ)
first_index test index it zero = ok none
first_index test index it (suc rounds) =
    let next = first_index test index (it + 1) rounds in
    do e ← OrderedArray.get index it; if test e then ok (some it) else next

unfoldable pub index_of_entry_starting : OrderedArray Entry → ℕ → Result (Option ℕ)
index_of_entry_starting index start = first_index (λ e. e.start == start) index 0 index.size

unfoldable pub index_of_entry_ending : OrderedArray Entry → ℕ → Result (Option ℕ)
index_of_entry_ending index end = first_index (λ e. add32 e.start e.size == end) index 0 index.size

abbrev pub is_fit : ℕ → Entry → Bool
is_fit n e = e.is_hole && leb n e.size

unfoldable pub smallest_hole : OrderedArray Entry → ℕ → Result ℕ
smallest_hole index n = do
  assert (ltb 0 index.size)
  it ← first_index (is_fit n) index 0 index.size
  or_panic it

-- How far it is from `x` to a page boundary.
abbrev pub to_page : ℕ → ℕ
to_page x = if x % 0x1000 == 0 then 0 else 0x1000 - x % 0x1000

-- `(s32)size - off >= (s32)n`, over the integers: the signed values are compared after adding 2 ^ 31.
abbrev pub is_aligned_fit : ℕ → Entry → Bool
is_aligned_fit n e = e.is_hole && leb (s32_rank n + to_page e.start) (s32_rank e.size)

unfoldable pub smallest_aligned_hole : OrderedArray Entry → ℕ → Result ℕ
smallest_aligned_hole index n = do
  it ← first_index (is_aligned_fit n) index 0 index.size
  or_panic it

-- The end that `alloc` and `allocAligned` share: the hole, already out of the index, loses `n` bytes
-- at its front, and these become a block.
unfoldable pub carve : Heap → OrderedArray Entry → Entry → ℕ → Result (ℕ × Heap)
carve h index hole n = do
  index' ←
      (if ltb n hole.size
        then OrderedArray.insert index
            (record hole { size = sub32 hole.size n; start = add32 hole.start n })
        else ok index)
  index'' ← OrderedArray.insert index' (entry hole.start n false)
  ok (hole.start, record h { index = index''; used = add32 h.used n })

unfoldable pub alloc : Heap → ℕ → Result (ℕ × Heap)
alloc h n = do
  it ← smallest_hole h.index n
  hole ← OrderedArray.get h.index it
  index ← OrderedArray.remove h.index it
  carve h index hole n

-- `allocAligned` from `if (dataStart & 0xFFF)` on: the part of the hole before the first page boundary
-- stays a hole.
unfoldable pub carve_aligned : Heap → OrderedArray Entry → Entry → ℕ → Result (ℕ × Heap)
carve_aligned h index hole n = if hole.start % 0x1000 == 0 then carve h index hole n else do
  let data_start = next_page hole.start
  let waste = 0x1000 - hole.start % 0x1000
  index' ← OrderedArray.insert index (record hole { size = waste })
  carve h index' (record hole { start = data_start; size = sub32 hole.size waste }) n

unfoldable pub alloc_aligned : Heap → ℕ → Result (ℕ × Heap)
alloc_aligned h n = do
  it ← smallest_aligned_hole h.index n
  hole ← OrderedArray.get h.index it
  index ← OrderedArray.remove h.index it
  carve_aligned h index hole n

-- `free`, where the freed entry at `i` follows the hole at `b`: the hole takes it in, and the index
-- is searched for the hole again.
unfoldable pub merge_before : OrderedArray Entry → ℕ → ℕ → Result (OrderedArray Entry × ℕ)
merge_before index i b = do
  before ← OrderedArray.get index b
  freed ← OrderedArray.get index i
  let new_size = add32 before.size freed.size
  let new_end = add32 new_size before.start
  index' ← OrderedArray.put index b (record before { size = new_size })
  index'' ← OrderedArray.remove index' i
  found ← index_of_entry_ending index'' new_end
  i' ← or_panic found
  ok (index'', i')

-- The entry at `i` takes in the hole at `e`, which follows it.
unfoldable pub merge_after : OrderedArray Entry → ℕ → ℕ → Result (OrderedArray Entry)
merge_after index i e = do
  freed ← OrderedArray.get index i
  after ← OrderedArray.get index e
  index' ← OrderedArray.put index i (record freed { size = add32 freed.size after.size })
  OrderedArray.remove index' e

-- Whether the entry that a search found, if it found one, is a hole.
unfoldable pub is_hole_at : OrderedArray Entry → Option ℕ → Result (Option ℕ)
is_hole_at index none = ok none
is_hole_at index (some i) = do e ← OrderedArray.get index i; ok (if e.is_hole then some i else none)

unfoldable pub free_before : OrderedArray Entry → ℕ → Option ℕ → Result (OrderedArray Entry × ℕ)
free_before index i none = ok (index, i)
free_before index i (some b) = merge_before index i b

unfoldable pub free_after : OrderedArray Entry → ℕ → Option ℕ → Result (OrderedArray Entry)
free_after index i none = ok index
free_after index i (some e) = merge_after index i e

-- `free`, with the entry of the block found at `i`.
unfoldable pub free_entry : OrderedArray Entry → ℕ → ℕ → Result (OrderedArray Entry)
free_entry index p i = do
  freed ← OrderedArray.get index i
  index' ← OrderedArray.put index i (record freed { is_hole = true })
  ending ← index_of_entry_ending index' p
  b ← is_hole_at index' ending
  (index'', i') ← free_before index' i b
  merged ← OrderedArray.get index'' i'
  starting ← index_of_entry_starting index'' (add32 merged.start merged.size)
  e ← is_hole_at index'' starting
  free_after index'' i' e

unfoldable pub free_found : Heap → ℕ → Option ℕ → Result (Bool × Heap)
free_found h p none = ok (false, h)
free_found h p (some i) = do index ← free_entry h.index p i; ok (true, record h { index = index })

unfoldable pub free : Heap → ℕ → Result (Bool × Heap)
free h p = do i ← index_of_entry_starting h.index p; free_found h p i
