-- ===== src/Heap/Init.antt =====
-- The constructor establishes the invariant.
use akari.Prelude.{
  ℕ, ◌-◌, ◌%◌, ◌<◌, ◌≡◌, refl, subst, Bool, true, false, [], arith, replicate, length-replicate,
  sub32, u32_mod, ok, Pick, Pick-All,
}
use akari.OrderedArray
use akari.OrderedArray.{OrderedArray}
use akari.OrderedArray.Contents.{items, IsValid}
use akari.Heap.{Entry, entry, Heap, index_sort, first_address, init}
use akari.Heap.Tiles.{done, next, Picks-one}
use akari.Heap.Invariant.{IsHeap}
use akari.Heap.Carve.{insert-Gains}

abbrev empty_index : ℕ → OrderedArray Entry
empty_index index_size = record {
  array = replicate index_size (entry 0 0 false);
  size = 0;
  max_size = index_size;
  less_than = index_sort;
}

empty_index-IsValid : (n : ℕ) → n < u32_mod → IsValid (empty_index n)
empty_index-IsValid n h = record {
  storage = length-replicate n (entry 0 0 false);
  room = omega arith;
  word = h;
}

-- With page-aligned bounds and memory left behind the index, the constructor makes a heap of one
-- hole, which reaches from the first free address to the end.
pub init-IsHeap :
    (start end max index_size : ℕ) (supervisor readonly : Bool)
    → 0 < start
    → 0 < index_size
    → index_size < u32_mod
    → end < u32_mod
    → start % 0x1000 ≡ 0
    → end % 0x1000 ≡ 0
    → max % 0x1000 ≡ 0
    → first_address start index_size < end
    → let first = first_address start index_size in
      (h : Heap) × (init start end max index_size supervisor readonly ≡ ok h)
      × IsHeap first h
      × (h.end ≡ end)
      × (h.index.size ≡ 1)
      × (h.index.max_size ≡ index_size)
      × Pick (entry first (end - first) true) (items h.index) []
unfolding init OrderedArray.init
init-IsHeap start end max index_size supervisor readonly p q i w a b c m =
    let first = first_address start index_size in
    let hole = entry first (sub32 end first) true in
    let (a', s, g, n) =
      insert-Gains (empty_index index_size) hole (empty_index-IsValid index_size i) (omega arith) in
    let one : Pick hole (items a') [] = Picks-one g.contents in
    (
      record {
        index = a';
        start = start;
        end = end;
        max = max;
        used = sub32 first start;
        supervisor = supervisor;
        readonly = readonly;
      },
      ground (arith, s),
      record {
        valid = g.valid;
        tiles = next hole one refl (done (omega arith));
        positive = Pick-All _ one (omega arith) tt;
        word = w;
      },
      refl,
      omega (arith, n),
      g.max_size,
      subst (λ z. Pick (entry first z true) (items a') []) (omega arith) one,
    )
