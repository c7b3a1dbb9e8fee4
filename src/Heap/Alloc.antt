-- ===== src/Heap/Alloc.antt =====
-- `alloc`: it cuts the block from a hole that is large enough, and keeps the invariant.
use mathlib.Core.Bool.{false≢true}
use mathlib.Core.Option.{some-injective}
use akari.Prelude.{
  ℕ, zero, suc, Bool, Option, [], ◌+◌, ◌≤◌, ◌<◌, ◌≡◌, refl, sym, subst, ◌∙◌, true, false, List, ◌∷◌,
  none, some, arith, get_elem?, get_elem?-bound, add32, ok, panic, Pick, All, All-Pick,
}
use akari.OrderedArray
use akari.OrderedArray.{OrderedArray}
use akari.OrderedArray.Contents.{items, IsValid}
use akari.OrderedArray.Refines.{remove-Removed}
use akari.OrderedArray.Order.{remove_at-Pick}
use akari.OrderedArray.Access.{get-items, length-items}
use akari.Heap.{Entry, Heap, is_fit, smallest_hole, alloc}
use akari.Heap.Tiles.{Picks, Picks-All, Tiles-bounds, Tiles-replace}
use akari.Heap.Search.{Finds, missing, found, first_index-Finds, Finds-some}
use akari.Heap.Invariant.{IsHeap, HasRoom}
use akari.Heap.Carve.{carved, carved-Chain, carved-Positive, carve-Gains}

-- Taking the hole at `it` out of the index.
pub record Taken (a : OrderedArray Entry) (it : ℕ) (hole : Entry) : Type 0 where
  pub index : OrderedArray Entry
  pub got : OrderedArray.get a it ≡ ok hole
  pub removed : OrderedArray.remove a it ≡ ok index
  pub valid : IsValid index
  pub contents : Pick hole (items a) (items index)
  pub size : index.size + 1 ≡ a.size
  pub max_size : index.max_size ≡ a.max_size

pub take_hole :
    (a : OrderedArray Entry) (it : ℕ) (hole : Entry)
    → IsValid a
    → a.size < a.max_size
    → get_elem? (items a) it ≡ some hole
    → Taken a it hole
take_hole a it hole v r e =
    let inside : it < a.size = omega (arith, length-items a v, get_elem?-bound (items a) it e) in
    let (a', s, d) = remove-Removed a it v inside r in
    record {
      index = a';
      got = get-items a it e;
      removed = s;
      valid = d.valid;
      contents =
          subst (λ l. Pick hole (items a) l) (sym d.contents) (remove_at-Pick it (items a) e);
      size = d.size;
      max_size = d.max_size;
    }

-- The outcome of a successful allocation: a hole of at least `n` bytes gave its first `n` to the
-- block, and every other entry is as it was.
pub record Allocated (h : Heap) (n : ℕ) (address : ℕ) (h' : Heap) : Type 0 where
  pub hole : Entry
  pub others : List Entry
  pub from : Pick hole (items h.index) others
  pub is_hole : hole.is_hole ≡ true
  pub fits : n ≤ hole.size
  pub at_start : address ≡ hole.start
  pub entries : Picks (carved hole n) (items h'.index) others
  pub used : h'.used ≡ add32 h.used n

-- On a valid heap with room in its index, if some hole has at least `n` bytes, `alloc` returns a
-- block cut from such a hole, leaves every other entry as it was, and keeps the invariant.
pub alloc-Allocated :
    (h : Heap) (lo n : ℕ) (e : Entry) (rest : List Entry)
    → IsHeap lo h
    → HasRoom h
    → 0 < n
    → Pick e (items h.index) rest
    → is_fit n e ≡ true
    → (address : ℕ) × (h' : Heap) × (alloc h n ≡ ok (address, h'))
      × IsHeap lo h'
      × Allocated h n address h'
unfolding alloc smallest_hole
alloc-Allocated h lo n e rest v room pos p fit =
    let (r, s, f) = first_index-Finds (is_fit n) h.index 0 h.index.size v.valid (omega arith) in
    let (it, hole, u, g, t) = Finds-some f p fit in
    let k = take_hole h.index it hole v.valid room g in
    let (a', c, w) = carve-Gains h k.index hole n k.valid (omega (arith, k.size, k.max_size)) in
    let bounds = Tiles-bounds v.tiles k.contents in
    let fits : n ≤ hole.size = ground arith in
    let inside : 0 < h.index.size =
      omega (arith, length-items h.index v.valid, get_elem?-bound (items h.index) it g) in
    (
      hole.start,
      record h { index = a'; used = add32 h.used n },
      ground (arith, s, u, k.got, k.removed, c),
      record {
        valid = w.valid;
        tiles =
            Tiles-replace v.tiles k.contents w.contents
              (carved-Chain hole n fits (omega (arith, v.word)));
        positive =
            Picks-All _ w.contents (carved-Positive hole n pos fits (omega (arith, v.word)))
              (All-Pick _ k.contents v.positive).1;
        word = v.word;
      },
      record {
        hole = hole;
        others = items k.index;
        from = k.contents;
        is_hole = ground arith;
        fits = fits;
        at_start = refl;
        entries = w.contents;
        used = refl;
      },
    )

pub All-get_elem? :
    (P : Entry → Type 0) (xs : List Entry) (i : ℕ) {x : Entry}
    → All P xs
    → get_elem? xs i ≡ some x
    → P x
All-get_elem? P [] i h e = absurd (cc)
All-get_elem? P (y ∷ xs) zero {x} h e = subst P (some-injective y x e) h.0
All-get_elem? P (y ∷ xs) (suc i) h e = All-get_elem? P xs i h.1 e

pub no_fit :
    {test : Entry → Bool} {xs : List Entry} {r : Option ℕ}
    → Finds test xs 0 r
    → All (λ e. test e ≡ false) xs
    → r ≡ none
no_fit (missing h) a = refl
no_fit {test} {xs} (found i x _ g t _) a =
    absurd (false≢true (sym (All-get_elem? (λ e. test e ≡ false) xs i a g) ∙ t))

-- On a valid index with no hole of at least `n` bytes, `alloc` panics.
pub alloc_no_fit :
    (h : Heap) (n : ℕ)
    → IsValid h.index
    → All (λ e. is_fit n e ≡ false) (items h.index)
    → alloc h n ≡ panic
unfolding alloc smallest_hole
alloc_no_fit h n v a =
    let (r, s, f) = first_index-Finds (is_fit n) h.index 0 h.index.size v (omega arith) in
    ground (arith, s, no_fit f a)
