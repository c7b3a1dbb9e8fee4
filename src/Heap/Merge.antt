-- ===== src/Heap/Merge.antt =====
-- The merge of two entries of the index that are next to each other: the first grows, the second goes.
use mathlib.Core.Option.{some-injective}
use akari.Prelude.{
  ℕ, zero, suc, ◌+◌, ◌<◌, ◌≡◌, ◌≢◌, refl, sym, ap, subst, ◌∙◌, List, [], ◌∷◌, some, arith,
  get_elem?, get_elem?-bound, set, add32, u32_mod, ok, Pick, here, there, All-Pick, Pick-All,
}
use akari.OrderedArray
use akari.OrderedArray.{OrderedArray}
use akari.OrderedArray.Contents.{items, remove_at}
use akari.OrderedArray.Refines.{remove-Removed}
use akari.OrderedArray.Access.{put-Written, length-items}
use akari.OrderedArray.Order.{remove_at-Pick, set-Pick}
use akari.Heap.{Entry}
use akari.Heap.Tiles.{Tiles-bounds, Tiles-merge}
use akari.Heap.Invariant.{IsIndex}

-- Two elements `f` and `g` of `xs` against one element `c` of `ys`; the others are shared.
pub record Fused (g f c : Entry) (xs ys : List Entry) : Type 0 where
  pub without_first : List Entry
  pub others : List Entry
  pub first : Pick g xs without_first
  pub second : Pick f without_first others
  pub result : Pick c ys others

Fused-cons :
    {g f c : Entry} {xs ys : List Entry} (x : Entry)
    → Fused g f c xs ys
    → Fused g f c (x ∷ xs) (x ∷ ys)
Fused-cons x r = record {
  without_first = x ∷ r.without_first;
  others = x ∷ r.others;
  first = there r.first;
  second = there r.second;
  result = there r.result;
}

Fused-at :
    (xs : List Entry) (keep drop : ℕ) {g f : Entry} (c : Entry)
    → get_elem? xs keep ≡ some g
    → get_elem? xs drop ≡ some f
    → keep ≢ drop
    → Fused g f c xs (remove_at drop (set xs keep c))
unfolding remove_at
Fused-at [] keep drop c p q n = absurd (cc)
Fused-at (x ∷ xs) zero zero c p q n = absurd (n refl)
Fused-at (x ∷ xs) zero (suc drop) {g} c p q n = record {
  without_first = xs;
  others = remove_at drop xs;
  first = subst (λ z. Pick z (x ∷ xs) xs) (some-injective x g p) here;
  second = remove_at-Pick drop xs q;
  result = here;
}
Fused-at (x ∷ xs) (suc keep) zero {f = f} c p q n = record {
  without_first = x ∷ remove_at keep xs;
  others = remove_at keep xs;
  first = there (remove_at-Pick keep xs p);
  second =
      subst (λ z. Pick z (x ∷ remove_at keep xs) (remove_at keep xs)) (some-injective x f q) here;
  result = set-Pick keep xs c p;
}
Fused-at (x ∷ xs) (suc keep) (suc drop) c p q n =
    Fused-cons x (Fused-at xs keep drop c p q (λ e. n (ap suc e)))

-- The entry at `keep` takes in the one at `drop`, which follows it.
pub record Merges (lo hi : ℕ) (a : OrderedArray Entry) (keep drop : ℕ) (g f : Entry) : Type 0 where
  pub written : OrderedArray Entry
  pub index : OrderedArray Entry
  pub put : OrderedArray.put a keep (record g { size = add32 g.size f.size }) ≡ ok written
  pub removed : OrderedArray.remove written drop ≡ ok index
  pub tiled : IsIndex lo hi index
  pub entries : Fused g f (record g { size = add32 g.size f.size }) (items a) (items index)
  pub size : index.size + 1 ≡ a.size
  pub max_size : index.max_size ≡ a.max_size

keep-ne-drop :
    (xs : List Entry) (keep drop : ℕ) {g f : Entry}
    → get_elem? xs keep ≡ some g
    → get_elem? xs drop ≡ some f
    → 0 < g.size
    → f.start ≡ g.start + g.size
    → keep ≢ drop
keep-ne-drop xs keep drop {g} {f} p q pos next e =
    let one : g ≡ f = some-injective g f (sym p ∙ ap (get_elem? xs) e ∙ q) in
    omega (arith, ap (λ (z : Entry). z.start) one)

pub merge-Merges :
    (lo hi : ℕ) (a : OrderedArray Entry) (keep drop : ℕ) (g f : Entry)
    → IsIndex lo hi a
    → hi < u32_mod
    → a.size < a.max_size
    → get_elem? (items a) keep ≡ some g
    → get_elem? (items a) drop ≡ some f
    → f.start ≡ g.start + g.size
    → Merges lo hi a keep drop g f
merge-Merges lo hi a keep drop g f v w room p q next =
    let c = record g { size = add32 g.size f.size } in
    let k : keep < a.size =
      omega (arith, length-items a v.valid, get_elem?-bound (items a) keep p) in
    let d : drop < a.size =
      omega (arith, length-items a v.valid, get_elem?-bound (items a) drop q) in
    let (a1, s, x) = put-Written a keep c v.valid k in
    let (a2, t, y) =
      remove-Removed a1 drop x.valid (omega (arith, x.size)) (omega (arith, x.size, x.max_size)) in
    let pos = All-Pick (λ (z : Entry). 0 < z.size) (remove_at-Pick keep (items a) p) v.positive in
    let bounds = Tiles-bounds v.tiles (remove_at-Pick drop (items a) q) in
    let sizes : add32 g.size f.size ≡ g.size + f.size = omega arith in
    let fused =
      subst (Fused g f c (items a)) (sym (y.contents ∙ ap (remove_at drop) x.contents))
        (Fused-at (items a) keep drop c p q (keep-ne-drop (items a) keep drop p q pos.0 next)) in
    record {
      written = a1;
      index = a2;
      put = s;
      removed = t;
      tiled = record {
        valid = y.valid;
        tiles =
            Tiles-merge v.tiles v.positive fused.first fused.second fused.result next refl sizes;
        positive =
            Pick-All _ fused.result (omega arith)
              (All-Pick _ fused.second (All-Pick _ fused.first v.positive).1).1;
      };
      entries = fused;
      size = omega (arith, x.size, y.size);
      max_size = y.max_size ∙ x.max_size;
    }
