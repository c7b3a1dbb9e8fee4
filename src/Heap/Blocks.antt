-- ===== src/Heap/Blocks.antt =====
-- Indexes that hold the same blocks, whatever became of their holes.
use mathlib.Core.Bool.{false≢true}
use akari.Prelude.{◌≡◌, sym, ap, ◌∙◌, true, false, List, Pick, same, apart, Pick-Diamond, Pick-swap}
use akari.Heap.{Entry}
use akari.Heap.Merge.{Fused}

-- The blocks of `ys` are those of `xs`.
pub record SameBlocks (xs ys : List Entry) : Type 0 where
  pub kept :
      (d : Entry) (rest : List Entry)
      → d.is_hole ≡ false
      → Pick d xs rest
      → (rest' : List Entry) × Pick d ys rest'
  pub none_new :
      (d : Entry) (rest : List Entry)
      → d.is_hole ≡ false
      → Pick d ys rest
      → (rest' : List Entry) × Pick d xs rest'

pub SameBlocks-refl : (xs : List Entry) → SameBlocks xs xs
SameBlocks-refl xs = record { kept = λ d rest h p. (rest, p); none_new = λ d rest h p. (rest, p) }

pub SameBlocks-trans :
    {xs ys zs : List Entry} → SameBlocks xs ys → SameBlocks ys zs → SameBlocks xs zs
SameBlocks-trans s t = record {
  kept = λ d rest h p. let (_, q) = s.kept d rest h p in t.kept d _ h q;
  none_new = λ d rest h p. let (_, q) = t.none_new d rest h p in s.none_new d _ h q;
}

-- An element other than the picked one is among the rest.
pub other :
    {d e : Entry} {xs xs' rest : List Entry}
    → Pick d xs rest
    → Pick e xs xs'
    → d.is_hole ≡ false
    → e.is_hole ≡ true
    → (ys : List Entry) × Pick d xs' ys
other p q f t = elim (Pick-Diamond q p) [
  | same u v ↦ absurd (false≢true (sym f ∙ ap (λ (z : Entry). z.is_hole) (sym u) ∙ t))
  | apart r s ↦ (_, r)
]

-- And one of the rest is in the whole.
pub among :
    {d e : Entry} {xs xs' rest : List Entry}
    → Pick e xs xs'
    → Pick d xs' rest
    → (ys : List Entry) × Pick d xs ys
among q p = let (ys, r, _) = Pick-swap q p in (ys, r)

-- Fusing two holes changes no block.
pub Fused-SameBlocks :
    {g f c : Entry} {xs ys : List Entry}
    → Fused g f c xs ys
    → g.is_hole ≡ true
    → f.is_hole ≡ true
    → c.is_hole ≡ true
    → SameBlocks xs ys
Fused-SameBlocks r hg hf hc = record {
  kept = λ d rest h p.
      let (_, p1) = other p r.first h hg in
      let (_, p2) = other p1 r.second h hf in among r.result p2;
  none_new = λ d rest h p.
      let (_, p1) = other p r.result h hc in let (_, p2) = among r.second p1 in among r.first p2;
}
