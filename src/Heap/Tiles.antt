-- ===== src/Heap/Tiles.antt =====
-- Entries that tile an interval of addresses, in whatever order the index holds them.
use mathlib.Core.Path.{subst₂}
use akari.Prelude.{
  ℕ, ◌+◌, ◌≤◌, ◌<◌, ◌≡◌, refl, sym, ap, subst, ◌⊎◌, inl, inr, List, [], ◌∷◌, ◌++◌, arith, Pick,
  same, apart, Pick-Diamond, Pick-swap, All, All-Pick, Pick-All,
}
use akari.Heap.{Entry}

-- One entry after the other leads from `lo` to `hi`, and none is left over.
pub data Tiles : ℕ → ℕ → List Entry → Type 0 where
  done : {lo hi : ℕ} → lo ≡ hi → Tiles lo hi []
  next :
      {lo hi : ℕ} (e : Entry) {xs rest : List Entry}
      → Pick e xs rest
      → e.start ≡ lo
      → Tiles (lo + e.size) hi rest
      → Tiles lo hi xs

Tiles-cast :
    {lo lo' hi : ℕ} {xs ys : List Entry} → lo ≡ lo' → xs ≡ ys → Tiles lo hi xs → Tiles lo' hi ys
Tiles-cast {hi = hi} e u = subst₂ (λ a l. Tiles a hi l) e u

starts_eq : {d e : Entry} → d ≡ e → d.start ≡ e.start
starts_eq = ap (λ z. z.start)

sizes_eq : {d e : Entry} → d ≡ e → d.size ≡ e.size
sizes_eq = ap (λ z. z.size)

abbrev pub Positive : List Entry → Type 0
Positive = All (λ (e : Entry). 0 < e.size)

pub Tiles-le : {lo hi : ℕ} {xs : List Entry} → Tiles lo hi xs → lo ≤ hi
Tiles-le (done e) = omega arith
Tiles-le (next e p s t) = omega (arith, Tiles-le t)

-- Every entry lies within the interval.
pub Tiles-bounds :
    {lo hi : ℕ} {e : Entry} {xs rest : List Entry}
    → Tiles lo hi xs
    → Pick e xs rest
    → (lo ≤ e.start) × (e.start + e.size ≤ hi)
Tiles-bounds (done _) p = elim p [ ]
Tiles-bounds (next x q s t) p = elim (Pick-Diamond q p) [
  | same u v ↦ ground (arith, u, Tiles-le t)
  | apart r w ↦ omega (arith, Tiles-bounds t r)
]

-- Two entries do not overlap.
abbrev pub Disjoint : Entry → Entry → Type 0
Disjoint d e = (d.start + d.size ≤ e.start) ⊎ (e.start + e.size ≤ d.start)

pub Tiles-Disjoint :
    {lo hi : ℕ} {d e : Entry} {xs ys zs : List Entry}
    → Tiles lo hi xs
    → Pick d xs ys
    → Pick e ys zs
    → Disjoint d e
Tiles-Disjoint (done _) p q = elim p [ ]
Tiles-Disjoint {d} {e} {zs} (next x o s t) p q = elim (Pick-Diamond o p) [
  | same u v ↦
      let b = Tiles-bounds t (subst (λ l. Pick e l zs) (sym v) q) in
      inl (omega (arith, b, starts_eq u, sizes_eq u))
  | apart r w ↦ elim (Pick-Diamond w q) [
    | same u v ↦ let b = Tiles-bounds t r in inr (omega (arith, b, starts_eq u, sizes_eq u))
    | apart g h ↦ Tiles-Disjoint t r g
  ]
]

-- Entries one after the other from `lo` to `hi`.
abbrev pub Chain : ℕ → ℕ → List Entry → Type 0
Chain lo hi [] = lo ≡ hi
Chain lo hi (e ∷ es) = (e.start ≡ lo) × Chain (lo + e.size) hi es

-- `xs` holds the entries `es` and those of `rest`.
pub data Picks : List Entry → List Entry → List Entry → Type 0 where
  none_left : {xs : List Entry} → Picks [] xs xs
  picked :
      {e : Entry} {es xs ys rest : List Entry}
      → Pick e xs ys
      → Picks es ys rest
      → Picks (e ∷ es) xs rest

pub Picks-All :
    (P : Entry → Type 0) {es xs rest : List Entry}
    → Picks es xs rest
    → All P es
    → All P rest
    → All P xs
Picks-All P none_left h r = r
Picks-All P (picked p ps) h r = Pick-All P p h.0 (Picks-All P ps h.1 r)

pub Picks-append :
    {ds es xs ys rest : List Entry} → Picks ds xs ys → Picks es ys rest → Picks (ds ++ es) xs rest
Picks-append none_left q = q
Picks-append (picked p ps) q = picked p (Picks-append ps q)

pub Picks-split :
    (ds : List Entry) {es xs rest : List Entry}
    → Picks (ds ++ es) xs rest
    → (mid : List Entry) × Picks ds xs mid × Picks es mid rest
Picks-split [] p = (_, none_left, p)
Picks-split (d ∷ ds) (picked p ps) = let (mid, q, r) = Picks-split ds ps in (mid, picked p q, r)

pub Picks-none : {xs ys : List Entry} → Picks [] xs ys → xs ≡ ys
Picks-none none_left = refl

pub Picks-one : {e : Entry} {xs ys : List Entry} → Picks (e ∷ []) xs ys → Pick e xs ys
Picks-one {e} {xs} (picked p q) = subst (Pick e xs) (Picks-none q) p

Picks-swap :
    {x : Entry} {es xs ys zs : List Entry}
    → Picks es xs ys
    → Pick x ys zs
    → (ws : List Entry) × Pick x xs ws × Picks es ws zs
Picks-swap none_left q = (_, q, none_left)
Picks-swap (picked p ps) q =
    let (us, r, rs) = Picks-swap ps q in let (vs, a, b) = Pick-swap p r in (vs, a, picked b rs)

Tiles-Chain :
    {mid hi : ℕ} {es xs rest : List Entry}
    → Picks es xs rest
    → (lo : ℕ) → Chain lo mid es
    → Tiles mid hi rest
    → Tiles lo hi xs
Tiles-Chain {hi = hi} (none_left {xs}) lo c t = subst (λ a. Tiles a hi xs) (sym c) t
Tiles-Chain (picked {e} p ps) lo c t = next e p c.0 (Tiles-Chain ps (lo + e.size) c.1 t)

-- An entry may be replaced by entries that tile its own interval.
pub Tiles-replace :
    {lo hi : ℕ} {h : Entry} {es xs rest ys : List Entry}
    → Tiles lo hi xs
    → Pick h xs rest
    → Picks es ys rest
    → Chain h.start (h.start + h.size) es
    → Tiles lo hi ys
Tiles-replace (done _) p ps c = elim p [ ]
Tiles-replace {lo} {hi} {h} {es} (next x q s t) p ps c = elim (Pick-Diamond q p) [
  | same u v ↦
      Tiles-Chain ps lo
        (subst₂ (λ a b. Chain a b es) (omega (arith, starts_eq u)) (omega (arith, starts_eq u)) c)
        (Tiles-cast (ap (◌+◌ lo) (sizes_eq u)) v t)
  | apart r w ↦ let (ws, a, b) = Picks-swap ps w in next x a s (Tiles-replace t r b c)
]

-- The entry that begins where the interval does comes first.
Tiles-head :
    {lo hi : ℕ} {b : Entry} {xs rest : List Entry}
    → Tiles lo hi xs
    → Positive xs
    → Pick b xs rest
    → b.start ≡ lo
    → Tiles (lo + b.size) hi rest
Tiles-head (done _) v p e = elim p [ ]
Tiles-head {lo} {hi} {b} {rest = rest} (next x o s t) v p e = elim (Pick-Diamond o p) [
  | same u w ↦ Tiles-cast (ap (◌+◌ lo) (sizes_eq u)) w t
  | apart r w ↦
      let first = All-Pick (λ (z : Entry). 0 < z.size) o v in
      absurd (omega (arith, Tiles-bounds t r))
]

-- Two entries next to each other may be replaced by one.
pub Tiles-merge :
    {lo hi : ℕ} {a b c : Entry} {xs ys rest zs : List Entry}
    → Tiles lo hi xs
    → Positive xs
    → Pick a xs ys
    → Pick b ys rest
    → Pick c zs rest
    → b.start ≡ a.start + a.size
    → c.start ≡ a.start
    → c.size ≡ a.size + b.size
    → Tiles lo hi zs
Tiles-merge (done _) v p q r e f g = elim p [ ]
Tiles-merge {lo} {hi} {a} {b} {c} {xs} {ys} {rest} {zs} (next x o s t) v p q r e f g =
    let first = All-Pick (λ (z : Entry). 0 < z.size) o v in
    elim (Pick-Diamond o p) [
      | same u w ↦ next c r (omega (arith, starts_eq u)) (
          Tiles-cast (omega (arith, sizes_eq u)) refl (
            Tiles-head t first.1 (subst (λ l. Pick b l rest) (sym w) q)
              (omega (arith, starts_eq u, sizes_eq u))))
      | apart k w ↦ elim (Pick-Diamond w q) [
        | same u _ ↦ absurd (omega (arith, Tiles-bounds t k, starts_eq u, sizes_eq u))
        | apart m n ↦
            let (ws, l, o') = Pick-swap r n in next x l s (Tiles-merge t first.1 k m o' e f g)
      ]
    ]
