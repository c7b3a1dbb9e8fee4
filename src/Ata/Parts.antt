-- ===== src/Ata/Parts.antt =====
-- A range of bytes in three parts: in its first sector, in whole sectors, and in its last.
use Prim.Native.Nat.{min}
use akari.Prelude.{
  ℕ, ◌+◌, ◌-◌, ◌*◌, ◌/◌, ◌%◌, ◌^◌, ◌≤◌, ◌<◌, ◌≡◌, ltb, add32, sub32, arith, Bool-cases, inl, inr,
  true, if◌then◌else◌, u32_mod,
}
use akari.Ata.{first_count, length_left, sectors_done}

-- The bytes of the first part.
abbrev pub first_bytes : ℕ → ℕ → ℕ
first_bytes offset len = if ltb 0 offset then first_count offset len else 0

-- Where the other parts are: `next` is the sector that the second begins with.
pub record Parts (sectors sector offset len : ℕ) : Type 0 where
  pub few : first_bytes offset len ≤ len
  pub inside : offset + first_bytes offset len ≤ 512
  pub left : length_left offset len ≡ len - first_bytes offset len
  pub at :
      0 < length_left offset len
      → 512 * add32 sector (sectors_done offset) ≡ 512 * sector + offset + first_bytes offset len
  pub whole :
      0 < length_left offset len / 512
      → add32 sector (sectors_done offset) + length_left offset len / 512 ≤ sectors
  pub last :
      0 < length_left offset len % 512
      → add32 (add32 sector (sectors_done offset)) (length_left offset len / 512)
        ≡ add32 sector (sectors_done offset) + length_left offset len / 512
  pub last_inside :
      0 < length_left offset len % 512
      → add32 sector (sectors_done offset) + length_left offset len / 512 < sectors

first_length :
    (offset len : ℕ)
    → offset < 512
    → offset + len < u32_mod
    → sub32 len (sub32 (min 512 (add32 offset len)) offset) ≡ len - min (512 - offset) len
first_length offset len small wide =
    let sum : add32 offset len ≡ offset + len = omega (arith, wide) in
    let taken : sub32 (min 512 (add32 offset len)) offset ≡ min (512 - offset) len =
      omega (arith, sum, small) in
    omega (arith, taken, wide)

module _ (sectors sector offset len : ℕ) (few : sectors ≤ 2 ^ 28) (small : offset < 512)
    (wide : offset + len < u32_mod) (h : 512 * sector + offset + len ≤ 512 * sectors) where
  Parts-aligned : offset ≡ 0 → Parts sectors sector offset len
  Parts-aligned z = record {
    few = ground (arith, z);
    inside = ground (arith, z);
    left = ground (arith, z);
    at = λ u. ground (arith, z, u, h, few);
    whole = λ u. ground (arith, z, u, h, few);
    last = λ u. ground (arith, z, u, h, few);
    last_inside = λ u. ground (arith, z, u, h, few);
  }

  Parts-inside : 0 < offset → Parts sectors sector offset len
  Parts-inside p =
      let b : ltb 0 offset ≡ true = ground (arith, p) in
      let n : first_bytes offset len ≡ min (512 - offset) len = ground (arith, b) in
      let l : length_left offset len ≡ len - min (512 - offset) len =
        ground (arith, b, first_length offset len small wide) in
      let next : sectors_done offset ≡ 1 = ground (arith, b) in
      record {
        few = omega (arith, n);
        inside = omega (arith, n, small);
        left = omega (arith, n, l);
        at = λ u. omega (arith, n, l, next, u, h, few);
        whole = λ u. omega (arith, l, next, u, h, few);
        last = λ u. omega (arith, l, next, u, h, few);
        last_inside = λ u. omega (arith, l, next, u, h, few);
      }

  pub parts : Parts sectors sector offset len
  parts = elim (Bool-cases (ltb 0 offset)) [
    | inl p ↦ Parts-inside (ground (arith, p))
    | inr z ↦ Parts-aligned (ground (arith, z))
  ]
