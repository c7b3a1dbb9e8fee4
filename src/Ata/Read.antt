-- ===== src/Ata/Read.antt =====
-- `ata_read_data` on a disk, for any range of bytes.
use akari.Prelude.{
  ℕ, ◌+◌, ◌*◌, ◌/◌, ◌%◌, ◌≤◌, ◌<◌, ◌≡◌, ap, ◌∙◌, List, [], ◌++◌, ltb, add32, u32_mod, slice, ok,
  arith, Bool-cases, inl, inr, slice-append, slice-slice, slice-at, if◌then◌else◌,
}
use akari.Ata.{
  Mindrvr, Service, ata_read_sectors, ata_read_data, read_part, read_from, first_count, length_left,
  sectors_done,
}
use akari.Ata.Dma.{ForDma, ForDma-part}
use akari.Ata.Disk.{IsDisk, ata_read_sectors-slice}
use akari.Ata.Parts.{Parts, parts, first_bytes}

module _ {D : Type 0} (m : Mindrvr D) (contents : D → List ℕ) (sectors : ℕ)
    (disk : IsDisk m contents sectors) (s : Service D)
    (temp : ForDma s s.memory.read_tempdata 512) where
  read_part-slice :
      (sector from count : ℕ)
      → sector < sectors
      → from + count ≤ 512
      → read_part m s sector from count ≡ ok (slice (contents s.drive) (512 * sector + from) count)
  unfolding read_part
  read_part-slice sector from count h l =
      let r =
        ata_read_sectors-slice m contents sectors disk s sector 1 s.memory.read_tempdata
          (omega arith) (omega (arith, h)) temp in
      let part =
        slice-slice (contents s.drive) (512 * sector) (512 * 1) from count (omega (arith, l)) in
      ground (arith, r, part)

  -- The parts of `read_from`, which may be empty.
  read_first :
      (sector offset len : ℕ)
      → (0 < offset → sector < sectors)
      → Parts sectors sector offset len
      → (if ltb 0 offset then read_part m s sector offset (first_count offset len) else ok [])
        ≡ ok (slice (contents s.drive) (512 * sector + offset) (first_bytes offset len))
  read_first sector offset len h p = elim (Bool-cases (ltb 0 offset)) [
    | inr z ↦ ground (arith, z)
    | inl e ↦
        let n : first_count offset len ≡ first_bytes offset len = ground (arith, e) in
        let within = p.inside in
        let x : read_part m s sector offset (first_count offset len)
            ≡ ok (slice (contents s.drive) (512 * sector + offset) (first_count offset len)) =
          read_part-slice sector offset (first_count offset len) (h (ground (arith, e)))
            (omega (arith, n, within)) in
        ground (arith, e, x)
  ]

  read_whole :
      (sector number buffer : ℕ)
      → (0 < number → sector + number ≤ sectors)
      → ForDma s buffer (512 * number)
      → (if ltb 0 number then ata_read_sectors m s sector number buffer else ok [])
        ≡ ok (slice (contents s.drive) (512 * sector) (512 * number))
  read_whole sector number buffer h c = elim (Bool-cases (ltb 0 number)) [
    | inr z ↦
        let none : number ≡ 0 = ground (arith, z) in
        let x : slice (contents s.drive) (512 * sector) (512 * number) ≡ [] =
          ap (slice (contents s.drive) (512 * sector)) {x = 512 * number} {y = 0}
            (omega (arith, none)) in
        ground (arith, z, x)
    | inl e ↦
        let some : 0 < number = ground (arith, e) in
        let x : ata_read_sectors m s sector number buffer
            ≡ ok (slice (contents s.drive) (512 * sector) (512 * number)) =
          ata_read_sectors-slice m contents sectors disk s sector number buffer some (h some) c in
        ground (arith, e, x)
  ]

  read_last :
      (sector count : ℕ)
      → (0 < count → sector < sectors)
      → count ≤ 512
      → (if ltb 0 count then read_part m s sector 0 count else ok [])
        ≡ ok (slice (contents s.drive) (512 * sector) count)
  read_last sector count h l = elim (Bool-cases (ltb 0 count)) [
    | inr z ↦
        let none : count ≡ 0 = ground (arith, z) in
        let x : slice (contents s.drive) (512 * sector) count ≡ [] =
          ap (slice (contents s.drive) (512 * sector)) {x = count} {y = 0} none in
        ground (arith, z, x)
    | inl e ↦
        let x : read_part m s sector 0 count ≡ ok (slice (contents s.drive) (512 * sector) count) =
          read_part-slice sector 0 count (h (ground (arith, e))) (omega (arith, l))
          ∙ ap (λ k. ok (slice (contents s.drive) k count)) {x = 512 * sector + 0}
              {y = 512 * sector} (omega arith) in
        ground (arith, e, x)
  ]

  -- The three parts are one range.
  three_ranges :
      (c : List ℕ) (sector offset len : ℕ)
      → Parts sectors sector offset len
      → let left = length_left offset len in
        let next = add32 sector (sectors_done offset) in
        slice c (512 * sector + offset) (first_bytes offset len)
          ++ slice c (512 * next) (512 * (left / 512))
          ++ slice c (512 * add32 next (left / 512)) (left % 512)
        ≡ slice c (512 * sector + offset) len
  three_ranges c sector offset len p =
      let left = length_left offset len in
      let next = add32 sector (sectors_done offset) in
      let f = first_bytes offset len in
      let start = 512 * sector + offset in
      let q = left / 512 in
      let at = p.at in
      let last = p.last in
      let size = p.left in
      let few = p.few in
      let whole : slice c (512 * next) (512 * q) ≡ slice c (start + f) (512 * q) =
        slice-at c (512 * q) (λ u. at (omega (arith, u))) in
      let end : slice c (512 * add32 next q) (left % 512)
          ≡ slice c (start + f + 512 * q) (left % 512) =
        slice-at c (left % 512) (λ u. omega (arith, u, last u, at (omega (arith, u)))) in
      let two : slice c start f ++ slice c (512 * next) (512 * q) ≡ slice c start (f + 512 * q) =
        ap (λ ys. slice c start f ++ ys) whole ∙ slice-append c start f (512 * q) in
      let after : start + f + 512 * q ≡ start + (f + 512 * q) = omega arith in
      ap (λ ys. ys ++ slice c (512 * add32 next q) (left % 512)) two
      ∙ ap (λ ys. slice c start (f + 512 * q) ++ ys) (end ∙ ap (λ k. slice c k (left % 512)) after)
      ∙ slice-append c start (f + 512 * q) (left % 512)
      ∙ ap (slice c start) {x = f + 512 * q + left % 512} {y = len} (omega (arith, size, few))

  read_from-slice :
      (sector offset len buffer : ℕ)
      → offset < 512
      → offset + len < u32_mod
      → 512 * sector + offset + len ≤ 512 * sectors
      → ForDma s buffer len
      → read_from m s sector offset len buffer
        ≡ ok (slice (contents s.drive) (512 * sector + offset) len)
  unfolding read_from
  read_from-slice sector offset len buffer small wide h c =
      let p = parts sectors sector offset len disk.few small wide h in
      let left = length_left offset len in
      let next = add32 sector (sectors_done offset) in
      let inside = p.last_inside in
      let last = p.last in
      let x = read_first sector offset len (λ u. omega (arith, u, h)) p in
      let y = read_whole next (left / 512) (buffer + first_bytes offset len) p.whole (
        ForDma-part s buffer len (first_bytes offset len) (512 * (left / 512))
          (omega (arith, p.left, p.few)) c) in
      let z =
        read_last (add32 next (left / 512)) (left % 512) (λ u. omega (arith, last u, inside u))
          (omega arith) in
      let range = three_ranges (contents s.drive) sector offset len p in
      ground (arith, x, y, z, range)

  -- On a disk, a read whose range of bytes is on it, with an offset and a length that add up to a u32,
  -- succeeds with just these bytes. With DMA the buffer and `tempdata` are taken to be contiguous in
  -- physical memory.
  pub ata_read_data-slice :
      (sector offset len buffer : ℕ)
      → offset + len < u32_mod
      → 512 * sector + offset + len ≤ 512 * sectors
      → ForDma s buffer len
      → ata_read_data m s sector offset len buffer
        ≡ ok (slice (contents s.drive) (512 * sector + offset) len)
  unfolding ata_read_data
  ata_read_data-slice sector offset len buffer wide h c =
      let few = disk.few in
      let open_at : add32 sector (offset / 512) ≡ sector + offset / 512 = omega (arith, few, h) in
      let at : 512 * (sector + offset / 512) + offset % 512 ≡ 512 * sector + offset = omega arith in
      ap (λ k. read_from m s k (offset % 512) len buffer) open_at
      ∙ read_from-slice (sector + offset / 512) (offset % 512) len buffer (omega arith)
          (omega (arith, wide)) (omega (arith, h)) c
      ∙ ap (λ k. ok (slice (contents s.drive) k len)) at
