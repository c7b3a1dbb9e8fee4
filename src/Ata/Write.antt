-- ===== src/Ata/Write.antt =====
-- `ata_write_data` on a disk, for any range of bytes.
use akari.Prelude.{
  ℕ, ◌+◌, ◌*◌, ◌/◌, ◌%◌, ◌≤◌, ◌<◌, ◌≡◌, ap, ◌∙◌, refl, List, [], ◌∷◌, ◌++◌, take, drop, length, ltb,
  add32, u32_mod, ok, arith, Bool-cases, inl, inr, take-append_take, append_assoc, length-take,
  length-drop, length-append, if◌then◌else◌, Result, subst,
}
use akari.Ata.{
  Mindrvr, Service, ata_write_sectors, write_part, write_from, ata_write_data, first_count,
  length_left, sectors_done,
}
use akari.Ata.Dma.{ForDma, ForDma-kept}
use akari.Ata.Disk.{IsDisk, Wrote, Wrote-nothing, Wrote-append}
use akari.Ata.Sectors.{ata_write_sectors-Wrote, write_part-Wrote}
use akari.Ata.Parts.{Parts, parts, first_bytes}

module _ {D : Type 0} (m : Mindrvr D) (contents : D → List ℕ) (sectors : ℕ)
    (disk : IsDisk m contents sectors) where
  -- A step of a write that ends with some bytes written.
  abbrev Writes : Service D → Result (Service D) → ℕ → List ℕ → Type 0
  Writes s r at bytes = (s' : Service D) × (r ≡ ok s') × Wrote contents s s' at bytes

  Writes-nothing :
      (s : Service D) (at : ℕ) (bytes : List ℕ) → length bytes ≡ 0 → Writes s (ok s) at bytes
  Writes-nothing s at [] e = (s, refl, Wrote-nothing contents s at)
  Writes-nothing s at (b ∷ bytes) e = absurd (omega (arith, e))

  -- What the service needs of its `tempdata`.
  abbrev Temp : Service D → Type 0
  Temp s = ForDma s s.memory.write_tempdata 512

  Temp-Wrote :
      {s s' : Service D} {at : ℕ} {bytes : List ℕ} → Wrote contents s s' at bytes → Temp s → Temp s'
  Temp-Wrote {s} {s'} w t =
      ForDma-kept s s' (λ mem. mem.write_tempdata) 512 w.dma_kept w.memory_kept t

  write_first :
      (s : Service D) (sector offset len : ℕ) (buffer : List ℕ)
      → Temp s
      → (0 < offset → sector < sectors)
      → Parts sectors sector offset len
      → len ≤ length buffer
      → Writes s
          (if ltb 0 offset
            then write_part m s sector offset (take (first_count offset len) buffer)
            else ok s)
          (512 * sector + offset)
          (take (first_bytes offset len) buffer)
  write_first s sector offset len buffer t h p l =
      let few = p.few in
      let within = p.inside in
      let f = first_bytes offset len in
      elim (Bool-cases (ltb 0 offset)) [
        | inr z ↦
            let none : f ≡ 0 = ground (arith, z) in
            let (s', x, w) =
              Writes-nothing s (512 * sector + offset) (take f buffer)
                (omega (arith, none, length-take f buffer)) in
            (s', ground (arith, z, x), w)
        | inl e ↦
            let n : first_count offset len ≡ f = ground (arith, e) in
            let bytes = take f buffer in
            let (s', x, w) =
              write_part-Wrote m contents sectors disk s sector offset bytes t
                (h (ground (arith, e))) (omega (arith, within, l, few, length-take f buffer)) in
            let x' : write_part m s sector offset (take (first_count offset len) buffer) ≡ ok s' =
              ap (λ k. write_part m s sector offset (take k buffer)) n ∙ x in
            (s', ground (arith, e, x'), w)
      ]

  write_whole :
      (s : Service D) (sector number at : ℕ) (buffer : List ℕ)
      → (0 < number → sector + number ≤ sectors)
      → (0 < number → 512 * sector ≡ at)
      → 512 * number ≤ length buffer
      → Writes s
          (if ltb 0 number then ata_write_sectors m s sector number buffer else ok s)
          at
          (take (512 * number) buffer)
  write_whole s sector number at buffer h e l = elim (Bool-cases (ltb 0 number)) [
    | inr z ↦
        let none : number ≡ 0 = ground (arith, z) in
        let (s', x, w) =
          Writes-nothing s at (take (512 * number) buffer)
            (omega (arith, none, length-take (512 * number) buffer)) in
        (s', ground (arith, z, x), w)
    | inl b ↦
        let pos : 0 < number = ground (arith, b) in
        let (s', x, w) =
          ata_write_sectors-Wrote m contents sectors disk s sector number buffer pos (h pos) l in
        (
          s',
          ground (arith, b, x),
          subst (λ k. Wrote contents s s' k (take (512 * number) buffer)) (e pos) w,
        )
  ]

  write_last :
      (s : Service D) (sector count at : ℕ) (bytes : List ℕ)
      → Temp s
      → (0 < count → sector < sectors)
      → (0 < count → 512 * sector ≡ at)
      → count ≤ 512
      → length bytes ≡ count
      → Writes s (if ltb 0 count then write_part m s sector 0 bytes else ok s) at bytes
  write_last s sector count at bytes t h e small n = elim (Bool-cases (ltb 0 count)) [
    | inr z ↦
        let (s', x, w) = Writes-nothing s at bytes (ground (arith, z, n)) in
        (s', ground (arith, z, x), w)
    | inl b ↦
        let pos : 0 < count = ground (arith, b) in
        let (s', x, w) =
          write_part-Wrote m contents sectors disk s sector 0 bytes t (h pos)
            (omega (arith, n, small)) in
        let start : 512 * sector + 0 ≡ at = omega (arith, e pos) in
        (s', ground (arith, b, x), subst (λ k. Wrote contents s s' k bytes) start w)
  ]

  -- The bytes after the first part.
  later_bytes :
      (offset len : ℕ) (buffer : List ℕ)
      → (if ltb 0 offset then drop (first_count offset len) buffer else buffer)
        ≡ drop (first_bytes offset len) buffer
  later_bytes offset len buffer = elim (Bool-cases (ltb 0 offset)) [
    | inl e ↦ ground (arith, e)
    | inr e ↦ ground (arith, e)
  ]

  -- A buffer in three parts.
  parts_of_buffer :
      (f q r len : ℕ) (buffer : List ℕ)
      → f + (q + r) ≡ len
      → take f buffer ++ take q (drop f buffer) ++ take r (drop q (drop f buffer)) ≡ take len buffer
  parts_of_buffer f q r len buffer e =
      append_assoc (take f buffer) (take q (drop f buffer)) (take r (drop q (drop f buffer)))
      ∙ ap (◌++◌ (take f buffer)) (take-append_take q r (drop f buffer))
      ∙ take-append_take f (q + r) buffer
      ∙ ap (λ k. take k buffer) e

  write_from-steps :
      (s s1 s2 s3 : Service D) (sector offset len : ℕ) (buffer : List ℕ)
      → let left = length_left offset len in
        let next = add32 sector (sectors_done offset) in
        let after = drop (first_bytes offset len) buffer in
        let last = take (left % 512) (drop (512 * (left / 512)) after) in
        (if ltb 0 offset
            then write_part m s sector offset (take (first_count offset len) buffer)
            else ok s)
          ≡ ok s1
        → (if ltb 0 (left / 512) then ata_write_sectors m s1 next (left / 512) after else ok s1)
          ≡ ok s2
        → (if ltb 0 (left % 512) then write_part m s2 (add32 next (left / 512)) 0 last else ok s2)
          ≡ ok s3
        → write_from m s sector offset len buffer ≡ ok s3
  unfolding write_from
  write_from-steps s s1 s2 s3 sector offset len buffer x y z =
      let later = later_bytes offset len buffer in ground (arith, x, y, z, later)

  write_from-Writes :
      (s : Service D) (sector offset len : ℕ) (buffer : List ℕ)
      → Temp s
      → offset < 512
      → offset + len < u32_mod
      → 512 * sector + offset + len ≤ 512 * sectors
      → len ≤ length buffer
      → Writes s (write_from m s sector offset len buffer) (512 * sector + offset) (take len buffer)
  write_from-Writes s sector offset len buffer t small wide h l =
      let p = parts sectors sector offset len disk.few small wide h in
      let left = length_left offset len in
      let next = add32 sector (sectors_done offset) in
      let f = first_bytes offset len in
      let start = 512 * sector + offset in
      let q = left / 512 in
      let after = drop f buffer in
      let size = p.left in
      let few = p.few in
      let n1 = length-take f buffer in
      let n2 = length-drop f buffer in
      let n3 = length-take (512 * q) after in
      let n4 = length-drop (512 * q) after in
      let tail = take (left % 512) (drop (512 * q) after) in
      let n5 : length tail ≡ left % 512 =
        omega (arith, n2, n4, size, few, l, length-take (left % 512) (drop (512 * q) after)) in
      let (s1, x1, w1) = write_first s sector offset len buffer t (λ u. omega (arith, u, h)) p l in
      let (s2, x2, w2) =
        write_whole s1 next q (start + length (take f buffer)) after p.whole
          (λ u. omega (arith, u, n1, few, l, p.at (omega (arith, u))))
          (omega (arith, n2, size, few, l)) in
      let w12 = Wrote-append contents w1 w2 in
      let (s3, x3, w3) =
        write_last s2 (add32 next q) (left % 512)
          (start + length (take f buffer ++ take (512 * q) after)) tail (Temp-Wrote w12 t)
          (λ u. omega (arith, p.last u, p.last_inside u))
          (λ u. omega (
            arith,
            u,
            n1,
            n2,
            n3,
            few,
            size,
            l,
            p.at (omega (arith, u)),
            p.last u,
            length-append (take f buffer) (take (512 * q) after),
          ))
          (omega arith) n5 in
      let all : take f buffer ++ take (512 * q) after ++ tail ≡ take len buffer =
        parts_of_buffer f (512 * q) (left % 512) len buffer (omega (arith, size, few)) in
      (
        s3,
        write_from-steps s s1 s2 s3 sector offset len buffer x1 x2 x3,
        subst (Wrote contents s s3 start) all (Wrote-append contents w12 w3),
      )

  -- On a disk, a write whose range of bytes is on it, with an offset and a length that add up to a u32
  -- and a buffer of at least this length, succeeds; it replaces these bytes, and no others, and keeps the
  -- memory, the partitions and the use of DMA. With DMA `tempdata` is taken to be contiguous in physical
  -- memory.
  pub ata_write_data-Wrote :
      (s : Service D) (sector offset len : ℕ) (buffer : List ℕ)
      → ForDma s s.memory.write_tempdata 512
      → offset + len < u32_mod
      → 512 * sector + offset + len ≤ 512 * sectors
      → len ≤ length buffer
      → (s' : Service D) × (ata_write_data m s sector offset len buffer ≡ ok s')
        × Wrote contents s s' (512 * sector + offset) (take len buffer)
  unfolding ata_write_data
  ata_write_data-Wrote s sector offset len buffer t wide h l =
      let few = disk.few in
      let open_at : add32 sector (offset / 512) ≡ sector + offset / 512 = omega (arith, few, h) in
      let at : 512 * (sector + offset / 512) + offset % 512 ≡ 512 * sector + offset = omega arith in
      let (s', x, w) =
        write_from-Writes s (sector + offset / 512) (offset % 512) len buffer t (omega arith)
          (omega (arith, wide)) (omega (arith, h)) l in
      let x' : write_from m s (add32 sector (offset / 512)) (offset % 512) len buffer ≡ ok s' =
        ap (λ k. write_from m s k (offset % 512) len buffer) open_at ∙ x in
      (s', ground (arith, l, x'), subst (λ k. Wrote contents s s' k (take len buffer)) at w)
