-- ===== src/Ata/Sectors.antt =====
-- Writes of whole sectors, and of a part of one.
use akari.Prelude.{
  ℕ, zero, suc, ◌+◌, ◌-◌, ◌*◌, ◌≤◌, ◌<◌, ◌≡◌, ap, ◌∙◌, refl, List, ◌++◌, take, drop, length, ltb,
  add32, slice, overwrite, ok, arith, Bool-cases, inl, inr, length-overwrite, take-append_take,
  take-all, length-take, length-drop, overwrite-overwrite-slice, subst,
}
use akari.Ata.{Mindrvr, Service, transfer_out, write_rounds, write_part, ata_write_sectors}
use akari.Ata.Dma.{ForDma}
use akari.Ata.Disk.{IsDisk, Wrote, Wrote-append, ata_read_sectors-slice}

module _ {D : Type 0} (m : Mindrvr D) (contents : D → List ℕ) (sectors : ℕ)
    (disk : IsDisk m contents sectors) where
  transfer_out-Wrote :
      (s : Service D) (start number : ℕ) (bytes : List ℕ)
      → 0 < number
      → number ≤ 256
      → start + number ≤ sectors
      → length bytes ≡ 512 * number
      → Wrote contents s (transfer_out m s start number bytes) (512 * start) bytes
  transfer_out-Wrote s start number bytes lo hi h e = record {
    contents_after = disk.data_out s.drive start number bytes lo hi h e;
    memory_kept = refl;
    dma_kept = refl;
    partitions_kept = refl;
  }

  write_rounds-Wrote :
      (s : Service D) (start number : ℕ) (buffer : List ℕ) (rounds : ℕ)
      → 0 < number
      → number < rounds
      → start + number ≤ sectors
      → 512 * number ≤ length buffer
      → (s' : Service D) × (write_rounds m s start number buffer rounds ≡ ok s')
        × Wrote contents s s' (512 * start) (take (512 * number) buffer)
  unfolding write_rounds
  write_rounds-Wrote s start number buffer zero lo u h l = absurd (omega (arith, u))
  write_rounds-Wrote s start number buffer (suc rounds) lo u h l =
      elim (Bool-cases (ltb 256 number)) [
        | inr e ↦ (
          transfer_out m s start number (take (512 * number) buffer),
          ground (arith, e),
          transfer_out-Wrote s start number (take (512 * number) buffer) lo (ground (arith, e)) h
              (omega (arith, l, length-take (512 * number) buffer)),
        )
        | inl e ↦
            let more : 256 < number = ground (arith, e) in
            let few = disk.few in
            let next : add32 start 256 ≡ start + 256 = omega (arith, few, h, more) in
            let now = take (512 * 256) buffer in
            let later = drop (512 * 256) buffer in
            let n : length now ≡ 512 * 256 =
              omega (arith, l, more, length-take (512 * 256) buffer) in
            let s1 = transfer_out m s start 256 now in
            let first =
              transfer_out-Wrote s start 256 now (omega arith) (omega arith)
                (omega (arith, h, more)) n in
            let (s', x, rest) =
              write_rounds-Wrote s1 (start + 256) (number - 256) later rounds (omega (arith, more))
                (omega (arith, more, u)) (omega (arith, more, h))
                (omega (arith, more, l, length-drop (512 * 256) buffer)) in
            let x' : write_rounds m s1 (add32 start 256) (number - 256) later rounds ≡ ok s' =
              ap (λ k. write_rounds m s1 k (number - 256) later rounds) next ∙ x in
            let at : 512 * (start + 256) ≡ 512 * start + length now = omega (arith, n) in
            let both : now ++ take (512 * (number - 256)) later ≡ take (512 * number) buffer =
              take-append_take (512 * 256) (512 * (number - 256)) buffer
              ∙ ap (λ k. take k buffer) (omega (arith, more)) in
            (
              s',
              ground (arith, e, x'),
              subst (Wrote contents s s' (512 * start)) both (
                  Wrote-append contents first (
                    subst (λ k. Wrote contents s1 s' k (take (512 * (number - 256)) later)) at
                      rest)),
            )
      ]

  pub ata_write_sectors-Wrote :
      (s : Service D) (start number : ℕ) (buffer : List ℕ)
      → 0 < number
      → start + number ≤ sectors
      → 512 * number ≤ length buffer
      → (s' : Service D) × (ata_write_sectors m s start number buffer ≡ ok s')
        × Wrote contents s s' (512 * start) (take (512 * number) buffer)
  ata_write_sectors-Wrote s start number buffer lo h l =
      write_rounds-Wrote s start number buffer (suc number) lo (omega arith) h l

  pub write_part-Wrote :
      (s : Service D) (sector from : ℕ) (bytes : List ℕ)
      → ForDma s s.memory.write_tempdata 512
      → sector < sectors
      → from + length bytes ≤ 512
      → (s' : Service D) × (write_part m s sector from bytes ≡ ok s')
        × Wrote contents s s' (512 * sector + from) bytes
  unfolding write_part
  write_part-Wrote s sector from bytes t h l =
      let c = contents s.drive in
      let size = disk.size s.drive in
      let temp = slice c (512 * sector) (512 * 1) in
      let changed = overwrite temp from bytes in
      let n : length changed ≡ 512 * 1 = omega (
        arith,
        h,
        size,
        length-overwrite temp from bytes,
        length-take (512 * 1) (drop (512 * sector) c),
        length-drop (512 * sector) c,
      ) in
      let r =
        ata_read_sectors-slice m contents sectors disk s sector 1 s.memory.write_tempdata
          (omega arith) (omega (arith, h)) t in
      let (s', x, w) =
        ata_write_sectors-Wrote s sector 1 changed (omega arith) (omega (arith, h))
          (omega (arith, n)) in
      (
        s',
        ground (arith, r, x),
        record {
          contents_after =
              w.contents_after
              ∙ ap (overwrite c (512 * sector)) (take-all (512 * 1) changed (omega (arith, n)))
              ∙ overwrite-overwrite-slice c (512 * sector) (512 * 1) from bytes (omega (arith, l));
          memory_kept = w.memory_kept;
          dma_kept = w.dma_kept;
          partitions_kept = w.partitions_kept;
        },
      )
