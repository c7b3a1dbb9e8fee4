-- ===== src/Ata/Disk.antt =====
-- A disk behind the calls of MINDRVR, and transfers of any number of sectors.
use akari.Prelude.{
  ℕ, zero, suc, ◌+◌, ◌-◌, ◌*◌, ◌^◌, ◌≤◌, ◌<◌, ◌≡◌, ap, sym, ◌∙◌, refl, List, [], ◌++◌, length, ltb,
  add32, slice, overwrite, ok, arith, Bool-cases, inl, inr, slice-append, overwrite-append,
  overwrite-nothing,
}
use akari.Paging.{phys_addr}
use akari.Ata.Dma.{ForDma, ForDma-part, lands-Contiguous}
use akari.Ata.{Mindrvr, Service, transfer_in, read_rounds, ata_read_sectors}

-- What ATA drives with addresses of 28 bits do: `contents` is the bytes of the `sectors` sectors, and
-- one command moves 1 to 256 of them.
pub record IsDisk {D : Type 0} (m : Mindrvr D) (contents : D → List ℕ) (sectors : ℕ) : Type 0 where
  pub few : sectors ≤ 2 ^ 28
  pub size : (d : D) → length (contents d) ≡ 512 * sectors
  pub data_in :
      (d : D) (start number : ℕ)
      → 0 < number
      → number ≤ 256
      → start + number ≤ sectors
      → m.data_in d start number ≡ slice (contents d) (512 * start) (512 * number)
  pub dma_in :
      (d : D) (start number phys : ℕ)
      → 0 < number
      → number ≤ 256
      → start + number ≤ sectors
      → m.dma_in d start number phys ≡ slice (contents d) (512 * start) (512 * number)
  pub data_out :
      (d : D) (start number : ℕ) (bytes : List ℕ)
      → 0 < number
      → number ≤ 256
      → start + number ≤ sectors
      → length bytes ≡ 512 * number
      → contents (m.data_out d start number bytes) ≡ overwrite (contents d) (512 * start) bytes
  pub dma_config : (d : D) (bar4 : ℕ) → contents (m.dma_config d bar4) ≡ contents d

module _ {D : Type 0} (contents : D → List ℕ) where
  -- The service after a write: nothing but the drive's contents changes.
  pub record Wrote (s s' : Service D) (at : ℕ) (bytes : List ℕ) : Type 0 where
    pub contents_after : contents s'.drive ≡ overwrite (contents s.drive) at bytes
    pub memory_kept : s'.memory ≡ s.memory
    pub dma_kept : s'.dma_enabled ≡ s.dma_enabled
    pub partitions_kept : s'.partitions ≡ s.partitions

  pub Wrote-nothing : (s : Service D) (at : ℕ) → Wrote s s at []
  Wrote-nothing s at = record {
    contents_after = sym (overwrite-nothing (contents s.drive) at);
    memory_kept = refl;
    dma_kept = refl;
    partitions_kept = refl;
  }

  -- Two writes, the second where the first ends.
  pub Wrote-append :
      {s s' s'' : Service D} {at : ℕ} {xs ys : List ℕ}
      → Wrote s s' at xs
      → Wrote s' s'' (at + length xs) ys
      → Wrote s s'' at (xs ++ ys)
  Wrote-append {s = s} {at = at} {xs = xs} {ys = ys} w v = record {
    contents_after =
        v.contents_after
        ∙ ap (λ c. overwrite c (at + length xs) ys) w.contents_after
        ∙ overwrite-append (contents s.drive) at xs ys;
    memory_kept = v.memory_kept ∙ w.memory_kept;
    dma_kept = v.dma_kept ∙ w.dma_kept;
    partitions_kept = v.partitions_kept ∙ w.partitions_kept;
  }

module _ {D : Type 0} (m : Mindrvr D) (contents : D → List ℕ) (sectors : ℕ)
    (disk : IsDisk m contents sectors) where
  transfer_in-slice :
      (s : Service D) (start number buffer : ℕ)
      → 0 < number
      → number ≤ 256
      → start + number ≤ sectors
      → ForDma s buffer (512 * number)
      → transfer_in m s start number buffer
        ≡ ok (slice (contents s.drive) (512 * start) (512 * number))
  transfer_in-slice s start number buffer lo hi h c = elim (Bool-cases s.dma_enabled) [
    | inl e ↦
        let (phys, there) = c e in
        let x = disk.dma_in s.drive start number phys lo hi h in
        let at : phys_addr s.memory.paging buffer ≡ ok phys =
          ap (phys_addr s.memory.paging) {x = buffer} {y = buffer + 0} (omega arith)
          ∙ there 0 (omega (arith, lo))
          ∙ ap ok {x = phys + 0} {y = phys} (omega arith) in
        let l = lands-Contiguous s.memory.paging buffer phys (512 * number) there in
        ground (arith, e, at, l, x)
    | inr e ↦ let x = disk.data_in s.drive start number lo hi h in ground (arith, e, x)
  ]

  read_rounds-slice :
      (s : Service D) (start number buffer rounds : ℕ)
      → 0 < number
      → number < rounds
      → start + number ≤ sectors
      → ForDma s buffer (512 * number)
      → read_rounds m s start number buffer rounds
        ≡ ok (slice (contents s.drive) (512 * start) (512 * number))
  unfolding read_rounds
  read_rounds-slice s start number buffer zero lo u h c = absurd (omega (arith, u))
  read_rounds-slice s start number buffer (suc rounds) lo u h c =
      elim (Bool-cases (ltb 256 number)) [
        | inr e ↦
            let x = transfer_in-slice s start number buffer lo (ground (arith, e)) h c in
            ground (arith, e, x)
        | inl e ↦
            let more : 256 < number = ground (arith, e) in
            let few = disk.few in
            let next : add32 start 256 ≡ start + 256 = omega (arith, few, h, more) in
            let d = contents s.drive in
            let here : ForDma s buffer (512 * 256) =
              λ q. let (phys, there) = c q in (phys, λ i v. there i (omega (arith, v, more))) in
            let beyond =
              ForDma-part s buffer (512 * number) (512 * 256) (512 * (number - 256))
                (omega (arith, more)) c in
            let first =
              transfer_in-slice s start 256 buffer (omega arith) (omega arith)
                (omega (arith, h, more)) here in
            let rest : read_rounds m s (add32 start 256) (number - 256) (buffer + 512 * 256) rounds
                ≡ ok (slice d (512 * start + 512 * 256) (512 * (number - 256))) =
              ap (λ k. read_rounds m s k (number - 256) (buffer + 512 * 256) rounds) next
              ∙ read_rounds-slice s (start + 256) (number - 256) (buffer + 512 * 256) rounds
                  (omega (arith, more)) (omega (arith, more, u)) (omega (arith, more, h)) beyond
              ∙ ap (λ k. ok (slice d k (512 * (number - 256)))) {x = 512 * (start + 256)}
                  {y = 512 * start + 512 * 256} (omega arith) in
            let whole : slice d (512 * start) (512 * 256)
                  ++ slice d (512 * start + 512 * 256) (512 * (number - 256))
                ≡ slice d (512 * start) (512 * number) =
              slice-append d (512 * start) (512 * 256) (512 * (number - 256))
              ∙ ap (slice d (512 * start)) (omega (arith, more)) in
            ground (arith, e, first, rest, whole)
      ]

  pub ata_read_sectors-slice :
      (s : Service D) (start number buffer : ℕ)
      → 0 < number
      → start + number ≤ sectors
      → ForDma s buffer (512 * number)
      → ata_read_sectors m s start number buffer
        ≡ ok (slice (contents s.drive) (512 * start) (512 * number))
  ata_read_sectors-slice s start number buffer lo h c =
      read_rounds-slice s start number buffer (suc number) lo (omega arith) h c
