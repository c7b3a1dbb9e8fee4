-- ===== src/Ata/Requests.antt =====
-- Requests to the ATA service, one after another, and the FAT driver as its client.
use akari.Prelude.{
  ℕ, ◌+◌, ◌*◌, ◌≤◌, ◌<◌, ◌≡◌, ap, ◌∙◌, List, [], ◌∷◌, some, drop, length, get_elem?, add32, u32_mod,
  Result, ok, fault, panic, arith, slice, overwrite, length-drop, slice-overwrite, length-take,
  take-length,
}
use akari.Ata.{
  Mindrvr, Service, op_read, op_write, op_mbr_read, ata_read_data, handle, partition_read_data,
}
use akari.Fat.{AtaRead}
use akari.Fat as fat
use akari.Ata.Dma.{ForDma, ForDma-kept}
use akari.Ata.Disk.{IsDisk}
use akari.Ata.Read.{ata_read_data-slice}
use akari.Ata.Write.{ata_write_data-Wrote}

module _ {D : Type 0} (m : Mindrvr D) where
  abbrev reply_of : Result (Service D × List ℕ) → List ℕ
  reply_of fault = []
  reply_of panic = []
  reply_of (ok (s, reply)) = reply

  -- The answers that the FAT driver gets for a partition, with where `new` puts the buffer of each request.
  unfoldable pub served : Service D → ℕ → (ℕ → ℕ → ℕ) → AtaRead
  served s id buffers sector len =
      reply_of (handle m s (buffers sector len) (op_mbr_read id sector 0 len))

module _ {D : Type 0} (m : Mindrvr D) (contents : D → List ℕ) (sectors : ℕ)
    (disk : IsDisk m contents sectors) where
  -- On a disk, bytes written by a request, with a range on the disk and an offset and a length that add
  -- up to a u32, are the answer to a request to read that range. With DMA the buffer of the read and the
  -- two buffers `tempdata` are taken to be contiguous in physical memory.
  pub op_read-op_write :
      (s : Service D) (sector offset at_write at_read : ℕ) (bytes : List ℕ)
      → ForDma s s.memory.write_tempdata 512
      → ForDma s s.memory.read_tempdata 512
      → ForDma s at_read (length bytes)
      → offset + length bytes < u32_mod
      → 512 * sector + offset + length bytes ≤ 512 * sectors
      → (s' : Service D) × (handle m s at_write (op_write sector offset (length bytes) bytes)
          ≡ ok (s', 1 ∷ []))
        × (handle m s' at_read (op_read sector offset (length bytes)) ≡ ok (s', bytes))
  unfolding handle
  op_read-op_write s sector offset at_write at_read bytes tw tr c wide h =
      let n = length bytes in
      let (s', x, w) =
        ata_write_data-Wrote m contents sectors disk s sector offset n bytes tw wide h
          (omega arith) in
      let size = disk.size s.drive in
      let at = 512 * sector + offset in
      let temp = ForDma-kept s s' (λ mem. mem.read_tempdata) 512 w.dma_kept w.memory_kept tr in
      let buffer = ForDma-kept s s' (λ mem. at_read) n w.dma_kept w.memory_kept c in
      let y =
        ata_read_data-slice m contents sectors disk s' temp sector offset n at_read wide h buffer in
      let same : slice (contents s'.drive) at n ≡ bytes =
        ap (λ c. slice c at n)
          (w.contents_after ∙ ap (overwrite (contents s.drive) at) (take-length bytes))
        ∙ slice-overwrite (contents s.drive) at bytes (omega (arith, h, size)) in
      (s', ground (arith, x), ground (arith, y, same))

  -- A read of a partition gives the bytes from its begin on.
  pub op_mbr_read-slice :
      (s : Service D) (id begin sector offset len buffer : ℕ)
      → ForDma s s.memory.read_tempdata 512
      → ForDma s buffer len
      → get_elem? s.partitions id ≡ some begin
      → offset + len < u32_mod
      → 512 * (begin + sector) + offset + len ≤ 512 * sectors
      → handle m s buffer (op_mbr_read id sector offset len)
        ≡ ok (s, slice (contents s.drive) (512 * (begin + sector) + offset) len)
  unfolding handle partition_read_data
  op_mbr_read-slice s id begin sector offset len buffer t c e wide h =
      let few = disk.few in
      let at : add32 begin sector ≡ begin + sector = omega (arith, few, h) in
      let y : ata_read_data m s (add32 begin sector) offset len buffer
          ≡ ok (slice (contents s.drive) (512 * (begin + sector) + offset) len) =
        ap (λ k. ata_read_data m s k offset len buffer) at
        ∙ ata_read_data-slice m contents sectors disk s t (begin + sector) offset len buffer wide h
            c in
      ground (arith, e, y)

  -- On a disk, the FAT driver's read of a number of bytes, a u32, at a sector of a partition whose begin is
  -- known, with the range on the disk, gives these bytes, counted from the begin of the partition. With
  -- DMA the buffer of the request and `tempdata` are taken to be contiguous in physical memory.
  pub partition_read_data-handle :
      (s : Service D) (buffers : ℕ → ℕ → ℕ) (id begin sector len : ℕ)
      → ForDma s s.memory.read_tempdata 512
      → ForDma s (buffers sector len) len
      → get_elem? s.partitions id ≡ some begin
      → len < u32_mod
      → 512 * (begin + sector) + len ≤ 512 * sectors
      → fat.partition_read_data (served m s id buffers) sector len
        ≡ ok (slice (contents s.drive) (512 * (begin + sector)) len)
  unfolding fat.partition_read_data served
  partition_read_data-handle s buffers id begin sector len t b e wide h =
      let at = buffers sector len in
      let c = contents s.drive in
      let size = disk.size s.drive in
      let start = 512 * (begin + sector) in
      let r : handle m s at (op_mbr_read id sector 0 len) ≡ ok (s, slice c start len) =
        op_mbr_read-slice s id begin sector 0 len at t b e (omega (arith, wide)) (omega (arith, h))
        ∙ ap (λ k. ok (s, slice c k len)) {x = start + 0} {y = start} (omega arith) in
      let answer : served m s id buffers sector len ≡ slice c start len = ap (reply_of m) r in
      let n : length (slice c start len) ≡ len =
        omega (arith, h, size, length-take len (drop start c), length-drop start c) in
      ground (arith, answer, n)
