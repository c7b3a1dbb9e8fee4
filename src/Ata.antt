-- ===== src/Ata.antt =====
-- packages/ata/main.cpp: the ATA service. The calls of MINDRVR, a library by another author, are the
-- parameter `m : Mindrvr D`, on a state `D` of the drive and of that library.
pub mod Dma
pub mod Disk
pub mod Parts
pub mod Sectors
pub mod Read
pub mod Write
pub mod Requests
mod Tests
use Prim.Native.Nat.{min}
use akari.Prelude.{
  ℕ, zero, suc, ◌+◌, ◌-◌, ◌*◌, ◌/◌, ◌%◌, Bool, true, false, List, [], ◌∷◌, ◌++◌, get_elem?, take,
  drop, length, ltb, ◌==◌, if◌then◌else◌, add32, sub32, slice, overwrite, Result, ok, panic, fault,
  ◌>>=◌, ◌>>◌, assert, or_fault,
}
use akari.Fat.{u16_at, u32_at}
use akari.Paging.{Paging, phys_addr}

-- What the service calls of MINDRVR, with the arguments that vary: the first sector and their number.
-- The service takes no notice of the error codes.
pub record Mindrvr (D : Type 0) : Type 0 where
  -- `reg_pio_data_in_lba28` with CMD_READ_SECTORS: the bytes read
  pub data_in : D → ℕ → ℕ → List ℕ
  -- `dma_pci_lba28` with CMD_READ_DMA, and the physical address: the bytes that it puts there
  pub dma_in : D → ℕ → ℕ → ℕ → List ℕ
  -- `reg_pio_data_out_lba28` with CMD_WRITE_SECTORS
  pub data_out : D → ℕ → ℕ → List ℕ → D
  -- `pio_bmide_base_addr` set, and `dma_pci_config`
  pub dma_config : D → ℕ → D

-- The service's memory: its page directory, and where its two static buffers `tempdata` are.
pub record Memory : Type 0 where
  pub paging : Paging
  pub read_tempdata : ℕ
  pub write_tempdata : ℕ

-- Whether a range of `n` bytes from a physical address on is where the bytes from a virtual one on are.
unfoldable pub lands : Paging → ℕ → ℕ → ℕ → Bool
lands p buffer phys zero = true
lands p buffer phys (suc n) =
    let rest = lands p (buffer + 1) (phys + 1) n in
    elim (phys_addr p buffer) [
      | ok at ↦ if at == phys then rest else false
      | fault ↦ false
      | panic ↦ false
    ]

-- The drive, and the globals `dma_enabled` and `hdd_mbr`: of the latter, the `begin_disk_sector` of
-- each partition, which is all that is used of it after the start.
pub record Service (D : Type 0) : Type 0 where
  pub drive : D
  pub memory : Memory
  pub dma_enabled : Bool
  pub partitions : List ℕ

-- How many bytes of the first sector are wanted, where the start is inside of it, and the length and
-- the sectors that are done after it.
abbrev pub first_count : ℕ → ℕ → ℕ
first_count offset len = min (512 - offset) len

abbrev pub length_left : ℕ → ℕ → ℕ
length_left offset len =
    if ltb 0 offset then sub32 len (sub32 (min 512 (add32 offset len)) offset) else len

abbrev pub sectors_done : ℕ → ℕ
sectors_done offset = if ltb 0 offset then 1 else 0

module _ {D : Type 0} (m : Mindrvr D) where
  -- One call for at most 256 sectors, into a buffer. By DMA the bytes go to memory from the buffer's physical
  -- address on; where that memory is not the buffer's, which nothing tests, it is another's, and this is
  -- a fault.
  abbrev pub transfer_in : Service D → ℕ → ℕ → ℕ → Result (List ℕ)
  transfer_in s start number buffer =
      if s.dma_enabled
      then (phys_addr s.memory.paging buffer >>= (λ phys.
          if lands s.memory.paging buffer phys (512 * number)
          then ok (m.dma_in s.drive start number phys)
          else fault))
      else ok (m.data_in s.drive start number)

  -- The loop of `ata_read_sectors`: a round takes 256 sectors off the number. The call that it makes of
  -- itself, for 256 sectors, is one transfer.
  unfoldable pub read_rounds : Service D → ℕ → ℕ → ℕ → ℕ → Result (List ℕ)
  read_rounds s start number buffer zero = fault
  read_rounds s start number buffer (suc rounds) =
      let rest = read_rounds s (add32 start 256) (number - 256) (buffer + 512 * 256) rounds in
      if ltb 256 number
      then (transfer_in s start 256 buffer >>= (λ first. rest >>= (λ bytes. ok (first ++ bytes))))
      else transfer_in s start number buffer

  abbrev pub ata_read_sectors : Service D → ℕ → ℕ → ℕ → Result (List ℕ)
  ata_read_sectors s start number buffer = read_rounds s start number buffer (suc number)

  abbrev pub transfer_out : Service D → ℕ → ℕ → List ℕ → Service D
  transfer_out s start number buffer = record s { drive = m.data_out s.drive start number buffer }

  unfoldable pub write_rounds : Service D → ℕ → ℕ → List ℕ → ℕ → Result (Service D)
  write_rounds s start number buffer zero = fault
  write_rounds s start number buffer (suc rounds) =
      let s' = transfer_out s start 256 (take (512 * 256) buffer) in
      let rest =
        write_rounds s' (add32 start 256) (number - 256) (drop (512 * 256) buffer) rounds in
      if ltb 256 number then rest else ok (transfer_out s start number (take (512 * number) buffer))

  abbrev pub ata_write_sectors : Service D → ℕ → ℕ → List ℕ → Result (Service D)
  ata_write_sectors s start number buffer = write_rounds s start number buffer (suc number)

  -- A sector read into `tempdata`, and some of it copied.
  unfoldable pub read_part : Service D → ℕ → ℕ → ℕ → Result (List ℕ)
  read_part s sector from count = do
    tempdata ← ata_read_sectors s sector 1 s.memory.read_tempdata
    ok (slice tempdata from count)

  -- A sector read into `tempdata`, changed from some byte on, and written back.
  unfoldable pub write_part : Service D → ℕ → ℕ → List ℕ → Result (Service D)
  write_part s sector from bytes = do
    tempdata ← ata_read_sectors s sector 1 s.memory.write_tempdata
    ata_write_sectors s sector 1 (overwrite tempdata from bytes)

  -- `ata_read_data` from an offset in the first sector: the bytes put into the buffer.
  unfoldable pub read_from : Service D → ℕ → ℕ → ℕ → ℕ → Result (List ℕ)
  read_from s sector_open offset len buffer = do
    let left = length_left offset len
    let done = sectors_done offset
    let next = add32 sector_open done
    let after_first = buffer + (if ltb 0 offset then first_count offset len else 0)
    first ←
        (if ltb 0 offset then read_part s sector_open offset (first_count offset len) else ok [])
    whole ← (if ltb 0 (left / 512) then ata_read_sectors s next (left / 512) after_first else ok [])
    last ←
        (if ltb 0 (left % 512) then read_part s (add32 next (left / 512)) 0 (left % 512) else ok [])
    ok (first ++ whole ++ last)

  unfoldable pub ata_read_data : Service D → ℕ → ℕ → ℕ → ℕ → Result (List ℕ)
  ata_read_data s sector_offset offset len buffer =
      read_from s (add32 sector_offset (offset / 512)) (offset % 512) len buffer

  -- `ata_write_data` from an offset in the first sector. A buffer shorter than the length is read past
  -- its end.
  unfoldable pub write_from : Service D → ℕ → ℕ → ℕ → List ℕ → Result (Service D)
  write_from s sector_open offset len buffer = do
    let left = length_left offset len
    let done = sectors_done offset
    let next = add32 sector_open done
    let after_first = if ltb 0 offset then drop (first_count offset len) buffer else buffer
    s1 ←
        (if ltb 0 offset
          then write_part s sector_open offset (take (first_count offset len) buffer)
          else ok s)
    s2 ← (if ltb 0 (left / 512) then ata_write_sectors s1 next (left / 512) after_first else ok s1)
    let last = take (left % 512) (drop (512 * (left / 512)) after_first)
    (if ltb 0 (left % 512) then write_part s2 (add32 next (left / 512)) 0 last else ok s2)

  unfoldable pub ata_write_data : Service D → ℕ → ℕ → ℕ → List ℕ → Result (Service D)
  ata_write_data s sector_offset offset len buffer =
      if ltb (length buffer) len
      then fault
      else write_from s (add32 sector_offset (offset / 512)) (offset % 512) len buffer

  -- A partition's number is an index into the four of the boot record, and is not tested.
  unfoldable pub partition_read_data : Service D → ℕ → ℕ → ℕ → ℕ → ℕ → Result (List ℕ)
  partition_read_data s partition_id sector offset len buffer = do
    begin_disk_sector ← or_fault (get_elem? s.partitions partition_id)
    ata_read_data s (add32 begin_disk_sector sector) offset len buffer

-- The requests, as the structures of proto.hpp.
pub data Request : Type 0 where
  op_read : (sector offset length : ℕ) → Request
  op_write : (sector offset length : ℕ) → List ℕ → Request
  op_mbr_read : (partition_id sector offset length : ℕ) → Request
  op_set_bar4 : ℕ → Request
  op_other : Request

module _ {D : Type 0} (m : Mindrvr D) where
  -- One round of the loop of `main`: the reply sent. The second argument is where `new` puts the buffer of
  -- a read.
  unfoldable pub handle : Service D → ℕ → Request → Result (Service D × List ℕ)
  handle s at (op_read sector offset len) = do
    buffer ← ata_read_data m s sector offset len at
    ok (s, buffer)
  handle s at (op_write sector offset len buffer) = do
    s' ← ata_write_data m s sector offset len buffer
    ok (s', 1 ∷ [])
  handle s at (op_mbr_read partition_id sector offset len) = do
    buffer ← partition_read_data m s partition_id sector offset len at
    ok (s, buffer)
  handle s at (op_set_bar4 bar4) =
      ok (record s { drive = m.dma_config s.drive bar4; dma_enabled = true }, [])
  handle s at op_other = panic

  -- The start of `main`, when there is a drive, with the address of `hdd_mbr`.
  unfoldable pub start : D → Memory → ℕ → Result (Service D)
  start d memory hdd_mbr = do
    let s : Service D = record { drive = d; memory = memory; dma_enabled = false; partitions = [] }
    mbr ← ata_read_data m s 0 0 512 hdd_mbr
    signature ← u16_at mbr 510
    p0 ← u32_at mbr (446 + 8)
    p1 ← u32_at mbr (446 + 16 + 8)
    p2 ← u32_at mbr (446 + 32 + 8)
    p3 ← u32_at mbr (446 + 48 + 8)
    let partitions = p0 ∷ p1 ∷ p2 ∷ p3 ∷ []
    assert (signature == 0xAA55)
    ok (record s { partitions = partitions })
