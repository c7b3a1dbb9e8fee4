-- ===== src/Ata/Tests.antt =====
-- A drive of three sectors behind MINDRVR, and the theorems at it.
use akari.Prelude.{
  ℕ, true, some, ◌+◌, ◌≤◌, ◌*◌, ◌≡◌, refl, ap, ◌∙◌, List, [], ◌∷◌, length, replicate, slice,
  overwrite, arith, ok, length-overwrite, length-replicate,
}
use akari.Ata.{Mindrvr, Service, op_read, op_write, ata_read_data, ata_write_data, handle}
use akari.Paging.{blank_page, Paging, phys_addr, get_page}
use akari.Ata.Dma.{ForDma, Contiguous}
use akari.Ata.Disk.{IsDisk, Wrote}
use akari.Ata.Read.{ata_read_data-slice}
use akari.Ata.Write.{ata_write_data-Wrote}
use akari.Ata.Requests.{op_read-op_write, served, partition_read_data-handle}
use akari.Fat as fat

abbrev zeros : List ℕ
zeros = replicate 1536 0

-- What is known of the drive is the bytes last set, from its first on.
abbrev stored : List ℕ → List ℕ
stored d = overwrite zeros 0 d

abbrev drive : Mindrvr (List ℕ)
drive = record {
  data_in = λ d start number. slice (stored d) (512 * start) (512 * number);
  dma_in = λ d start number phys. slice (stored d) (512 * start) (512 * number);
  data_out = λ d start number bytes. overwrite (stored d) (512 * start) bytes;
  dma_config = λ d bar4. d;
}

overwrite_all : (xs ys : List ℕ) → length ys ≡ length xs → overwrite xs 0 ys ≡ ys
unfolding overwrite
overwrite_all [] [] e = refl
overwrite_all [] (y ∷ ys) e = absurd (omega (arith, e))
overwrite_all (x ∷ xs) [] e = absurd (omega (arith, e))
overwrite_all (x ∷ xs) (y ∷ ys) e = ap (◌∷◌ y) (overwrite_all xs ys (omega (arith, e)))

drive-IsDisk : IsDisk drive stored 3
drive-IsDisk = record {
  few = omega arith;
  size = λ d. length-overwrite zeros 0 d ∙ length-replicate {A = ℕ} 1536 0;
  data_in = λ d start number p q h. refl;
  dma_in = λ d start number phys p q h. refl;
  data_out = λ d start number bytes p q h e.
      overwrite_all zeros (overwrite (stored d) (512 * start) bytes)
        (length-overwrite (stored d) (512 * start) bytes ∙ length-overwrite zeros 0 d);
  dma_config = λ d bar4. refl;
}

-- Every page is where its number says.
abbrev identity : Paging
identity = record {
  tables = λ table entry. record blank_page { page_address = 1024 * table + entry };
  directory = record {
    tables = λ i. some i;
    table_physicals = λ i. 4096 * i + 7;
    physical_addr = 0x2000;
  };
  answers = [];
}

identity-Contiguous : (buffer n : ℕ) → buffer + n ≤ 0x100000000 → Contiguous identity buffer n
unfolding phys_addr get_page
identity-Contiguous buffer n h = (buffer, λ i u. ap ok (omega (arith, u, h)))

-- The drive is read by DMA.
abbrev service : Service (List ℕ)
service = record {
  drive = 5 ∷ 6 ∷ [];
  memory = record { paging = identity; read_tempdata = 0x3000; write_tempdata = 0x3200 };
  dma_enabled = true;
  partitions = 1 ∷ 0 ∷ 0 ∷ 0 ∷ [];
}

for_dma : (buffer n : ℕ) → buffer + n ≤ 0x100000000 → ForDma service buffer n
for_dma buffer n h e = identity-Contiguous buffer n h

ata_read_data-slice_example :
    ata_read_data drive service 0 510 600 0x8000 ≡ ok (slice (stored (5 ∷ 6 ∷ [])) 510 600)
ata_read_data-slice_example =
    ata_read_data-slice drive stored 3 drive-IsDisk service (for_dma 0x3000 512 (omega arith)) 0 510
      600 0x8000 (omega arith) (omega arith) (for_dma 0x8000 600 (omega arith))

ata_write_data-Wrote_example :
    (s' : Service (List ℕ)) × (ata_write_data drive service 0 511 3 (7 ∷ 8 ∷ 9 ∷ []) ≡ ok s')
    × Wrote stored service s' 511 (7 ∷ 8 ∷ 9 ∷ [])
ata_write_data-Wrote_example =
    ata_write_data-Wrote drive stored 3 drive-IsDisk service 0 511 3 (7 ∷ 8 ∷ 9 ∷ [])
      (for_dma 0x3200 512 (omega arith)) (omega arith) (omega arith) (omega arith)

op_read-op_write_example :
    (s' : Service (List ℕ)) × (handle drive service 0x8000 (op_write 1 511 3 (7 ∷ 8 ∷ 9 ∷ []))
      ≡ ok (s', 1 ∷ []))
    × (handle drive s' 0x9000 (op_read 1 511 3) ≡ ok (s', 7 ∷ 8 ∷ 9 ∷ []))
op_read-op_write_example =
    op_read-op_write drive stored 3 drive-IsDisk service 1 511 0x8000 0x9000 (7 ∷ 8 ∷ 9 ∷ [])
      (for_dma 0x3200 512 (omega arith)) (for_dma 0x3000 512 (omega arith))
      (for_dma 0x9000 3 (omega arith)) (omega arith) (omega arith)

partition_read_data-handle_example :
    fat.partition_read_data (served drive service 0 (λ sector len. 0x8000)) 1 64
    ≡ ok (slice (stored (5 ∷ 6 ∷ [])) 1024 64)
partition_read_data-handle_example =
    partition_read_data-handle drive stored 3 drive-IsDisk service (λ sector len. 0x8000) 0 1 1 64
      (for_dma 0x3000 512 (omega arith)) (for_dma 0x8000 64 (omega arith)) refl (omega arith)
      (omega arith)
