-- ===== src/Paging/Tests.antt =====
-- The theorems at small directories.
use akari.Prelude.{
  ℕ, ◌≡◌, refl, inr, [], ◌∷◌, none, some, arith, ◌==◌, if◌then◌else◌, true, ok, ◌<◌,
}
use akari.Paging.{PageDirectory, Paging, Tables, blank_page, clone, map_physical_mem, phys_addr}
use akari.Paging.Lookup.{IsPaging, page_in}
use akari.Paging.Range.{MapsRange, phys_addr-map_physical_mem}
use akari.Paging.Clone.{read_only_entry, clone-page_in}

abbrev empty_directory : PageDirectory
empty_directory = record { tables = λ i. none; table_physicals = λ i. 0; physical_addr = 0x2000 }

-- A task with no pages yet, and two tables to allocate.
abbrev fresh : Paging
fresh = record {
  tables = λ table entry. blank_page;
  directory = empty_directory;
  answers = (0xC0001000, 0x5000) ∷ (0xC0002000, 0x6000) ∷ [];
}

fresh-IsPaging : IsPaging fresh
fresh-IsPaging = record {
  once = λ i j table e f. absurd (ground (arith, e));
  fresh = (
    λ i e. absurd (ground (arith, e)),
    (λ e. absurd (omega (arith, e)), tt),
    (λ i e. absurd (ground (arith, e)), tt, tt),
  );
}

-- Two pages, across the border of two tables.
phys_addr-map_physical_mem_example :
    (p' : Paging) × (map_physical_mem fresh 0x3FF000 0x400FFF 0xB8000 true 4 ≡ ok p')
    × (phys_addr p' 0x400123 ≡ ok 0xB9123)
    × MapsRange fresh p' 0x3FF000 0x400FFF 0xB8000 true
phys_addr-map_physical_mem_example =
    phys_addr-map_physical_mem fresh 0x3FF000 0x400FFF 0xB8000 4 0x400123 true fresh-IsPaging
      (omega arith) (omega arith) refl refl (omega arith) (omega arith) (omega arith) (omega arith)

abbrev kernel : PageDirectory
kernel = record empty_directory { tables = λ i. if i == 768 then some 0xC0001000 else none }

clone-page_in_example :
    (d : PageDirectory) × (clone kernel kernel 0x7000 ≡ ok d)
    × ((t : Tables) (n : ℕ) → n < 0x100000 → page_in t d n ≡ page_in t kernel n)
    × ((i : ℕ) → i < 1024 → d.table_physicals i ≡ read_only_entry kernel i)
    × (d.physical_addr ≡ 0x8000)
clone-page_in_example = clone-page_in kernel kernel 0x7000 (λ i u. inr refl)
