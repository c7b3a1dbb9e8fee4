-- ===== src/Paging.antt =====
-- The page tables and directories of Memory.cpp, `physAddr` of UserCalls.cpp and `mapPhysicalMem` of
-- UserProcess.cpp. A table is known by its address; what `allocAligned` gives for new tables, their
-- addresses and where these are in physical memory, is a list of the state.
pub mod Lookup
pub mod Range
pub mod Clone
mod Tests
use akari.Prelude.{
  ℕ, zero, suc, ◌+◌, ◌-◌, ◌*◌, ◌/◌, ◌%◌, Bool, true, false, ◌&&◌, List, [], ◌∷◌, Option, none, some,
  ltb, leb, ◌==◌, if◌then◌else◌, add32, u32_mod, update, Result, ok, panic, fault, ◌>>=◌, or_fault,
}
use akari.Memory.{Page}

abbrev pub blank_page : Page
blank_page = record {
  present = false;
  readwrite = false;
  user = false;
  accessed = false;
  dirty = false;
  page_address = 0;
}

-- `PageTable`: the pages of the table at an address.
abbrev pub Tables : Type 0
Tables = ℕ → ℕ → Page

pub record PageDirectory : Type 0 where
  pub tables : ℕ → Option ℕ
  pub table_physicals : ℕ → ℕ
  pub physical_addr : ℕ

pub record Paging : Type 0 where
  pub tables : Tables
  pub directory : PageDirectory
  pub answers : List (ℕ × ℕ)

abbrev pub allocate_table : Tables → ℕ → Tables
allocate_table tables new = update tables new (λ entry. blank_page)

-- A new table, present, writable and for the user.
unfoldable pub make_table : Paging → ℕ → ℕ → List (ℕ × ℕ) → Result (Option (ℕ × ℕ) × Paging)
make_table p idx entry [] = panic
make_table p idx entry ((new, phys) ∷ rest) = ok (
  some (new, entry),
  record {
    tables = allocate_table p.tables new;
    directory = record p.directory {
      tables = update p.directory.tables idx (some new);
      table_physicals = update p.directory.table_physicals idx (phys / 8 * 8 + 7);
    };
    answers = rest;
  },
)

-- `getPage`: the table and the entry in it.
unfoldable pub get_page : Paging → ℕ → Bool → Result (Option (ℕ × ℕ) × Paging)
get_page p addr make =
    let n = addr / 0x1000 in
    elim (p.directory.tables (n / 1024)) [
      | some table ↦ ok (some (table, n % 1024), p)
      | none ↦ if make then make_table p (n / 1024) (n % 1024) p.answers else ok (none, p)
    ]

-- A page changed through the pointer that `getPage` returns.
unfoldable pub store_page : Paging → ℕ → ℕ → Page → Paging
store_page p table entry page = record p {
  tables = update p.tables table (update (p.tables table) entry page);
}

-- `physAddr`, past its privilege check.
unfoldable pub phys_addr : Paging → ℕ → Result ℕ
phys_addr p ptr = get_page p ptr false >>= (λ (found, p'). elim found [
  | none ↦ ok 0
  | some (table, entry) ↦
      ok (((p.tables table entry).page_address * 0x1000 + ptr % 0x1000) % u32_mod)
])

-- One round of the loop of `mapPhysicalMem`.
unfoldable pub map_page : Paging → ℕ → ℕ → Bool → Result Paging
map_page p virt phys readwrite = get_page p virt true >>= (λ (found, p').
    or_fault found >>= (λ (table, entry). ok (
      store_page p' table entry (record (p'.tables table entry) {
        present = true;
        readwrite = readwrite;
        user = true;
        page_address = phys / 0x1000;
      }))))

-- The loop. With `virt_to` in the last page it would not end, since `virt_from` wraps around.
unfoldable pub map_physical_mem : Paging → ℕ → ℕ → ℕ → Bool → ℕ → Result Paging
map_physical_mem p virt_from virt_to phys_from readwrite zero = fault
map_physical_mem p virt_from virt_to phys_from readwrite (suc rounds) =
    let step : Result Paging = do
      p' ← map_page p virt_from phys_from readwrite
      map_physical_mem p' (add32 virt_from 0x1000) virt_to (add32 phys_from 0x1000) readwrite rounds
    in if leb virt_from virt_to then step else ok p

-- The loop of `PageDirectory::clone` over the tables, from one on. A table that is not the kernel's
-- would be copied by `PageTable::clone`, which panics.
unfoldable pub clone_tables :
    PageDirectory → PageDirectory → PageDirectory → ℕ → ℕ → Result PageDirectory
clone_tables kernel from to i zero = ok to
clone_tables kernel from to i (suc rounds) =
    let linked : ℕ → PageDirectory = λ table. record to {
      tables = update to.tables i (some table);
      table_physicals = update to.table_physicals i (from.table_physicals i / 8 * 8 + 5);
    } in
    elim (from.tables i) [
      | none ↦ clone_tables kernel from to (i + 1) rounds
      | some table ↦ elim (kernel.tables i) [
        | none ↦ panic
        | some other ↦
            let rest = clone_tables kernel from (linked table) (i + 1) rounds in
            if other == table then rest else panic
      ]
    ]

-- `PageDirectory::Allocate`, at a physical address. The table of the tables' addresses, 1024 pointers
-- of 4 bytes, is before that of their physical addresses.
abbrev pub allocate_directory : ℕ → PageDirectory
allocate_directory phys = record {
  tables = λ i. none;
  table_physicals = λ i. 0;
  physical_addr = add32 phys 0x1000;
}

unfoldable pub clone : PageDirectory → PageDirectory → ℕ → Result PageDirectory
clone kernel from phys = clone_tables kernel from (allocate_directory phys) 0 1024
