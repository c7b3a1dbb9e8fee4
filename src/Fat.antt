-- ===== src/Fat.antt =====
-- packages/fat/main.cpp and main.hpp: the FAT driver. Its clusters come from the ATA service, which is
-- the parameter `ata`: the bytes that it answers to a read of some length at a sector of the partition.
pub mod Dir
pub mod Chain
pub mod Read
pub mod File
pub mod Listing
pub mod Names
mod Tests
use Prim.Native.Nat.{min}
use akari.Prelude.{
  ℕ, zero, suc, ◌+◌, ◌-◌, ◌*◌, ◌/◌, ◌%◌, Bool, true, false, not, ◌&&◌, ◌||◌, List, [], ◌∷◌, ◌++◌,
  Option, none, some, get_elem?, take, drop, length, ltb, leb, ◌==◌, if◌then◌else◌, add32, sub32,
  u16_mod, u32_mod, Result, ok, panic, fault, ◌>>=◌, ◌>>◌, assert, or_fault,
}

abbrev pub AtaRead : Type 0
AtaRead = ℕ → ℕ → List ℕ

-- The fields of `fat_boot_record_t` that the driver reads; those of the two extended records that
-- share its end carry the record's name.
pub record BootRecord : Type 0 where
  pub bytes_per_sector : ℕ
  pub sectors_per_cluster : ℕ
  pub reserved_sectors : ℕ
  pub fats : ℕ
  pub total_sectors_small : ℕ
  pub total_sectors_large : ℕ
  pub ebr_signature : ℕ
  pub fat32_signature : ℕ
  pub fat32_fat_size : ℕ
  pub fat32_root_directory_cluster : ℕ

-- The statics that `init` sets.
pub record Volume : Type 0 where
  pub bytes_per_sector : ℕ
  pub sectors_per_cluster : ℕ
  pub first_data_sector : ℕ
  pub first_fat_sector : ℕ
  pub root_cluster : ℕ

abbrev pub bytes_per_cluster : Volume → ℕ
bytes_per_cluster v = v.sectors_per_cluster * v.bytes_per_sector

abbrev pub has_signature : ℕ → Bool
has_signature s = s == 0x28 || s == 0x29

-- `fat32esque`, as `init` finds it; 0xff is a boot record of neither kind.
unfoldable pub fat_kind : BootRecord → ℕ
fat_kind b =
    if ltb 0 b.total_sectors_small && has_signature b.ebr_signature
    then 0
    else (if ltb 0 b.total_sectors_large && has_signature b.fat32_signature then 1 else 0xff)

-- `partition_read_data` at offset 0: the service must answer with just as many bytes.
unfoldable pub partition_read_data : AtaRead → ℕ → ℕ → Result (List ℕ)
partition_read_data ata sector len =
    if length (ata sector len) == len then ok (ata sector len) else panic

-- `fat_clusters`, the clusters of the table that were read before.
abbrev pub FatClusters : Type 0
FatClusters = List (ℕ × List ℕ)

unfoldable pub find_cluster : FatClusters → ℕ → Option (List ℕ)
find_cluster [] cluster = none
find_cluster ((c, bytes) ∷ cs) cluster =
    if c == cluster then some bytes else find_cluster cs cluster

unfoldable pub read_fat_cluster : AtaRead → Volume → FatClusters → ℕ → Result (List ℕ × FatClusters)
read_fat_cluster ata v cache cluster = elim (find_cluster cache cluster) [
  | some bytes ↦ ok (bytes, cache)
  | none ↦ do
    let sector = (v.first_fat_sector + cluster * v.sectors_per_cluster) % u32_mod
    bytes ← partition_read_data ata sector (bytes_per_cluster v)
    ok (bytes, cache ++ (cluster, bytes) ∷ [])
]

-- `init` after the boot record is read. It tests `fat_type`, which is still 0, so that a record of
-- neither kind is taken for FAT32. The first cluster of the table is read at once.
unfoldable pub init : AtaRead → BootRecord → Result (Volume × FatClusters)
init ata b =
    let v : Volume = record {
      bytes_per_sector = b.bytes_per_sector;
      sectors_per_cluster = b.sectors_per_cluster;
      first_data_sector = (b.reserved_sectors + b.fat32_fat_size * b.fats) % u32_mod;
      first_fat_sector = b.reserved_sectors;
      root_cluster = b.fat32_root_directory_cluster;
    } in
    if fat_kind b == 0
    then panic
    else (read_fat_cluster ata v [] 0 >>= (λ (bytes, cache). ok (v, cache)))

unfoldable pub read_cluster : AtaRead → Volume → ℕ → Result (List ℕ)
read_cluster ata v cluster =
    partition_read_data ata
      ((v.first_data_sector + sub32 cluster 2 * v.sectors_per_cluster) % u32_mod)
      (bytes_per_cluster v)

-- A u16 and a u32 in memory, low byte first.
unfoldable pub u16_at : List ℕ → ℕ → Result ℕ
u16_at bytes i = do
  low ← or_fault (get_elem? bytes i)
  high ← or_fault (get_elem? bytes (i + 1))
  ok (low + 256 * high)

unfoldable pub u32_at : List ℕ → ℕ → Result ℕ
u32_at bytes i = do low ← u16_at bytes i; high ← u16_at bytes (i + 2); ok (low + u16_mod * high)

-- `fat_entry_for`: the cluster after a cluster.
unfoldable pub entry_for : AtaRead → Volume → FatClusters → ℕ → Result (ℕ × FatClusters)
entry_for ata v cache cluster =
    let entries_per_cluster = bytes_per_cluster v / 4 in
    let relative_cluster = cluster / entries_per_cluster in
    let cluster_index = cluster - relative_cluster * entries_per_cluster in
    if entries_per_cluster == 0
    then fault
    else (read_fat_cluster ata v cache relative_cluster >>= (λ (bytes, cache').
        u32_at bytes (cluster_index * 4) >>= (λ e. ok (e % 0x10000000, cache'))))

-- Where an entry of the table leads: the tests that follow each `fat_entry_for`.
unfoldable pub follow : ℕ → Result (Option ℕ)
follow e =
    if e == 0 || e == 1 || (leb 0x0FFFFFF0 e && leb e 0x0FFFFFF7)
    then panic
    else (if leb 0x0FFFFFF8 e then ok none else ok (some e))

-- The cluster after a cluster, or none at the end of the file.
unfoldable pub next_cluster : AtaRead → Volume → FatClusters → ℕ → Result (Option ℕ × FatClusters)
next_cluster ata v cache cluster = do
  (e, cache') ← entry_for ata v cache cluster
  next ← follow e
  ok (next, cache')

-- The first loop of `fat_read_data`: to the cluster that the offset is in.
unfoldable pub seek :
    AtaRead → Volume → FatClusters → ℕ → ℕ → ℕ → Result (Option (ℕ × ℕ) × FatClusters)
seek ata v cache cluster offset zero = fault
seek ata v cache cluster offset (suc rounds) =
    let step : Result (Option (ℕ × ℕ) × FatClusters) =
      next_cluster ata v cache cluster >>= (λ (next, cache'). elim next [
        | none ↦ ok (none, cache')
        | some c ↦ seek ata v cache' c (offset - bytes_per_cluster v) rounds
      ]) in
    if ltb (bytes_per_cluster v) offset then step else ok (some (cluster, offset), cache)

-- The second loop: the bytes copied, cluster by cluster, with a count of 16 bits.
unfoldable pub copy_clusters :
    AtaRead → Volume → FatClusters → ℕ → ℕ → ℕ → ℕ → Result (List ℕ × FatClusters)
copy_clusters ata v cache cluster offset len zero = fault
copy_clusters ata v cache cluster offset len (suc rounds) =
    let copy_len = min len (bytes_per_cluster v - offset) % u16_mod in
    let step : Result (List ℕ × FatClusters) = do
      scratch ← read_cluster ata v cluster
      let copied = take copy_len (drop offset scratch)
      let rest : Result (List ℕ × FatClusters) =
          next_cluster ata v cache cluster >>= (λ (next, cache'). elim next [
            | none ↦ ok ([], cache')
            | some c ↦ copy_clusters ata v cache' c 0 (len - copy_len) rounds
          ])
      (after, cache') ← (if len - copy_len == 0 then ok ([], cache) else rest)
      ok (copied ++ after, cache')
    in if len == 0 then ok ([], cache) else step

-- `fat_read_data`: the bytes put into the buffer, whose number is returned. A round of the first loop
-- takes a cluster off the offset, and one of the second takes a byte off the length, but for its first.
unfoldable pub fat_read_data :
    AtaRead → Volume → FatClusters → ℕ → ℕ → ℕ → Result (List ℕ × FatClusters)
fat_read_data ata v cache inode offset len = do
  (at, cache') ← seek ata v cache inode offset (suc offset)
  elim at [
    | none ↦ ok ([], cache')
    | some (c, o) ↦ copy_clusters ata v cache' c o len (suc (suc len))
  ]
