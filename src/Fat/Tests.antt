-- ===== src/Fat/Tests.antt =====
-- A volume of clusters of 64 bytes, whose root directory holds one file in two clusters.
use akari.Prelude.{
  ℕ, ◌≡◌, refl, List, [], ◌∷◌, ◌++◌, arith, ◌==◌, if◌then◌else◌, ok, replicate, take, drop,
  test_bit,
}
use akari.Fat.{
  AtaRead, BootRecord, Volume, FatClusters, init, read_cluster, fat_read_data, fat_kind,
  read_fat_cluster, find_cluster, partition_read_data, u16_at, u32_at, follow,
}
use akari.Fat.Chain.{IsCached, Chain, last, link, table_next}
use akari.Fat.Read.{contents}
use akari.Fat.File.{fat_read_data-contents}
use akari.Fat.Dir.{Dirent, dirent_at, slot, chars_at}
use akari.Fat.Listing.{Files, stops, lists, Directory, last as ends}

abbrev end_mark : List ℕ
end_mark = 0xff ∷ 0xff ∷ 0xff ∷ 0x0f ∷ []

-- Cluster 2 is the root, and cluster 3 leads to cluster 4.
abbrev table : List ℕ
table = replicate 8 0 ++ end_mark ++ (4 ∷ 0 ∷ 0 ∷ 0 ∷ []) ++ end_mark ++ replicate 44 0

-- HI.TXT, of 70 bytes, in cluster 3.
abbrev name_bytes : List ℕ
name_bytes = b'H' ∷ b'I' ∷ replicate 6 0x20 ++ b'T' ∷ b'X' ∷ b'T' ∷ []

abbrev root : List ℕ
root = name_bytes ++ 0x20 ∷ replicate 14 0 ++ 3 ∷ 0 ∷ 70 ∷ 0 ∷ 0 ∷ 0 ∷ replicate 32 0

abbrev ata : AtaRead
ata sector len =
    if sector == 1
    then table
    else (if sector == 2 then root else (if sector == 3 then replicate 64 7 else replicate 64 9))

abbrev boot : BootRecord
boot = record {
  bytes_per_sector = 64;
  sectors_per_cluster = 1;
  reserved_sectors = 1;
  fats = 1;
  total_sectors_small = 0;
  total_sectors_large = 5;
  ebr_signature = 0;
  fat32_signature = 0x29;
  fat32_fat_size = 1;
  fat32_root_directory_cluster = 2;
}

abbrev v : Volume
v = record {
  bytes_per_sector = 64;
  sectors_per_cluster = 1;
  first_data_sector = 2;
  first_fat_sector = 1;
  root_cluster = 2;
}

mounts : init ata boot ≡ ok (v, (0, table) ∷ [])
unfolding init fat_kind read_fat_cluster find_cluster partition_read_data
mounts = refl

-- A record of neither kind is mounted all the same, and one of the first kind never is.
mounts_unknown : init ata (record boot { fat32_signature = 0 }) ≡ ok (v, (0, table) ∷ [])
unfolding init fat_kind read_fat_cluster find_cluster partition_read_data
mounts_unknown = refl

abbrev hi_clusters : List (List ℕ)
hi_clusters = replicate 64 7 ∷ replicate 64 9 ∷ []

hi-Chain : Chain ata v 3 hi_clusters
unfolding read_cluster table_next partition_read_data u16_at u32_at follow
hi-Chain =
    link {c' = 4} {bytes = replicate 64 7} refl refl (last {bytes = replicate 64 9} refl refl)

fat_read_data-contents_example :
    (cache' : FatClusters) × (fat_read_data ata v [] 3 60 8
      ≡ ok (take 8 (drop 60 (contents hi_clusters)), cache'))
    × IsCached ata v cache'
fat_read_data-contents_example =
    fat_read_data-contents ata v 3 hi_clusters [] 60 8 (omega arith) (omega arith) hi-Chain tt

abbrev hi : Dirent
hi = record {
  filename = name_bytes;
  attributes = 0x20;
  first_cluster_high = 0;
  first_cluster_low = 3;
  size = 70;
  lfn_chars = 8265 ∷ 8224 ∷ 8224 ∷ 21536 ∷ 21592 ∷ 0 ∷ 0 ∷ 0 ∷ 0 ∷ 0 ∷ 0 ∷ 17920 ∷ 0 ∷ [];
}

hi_reads : dirent_at root 0 ≡ ok hi
unfolding dirent_at chars_at u16_at u32_at
hi_reads = refl

abbrev zeros : Dirent
zeros = record {
  filename = replicate 11 0;
  attributes = 0;
  first_cluster_high = 0;
  first_cluster_low = 0;
  size = 0;
  lfn_chars = replicate 13 0;
}

root-Files : Files root 0 128 [] (([], hi) ∷ []) []
unfolding dirent_at chars_at u16_at u32_at slot test_bit
root-Files = lists hi refl refl (stops zeros refl refl)

root-Directory : Directory ata v 2 [] 1 (([], hi) ∷ [])
unfolding read_cluster table_next partition_read_data u16_at u32_at follow
root-Directory = ends {buffer = root} {lfn' = []} refl root-Files refl
