-- ===== src/Fat/Dir.antt =====
-- The directories of packages/fat/main.cpp: entries of 32 bytes, with long names spread over the entries
-- before them.
use akari.Prelude.{
  ℕ, zero, suc, ◌+◌, ◌*◌, Bool, true, ◌&&◌, ◌||◌, List, [], ◌∷◌, ◌++◌, Option, none, some,
  get_elem?, take, drop, length, ltb, leb, ◌==◌, if◌then◌else◌, u16_mod, test_bit, Result, ok,
  fault, ◌>>=◌, or_fault,
}
use akari.Text.{strcmp}
use akari.Fat.{AtaRead, Volume, FatClusters, read_cluster, next_cluster, u16_at, u32_at}

-- `fat_dirent_t`, with the fields that are read, or the characters of a `fat_lfn_dirent_t`.
pub record Dirent : Type 0 where
  pub filename : List ℕ
  pub attributes : ℕ
  pub first_cluster_high : ℕ
  pub first_cluster_low : ℕ
  pub size : ℕ
  pub lfn_chars : List ℕ

-- The u16s `c1` to `c13` of a long name entry, at the places that the packed struct gives them: its
-- `cluster` is one byte, so that `c12` begins at byte 27.
unfoldable pub chars_at : List ℕ → List ℕ → Result (List ℕ)
chars_at bytes [] = ok []
chars_at bytes (i ∷ is) = do c ← u16_at bytes i; cs ← chars_at bytes is; ok (c ∷ cs)

abbrev pub char_places : List ℕ
char_places = 1 ∷ 3 ∷ 5 ∷ 7 ∷ 9 ∷ 14 ∷ 16 ∷ 18 ∷ 20 ∷ 22 ∷ 24 ∷ 27 ∷ 29 ∷ []

-- The entry at a position of a cluster in memory.
unfoldable pub dirent_at : List ℕ → ℕ → Result Dirent
dirent_at buffer position =
    let bytes = take 32 (drop (position * 32) buffer) in
    do
      attributes ← or_fault (get_elem? bytes 11)
      high ← u16_at bytes 20
      low ← u16_at bytes 26
      size ← u32_at bytes 28
      chars ← chars_at bytes char_places
      ok (record {
        filename = take 11 bytes;
        attributes = attributes;
        first_cluster_high = high;
        first_cluster_low = low;
        size = size;
        lfn_chars = chars;
      })

-- A `std::string` as C sees it: to its first NUL.
unfoldable pub c_str : List ℕ → List ℕ
c_str [] = []
c_str (c ∷ s) = if c == 0 then [] else c ∷ c_str s

-- `APPEND_PORTION`, thirteen times.
unfoldable pub portion : List ℕ → List ℕ
portion [] = []
portion (c ∷ cs) = if ltb c 0x80 then c ∷ portion cs else portion cs

-- `lfn = portion + lfn`, which copies the right side as a C string.
abbrev pub add_portion : Dirent → List ℕ → List ℕ
add_portion fd lfn = portion fd.lfn_chars ++ c_str lfn

-- The loops of `get_filename`: up to `n` characters above a space.
unfoldable pub name_part : List ℕ → ℕ → List ℕ
name_part s zero = []
name_part [] (suc n) = []
name_part (c ∷ s) (suc n) = if ltb 0x20 c then c ∷ name_part s n else []

unfoldable pub get_filename : Dirent → List ℕ
get_filename fd =
    let base = name_part fd.filename 8 in
    let ext = name_part (drop 8 fd.filename) 3 in
    elim ext [ [] ↦ base | c ∷ s ↦ base ++ b'.' ∷ c ∷ s ]

-- What the loops over a directory do with an entry: stop at the end of the cluster's entries, pass it
-- over, add it to the long name, or take it as a file.
pub data Slot : Type 0 where
  stop pass long_name file : Slot

unfoldable pub slot : Dirent → Result Slot
slot fd = do
  first ← or_fault (get_elem? fd.filename 0)
  ok (
      if first == 0
      then stop
      else (if first == 0xe5
          then pass
          else (if fd.attributes == 0x0f
              then long_name
              else (if test_bit fd.attributes 3 then pass else file))))

-- The name that a file is listed under.
unfoldable pub listed_name : List ℕ → Dirent → List ℕ
listed_name lfn fd = if length lfn == 0 then get_filename fd else c_str lfn

abbrev pub dirent_inode : Dirent → ℕ
dirent_inode fd = fd.first_cluster_high * u16_mod + fd.first_cluster_low

-- `VFSDirent`, whose name is cut at 127 bytes, and the fields of `VFSNode` that are set.
pub record VfsDirent : Type 0 where
  pub name : List ℕ
  pub inode : ℕ

pub record VfsNode : Type 0 where
  pub name : List ℕ
  pub is_directory : Bool
  pub inode : ℕ
  pub length : ℕ

-- What a walk over a directory keeps: the long name so far, and the index of the next file.
pub record Walk : Type 0 where
  pub lfn : List ℕ
  pub current : ℕ

-- A walk over one cluster ends with what it looked for, or goes on with the next.
pub data Walked {ℓ} (A : Type ℓ) : Type ℓ where
  found : A → Walked A
  goes_on : Walk → Walked A

-- The loop over the entries of a cluster from `position` on, which hands each file, under its name, to
-- the body: `wanted` is what the body returns for the file it looks for.
module _ {ℓ} {A : Type ℓ} (wanted : Walk → Dirent → Option A) where
  unfoldable pub walk_cluster : List ℕ → Walk → ℕ → ℕ → Result (Walked A)
  walk_cluster buffer w position zero = ok (goes_on w)
  walk_cluster buffer w position (suc rounds) = do
    fd ← dirent_at buffer position
    s ← slot fd
    elim s [
      | stop ↦ ok (goes_on w)
      | pass ↦ walk_cluster buffer w (position + 1) rounds
      | long_name ↦
          walk_cluster buffer (record w { lfn = add_portion fd w.lfn }) (position + 1) rounds
      | file ↦ elim (wanted w fd) [
        | some a ↦ ok (found a)
        | none ↦
            walk_cluster buffer (record { lfn = []; current = w.current + 1 }) (position + 1) rounds
      ]
    ]

  -- The loop over the clusters, with `rounds` left; 4096 / 32 entries are read of each.
  unfoldable pub walk_clusters :
      AtaRead → Volume → FatClusters → ℕ → Walk → ℕ → Result (Option A × FatClusters)
  walk_clusters ata v cache cluster w zero = fault
  walk_clusters ata v cache cluster w (suc rounds) = do
    buffer ← read_cluster ata v cluster
    walked ← walk_cluster buffer w 0 128
    elim walked [
      | found a ↦ ok (some a, cache)
      | goes_on w' ↦ next_cluster ata v cache cluster >>= (λ (next, cache'). elim next [
        | none ↦ ok (none, cache')
        | some c ↦ walk_clusters ata v cache' c w' rounds
      ])
    ]

abbrev pub cluster_for_inode : Volume → ℕ → ℕ
cluster_for_inode v inode = if inode == 0 then v.root_cluster else inode

-- The test and the result of `fat_readdir`.
unfoldable pub at_index : ℕ → Walk → Dirent → Option VfsDirent
at_index index w fd =
    if w.current == index
    then some (record { name = take 127 (listed_name w.lfn fd); inode = dirent_inode fd })
    else none

unfoldable pub fat_readdir :
    AtaRead → Volume → FatClusters → ℕ → ℕ → ℕ → Result (Option VfsDirent × FatClusters)
fat_readdir ata v cache inode index rounds =
    let walk : ℕ → Result (Option VfsDirent × FatClusters) = λ current.
      walk_clusters (at_index index) ata v cache (cluster_for_inode v inode)
        (record { lfn = []; current = current }) rounds in
    if inode == 0
    then (if leb index 1
        then ok (
          some (record { name = if index == 0 then b'.' ∷ [] else b'.' ∷ b'.' ∷ []; inode = 0 }),
          cache,
        )
        else walk 2)
    else walk 0

-- The test and the result of `fat_finddir`.
unfoldable pub of_name : List ℕ → Walk → Dirent → Option VfsNode
of_name wanted w fd =
    if strcmp (listed_name w.lfn fd) wanted == 0
    then some (record {
      name = wanted;
      is_directory = test_bit fd.attributes 4;
      inode = dirent_inode fd;
      length = fd.size;
    })
    else none

unfoldable pub fat_finddir :
    AtaRead → Volume → FatClusters → ℕ → List ℕ → ℕ → Result (Option VfsNode × FatClusters)
fat_finddir ata v cache inode wanted rounds =
    let root : VfsNode = record { name = wanted; is_directory = true; inode = 0; length = 0 } in
    if inode == 0 && (strcmp wanted (b'.' ∷ []) == 0 || strcmp wanted (b'.' ∷ b'.' ∷ []) == 0)
    then ok (some root, cache)
    else walk_clusters (of_name wanted) ata v cache (cluster_for_inode v inode)
        (record { lfn = []; current = 0 }) rounds
