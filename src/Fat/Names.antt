-- ===== src/Fat/Names.antt =====
-- `fat_readdir` on the files of a directory.
use native.Mathlib.Decide.{ℕ_discrete}
use akari.Prelude.{
  ℕ, zero, suc, ◌+◌, ◌≤◌, ◌≡◌, refl, ap, ◌∙◌, false, List, [], ◌∷◌, Option, none, some, arith,
  get_elem?, take, ◌==◌, if◌then◌else◌, ok,
}
use akari.Fat.{AtaRead, Volume, FatClusters}
use akari.Fat.Chain.{IsCached}
use akari.Fat.Dir.{VfsDirent, listed_name, dirent_inode, at_index, fat_readdir, cluster_for_inode}
use akari.Fat.Listing.{File, Directory, first_wanted, walk_clusters-first_wanted}

-- The name that a file is listed by.
abbrev pub file_name : File → List ℕ
file_name f = listed_name f.0 f.1

-- What `fat_readdir` returns for a file.
abbrev pub dirent_of : Option File → Option VfsDirent
dirent_of none = none
dirent_of (some f) = some (record { name = take 127 (file_name f); inode = dirent_inode f.1 })

-- The entries . and .. that a listing of the root begins with.
abbrev pub dots : ℕ → ℕ
dots inode = if inode == 0 then 2 else 0

first_wanted-at_index :
    (current k : ℕ) (files : List File)
    → first_wanted (at_index (current + k)) current files ≡ dirent_of (get_elem? files k)
unfolding first_wanted at_index
first_wanted-at_index current k [] = refl
first_wanted-at_index current zero (f ∷ files) = ground arith
first_wanted-at_index current (suc k) (f ∷ files) =
    let far : (current == (current + suc k)) ≡ false = ground arith in
    let skip : first_wanted (at_index (current + suc k)) current (f ∷ files)
        ≡ first_wanted (at_index (current + suc k)) (current + 1) files =
      ground (arith, far) in
    skip
    ∙ ap (λ i. first_wanted (at_index i) (current + 1) files) {x = current + suc k}
        {y = (current + 1) + k} (omega arith)
    ∙ first_wanted-at_index (current + 1) k files

-- `fat_readdir` lists a directory by index: after . and .. in the root, its files one by one, and none
-- past the last.
pub fat_readdir-files :
    (ata : AtaRead) (v : Volume) (cache : FatClusters) (inode k rounds n : ℕ) (files : List File)
    → Directory ata v (cluster_for_inode v inode) [] n files
    → IsCached ata v cache
    → n ≤ rounds
    → (cache' : FatClusters) × (fat_readdir ata v cache inode (dots inode + k) rounds
        ≡ ok (dirent_of (get_elem? files k), cache'))
      × IsCached ata v cache'
unfolding fat_readdir
fat_readdir-files ata v cache inode k rounds n files d h u = elim (ℕ_discrete inode 0) [
  | yes p ↦
      let (cache', w, h') =
        walk_clusters-first_wanted (at_index (2 + k)) ata v cache 2 rounds d h u in
      (cache', ground (arith, p, w, first_wanted-at_index 2 k files), h')
  | no m ↦
      let (cache', w, h') =
        walk_clusters-first_wanted (at_index (0 + k)) ata v cache 0 rounds d h u in
      (cache', ground (arith, m, w, first_wanted-at_index 0 k files), h')
]
