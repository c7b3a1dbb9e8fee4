-- ===== src/Fat/Listing.antt =====
-- A directory as the list of its files, each with the long name before it: `fat_readdir` indexes it, and
-- `fat_finddir` searches it.
use akari.Prelude.{
  ℕ, zero, suc, ◌+◌, ◌≤◌, ◌≡◌, ap, ◌∙◌, List, [], ◌∷◌, ◌++◌, Option, none, some, arith, length, ok,
  Option-cases, inl, inr,
}
use akari.Fat.{AtaRead, Volume, FatClusters, read_cluster}
use akari.Fat.Chain.{IsCached, table_next, next_cluster-table_next}
use akari.Fat.Dir.{
  Dirent, stop, pass, long_name, file, slot, dirent_at, add_portion, Walk, Walked, found, goes_on,
  walk_cluster, walk_clusters,
}

-- A file of a directory, after the long name that was read before it.
abbrev pub File : Type 0
File = List ℕ × Dirent

-- The files among `rounds` entries of a cluster from a position on, with the long name that is open
-- before and after them.
pub data Files (buffer : List ℕ) : ℕ → ℕ → List ℕ → List File → List ℕ → Type 0 where
  no_more : {position : ℕ} {lfn : List ℕ} → Files buffer position 0 lfn [] lfn
  stops :
      {position rounds : ℕ} {lfn : List ℕ} (fd : Dirent)
      → dirent_at buffer position ≡ ok fd
      → slot fd ≡ ok stop
      → Files buffer position (suc rounds) lfn [] lfn
  passes :
      {position rounds : ℕ} {lfn lfn' : List ℕ} {files : List File} (fd : Dirent)
      → dirent_at buffer position ≡ ok fd
      → slot fd ≡ ok pass
      → Files buffer (position + 1) rounds lfn files lfn'
      → Files buffer position (suc rounds) lfn files lfn'
  names :
      {position rounds : ℕ} {lfn lfn' : List ℕ} {files : List File} (fd : Dirent)
      → dirent_at buffer position ≡ ok fd
      → slot fd ≡ ok long_name
      → Files buffer (position + 1) rounds (add_portion fd lfn) files lfn'
      → Files buffer position (suc rounds) lfn files lfn'
  lists :
      {position rounds : ℕ} {lfn lfn' : List ℕ} {files : List File} (fd : Dirent)
      → dirent_at buffer position ≡ ok fd
      → slot fd ≡ ok file
      → Files buffer (position + 1) rounds [] files lfn'
      → Files buffer position (suc rounds) lfn ((lfn, fd) ∷ files) lfn'

-- The files of a directory from a cluster on, over so many clusters.
pub data Directory (ata : AtaRead) (v : Volume) : ℕ → List ℕ → ℕ → List File → Type 0 where
  last :
      {c : ℕ} {buffer lfn lfn' : List ℕ} {files : List File}
      → read_cluster ata v c ≡ ok buffer
      → Files buffer 0 128 lfn files lfn'
      → table_next ata v c ≡ ok none
      → Directory ata v c lfn 1 files
  link :
      {c c' n : ℕ} {buffer lfn lfn' : List ℕ} {files rest : List File}
      → read_cluster ata v c ≡ ok buffer
      → Files buffer 0 128 lfn files lfn'
      → table_next ata v c ≡ ok (some c')
      → Directory ata v c' lfn' n rest
      → Directory ata v c lfn (suc n) (files ++ rest)

module _ {ℓ} {A : Type ℓ} (wanted : Walk → Dirent → Option A) where
  -- The first file that is wanted, counting from `current`.
  unfoldable pub first_wanted : ℕ → List File → Option A
  first_wanted current [] = none
  first_wanted current ((lfn, fd) ∷ files) =
      elim (wanted (record { lfn = lfn; current = current }) fd) [
        | some a ↦ some a
        | none ↦ first_wanted (current + 1) files
      ]

  unfoldable outcome : Option A → List ℕ → ℕ → Walked A
  outcome (some a) lfn current = found a
  outcome none lfn current = goes_on (record { lfn = lfn; current = current })

  walk_cluster-outcome :
      (buffer : List ℕ) {position rounds : ℕ} {lfn lfn' : List ℕ} {files : List File} (current : ℕ)
      → Files buffer position rounds lfn files lfn'
      → walk_cluster wanted buffer (record { lfn = lfn; current = current }) position rounds
        ≡ ok (outcome (first_wanted current files) lfn' (current + length files))
  unfolding walk_cluster first_wanted outcome
  walk_cluster-outcome buffer {lfn} current no_more =
      ap (λ c. ok (goes_on (record { lfn = lfn; current = c }))) (omega arith)
  walk_cluster-outcome buffer {lfn} current (stops fd d s) =
      ground (arith, d, s)
      ∙ ap (λ c. ok (goes_on (record { lfn = lfn; current = c }))) {x = current} {y = current + 0}
          (omega arith)
  walk_cluster-outcome buffer current (passes fd d s r) =
      ground (arith, d, s) ∙ walk_cluster-outcome buffer current r
  walk_cluster-outcome buffer current (names fd d s r) =
      ground (arith, d, s) ∙ walk_cluster-outcome buffer current r
  walk_cluster-outcome buffer {position = position} {rounds = suc rounds} {lfn = lfn} {lfn' = lfn'}
        current (lists {files = files} fd d s r) =
      elim (Option-cases (wanted (record { lfn = lfn; current = current }) fd)) [
        | inl e ↦
            let next : walk_cluster wanted buffer (record { lfn = lfn; current = current }) position
                  (suc rounds)
                ≡ walk_cluster wanted buffer (record { lfn = []; current = current + 1 })
                    (position + 1) rounds =
              ground (arith, d, s, e) in
            let skip : first_wanted (current + 1) files ≡ first_wanted current ((lfn, fd) ∷ files) =
              ground (arith, e) in
            let count : (current + 1) + length files ≡ current + suc (length files) = omega arith in
            next
            ∙ walk_cluster-outcome buffer (current + 1) r
            ∙ ap (λ o. ok (outcome o lfn' ((current + 1) + length files))) skip
            ∙ ap (λ n. ok (outcome (first_wanted current ((lfn, fd) ∷ files)) lfn' n)) count
        | inr f ↦ let (a, e) = f in ground (arith, d, s, e)
      ]

  first_wanted-append :
      (current : ℕ) (files rest : List File)
      → first_wanted current (files ++ rest) ≡ elim (first_wanted current files) [
        | some a ↦ some a
        | none ↦ first_wanted (current + length files) rest
      ]
  unfolding first_wanted
  first_wanted-append current [] rest = ap (λ c. first_wanted c rest) (omega arith)
  first_wanted-append current ((lfn, fd) ∷ files) rest =
      let count : first_wanted ((current + 1) + length files) rest
          ≡ first_wanted (current + suc (length files)) rest =
        ap (λ c. first_wanted c rest) (omega arith) in
      ground (arith, first_wanted-append (current + 1) files rest, count)

  -- A walk over a directory finds the first file that is wanted, or none.
  pub walk_clusters-first_wanted :
      (ata : AtaRead) (v : Volume) {c n : ℕ} {lfn : List ℕ} {files : List File}
      (cache : FatClusters) (current rounds : ℕ)
      → Directory ata v c lfn n files
      → IsCached ata v cache
      → n ≤ rounds
      → (cache' : FatClusters) × (walk_clusters wanted ata v cache c
            (record { lfn = lfn; current = current })
            rounds
          ≡ ok (first_wanted current files, cache'))
        × IsCached ata v cache'
  unfolding walk_clusters outcome
  walk_clusters-first_wanted ata v cache current zero (last r f e) h u = absurd (omega (arith, u))
  walk_clusters-first_wanted ata v cache current zero (link r f e d) h u = absurd (omega (arith, u))
  walk_clusters-first_wanted ata v {c} {lfn} cache current (suc rounds) (last {files = files} r f e)
        h u =
      let (cache', x, h') = next_cluster-table_next ata v cache c none h e in
      let w = walk_cluster-outcome _ current f in
      elim (Option-cases (first_wanted current files)) [
        | inl nothing ↦ (cache', ground (arith, r, w, x, nothing), h')
        | inr it ↦ let (a, e') = it in (cache, ground (arith, r, w, e'), h)
      ]
  walk_clusters-first_wanted ata v {c} {lfn} cache current (suc rounds)
        (link {c' = c'} {files = files} {rest = rest} r f e d) h u =
      let (cache', x, h') = next_cluster-table_next ata v cache c (some c') h e in
      let w = walk_cluster-outcome _ current f in
      let both = first_wanted-append current files rest in
      elim (Option-cases (first_wanted current files)) [
        | inl nothing ↦
            let (cache'', y, h'') =
              walk_clusters-first_wanted ata v cache' (current + length files) rounds d h'
                (omega (arith, u)) in
            (cache'', ground (arith, r, w, x, nothing, y, both), h'')
        | inr it ↦ let (a, e') = it in (cache, ground (arith, r, w, e', both), h)
      ]
