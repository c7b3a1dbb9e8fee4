-- ===== src/Fat/File.antt =====
-- A read of a file, from an offset, over its whole chain of clusters.
use akari.Prelude.{
  ℕ, zero, suc, ◌-◌, ◌≤◌, ◌<◌, ◌≡◌, ◌⊎◌, inl, inr, refl, ap, sym, ◌∙◌, List, [], ◌∷◌, ◌++◌, none,
  some, arith, take, drop, length, ltb, u16_mod, ok, Bool-cases, drop-length, drop-append_ge,
  take-nil,
}
use akari.Fat.{AtaRead, Volume, FatClusters, bytes_per_cluster, seek, fat_read_data}
use akari.Fat.Chain.{IsCached, next_cluster-table_next, Chain, last, link}
use akari.Fat.Read.{
  contents, Starts, copy_clusters-contents, length-read_cluster, seek-stop, seek-end, seek-next,
}

-- What the search for an offset finds: a place in the rest of the file, or nothing past its end.
record Place (ata : AtaRead) (v : Volume) (file : List ℕ) (offset c o : ℕ) : Type 0 where
  clusters : List (List ℕ)
  chain : Chain ata v c clusters
  inside : o ≤ bytes_per_cluster v
  same : drop o (contents clusters) ≡ drop offset file

abbrev Sought : AtaRead → Volume → FatClusters → ℕ → List ℕ → ℕ → ℕ → Type 0
Sought ata v cache c file offset rounds =
    (cache' : FatClusters) × IsCached ata v cache'
    × (((c' : ℕ) × (o : ℕ) × (seek ata v cache c offset rounds ≡ ok (some (c', o), cache'))
          × Place ata v file offset c' o)
        ⊎ (seek ata v cache c offset rounds ≡ ok (none, cache')) × (drop offset file ≡ []))

module _ (ata : AtaRead) (v : Volume) (pos : 0 < bytes_per_cluster v) where
  seek-Sought :
      (c : ℕ) {clusters : List (List ℕ)}
      → Chain ata v c clusters
      → (cache : FatClusters) (offset rounds : ℕ) → IsCached ata v cache
      → offset < rounds
      → Sought ata v cache c (contents clusters) offset rounds
  seek-Sought c chain cache offset zero h u = absurd (omega (arith, u))
  seek-Sought c (last {bytes = bytes} r e) cache offset (suc rounds) h u =
      let n = bytes_per_cluster v in
      let size : length bytes ≡ n = length-read_cluster ata v c {bytes = bytes} r in
      elim (Bool-cases (ltb n offset)) [
        | inr near ↦
            let l : offset ≤ n = ground (arith, near) in
            (
              cache,
              h,
              inl (
                c,
                offset,
                seek-stop ata v cache c offset rounds l,
                record { clusters = bytes ∷ []; chain = last r e; inside = l; same = refl },
              ),
            )
        | inl far ↦
            let l : n < offset = ground (arith, far) in
            let (cache', x, h') = next_cluster-table_next ata v cache c none h e in
            (
              cache',
              h',
              inr (
                seek-end ata v cache cache' c offset rounds l x,
                drop-append_ge offset bytes [] (omega (arith, l, size))
                    ∙ drop-length (offset - length bytes) [] (omega arith),
              ),
            )
      ]
  seek-Sought c (link {c' = c'} {bytes = bytes} {rest = rest} r e chain) cache offset (suc rounds) h
        u =
      let n = bytes_per_cluster v in
      let size : length bytes ≡ n = length-read_cluster ata v c {bytes = bytes} r in
      elim (Bool-cases (ltb n offset)) [
        | inr near ↦
            let l : offset ≤ n = ground (arith, near) in
            (
              cache,
              h,
              inl (
                c,
                offset,
                seek-stop ata v cache c offset rounds l,
                record { clusters = bytes ∷ rest; chain = link r e chain; inside = l; same = refl },
              ),
            )
        | inl far ↦
            let l : n < offset = ground (arith, far) in
            let (cache', x, h') = next_cluster-table_next ata v cache c (some c') h e in
            let step = seek-next ata v cache cache' c c' offset rounds l x in
            let skip : drop (offset - n) (contents rest) ≡ drop offset (bytes ++ contents rest) =
              ap (λ k. drop (offset - k) (contents rest)) (sym size)
              ∙ sym (drop-append_ge offset bytes (contents rest) (omega (arith, l, size))) in
            let (cache'', h'', found) =
              seek-Sought c' chain cache' (offset - n) rounds h' (omega (arith, u, l, pos)) in
            (
              cache'',
              h'',
              elim found [
                | inl f ↦
                    let (c'', o, s, p) = f in
                    inl (
                      c'',
                      o,
                      step ∙ s,
                      record {
                        clusters = p.clusters;
                        chain = p.chain;
                        inside = p.inside;
                        same = p.same ∙ skip;
                      },
                    )
                | inr f ↦ inr (step ∙ f.0, sym skip ∙ f.1)
              ],
            )
      ]

-- Two rounds more than the bytes are enough from any place in a cluster.
starts : (n o len : ℕ) → o ≤ n → Starts n o len (suc (suc len))
starts n o len u = elim (Bool-cases (ltb o n)) [
  | inl less ↦ inl (ground (arith, less), omega arith)
  | inr full ↦ inr (ground (arith, full, u), omega arith)
]

-- On a volume whose clusters have from 1 to 65535 bytes, a read of a file whose chain ends gives the
-- bytes of its clusters from the offset on, up to the length asked for, and keeps the clusters in
-- memory true to the table.
pub fat_read_data-contents :
    (ata : AtaRead) (v : Volume) (c : ℕ) (clusters : List (List ℕ)) (cache : FatClusters)
    (offset len : ℕ)
    → 0 < bytes_per_cluster v
    → bytes_per_cluster v < u16_mod
    → Chain ata v c clusters
    → IsCached ata v cache
    → (cache' : FatClusters) × (fat_read_data ata v cache c offset len
        ≡ ok (take len (drop offset (contents clusters)), cache'))
      × IsCached ata v cache'
unfolding fat_read_data
fat_read_data-contents ata v c clusters cache offset len pos small chain h =
    let (cache', h', found) =
      seek-Sought ata v pos c chain cache offset (suc offset) h (omega arith) in
    elim found [
      | inr f ↦ (
        cache',
        ground (arith, f.0)
            ∙ ap (λ xs. ok (xs, cache')) (sym (take-nil len) ∙ ap (take len) (sym f.1)),
        h',
      )
      | inl f ↦
          let (c', o, s, p) = f in
          let (cache'', e, h'') =
            copy_clusters-contents ata v pos small c' p.chain cache' o len (suc (suc len)) h'
              (starts (bytes_per_cluster v) o len p.inside) in
          (cache'', ground (arith, s, e) ∙ ap (λ xs. ok (take len xs, cache'')) p.same, h'')
    ]
