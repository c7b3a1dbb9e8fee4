-- ===== src/Fat/Read.antt =====
-- `fat_read_data` gives the bytes of a file's clusters, put together.
use Prim.Native.Nat.{min}
use native.Mathlib.Decide.{ℕ_discrete}
use akari.Prelude.{
  ℕ, zero, suc, ◌-◌, ◌%◌, ◌≤◌, ◌<◌, ◌≡◌, ap, sym, ◌∙◌, List, [], ◌∷◌, ◌++◌, none, some, arith, take,
  drop, length, leb, u16_mod, ok, Bool-cases, inl, inr, length-drop, append-nil, take-append_le,
  take-append_ge, drop-append_le, take-all, take-nil, ◌⊎◌,
}
use akari.Fat.{
  AtaRead, Volume, FatClusters, bytes_per_cluster, partition_read_data, read_cluster, next_cluster,
  seek, copy_clusters,
}
use akari.Fat.Chain.{IsCached, next_cluster-table_next, Chain, last, link}

-- The bytes of a file's clusters, in order.
abbrev pub contents : List (List ℕ) → List ℕ
contents [] = []
contents (bytes ∷ rest) = bytes ++ contents rest

-- The bytes that a round copies.
abbrev copy_count : ℕ → ℕ → ℕ → ℕ
copy_count n len offset = min len (n - offset) % u16_mod

module _ (ata : AtaRead) (v : Volume) where
  length-partition_read_data :
      (sector n : ℕ) {bytes : List ℕ}
      → partition_read_data ata sector n ≡ ok bytes
      → length bytes ≡ n
  unfolding partition_read_data
  length-partition_read_data sector n {bytes} e = elim (ℕ_discrete (length (ata sector n)) n) [
    | yes p ↦ let same : ata sector n ≡ bytes = ground (arith, e, p) in ap length (sym same) ∙ p
    | no m ↦ absurd (ground (arith, e, m))
  ]

  pub length-read_cluster :
      (c : ℕ) {bytes : List ℕ}
      → read_cluster ata v c ≡ ok bytes
      → length bytes ≡ bytes_per_cluster v
  unfolding read_cluster
  length-read_cluster c {bytes} e =
      length-partition_read_data _ (bytes_per_cluster v) {bytes = bytes} e

  pub seek-stop :
      (cache : FatClusters) (c offset rounds : ℕ)
      → offset ≤ bytes_per_cluster v
      → seek ata v cache c offset (suc rounds) ≡ ok (some (c, offset), cache)
  unfolding seek
  seek-stop cache c offset rounds u = ground (arith, u)

  pub seek-end :
      (cache cache' : FatClusters) (c offset rounds : ℕ)
      → bytes_per_cluster v < offset
      → next_cluster ata v cache c ≡ ok (none, cache')
      → seek ata v cache c offset (suc rounds) ≡ ok (none, cache')
  unfolding seek
  seek-end cache cache' c offset rounds u e = ground (arith, u, e)

  pub seek-next :
      (cache cache' : FatClusters) (c c' offset rounds : ℕ)
      → bytes_per_cluster v < offset
      → next_cluster ata v cache c ≡ ok (some c', cache')
      → seek ata v cache c offset (suc rounds)
        ≡ seek ata v cache' c' (offset - bytes_per_cluster v) rounds
  unfolding seek
  seek-next cache cache' c c' offset rounds u e = ground (arith, u, e)

  copy-nothing :
      (cache : FatClusters) (c offset rounds : ℕ)
      → copy_clusters ata v cache c offset 0 (suc rounds) ≡ ok ([], cache)
  unfolding copy_clusters
  copy-nothing cache c offset rounds = ground arith

  -- One round of the copy: the last, one whose file ends, and one that goes on.
  module _ (cache : FatClusters) (c offset len rounds : ℕ) {bytes : List ℕ}
      (r : read_cluster ata v c ≡ ok bytes) (pos : 0 < len) where
    abbrev count : ℕ
    count = copy_count (bytes_per_cluster v) len offset

    copy-done :
        count ≡ len
        → copy_clusters ata v cache c offset len (suc rounds)
          ≡ ok (take len (drop offset bytes) ++ [], cache)
    unfolding copy_clusters
    copy-done e = ground (arith, r, pos, e)

    copy-end :
        (cache' : FatClusters)
        → count < len
        → next_cluster ata v cache c ≡ ok (none, cache')
        → copy_clusters ata v cache c offset len (suc rounds)
          ≡ ok (take count (drop offset bytes) ++ [], cache')
    unfolding copy_clusters
    copy-end cache' u e = ground (arith, r, pos, u, e)

    copy-next :
        (cache' cache'' : FatClusters) (c' : ℕ) {after : List ℕ}
        → count < len
        → next_cluster ata v cache c ≡ ok (some c', cache')
        → copy_clusters ata v cache' c' 0 (len - count) rounds ≡ ok (after, cache'')
        → copy_clusters ata v cache c offset len (suc rounds)
          ≡ ok (take count (drop offset bytes) ++ after, cache'')
    unfolding copy_clusters
    copy-next cache' cache'' c' u e f = ground (arith, r, pos, u, e, f)

-- A read of `len` bytes from a cluster on, where the rest of the file follows.
read_here :
    (bytes rest : List ℕ) (offset len n : ℕ)
    → length bytes ≡ n
    → offset ≤ n
    → len ≤ n - offset
    → take len (drop offset bytes) ++ [] ≡ take len (drop offset (bytes ++ rest))
read_here bytes rest offset len n size o l =
    append-nil (take len (drop offset bytes))
    ∙ sym (
        take-append_le len (drop offset bytes) rest
          (omega (arith, l, size, length-drop offset bytes)))
    ∙ ap (take len) (sym (drop-append_le offset bytes rest (omega (arith, o, size))))

read_on :
    (bytes rest : List ℕ) (offset len n : ℕ)
    → length bytes ≡ n
    → offset ≤ n
    → n - offset < len
    → take (n - offset) (drop offset bytes) ++ take (len - (n - offset)) rest
      ≡ take len (drop offset (bytes ++ rest))
read_on bytes rest offset len n size o l =
    let m : length (drop offset bytes) ≡ n - offset =
      omega (arith, size, length-drop offset bytes) in
    ap (λ xs. xs ++ take (len - (n - offset)) rest)
      (take-all (n - offset) (drop offset bytes) (omega (arith, m)))
    ∙ ap (λ k. drop offset bytes ++ take (len - k) rest) (sym m)
    ∙ sym (take-append_ge len (drop offset bytes) rest (omega (arith, l, m)))
    ∙ ap (take len) (sym (drop-append_le offset bytes rest (omega (arith, o, size))))

-- Where a copy may start, and the rounds that it needs: the first may copy nothing.
abbrev pub Starts : ℕ → ℕ → ℕ → ℕ → Type 0
Starts n offset len rounds = (offset < n) × (len < rounds) ⊎ (offset ≡ n) × (suc len < rounds)

Starts-offset : (n : ℕ) {offset len rounds : ℕ} → Starts n offset len rounds → offset ≤ n
Starts-offset n (inl s) = omega (arith, s.0)
Starts-offset n (inr s) = omega (arith, s.0)

Starts-rounds : (n : ℕ) {offset len : ℕ} → Starts n offset len 0 → ⊥
Starts-rounds n (inl s) = omega (arith, s.1)
Starts-rounds n (inr s) = omega (arith, s.1)

-- The next round starts at the front of a cluster.
Starts-next :
    (n : ℕ) {offset len rounds : ℕ}
    → 0 < n
    → n - offset < len
    → Starts n offset len (suc rounds)
    → Starts n 0 (len - (n - offset)) rounds
Starts-next n pos l (inl s) = inl (pos, omega (arith, s.0, s.1))
Starts-next n pos l (inr s) = inl (pos, omega (arith, s.0, s.1))

module _ (ata : AtaRead) (v : Volume) (pos : 0 < bytes_per_cluster v)
    (small : bytes_per_cluster v < u16_mod) where
  pub copy_clusters-contents :
      (c : ℕ) {clusters : List (List ℕ)}
      → Chain ata v c clusters
      → (cache : FatClusters) (offset len rounds : ℕ) → IsCached ata v cache
      → Starts (bytes_per_cluster v) offset len rounds
      → (cache' : FatClusters) × (copy_clusters ata v cache c offset len rounds
          ≡ ok (take len (drop offset (contents clusters)), cache'))
        × IsCached ata v cache'
  copy_clusters-contents c chain cache offset len zero h s =
      absurd (Starts-rounds (bytes_per_cluster v) s)
  copy_clusters-contents c chain cache offset zero (suc rounds) h s =
      (cache, copy-nothing ata v cache c offset rounds, h)
  copy_clusters-contents c (last {bytes = bytes} r e) cache offset (suc len) (suc rounds) h s =
      let n = bytes_per_cluster v in
      let size : length bytes ≡ n = length-read_cluster ata v c {bytes = bytes} r in
      let o : offset ≤ n = Starts-offset n s in
      elim (Bool-cases (leb (suc len) (n - offset))) [
        | inl all ↦
            let l : suc len ≤ n - offset = ground (arith, all) in
            (
              cache,
              copy-done ata v cache c offset (suc len) rounds {bytes = bytes} r (omega arith)
                    (omega (arith, l, small))
                  ∙ ap (λ xs. ok (xs, cache)) (read_here bytes [] offset (suc len) n size o l),
              h,
            )
        | inr more ↦
            let l : n - offset < suc len = ground (arith, more) in
            let (cache', x, h') = next_cluster-table_next ata v cache c none h e in
            let k : copy_count n (suc len) offset ≡ n - offset = omega (arith, l, small) in
            (
              cache',
              copy-end ata v cache c offset (suc len) rounds {bytes = bytes} r (omega arith) cache'
                    (omega (arith, k, l)) x
                  ∙ ap (λ xs. ok (xs, cache'))
                      (ap (λ i. take i (drop offset bytes) ++ []) k
                        ∙ ap (λ xs. take (n - offset) (drop offset bytes) ++ xs)
                            (sym (take-nil (suc len - (n - offset))))
                        ∙ read_on bytes [] offset (suc len) n size o l),
              h',
            )
      ]
  copy_clusters-contents c (link {c' = c'} {bytes = bytes} {rest = rest} r e chain) cache offset
        (suc len) (suc rounds) h s =
      let n = bytes_per_cluster v in
      let size : length bytes ≡ n = length-read_cluster ata v c {bytes = bytes} r in
      let o : offset ≤ n = Starts-offset n s in
      elim (Bool-cases (leb (suc len) (n - offset))) [
        | inl all ↦
            let l : suc len ≤ n - offset = ground (arith, all) in
            (
              cache,
              copy-done ata v cache c offset (suc len) rounds {bytes = bytes} r (omega arith)
                    (omega (arith, l, small))
                  ∙ ap (λ xs. ok (xs, cache))
                      (read_here bytes (contents rest) offset (suc len) n size o l),
              h,
            )
        | inr more ↦
            let l : n - offset < suc len = ground (arith, more) in
            let (cache', x, h') = next_cluster-table_next ata v cache c (some c') h e in
            let k : copy_count n (suc len) offset ≡ n - offset = omega (arith, l, small) in
            let (cache'', y, h'') =
              copy_clusters-contents c' chain cache' 0 (suc len - (n - offset)) rounds h'
                (Starts-next n pos l s) in
            let y' : copy_clusters ata v cache' c' 0 (suc len - copy_count n (suc len) offset)
                  rounds
                ≡ ok (take (suc len - (n - offset)) (contents rest), cache'') =
              ap (λ i. copy_clusters ata v cache' c' 0 (suc len - i) rounds) k ∙ y in
            (
              cache'',
              copy-next ata v cache c offset (suc len) rounds {bytes = bytes} r (omega arith) cache'
                    cache'' c' (omega (arith, k, l)) x y'
                  ∙ ap (λ xs. ok (xs, cache''))
                      (ap
                          (λ i.
                            take i (drop offset bytes)
                            ++ take (suc len - (n - offset)) (contents rest))
                          k
                        ∙ read_on bytes (contents rest) offset (suc len) n size o l),
              h'',
            )
      ]
