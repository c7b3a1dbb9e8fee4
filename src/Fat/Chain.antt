-- ===== src/Fat/Chain.antt =====
-- Chains of clusters in the table, and that the clusters kept in memory do not change what is read.
use native.Mathlib.Decide.{ℕ_discrete}
use akari.Prelude.{
  ℕ, ◌+◌, ◌-◌, ◌*◌, ◌/◌, ◌%◌, ◌≡◌, ap, sym, ◌∙◌, List, [], ◌∷◌, ◌++◌, Option, none, some, arith,
  ◌==◌, if◌then◌else◌, u32_mod, Result, ok, fault, ◌>>=◌, All, bind_ok, Option-cases, Bool-cases,
  inl, inr,
}
use akari.Fat.{
  AtaRead, Volume, FatClusters, bytes_per_cluster, partition_read_data, find_cluster,
  read_fat_cluster, read_cluster, u32_at, entry_for, follow, next_cluster,
}

module _ (ata : AtaRead) (v : Volume) where
  -- A cluster of the table, as the service gives it.
  abbrev pub table_cluster : ℕ → Result (List ℕ)
  table_cluster c =
      partition_read_data ata ((v.first_fat_sector + c * v.sectors_per_cluster) % u32_mod)
        (bytes_per_cluster v)

  -- The clusters kept in memory are those of the service.
  abbrev pub IsCached : FatClusters → Type 0
  IsCached = All (λ p. table_cluster p.0 ≡ ok p.1)

  -- Where the table leads from a cluster, with nothing kept in memory.
  unfoldable pub table_next : ℕ → Result (Option ℕ)
  table_next c =
      let entries = bytes_per_cluster v / 4 in
      if entries == 0
      then fault
      else (table_cluster (c / entries) >>= (λ bytes.
          u32_at bytes ((c - c / entries * entries) * 4) >>= (λ e. follow (e % 0x10000000))))

  find_cluster-IsCached :
      (cache : FatClusters) (c : ℕ) {bytes : List ℕ}
      → IsCached cache
      → find_cluster cache c ≡ some bytes
      → table_cluster c ≡ ok bytes
  unfolding find_cluster
  find_cluster-IsCached [] c h e = absurd (ground (arith, e))
  find_cluster-IsCached ((d, bytes) ∷ cache) c {bytes = bytes'} h e = elim (ℕ_discrete d c) [
    | yes p ↦
        let same : bytes ≡ bytes' = ground (arith, e, p) in
        ap table_cluster (sym p) ∙ h.0 ∙ ap ok same
    | no n ↦ find_cluster-IsCached cache c {bytes = bytes'} h.1 (ground (arith, e, n))
  ]

  IsCached-append :
      (cache : FatClusters) (c : ℕ) (bytes : List ℕ)
      → IsCached cache
      → table_cluster c ≡ ok bytes
      → IsCached (cache ++ (c, bytes) ∷ [])
  IsCached-append [] c bytes h e = (e, tt)
  IsCached-append (p ∷ cache) c bytes h e = (h.0, IsCached-append cache c bytes h.1 e)

  read_fat_cluster-IsCached :
      (cache : FatClusters) (c : ℕ) (bytes : List ℕ)
      → IsCached cache
      → table_cluster c ≡ ok bytes
      → (cache' : FatClusters) × (read_fat_cluster ata v cache c ≡ ok (bytes, cache'))
        × IsCached cache'
  unfolding read_fat_cluster
  read_fat_cluster-IsCached cache c bytes h e = elim (Option-cases (find_cluster cache c)) [
    | inl absent ↦
        (cache ++ (c, bytes) ∷ [], ground (arith, absent, e), IsCached-append cache c bytes h e)
    | inr found ↦
        let (bytes', f) = found in
        let here = find_cluster-IsCached cache c {bytes = bytes'} h f in
        let same : bytes' ≡ bytes = ground (arith, here, e) in (cache, ground (arith, f, same), h)
  ]

  -- The clusters kept in memory do not change where the table leads.
  pub next_cluster-table_next :
      (cache : FatClusters) (c : ℕ) (next : Option ℕ)
      → IsCached cache
      → table_next c ≡ ok next
      → (cache' : FatClusters) × (next_cluster ata v cache c ≡ ok (next, cache')) × IsCached cache'
  unfolding next_cluster entry_for table_next
  next_cluster-table_next cache c next h e = elim (Bool-cases (bytes_per_cluster v / 4 == 0)) [
    | inl nothing ↦ absurd (ground (arith, e, nothing))
    | inr entries ↦
        let n = bytes_per_cluster v / 4 in
        let leads : ℕ → Result (Option ℕ) = λ e. follow (e % 0x10000000) in
        let after : List ℕ → Result (Option ℕ) =
          λ bytes. u32_at bytes ((c - c / n * n) * 4) >>= leads in
        let found : (table_cluster (c / n) >>= after) ≡ ok next = ground (arith, e, entries) in
        let (bytes, t, e1) = bind_ok (table_cluster (c / n)) after found in
        let (word, u, e2) = bind_ok (u32_at bytes ((c - c / n * n) * 4)) leads e1 in
        let (cache', r, h') = read_fat_cluster-IsCached cache (c / n) bytes h t in
        (cache', ground (arith, entries, r, u, e2), h')
  ]

  -- The clusters of a file from `c` on, to the end that the table marks.
  pub data Chain : ℕ → List (List ℕ) → Type 0 where
    last :
        {c : ℕ} {bytes : List ℕ}
        → read_cluster ata v c ≡ ok bytes
        → table_next c ≡ ok none
        → Chain c (bytes ∷ [])
    link :
        {c c' : ℕ} {bytes : List ℕ} {rest : List (List ℕ)}
        → read_cluster ata v c ≡ ok bytes
        → table_next c ≡ ok (some c')
        → Chain c' rest
        → Chain c (bytes ∷ rest)
