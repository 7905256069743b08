-- ===== src/User/Fat/Sectors.antt =====
-- The caches of fat.c hold what they say, and a cluster is found by following the chain.
use horizon_microkernel.Prelude.{
  ℕ, zero, suc, ◌+◌, ◌-◌, ◌*◌, ◌/◌, ◌%◌, ◌^◌, ◌<◌, ◌≡◌, true, false, some, ◌==◌, ltb, leb,
  if◌then◌else◌, arith, refl, sym, Bool-cases, inl, inr, ap, ◌∙◌,
}
use horizon_microkernel.User.Fat.{
  BootRecord, Cache, no_cache, fat_free_space, cluster_size, fetch, next_cluster, find_cluster,
}

module _ (disk : ℕ → ℕ → ℕ) where
  -- The buffer holds the sector, unless the number is the one that stands for none.
  abbrev pub IsFresh : Cache → Type 0
  IsFresh c = (c.last_sector < 2 ^ 16 - 1) → (i : ℕ) → c.buffer i ≡ disk c.last_sector i

  pub no_cache-IsFresh : IsFresh no_cache
  no_cache-IsFresh h i = absurd (omega (arith, h))

  -- A sector below 65535 is in the buffer after it has been asked for.
  pub fetch-IsFresh :
      (c : Cache) (sector : ℕ)
      → IsFresh c
      → sector < 2 ^ 16 - 1
      → IsFresh (fetch disk c sector) × ((i : ℕ) → (fetch disk c sector).buffer i ≡ disk sector i)
  unfolding fetch
  fetch-IsFresh c sector fresh h = elim (Bool-cases (sector == c.last_sector)) [
    | inl hit ↦
        let same : sector ≡ c.last_sector = ground (arith, hit) in
        rw (hit) (fresh, λ i. fresh (omega (arith, same, h)) i ∙ ap (λ x. disk x i) (sym same))
    | inr miss ↦
        let small : sector % 2 ^ 16 ≡ sector = omega (arith, h) in
        rw (miss, small) ((λ k i. refl), λ i. refl)
  ]

  module _ (br : BootRecord) where
    -- The entry of a cluster in the table on the disk.
    abbrev pub entry : ℕ → ℕ
    entry cluster =
        let sector = br.reserved_sectors + cluster * 2 / 512 in
        let value = disk sector (cluster * 2 % 512) + 256 * disk sector (cluster * 2 % 512 + 1) in
        if leb fat_free_space value then 2 ^ 16 - 1 else value

    -- The cluster `k` places behind a cluster in its chain.
    abbrev pub chain : ℕ → ℕ → ℕ
    chain cluster zero = cluster
    chain cluster (suc k) = chain (entry cluster) k

    pub next_cluster-entry :
        (c : Cache) (cluster : ℕ)
        → IsFresh c
        → br.reserved_sectors + 256 < 2 ^ 16
        → cluster < 2 ^ 16
        → ((next_cluster disk br c cluster).0 ≡ entry cluster)
          × IsFresh (next_cluster disk br c cluster).1
    unfolding next_cluster
    next_cluster-entry c cluster fresh h b =
        let (now, held) =
          fetch-IsFresh c (br.reserved_sectors + cluster * 2 / 512) fresh (omega (arith, h, b)) in
        (rw (held (cluster * 2 % 512), held (cluster * 2 % 512 + 1)) refl, now)

    module _ (byte : (s i : ℕ) → disk s i < 256) where
      entry-bound : (cluster : ℕ) → entry cluster < 2 ^ 16
      entry-bound cluster =
          let sector = br.reserved_sectors + cluster * 2 / 512 in
          ground (arith, byte sector (cluster * 2 % 512), byte sector (cluster * 2 % 512 + 1))

      pub chain-bound : (cluster k : ℕ) → cluster < 2 ^ 16 → chain cluster k < 2 ^ 16
      chain-bound cluster zero h = h
      chain-bound cluster (suc k) h = chain-bound (entry cluster) k (entry-bound cluster)

      -- `find_cluster` ends, with the cluster of the chain that holds the offset and the offset in it.
      pub find_cluster-chain :
          (fuel k o : ℕ) (c : Cache) (cluster : ℕ)
          → IsFresh c
          → br.reserved_sectors + 256 < 2 ^ 16
          → cluster < 2 ^ 16
          → o < cluster_size br
          → k < fuel
          → (now : Cache) × (find_cluster disk br fuel c cluster (k * cluster_size br + o)
              ≡ some (chain cluster k, o, now))
            × IsFresh now
      unfolding find_cluster
      find_cluster-chain zero k o c cluster fresh h b l f = absurd (omega (arith, f))
      find_cluster-chain (suc fuel) zero o c cluster fresh h b l f =
          let e : 0 * cluster_size br + o ≡ o = omega arith in
          let t : ltb o (cluster_size br) ≡ true = ground (arith, l) in (c, rw (e, t) refl, fresh)
      find_cluster-chain (suc fuel) (suc k) o c cluster fresh h b l f =
          let (value, next) = next_cluster-entry c cluster fresh h b in
          let (now, ran, done) =
            find_cluster-chain fuel k o (next_cluster disk br c cluster).1 (entry cluster) next h
              (entry-bound cluster) l (omega (arith, f)) in
          let more : suc k * cluster_size br + o ≡ k * cluster_size br + o + cluster_size br =
            grind arith in
          let t : ltb (suc k * cluster_size br + o) (cluster_size br) ≡ false =
            ground (arith, more) in
          let left : suc k * cluster_size br + o - cluster_size br ≡ k * cluster_size br + o =
            omega (arith, more) in
          let other : (entry cluster == 2 ^ 32 - 1) ≡ false = ground (arith, entry-bound cluster) in
          (now, rw (t, left, value, other) ran, done)
