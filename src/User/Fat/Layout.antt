-- ===== src/User/Fat/Layout.antt =====
-- The layout of a FAT16 volume: the reserved sectors, the tables, the root directory, and then the clusters,
-- from number 2 on. Cluster 0 stands for the root directory, and no cluster has the number 1.
use horizon_microkernel.Prelude.{
  ℕ, ◌+◌, ◌-◌, ◌*◌, ◌/◌, ◌%◌, ◌^◌, ◌<◌, ◌≡◌, ◌≢◌, ◌==◌, if◌then◌else◌, arith, refl, Bool-cases, inl,
  inr,
}
use horizon_microkernel.User.Fat.{BootRecord, get_cluster_sector}
use horizon_microkernel.User.Fat.Sectors.{chain}

abbrev pub tables_end : BootRecord → ℕ
tables_end br = br.reserved_sectors + br.fat_count * br.fat_sectors

-- The sectors of the root directory, whose entries have 32 bytes; the last sector may be filled in part.
abbrev pub root_sectors : BootRecord → ℕ
root_sectors br = (br.dirent_count * 32 + br.sector_bytes - 1) / br.sector_bytes

abbrev pub cluster_start : BootRecord → ℕ → ℕ
cluster_start br c =
    if c == 0 then tables_end br else tables_end br + root_sectors br + (c - 2) * br.cluster_sectors

-- Byte `p` of the file that begins at cluster `first` is `v`: with the clusters of its chain laid one
-- behind the other, it is the byte `o` of the cluster `k`.
abbrev pub ByteOf : (ℕ → ℕ → ℕ) → BootRecord → ℕ → ℕ → ℕ → Type 0
ByteOf disk br first p v =
    (k : ℕ) × (o : ℕ) × (p ≡ k * (512 * br.cluster_sectors) + o)
    × (o < 512 * br.cluster_sectors)
    × (v ≡ disk (cluster_start br (chain disk br first k) + o / 512) (o % 512))

-- The clusters of the file up to byte `last` are not number 1, and lie in the first 65535 sectors.
abbrev pub IsSited : (ℕ → ℕ → ℕ) → BootRecord → ℕ → ℕ → Type 0
IsSited disk br first last =
    (k : ℕ)
    → k * (512 * br.cluster_sectors) < last
    → (chain disk br first k ≢ 1)
      × (cluster_start br (chain disk br first k) + br.cluster_sectors < 2 ^ 16)

-- The sum of the parts on words, for any such parts.
start_word :
    (end roots n at : ℕ)
    → end + roots + at < 2 ^ 16
    → at ≡ n
    → (end % 2 ^ 32 + roots + n % 2 ^ 32) % 2 ^ 32 ≡ end + roots + at
start_word end roots n at h e = omega (arith, h, e)

pub get_cluster_sector-cluster_start :
    (br : BootRecord) (c : ℕ)
    → c < 2 ^ 16
    → c ≢ 1
    → cluster_start br c + br.cluster_sectors < 2 ^ 16
    → get_cluster_sector br c ≡ cluster_start br c
unfolding get_cluster_sector
get_cluster_sector-cluster_start br c small no_one h = elim (Bool-cases (c == 0)) [
  | inl root ↦ ground (arith, root, h)
  | inr other ↦
      let back : (c + 2 ^ 32 - 2) % 2 ^ 32 ≡ c - 2 = ground (arith, other, small, no_one) in
      let total : tables_end br + root_sectors br + (c - 2) * br.cluster_sectors < 2 ^ 16 =
        ground (arith, other, h) in
      rw (other, back)
        (start_word (tables_end br) (root_sectors br) ((c - 2) * br.cluster_sectors)
          ((c - 2) * br.cluster_sectors) total refl)
]
