-- ===== src/User/Fat/Read.antt =====
-- `fat_read` delivers the bytes of the file.
use horizon_microkernel.Prelude.{
  ℕ, zero, suc, ◌+◌, ◌*◌, ◌/◌, ◌%◌, ◌^◌, ◌≤◌, ◌<◌, ◌≡◌, arith, ap, ◌∙◌,
}
use horizon_microkernel.Libh.Memory.{Memory}
use horizon_microkernel.User.Fat.{BootRecord, cluster_size, get_cluster_sector, Progress}
use horizon_microkernel.User.Fat.Sectors.{IsFresh, entry, chain}

pub chain_add :
    (disk : ℕ → ℕ → ℕ) (br : BootRecord) (c k j : ℕ)
    → chain disk br (chain disk br c k) j ≡ chain disk br c (k + j)
chain_add disk br c zero j = let e : j ≡ 0 + j = omega arith in ap (chain disk br c) e
chain_add disk br c (suc k) j =
    chain_add disk br (entry disk br c) k j
    ∙ ap (chain disk br c) (let e : suc (k + j) ≡ suc k + j = omega arith in e)

-- Byte `p` of the file that begins at cluster `first` is `v`: with the clusters of its chain laid one
-- behind the other, it is the byte `o` of the cluster `k`.
abbrev pub FileByte : (ℕ → ℕ → ℕ) → BootRecord → ℕ → ℕ → ℕ → Type 0
FileByte disk br first p v =
    (k : ℕ) × (o : ℕ) × (p ≡ k * cluster_size br + o)
    × (o < cluster_size br)
    × (v ≡ disk (get_cluster_sector br (chain disk br first k) + o / 512) (o % 512))

-- The clusters of the file up to byte `last` lie in the first 65535 sectors of the volume.
abbrev pub IsLow : (ℕ → ℕ → ℕ) → BootRecord → ℕ → ℕ → Type 0
IsLow disk br first last =
    (k : ℕ)
    → k * cluster_size br < last
    → get_cluster_sector br (chain disk br first k) + br.cluster_sectors < 2 ^ 16

module _ (disk : ℕ → ℕ → ℕ) (br : BootRecord) (first offset length : ℕ) (old : Memory)
    (byte : (s i : ℕ) → disk s i < 256) (some_sectors : 0 < br.cluster_sectors)
    (small_table : br.reserved_sectors + 256 < 2 ^ 16) (is_cluster : first < 2 ^ 16)
    (low : IsLow disk br first (offset + length)) where
  -- The part of the buffer before the current position holds the bytes of the file, and the rest is as
  -- it was.
  abbrev IsFilled : ℕ → Memory → Type 0
  IsFilled pos out =
      ((i : ℕ) → i < pos → FileByte disk br first (offset + i) (out i))
      × ((i : ℕ) → pos ≤ i → out i ≡ old i)

  -- The offset is counted from the cluster `k` of the chain.
  abbrev IsAt : Progress → ℕ → Type 0
  IsAt s k =
      (s.cluster ≡ chain disk br first k) × (offset + s.curr_pos ≡ k * cluster_size br + s.offset)

  abbrev IsReading : Progress → Type 0
  IsReading s =
      (k : ℕ) × IsAt s k
      × (s.curr_pos ≤ length)
      × IsFresh disk s.next_cache
      × IsFresh disk s.read_cache
      × IsFilled s.curr_pos s.ret_buffer
