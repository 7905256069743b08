-- ===== src/User/Fat.antt =====
-- user/fatfs-all/fat.c: files on a FAT16 volume. A sector is read with a message to the driver; what the
-- driver answers is the parameter `disk`, the bytes of each sector.
pub mod Sectors
pub mod Layout
pub mod Read
use horizon_microkernel.Prelude.{
  ℕ, zero, suc, ◌+◌, ◌-◌, ◌*◌, ◌/◌, ◌%◌, ◌^◌, Bool, true, false, not, ◌&&◌, Option, none, some,
  ◌==◌, ltb, leb, if◌then◌else◌, min,
}
use horizon_microkernel.Libh.Memory.{Memory}

-- The fields of the boot record that are read.
pub record BootRecord : Type 0 where
  pub sector_bytes : ℕ
  pub cluster_sectors : ℕ
  pub reserved_sectors : ℕ
  pub fat_count : ℕ
  pub dirent_count : ℕ
  pub fat_sectors : ℕ

pub record FatFile : Type 0 where
  pub cluster : ℕ
  pub size : ℕ

-- The static variables of a function: the sector that was read last, and its bytes.
pub record Cache : Type 0 where
  pub last_sector : ℕ
  pub buffer : ℕ → ℕ

-- `static uint16_t last_sector = -1; static uint8_t buffer[512];`
abbrev pub no_cache : Cache
no_cache = record { last_sector = 2 ^ 16 - 1; buffer = λ i. 0 }

abbrev pub fat_free_space : ℕ
fat_free_space = 0xFFF8

-- `memcpy(&ret_buffer[pos], &buffer[from], n)`, from a buffer that lies elsewhere.
unfoldable pub copy_out : Memory → ℕ → (ℕ → ℕ) → ℕ → ℕ → Memory
copy_out out pos buffer from n j =
    if leb pos j && ltb j (pos + n) then buffer (from + (j - pos)) else out j

-- A record with 0 for `sector_bytes` makes the division of the C trap; here it gives a number, so the
-- theorems ask for a record with bytes in its sectors.
unfoldable pub get_cluster_sector : BootRecord → ℕ → ℕ
get_cluster_sector br cluster =
    let first_sector = (br.reserved_sectors + br.fat_count * br.fat_sectors) % 2 ^ 32 in
    let root_sectors = (br.dirent_count * 32 + br.sector_bytes - 1) / br.sector_bytes in
    let cluster_start = (cluster + 2 ^ 32 - 2) % 2 ^ 32 * br.cluster_sectors % 2 ^ 32 in
    if cluster == 0 then first_sector else (first_sector + root_sectors + cluster_start) % 2 ^ 32

abbrev pub cluster_size : BootRecord → ℕ
cluster_size br = 512 * br.cluster_sectors

-- Where the loop of `fat_read` stands: the position in the buffer and in the chain of clusters, the two
-- caches that it uses, and the buffer.
pub record Progress : Type 0 where
  pub curr_pos : ℕ
  pub offset : ℕ
  pub cluster : ℕ
  pub next_cache : Cache
  pub read_cache : Cache
  pub ret_buffer : Memory

abbrev pub read_from : Cache → Cache → FatFile → ℕ → Memory → Progress
read_from next_cache read_cache file offset out = record {
  curr_pos = 0;
  offset = offset;
  cluster = file.cluster;
  next_cache = next_cache;
  read_cache = read_cache;
  ret_buffer = out;
}

module _ (disk : ℕ → ℕ → ℕ) where
  -- `if (sector != last_sector) { read_sector(vol, sector, buffer); last_sector = sector; }`
  unfoldable pub fetch : Cache → ℕ → Cache
  fetch c sector =
      if sector == c.last_sector
      then c
      else record { last_sector = sector % 2 ^ 16; buffer = disk sector }

module _ (disk : ℕ → ℕ → ℕ) (br : BootRecord) where
  unfoldable pub next_cluster : Cache → ℕ → ℕ × Cache
  next_cluster c current_cluster =
      let offset = current_cluster * 2 in
      let now = fetch disk c (br.reserved_sectors + offset / 512) in
      let value = now.buffer (offset % 512) + 256 * now.buffer (offset % 512 + 1) in
      (if leb fat_free_space value then 2 ^ 16 - 1 else value, now)

  -- The cluster, the offset in it, and the cache. The test `cluster == -1` is on a `uint16_t`.
  unfoldable pub find_cluster : ℕ → Cache → ℕ → ℕ → Option (ℕ × ℕ × Cache)
  find_cluster zero c cluster offset = none
  find_cluster (suc fuel) c cluster offset =
      let next = next_cluster c cluster in
      let rest = find_cluster fuel next.1 next.0 (offset - cluster_size br) in
      if ltb offset (cluster_size br)
      then some (cluster, offset, c)
      else if next.0 == 2 ^ 32 - 1
      then some (0, offset, next.1)
      else rest

  -- The body of the loop of `fat_read`, behind `find_cluster`.
  unfoldable pub read_part : Progress → ℕ → ℕ × ℕ × Cache → Progress
  read_part s length (cluster, offset, c) =
      let now = fetch disk s.read_cache (get_cluster_sector br cluster + offset / 512) in
      let to_read = min (length - s.curr_pos) (512 - offset % 512) in
      record {
        curr_pos = s.curr_pos + to_read;
        offset = offset + to_read;
        cluster = cluster;
        next_cache = c;
        read_cache = now;
        ret_buffer = copy_out s.ret_buffer s.curr_pos now.buffer (offset % 512) to_read;
      }

  -- A file offset is `offset / cluster_size` clusters behind the first, so `offset + 1` rounds are enough.
  unfoldable pub read_loop : ℕ → Progress → ℕ → Option Progress
  unfolding read_part
  read_loop zero s length = none
  read_loop (suc fuel) s length =
      let rest : Option Progress =
        elim (find_cluster (suc s.offset) s.next_cache (s.cluster % 2 ^ 16) s.offset) [
          | none ↦ none
          | some found ↦ read_loop fuel (read_part s length found) length
        ] in
      if ltb s.curr_pos length then rest else some s

  -- What the function returns, with the caches and the buffer.
  unfoldable pub fat_read : ℕ → Cache → Cache → FatFile → ℕ → ℕ → Memory → Option (ℕ × Progress)
  fat_read fuel next_cache read_cache file offset length out =
      let start = read_from next_cache read_cache file offset out in
      let n = if ltb file.size ((offset + length) % 2 ^ 32) then file.size - offset else length in
      let loop = read_loop fuel start n in
      if leb file.size offset
      then some (0, start)
      else elim loop [ none ↦ none | some s ↦ some (n, s) ]
