-- ===== src/Virtual/Paging/Dir.antt =====
-- The creation and the destruction of page directories in kernel/arch/i586/sw/paging.c.
pub mod Create
use horizon_microkernel.Prelude.{ℕ, zero, suc, ◌+◌, true, false, not, ◌&&◌, ◌==◌, if◌then◌else◌}
use horizon_microkernel.Prelude.Outcome.{Outcome, done, ◌>>=◌, ◌>>◌, dassert}
use horizon_microkernel.Virtual.Physical.{physical_alloc, physical_release}
use horizon_microkernel.Virtual.Paging.{
  Paging, PageEntry, entry_frame, entry_addr, entry_at, set_entry, paging_map_temp, clear_window,
  kernel_virt_base, dir_index,
}

-- The last entry of a directory points to the directory itself.
abbrev pub self_entry : ℕ → PageEntry
self_entry dir = record {
  present = true;
  writable = true;
  user = false;
  global = false;
  frame = entry_frame dir;
}

-- The loop over the entries of the kernel space from index `i` on.
unfoldable pub copy_dirents : ℕ → Paging → ℕ → ℕ → Outcome Paging
copy_dirents zero s dir i = done s
copy_dirents (suc rounds) s dir i = do
  kdir ← paging_map_temp s s.kernel_dir
  tdir ← paging_map_temp kdir dir
  copy_dirents rounds (set_entry tdir i (entry_at kdir i)) dir (i + 1)

unfoldable pub paging_dir_create : Paging → Outcome (ℕ × Paging)
paging_dir_create s = do
  (dir, physical) ← physical_alloc s.physical
  vdir ← paging_map_temp (record s { physical = physical }) dir
  let made = set_entry (clear_window vdir) 1023 (self_entry dir)
  now ←
      (if made.kernel_dir == 0
        then done made
        else copy_dirents 255 made dir (dir_index kernel_virt_base))
  done (dir, now)

-- The loop over the pages of a table. Its index is not used: each round is about the entry `i`.
unfoldable pub release_pages : ℕ → Paging → ℕ → Outcome Paging
release_pages zero s i = done s
release_pages (suc rounds) s i = do
  now ←
      (if not (entry_at s i).present then done s else (do
        (freed, physical) ← physical_release s.physical (entry_addr (entry_at s i).frame)
        done (record s { physical = physical })))
  release_pages rounds now i

unfoldable pub release_table : Paging → ℕ → ℕ → Outcome Paging
release_table s tbl i = do
  vtbl ← paging_map_temp s tbl
  now ← release_pages 1024 vtbl i
  (freed, physical) ← physical_release now.physical tbl
  done (record now { physical = physical })

unfoldable pub release_tables : ℕ → Paging → ℕ → ℕ → Outcome Paging
release_tables zero s dir i = done s
release_tables (suc rounds) s dir i = do
  vdir ← paging_map_temp s dir
  now ←
      (if not (entry_at vdir i).present
        then done vdir
        else release_table vdir (entry_addr (entry_at vdir i).frame) i)
  release_tables rounds now dir (i + 1)

unfoldable pub paging_dir_destroy : Paging → ℕ → Outcome Paging
paging_dir_destroy s dir = do
  dassert (not (dir == 0) && not (dir == s.kernel_dir))
  now ← release_tables (dir_index kernel_virt_base) s dir 0
  (freed, physical) ← physical_release now.physical dir
  done (record now { physical = physical })
