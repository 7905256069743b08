-- ===== src/Virtual/Paging.antt =====
-- kernel/arch/i586/sw/paging.c and paging.h: page directories and tables. A directory or a table is a page
-- of physical memory, 1024 entries; `pages` holds them by the number of the page. The kernel writes them
-- through a window, two pages of its address space that `paging_map_temp` points to a physical page, so a
-- pointer to an entry is the index of the entry in the page of the window. What the processor keeps of the
-- tables (the TLB, which `invlpg` and a load of CR3 clear) is not modelled.
pub mod Tables
pub mod Map
pub mod Dir
pub mod Query
pub mod Window
use horizon_microkernel.Prelude.{
  ℕ, zero, suc, ◌+◌, ◌-◌, ◌*◌, ◌/◌, ◌%◌, ◌^◌, Bool, true, false, not, ◌&&◌, ◌||◌, Option, none,
  some, ◌==◌, ltb, if◌then◌else◌,
}
use horizon_microkernel.Prelude.Outcome.{Outcome, done, halted, ◌>>=◌, ◌>>◌, dassert}
use horizon_microkernel.Util.Addr.{pgsize, addr_align}
use horizon_microkernel.Virtual.Physical.{Physical, physical_alloc, physical_release}

-- The bits of an entry that the code uses, of a directory or a table.
pub record PageEntry : Type 0 where
  pub present : Bool
  pub writable : Bool
  pub user : Bool
  pub global : Bool
  pub frame : ℕ

abbrev pub no_entry : PageEntry
no_entry = record { present = false; writable = false; user = false; global = false; frame = 0 }

abbrev pub Pages : Type 0
Pages = ℕ → ℕ → PageEntry

-- `kernel_dir` and `tempmap_addr` are the static variables, 0 for NULL. The window has two entries in a
-- table of the kernel that every directory shares; `window` and `window_high` are the fields `frame` of
-- these two entries, and `pages` holds everything else. So what `pages` says of the two pages of the
-- window themselves is not what the processor sees, and nothing is stated about these pages. Window has the
-- pages with the two entries in their place.
pub record Paging : Type 0 where
  pub pages : Pages
  pub kernel_dir : ℕ
  pub tempmap_addr : ℕ
  pub window : ℕ
  pub window_high : ℕ
  pub physical : Physical

-- The pages of the window, by their numbers.
abbrev pub is_window : ℕ → ℕ → Bool
is_window tempmap_addr n = n == tempmap_addr / 4096 || n == tempmap_addr / 4096 + 1

abbrev pub dir_index : ℕ → ℕ
dir_index x = x / 2 ^ 22 % 1024

abbrev pub tbl_index : ℕ → ℕ
tbl_index x = x / 2 ^ 12 % 1024

-- What an entry's field `frame`, of 20 bits, takes of an address, and the address of a frame.
abbrev pub entry_frame : ℕ → ℕ
entry_frame x = x / 2 ^ 12 % 2 ^ 20

abbrev pub entry_addr : ℕ → ℕ
entry_addr x = x * 2 ^ 12

abbrev pub flag_write : ℕ → Bool
flag_write flags = flags % 2 == 1

abbrev pub flag_user : ℕ → Bool
flag_user flags = flags / 2 % 2 == 1

abbrev pub flag_force : ℕ → Bool
flag_force flags = flags / 4 % 2 == 1

-- `KERNEL_VIRT_BASE`
abbrev pub kernel_virt_base : ℕ
kernel_virt_base = 0xC0000000

abbrev pub set_page : Pages → ℕ → ℕ → PageEntry → Pages
set_page pages f i e j k = if f == j && i == k then e else pages j k

abbrev pub clear_page : Pages → ℕ → Pages
clear_page pages f j k = if f == j then no_entry else pages j k

-- The entry of the page in the window, and a write to it.
abbrev pub entry_at : Paging → ℕ → PageEntry
entry_at s i = s.pages s.window i

abbrev pub set_entry : Paging → ℕ → PageEntry → Paging
set_entry s i e = record s { pages = set_page s.pages s.window i e }

-- The writes to the field `frame` of the two entries of the window.
abbrev pub paging_map_temp : Paging → ℕ → Outcome Paging
paging_map_temp s phys = do
  dassert (not (s.tempmap_addr == 0))
  done (record s { window = entry_frame phys; window_high = entry_frame (phys + pgsize) })

-- `memset` over the page in the window.
abbrev pub clear_window : Paging → Paging
clear_window s = record s { pages = clear_page s.pages s.window }

abbrev pub dirent_get : Paging → ℕ → ℕ → Outcome (ℕ × Paging)
dirent_get s dir virt = do now ← paging_map_temp s dir; done (dir_index virt, now)

unfoldable pub tblent_get : Paging → ℕ → ℕ → Outcome (Option ℕ × Paging)
tblent_get s dir virt = do
  (i, at_dir) ← dirent_get s dir virt
  if not (entry_at at_dir i).present then done (none, at_dir) else (do
    at_tbl ← paging_map_temp at_dir (entry_addr (entry_at at_dir i).frame)
    done (some (tbl_index virt), at_tbl))

abbrev pub is_aligned : ℕ → Outcome (Unit {0})
is_aligned x = do a ← addr_align x pgsize; dassert (a == x)

-- `if (!dir) dir = kernel_dir; dassert(dir);`
abbrev pub used_dir : Paging → ℕ → Outcome ℕ
used_dir s dir = do let d = if dir == 0 then s.kernel_dir else dir; dassert (not (d == 0)); done d

-- The two branches on `de->present` in `paging_map`; the window is then at the page table.
unfoldable pub old_table : Paging → ℕ → ℕ → Outcome Paging
old_table s i flags = do
  let de = entry_at s i
  let e = record de {
    writable = de.writable || flag_write flags;
    user = de.user || flag_user flags;
  }
  paging_map_temp (set_entry s i e) (entry_addr de.frame)

unfoldable pub new_table : Paging → ℕ → ℕ → Outcome Paging
new_table s i flags = do
  (tbl, physical) ← physical_alloc s.physical
  let e : PageEntry = record {
    present = true;
    writable = flag_write flags;
    user = flag_user flags;
    global = false;
    frame = entry_frame tbl;
  }
  now ← paging_map_temp (set_entry (record s { physical = physical }) i e) tbl
  done (clear_window now)

-- The end of `paging_map`.
unfoldable pub put_page : Paging → ℕ → ℕ → ℕ → Bool × Paging
put_page s virt phys flags =
    let e : PageEntry = record {
      present = true;
      writable = flag_write flags;
      user = flag_user flags;
      global = false;
      frame = entry_frame phys;
    } in
    if not (entry_at s (tbl_index virt)).present || flag_force flags
    then (true, set_entry s (tbl_index virt) e)
    else (false, s)

unfoldable pub paging_map : Paging → ℕ → ℕ → ℕ → ℕ → Outcome (Bool × Paging)
paging_map s dir virt phys flags = do
  is_aligned virt
  is_aligned phys
  d ← used_dir s dir
  (i, at_dir) ← dirent_get s d virt
  at_tbl ←
      (if (entry_at at_dir i).present then old_table at_dir i flags else new_table at_dir i flags)
  done (put_page at_tbl virt phys flags)

-- The entry that `paging_unmap` ends at, if there is one that is present.
abbrev pub present_at : Option ℕ → Paging → Option ℕ
present_at none s = none
present_at (some t) s = if (entry_at s t).present then some t else none

unfoldable pub drop_page : Option ℕ → Paging → Outcome Paging
drop_page none s = done s
drop_page (some t) s = do
  (freed, physical) ← physical_release s.physical (entry_addr (entry_at s t).frame)
  done (set_entry (record s { physical = physical }) t (record (entry_at s t) { present = false }))

unfoldable pub paging_unmap : Paging → ℕ → ℕ → Outcome Paging
paging_unmap s dir virt = do
  is_aligned virt
  d ← used_dir s dir
  (te, now) ← tblent_get s d virt
  drop_page (present_at te now) now

abbrev pub is_some : Option ℕ → Bool
is_some none = false
is_some (some t) = true

unfoldable pub paging_is_mapped : Paging → ℕ → ℕ → Outcome (Bool × Paging)
paging_is_mapped s dir virt = do
  is_aligned virt
  d ← used_dir s dir
  (te, now) ← tblent_get s d virt
  done (is_some (present_at te now), now)

abbrev pub mapped_addr : Option ℕ → Paging → ℕ
mapped_addr none s = 0
mapped_addr (some t) s = entry_addr (entry_at s t).frame

-- The result is 0 for NULL.
unfoldable pub paging_mapping_get : Paging → ℕ → ℕ → Outcome (ℕ × Paging)
paging_mapping_get s dir virt = do
  is_aligned virt
  d ← used_dir s dir
  (te, now) ← tblent_get s d virt
  done (mapped_addr (present_at te now) now, now)
