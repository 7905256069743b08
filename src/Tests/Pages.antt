-- ===== src/Tests/Pages.antt =====
-- A small volume, and a directory with one page.
use horizon_microkernel.Prelude.{
  false, Option, ℕ, zero, suc, ◌+◌, ◌*◌, ◌%◌, ◌≤◌, ◌<◌, ◌≡◌, ◌≢◌, true, ◌&&◌, none, some, ◌==◌, ltb,
  if◌then◌else◌, arith, refl, List, [], ◌∷◌,
}
use horizon_microkernel.Prelude.Bits.{bit}
use horizon_microkernel.Prelude.Outcome.{done}
use horizon_microkernel.Libh.Memory.{Memory}
use horizon_microkernel.User.Fat.{BootRecord, FatFile}
use horizon_microkernel.Util.Addr.{addr_to_index}
use horizon_microkernel.Util.Bmstack.{Bmstack}
use horizon_microkernel.Util.Bmstack.Laws.{IsLinked, is_taken}
use horizon_microkernel.Virtual.Physical.{Physical, index_of}
use horizon_microkernel.Virtual.Physical.Laws.{
  IsSound, Allocates, Releases, physical_alloc-Allocates, physical_release-Releases,
}
use horizon_microkernel.Virtual.Paging.{
  is_window, Pages, Paging, no_entry, entry_addr, paging_unmap, is_some,
}
use horizon_microkernel.Virtual.Paging.Tables.{lookup}
use horizon_microkernel.Virtual.Paging.Map.{IsReady, Maps}
use horizon_microkernel.Virtual.Paging.Map.Ready.{KeepsTables, paging_map-Maps}
use horizon_microkernel.Virtual.Paging.Dir.Create.{Creates, paging_dir_create-Creates}
use horizon_microkernel.Virtual.Range.{get_dir, virtual_is_mapped, virtual_map}
use horizon_microkernel.Virtual.Range.Mapped.{MapsRange, virtual_map-Maps}
use horizon_microkernel.Virtual.Range.Laws.{Verdict, virtual_is_mapped-Verdict}
use horizon_microkernel.Virtual.Paging.Query.{GivesBack, paging_unmap-lookup}

abbrev record_fat : BootRecord
record_fat = record {
  sector_bytes = 512;
  cluster_sectors = 1;
  reserved_sectors = 1;
  fat_count = 1;
  dirent_count = 16;
  fat_sectors = 1;
}

-- In the table, cluster 3 comes behind cluster 2.
abbrev small_disk : ℕ → ℕ → ℕ
small_disk s i = if s == 1 then (if i == 4 then 3 else 0) else i % 256

abbrev small_file : FatFile
small_file = record { cluster = 2; size = 700 }

abbrev blank : Memory
blank i = 0

-- The first three pages are taken.
abbrev three_taken : Bmstack
three_taken = record {
  base = 4096;
  entries = λ i. record { next = none; bitmap = 7 };
  head = some 0;
}

three_taken-IsLinked : IsLinked 1 (0 ∷ []) three_taken
three_taken-IsLinked = record {
  based = refl;
  words = λ i. omega arith;
  chain = (refl, refl);
  distinct = (refl, tt);
  inside = λ i h. ground (arith, h);
  free = λ i h. refl;
  complete = λ i l h. ground arith;
}

abbrev some_pages : Physical
some_pages = record {
  alloc_map = three_taken;
  ref_counts = 4096;
  counts = λ j. if ltb j 3 then 1 else 0;
}

some_pages-IsSound : IsSound 1 (0 ∷ []) some_pages
unfolding bit
some_pages-IsSound = record {
  based = refl;
  linked = three_taken-IsLinked;
  counted = counted;
  bytes = λ j. ground arith;
  room = omega arith;
}
  where
    counted : (j : ℕ) → some_pages.counts j ≢ 0 → is_taken three_taken j ≡ true
    counted zero h = refl
    counted (suc zero) h = refl
    counted (suc (suc zero)) h = refl
    counted (suc (suc (suc j))) h = absurd (h (ground arith))

physical_alloc-Allocates_example :
    (block : ℕ) × (q : Physical) × Allocates some_pages q block × ((ys : List ℕ) × IsSound 1 ys q)
physical_alloc-Allocates_example = physical_alloc-Allocates 1 0 [] some_pages some_pages-IsSound

physical_release-Releases_example :
    (q : Physical) × Releases some_pages q 0x1002000 × ((ys : List ℕ) × IsSound 1 ys q)
unfolding addr_to_index
physical_release-Releases_example =
    physical_release-Releases 1 0 [] some_pages 0x1002000 some_pages-IsSound (omega arith)

-- The directory is the first of the pages, a table the second, and page number 5 is mapped to the third.
abbrev one_page : Pages
one_page f i =
    if f == 4096 && i == 0
    then record no_entry { present = true; frame = 4097 }
    else if f == 4097 && i == 5
    then record no_entry { present = true; frame = 4098 }
    else no_entry

abbrev one_mapped : Paging
one_mapped = record {
  pages = one_page;
  kernel_dir = 0x1000000;
  tempmap_addr = 0x2000;
  window = 0;
  window_high = 0;
  physical = some_pages;
}

one_present : (i : ℕ) → (one_page 4096 i).present ≡ true → i ≡ 0
one_present i h = ground (arith, h)

counted_page : (f : ℕ) → 4096 ≤ f → f < 4099 → some_pages.counts (index_of (entry_addr f)) ≢ 0
unfolding addr_to_index
counted_page f low high z = ground (arith, low, high, z)

counted_table :
    (i : ℕ) → i ≡ 0 → some_pages.counts (index_of (entry_addr (one_page 4096 i).frame)) ≢ 0
counted_table i e = rw (e) (counted_page 4097 (omega arith) (omega arith))

one_mapped-IsReady : IsReady 1 (0 ∷ []) one_mapped 0x1000000
one_mapped-IsReady = record {
  mappable = refl;
  some_dir = refl;
  aligned = refl;
  low = omega arith;
  sound = some_pages-IsSound;
  tree = record {
    apart = λ i h p z. ground (arith, one_present i p, z);
    distinct = λ i j h k ne p q z. ne (ground (arith, one_present i p, one_present j q));
  };
  dir_counted = counted_page 4096 (omega arith) (omega arith);
  table_counted = λ i h p. counted_table i (one_present i p);
  table_frames = λ i h p. ground (arith, one_present i p);
}

paging_map-Maps_example :
    (q : Paging) × Maps 1 one_mapped q 0 0x1000000 7 0x1002000 3
    × ((ys : List ℕ) × IsReady 1 ys q 0x1000000)
paging_map-Maps_example =
    paging_map-Maps 1 0 [] one_mapped 0 0x1000000 7 0x1002000 3 one_mapped-IsReady refl
      (omega arith) (omega arith) refl refl

mapped_page : (f : ℕ) → lookup one_page 4096 5 ≡ some f → index_of (entry_addr f) < 1 * 32
unfolding addr_to_index
mapped_page f e = ground (arith, e)

paging_unmap-lookup_example :
    (q : Paging) × (paging_unmap one_mapped 0 (5 * 4096) ≡ done q)
    × ((m : ℕ)
        → m < 1023 * 1024
        → is_window 0x2000 m ≡ false
        → lookup q.pages 4096 m ≡ (if m == 5 then none else lookup one_page 4096 m))
    × GivesBack some_pages q.physical (lookup one_page 4096 5)
paging_unmap-lookup_example =
    paging_unmap-lookup 1 0 [] one_mapped 0 0x1000000 5 one_mapped-IsReady refl (omega arith) refl
      mapped_page

abbrev no_space : ℕ → Option ℕ
no_space pid = none

kernel_space : get_dir no_space 0 ≡ done (0, 1)
unfolding get_dir
kernel_space = refl

virtual_is_mapped-Verdict_example :
    (answer : ℕ) × (q : Paging) × (virtual_is_mapped no_space 3 one_mapped 0 20480 8192
      ≡ some (done (answer, q)))
    × Verdict one_page 4096 5 (20480 + 8192) (is_some (lookup one_page 4096 5)) answer
virtual_is_mapped-Verdict_example =
    virtual_is_mapped-Verdict no_space 1 (0 ∷ []) 3 2 one_mapped 0 0 1 0x1000000 20480 8192
      one_mapped-IsReady kernel_space refl (omega arith) (omega arith) (omega arith) (omega arith)

-- Of the two pages the second is mapped already.
virtual_map-Maps_example :
    (q : Paging) × (virtual_map no_space 3 one_mapped 0 16384 0x1001000 8192 ≡ some (done q))
    × MapsRange 0x2000 one_page q.pages 4096 4 2 4097
    × KeepsTables 1 (0 ∷ []) one_mapped q 0x1000000
virtual_map-Maps_example =
    virtual_map-Maps no_space 1 (0 ∷ []) 3 one_mapped 0 0 1 0x1000000 16384 0x1001000 8192
      one_mapped-IsReady kernel_space refl (omega arith) (omega arith) (omega arith)
      (λ m a b. ground (arith, a, b)) (λ m a b. ground (arith, a, b)) (omega arith)

paging_dir_create-Creates_example :
    (dir : ℕ) × (q : Paging) × Creates 1 one_mapped q dir × ((ys : List ℕ) × IsReady 1 ys q dir)
paging_dir_create-Creates_example = paging_dir_create-Creates 1 0 [] one_mapped one_mapped-IsReady
