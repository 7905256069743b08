-- ===== src/Virtual/Paging/Map/Ready.antt =====
-- `paging_map` ends, with the directory a tree of counted pages again.
use horizon_microkernel.Prelude.{
  ℕ, ◌*◌, ◌/◌, ◌%◌, ◌^◌, ◌<◌, ◌≡◌, ◌≢◌, true, false, not, ◌||◌, ◌==◌, if◌then◌else◌, arith, List,
  ◌∷◌, Bool-cases, inl, inr, sym,
}
use horizon_microkernel.Virtual.Physical.{Physical, index_of}
use horizon_microkernel.Virtual.Physical.Laws.{IsSound, Allocates, physical_alloc-Allocates}
use horizon_microkernel.Virtual.Paging.{
  is_window, PageEntry, Paging, entry_addr, entry_frame, set_entry, flag_force,
}
use horizon_microkernel.Virtual.Paging.Tables.{with_dirent-IsTree}
use horizon_microkernel.Virtual.Paging.Map.{
  IsReady, Maps, old_dirent, fresh_entry, paging_map-table, old_table_lem, new_table_lem,
  map_written, map_left, map_new, allocated-IsNew,
}

-- The directory after its entry `i` has become `de`.
IsReady-step :
    (len i d : ℕ) (xs ys : List ℕ) (s q : Paging) (de : PageEntry)
    → IsReady len xs s d
    → IsSound len ys q.physical
    → q.tempmap_addr ≡ s.tempmap_addr
    → ((j : ℕ) → s.physical.counts j ≢ 0 → q.physical.counts j ≢ 0)
    → ((j : ℕ) → q.pages (d / 4096) j ≡ (if i == j then de else s.pages (d / 4096) j))
    → de.frame ≢ d / 4096
    → ((j : ℕ)
        → j < 1023
        → i ≢ j
        → (s.pages (d / 4096) j).present ≡ true
        → (s.pages (d / 4096) j).frame ≢ de.frame)
    → de.frame < 2 ^ 20
    → q.physical.counts (index_of (entry_addr de.frame)) ≢ 0
    → IsReady len ys q d
IsReady-step len i d xs ys s q de r sound temp more same apart other small counted = record {
  mappable = rw (temp) r.mappable;
  some_dir = r.some_dir;
  aligned = r.aligned;
  low = r.low;
  sound = sound;
  tree = with_dirent-IsTree s.pages q.pages (d / 4096) i de same r.tree apart other;
  dir_counted = more (index_of d) r.dir_counted;
  table_counted = λ j h p. elim (Bool-cases (i == j)) [
    | inl hit ↦ rw (same j, hit) counted
    | inr miss ↦
        rw (same j, miss)
          (more (index_of (entry_addr (s.pages (d / 4096) j).frame))
            (r.table_counted j h (ground (arith, same j, miss, p))))
  ];
  table_frames = λ j h p. elim (Bool-cases (i == j)) [
    | inl hit ↦ rw (same j, hit) small
    | inr miss ↦ rw (same j, miss) (r.table_frames j h (ground (arith, same j, miss, p)))
  ];
}

module _ (len : ℕ) (xs : List ℕ) (s : Paging) (d n : ℕ) (r : IsReady len xs s d)
    (h : n < 1023 * 1024) where
  -- The steps for a table that is there.
  old-IsReady :
      (flags : ℕ) (q : Paging)
      → (s.pages (d / 4096) (n / 1024)).present ≡ true
      → q.physical ≡ s.physical
      → q.tempmap_addr ≡ s.tempmap_addr
      → ((j : ℕ)
          → q.pages (d / 4096) j ≡ (
              if n / 1024 == j
              then old_dirent (s.pages (d / 4096) (n / 1024)) flags
              else s.pages (d / 4096) j))
      → IsReady len xs q d
  old-IsReady flags q p phys temp same =
      let i = n / 1024 in
      let inside : n / 1024 < 1023 = omega (arith, h) in
      IsReady-step len i d xs xs s q (old_dirent (s.pages (d / 4096) i) flags) r (rw (phys) r.sound)
        temp (λ j k. rw (phys) k) same (r.tree.apart i inside p)
        (λ j k ne a e. r.tree.distinct i j inside k ne p a (sym e)) (r.table_frames i inside p)
        (rw (phys) (r.table_counted i inside p))

  -- The steps for a new table.
  new-IsReady :
      (ys : List ℕ) (flags block : ℕ) (f : Physical) (q : Paging)
      → Allocates s.physical f block
      → IsSound len ys f
      → q.physical ≡ f
      → q.tempmap_addr ≡ s.tempmap_addr
      → ((j : ℕ)
          → q.pages (d / 4096) j
            ≡ (if n / 1024 == j then fresh_entry flags block else s.pages (d / 4096) j))
      → IsReady len ys q d
  new-IsReady ys flags block f q a sound phys temp same =
      let new = allocated-IsNew len xs s f d block r a in
      let addr : entry_addr (entry_frame block) ≡ block = omega (arith, a.aligned, a.low) in
      IsReady-step len (n / 1024) d xs ys s q (fresh_entry flags block) r (rw (phys) sound) temp
        (λ j k. rw (phys) λ z. ground (arith, a.now j, k, z)) same new.no_dir
        (λ j k ne p. new.no_table j k p) (omega arith)
        (rw (phys, addr) λ z. ground (arith, a.now (index_of block), z))

-- What a map keeps where the table is there: no page is allocated, and every table stays.
pub record KeepsTables (len : ℕ) (xs : List ℕ) (s q : Paging) (d : ℕ) : Type 0 where
  pub ready : IsReady len xs q d
  pub kernel : q.kernel_dir ≡ s.kernel_dir
  pub tempmap : q.tempmap_addr ≡ s.tempmap_addr
  pub tables :
      (j : ℕ) → (s.pages (d / 4096) j).present ≡ true → (q.pages (d / 4096) j).present ≡ true

pub map_in_table :
    (len : ℕ) (xs : List ℕ) (s : Paging) (dir d n phys flags : ℕ)
    → IsReady len xs s d
    → (if dir == 0 then s.kernel_dir else dir) ≡ d
    → n < 1023 * 1024
    → phys < 2 ^ 32
    → phys % 4096 ≡ 0
    → (s.pages (d / 4096) (n / 1024)).present ≡ true
    → (q : Paging) × Maps len s q dir d n phys flags × KeepsTables len xs s q d
map_in_table len xs s dir d n phys flags r e h l m p =
    let inside : n / 1024 < 1023 = omega (arith, h) in
    let f = (s.pages (d / 4096) (n / 1024)).frame in
    let apart : (f == d / 4096) ≡ false = ground (arith, r.tree.apart (n / 1024) inside p) in
    let (t, got, pages, window, phys_same, temp, kernel) =
      old_table_lem len xs s d (n / 1024) flags r inside p in
    let ran = paging_map-table len xs s dir d n phys flags t r e h l m (rw (p) got) in
    let written = set_entry t (n % 1024) (fresh_entry flags phys) in
    elim (Bool-cases (not (s.pages f (n % 1024)).present || flag_force flags)) [
      | inl w ↦ (
        written,
        map_written len xs s t dir d n phys flags r h l p w pages window ran,
        record {
          ready =
              old-IsReady len xs s d n r h flags written p phys_same temp
                λ j. rw (pages, window) (ground (arith, apart));
          kernel = kernel;
          tempmap = temp;
          tables = λ j b. rw (pages, window) (ground (arith, apart, b, p));
        },
      )
      | inr w ↦ (
        t,
        map_left len xs s t dir d n phys flags r h p w pages window ran,
        record {
          ready =
              old-IsReady len xs s d n r h flags t p phys_same temp λ j. rw (pages) (ground arith);
          kernel = kernel;
          tempmap = temp;
          tables = λ j b. rw (pages) (ground (arith, b, p));
        },
      )
    ]

-- `paging_map` ends. The page is mapped to the frame exactly if it was not mapped or the map is forced,
-- which is the answer; every other page of the directory but the two of the window of `paging_map_temp` is
-- mapped as before. The page itself is not one of these two. The directory keeps its
-- form, with a new table where there was none.
pub paging_map-Maps :
    (len x : ℕ) (xs : List ℕ) (s : Paging) (dir d n phys flags : ℕ)
    → IsReady len (x ∷ xs) s d
    → (if dir == 0 then s.kernel_dir else dir) ≡ d
    → n < 1023 * 1024
    → phys < 2 ^ 32
    → phys % 4096 ≡ 0
    → is_window s.tempmap_addr n ≡ false
    → (q : Paging) × Maps len s q dir d n phys flags × ((ys : List ℕ) × IsReady len ys q d)
paging_map-Maps len x xs s dir d n phys flags r e h l m other =
    elim (Bool-cases (s.pages (d / 4096) (n / 1024)).present) [
      | inl p ↦
          let (q, maps, kept) = map_in_table len (x ∷ xs) s dir d n phys flags r e h l m p in
          (q, maps, (x ∷ xs, kept.ready))
      | inr p ↦
          let (block, f, a, (ys, sound)) = physical_alloc-Allocates len x xs s.physical r.sound in
          let (t, got, pages, window, phys_same, temp) =
            new_table_lem len (x ∷ xs) s f d (n / 1024) block flags r a in
          let ran = paging_map-table len (x ∷ xs) s dir d n phys flags t r e h l m (rw (p) got) in
          let new = allocated-IsNew len (x ∷ xs) s f d block r a in
          let apart : (entry_frame block == d / 4096) ≡ false = ground (arith, new.no_dir) in
          (
            set_entry t (n % 1024) (fresh_entry flags phys),
            map_new len (x ∷ xs) s t f dir d n phys flags block r a h l p pages window ran,
            (
              ys,
              new-IsReady len (x ∷ xs) s d n r h ys flags block f
                  (set_entry t (n % 1024) (fresh_entry flags phys)) a sound phys_same temp
                  λ j. rw (pages, window) (ground (arith, apart)),
            ),
          )
    ]
