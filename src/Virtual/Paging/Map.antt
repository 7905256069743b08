-- ===== src/Virtual/Paging/Map.antt =====
-- `paging_map` changes the mapping of one page.
pub mod Ready
use horizon_microkernel.Prelude.{
  ℕ, ◌+◌, ◌-◌, ◌*◌, ◌/◌, ◌%◌, ◌^◌, ◌≤◌, ◌<◌, ◌≡◌, ◌≢◌, ◌⊎◌, Bool, true, false, not, ◌&&◌, ◌||◌,
  Option, none, some, ◌==◌, ltb, if◌then◌else◌, arith, refl, List, [], ◌∷◌, Bool-cases, inl, inr,
  sym, ◌∙◌, ap, subst,
}
use horizon_microkernel.Prelude.Outcome.{Outcome, done, halted, ◌>>=◌, ◌>>◌, dassert}
use horizon_microkernel.Util.Addr.{pgsize, addr_align}
use horizon_microkernel.Util.Addr.Laws.{addr_align-page}
use horizon_microkernel.Virtual.Physical.{Physical, index_of}
use horizon_microkernel.Virtual.Physical.Laws.{IsSound, Allocates, physical_alloc-Allocates}
use horizon_microkernel.Virtual.Paging.{
  Pages, PageEntry, Paging, set_page, clear_page, is_window, entry_addr, entry_frame, flag_write,
  flag_user, flag_force, dir_index, tbl_index, is_aligned, used_dir, old_table, new_table, put_page,
  paging_map, set_entry, entry_at,
}
use horizon_microkernel.Virtual.Paging.Tables.{
  lookup, IsTree, IsNew, with_page, with_table, with_page-lookup, with_dirent-lookup,
  with_table-lookup, with_dirent-IsTree, lookup_absent,
}

pub is_aligned-page : (x : ℕ) → x < 2 ^ 32 → x % 4096 ≡ 0 → is_aligned x ≡ done tt
is_aligned-page x l h =
    let e : x / 4096 * 4096 ≡ x = omega (arith, h) in
    let t : (x == x) ≡ true = ground arith in rw (addr_align-page x l, e, t) refl

-- A directory whose frames are counted, in a kernel that can map: `d` is the address of the directory.
pub record IsReady (len : ℕ) (xs : List ℕ) (s : Paging) (d : ℕ) : Type 0 where
  pub mappable : (s.tempmap_addr == 0) ≡ false
  pub some_dir : (d == 0) ≡ false
  pub aligned : d % 4096 ≡ 0
  pub low : d < 2 ^ 32
  pub sound : IsSound len xs s.physical
  pub tree : IsTree s.pages (d / 4096)
  pub dir_counted : s.physical.counts (index_of d) ≢ 0
  pub table_counted :
      (i : ℕ)
      → i < 1023
      → (s.pages (d / 4096) i).present ≡ true
      → s.physical.counts (index_of (entry_addr (s.pages (d / 4096) i).frame)) ≢ 0
  pub table_frames :
      (i : ℕ)
      → i < 1023
      → (s.pages (d / 4096) i).present ≡ true
      → (s.pages (d / 4096) i).frame < 2 ^ 20

abbrev pub is_none : Option ℕ → Bool
is_none none = true
is_none (some f) = false

-- The entries that `paging_map` writes.
abbrev pub old_dirent : PageEntry → ℕ → PageEntry
old_dirent de flags = record de {
  writable = de.writable || flag_write flags;
  user = de.user || flag_user flags;
}

abbrev pub fresh_entry : ℕ → ℕ → PageEntry
fresh_entry flags addr = record {
  present = true;
  writable = flag_write flags;
  user = flag_user flags;
  global = false;
  frame = entry_frame addr;
}

-- How `paging_map` begins, with the window at the directory.
abbrev pub at_dir : Paging → ℕ → Paging
at_dir s d = record s { window = d / 4096; window_high = entry_frame (d + pgsize) }

paging_map-table :
    (len : ℕ) (xs : List ℕ) (s : Paging) (dir d n phys flags : ℕ) (t : Paging)
    → IsReady len xs s d
    → (if dir == 0 then s.kernel_dir else dir) ≡ d
    → n < 1023 * 1024
    → phys < 2 ^ 32
    → phys % 4096 ≡ 0
    → (if (s.pages (d / 4096) (n / 1024)).present
        then old_table (at_dir s d) (n / 1024) flags
        else new_table (at_dir s d) (n / 1024) flags)
      ≡ done t
    → paging_map s dir (n * 4096) phys flags ≡ done (put_page t (n * 4096) phys flags)
unfolding paging_map
paging_map-table len xs s dir d n phys flags t r e h l a b =
    let frame : entry_frame d ≡ d / 4096 = omega (arith, r.low) in
    let index : dir_index (n * 4096) ≡ n / 1024 = omega (arith, h) in
    rw
      (
        is_aligned-page (n * 4096) (omega (arith, h)) (omega arith),
        is_aligned-page phys l a,
        e,
        r.some_dir,
        r.mappable,
        index,
        frame,
        b,
      )
      refl

-- What `paging_map` of the page number `n` does.
pub record Maps (len : ℕ) (s q : Paging) (dir d n phys flags : ℕ) : Type 0 where
  pub mapped : Bool
  pub result : paging_map s dir (n * 4096) phys flags ≡ done (mapped, q)
  pub answer : mapped ≡ (flag_force flags || is_none (lookup s.pages (d / 4096) n))
  pub now :
      (m : ℕ)
      → m < 1023 * 1024
      → is_window s.tempmap_addr m ≡ false
      → lookup q.pages (d / 4096) m
        ≡ (if m == n && mapped then some (phys / 4096) else lookup s.pages (d / 4096) m)

-- The table is there.
old_table_lem :
    (len : ℕ) (xs : List ℕ) (s : Paging) (d i flags : ℕ)
    → IsReady len xs s d
    → i < 1023
    → (s.pages (d / 4096) i).present ≡ true
    → (t : Paging) × (old_table (at_dir s d) i flags ≡ done t)
      × (t.pages ≡ set_page s.pages (d / 4096) i (old_dirent (s.pages (d / 4096) i) flags))
      × (t.window ≡ (s.pages (d / 4096) i).frame)
      × (t.physical ≡ s.physical)
      × (t.tempmap_addr ≡ s.tempmap_addr)
      × (t.kernel_dir ≡ s.kernel_dir)
unfolding old_table
old_table_lem len xs s d i flags r h p =
    let f = (s.pages (d / 4096) i).frame in
    (
      record s {
        pages = set_page s.pages (d / 4096) i (old_dirent (s.pages (d / 4096) i) flags);
        window = entry_frame (entry_addr f);
        window_high = entry_frame (entry_addr f + pgsize);
      },
      rw (r.mappable) refl,
      refl,
      omega (arith, r.table_frames i h p),
      refl,
      refl,
      refl,
    )

-- The end of `paging_map` writes the entry, or leaves it.
put_page_writes :
    (t : Paging) (n phys flags : ℕ)
    → n < 1023 * 1024
    → (not (t.pages t.window (n % 1024)).present || flag_force flags) ≡ true
    → put_page t (n * 4096) phys flags ≡ (true, set_entry t (n % 1024) (fresh_entry flags phys))
unfolding put_page
put_page_writes t n phys flags h w =
    let index : tbl_index (n * 4096) ≡ n % 1024 = omega arith in rw (index, w) refl

put_page_leaves :
    (t : Paging) (n phys flags : ℕ)
    → n < 1023 * 1024
    → (not (t.pages t.window (n % 1024)).present || flag_force flags) ≡ false
    → put_page t (n * 4096) phys flags ≡ (false, t)
unfolding put_page
put_page_leaves t n phys flags h w =
    let index : tbl_index (n * 4096) ≡ n % 1024 = omega arith in rw (index, w) refl

-- The mapping of a page whose table is there, or is not.
lookup_here :
    (pages : Pages) (d n : ℕ)
    → (pages d (n / 1024)).present ≡ true
    → is_none (lookup pages d n) ≡ not (pages (pages d (n / 1024)).frame (n % 1024)).present
lookup_here pages d n p = elim (Bool-cases (pages (pages d (n / 1024)).frame (n % 1024)).present) [
  | inl q ↦ rw (p, q) refl
  | inr q ↦ rw (p, q) refl
]

mapped_if :
    (m n phys : ℕ) (x : Option ℕ)
    → phys < 2 ^ 32
    → (if m == n / 1024 * 1024 + n % 1024 then some (entry_frame phys) else x)
      ≡ (if m == n && true then some (phys / 4096) else x)
mapped_if m n phys x l =
    let number : n / 1024 * 1024 + n % 1024 ≡ n = omega arith in
    let frame : entry_frame phys ≡ phys / 4096 = omega (arith, l) in
    rw (number, frame) (ground arith)

-- The table is there, and the entry is written.
map_written :
    (len : ℕ) (xs : List ℕ) (s t : Paging) (dir d n phys flags : ℕ)
    → IsReady len xs s d
    → n < 1023 * 1024
    → phys < 2 ^ 32
    → (s.pages (d / 4096) (n / 1024)).present ≡ true
    → (not (s.pages (s.pages (d / 4096) (n / 1024)).frame (n % 1024)).present || flag_force flags)
      ≡ true
    → t.pages
      ≡ set_page s.pages (d / 4096) (n / 1024) (old_dirent (s.pages (d / 4096) (n / 1024)) flags)
    → t.window ≡ (s.pages (d / 4096) (n / 1024)).frame
    → paging_map s dir (n * 4096) phys flags ≡ done (put_page t (n * 4096) phys flags)
    → Maps len s (set_entry t (n % 1024) (fresh_entry flags phys)) dir d n phys flags
map_written len xs s t dir d n phys flags r h l p w pages window ran =
    let d' = d / 4096 in
    let de = s.pages d' (n / 1024) in
    let apart : (de.frame == d') ≡ false =
      ground (arith, r.tree.apart (n / 1024) (omega (arith, h)) p) in
    let same : (t.pages t.window (n % 1024)) ≡ s.pages de.frame (n % 1024) =
      rw (pages, window) (ground (arith, apart)) in
    record {
      mapped = true;
      result = ran ∙ ap done (put_page_writes t n phys flags h (rw (same) w));
      answer = ground (arith, w, lookup_here s.pages d' n p);
      now = λ m k _.
          let law =
            with_page-lookup s.pages d' (n / 1024) (n % 1024) m (old_dirent de flags)
              (fresh_entry flags phys) r.tree (omega (arith, h)) (omega arith) k p p refl refl in
          rw (pages, window) (law ∙ mapped_if m n phys (lookup s.pages d' m) l);
    }

-- The table is there, and the entry is left.
map_left :
    (len : ℕ) (xs : List ℕ) (s t : Paging) (dir d n phys flags : ℕ)
    → IsReady len xs s d
    → n < 1023 * 1024
    → (s.pages (d / 4096) (n / 1024)).present ≡ true
    → (not (s.pages (s.pages (d / 4096) (n / 1024)).frame (n % 1024)).present || flag_force flags)
      ≡ false
    → t.pages
      ≡ set_page s.pages (d / 4096) (n / 1024) (old_dirent (s.pages (d / 4096) (n / 1024)) flags)
    → t.window ≡ (s.pages (d / 4096) (n / 1024)).frame
    → paging_map s dir (n * 4096) phys flags ≡ done (put_page t (n * 4096) phys flags)
    → Maps len s t dir d n phys flags
map_left len xs s t dir d n phys flags r h p w pages window ran =
    let d' = d / 4096 in
    let de = s.pages d' (n / 1024) in
    let apart : (de.frame == d') ≡ false =
      ground (arith, r.tree.apart (n / 1024) (omega (arith, h)) p) in
    let same : (t.pages t.window (n % 1024)) ≡ s.pages de.frame (n % 1024) =
      rw (pages, window) (ground (arith, apart)) in
    record {
      mapped = false;
      result = ran ∙ ap done (put_page_leaves t n phys flags h (rw (same) w));
      answer = ground (arith, w, lookup_here s.pages d' n p);
      now = λ m k _.
          let law =
            with_dirent-lookup s.pages d' (n / 1024) m (old_dirent de flags) r.tree
              (omega (arith, h)) k p p refl in
          rw (pages) (law ∙ ground arith);
    }

-- A page that has just been allocated is neither the directory nor one of its tables.
pub allocated-IsNew :
    (len : ℕ) (xs : List ℕ) (s : Paging) (q : Physical) (d block : ℕ)
    → IsReady len xs s d
    → Allocates s.physical q block
    → IsNew s.pages (d / 4096) (entry_frame block)
allocated-IsNew len xs s q d block r a = record {
  no_dir = λ z.
      let e : block ≡ d = omega (arith, z, a.aligned, a.low, r.aligned, r.low) in
      r.dir_counted (ap (λ x. s.physical.counts (index_of x)) (sym e) ∙ a.was_free);
  no_table = λ i h p z.
      let e : block ≡ entry_addr (s.pages (d / 4096) i).frame =
        omega (arith, z, a.aligned, a.low) in
      r.table_counted i h p (ap (λ x. s.physical.counts (index_of x)) (sym e) ∙ a.was_free);
}

new_table_lem :
    (len : ℕ) (xs : List ℕ) (s : Paging) (q : Physical) (d i block flags : ℕ)
    → IsReady len xs s d
    → Allocates s.physical q block
    → (t : Paging) × (new_table (at_dir s d) i flags ≡ done t)
      × (t.pages
          ≡ clear_page
              (set_page s.pages (d / 4096) i (fresh_entry flags block))
              (entry_frame block))
      × (t.window ≡ entry_frame block)
      × (t.physical ≡ q)
      × (t.tempmap_addr ≡ s.tempmap_addr)
unfolding new_table
new_table_lem len xs s q d i block flags r a = (
  record s {
    pages =
        clear_page (set_page s.pages (d / 4096) i (fresh_entry flags block)) (entry_frame block);
    physical = q;
    window = entry_frame block;
    window_high = entry_frame (block + pgsize);
  },
  rw (a.result, r.mappable) refl,
  refl,
  refl,
  refl,
  refl,
)

map_new :
    (len : ℕ) (xs : List ℕ) (s t : Paging) (f : Physical) (dir d n phys flags block : ℕ)
    → IsReady len xs s d
    → Allocates s.physical f block
    → n < 1023 * 1024
    → phys < 2 ^ 32
    → (s.pages (d / 4096) (n / 1024)).present ≡ false
    → t.pages
      ≡ clear_page
          (set_page s.pages (d / 4096) (n / 1024) (fresh_entry flags block))
          (entry_frame block)
    → t.window ≡ entry_frame block
    → paging_map s dir (n * 4096) phys flags ≡ done (put_page t (n * 4096) phys flags)
    → Maps len s (set_entry t (n % 1024) (fresh_entry flags phys)) dir d n phys flags
map_new len xs s t f dir d n phys flags block r a h l p pages window ran =
    let d' = d / 4096 in
    let blank : (not (t.pages t.window (n % 1024)).present || flag_force flags) ≡ true =
      rw (pages, window) (ground arith) in
    record {
      mapped = true;
      result = ran ∙ ap done (put_page_writes t n phys flags h blank);
      answer = rw (lookup_absent s.pages d' n p) (ground arith);
      now = λ m k _.
          let law =
            with_table-lookup s.pages d' (n / 1024) (n % 1024) m (fresh_entry flags block)
              (fresh_entry flags phys) r.tree (allocated-IsNew len xs s f d block r a)
              (omega (arith, h)) (omega arith) k p refl refl in
          rw (pages, window) (law ∙ mapped_if m n phys (lookup s.pages d' m) l);
    }
