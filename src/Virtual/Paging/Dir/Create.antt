-- ===== src/Virtual/Paging/Dir/Create.antt =====
-- A new directory shares the tables of the kernel space and maps nothing else.
use horizon_microkernel.Prelude.{
  ℕ, zero, suc, ◌+◌, ◌*◌, ◌/◌, ◌%◌, ◌^◌, ◌≤◌, ◌<◌, ◌≡◌, ◌≢◌, true, false, ◌&&◌, none, ◌==◌, ltb,
  leb, if◌then◌else◌, arith, refl, sym, ap, subst, ◌∙◌, List, ◌∷◌, Bool-cases, inl, inr,
}
use horizon_microkernel.Prelude.Outcome.{done}
use horizon_microkernel.Virtual.Physical.{Physical, index_of}
use horizon_microkernel.Virtual.Physical.Laws.{IsSound, Allocates, physical_alloc-Allocates}
use horizon_microkernel.Virtual.Paging.{
  Pages, PageEntry, Paging, is_window, no_entry, set_page, clear_page, entry_addr, entry_frame,
}
use horizon_microkernel.Virtual.Paging.Tables.{lookup, IsTree, IsNew, lookup_absent}
use horizon_microkernel.Virtual.Paging.Map.{IsReady, allocated-IsNew}
use horizon_microkernel.Virtual.Paging.Dir.{copy_dirents, paging_dir_create}

-- In `q` the entries of the directory `d` from `i` up to `i + n` are those of `k`; the rest is as in `s`.
abbrev IsCopied : Pages → Pages → ℕ → ℕ → ℕ → ℕ → Type 0
IsCopied s q k d i n =
    (f j : ℕ) → q f j ≡ (if f == d && (leb i j && ltb j (i + n)) then s k j else s f j)

copy_dirents-IsCopied :
    (n i d : ℕ) (s : Paging)
    → (s.tempmap_addr == 0) ≡ false
    → s.kernel_dir < 2 ^ 32
    → d < 2 ^ 32
    → s.kernel_dir / 4096 ≢ d / 4096
    → (q : Paging) × (copy_dirents n s d i ≡ done q)
      × IsCopied s.pages q.pages (s.kernel_dir / 4096) (d / 4096) i n
      × (q.physical ≡ s.physical)
      × (q.tempmap_addr ≡ s.tempmap_addr)
      × (q.kernel_dir ≡ s.kernel_dir)
unfolding copy_dirents
copy_dirents-IsCopied zero i d s t a b ne = (s, refl, (λ f j. ground arith), refl, refl, refl)
copy_dirents-IsCopied (suc n) i d s t a b ne =
    let kf : entry_frame s.kernel_dir ≡ s.kernel_dir / 4096 = omega (arith, a) in
    let df : entry_frame d ≡ d / 4096 = omega (arith, b) in
    let mid : Paging = record s {
      pages = set_page s.pages (d / 4096) i (s.pages (s.kernel_dir / 4096) i);
      window = d / 4096;
      window_high = entry_frame (d + 4096);
    } in
    let (q, ran, copied, physical, temp, kernel) = copy_dirents-IsCopied n (i + 1) d mid t a b ne in
    (q, rw (t, kf, t, df) ran, (λ f j. copied f j ∙ ground (arith, ne)), physical, temp, kernel)

-- What `paging_dir_create` makes when there is a kernel directory `kd`.
pub record Creates (len : ℕ) (s q : Paging) (dir : ℕ) : Type 0 where
  pub result : paging_dir_create s ≡ done (dir, q)
  pub was_free : s.physical.counts (index_of dir) ≡ 0
  pub user : (n : ℕ) → n < 768 * 1024 → lookup q.pages (dir / 4096) n ≡ none
  pub shared :
      (n : ℕ)
      → 768 * 1024 ≤ n
      → n < 1023 * 1024
      → is_window s.tempmap_addr n ≡ false
      → lookup q.pages (dir / 4096) n ≡ lookup s.pages (s.kernel_dir / 4096) n
  pub kept :
      (n : ℕ)
      → n < 1023 * 1024
      → is_window s.tempmap_addr n ≡ false
      → lookup q.pages (s.kernel_dir / 4096) n ≡ lookup s.pages (s.kernel_dir / 4096) n

-- The entries of the new directory, and those of every other page.
abbrev created_page : Pages → ℕ → ℕ → PageEntry → ℕ → ℕ → PageEntry
created_page pages k d self f j =
    if f == d
    then (if leb 768 j && ltb j 1023 then pages k j else if j == 1023 then self else no_entry)
    else pages f j

made_pages :
    (pages : Pages) (k d f j : ℕ) (self : PageEntry) (q : Pages)
    → (k == d) ≡ false
    → ((f j : ℕ)
        → q f j ≡ (
            if f == d && (leb 768 j && ltb j (768 + 255))
            then set_page (clear_page pages d) d 1023 self k j
            else set_page (clear_page pages d) d 1023 self f j))
    → q f j ≡ created_page pages k d self f j
made_pages pages k d f j self q ne copied = copied f j ∙ ground (arith, ne)

module _ (pages q : Pages) (k d : ℕ) (self : PageEntry) (tree : IsTree pages k)
    (new : IsNew pages k d) (made : (f j : ℕ) → q f j ≡ created_page pages k d self f j) where
  differs : (k == d) ≡ false
  differs = ground (arith, new.no_dir)

  user-lookup : (n : ℕ) → n < 768 * 1024 → lookup q d n ≡ none
  user-lookup n h =
      let blank : q d (n / 1024) ≡ no_entry = made d (n / 1024) ∙ ground (arith, h) in
      lookup_absent q d n (ap (λ e. e.present) blank)

  -- An entry of the kernel space in the new directory.
  shared_entry : (i : ℕ) → 768 ≤ i → i < 1023 → q d i ≡ pages k i
  shared_entry i low high = made d i ∙ ground (arith, low, high)

  -- A page other than the new directory is as before.
  other_page : (f j : ℕ) → (f == d) ≡ false → q f j ≡ pages f j
  other_page f j ne = made f j ∙ rw (ne) refl

  -- A directory `a` with the entries of the old one maps what that maps.
  same_entries-lookup :
      (a n : ℕ)
      → n < 1023 * 1024
      → q a (n / 1024) ≡ pages k (n / 1024)
      → lookup q a n ≡ lookup pages k n
  same_entries-lookup a n h e = elim (Bool-cases (pages k (n / 1024)).present) [
    | inr absent ↦
        lookup_absent q a n (ap (λ x. x.present) e ∙ absent) ∙ sym (lookup_absent pages k n absent)
    | inl there ↦
        let table = (pages k (n / 1024)).frame in
        let nt : (table == d) ≡ false =
          ground (arith, new.no_table (n / 1024) (omega (arith, h)) there) in
        rw (e, other_page table (n % 1024) nt) refl
  ]

  -- An entry of the new directory that is present is one of the kernel space.
  present_entry : (i : ℕ) → i < 1023 → (q d i).present ≡ true → q d i ≡ pages k i
  present_entry i h p = elim (Bool-cases (ltb i 768)) [
    | inl user ↦
        let blank : q d i ≡ no_entry = made d i ∙ ground (arith, user) in
        let no = ap (λ e. e.present) (sym blank) ∙ p in absurd (ground (arith, no))
    | inr kernel ↦ shared_entry i (ground (arith, kernel)) h
  ]

  present_before : (i : ℕ) → i < 1023 → (q d i).present ≡ true → (pages k i).present ≡ true
  present_before i h p = ap (λ e. e.present) (sym (present_entry i h p)) ∙ p

  created-IsTree : IsTree q d
  created-IsTree = record {
    apart = λ i h p z.
        new.no_table i h (present_before i h p) (ap (λ x. x.frame) (sym (present_entry i h p)) ∙ z);
    distinct = λ i j h l ne p r z.
        tree.distinct i j h l ne (present_before i h p) (present_before j l r) (
          ap (λ x. x.frame) (sym (present_entry i h p))
          ∙ z
          ∙ ap (λ x. x.frame) (present_entry j l r));
  }

abbrev own_entry : ℕ → PageEntry
own_entry dir = record {
  present = true;
  writable = true;
  user = false;
  global = false;
  frame = dir / 4096;
}

-- The state before the entries are copied.
abbrev made_dir : Paging → Physical → ℕ → Paging
made_dir s f dir = record s {
  pages = set_page (clear_page s.pages (dir / 4096)) (dir / 4096) 1023 (own_entry dir);
  physical = f;
  window = dir / 4096;
  window_high = entry_frame (dir + 4096);
}

paging_dir_create-copy_dirents :
    (s q : Paging) (f : Physical) (dir : ℕ)
    → (s.tempmap_addr == 0) ≡ false
    → (s.kernel_dir == 0) ≡ false
    → Allocates s.physical f dir
    → copy_dirents 255 (made_dir s f dir) dir 768 ≡ done q
    → paging_dir_create s ≡ done (dir, q)
unfolding paging_dir_create
paging_dir_create-copy_dirents s q f dir t k a ran =
    let df : entry_frame dir ≡ dir / 4096 = omega (arith, a.low) in
    rw (a.result, t, k, df, ran) refl

counts_before :
    (p f : Physical) (dir j : ℕ)
    → f.counts j ≡ (if index_of dir == j then 1 else p.counts j)
    → f.counts j ≡ 0
    → p.counts j ≡ 0
counts_before p f dir j now z = ground (arith, now, z)

-- The new directory has the form that `paging_map` asks for.
created-IsReady :
    (len : ℕ) (xs ys : List ℕ) (s q : Paging) (f : Physical) (dir : ℕ) (self : PageEntry)
    → IsReady len xs s s.kernel_dir
    → Allocates s.physical f dir
    → IsSound len ys f
    → IsNew s.pages (s.kernel_dir / 4096) (dir / 4096)
    → ((g j : ℕ) → q.pages g j ≡ created_page s.pages (s.kernel_dir / 4096) (dir / 4096) self g j)
    → q.physical ≡ f
    → q.tempmap_addr ≡ s.tempmap_addr
    → IsReady len ys q dir
created-IsReady len xs ys s q f dir self r a sound new made physical temp =
    let k = s.kernel_dir / 4096 in
    let here = present_entry s.pages q.pages k (dir / 4096) self r.tree new made in
    let before = present_before s.pages q.pages k (dir / 4096) self r.tree new made in
    record {
      mappable = rw (temp) r.mappable;
      some_dir = ground (arith, a.high);
      aligned = a.aligned;
      low = a.low;
      sound = rw (physical) sound;
      tree = created-IsTree s.pages q.pages k (dir / 4096) self r.tree new made;
      dir_counted = rw (physical) λ z. ground (arith, a.now (index_of dir), z);
      table_counted = λ i h p.
          rw (physical, here i h p)
            λ z. r.table_counted i h (before i h p) (
              counts_before s.physical f dir (index_of (entry_addr (s.pages k i).frame))
                (a.now (index_of (entry_addr (s.pages k i).frame))) z);
      table_frames = λ i h p. rw (here i h p) (r.table_frames i h (before i h p));
    }

-- With a kernel directory and a free page, `paging_dir_create` ends with a new directory on a page that
-- nothing counted. It maps nothing below the kernel space and shares the mappings of the kernel space, and
-- the kernel's own directory maps what it did before, both but for the two pages of the window of
-- `paging_map_temp`; the new one has the form that `paging_map` asks for.
pub paging_dir_create-Creates :
    (len x : ℕ) (xs : List ℕ) (s : Paging)
    → IsReady len (x ∷ xs) s s.kernel_dir
    → (dir : ℕ) × (q : Paging) × Creates len s q dir × ((ys : List ℕ) × IsReady len ys q dir)
paging_dir_create-Creates len x xs s r =
    let (dir, f, a, (ys, sound)) = physical_alloc-Allocates len x xs s.physical r.sound in
    let frame : entry_frame dir ≡ dir / 4096 = omega (arith, a.low) in
    let new =
      subst (IsNew s.pages (s.kernel_dir / 4096)) frame
        (allocated-IsNew len (x ∷ xs) s f s.kernel_dir dir r a) in
    let k = s.kernel_dir / 4096 in
    let ne : (k == dir / 4096) ≡ false = ground (arith, new.no_dir) in
    let (q, ran, copied, physical, temp, kernel) =
      copy_dirents-IsCopied 255 768 dir (made_dir s f dir) r.mappable r.low a.low
        λ z. new.no_dir (sym z) in
    let made : (g j : ℕ) → q.pages g j ≡ created_page s.pages k (dir / 4096) (own_entry dir) g j =
      λ g j. made_pages s.pages k (dir / 4096) g j (own_entry dir) q.pages ne copied in
    (
      dir,
      q,
      record {
        result = paging_dir_create-copy_dirents s q f dir r.mappable r.some_dir a ran;
        was_free = a.was_free;
        user = user-lookup s.pages q.pages k (dir / 4096) (own_entry dir) r.tree new made;
        shared = λ n low high _.
            same_entries-lookup s.pages q.pages k (dir / 4096) (own_entry dir) r.tree new made
              (dir / 4096) n high
              (shared_entry s.pages q.pages k (dir / 4096) (own_entry dir) r.tree new made
                (n / 1024) (omega (arith, low)) (omega (arith, high)));
        kept = λ n high _.
            same_entries-lookup s.pages q.pages k (dir / 4096) (own_entry dir) r.tree new made k n
              high
              (other_page s.pages q.pages k (dir / 4096) (own_entry dir) r.tree new made k
                (n / 1024) ne);
      },
      (
        ys,
        created-IsReady len (x ∷ xs) ys s q f dir (own_entry dir) r a sound new made physical temp,
      ),
    )
