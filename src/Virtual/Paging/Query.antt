-- ===== src/Virtual/Paging/Query.antt =====
-- What the reads of a mapping give, and what `paging_unmap` does.
use horizon_microkernel.Prelude.{
  ℕ, ◌+◌, ◌*◌, ◌/◌, ◌%◌, ◌<◌, ◌≡◌, true, false, Option, none, some, ◌==◌, if◌then◌else◌, arith,
  refl, List, ◌∷◌, Bool-cases, inl, inr, ap,
}
use horizon_microkernel.Prelude.Outcome.{done}
use horizon_microkernel.Util.Addr.{pgsize}
use horizon_microkernel.Virtual.Physical.{Physical, index_of}
use horizon_microkernel.Virtual.Physical.Laws.{Releases, physical_release-Releases}
use horizon_microkernel.Virtual.Paging.{
  is_window, Pages, PageEntry, Paging, set_page, entry_addr, entry_frame, dir_index, tbl_index,
  tblent_get, present_at, mapped_addr, is_some, drop_page, paging_unmap, paging_is_mapped,
  paging_mapping_get,
}
use horizon_microkernel.Virtual.Paging.Tables.{lookup, lookup_absent, IsTree}
use horizon_microkernel.Virtual.Paging.Map.{IsReady, is_aligned-page, at_dir}

-- The state after `tblent_get`: only the window has moved.
abbrev pub at_table : Paging → ℕ → ℕ → Paging
at_table s d n =
    let de = s.pages (d / 4096) (n / 1024) in
    if de.present
    then record s { window = de.frame; window_high = entry_frame (entry_addr de.frame + pgsize) }
    else at_dir s d

abbrev pub found_entry : Paging → ℕ → ℕ → Option ℕ
found_entry s d n = if (s.pages (d / 4096) (n / 1024)).present then some (n % 1024) else none

tblent_get_lem :
    (len : ℕ) (xs : List ℕ) (s : Paging) (d n : ℕ)
    → IsReady len xs s d
    → n < 1023 * 1024
    → tblent_get s d (n * 4096) ≡ done (found_entry s d n, at_table s d n)
unfolding tblent_get
tblent_get_lem len xs s d n r h =
    let frame : entry_frame d ≡ d / 4096 = omega (arith, r.low) in
    let index : dir_index (n * 4096) ≡ n / 1024 = omega (arith, h) in
    let t_index : tbl_index (n * 4096) ≡ n % 1024 = omega arith in
    elim (Bool-cases (s.pages (d / 4096) (n / 1024)).present) [
      | inl p ↦
          let same : entry_frame (entry_addr (s.pages (d / 4096) (n / 1024)).frame)
              ≡ (s.pages (d / 4096) (n / 1024)).frame =
            omega (arith, r.table_frames (n / 1024) (omega (arith, h)) p) in
          rw (r.mappable, index, t_index, frame, p, same, r.mappable) refl
      | inr p ↦ rw (r.mappable, index, t_index, frame, p) refl
    ]

-- The address of a mapped page, or NULL.
abbrev pub address : Option ℕ → ℕ
address none = 0
address (some f) = entry_addr f

-- What the test of `te->present` after `tblent_get` finds.
found_lem :
    (s : Paging) (d n : ℕ)
    → (mapped_addr (present_at (found_entry s d n) (at_table s d n)) (at_table s d n)
        ≡ address (lookup s.pages (d / 4096) n))
      × (is_some (present_at (found_entry s d n) (at_table s d n))
          ≡ is_some (lookup s.pages (d / 4096) n))
found_lem s d n = elim (Bool-cases (s.pages (d / 4096) (n / 1024)).present) [
  | inr p ↦ rw (p) (refl, refl)
  | inl p ↦ elim (Bool-cases (s.pages (s.pages (d / 4096) (n / 1024)).frame (n % 1024)).present) [
    | inl q ↦ rw (p, q) (refl, refl)
    | inr q ↦ rw (p, q) (refl, refl)
  ]
]

at_table_same :
    (s : Paging) (d n : ℕ)
    → ((at_table s d n).pages ≡ s.pages)
      × ((at_table s d n).physical ≡ s.physical)
      × ((at_table s d n).tempmap_addr ≡ s.tempmap_addr)
      × ((at_table s d n).kernel_dir ≡ s.kernel_dir)
at_table_same s d n = elim (Bool-cases (s.pages (d / 4096) (n / 1024)).present) [
  | inl p ↦ rw (p) (refl, refl, refl, refl)
  | inr p ↦ rw (p) (refl, refl, refl, refl)
]

-- The entry of a page that is mapped, made not present.
unmapped-lookup :
    (pages : Pages) (d n m : ℕ) (e : PageEntry)
    → IsTree pages d
    → n < 1023 * 1024
    → m < 1023 * 1024
    → (pages d (n / 1024)).present ≡ true
    → e.present ≡ false
    → lookup (set_page pages (pages d (n / 1024)).frame (n % 1024) e) d m
      ≡ (if m == n then none else lookup pages d m)
unmapped-lookup pages d n m e tree h k p q =
    let apart : ((pages d (n / 1024)).frame == d) ≡ false =
      ground (arith, tree.apart (n / 1024) (omega (arith, h)) p) in
    elim (Bool-cases (m / 1024 == n / 1024)) [
      | inl same ↦
          let s : m / 1024 ≡ n / 1024 = ground (arith, same) in ground (arith, apart, s, p, q)
      | inr other ↦ elim (Bool-cases (pages d (m / 1024)).present) [
        | inr absent ↦ ground (arith, apart, absent, other)
        | inl there ↦
            let distinct : ((pages d (n / 1024)).frame == (pages d (m / 1024)).frame) ≡ false =
              ground (
                arith,
                tree.distinct (n / 1024) (m / 1024) (omega (arith, h)) (omega (arith, k))
                    (λ z. ground (arith, z, other)) p there,
              ) in
            ground (arith, apart, distinct, there, other)
      ]
    ]

module _ (len : ℕ) (xs : List ℕ) (s : Paging) (dir d n : ℕ) (r : IsReady len xs s d)
    (e : (if dir == 0 then s.kernel_dir else dir) ≡ d) (h : n < 1023 * 1024) where
  -- `paging_mapping_get` gives the address that the page is mapped to, or NULL, and `paging_is_mapped`
  -- whether it is mapped; neither changes more than the window.
  pub queries-lookup :
      (q : Paging) × (paging_mapping_get s dir (n * 4096)
        ≡ done (address (lookup s.pages (d / 4096) n), q))
      × (paging_is_mapped s dir (n * 4096) ≡ done (is_some (lookup s.pages (d / 4096) n), q))
      × (q.pages ≡ s.pages)
      × (q.physical ≡ s.physical)
      × (q.tempmap_addr ≡ s.tempmap_addr)
      × (q.kernel_dir ≡ s.kernel_dir)
  unfolding paging_mapping_get paging_is_mapped
  queries-lookup =
      let aligned = is_aligned-page (n * 4096) (omega (arith, h)) (omega arith) in
      let (addr, test) = found_lem s d n in
      (
        at_table s d n,
        rw (aligned, e, r.some_dir, tblent_get_lem len xs s d n r h)
            (ap (λ x. done (x, at_table s d n)) addr),
        rw (aligned, e, r.some_dir, tblent_get_lem len xs s d n r h)
            (ap (λ x. done (x, at_table s d n)) test),
        (at_table_same s d n).0,
        (at_table_same s d n).1,
        (at_table_same s d n).2,
        (at_table_same s d n).3,
      )

-- What `paging_unmap` gives back: the frame that the page was mapped to, if there is one.
abbrev pub GivesBack : Physical → Physical → Option ℕ → Type 0
GivesBack p q none = q ≡ p
GivesBack p q (some f) = Releases p q (entry_addr f)

drop_page_lem :
    (len x : ℕ) (xs : List ℕ) (s : Paging) (d n : ℕ)
    → IsReady len (x ∷ xs) s d
    → n < 1023 * 1024
    → ((f : ℕ) → lookup s.pages (d / 4096) n ≡ some f → index_of (entry_addr f) < len * 32)
    → (q : Paging) × (drop_page (present_at (found_entry s d n) (at_table s d n)) (at_table s d n)
        ≡ done q)
      × ((m : ℕ)
          → m < 1023 * 1024
          → lookup q.pages (d / 4096) m ≡ (if m == n then none else lookup s.pages (d / 4096) m))
      × GivesBack s.physical q.physical (lookup s.pages (d / 4096) n)
unfolding drop_page
drop_page_lem len x xs s d n r h counted =
    let table = (s.pages (d / 4096) (n / 1024)).frame in
    elim (Bool-cases (s.pages (d / 4096) (n / 1024)).present) [
      | inr p ↦ (
        at_dir s d,
        rw (p) refl,
        (λ m k. elim (Bool-cases (m == n)) [
          | inl hit ↦
              let e : m ≡ n = ground (arith, hit) in
              rw (hit, e) (lookup_absent s.pages (d / 4096) n p)
          | inr miss ↦ rw (miss) refl
        ]),
        rw (p) refl,
      )
      | inl p ↦ elim (Bool-cases (s.pages table (n % 1024)).present) [
        | inr z ↦ (
          at_table s d n,
          rw (p, z) refl,
          (λ m k. rw ((at_table_same s d n).0) (elim (Bool-cases (m == n)) [
            | inl hit ↦ let e : m ≡ n = ground (arith, hit) in rw (hit, e, p, z) refl
            | inr miss ↦ rw (miss) refl
          ])),
          rw (p, z) refl,
        )
        | inl q ↦
            let te = s.pages table (n % 1024) in
            let (freed, rel, rest) =
              physical_release-Releases len x xs s.physical (entry_addr te.frame) r.sound
                (counted te.frame (rw (p, q) refl)) in
            let now : Paging = record s {
              pages = set_page s.pages table (n % 1024) (record te { present = false });
              physical = freed;
              window = table;
              window_high = entry_frame (entry_addr table + pgsize);
            } in
            (
              now,
              rw (p, q, rel.result) refl,
              (λ m k.
                  unmapped-lookup s.pages (d / 4096) n m (record te { present = false }) r.tree h k
                    p refl),
              rw (p, q) rel,
            )
      ]
    ]

-- `paging_unmap` of a page that is not one of the two of the window of `paging_map_temp` ends, with the page
-- not mapped and every other page of the directory but these two mapped as before. The frame that the page
-- was mapped to is released once. It must lie in the counted memory.
pub paging_unmap-lookup :
    (len x : ℕ) (xs : List ℕ) (s : Paging) (dir d n : ℕ)
    → IsReady len (x ∷ xs) s d
    → (if dir == 0 then s.kernel_dir else dir) ≡ d
    → n < 1023 * 1024
    → is_window s.tempmap_addr n ≡ false
    → ((f : ℕ) → lookup s.pages (d / 4096) n ≡ some f → index_of (entry_addr f) < len * 32)
    → (q : Paging) × (paging_unmap s dir (n * 4096) ≡ done q)
      × ((m : ℕ)
          → m < 1023 * 1024
          → is_window s.tempmap_addr m ≡ false
          → lookup q.pages (d / 4096) m ≡ (if m == n then none else lookup s.pages (d / 4096) m))
      × GivesBack s.physical q.physical (lookup s.pages (d / 4096) n)
unfolding paging_unmap
paging_unmap-lookup len x xs s dir d n r e h apart counted =
    let (q, ran, now, given) = drop_page_lem len x xs s d n r h counted in
    (
      q,
      rw
          (
            is_aligned-page (n * 4096) (omega (arith, h)) (omega arith),
            e,
            r.some_dir,
            tblent_get_lem len (x ∷ xs) s d n r h,
          )
          ran,
      (λ m k _. now m k),
      given,
    )
