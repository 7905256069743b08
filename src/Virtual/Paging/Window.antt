-- ===== src/Virtual/Paging/Window.antt =====
-- The page tables as they stand in memory, with the two entries of the window of `paging_map_temp` in them:
-- why `Paging` can keep the frames of these two apart.
use horizon_microkernel.Prelude.{
  ℕ, ◌+◌, ◌*◌, ◌/◌, ◌%◌, ◌<◌, ◌≡◌, true, false, ◌&&◌, ◌==◌, if◌then◌else◌, arith, refl, sym, ◌∙◌,
  Bool-cases, inl, inr,
}
use horizon_microkernel.Prelude.Outcome.{done}
use horizon_microkernel.Virtual.Paging.{Pages, Paging, entry_frame, is_window, paging_map_temp}
use horizon_microkernel.Virtual.Paging.Tables.{lookup, lookup_absent, IsTree}

-- A write to the field `frame` of the entry `i` of the page `f`.
abbrev pub set_frame_of : Pages → ℕ → ℕ → ℕ → Pages
set_frame_of pages f i x j k = record (pages j k) {
  frame = if j == f && k == i then x else (pages j k).frame;
}

-- The entries in memory, when the entry of the low page of the window is in the table `low`, and that of the
-- high one in the table `high`.
abbrev pub memory : Paging → ℕ → ℕ → Pages
memory s low high =
    let w = s.tempmap_addr / 4096 in
    set_frame_of (set_frame_of s.pages low (w % 1024) s.window) high ((w + 1) % 1024) s.window_high

-- `paging_map_temp` writes the frames of the two entries, `te_low` and then `te_high`, and nothing else.
pub paging_map_temp-memory :
    (s : Paging) (phys low high : ℕ)
    → (s.tempmap_addr == 0) ≡ false
    → (q : Paging) × (paging_map_temp s phys ≡ done q)
      × ((j k : ℕ)
          → memory q low high j k
            ≡ set_frame_of
                (set_frame_of
                  (memory s low high)
                  low
                  (s.tempmap_addr / 4096 % 1024)
                  (entry_frame phys))
                high
                ((s.tempmap_addr / 4096 + 1) % 1024)
                (entry_frame (phys + 4096))
                j
                k)
paging_map_temp-memory s phys low high some_addr = (
  record s { window = entry_frame phys; window_high = entry_frame (phys + 4096) },
  rw (some_addr) refl,
  λ j k. ground arith,
)

-- The entry of page `n`, whose table is that of entry `n / 1024`, is not the one of another page `w`.
other_entry :
    (pages : Pages) (d w n : ℕ)
    → IsTree pages d
    → w < 1023 * 1024
    → n < 1023 * 1024
    → (n == w) ≡ false
    → (pages d (w / 1024)).present ≡ true
    → (pages d (n / 1024)).present ≡ true
    → ((pages d (n / 1024)).frame == (pages d (w / 1024)).frame && n % 1024 == w % 1024) ≡ false
other_entry pages d w n tree k h ne p q = elim (Bool-cases (n / 1024 == w / 1024)) [
  | inl same ↦ ground (arith, same, ne)
  | inr apart ↦
      let differ =
        tree.distinct (n / 1024) (w / 1024) (omega (arith, h)) (omega (arith, k))
          (λ z. ground (arith, z, apart)) q p in
      ground (arith, differ)
]

same_page :
    (pages new : Pages) (d n : ℕ)
    → new d (n / 1024) ≡ pages d (n / 1024)
    → new (pages d (n / 1024)).frame (n % 1024) ≡ pages (pages d (n / 1024)).frame (n % 1024)
    → lookup new d n ≡ lookup pages d n
same_page pages new d n e f = rw (e, f) refl

-- A directory that has these tables maps every page but the two of the window as `pages` says.
pub memory-lookup :
    (s : Paging) (d n : ℕ)
    → IsTree s.pages d
    → s.tempmap_addr / 4096 + 1 < 1023 * 1024
    → (s.pages d (s.tempmap_addr / 4096 / 1024)).present ≡ true
    → (s.pages d ((s.tempmap_addr / 4096 + 1) / 1024)).present ≡ true
    → n < 1023 * 1024
    → is_window s.tempmap_addr n ≡ false
    → lookup
        (memory s
          (s.pages d (s.tempmap_addr / 4096 / 1024)).frame
          (s.pages d ((s.tempmap_addr / 4096 + 1) / 1024)).frame)
        d
        n
      ≡ lookup s.pages d n
memory-lookup s d n tree inside lp hp h other =
    let w = s.tempmap_addr / 4096 in
    let low = (s.pages d (w / 1024)).frame in
    let high = (s.pages d ((w + 1) / 1024)).frame in
    let not_low : (d == low) ≡ false =
      ground (arith, tree.apart (w / 1024) (omega (arith, inside)) lp) in
    let not_high : (d == high) ≡ false =
      ground (arith, tree.apart ((w + 1) / 1024) (omega (arith, inside)) hp) in
    let dir : memory s low high d (n / 1024) ≡ s.pages d (n / 1024) = rw (not_low, not_high) refl in
    elim (Bool-cases (s.pages d (n / 1024)).present) [
      | inr absent ↦
          lookup_absent (memory s low high) d n absent ∙ sym (lookup_absent s.pages d n absent)
      | inl there ↦
          let a =
            other_entry s.pages d w n tree (omega (arith, inside)) h (ground (arith, other)) lp
              there in
          let b = other_entry s.pages d (w + 1) n tree inside h (ground (arith, other)) hp there in
          same_page s.pages (memory s low high) d n dir (rw (a, b) refl)
    ]
