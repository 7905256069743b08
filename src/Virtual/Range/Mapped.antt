-- ===== src/Virtual/Range/Mapped.antt =====
-- `virtual_map` maps the pages of a range.
use horizon_microkernel.Prelude.{
  ℕ, zero, suc, ◌+◌, ◌-◌, ◌*◌, ◌/◌, ◌^◌, ◌≤◌, ◌<◌, ◌≡◌, Bool, true, false, ◌&&◌, Option, none, some,
  ◌==◌, ltb, leb, if◌then◌else◌, arith, refl, sym, ap, ◌∙◌, subst, List, Bool-cases, inl, inr,
}
use horizon_microkernel.Prelude.Words.{add_word}
use horizon_microkernel.Prelude.Outcome.{Outcome, done, halted, fault, ◌>>=◌}
use horizon_microkernel.Util.Addr.{pgsize}
use horizon_microkernel.Util.Addr.Laws.{addr_align-page}
use horizon_microkernel.Virtual.Paging.{Pages, Paging, is_window, flag_force, paging_map}
use horizon_microkernel.Virtual.Paging.Tables.{lookup}
use horizon_microkernel.Virtual.Paging.Map.{IsReady, is_none}
use horizon_microkernel.Virtual.Paging.Map.Ready.{KeepsTables, map_in_table}
use horizon_microkernel.Virtual.Range.{get_dir, found_space, map_pages, virtual_map}

-- In `q` the pages from number `n` on, `k` of them, are mapped to the frames from `p` on unless they were
-- mapped in `s`; every other page is mapped as in `s`. The pages of the window at `w` are left aside.
abbrev pub MapsRange : ℕ → Pages → Pages → ℕ → ℕ → ℕ → ℕ → Type 0
MapsRange w s q d n k p =
    (m : ℕ)
    → m < 1023 * 1024
    → is_window w m ≡ false
    → lookup q d m ≡ (
        if leb n m && ltb m (n + k) && is_none (lookup s d m)
        then some (p + (m - n))
        else lookup s d m)

-- A page behind the first.
range_other :
    (x y : Option ℕ) (n k p m : ℕ) (mapped : Bool)
    → (m == n) ≡ false
    → x ≡ (if m == n && mapped then some p else y)
    → (if leb (n + 1) m && ltb m (n + 1 + k) && is_none x then some (p + 1 + (m - (n + 1))) else x)
      ≡ (if leb n m && ltb m (n + (k + 1)) && is_none y then some (p + (m - n)) else y)
range_other x y n k p m mapped other e =
    let same : x ≡ y = e ∙ rw (other) refl in rw (same) (ground (arith, other))

-- The first page.
range_first :
    (x y : Option ℕ) (n k p m : ℕ) (mapped : Bool)
    → (m == n) ≡ true
    → mapped ≡ is_none y
    → x ≡ (if m == n && mapped then some p else y)
    → (if leb (n + 1) m && ltb m (n + 1 + k) && is_none x then some (p + 1 + (m - (n + 1))) else x)
      ≡ (if leb n m && ltb m (n + (k + 1)) && is_none y then some (p + (m - n)) else y)
range_first x none n k p m mapped here answer e =
    let now : x ≡ some p = e ∙ rw (here, answer) refl in
    let start : p + (m - n) ≡ p = ground (arith, here) in rw (now, start) (ground (arith, here))
range_first x (some b) n k p m mapped here answer e =
    let now : x ≡ some b = e ∙ rw (here, answer) refl in rw (now) (ground (arith, here))

-- One page, and then the others.
MapsRange-step :
    (w : ℕ) (s mid q : Pages) (d n k p : ℕ) (mapped : Bool)
    → mapped ≡ is_none (lookup s d n)
    → ((m : ℕ)
        → m < 1023 * 1024
        → is_window w m ≡ false
        → lookup mid d m ≡ (if m == n && mapped then some p else lookup s d m))
    → MapsRange w mid q d (n + 1) k (p + 1)
    → MapsRange w s q d n (k + 1) p
MapsRange-step w s mid q d n k p mapped answer first others m h apart =
    others m h apart ∙ elim (Bool-cases (m == n)) [
      | inl here ↦
          let same : n ≡ m = ground (arith, here) in
          range_first (lookup mid d m) (lookup s d m) n k p m mapped here
            (answer ∙ ap (λ x. is_none (lookup s d x)) same) (first m h apart)
      | inr other ↦
          range_other (lookup mid d m) (lookup s d m) n k p m mapped other (first m h apart)
    ]

-- One round of the loop.
map_pages-round :
    (fuel : ℕ) (s t : Paging) (pas curr end phys flags : ℕ) (mapped : Bool)
    (r : Option (Outcome Paging))
    → ltb curr end ≡ true
    → paging_map s pas curr phys flags ≡ done (mapped, t)
    → map_pages fuel t pas (add_word curr pgsize) end (add_word phys pgsize) flags ≡ r
    → map_pages (suc fuel) s pas curr end phys flags ≡ r
unfolding map_pages
map_pages-round fuel s t pas curr end phys flags mapped r more result rest = rw (more, result) rest

-- Enough fuel ends the loop.
pub map_pages-Maps :
    (fuel len k : ℕ) (xs : List ℕ) (s : Paging) (dir d n end p flags : ℕ)
    → k < fuel
    → flag_force flags ≡ false
    → IsReady len xs s d
    → (if dir == 0 then s.kernel_dir else dir) ≡ d
    → n + k ≤ 1023 * 1024
    → p + k < 2 ^ 20
    → end < 2 ^ 32
    → end ≤ (n + k) * 4096
    → (n + k) * 4096 < end + 4096
    → ((m : ℕ) → n ≤ m → m < n + k → (s.pages (d / 4096) (m / 1024)).present ≡ true)
    → (q : Paging) × (map_pages fuel s dir (n * 4096) end (p * 4096) flags ≡ some (done q))
      × MapsRange s.tempmap_addr s.pages q.pages (d / 4096) n k p
      × KeepsTables len xs s q d
unfolding map_pages
map_pages-Maps zero len k xs s dir d n end p flags c force r e l b w o u tables =
    absurd (omega (arith, c))
map_pages-Maps (suc fuel) len zero xs s dir d n end p flags c force r e l b w o u tables =
    let over : ltb (n * 4096) end ≡ false = ground (arith, o) in
    (
      s,
      rw (over) refl,
      λ m h _. ground arith,
      record { ready = r; kernel = refl; tempmap = refl; tables = λ j h. h },
    )
map_pages-Maps (suc fuel) len (suc k) xs s dir d n end p flags c force r e l b w o u tables =
    let low : n < 1023 * 1024 = omega (arith, l) in
    let more : ltb (n * 4096) end ≡ true = ground (arith, u) in
    let next : add_word (n * 4096) pgsize ≡ (n + 1) * 4096 = omega (arith, low) in
    let next_frame : add_word (p * 4096) pgsize ≡ (p + 1) * 4096 = omega (arith, b) in
    let (t, maps, kept) =
      map_in_table len xs s dir d n (p * 4096) flags r e low (omega (arith, b)) (omega arith)
        (tables n (omega arith) (omega arith)) in
    let (q, ran, range, more_kept) =
      map_pages-Maps fuel len k xs t dir d (n + 1) end (p + 1) flags (omega (arith, c)) force
        kept.ready (rw (kept.kernel) e) (omega (arith, l)) (omega (arith, b)) w (omega (arith, o))
        (omega (arith, u))
        λ m a z. kept.tables (m / 1024) (tables m (omega (arith, a)) (omega (arith, z))) in
    let answer : maps.mapped ≡ is_none (lookup s.pages (d / 4096) n) =
      maps.answer ∙ rw (force) refl in
    let frame : p * 4096 / 4096 ≡ p = omega arith in
    (
      q,
      map_pages-round fuel s t dir (n * 4096) end (p * 4096) flags maps.mapped (some (done q)) more
          maps.result
          (ap (λ a. map_pages fuel t dir a end (add_word (p * 4096) pgsize) flags) next
            ∙ ap (λ a. map_pages fuel t dir ((n + 1) * 4096) end a flags) next_frame
            ∙ ran),
      subst (λ c. MapsRange s.tempmap_addr s.pages q.pages (d / 4096) n c p) (omega arith)
          (MapsRange-step s.tempmap_addr s.pages t.pages q.pages (d / 4096) n k p maps.mapped answer
            (λ m h apart.
              maps.now m h apart
              ∙ ap (λ c. if m == n && maps.mapped then some c else lookup s.pages (d / 4096) m)
                  frame)
            (subst (λ w. MapsRange w t.pages q.pages (d / 4096) (n + 1) k (p + 1)) kept.tempmap
              range)),
      record {
        ready = more_kept.ready;
        kernel = more_kept.kernel ∙ kept.kernel;
        tempmap = more_kept.tempmap ∙ kept.tempmap;
        tables = λ j h. more_kept.tables j (kept.tables j h);
      },
    )

-- The pages that the `size` bytes from `virt` on lie on.
abbrev pub page_count : ℕ → ℕ → ℕ
page_count virt size = (virt + size + 4095) / 4096 - virt / 4096

force_of : Outcome (ℕ × ℕ) → Bool
force_of (done (pas, flags)) = flag_force flags
force_of halted = false
force_of fault = false

found_space-force : (o : Option ℕ) → force_of (do pas ← found_space o; done (pas, 3)) ≡ false
unfolding force_of
found_space-force none = refl
found_space-force (some pas) = refl

get_dir-force : (space : ℕ → Option ℕ) (pid : ℕ) → force_of (get_dir space pid) ≡ false
unfolding get_dir force_of
get_dir-force space pid = elim (Bool-cases (pid == 0)) [
  | inl here ↦ rw (here) refl
  | inr other ↦ rw (other) (found_space-force (space pid))
]

get_dir-flags :
    (space : ℕ → Option ℕ) (pid pas flags : ℕ)
    → get_dir space pid ≡ done (pas, flags)
    → flag_force flags ≡ false
unfolding force_of
get_dir-flags space pid pas flags e = ap force_of (sym e) ∙ get_dir-force space pid

virtual_map-rounds :
    (space : ℕ → Option ℕ) (fuel : ℕ) (s : Paging) (pid pas flags virt phys size : ℕ)
    → get_dir space pid ≡ done (pas, flags)
    → 0 < size
    → virt + size < 2 ^ 32
    → phys < 2 ^ 32
    → virtual_map space fuel s pid virt phys size
      ≡ map_pages fuel s pas (virt / 4096 * 4096) (virt + size) (phys / 4096 * 4096) flags
unfolding virtual_map
virtual_map-rounds space fuel s pid pas flags virt phys size dir pos high low =
    let last : add_word virt size ≡ virt + size = omega (arith, high) in
    let some_size : (size == 0) ≡ false = ground (arith, pos) in
    rw (some_size, dir, addr_align-page virt (omega (arith, high)), addr_align-page phys low, last)
      refl

-- `virtual_map` ends, for a range that lies below the last table, has its page tables, and does not meet the
-- window of `paging_map_temp`: every page
-- of the range that was not mapped is mapped to its frame of the physical range, and every other page of
-- the directory but the two of the window is mapped as before. The page tables stay, and the directory keeps its form.
pub virtual_map-Maps :
    (space : ℕ → Option ℕ) (len : ℕ) (xs : List ℕ) (fuel : ℕ) (s : Paging)
    (pid pas flags d virt phys size : ℕ)
    → IsReady len xs s d
    → get_dir space pid ≡ done (pas, flags)
    → (if pas == 0 then s.kernel_dir else pas) ≡ d
    → 0 < size
    → virt + size ≤ 1023 * 2 ^ 22
    → phys + size + 8192 ≤ 2 ^ 32
    → ((m : ℕ)
        → virt / 4096 ≤ m
        → m * 4096 < virt + size
        → (s.pages (d / 4096) (m / 1024)).present ≡ true)
    → ((m : ℕ) → virt / 4096 ≤ m → m * 4096 < virt + size → is_window s.tempmap_addr m ≡ false)
    → page_count virt size < fuel
    → (q : Paging) × (virtual_map space fuel s pid virt phys size ≡ some (done q))
      × MapsRange s.tempmap_addr s.pages q.pages
          (d / 4096)
          (virt / 4096)
          (page_count virt size)
          (phys / 4096)
      × KeepsTables len xs s q d
virtual_map-Maps space len xs fuel s pid pas flags d virt phys size r dir e pos high frames tables
      apart f =
    let n = virt / 4096 in
    let k = page_count virt size in
    let p = phys / 4096 in
    let (q, ran, range, kept) =
      map_pages-Maps fuel len k xs s pas d n (virt + size) p flags f
        (get_dir-flags space pid pas flags dir) r e (omega (arith, high)) (omega (arith, frames))
        (omega (arith, high)) (omega arith) (omega (arith, pos))
        λ m a b. tables m a (omega (arith, b)) in
    (
      q,
      virtual_map-rounds space fuel s pid pas flags virt phys size dir pos (omega (arith, high))
            (omega (arith, frames))
          ∙ ran,
      range,
      kept,
    )
