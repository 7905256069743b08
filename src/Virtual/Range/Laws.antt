-- ===== src/Virtual/Range/Laws.antt =====
-- What `virtual_is_mapped` answers about a range.
use horizon_microkernel.Prelude.{
  ℕ, zero, suc, ◌+◌, ◌-◌, ◌*◌, ◌/◌, ◌^◌, ◌≤◌, ◌<◌, ◌≡◌, ◌⊎◌, Bool, true, false, not, Option, some,
  ◌==◌, ltb, if◌then◌else◌, arith, refl, sym, subst, List, Bool-cases, inl, inr,
}
use horizon_microkernel.Prelude.Words.{add_word}
use horizon_microkernel.Prelude.Outcome.{done}
use horizon_microkernel.Util.Addr.{pgsize}
use horizon_microkernel.Util.Addr.Laws.{addr_align-page}
use horizon_microkernel.Virtual.Paging.{Pages, Paging, is_some}
use horizon_microkernel.Virtual.Paging.Tables.{lookup}
use horizon_microkernel.Virtual.Paging.Map.{IsReady}
use horizon_microkernel.Virtual.Paging.Query.{queries-lookup}
use horizon_microkernel.Virtual.Range.{get_dir, same_bool, int_of, same_pages, virtual_is_mapped}

-- A state with the same tables and counts is as ready.
IsReady-moved :
    (len : ℕ) (xs : List ℕ) (s q : Paging) (d : ℕ)
    → IsReady len xs s d
    → q.pages ≡ s.pages
    → q.physical ≡ s.physical
    → q.tempmap_addr ≡ s.tempmap_addr
    → IsReady len xs q d
IsReady-moved len xs s q d r p f t = record {
  mappable = rw (t) r.mappable;
  some_dir = r.some_dir;
  aligned = r.aligned;
  low = r.low;
  sound = rw (f) r.sound;
  tree = rw (p) r.tree;
  dir_counted = rw (f) r.dir_counted;
  table_counted = rw (p, f) r.table_counted;
  table_frames = rw (p) r.table_frames;
}

-- The answer about the pages from number `n` on that begin before `end`, next to a page in `state`: they
-- are all in that state, or one is not.
abbrev pub Verdict : Pages → ℕ → ℕ → ℕ → Bool → ℕ → Type 0
Verdict pages d n end state answer =
    ((answer ≡ int_of state)
      × ((m : ℕ) → n ≤ m → m * 4096 < end → is_some (lookup pages d m) ≡ state))
    ⊎ ((answer ≡ 2 ^ 32 - 1)
        × ((m : ℕ) × (n ≤ m) × (m * 4096 < end) × (is_some (lookup pages d m) ≡ not state)))

same_bool_on : (a b : Bool) → same_bool a b ≡ true → a ≡ b
same_bool_on true b h = sym h
same_bool_on false true h = absurd (ground (arith, h))
same_bool_on false false h = refl

same_bool_off : (a b : Bool) → same_bool a b ≡ false → a ≡ not b
same_bool_off true true h = absurd (ground (arith, h))
same_bool_off true false h = refl
same_bool_off false b h = sym h

-- One more page in front that is in the state.
Verdict-step :
    (pages : Pages) (d n end : ℕ) (state : Bool) (answer : ℕ)
    → is_some (lookup pages d n) ≡ state
    → Verdict pages d (n + 1) end state answer
    → Verdict pages d n end state answer
Verdict-step pages d n end state answer here (inl (e, all)) = inl (
  e,
  λ m a b. elim (Bool-cases (m == n)) [
    | inl hit ↦ let i : m ≡ n = ground (arith, hit) in rw (i) here
    | inr miss ↦ all m (ground (arith, a, miss)) b
  ],
)
Verdict-step pages d n end state answer here (inr (e, (m, a, b, c))) =
    inr (e, (m, omega (arith, a), b, c))

module _ (len : ℕ) (xs : List ℕ) (pas d end : ℕ) (high : end ≤ 1023 * 2 ^ 22) where
  same_pages-Verdict :
      (fuel k n : ℕ) (s : Paging) (state : Bool)
      → IsReady len xs s d
      → (if pas == 0 then s.kernel_dir else pas) ≡ d
      → end ≤ (n + k) * 4096
      → n ≤ 1023 * 1024
      → k < fuel
      → (answer : ℕ) × (q : Paging) × (same_pages fuel s pas (n * 4096) end state
          ≡ some (done (answer, q)))
        × Verdict s.pages (d / 4096) n end state answer
  unfolding same_pages
  same_pages-Verdict zero k n s state r e l h f = absurd (omega (arith, f))
  same_pages-Verdict (suc fuel) k n s state r e l h f = elim (Bool-cases (ltb (n * 4096) end)) [
    | inr over ↦
        (int_of state, s, rw (over) refl, inl (refl, λ m a b. absurd (ground (arith, over, a, b))))
    | inl more ↦
        let below : n < 1023 * 1024 = ground (arith, more, high) in
        let (q, got, test, pages, physical, temp, kernel) =
          queries-lookup len xs s pas d n r e below in
        elim (Bool-cases (same_bool (is_some (lookup s.pages (d / 4096) n)) state)) [
          | inr differs ↦ (
            2 ^ 32 - 1,
            q,
            rw (more, test, differs) refl,
            inr (
              refl,
              (
                n,
                omega arith,
                ground (arith, more),
                same_bool_off (is_some (lookup s.pages (d / 4096) n)) state differs,
              ),
            ),
          )
          | inl same ↦
              let ready = IsReady-moved len xs s q d r pages physical temp in
              let (answer, last, ran, verdict) =
                same_pages-Verdict fuel (k - 1) (n + 1) q state ready (rw (kernel) e)
                  (ground (arith, l, more)) (omega (arith, below)) (ground (arith, f, more, l)) in
              let next : add_word (n * 4096) pgsize ≡ (n + 1) * 4096 = omega (arith, below) in
              (
                answer,
                last,
                rw (more, test, same, next) ran,
                Verdict-step s.pages (d / 4096) n end state answer
                    (same_bool_on (is_some (lookup s.pages (d / 4096) n)) state same)
                    (subst (λ p. Verdict p (d / 4096) (n + 1) end state answer) pages verdict),
              )
        ]
  ]

-- `virtual_is_mapped` ends, for a range that lies below the last table: its answer is 1 if every page of the
-- range is mapped, 0 if none is, and -1 if one is and another is not.
pub virtual_is_mapped-Verdict :
    (space : ℕ → Option ℕ) (len : ℕ) (xs : List ℕ) (fuel k : ℕ) (s : Paging)
    (pid pas flags d virt size : ℕ)
    → IsReady len xs s d
    → get_dir space pid ≡ done (pas, flags)
    → (if pas == 0 then s.kernel_dir else pas) ≡ d
    → 0 < size
    → virt + size ≤ 1023 * 2 ^ 22
    → size ≤ k * 4096
    → k < fuel
    → (answer : ℕ) × (q : Paging) × (virtual_is_mapped space fuel s pid virt size
        ≡ some (done (answer, q)))
      × Verdict s.pages
          (d / 4096)
          (virt / 4096)
          (virt + size)
          (is_some (lookup s.pages (d / 4096) (virt / 4096)))
          answer
unfolding virtual_is_mapped
virtual_is_mapped-Verdict space len xs fuel k s pid pas flags d virt size r dir e pos high rounds
      f =
    let n = virt / 4096 in
    let below : n < 1023 * 1024 = omega (arith, pos, high) in
    let (q, got, test, pages, physical, temp, kernel) = queries-lookup len xs s pas d n r e below in
    let state = is_some (lookup s.pages (d / 4096) n) in
    let (answer, last, ran, verdict) =
      same_pages-Verdict len xs pas d (virt + size) high fuel k (n + 1) q state
        (IsReady-moved len xs s q d r pages physical temp) (rw (kernel) e) (omega (arith, rounds))
        (omega (arith, below)) f in
    let some_size : (size == 0) ≡ false = ground (arith, pos) in
    let next : add_word (n * 4096) pgsize ≡ (n + 1) * 4096 = omega (arith, below) in
    let last_addr : add_word virt size ≡ virt + size = omega (arith, high) in
    (
      answer,
      last,
      rw (some_size, dir, addr_align-page virt (omega (arith, pos, high)), test, next, last_addr)
          ran,
      Verdict-step s.pages (d / 4096) n (virt + size) state answer refl
          (subst (λ p. Verdict p (d / 4096) (n + 1) (virt + size) state answer) pages verdict),
    )
