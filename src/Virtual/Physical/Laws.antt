-- ===== src/Virtual/Physical/Laws.antt =====
-- The reference counts and the map of free pages agree.
use horizon_microkernel.Prelude.{
  ℕ, ◌+◌, ◌-◌, ◌*◌, ◌%◌, ◌^◌, ◌≤◌, ◌<◌, ◌≡◌, ◌≢◌, Bool, true, false, not, ◌&&◌, ◌==◌, if◌then◌else◌,
  update, arith, refl, List, ◌∷◌, Bool-cases, inl, inr, ◌∙◌, ap,
}
use horizon_microkernel.Prelude.Outcome.{done}
use horizon_microkernel.Util.Addr.{pgsize, index_to_addr}
use horizon_microkernel.Util.Addr.Laws.{addr_to_index-index_to_addr, index_to_addr_exact}
use horizon_microkernel.Util.Bmstack.Laws.{
  IsLinked, is_taken, bmstack_find_and_set-Takes, test-is_taken,
}
use horizon_microkernel.Util.Bmstack.Clear.{bmstack_clear-Frees}
use horizon_microkernel.Virtual.Physical.{
  Physical, usable_base, index_of, physical_alloc, physical_release,
}

-- `len` words map the pages, and the entries `xs` have free ones; a page that is counted is not free.
pub record IsSound (len : ℕ) (xs : List ℕ) (p : Physical) : Type 0 where
  pub based : (p.ref_counts == 0) ≡ false
  pub linked : IsLinked len xs p.alloc_map
  pub counted : (j : ℕ) → p.counts j ≢ 0 → is_taken p.alloc_map j ≡ true
  pub bytes : (j : ℕ) → p.counts j < 256
  pub room : usable_base + len * 32 * 4096 ≤ 2 ^ 32

-- `q` is `p` with the count of a page set to `n`.
abbrev pub Counts : Physical → Physical → ℕ → ℕ → Type 0
Counts p q block n = (j : ℕ) → q.counts j ≡ (if index_of block == j then n else p.counts j)

pub record Allocates (p q : Physical) (block : ℕ) : Type 0 where
  pub result : physical_alloc p ≡ done (block, q)
  pub was_free : p.counts (index_of block) ≡ 0
  pub now : Counts p q block 1
  pub aligned : block % 4096 ≡ 0
  pub high : usable_base ≤ block
  pub low : block < 2 ^ 32

-- A page that is free in the map is not counted.
uncounted :
    (p : Physical) (j : ℕ)
    → ((i : ℕ) → p.counts i ≢ 0 → is_taken p.alloc_map i ≡ true)
    → is_taken p.alloc_map j ≡ false
    → p.counts j ≡ 0
uncounted p j counted free = elim (Bool-cases (p.counts j == 0)) [
  | inl z ↦ ground (arith, z)
  | inr nz ↦ absurd (ground (arith, counted j λ z. ground (arith, nz, z), free))
]

-- While a word with a free page is listed, `physical_alloc` gives a page that nothing counts, and
-- counts it once.
pub physical_alloc-Allocates :
    (len x : ℕ) (xs : List ℕ) (p : Physical)
    → IsSound len (x ∷ xs) p
    → (block : ℕ) × (q : Physical) × Allocates p q block × ((ys : List ℕ) × IsSound len ys q)
unfolding physical_alloc
physical_alloc-Allocates len x xs p s =
    let (index, map, t, (ys, linked)) = bmstack_find_and_set-Takes len x xs p.alloc_map s.linked in
    let block = index_to_addr usable_base pgsize index in
    let same : index_of block ≡ index =
      addr_to_index-index_to_addr usable_base pgsize index (omega arith)
        (omega (arith, t.inside, s.room)) in
    let exact : block ≡ usable_base + index * 4096 =
      index_to_addr_exact usable_base pgsize index (omega (arith, t.inside, s.room)) in
    let q : Physical = record p { alloc_map = map; counts = update p.counts index 1 } in
    (
      block,
      q,
      record {
        result = rw (s.based, t.result) refl;
        was_free = ap p.counts same ∙ uncounted p index s.counted t.was_free;
        now = λ j. rw (same) refl;
        aligned = omega (arith, exact);
        high = omega (arith, exact);
        low = omega (arith, exact, t.inside, s.room);
      },
      (
        ys,
        record {
          based = s.based;
          linked = linked;
          counted = λ j h. elim (Bool-cases (index == j)) [
            | inl hit ↦ t.now j ∙ rw (hit) refl
            | inr other ↦ t.now j ∙ rw (other) (s.counted j λ z. h (rw (other) z))
          ];
          bytes = λ j. ground (arith, s.bytes j);
          room = s.room;
        },
      ),
    )

-- What `physical_release` does: it takes one from a count that is not zero, and gives the page back to the
-- map exactly if that leaves zero.
pub record Releases (p q : Physical) (block : ℕ) : Type 0 where
  pub freed : Bool
  pub result : physical_release p block ≡ done (freed, q)
  pub frees : freed ≡ (p.counts (index_of block) == 1)
  pub now : Counts p q block (p.counts (index_of block) - 1)
  pub map :
      (j : ℕ)
      → is_taken q.alloc_map j ≡ (
          if index_of block == j
          then not freed && is_taken p.alloc_map j
          else is_taken p.alloc_map j)

pub physical_release-Releases :
    (len x : ℕ) (xs : List ℕ) (p : Physical) (block : ℕ)
    → IsSound len (x ∷ xs) p
    → index_of block < len * 32
    → (q : Physical) × Releases p q block × ((ys : List ℕ) × IsSound len ys q)
unfolding physical_release
physical_release-Releases len x xs p block s inside =
    let index = index_of block in
    let count = p.counts index in
    elim (Bool-cases (count == 0)) [
      | inl none_left ↦ (
        p,
        record {
          freed = false;
          result = rw (s.based, none_left) refl;
          frees = ground (arith, none_left);
          now = λ j. ground (arith, none_left);
          map = λ j. ground arith;
        },
        (x ∷ xs, s),
      )
      | inr some_left ↦ elim (Bool-cases (count - 1 == 0)) [
        | inr kept ↦ (
          record p { counts = update p.counts index (count - 1) },
          record {
            freed = false;
            result = rw (s.based, some_left, kept) refl;
            frees = ground (arith, kept, some_left);
            now = λ j. refl;
            map = λ j. ground arith;
          },
          (
            x ∷ xs,
            record {
              based = s.based;
              linked = s.linked;
              counted = λ j h. elim (Bool-cases (index == j)) [
                | inl hit ↦ s.counted j λ z. ground (arith, hit, some_left, z)
                | inr other ↦ s.counted j λ z. h (rw (other) z)
              ];
              bytes = λ j. ground (arith, s.bytes j, s.bytes index);
              room = s.room;
            },
          ),
        )
        | inl last ↦
            let taken = s.counted index λ z. ground (arith, z, some_left) in
            let (map, f, (ys, linked)) =
              bmstack_clear-Frees len x index xs p.alloc_map s.linked inside in
            (
              record {
                alloc_map = map;
                ref_counts = p.ref_counts;
                counts = update p.counts index 0;
              },
              record {
                freed = true;
                result =
                    rw
                      (
                        s.based,
                        some_left,
                        last,
                        test-is_taken p.alloc_map index s.linked.based,
                        taken,
                        f.result,
                      )
                      refl;
                frees = ground (arith, last, some_left);
                now = λ j. ground (arith, last);
                map = λ j. ground (arith, f.now j);
              },
              (
                ys,
                record {
                  based = s.based;
                  linked = linked;
                  counted = λ j h. elim (Bool-cases (index == j)) [
                    | inl hit ↦ absurd (h (rw (hit) refl))
                    | inr other ↦ f.now j ∙ rw (other) (s.counted j λ z. h (rw (other) z))
                  ];
                  bytes = λ j. ground (arith, s.bytes j);
                  room = s.room;
                },
              ),
            )
      ]
    ]
