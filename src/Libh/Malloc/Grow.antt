-- ===== src/Libh/Malloc/Grow.antt =====
-- What `malloc` answers, in terms of the blocks of the heap.
use horizon_microkernel.Prelude.{
  ℕ, ◌+◌, ◌*◌, ◌/◌, ◌%◌, ◌^◌, ◌≤◌, ◌<◌, ◌≡◌, ◌≢◌, false, Option, none, some, ◌==◌, update, arith,
  refl, List, [], ◌∷◌, ◌++◌, length, Bool-cases, inl, inr, subst,
}
use horizon_microkernel.Libh.Malloc.{
  Heap, carve, allocate, malloc, malloc_with, malloc_heap_expand, block_size, round_up, page_size,
}
use horizon_microkernel.Libh.Malloc.Laws.{
  Block, Tiles, split, first_fit, carve-split, carve-frame, Tiles-bound, found, find_fit-first_fit,
  Placed, first_fit-Placed,
}

-- Blocks that are added at the end of the row.
Tiles-append :
    (sizes new : ℕ → ℕ) (a : ℕ) (bs cs : List Block) (top last : ℕ)
    → ((j : ℕ) → j < top → new j ≡ sizes j)
    → Tiles sizes a bs top
    → Tiles new top cs last
    → Tiles new a (bs ++ cs) last
Tiles-append sizes new a [] cs top last same t u =
    subst (λ x. Tiles new x cs last) (omega (arith, t)) u
Tiles-append sizes new a (b ∷ bs) cs top last same (e, k, p, t) u = (
  ground (arith, same a, e, p, Tiles-bound sizes (a + b.bytes) bs top t),
  k,
  p,
  Tiles-append sizes new (a + b.bytes) bs cs top last same t u,
)

block_size-bounds :
    (size : ℕ)
    → size + 15 < 2 ^ 32
    → (block_size size % 8 ≡ 0) × (size + 8 ≤ block_size size) × (block_size size ≤ size + 15)
block_size-bounds size h = omega (arith, h)

-- The bytes of the fewest pages that hold `n` bytes.
abbrev pub page_bytes : ℕ → ℕ
page_bytes n = (n + 4095) / 4096 * 4096

pages-bounds :
    (n : ℕ)
    → n + 4095 < 2 ^ 32
    → (page_bytes n % 8 ≡ 0) × (n ≤ page_bytes n) × (page_bytes n ≤ n + 4095)
pages-bounds n h = omega (arith, h)

round_up-page_bytes : (n : ℕ) → n + 4095 < 2 ^ 32 → round_up page_size n ≡ page_bytes n
round_up-page_bytes n h = omega (arith, h)

-- The block that the heap grows by.
abbrev pub fresh_block : ℕ → Block
fresh_block n = record { bytes = page_bytes n; used = false }

-- What `malloc` answers when it looks for a block of `n` bytes: the result `p`, and the new heap.
abbrev pub Answer :
    (ℕ → ℕ → ℕ) → Heap → List Block → ℕ → ℕ → Heap → Option (ℕ × List Block) → Type 0
Answer vmap h bs n p now (some (off, new)) =
    (p ≡ h.heap_base + off + 8)
    × (now.heap_top ≡ h.heap_top)
    × Tiles now.size h.heap_base new now.heap_top
Answer vmap h bs n p now none =
    (vmap h.heap_top (page_bytes n) ≡ 0 → (p ≡ 0) × (now ≡ h))
    × (vmap h.heap_top (page_bytes n) ≢ 0
        → (p ≡ h.heap_top + 8)
          × (now.heap_top ≡ h.heap_top + page_bytes n)
          × Tiles now.size h.heap_base (bs ++ split n (fresh_block n) []) now.heap_top)

-- The heap after it has grown and `n` bytes of the new block are taken.
abbrev grown_heap : Heap → ℕ → Heap
grown_heap h n = record h {
  heap_top = h.heap_top + page_bytes n;
  size = carve (update h.size h.heap_top (page_bytes n)) n h.heap_top;
}

grown_heap-Tiles :
    (h : Heap) (bs : List Block) (n : ℕ)
    → 8 ≤ n
    → n % 8 ≡ 0
    → h.heap_top + n + 4095 < 2 ^ 32
    → Tiles h.size h.heap_base bs h.heap_top
    → Tiles
        (grown_heap h n).size
        h.heap_base
        (bs ++ split n (fresh_block n) [])
        (grown_heap h n).heap_top
grown_heap-Tiles h bs n l m bound t =
    let (r8, low, high) = pages-bounds n (omega (arith, bound)) in
    let sizes = update h.size h.heap_top (page_bytes n) in
    Tiles-append h.size (grown_heap h n).size h.heap_base bs (split n (fresh_block n) []) h.heap_top
      (grown_heap h n).heap_top
      (λ j k. ground (
        arith,
        k,
        carve-frame sizes n h.heap_top j (fresh_block n) (ground arith) low (inl k)
            (omega (arith, l, low)) (omega (arith, high, bound)),
      ))
      t
      (carve-split sizes n h.heap_top (h.heap_top + page_bytes n) (fresh_block n) []
        (ground (arith, low)) m l (ground arith, r8, omega (arith, l, low), refl)
        (omega (arith, high, bound)))

malloc_with-Answer :
    (vmap : ℕ → ℕ → ℕ) (h : Heap) (bs : List Block) (n : ℕ) (r : Option (ℕ × List Block))
    → 0 < h.heap_base
    → 8 ≤ n
    → n % 8 ≡ 0
    → h.heap_top + n + 4095 < 2 ^ 32
    → Tiles h.size h.heap_base bs h.heap_top
    → Placed h.size n h.heap_base h.heap_top r
    → (p : ℕ) × (now : Heap) × (malloc_with vmap h n (found h.heap_base r) ≡ (p, now))
      × Answer vmap h bs n p now r
unfolding malloc_with malloc_heap_expand allocate
malloc_with-Answer vmap h bs n (some (off, new)) pos l m bound t (tiles, b) = (
  h.heap_base + off + 8,
  record h { size = carve h.size n (h.heap_base + off) },
  ground (arith, pos),
  (refl, refl, tiles),
)
malloc_with-Answer vmap h bs n none pos l m bound t placed =
    let pages = round_up-page_bytes n (omega (arith, bound)) in
    elim (Bool-cases (vmap h.heap_top (page_bytes n) == 0)) [
      | inl refused ↦ (
        0,
        h,
        rw (pages) (ground (arith, refused)),
        ((λ z. (refl, refl)), λ z. absurd (ground (arith, z, refused))),
      )
      | inr granted ↦ (
        h.heap_top + 8,
        grown_heap h n,
        rw (pages) (ground (arith, granted, pos, Tiles-bound h.size h.heap_base bs h.heap_top t)),
        (
          (λ z. absurd (ground (arith, z, granted))),
          λ z. (refl, refl, grown_heap-Tiles h bs n l m bound t),
        ),
      )
    ]

-- `malloc` stops. It needs `n` bytes, the least multiple of 8 that holds the header of 8 bytes and the size.
-- It takes the first free block of that many bytes or more, which is split if 16 bytes or more are left
-- over; if there is none, it asks the kernel for the fewest pages that hold them, behind the heap, and
-- gives NULL and changes nothing if the kernel refuses.
pub malloc-Answer :
    (vmap : ℕ → ℕ → ℕ) (fuel : ℕ) (h : Heap) (bs : List Block) (size : ℕ)
    → 0 < h.heap_base
    → h.heap_top + size + 4110 < 2 ^ 32
    → Tiles h.size h.heap_base bs h.heap_top
    → length bs < fuel
    → (n : ℕ) × (n % 8 ≡ 0)
      × (size + 8 ≤ n)
      × (n < size + 16)
      × ((p : ℕ) × (now : Heap) × (malloc vmap fuel h size ≡ some (p, now))
          × Answer vmap h bs n p now (first_fit n bs))
unfolding malloc
malloc-Answer vmap fuel h bs size pos bound t l =
    let n = block_size size in
    let (m, low, high) = block_size-bounds size (omega (arith, bound)) in
    let (p, now, ran, answer) =
      malloc_with-Answer vmap h bs n (first_fit n bs) pos (omega (arith, low)) m
        (omega (arith, high, bound)) t
        (first_fit-Placed h.size n h.heap_base h.heap_top bs m (omega (arith, low)) t
          (omega (arith, bound))) in
    (
      n,
      m,
      low,
      omega (arith, high),
      (p, now, rw (malloc, find_fit-first_fit fuel h n h.heap_base bs t l, ran) refl, answer),
    )
