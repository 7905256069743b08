-- ===== src/Libh/Malloc/Release.antt =====
-- What `free` and `realloc` do to the blocks of the heap.
use horizon_microkernel.Prelude.{
  ℕ, ◌+◌, ◌^◌, ◌<◌, ◌≡◌, true, false, if◌then◌else◌, arith, List, [], ◌∷◌, ◌++◌, Bool-cases, inl,
  inr, subst,
}
use horizon_microkernel.Libh.Malloc.{Heap, free}
use horizon_microkernel.Libh.Malloc.Laws.{Block, Tiles, Tiles-bound, Tiles-frame}

-- The bytes of the blocks.
abbrev pub total : List Block → ℕ
total [] = 0
total (b ∷ bs) = b.bytes + total bs

-- A free block of `n` bytes before `bs`, put together with the block behind it if that is free.
abbrev pub merge : ℕ → List Block → List Block
merge n [] = record { bytes = n; used = false } ∷ []
merge n (b ∷ bs) =
    if b.used
    then record { bytes = n; used = false } ∷ b ∷ bs
    else record { bytes = n + b.bytes; used = false } ∷ bs

-- The size fields after `free` of the block with the header at `a`.
abbrev freed : Heap → ℕ → ℕ → ℕ
freed h a = (free h (a + 8)).size

free-merge :
    (h : Heap) (n a : ℕ) (bs : List Block)
    → h.heap_top < 2 ^ 32
    → Tiles h.size a (record { bytes = n; used = true } ∷ bs) h.heap_top
    → (Tiles (freed h a) a (merge n bs) h.heap_top) × ((j : ℕ) → j < a → freed h a j ≡ h.size j)
unfolding free
free-merge h n a [] bound (e, k, p, t) =
    ((ground (arith, e, k, t), k, p, t), λ j l. ground (arith, l))
free-merge h n a (b ∷ bs) bound (e, k, p, (f, m, q, t)) =
    let le = Tiles-bound h.size (a + n + b.bytes) bs h.heap_top t in
    elim (Bool-cases b.used) [
      | inl used ↦ (
        rw (used) (
          ground (arith, e, k, f, used, m, q),
          k,
          p,
          (
            ground (arith, e, k, f, used, m, q, p),
            m,
            q,
            Tiles-frame h.size (freed h a) (a + n + b.bytes) bs h.heap_top
                (λ j l. ground (arith, l, p, e, k, f, used, m, q)) t,
          ),
        ),
        λ j l. ground (arith, l),
      )
      | inr unused ↦ (
        rw (unused) (
          ground (arith, e, k, f, unused, m, q, le, p, bound),
          omega (arith, k, m),
          omega (arith, p),
          subst (λ x. Tiles (freed h a) x bs h.heap_top) (omega arith)
              (Tiles-frame h.size (freed h a) (a + n + b.bytes) bs h.heap_top
                (λ j l. ground (arith, l, p, e, k, f, unused, m, q)) t),
        ),
        λ j l. ground (arith, l),
      )
    ]

free-at :
    (h : Heap) (sizes : ℕ → ℕ) (a n : ℕ) (bs cs : List Block)
    → ((j : ℕ) → j < a + total bs → sizes j ≡ h.size j)
    → Tiles h.size a (bs ++ record { bytes = n; used = true } ∷ cs) h.heap_top
    → Tiles sizes (a + total bs) (merge n cs) h.heap_top
    → Tiles sizes a (bs ++ merge n cs) h.heap_top
free-at h sizes a n [] cs same t u =
    subst (λ x. Tiles sizes x (merge n cs) h.heap_top) (omega arith) u
free-at h sizes a n (b ∷ bs) cs same (e, k, p, t) u = (
  ground (arith, e, p, same a),
  k,
  p,
  free-at h sizes (a + b.bytes) n bs cs (λ j l. same j (omega (arith, l))) t
      (subst (λ x. Tiles sizes x (merge n cs) h.heap_top) (omega arith) u),
)

-- The blocks behind the first ones.
Tiles-rest :
    (sizes : ℕ → ℕ) (a : ℕ) (bs cs : List Block) (top : ℕ)
    → Tiles sizes a (bs ++ cs) top
    → Tiles sizes (a + total bs) cs top
Tiles-rest sizes a [] cs top t = subst (λ x. Tiles sizes x cs top) (omega arith) t
Tiles-rest sizes a (b ∷ bs) cs top (e, k, p, t) =
    subst (λ x. Tiles sizes x cs top) (omega arith) (Tiles-rest sizes (a + b.bytes) bs cs top t)

-- `free` of a pointer to a used block frees it, puts it together with the block behind it if that is free
-- too, and leaves the other blocks as they are, the one before it too if it is free.
pub free-Tiles :
    (h : Heap) (n : ℕ) (bs cs : List Block)
    → h.heap_top < 2 ^ 32
    → Tiles h.size h.heap_base (bs ++ record { bytes = n; used = true } ∷ cs) h.heap_top
    → Tiles (free h (h.heap_base + total bs + 8)).size h.heap_base (bs ++ merge n cs) h.heap_top
free-Tiles h n bs cs bound t =
    let (merged, same) =
      free-merge h n (h.heap_base + total bs) cs bound
        (Tiles-rest h.size h.heap_base bs (record { bytes = n; used = true } ∷ cs) h.heap_top t) in
    free-at h (freed h (h.heap_base + total bs)) h.heap_base n bs cs same t merged
