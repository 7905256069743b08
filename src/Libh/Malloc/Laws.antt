-- ===== src/Libh/Malloc/Laws.antt =====
-- The heap as a list of blocks, and what malloc and free do to it.
use horizon_microkernel.Prelude.{
  ℕ, zero, suc, ◌+◌, ◌-◌, ◌%◌, ◌^◌, ◌≤◌, ◌<◌, ◌≡◌, ◌⊎◌, Bool, true, false, not, ◌&&◌, Option, none,
  some, leb, if◌then◌else◌, arith, refl, List, [], ◌∷◌, length, Bool-cases, inl, inr, subst,
}
use horizon_microkernel.Libh.Malloc.{Heap, find_fit, carve}

-- A block: its bytes with the header, and whether it is in use.
pub record Block : Type 0 where
  pub bytes : ℕ
  pub used : Bool

abbrev pub size_field : Block → ℕ
size_field b = if b.used then b.bytes + 1 else b.bytes

-- The blocks stand in a row from `a` to `top`.
abbrev pub Tiles : (ℕ → ℕ) → ℕ → List Block → ℕ → Type 0
Tiles sizes a [] top = a ≡ top
Tiles sizes a (b ∷ bs) top =
    (sizes a ≡ size_field b) × (b.bytes % 8 ≡ 0) × (8 ≤ b.bytes) × Tiles sizes (a + b.bytes) bs top

abbrev pub fits : ℕ → Block → Bool
fits n b = leb n b.bytes && not b.used

-- A free block of which `n` bytes are taken.
abbrev pub split : ℕ → Block → List Block → List Block
split n b bs =
    if leb 16 (b.bytes - n)
    then record { bytes = n; used = true } ∷ record { bytes = b.bytes - n; used = false } ∷ bs
    else record { bytes = b.bytes; used = true } ∷ bs

abbrev pub behind : Block → Option (ℕ × List Block) → Option (ℕ × List Block)
behind b none = none
behind b (some (off, new)) = some (b.bytes + off, b ∷ new)

-- The first block that fits is taken: how far from the start it is, and the blocks after that.
unfoldable pub first_fit : ℕ → List Block → Option (ℕ × List Block)
first_fit n [] = none
first_fit n (b ∷ bs) =
    let rest = behind b (first_fit n bs) in if fits n b then some (0, split n b bs) else rest

pub Tiles-bound :
    (sizes : ℕ → ℕ) (a : ℕ) (bs : List Block) (top : ℕ) → Tiles sizes a bs top → a ≤ top
Tiles-bound sizes a [] top t = omega arith
Tiles-bound sizes a (b ∷ bs) top (e, m, l, t) =
    ground (arith, Tiles-bound sizes (a + b.bytes) bs top t)

-- Size fields that agree from `a` on tile the same blocks.
pub Tiles-frame :
    (sizes new : ℕ → ℕ) (a : ℕ) (bs : List Block) (top : ℕ)
    → ((j : ℕ) → a ≤ j → new j ≡ sizes j)
    → Tiles sizes a bs top
    → Tiles new a bs top
Tiles-frame sizes new a [] top same t = t
Tiles-frame sizes new a (b ∷ bs) top same (e, m, l, t) = (
  ground (arith, same a, e),
  m,
  l,
  Tiles-frame sizes new (a + b.bytes) bs top (λ j h. same j (omega (arith, h))) t,
)

-- Where `find_fit` stops, in terms of the blocks.
abbrev pub found : ℕ → Option (ℕ × List Block) → ℕ
found a none = 0
found a (some (off, new)) = a + off

found-behind :
    (a : ℕ) (b : Block) (r : Option (ℕ × List Block)) → found a (behind b r) ≡ found (a + b.bytes) r
found-behind a b none = refl
found-behind a b (some (off, new)) = omega arith

pub find_fit-first_fit :
    (fuel : ℕ) (h : Heap) (n a : ℕ) (bs : List Block)
    → Tiles h.size a bs h.heap_top
    → length bs < fuel
    → find_fit fuel h n a ≡ some (found a (first_fit n bs))
unfolding find_fit first_fit
find_fit-first_fit zero h n a bs t l = absurd (omega arith)
find_fit-first_fit (suc fuel) h n a [] t l = ground (arith, t)
find_fit-first_fit (suc fuel) h n a (b ∷ bs) (e, k, p, t) l = elim (Bool-cases (fits n b)) [
  | inl here ↦ ground (arith, e, k, p, here, Tiles-bound h.size (a + b.bytes) bs h.heap_top t)
  | inr other ↦ ground (
    arith,
    e,
    k,
    p,
    other,
    Tiles-bound h.size (a + b.bytes) bs h.heap_top t,
    found-behind a b (first_fit n bs),
    find_fit-first_fit fuel h n (a + b.bytes) bs t (omega (arith, l)),
  )
]

-- `carve` writes only inside the block, where it leaves what `split` says.
pub carve-frame :
    (sizes : ℕ → ℕ) (n a j : ℕ) (b : Block)
    → sizes a ≡ b.bytes
    → n ≤ b.bytes
    → (j < a) ⊎ (a + b.bytes ≤ j)
    → 8 ≤ b.bytes
    → b.bytes < 2 ^ 32
    → carve sizes n a j ≡ sizes j
unfolding carve
carve-frame sizes n a j b e l out p m = ground (arith, e, l, out, p)

pub carve-split :
    (sizes : ℕ → ℕ) (n a top : ℕ) (b : Block) (bs : List Block)
    → fits n b ≡ true
    → n % 8 ≡ 0
    → 8 ≤ n
    → Tiles sizes a (b ∷ bs) top
    → top < 2 ^ 32
    → Tiles (carve sizes n a) a (split n b bs) top
unfolding carve
carve-split sizes n a top b bs f m l (e, k, p, t) bound =
    let behind_it =
      Tiles-frame sizes (carve sizes n a) (a + b.bytes) bs top
        (λ j h. ground (arith, e, f, h, p, bound, Tiles-bound sizes (a + b.bytes) bs top t)) t in
    elim (Bool-cases (leb 16 (b.bytes - n))) [
      | inl large ↦ rw (large) (
        ground (arith, e, f, large, bound, Tiles-bound sizes (a + b.bytes) bs top t),
        m,
        l,
        (
          ground (arith, e, f, large, l, bound, Tiles-bound sizes (a + b.bytes) bs top t),
          omega (arith, k, m),
          ground (arith, large),
          subst (λ q. Tiles (carve sizes n a) q bs top) (ground (arith, f, large)) behind_it,
        ),
      )
      | inr small ↦ rw (small) (
        ground (arith, e, f, small, bound, k, Tiles-bound sizes (a + b.bytes) bs top t),
        k,
        p,
        behind_it,
      )
    ]

-- At `p` stands a free block of at least `n` bytes, and `carve` there leaves the blocks `new`.
abbrev pub PlacedAt : (ℕ → ℕ) → ℕ → ℕ → ℕ → List Block → ℕ → Type 0
PlacedAt sizes n a p new top =
    (Tiles (carve sizes n p) a new top)
    × ((b : Block) × (sizes p ≡ b.bytes)
        × (n ≤ b.bytes)
        × (8 ≤ b.bytes)
        × (p + b.bytes ≤ top)
        × (a ≤ p))

abbrev pub Placed : (ℕ → ℕ) → ℕ → ℕ → ℕ → Option (ℕ × List Block) → Type 0
Placed sizes n a top none = Unit {0}
Placed sizes n a top (some (off, new)) = PlacedAt sizes n a (a + off) new top

Placed-behind :
    (sizes : ℕ → ℕ) (n a top : ℕ) (b : Block) (r : Option (ℕ × List Block))
    → sizes a ≡ size_field b
    → b.bytes % 8 ≡ 0
    → 8 ≤ b.bytes
    → top < 2 ^ 32
    → Placed sizes n (a + b.bytes) top r
    → Placed sizes n a top (behind b r)
Placed-behind sizes n a top b none e k p bound t = tt
Placed-behind sizes n a top b (some (off, new)) e k p bound (t, (c, f, l, q, u, v)) =
    subst (λ x. PlacedAt sizes n a x (b ∷ new) top) (omega arith)
      (
        (
          ground (
            arith,
            e,
            p,
            carve-frame sizes n (a + b.bytes + off) a c f l (inl (omega (arith, p, v))) q
                (omega (arith, u, bound)),
          ),
          k,
          p,
          t,
        ),
        (c, f, l, q, u, omega (arith, v)),
      )

-- The first block that fits is placed.
pub first_fit-Placed :
    (sizes : ℕ → ℕ) (n a top : ℕ) (bs : List Block)
    → n % 8 ≡ 0
    → 8 ≤ n
    → Tiles sizes a bs top
    → top < 2 ^ 32
    → Placed sizes n a top (first_fit n bs)
unfolding first_fit
first_fit-Placed sizes n a top [] m l t bound = tt
first_fit-Placed sizes n a top (b ∷ bs) m l (e, k, p, t) bound = elim (Bool-cases (fits n b)) [
  | inl here ↦ rw (here) (
      subst (λ x. PlacedAt sizes n a x (split n b bs) top) (omega arith)
        (
          carve-split sizes n a top b bs here m l (e, k, p, t) bound,
          (
            b,
            ground (arith, e, here),
            ground (arith, here),
            p,
            Tiles-bound sizes (a + b.bytes) bs top t,
            omega arith,
          ),
        ))
  | inr other ↦ rw (other) (
      Placed-behind sizes n a top b (first_fit n bs) e k p bound
        (first_fit-Placed sizes n (a + b.bytes) top bs m l t bound))
]
