-- ===== src/Libh/Malloc.antt =====
-- lib/libh/src/malloc and lib/libh/src/internal/malloc.h: the heap of a user program, a row of blocks
-- that each begin with a header. A pointer is its address, NULL is 0. The size fields of the headers
-- are kept by the header's address, apart from the bytes that the program itself writes.
pub mod Laws
pub mod Grow
pub mod Release
use horizon_microkernel.Prelude.{
  ℕ, zero, suc, ◌+◌, ◌-◌, ◌*◌, ◌/◌, ◌%◌, ◌^◌, Bool, true, false, not, ◌&&◌, Option, none, some,
  ◌==◌, ltb, leb, if◌then◌else◌, update,
}
use horizon_microkernel.Libh.Memory.{Memory, memcpy}

pub record Heap : Type 0 where
  pub heap_base : ℕ
  pub heap_top : ℕ
  pub size : ℕ → ℕ
  pub bytes : Memory

abbrev pub header_size : ℕ
header_size = 8

abbrev pub malloc_alignment : ℕ
malloc_alignment = 8

abbrev pub page_size : ℕ
page_size = 4096

-- `(x + align - 1) & ~(align - 1)` on 32 bits
abbrev pub round_up : ℕ → ℕ → ℕ
round_up align x = (x + (align - 1)) % 2 ^ 32 - (x + (align - 1)) % 2 ^ 32 % align

abbrev pub block_size : ℕ → ℕ
block_size size = round_up malloc_alignment ((size + header_size) % 2 ^ 32)

-- The bit `MALLOC_USED` of a size field.
abbrev pub is_used : ℕ → Bool
is_used size = size % 2 == 1

abbrev pub clear_used : ℕ → ℕ
clear_used size = size - size % 2

abbrev pub set_used : ℕ → ℕ
set_used size = size - size % 2 + 1

unfoldable pub __malloc_initialize : Heap → ℕ → Heap
__malloc_initialize h base = record h { heap_base = base; heap_top = base }

unfoldable pub find_fit : ℕ → Heap → ℕ → ℕ → Option ℕ
find_fit zero h size header = none
find_fit (suc fuel) h size header =
    let rest = find_fit fuel h size (header + clear_used (h.size header)) in
    if ltb header h.heap_top
    then (if leb size (h.size header) && not (is_used (h.size header)) then some header else rest)
    else some 0

-- The end of `malloc`: the block is split if the rest is large enough, and marked.
unfoldable pub carve : (ℕ → ℕ) → ℕ → ℕ → ℕ → ℕ
carve sizes size header =
    let remaining = (sizes header + 2 ^ 32 - size) % 2 ^ 32 in
    let cut =
      if leb (malloc_alignment * 2) remaining
      then update (update sizes (header + size) remaining) header size
      else sizes in
    update cut header (set_used (cut header))

unfoldable pub allocate : Heap → ℕ → ℕ → ℕ × Heap
unfolding carve
allocate h size header = (header + header_size, record h { size = carve h.size size header })

unfoldable pub free : Heap → ℕ → Heap
free h ptr =
    let header = ptr - header_size in
    let sizes = update h.size header (clear_used (h.size header)) in
    let next = header + sizes header in
    record h {
      size =
          if ltb next h.heap_top && not (is_used (sizes next))
          then update sizes header ((sizes header + sizes next) % 2 ^ 32)
          else sizes;
    }

-- `vmap` asks the kernel for pages at an address, and is NULL if it gives none.
module _ (vmap : ℕ → ℕ → ℕ) where
  unfoldable pub malloc_heap_expand : Heap → ℕ → ℕ × Heap
  malloc_heap_expand h min_size =
      let size = round_up page_size min_size in
      if vmap h.heap_top size == 0 then (0, h) else (
        h.heap_top,
        record h { heap_top = h.heap_top + size; size = update h.size h.heap_top size },
      )

  unfoldable pub malloc_with : Heap → ℕ → ℕ → ℕ × Heap
  unfolding allocate malloc_heap_expand
  malloc_with h size header =
      let (fresh, grown) = malloc_heap_expand h size in
      if not (header == 0)
      then allocate h size header
      else if fresh == 0
      then (0, grown)
      else allocate grown size fresh

  unfoldable pub malloc : ℕ → Heap → ℕ → Option (ℕ × Heap)
  unfolding find_fit malloc_with
  malloc fuel h size = elim (find_fit fuel h (block_size size) h.heap_base) [
    | none ↦ none
    | some header ↦ some (malloc_with h (block_size size) header)
  ]

  unfoldable pub realloc : ℕ → Heap → ℕ → ℕ → Option (ℕ × Heap)
  unfolding malloc free
  realloc fuel h ptr size =
      let old_size = clear_used (h.size (ptr - header_size)) in
      let fresh = malloc fuel h size in
      if leb (block_size size) old_size then some (ptr, h) else elim fresh [
        | none ↦ none
        | some (new_ptr, grown) ↦ some (
          new_ptr,
          free (record grown { bytes = memcpy grown.bytes new_ptr ptr (old_size - header_size) })
              ptr,
        )
      ]
