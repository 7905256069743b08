-- ===== src/Util/Bitmap.antt =====
-- kernel/util/bitmap.h and bitmap.c. A `bitmap_t*` is the memory from that word on, so a read past
-- the end of the array gives whatever word stands there.
pub mod Laws
pub mod Find
use horizon_microkernel.Prelude.{
  ℕ, zero, suc, ◌+◌, ◌-◌, ◌*◌, ◌/◌, ◌%◌, ◌^◌, ◌<◌, Bool, not, Option, none, some, ◌==◌, ltb, leb,
  if◌then◌else◌, update, bit_and, bit_or,
}
use horizon_microkernel.Prelude.Words.{word_mod, complement, ffs}

abbrev pub Bitmap : Type 0
Bitmap = ℕ → ℕ

-- `BITMAP_BITS`, 8 times the size of a word
abbrev pub bitmap_bits : ℕ
bitmap_bits = 32

-- `BITMAP_LENGTH`, which rounds down
abbrev pub bitmap_length : ℕ → ℕ
bitmap_length items = items / bitmap_bits

pub bitmap_set : Bitmap → ℕ → Bitmap
bitmap_set bm index = update bm i (bit_or (bm i) (2 ^ b))
  where
    i : ℕ
    i = index / bitmap_bits

    b : ℕ
    b = index % bitmap_bits

pub bitmap_clear : Bitmap → ℕ → Bitmap
bitmap_clear bm index = update bm i (bit_and (bm i) (complement (2 ^ b)))
  where
    i : ℕ
    i = index / bitmap_bits

    b : ℕ
    b = index % bitmap_bits

unfoldable pub bitmap_test : Bitmap → ℕ → Bool
bitmap_test bm index = not (bit_and (bm (index / bitmap_bits)) (2 ^ (index % bitmap_bits)) == 0)

-- `memset` over `BITMAP_SIZE(items)` bytes, which are whole words
pub bitmap_set_all : Bitmap → ℕ → Bitmap
bitmap_set_all bm items i = if ltb i (bitmap_length items) then word_mod - 1 else bm i

pub bitmap_clear_all : Bitmap → ℕ → Bitmap
bitmap_clear_all bm items i = if ltb i (bitmap_length items) then 0 else bm i

-- The search loop from word `i` on: the word where it stops, or `none` for `return -1`. The fuel
-- is the number of words that it may look at; the loop leaves by itself after word `len`.
find_word : ℕ → Bitmap → ℕ → ℕ → Option ℕ
find_word zero bm len i = none
find_word (suc fuel) bm len i =
    let rest = find_word fuel bm len (i + 1) in
    if complement (bm i) == 0 then (if leb len i then none else rest) else some i

-- The result is `none` for -1.
pub bitmap_find_and_set : Bitmap → ℕ → Option ℕ × Bitmap
unfolding find_word
bitmap_find_and_set bm items =
    elim (find_word (bitmap_length items + 1) bm (bitmap_length items) 0) [
      | none ↦ (none, bm)
      | some i ↦
          let b = ffs 32 (complement (bm i)) - 1 in
          (some (i * bitmap_bits + b), update bm i (bit_or (bm i) (2 ^ b)))
    ]
