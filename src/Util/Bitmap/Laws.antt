-- ===== src/Util/Bitmap/Laws.antt =====
-- Tests after the operations of bitmap.c on single bits.
use native.Mathlib.Nat.{one-le-pow}
use horizon_microkernel.Prelude.{
  ℕ, ◌/◌, ◌%◌, ◌^◌, ◌<◌, ◌≡◌, true, false, not, ◌==◌, if◌then◌else◌, arith,
}
use horizon_microkernel.Prelude.Words.{complement}
use horizon_microkernel.Prelude.Bits.{
  bit, bit-le-one, bit-or, bit-and, bit-pow, bit-complement, bit_and-pow, bit_or-lt, bit_and-lt,
  pow-lt-pow,
}
use horizon_microkernel.Util.Bitmap.{Bitmap, bitmap_set, bitmap_clear, bitmap_test}

-- Every word of the memory has 32 bits.
abbrev pub IsWords : Bitmap → Type 0
IsWords bm = (i : ℕ) → bm i < 2 ^ 32

-- `bitmap_test` reads one bit.
pub test-bit : (bm : Bitmap) (j : ℕ) → bitmap_test bm j ≡ not (bit (bm (j / 32)) (j % 32) == 0)
unfolding bitmap_test
test-bit bm j = ground (
  arith,
  bit_and-pow (j % 32) (bm (j / 32)),
  bit-le-one (j % 32) (bm (j / 32)),
  one-le-pow (j % 32) 2,
)

pow-lt-word : (b : ℕ) → b < 32 → 2 ^ b < 2 ^ 32
pow-lt-word b h = pow-lt-pow b 32 h

-- `bitmap_set` sets its bit and no other.
pub test-set :
    (bm : Bitmap) (i j : ℕ)
    → bitmap_test (bitmap_set bm i) j ≡ (if i == j then true else bitmap_test bm j)
unfolding bitmap_set
test-set bm i j = ground (
  arith,
  test-bit (bitmap_set bm i) j,
  test-bit bm j,
  bit-or (j % 32) (bm (i / 32)) (2 ^ (i % 32)),
  bit-pow (i % 32) (j % 32),
  bit-le-one (j % 32) (bm (i / 32)),
)

-- `bitmap_clear` clears its bit and no other.
pub test-clear :
    (bm : Bitmap) (i j : ℕ)
    → IsWords bm
    → bitmap_test (bitmap_clear bm i) j ≡ (if i == j then false else bitmap_test bm j)
unfolding bitmap_clear
test-clear bm i j h = ground (
  arith,
  test-bit (bitmap_clear bm i) j,
  test-bit bm j,
  bit-and (j % 32) (bm (i / 32)) (complement (2 ^ (i % 32))),
  bit-complement 32 (2 ^ (i % 32)) (j % 32),
  pow-lt-word (i % 32),
  bit-pow (i % 32) (j % 32),
  bit-le-one (j % 32) (bm (i / 32)),
)

pub set-IsWords : (bm : Bitmap) (i : ℕ) → IsWords bm → IsWords (bitmap_set bm i)
unfolding bitmap_set
set-IsWords bm i h j =
    ground (arith, h j, bit_or-lt 32 (bm (i / 32)) (2 ^ (i % 32)), h (i / 32), pow-lt-word (i % 32))

pub clear-IsWords : (bm : Bitmap) (i : ℕ) → IsWords bm → IsWords (bitmap_clear bm i)
unfolding bitmap_clear
clear-IsWords bm i h j =
    ground (arith, h j, bit_and-lt (bm (i / 32)) (complement (2 ^ (i % 32))) (2 ^ 32))
