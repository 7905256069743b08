-- ===== src/Tests/Utils.antt =====
-- kernel/util on small arrays.
use horizon_microkernel.Prelude.{
  ◌+◌, ℕ, ◌-◌, ◌*◌, ◌/◌, ◌%◌, ◌^◌, ◌∙◌, ap, not, ◌≤◌, ◌<◌, ◌≡◌, refl, true, false, none, some, ◌==◌,
  if◌then◌else◌, arith, List, [], ◌∷◌,
}
use horizon_microkernel.Prelude.Bits.{bit}
use horizon_microkernel.Prelude.Outcome.{halted}
use horizon_microkernel.Util.Bitmap.{
  Bitmap, bitmap_bits, bitmap_length, bitmap_test, bitmap_set, bitmap_find_and_set,
}
use horizon_microkernel.Util.Bitmap.Laws.{IsWords, test-bit}
use horizon_microkernel.Util.Bitmap.Find.{
  ones_read, bitmap_find_and_set-Takes, bitmap_find_and_set-none, bitmap_find_and_set-outside,
}
use horizon_microkernel.Util.Bitmap.Find
use horizon_microkernel.Util.Bmstack.{Bmstack, bmstack_find_and_set, bmstack_link}
use horizon_microkernel.Util.Bmstack.Laws.{IsLinked, is_taken, bmstack_find_and_set-Takes}
use horizon_microkernel.Util.Bmstack.Laws
use horizon_microkernel.Util.Bmstack.Clear.{Frees, bmstack_clear-Frees, bmstack_clear_lost}
use horizon_microkernel.Util.Bmstack.Link.{free_from, bmstack_link-IsLinked}

abbrev seven : Bitmap
seven i = if i == 0 then 7 else 0

seven-IsWords : IsWords seven
seven-IsWords i = ground arith

-- One word that is full, and the memory behind it.
abbrev ones : ℕ → Bitmap
ones behind i = if i == 0 then 2 ^ 32 - 1 else behind

ones-IsWords : IsWords (ones 5)
ones-IsWords i = ground arith

ones-test : (j : ℕ) → j < bitmap_length 32 * bitmap_bits → bitmap_test (ones 5) j ≡ true
ones-test j h =
    let first_one : j / 32 ≡ 0 = omega (arith, h) in
    test-bit (ones 5) j
    ∙ ap (λ i. not (bit (ones 5 i) (j % 32) == 0)) first_one
    ∙ ones_read (2 ^ 32 - 1) (j % 32) (omega arith) (omega arith) refl

bitmap_find_and_set-Takes_example : (idx : ℕ) × (idx ≤ 5) × Find.Takes seven 64 idx
unfolding bitmap_test
bitmap_find_and_set-Takes_example =
    bitmap_find_and_set-Takes seven 64 5 seven-IsWords (omega arith) refl

bitmap_find_and_set-outside_example :
    (idx : ℕ) × (bitmap_length 32 * bitmap_bits ≤ idx)
    × (idx < (bitmap_length 32 + 1) * bitmap_bits)
    × (bitmap_find_and_set (ones 5) 32 ≡ (some idx, bitmap_set (ones 5) idx))
bitmap_find_and_set-outside_example =
    bitmap_find_and_set-outside (ones 5) 32 ones-IsWords ones-test (λ e. omega (arith, e))

-- A stack of one word.
abbrev stack : ℕ → Bmstack
stack w = record { base = 4096; entries = λ i. record { next = none; bitmap = w }; head = some 0 }

stack-IsLinked : IsLinked 1 (0 ∷ []) (stack 4)
stack-IsLinked = record {
  based = refl;
  words = λ i. omega arith;
  chain = (refl, refl);
  distinct = (refl, tt);
  inside = λ i h. ground (arith, h);
  free = λ i h. refl;
  complete = λ i l h. ground arith;
}

abbrev exhausted : Bmstack
exhausted = record {
  base = 4096;
  entries = λ i. record { next = none; bitmap = 2 ^ 32 - 1 };
  head = none;
}

exhausted-IsLinked : IsLinked 1 [] exhausted
exhausted-IsLinked = record {
  based = refl;
  words = λ i. omega arith;
  chain = refl;
  distinct = tt;
  inside = λ i h. ground (arith, h);
  free = λ i h. ground (arith, h);
  complete = λ i l h. ground (arith, h);
}

bmstack_find_and_set-Takes_example :
    (idx : ℕ) × (c : Bmstack) × Laws.Takes 1 (stack 4) c idx × ((ys : List ℕ) × IsLinked 1 ys c)
bmstack_find_and_set-Takes_example = bmstack_find_and_set-Takes 1 0 [] (stack 4) stack-IsLinked

bmstack_clear-Frees_example :
    (c : Bmstack) × Frees (stack 4) c 2 × ((ys : List ℕ) × IsLinked 1 ys c)
bmstack_clear-Frees_example = bmstack_clear-Frees 1 0 2 [] (stack 4) stack-IsLinked (omega arith)

bmstack_clear_lost_example :
    (c : Bmstack) × Frees exhausted c 2 × (is_taken c 2 ≡ false) × (bmstack_find_and_set c ≡ halted)
bmstack_clear_lost_example = bmstack_clear_lost 1 2 exhausted exhausted-IsLinked (omega arith)

abbrev unlinked : Bmstack
unlinked = record { base = 4096; entries = λ i. record { next = none; bitmap = 4 }; head = none }

bmstack_link-IsLinked_example :
    IsLinked
      (bitmap_length 64)
      (free_from unlinked.entries (bitmap_length 64) 0)
      (bmstack_link unlinked 64)
    × ((i : ℕ) → ((bmstack_link unlinked 64).entries i).bitmap ≡ 4)
bmstack_link-IsLinked_example = bmstack_link-IsLinked unlinked 64 refl (λ i. omega arith) refl
