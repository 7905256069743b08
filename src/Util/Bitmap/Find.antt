-- ===== src/Util/Bitmap/Find.antt =====
-- `bitmap_find_and_set`: it takes the lowest clear bit.
use native.Mathlib.Decide.{ℕ_discrete, dec_lt}
use horizon_microkernel.Prelude.{
  ℕ, zero, suc, ◌+◌, ◌-◌, ◌*◌, ◌/◌, ◌%◌, ◌^◌, ◌≤◌, ◌<◌, ◌≡◌, ◌≢◌, inl, inr, true, false, not, ◌==◌,
  Bool-cases, arith, Option, none, some,
}
use horizon_microkernel.Prelude.Words.{complement, ffs, IsFirstClear, first_clear, free_of_clear}
use horizon_microkernel.Prelude.Bits.{bit, bit_of_ones}
use horizon_microkernel.Util.Bitmap.{
  Bitmap, bitmap_bits, bitmap_length, bitmap_set, bitmap_test, find_word, bitmap_find_and_set,
}
use horizon_microkernel.Util.Bitmap.Laws.{IsWords, test-bit}

-- Where the search stops, if a word that is not full is in reach.
record Stops (bm : Bitmap) (i w : ℕ) (r : Option ℕ) (j : ℕ) : Type 0 where
  found : r ≡ some j
  from : i ≤ j
  upto : j ≤ w
  free : complement (bm j) ≢ 0
  full : (k : ℕ) → i ≤ k → k < j → complement (bm k) ≡ 0

module _ (bm : Bitmap) (len w : ℕ) where
  find_word-Stops :
      (fuel i : ℕ)
      → i ≤ w
      → w ≤ len
      → w < i + fuel
      → complement (bm w) ≢ 0
      → (j : ℕ) × Stops bm i w (find_word fuel bm len i) j
  unfolding find_word
  find_word-Stops zero i lo hi enough free = absurd (omega arith)
  find_word-Stops (suc fuel) i lo hi enough free = elim (Bool-cases (complement (bm i) == 0)) [
    | inr here ↦ (
      i,
      record {
        found = rw here;
        from = omega arith;
        upto = lo;
        free = ground arith;
        full = λ k a b. absurd (omega arith);
      },
    )
    | inl full ↦
        let here : complement (bm i) ≡ 0 = ground arith in
        let ne : i ≢ w = λ e. free (rw (← e) here) in
        let (j, s) = find_word-Stops fuel (i + 1) (omega arith) hi (omega arith) free in
        (
          j,
          record {
            found = ground (arith, s.found);
            from = omega (arith, s.from);
            upto = s.upto;
            free = s.free;
            full = λ k a b. elim (ℕ_discrete i k) [
              | yes e ↦ rw (← e) here
              | no n ↦ s.full k (omega arith) b
            ];
          },
        )
  ]

-- With every word full up to the one past the array, the loop returns -1.
find_word-full :
    (bm : Bitmap) (len fuel i : ℕ)
    → ((k : ℕ) → k ≤ len → complement (bm k) ≡ 0)
    → i ≤ len
    → len < i + fuel
    → find_word fuel bm len i ≡ none
unfolding find_word
find_word-full bm len zero i full hi enough = absurd (omega arith)
find_word-full bm len (suc fuel) i full hi enough = elim (ℕ_discrete i len) [
  | yes e ↦ ground (arith, full i)
  | no n ↦
      ground (arith, full i, find_word-full bm len fuel (i + 1) full (omega arith) (omega arith))
]

bit_clear : (bm : Bitmap) (c : ℕ) → bitmap_test bm c ≡ false → bit (bm (c / 32)) (c % 32) ≡ 0
bit_clear bm c h = ground (arith, test-bit bm c)

-- What `bitmap_find_and_set` does when it succeeds: it sets the lowest clear bit.
pub record Takes (bm : Bitmap) (items idx : ℕ) : Type 0 where
  pub result : bitmap_find_and_set bm items ≡ (some idx, bitmap_set bm idx)
  pub clear : bitmap_test bm idx ≡ false
  pub below : (j : ℕ) → j < idx → bitmap_test bm j ≡ true

pub ones_read : (w k : ℕ) → w < 2 ^ 32 → k < 32 → complement w ≡ 0 → not (bit w k == 0) ≡ true
ones_read w k h l e =
    let ones : w ≡ 2 ^ 32 - 1 = omega arith in rw ones (ground (arith, bit_of_ones 32 k l))

Takes-at :
    (bm : Bitmap) (items w j k : ℕ)
    → IsWords bm
    → Stops bm 0 w (find_word (items / 32 + 1) bm (items / 32) 0) j
    → IsFirstClear (bm j) k
    → Takes bm items (j * 32 + k)
unfolding bitmap_find_and_set bitmap_set
Takes-at bm items w j k words s f =
    let at : (j * 32 + k) / 32 ≡ j = omega (arith, f.inside) in
    let place : (j * 32 + k) % 32 ≡ k = omega (arith, f.inside) in
    let bit_place : ffs 32 (complement (bm j)) - 1 ≡ k = omega (arith, f.found) in
    record {
      result = rw (s.found, bitmap_find_and_set) (rw (bit_place, at, place));
      clear = rw (test-bit bm (j * 32 + k), at, place, f.clear);
      below = λ i l. rw (test-bit bm i) (elim (dec_lt (i / 32) j) [
        | yes before ↦
            ones_read (bm (i / 32)) (i % 32) (words (i / 32)) (omega arith)
              (s.full (i / 32) (omega arith) before)
        | no at_j ↦
            let e : i / 32 ≡ j = omega (arith, f.inside) in
            rw e (ground (arith, f.below (i % 32) (omega arith)))
      ]);
    }

-- The search stops at some word up to `w`, the first that is not full.
Takes-upto :
    (bm : Bitmap) (items w : ℕ)
    → IsWords bm
    → w ≤ bitmap_length items
    → complement (bm w) ≢ 0
    → (idx : ℕ) × (idx < (w + 1) * 32) × Takes bm items idx
Takes-upto bm items w words hi free =
    let (j, s) =
      find_word-Stops bm (items / 32) w (items / 32 + 1) 0 (omega arith) hi (omega arith) free in
    let (k, f) = first_clear (bm j) (words j) s.free in
    (j * 32 + k, omega (arith, s.upto, f.inside), Takes-at bm items w j k words s f)

-- If an index of the bitmap is clear, `bitmap_find_and_set` returns the lowest clear index, which
-- lies in the bitmap, and sets its bit.
pub bitmap_find_and_set-Takes :
    (bm : Bitmap) (items c : ℕ)
    → IsWords bm
    → c < bitmap_length items * bitmap_bits
    → bitmap_test bm c ≡ false
    → (idx : ℕ) × (idx ≤ c) × Takes bm items idx
bitmap_find_and_set-Takes bm items c words inside clear =
    let free =
      free_of_clear (bm (c / 32)) (c % 32) (words (c / 32)) (omega arith) (bit_clear bm c clear) in
    let (idx, high, t) = Takes-upto bm items (c / 32) words (omega arith) free in
    (idx, ground (arith, t.below c), t)

-- With every word of the array full and the word behind it full too, the result is -1, and
-- nothing is written.
pub bitmap_find_and_set-none :
    (bm : Bitmap) (items : ℕ)
    → ((k : ℕ) → k ≤ bitmap_length items → complement (bm k) ≡ 0)
    → bitmap_find_and_set bm items ≡ (none, bm)
unfolding bitmap_find_and_set
bitmap_find_and_set-none bm items full = rw (
  find_word-full bm (items / 32) (items / 32 + 1) 0 full (omega arith) (omega arith),
  bitmap_find_and_set,
)

-- With every index of the bitmap taken, and a word behind the array that is not full, the
-- function returns an index outside of the bitmap, that of a bit in that word, and sets the bit.
pub bitmap_find_and_set-outside :
    (bm : Bitmap) (items : ℕ)
    → IsWords bm
    → ((j : ℕ) → j < bitmap_length items * bitmap_bits → bitmap_test bm j ≡ true)
    → complement (bm (bitmap_length items)) ≢ 0
    → (idx : ℕ) × (bitmap_length items * bitmap_bits ≤ idx)
      × (idx < (bitmap_length items + 1) * bitmap_bits)
      × (bitmap_find_and_set bm items ≡ (some idx, bitmap_set bm idx))
bitmap_find_and_set-outside bm items words taken free =
    let (idx, high, t) = Takes-upto bm items (items / 32) words (omega arith) free in
    (
      idx,
      elim (dec_lt idx (items / 32 * 32)) [
        | yes l ↦ ground (arith, taken idx l, t.clear)
        | no l ↦ omega arith
      ],
      high,
      t.result,
    )
