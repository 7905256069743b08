-- ===== src/Prelude/Words.antt =====
-- Words of 32 bits (`uintptr_t`, `size_t` and `bitmap_t` on i586) and the compiler's `ffsl`.
use Prim.Native.Nat.{ℕ, zero, suc, ◌+◌, ◌-◌, ◌/◌, ◌%◌, ◌^◌, ◌<◌}
use mathlib.Core.Path.{◌≡◌}
use mathlib.Core.Logic.{◌≢◌, inl, inr}
use native.Mathlib.Nat.{pow-suc}
use native.Mathlib.Omega.{arith}
use horizon_microkernel.Prelude.Tests.{◌==◌, if◌then◌else◌, Bool-cases}
use horizon_microkernel.Prelude.Bits.{bit, bit-le-one, bit-complement, bit_of_ones}

abbrev pub word_mod : ℕ
word_mod = 2 ^ 32

-- `~w`
abbrev pub complement : ℕ → ℕ
complement w = 2 ^ 32 - 1 - w

-- `a + b` and `a - b` of unsigned words, which wrap.
abbrev pub add_word : ℕ → ℕ → ℕ
add_word a b = (a + b) % word_mod

abbrev pub sub_word : ℕ → ℕ → ℕ
sub_word a b = (a + word_mod - b) % word_mod

-- `ffsl` of a word of `n` bits: one more than the place of its lowest one, 0 for no one.
unfoldable pub ffs : ℕ → ℕ → ℕ
ffs zero w = 0
ffs (suc n) w =
    let rest = ffs n (w / 2) in if w % 2 == 1 then 1 else (if rest == 0 then 0 else rest + 1)

-- The lowest one of a word that is not zero.
pub record IsLowest (n w k : ℕ) : Type 0 where
  pub found : ffs n w ≡ suc k
  pub inside : k < n
  pub one : bit w k ≡ 1
  pub below : (j : ℕ) → j < k → bit w j ≡ 0

pub ffs-IsLowest : (n w : ℕ) → w < 2 ^ n → w ≢ 0 → (k : ℕ) × IsLowest n w k
unfolding ffs bit
ffs-IsLowest zero w h ne = absurd (ne (omega arith))
ffs-IsLowest (suc n) w h ne = elim (Bool-cases (w % 2 == 1)) [
  | inl odd ↦ (
    0,
    record { found = rw odd; inside = omega arith; one = ground arith; below = λ j k. elim k [ ] },
  )
  | inr even ↦
      let (k, r) = ffs-IsLowest n (w / 2) (omega (arith, pow-suc 2 n)) (ground arith) in
      (
        suc k,
        record {
          found = ground (arith, r.found);
          inside = omega (arith, r.inside);
          one = r.one;
          below = elim [ zero ↦ λ _. ground arith | suc j ↦ λ l. r.below j (omega arith) ];
        },
      )
]

-- A word that is not full has its lowest clear bit where `ffsl` of its complement says.
pub record IsFirstClear (w k : ℕ) : Type 0 where
  pub found : ffs 32 (complement w) ≡ suc k
  pub inside : k < 32
  pub clear : bit w k ≡ 0
  pub below : (j : ℕ) → j < k → bit w j ≡ 1

pub first_clear : (w : ℕ) → w < 2 ^ 32 → complement w ≢ 0 → (k : ℕ) × IsFirstClear w k
first_clear w h ne =
    let (k, r) = ffs-IsLowest 32 (complement w) (omega arith) ne in
    (
      k,
      record {
        found = r.found;
        inside = r.inside;
        clear = omega (arith, r.one, bit-complement 32 w k h r.inside, bit-le-one k w);
        below = λ j l.
            omega (
              arith,
              r.below j l,
              bit-complement 32 w j h (omega (arith, r.inside)),
              bit-le-one j w,
            );
      },
    )

-- So a word with a clear bit is not full.
pub free_of_clear : (w k : ℕ) → w < 2 ^ 32 → k < 32 → bit w k ≡ 0 → complement w ≢ 0
free_of_clear w k h l b e =
    let ones : w ≡ 2 ^ 32 - 1 = omega arith in
    let one : bit w k ≡ 1 = rw ones (bit_of_ones 32 k l) in omega arith
