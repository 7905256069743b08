-- ===== src/Prelude/Bits.antt =====
-- The bits of a word: `|`, `&` and `~` at variables, bit by bit.
mod Step
pub use Step.{bit_or_step, bit_and_step}
use Prim.Native.Nat.{ℕ, zero, suc, ◌+◌, ◌-◌, ◌*◌, ◌/◌, ◌%◌, ◌^◌, ◌≤◌, ◌<◌, min, max}
use Prim.Native.Nat.{bit_and, bit_or, bit_and-bitwise, bit_or-bitwise}
use mathlib.Core.Path.{◌≡◌, refl, ap}
use native.Mathlib.Nat.{pow-suc, one-le-pow}
use native.Mathlib.Omega.{arith}
use horizon_microkernel.Prelude.Tests.{◌==◌, if◌then◌else◌}

-- Bit `i` of `w`, as 0 or 1.
unfoldable pub bit : ℕ → ℕ → ℕ
bit w zero = w % 2
bit w (suc i) = bit (w / 2) i

pub bit-le-one : (i w : ℕ) → bit w i ≤ 1
unfolding bit
bit-le-one zero w = omega arith
bit-le-one (suc i) w = bit-le-one i (w / 2)

pub bit-or : (i a b : ℕ) → bit (bit_or a b) i ≡ max (bit a i) (bit b i)
unfolding bit
bit-or zero a b = omega (arith, bit_or_step a b)
bit-or (suc i) a b =
    let e : bit_or a b / 2 ≡ bit_or (a / 2) (b / 2) = omega (arith, bit_or_step a b) in
    rw e (bit-or i (a / 2) (b / 2))

pub bit-and : (i a b : ℕ) → bit (bit_and a b) i ≡ min (bit a i) (bit b i)
unfolding bit
bit-and zero a b = omega (arith, bit_and_step a b)
bit-and (suc i) a b =
    let e : bit_and a b / 2 ≡ bit_and (a / 2) (b / 2) = omega (arith, bit_and_step a b) in
    rw e (bit-and i (a / 2) (b / 2))

bit-zero : (i : ℕ) → bit 0 i ≡ 0
unfolding bit
bit-zero zero = refl
bit-zero (suc i) = bit-zero i

-- `1 << i` has the one bit `i`.
pub bit-pow : (i j : ℕ) → bit (2 ^ i) j ≡ (if i == j then 1 else 0)
unfolding bit
bit-pow zero zero = refl
bit-pow zero (suc j) = ground (arith, bit-zero j)
bit-pow (suc i) zero = grind (arith, pow-suc 2 i)
bit-pow (suc i) (suc j) =
    let e : 2 ^ suc i / 2 ≡ 2 ^ i = omega (arith, pow-suc 2 i) in rw e (ground (arith, bit-pow i j))

-- `~w` in a word of `n` bits.
pub bit-complement : (n w i : ℕ) → w < 2 ^ n → i < n → bit (2 ^ n - 1 - w) i ≡ 1 - bit w i
unfolding bit
bit-complement zero w i h k = absurd (omega arith)
bit-complement (suc n) w zero h k = omega (arith, pow-suc 2 n)
bit-complement (suc n) w (suc i) h k =
    let e : (2 ^ suc n - 1 - w) / 2 ≡ 2 ^ n - 1 - w / 2 = omega (arith, pow-suc 2 n) in
    rw e (bit-complement n (w / 2) i (omega (arith, pow-suc 2 n)) (omega arith))

pub bit_and-le : (n a b : ℕ) → a ≤ n → bit_and a b ≤ b
bit_and-le zero zero b h = omega (arith, bit_and-bitwise 0 b)
bit_and-le zero (suc a) b h = absurd (omega arith)
bit_and-le (suc n) zero b h = omega (arith, bit_and-bitwise 0 b)
bit_and-le (suc n) (suc a) b h =
    omega (arith, bit_and_step (suc a) b, bit_and-le n (suc a / 2) (b / 2) (omega arith))

-- `w & (1 << i)` is bit `i` in its place.
pub bit_and-pow : (i w : ℕ) → bit_and w (2 ^ i) ≡ bit w i * 2 ^ i
unfolding bit
bit_and-pow zero w = omega (arith, bit_and_step w 1, bit_and-le (w / 2) (w / 2) 0 (omega arith))
bit_and-pow (suc i) w =
    let e : 2 ^ suc i / 2 ≡ 2 ^ i = omega (arith, pow-suc 2 i) in
    let r : bit_and (w / 2) (2 ^ suc i / 2) ≡ bit (w / 2) i * 2 ^ i =
      rw e (bit_and-pow i (w / 2)) in
    omega (
      arith,
      r,
      bit_and_step w (2 ^ suc i),
      pow-suc 2 i,
      ap (λ (t : ℕ). bit (w / 2) i * t) (pow-suc 2 i),
    )

-- A word of `n` bits is all ones exactly when each of its bits is one.
pub bit_of_ones : (n i : ℕ) → i < n → bit (2 ^ n - 1) i ≡ 1
unfolding bit
bit_of_ones zero i h = absurd (omega arith)
bit_of_ones (suc n) zero h = omega (arith, pow-suc 2 n, one-le-pow n 2)
bit_of_ones (suc n) (suc i) h =
    let e : (2 ^ suc n - 1) / 2 ≡ 2 ^ n - 1 = omega (arith, pow-suc 2 n, one-le-pow n 2) in
    rw e (bit_of_ones n i (omega arith))

pub ones_of_bits : (n w : ℕ) → w < 2 ^ n → ((i : ℕ) → i < n → bit w i ≡ 1) → w ≡ 2 ^ n - 1
unfolding bit
ones_of_bits zero w h all = omega arith
ones_of_bits (suc n) w h all = omega (
  arith,
  pow-suc 2 n,
  all 0 (omega arith),
  ones_of_bits n (w / 2) (omega (arith, pow-suc 2 n)) (λ i k. all (suc i) (omega arith)),
)

pub bit_or-lt : (n a b : ℕ) → a < 2 ^ n → b < 2 ^ n → bit_or a b < 2 ^ n
bit_or-lt zero a b h k = let e : a ≡ 0 = omega arith in rw e (omega (arith, bit_or-bitwise 0 b))
bit_or-lt (suc n) a b h k = omega (
  arith,
  pow-suc 2 n,
  bit_or_step a b,
  bit_or-lt n (a / 2) (b / 2) (omega (arith, pow-suc 2 n)) (omega (arith, pow-suc 2 n)),
)

pub bit_and-lt : (a b n : ℕ) → b < n → bit_and a b < n
bit_and-lt a b n h = omega (arith, bit_and-le a a b (omega arith))

pub pow-lt-pow : (b n : ℕ) → b < n → 2 ^ b < 2 ^ n
pow-lt-pow b zero h = absurd (omega arith)
pow-lt-pow zero (suc n) h = omega (arith, pow-suc 2 n, one-le-pow n 2)
pow-lt-pow (suc b) (suc n) h = omega (arith, pow-suc 2 n, pow-suc 2 b, pow-lt-pow b n (omega arith))

-- A mask of `n` ones keeps a word of `n` bits.
pub bit_and-ones : (n a : ℕ) → a < 2 ^ n → bit_and a (2 ^ n - 1) ≡ a
bit_and-ones zero a h = let e : a ≡ 0 = omega arith in rw e (bit_and-bitwise 0 0)
bit_and-ones (suc n) a h =
    let e : (2 ^ suc n - 1) / 2 ≡ 2 ^ n - 1 = omega (arith, pow-suc 2 n, one-le-pow n 2) in
    let rest : bit_and (a / 2) ((2 ^ suc n - 1) / 2) ≡ a / 2 =
      rw e (bit_and-ones n (a / 2) (omega (arith, pow-suc 2 n))) in
    omega (arith, rest, bit_and_step a (2 ^ suc n - 1), pow-suc 2 n, one-le-pow n 2)
