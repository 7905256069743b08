-- ===== src/Util/Addr/Laws.antt =====
-- Alignment to a power of two, and the round trip between indices and addresses.
use native.Mathlib.Nat.{pow-suc, one-le-pow, pow-le-pow_right, mul-div_cancel}
use horizon_microkernel.Prelude.{
  ℕ, zero, suc, ◌+◌, ◌-◌, ◌*◌, ◌/◌, ◌%◌, ◌^◌, ◌≤◌, ◌<◌, ◌≡◌, refl, bit_and, arith, ap, ◌∙◌,
}
use horizon_microkernel.Prelude.Words.{complement, add_word, sub_word}
use horizon_microkernel.Prelude.Bits.{bit_and_step, pow-lt-pow, bit_and-ones}
use horizon_microkernel.Prelude.Outcome.{done}
use horizon_microkernel.Util.Addr.{addr_align, addr_align_next, addr_to_index, index_to_addr}

-- A power of two passes the test of `addr_align`.
pow_test : (k : ℕ) → bit_and (2 ^ k) (2 ^ k - 1) ≡ 0
pow_test zero = refl
pow_test (suc k) =
    let half : 2 ^ suc k / 2 ≡ 2 ^ k = omega (arith, pow-suc 2 k) in
    let low : (2 ^ suc k - 1) / 2 ≡ 2 ^ k - 1 = omega (arith, pow-suc 2 k, one-le-pow k 2) in
    let rest : bit_and (2 ^ suc k / 2) ((2 ^ suc k - 1) / 2) ≡ 0 = rw (half, low) (pow_test k) in
    omega (arith, rest, bit_and_step (2 ^ suc k) (2 ^ suc k - 1), pow-suc 2 k, one-le-pow k 2)

-- `r` is the multiple of `m` that `a` reaches.
pub record IsFloor (a m r : ℕ) : Type 0 where
  pub quotient : ℕ
  pub multiple : r ≡ quotient * m
  pub reached : r ≤ a
  pub near : a < r + m

-- `a & ~(2^k - 1)` in a word of `n` bits.
mask-IsFloor :
    (n k a : ℕ) → a < 2 ^ n → k ≤ n → IsFloor a (2 ^ k) (bit_and a (2 ^ n - 1 - (2 ^ k - 1)))
mask-IsFloor n zero a h l =
    let e : 2 ^ n - 1 - (2 ^ 0 - 1) ≡ 2 ^ n - 1 = omega arith in
    let whole : bit_and a (2 ^ n - 1 - (2 ^ 0 - 1)) ≡ a = rw e (bit_and-ones n a h) in
    record {
      quotient = a;
      multiple = omega (arith, whole);
      reached = omega (arith, whole);
      near = omega (arith, whole);
    }
mask-IsFloor zero (suc k) a h l = absurd (omega arith)
mask-IsFloor (suc n) (suc k) a h l =
    let mask = 2 ^ suc n - 1 - (2 ^ suc k - 1) in
    let f = mask-IsFloor n k (a / 2) (omega (arith, pow-suc 2 n)) (omega arith) in
    let le : 2 ^ k ≤ 2 ^ n = pow-le-pow_right (omega arith) (omega arith) in
    let half : mask / 2 ≡ 2 ^ n - 1 - (2 ^ k - 1) =
      omega (arith, pow-suc 2 n, pow-suc 2 k, le, one-le-pow k 2) in
    let even : mask % 2 ≡ 0 = omega (arith, pow-suc 2 n, pow-suc 2 k, le, one-le-pow k 2) in
    let step : bit_and a mask ≡ bit_and (a / 2) (2 ^ n - 1 - (2 ^ k - 1)) * 2 =
      rw (← half) (omega (arith, bit_and_step a mask, even)) in
    record {
      quotient = f.quotient;
      multiple = omega (arith, step, f.multiple, ap (λ (t : ℕ). f.quotient * t) (pow-suc 2 k));
      reached = omega (arith, step, f.reached);
      near = omega (arith, step, f.near, pow-suc 2 k);
    }

-- `addr_align` to a power of two gives the last multiple up to the address.
pub addr_align-IsFloor :
    (k a : ℕ)
    → k < 32
    → a < 2 ^ 32
    → (r : ℕ) × (addr_align a (2 ^ k) ≡ done r) × IsFloor a (2 ^ k) r
unfolding addr_align
addr_align-IsFloor k a h l =
    let one = one-le-pow k 2 (omega arith) in
    let small = pow-lt-pow k 32 h in
    let minus : sub_word (2 ^ k) 1 ≡ 2 ^ k - 1 = omega (arith, one, small) in
    (
      bit_and a (complement (2 ^ k - 1)),
      rw (minus, pow_test k) (ground (arith, one)),
      mask-IsFloor 32 k a l (omega arith),
    )

-- `addr_align` to a page.
pub addr_align-page : (a : ℕ) → a < 2 ^ 32 → addr_align a 4096 ≡ done (a / 4096 * 4096)
addr_align-page a l =
    let (r, e, f) = addr_align-IsFloor 12 a (omega arith) l in
    e ∙ ap done (omega (arith, f.multiple, f.reached, f.near))

-- `addr_align_next` gives the first multiple from the address on, if that is still a 32-bit
-- address.
pub addr_align_next-ceil :
    (k a : ℕ)
    → k < 32
    → a + 2 ^ k ≤ 2 ^ 32
    → (r q : ℕ) × (addr_align_next a (2 ^ k) ≡ done r) × (r ≡ q * 2 ^ k) × (a ≤ r) × (r < a + 2 ^ k)
unfolding addr_align_next
addr_align_next-ceil k a h l =
    let one = one-le-pow k 2 (omega arith) in
    let up : sub_word (add_word a (2 ^ k)) 1 ≡ a + 2 ^ k - 1 = ground (arith, one) in
    let (r, e, f) = addr_align-IsFloor k (a + 2 ^ k - 1) h (omega (arith, one)) in
    (
      r,
      f.quotient,
      ap (λ t. addr_align t (2 ^ k)) up ∙ e,
      f.multiple,
      omega (arith, f.near),
      omega (arith, f.reached, one),
    )

-- An index survives the way to its address and back, while the blocks fit the address space.
pub addr_to_index-index_to_addr :
    (base blocksize index : ℕ)
    → 0 < blocksize
    → base + index * blocksize < 2 ^ 32
    → addr_to_index base blocksize (index_to_addr base blocksize index) ≡ index
unfolding addr_to_index index_to_addr
addr_to_index-index_to_addr base blocksize index h l =
    let off : sub_word (add_word base (index * blocksize % 2 ^ 32)) base ≡ index * blocksize =
      omega arith in
    rw off (mul-div_cancel index h)

-- Without a wrap, a block stands at its index from the base on.
pub index_to_addr_exact :
    (base blocksize index : ℕ)
    → base + index * blocksize < 2 ^ 32
    → index_to_addr base blocksize index ≡ base + index * blocksize
unfolding index_to_addr
index_to_addr_exact base blocksize index l = omega (arith, l)
