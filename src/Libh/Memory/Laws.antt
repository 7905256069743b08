-- ===== src/Libh/Memory/Laws.antt =====
-- What the memory holds after the functions of string.h on blocks.
use horizon_microkernel.Prelude.{
  ℕ, zero, suc, ◌+◌, ◌-◌, ◌*◌, ◌/◌, ◌%◌, ◌≤◌, ◌<◌, ◌≡◌, ◌↔◌, ◌⊎◌, refl, ◌&&◌, ◌==◌, leb, ltb,
  if◌then◌else◌, arith, update, Bool-cases, inl, inr,
}
use horizon_microkernel.Libh.Memory.{
  Memory, copy_bytes, copy_long, copy_longs, copy_down, copy_up, memcpy, memmove, memset, memcmp,
}

-- `new` is `m` with the `len` bytes from `src` on copied to `dst`.
abbrev pub IsCopy : Memory → Memory → ℕ → ℕ → ℕ → Type 0
IsCopy m new dst src len =
    (j : ℕ) → new j ≡ (if leb dst j && ltb j (dst + len) then m (src + (j - dst)) else m j)

copy_down-IsCopy :
    (len : ℕ) (m : Memory) (dst src : ℕ)
    → src < dst
    → IsCopy m (copy_down len m dst src) dst src len
unfolding copy_down
copy_down-IsCopy zero m dst src h j = ground arith
copy_down-IsCopy (suc len) m dst src h j =
    ground (arith, copy_down-IsCopy len (update m (dst + len) (m (src + len))) dst src h j)

copy_up-IsCopy :
    (len : ℕ) (m : Memory) (dst src : ℕ) → dst ≤ src → IsCopy m (copy_up len m dst src) dst src len
unfolding copy_up
copy_up-IsCopy zero m dst src h j = ground arith
copy_up-IsCopy (suc len) m dst src h j =
    ground (arith, copy_up-IsCopy len (update m dst (m src)) (dst + 1) (src + 1) (omega arith) j)

-- `memmove` copies the block as it was before the call, also if the two blocks overlap, and writes
-- nothing else.
pub memmove-IsCopy : (m : Memory) (dst src len : ℕ) → IsCopy m (memmove m dst src len) dst src len
unfolding memmove
memmove-IsCopy m dst src len j = elim (Bool-cases (ltb src dst)) [
  | inl below ↦ rw (below, memmove) (copy_down-IsCopy len m dst src (ground (arith, below)) j)
  | inr above ↦ rw (above, memmove) (copy_up-IsCopy len m dst src (ground (arith, above)) j)
]

-- Blocks that do not overlap.
abbrev pub Apart : ℕ → ℕ → ℕ → Type 0
Apart dst src len = (dst + len ≤ src) ⊎ (src + len ≤ dst)

-- The loop over bytes from index `i` on.
copy_bytes-IsCopy :
    (len i n : ℕ) (m : Memory) (dst src : ℕ)
    → Apart dst src n
    → i + len ≤ n
    → IsCopy m (copy_bytes len i m dst src) (dst + i) (src + i) len
unfolding copy_bytes
copy_bytes-IsCopy zero i n m dst src h l j = ground arith
copy_bytes-IsCopy (suc len) i n m dst src h l j = ground (
  arith,
  h,
  copy_bytes-IsCopy len (i + 1) n (update m (dst + i) (m (src + i))) dst src h (omega (arith, l)) j,
)

copy_long-IsCopy :
    (i : ℕ) (m : Memory) (dst src : ℕ)
    → IsCopy m (copy_long i m dst src) (dst + 4 * i) (src + 4 * i) 4
unfolding copy_long
copy_long-IsCopy i m dst src j = ground arith

-- The loop over words from index `i` on.
copy_longs-IsCopy :
    (len i n : ℕ) (m : Memory) (dst src : ℕ)
    → Apart dst src n
    → 4 * (i + len) ≤ n
    → IsCopy m (copy_longs len i m dst src) (dst + 4 * i) (src + 4 * i) (4 * len)
unfolding copy_longs
copy_longs-IsCopy zero i n m dst src h l j = ground arith
copy_longs-IsCopy (suc len) i n m dst src h l j = ground (
  arith,
  h,
  copy_longs-IsCopy len (i + 1) n (copy_long i m dst src) dst src h (omega (arith, l)) j,
  copy_long-IsCopy i m dst src j,
  copy_long-IsCopy i m dst src (src + 4 * (i + 1) + (j - (dst + 4 * (i + 1)))),
)

-- `memcpy` copies a block to one that does not overlap it, by words or by bytes, and writes nothing
-- else.
pub memcpy-IsCopy :
    (m : Memory) (dst src len : ℕ) → Apart dst src len → IsCopy m (memcpy m dst src len) dst src len
unfolding memcpy
memcpy-IsCopy m dst src len h j = elim (Bool-cases (dst % 4 == 0 && src % 4 == 0 && len % 4 == 0)) [
  | inl words ↦
      rw (words, memcpy)
        (ground (arith, words, copy_longs-IsCopy (len / 4) 0 len m dst src h (omega arith) j))
  | inr bytes ↦
      rw (bytes, memcpy) (ground (arith, copy_bytes-IsCopy len 0 len m dst src h (omega arith) j))
]

-- `memset` fills the block with the byte and writes nothing else.
pub memset-fills :
    (len : ℕ) (m : Memory) (ptr ch j : ℕ)
    → memset m ptr ch len j ≡ (if leb ptr j && ltb j (ptr + len) then ch % 256 else m j)
unfolding memset
memset-fills zero m ptr ch j = ground arith
memset-fills (suc len) m ptr ch j =
    ground (arith, memset-fills len (update m ptr (ch % 256)) (ptr + 1) ch j)

memcmp-equal :
    (len : ℕ) (m : Memory) (a b j : ℕ)
    → ((i : ℕ) → m i < 256)
    → memcmp m a b len ≡ 0
    → j < len
    → m (a + j) ≡ m (b + j)
unfolding memcmp
memcmp-equal zero m a b j bytes e h = absurd (omega arith)
memcmp-equal (suc len) m a b zero bytes e h = ground (arith, e, bytes a, bytes b)
memcmp-equal (suc len) m a b (suc j) bytes e h =
    ground (arith, e, bytes a, bytes b, memcmp-equal len m (a + 1) (b + 1) j bytes)

equal-memcmp :
    (len : ℕ) (m : Memory) (a b : ℕ)
    → ((j : ℕ) → j < len → m (a + j) ≡ m (b + j))
    → memcmp m a b len ≡ 0
unfolding memcmp
equal-memcmp zero m a b same = refl
equal-memcmp (suc len) m a b same =
    let first : m a ≡ m b = ground (arith, same 0 (omega arith)) in
    ground (
      arith,
      first,
      equal-memcmp len m (a + 1) (b + 1) (λ j h. ground (arith, same (suc j) (omega (arith, h)))),
    )

-- On bytes, `memcmp` gives 0 exactly for two blocks that are equal byte by byte.
pub memcmp-zero_iff :
    (len : ℕ) (m : Memory) (a b : ℕ)
    → ((j : ℕ) → m j < 256)
    → (memcmp m a b len ≡ 0) ↔ ((j : ℕ) → j < len → m (a + j) ≡ m (b + j))
memcmp-zero_iff len m a b bytes =
    (λ e j h. memcmp-equal len m a b j bytes e h, λ same. equal-memcmp len m a b same)
