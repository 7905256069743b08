-- ===== src/Libh/Memory.antt =====
-- lib/libh/src/string: memcpy, memmove, memset and memcmp, on a memory of bytes. An object does not
-- wrap around the end of the address space, so addresses are numbers.
pub mod Laws
use horizon_microkernel.Prelude.{
  ℕ, zero, suc, ◌+◌, ◌-◌, ◌*◌, ◌/◌, ◌%◌, Bool, true, false, ◌&&◌, ◌==◌, ltb, if◌then◌else◌, update,
}
use horizon_microkernel.Prelude.Words.{sub_word}

abbrev pub Memory : Type 0
Memory = ℕ → ℕ

-- `sizeof(long)`
abbrev pub long_size : ℕ
long_size = 4

-- The loop over bytes from index `i` on, with the rounds that are left.
unfoldable pub copy_bytes : ℕ → ℕ → Memory → ℕ → ℕ → Memory
copy_bytes zero i m dst src = m
copy_bytes (suc rounds) i m dst src =
    copy_bytes rounds (i + 1) (update m (dst + i) (m (src + i))) dst src

-- `d[i] = s[i]` of two `long` pointers: four bytes are read, then four are written.
unfoldable pub copy_long : ℕ → Memory → ℕ → ℕ → Memory
copy_long i m dst src =
    let at = long_size * i in
    let m1 = update m (dst + at) (m (src + at)) in
    let m2 = update m1 (dst + at + 1) (m (src + at + 1)) in
    let m3 = update m2 (dst + at + 2) (m (src + at + 2)) in
    update m3 (dst + at + 3) (m (src + at + 3))

unfoldable pub copy_longs : ℕ → ℕ → Memory → ℕ → ℕ → Memory
copy_longs zero i m dst src = m
copy_longs (suc rounds) i m dst src = copy_longs rounds (i + 1) (copy_long i m dst src) dst src

unfoldable pub memcpy : Memory → ℕ → ℕ → ℕ → Memory
memcpy m dst src len =
    if dst % long_size == 0 && src % long_size == 0 && len % long_size == 0
    then copy_longs (len / long_size) 0 m dst src
    else copy_bytes len 0 m dst src

-- `*--pd = *--ps` for `len` rounds, from the ends.
unfoldable pub copy_down : ℕ → Memory → ℕ → ℕ → Memory
copy_down zero m dst src = m
copy_down (suc len) m dst src = copy_down len (update m (dst + len) (m (src + len))) dst src

-- `*pd++ = *ps++` for `len` rounds.
unfoldable pub copy_up : ℕ → Memory → ℕ → ℕ → Memory
copy_up zero m dst src = m
copy_up (suc len) m dst src = copy_up len (update m dst (m src)) (dst + 1) (src + 1)

unfoldable pub memmove : Memory → ℕ → ℕ → ℕ → Memory
memmove m dst src len = if ltb src dst then copy_down len m dst src else copy_up len m dst src

-- `ch` is cut to a byte.
unfoldable pub memset : Memory → ℕ → ℕ → ℕ → Memory
memset m ptr ch zero = m
memset m ptr ch (suc len) = memset (update m ptr (ch % 256)) (ptr + 1) ch len

-- The result is an `int`, as a word.
unfoldable pub memcmp : Memory → ℕ → ℕ → ℕ → ℕ
memcmp m a b zero = 0
memcmp m a b (suc len) =
    let rest = memcmp m (a + 1) (b + 1) len in if m a == m b then rest else sub_word (m a) (m b)
