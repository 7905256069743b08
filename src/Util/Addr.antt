-- ===== src/Util/Addr.antt =====
-- kernel/util/addr.h and the unsigned half of kernel/util/compare.h: page arithmetic on 32-bit
-- addresses, which wrap.
pub mod Laws
use horizon_microkernel.Prelude.{
  ℕ, ◌+◌, ◌*◌, ◌/◌, ◌%◌, Bool, not, ◌&&◌, ◌==◌, ltb, if◌then◌else◌, bit_and,
}
use horizon_microkernel.Prelude.Words.{complement, add_word, sub_word, word_mod}
use horizon_microkernel.Prelude.Outcome.{Outcome, done, ◌>>=◌, ◌>>◌, dassert}

-- `ARCH_PGSIZE`
abbrev pub pgsize : ℕ
pgsize = 4096

pub addr_align : ℕ → ℕ → Outcome ℕ
addr_align addr bound = do
  dassert (not (bound == 0) && bit_and bound (sub_word bound 1) == 0)
  done (bit_and addr (complement (sub_word bound 1)))

pub addr_align_next : ℕ → ℕ → Outcome ℕ
addr_align_next addr bound = addr_align (sub_word (add_word addr bound) 1) bound

unfoldable pub addr_to_index : ℕ → ℕ → ℕ → ℕ
addr_to_index base blocksize addr = sub_word addr base / blocksize

pub index_to_addr : ℕ → ℕ → ℕ → ℕ
index_to_addr base blocksize index = add_word base (index * blocksize % word_mod)

-- `min` and `max` of compare.h
unfoldable pub min_size : ℕ → ℕ → ℕ
min_size a b = if ltb a b then a else b

unfoldable pub max_size : ℕ → ℕ → ℕ
max_size a b = if ltb b a then a else b
