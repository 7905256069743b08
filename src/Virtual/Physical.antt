-- ===== src/Virtual/Physical.antt =====
-- kernel/memory/physical.c: pages of physical memory with reference counts.
pub mod Laws
use horizon_microkernel.Prelude.{
  ℕ, ◌+◌, ◌-◌, ◌%◌, Bool, true, false, not, Option, none, some, ◌==◌, ltb, if◌then◌else◌, update,
}
use horizon_microkernel.Prelude.Outcome.{Outcome, done, halted, ◌>>=◌, ◌>>◌, dassert}
use horizon_microkernel.Util.Addr.{pgsize, addr_to_index, index_to_addr}
use horizon_microkernel.Util.Bmstack.{Bmstack, bmstack_find_and_set, bmstack_test, bmstack_clear}

-- `ref_counts` is the pointer, 0 for NULL, and `counts` the array of bytes behind it.
pub record Physical : Type 0 where
  pub alloc_map : Bmstack
  pub ref_counts : ℕ
  pub counts : ℕ → ℕ

abbrev pub usable_base : ℕ
usable_base = 0x1000000

abbrev pub index_of : ℕ → ℕ
index_of block = addr_to_index usable_base pgsize block

abbrev pub set_count : Physical → ℕ → ℕ → Physical
set_count p index n = record p { counts = update p.counts index n }

-- `dassert(index != -1)`
abbrev pub index_found : Option ℕ → Outcome ℕ
index_found none = halted
index_found (some index) = done index

unfoldable pub physical_alloc : Physical → Outcome (ℕ × Physical)
physical_alloc p = do
  dassert (not (p.ref_counts == 0))
  (found, map) ← bmstack_find_and_set p.alloc_map
  index ← index_found found
  done (index_to_addr usable_base pgsize index, set_count (record p { alloc_map = map }) index 1)

unfoldable pub physical_retain : Physical → ℕ → Outcome Physical
physical_retain p block = do
  dassert (not (p.ref_counts == 0))
  let count = p.counts (index_of block)
  if count == 0
      then done p
      else (do dassert (ltb count 255); done (set_count p (index_of block) (count + 1)))

-- Whether the block was freed.
unfoldable pub physical_release : Physical → ℕ → Outcome (Bool × Physical)
physical_release p block = do
  dassert (not (p.ref_counts == 0))
  let index = index_of block
  let count = p.counts index
  if count == 0
      then done (false, p)
      else (if not (count - 1 == 0) then done (false, set_count p index (count - 1)) else (do
        used ← bmstack_test p.alloc_map index
        dassert used
        map ← bmstack_clear p.alloc_map index
        done (true, set_count (record p { alloc_map = map }) index 0)))
