-- ===== src/Virtual/Region.antt =====
-- kernel/core/memory/region.c: regions of kernel addresses, handed out one behind the other.
use horizon_microkernel.Prelude.{
  ℕ, ◌+◌, ◌%◌, ◌^◌, ◌≤◌, ◌<◌, ◌≡◌, Bool, false, not, ◌||◌, ltb, if◌then◌else◌, arith, refl,
  Bool-cases, inl, inr,
}
use horizon_microkernel.Prelude.Words.{add_word}
use horizon_microkernel.Prelude.Outcome.{Outcome, done, halted, ◌>>=◌, ◌>>◌, dassert}
use horizon_microkernel.Util.Addr.{pgsize, addr_align_next}
use horizon_microkernel.Util.Addr.Laws.{addr_align_next-ceil}

pub record Region : Type 0 where
  pub max_mapped : ℕ
  pub next_free : ℕ
  pub idmap_valid : Bool

-- `ekernel` is the address of the end of the kernel, a symbol of the linker.
unfoldable pub region_init : Region → ℕ → ℕ → Outcome Region
region_init r ekernel mapped = do
  next ← addr_align_next ekernel pgsize
  done (record r { max_mapped = mapped; next_free = next })

unfoldable pub region_reserve : Region → ℕ → Outcome (ℕ × Region)
region_reserve r size = do
  curr ← addr_align_next r.next_free pgsize
  dassert (not r.idmap_valid || ltb (add_word curr size) r.max_mapped)
  done (curr, record r { next_free = add_word curr size })

unfoldable pub region_idmap_invalidate : Region → Outcome Region
region_idmap_invalidate r = do
  dassert r.idmap_valid
  done (record r { next_free = r.max_mapped; idmap_valid = false })

-- A region starts at the first page from the end of the last one on and ends where the next may start; while
-- the mapped memory is in use, one that does not end below its limit halts the kernel.
pub region_reserve_lem :
    (r : Region) (size : ℕ)
    → r.next_free + 4096 + size ≤ 2 ^ 32
    → (curr : ℕ) × (r.next_free ≤ curr)
      × (curr < r.next_free + 4096)
      × (curr % 4096 ≡ 0)
      × (region_reserve r size ≡ (
          if not r.idmap_valid || ltb (curr + size) r.max_mapped
          then done (curr, record r { next_free = curr + size })
          else halted))
unfolding region_reserve
region_reserve_lem r size h =
    let (curr, k, e, m, low, high) =
      addr_align_next-ceil 12 r.next_free (omega arith) (omega (arith, h)) in
    let end : add_word curr size ≡ curr + size = omega (arith, h, high) in
    (
      curr,
      low,
      high,
      omega (arith, m),
      elim (Bool-cases (not r.idmap_valid || ltb (curr + size) r.max_mapped)) [
        | inl fits ↦ rw (e, end, fits) refl
        | inr over ↦ rw (e, end, over) refl
      ],
    )
