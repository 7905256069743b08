-- ===== src/Virtual/Range.antt =====
-- kernel/core/memory/virtual.c: the loops over the pages of a range. The bounds of a range are words, so
-- its end wraps; a loop runs on fuel, and gives `none` when the fuel has run out. `space` gives the page
-- directory of a process that exists.
pub mod Laws
pub mod Mapped
use horizon_microkernel.Prelude.{
  ℕ, zero, suc, ◌+◌, ◌-◌, ◌*◌, ◌/◌, ◌%◌, ◌^◌, Bool, true, false, not, ◌&&◌, ◌||◌, Option, none,
  some, ◌==◌, ltb, if◌then◌else◌,
}
use horizon_microkernel.Prelude.Words.{add_word}
use horizon_microkernel.Prelude.Outcome.{Outcome, done, halted, fault, ◌>>=◌, ◌>>◌, dassert}
use horizon_microkernel.Util.Addr.{pgsize, addr_align}
use horizon_microkernel.Virtual.Physical.{physical_retain}
use horizon_microkernel.Virtual.Paging.{
  Paging, paging_map, paging_unmap, paging_is_mapped, paging_mapping_get,
}

-- A loop that goes on with what a call gave, or ends where the call ends.
infixl 5 ◌>>>◌
abbrev pub ◌>>>◌ : {A B : Type 0} → Outcome A → (A → Option (Outcome B)) → Option (Outcome B)
done a >>> f = f a
halted >>> f = some halted
fault >>> f = some fault

-- `dassert(proc)`
abbrev pub found_space : Option ℕ → Outcome ℕ
found_space none = halted
found_space (some pas) = done pas

-- The directory, NULL for the kernel's, and the flags.
unfoldable pub get_dir : (ℕ → Option ℕ) → ℕ → Outcome (ℕ × ℕ)
get_dir space pid =
    if pid == 0 then done (0, 1) else (do pas ← found_space (space pid); done (pas, 3))

unfoldable pub map_pages : ℕ → Paging → ℕ → ℕ → ℕ → ℕ → ℕ → Option (Outcome Paging)
map_pages zero s pas curr end phys flags = none
map_pages (suc fuel) s pas curr end phys flags =
    let rest = paging_map s pas curr phys flags >>> λ (mapped, now).
    map_pages fuel now pas (add_word curr pgsize) end (add_word phys pgsize) flags in
    if ltb curr end then rest else some (done s)

unfoldable pub unmap_pages : ℕ → Paging → ℕ → ℕ → ℕ → Option (Outcome Paging)
unmap_pages zero s pas curr end = none
unmap_pages (suc fuel) s pas curr end =
    let rest =
      paging_unmap s pas curr >>> λ now. unmap_pages fuel now pas (add_word curr pgsize) end in
    if ltb curr end then rest else some (done s)

abbrev pub same_bool : Bool → Bool → Bool
same_bool a b = if a then b else not b

abbrev pub int_of : Bool → ℕ
int_of b = if b then 1 else 0

-- The loop of `virtual_is_mapped` behind the first page; the result -1 is a word.
unfoldable pub same_pages : ℕ → Paging → ℕ → ℕ → ℕ → Bool → Option (Outcome (ℕ × Paging))
same_pages zero s pas curr end state = none
same_pages (suc fuel) s pas curr end state =
    let rest = paging_is_mapped s pas curr >>> λ (temp, now).
    let more = same_pages fuel now pas (add_word curr pgsize) end state in
    if same_bool temp state then more else some (done (2 ^ 32 - 1, now)) in
    if ltb curr end then rest else some (done (int_of state, s))

-- The body of the loop of `virtual_share`.
unfoldable pub share_page : Paging → ℕ → ℕ → ℕ → ℕ → ℕ → Outcome Paging
share_page s pas_dest pas_src curr target flags = do
  (here, s1) ← paging_is_mapped s pas_src curr
  (there, s2) ← (if here then paging_is_mapped s1 pas_dest target else done (true, s1))
  if not here || there then done s2 else (do
    (block, s3) ← paging_mapping_get s2 pas_src curr
    physical ← physical_retain s3.physical block
    (mapped, s4) ← paging_map (record s3 { physical = physical }) pas_dest target block flags
    done s4)

unfoldable pub share_pages : ℕ → Paging → ℕ → ℕ → ℕ → ℕ → ℕ → ℕ → Option (Outcome Paging)
unfolding share_page
share_pages zero s pas_dest pas_src curr target end flags = none
share_pages (suc fuel) s pas_dest pas_src curr target end flags =
    let rest = share_page s pas_dest pas_src curr target flags >>> λ now.
    share_pages fuel now pas_dest pas_src (add_word curr pgsize) (add_word target pgsize) end
      flags in
    if ltb curr end then rest else some (done s)

module _ (space : ℕ → Option ℕ) where
  unfoldable pub virtual_map : ℕ → Paging → ℕ → ℕ → ℕ → ℕ → Option (Outcome Paging)
  unfolding map_pages get_dir
  virtual_map fuel s pid virt phys size =
      (do
        dassert (not (size == 0))
        (pas, flags) ← get_dir space pid
        frame ← addr_align phys pgsize
        curr ← addr_align virt pgsize
        done (pas, flags, frame, curr))
      >>> λ (pas, flags, frame, curr). map_pages fuel s pas curr (add_word virt size) frame flags

  unfoldable pub virtual_unmap : ℕ → Paging → ℕ → ℕ → ℕ → Option (Outcome Paging)
  unfolding unmap_pages get_dir
  virtual_unmap fuel s pid virt size =
      (do
        dassert (not (size == 0))
        (pas, flags) ← get_dir space pid
        curr ← addr_align virt pgsize
        done (pas, curr))
      >>> λ (pas, curr). unmap_pages fuel s pas curr (add_word virt size)

  unfoldable pub virtual_is_mapped : ℕ → Paging → ℕ → ℕ → ℕ → Option (Outcome (ℕ × Paging))
  virtual_is_mapped fuel s pid virt size =
      (do
        dassert (not (size == 0))
        (pas, flags) ← get_dir space pid
        curr ← addr_align virt pgsize
        (state, now) ← paging_is_mapped s pas curr
        done (pas, curr, state, now))
      >>> λ (pas, curr, state, now).
          same_pages fuel now pas (add_word curr pgsize) (add_word virt size) state

  unfoldable pub virtual_share : ℕ → Paging → ℕ → ℕ → ℕ → ℕ → ℕ → ℕ → Option (Outcome Paging)
  unfolding share_pages
  virtual_share fuel s dest src to from size mode =
      (do
        pas_dest ← found_space (space dest)
        pas_src ← found_space (space src)
        dassert (not (size == 0))
        curr ← addr_align from pgsize
        target ← addr_align to pgsize
        done (pas_dest, pas_src, curr, target))
      >>> λ (pas_dest, pas_src, curr, target).
          share_pages fuel s pas_dest pas_src curr target (add_word from size)
            (if mode % 2 == 1 then 3 else 2)
