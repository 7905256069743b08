-- ===== src/Util/Bmstack.antt =====
-- kernel/util/bmstack.h and bmstack.c: an array of words with a list of those that have a clear
-- bit. A pointer to `base[i]` is `some i`, the null pointer is `none`.
pub mod Chain
pub mod Laws
pub mod Clear
pub mod Link
use horizon_microkernel.Prelude.{
  ℕ, zero, suc, ◌+◌, ◌-◌, ◌*◌, ◌/◌, ◌%◌, ◌^◌, ◌<◌, Bool, true, false, not, ◌&&◌, Option, none, some,
  ◌==◌, ltb, if◌then◌else◌, update, bit_and, bit_or,
}
use horizon_microkernel.Prelude.Words.{word_mod, complement, ffs}
use horizon_microkernel.Prelude.Outcome.{Outcome, done, halted, ◌>>=◌, ◌>>◌, dassert}
use horizon_microkernel.Util.Bitmap.{bitmap_bits, bitmap_length}

pub record Entry : Type 0 where
  pub next : Option ℕ
  pub bitmap : ℕ

abbrev pub Entries : Type 0
Entries = ℕ → Entry

-- `base` is the address of the first entry, 0 for NULL; `entries` is the memory from there on.
pub record Bmstack : Type 0 where
  pub base : ℕ
  pub entries : Entries
  pub head : Option ℕ

-- `~(bitmap) == 0`
abbrev pub is_full : ℕ → Bool
is_full w = complement w == 0

-- `p == q` of two entry pointers
abbrev pub same_entry : Option ℕ → Option ℕ → Bool
same_entry none none = true
same_entry none (some j) = false
same_entry (some i) none = false
same_entry (some i) (some j) = i == j

abbrev pub is_some : Option ℕ → Bool
is_some none = false
is_some (some i) = true

abbrev pub set_next : Entries → ℕ → Option ℕ → Entries
set_next es i p = update es i (record (es i) { next = p })

abbrev pub set_word : Entries → ℕ → ℕ → Entries
set_word es i w = update es i (record (es i) { bitmap = w })

pub bmstack_init : Bmstack → ℕ → Bmstack
bmstack_init bms base = record bms { base = base; head = none }

-- The links that one round of `bmstack_link` adds behind `prev`.
link_after : Option ℕ → ℕ → Bmstack → Bmstack
link_after none i bms = record bms { head = some i }
link_after (some p) i bms = record bms { entries = set_next bms.entries p (some i) }

-- The loop of `bmstack_link` from index `i` on, with the number of rounds that are left.
link_from : ℕ → ℕ → Option ℕ → Bmstack → Bmstack
unfolding link_after
link_from zero i prev bms = bms
link_from (suc rounds) i prev bms =
    let cleared : Bmstack = record bms { entries = set_next bms.entries i none } in
    let skipped = link_from rounds (i + 1) prev cleared in
    let linked = link_from rounds (i + 1) (some i) (link_after prev i cleared) in
    if is_full (bms.entries i).bitmap then skipped else linked

pub bmstack_link : Bmstack → ℕ → Bmstack
unfolding link_from
bmstack_link bms items = link_from (bitmap_length items) 0 none bms

pub bmstack_set : Bmstack → ℕ → Outcome Bmstack
bmstack_set bms index = do
  dassert (not (bms.base == 0))
  let i = index / bitmap_bits
  let w = bit_or (bms.entries i).bitmap (2 ^ (index % bitmap_bits))
  let entries = set_word bms.entries i w
  done (
      if same_entry (some i) bms.head && is_full w
      then record bms { entries = entries; head = (entries i).next }
      else record bms { entries = entries })

pub bmstack_clear : Bmstack → ℕ → Outcome Bmstack
bmstack_clear bms index = do
  dassert (not (bms.base == 0))
  let i = index / bitmap_bits
  let was_full = is_full (bms.entries i).bitmap
  let w = bit_and (bms.entries i).bitmap (complement (2 ^ (index % bitmap_bits)))
  let entries = set_word bms.entries i w
  done (
      if is_some bms.head && was_full
      then record bms { entries = set_next entries i bms.head; head = some i }
      else record bms { entries = entries })

unfoldable pub bmstack_test : Bmstack → ℕ → Outcome Bool
bmstack_test bms index = do
  dassert (not (bms.base == 0))
  let w = (bms.entries (index / bitmap_bits)).bitmap
  done (not (bit_and w (2 ^ (index % bitmap_bits)) == 0))

-- `memset` over `BMSTACK_SIZE(items)` bytes, which are whole entries, so the links go too. With
-- ones they become a pointer to no entry, and nothing follows it before `bmstack_link` resets it.
fill : Bmstack → ℕ → Entry → Bmstack
fill bms items e = record bms {
  entries = λ i. if ltb i (bitmap_length items) then e else bms.entries i;
}

pub bmstack_set_all : Bmstack → ℕ → Outcome Bmstack
unfolding fill
bmstack_set_all bms items = do
  dassert (not (bms.base == 0))
  done (fill bms items (record { next = some word_mod; bitmap = word_mod - 1 }))

pub bmstack_clear_all : Bmstack → ℕ → Outcome Bmstack
unfolding fill
bmstack_clear_all bms items = do
  dassert (not (bms.base == 0))
  done (fill bms items (record { next = none; bitmap = 0 }))

-- The index of the entry that `head` points to. The dassert is the one on `bms->head`.
head_entry : Option ℕ → Outcome ℕ
head_entry none = halted
head_entry (some i) = done i

-- The result is `none` for -1.
pub bmstack_find_and_set : Bmstack → Outcome (Option ℕ × Bmstack)
unfolding head_entry bmstack_set
bmstack_find_and_set bms = do
  i ← head_entry bms.head
  let found = ffs 32 (complement (bms.entries i).bitmap)
  let index = i * bitmap_bits + (found - 1)
  if found == 0
      then done (none, bms)
      else (do bms' ← bmstack_set bms index; done (some index, bms'))
