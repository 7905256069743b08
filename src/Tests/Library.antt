-- ===== src/Tests/Library.antt =====
-- The C library on concrete memories, texts and heaps.
use horizon_microkernel.Prelude.{
  ℕ, ◌≤◌, ◌<◌, ◌+◌, ◌-◌, ◌%◌, ◌≡◌, ◌↔◌, false, some, ◌==◌, if◌then◌else◌, arith, refl, List, [],
  ◌∷◌, ◌++◌, length, All,
}
use horizon_microkernel.Libh.Memory.{Memory}
use horizon_microkernel.Libh.Text.{strcmp}
use horizon_microkernel.Libh.Text.Laws.{strcmp-zero_iff}
use horizon_microkernel.Libh.Malloc.{Heap, malloc, free}
use horizon_microkernel.Libh.Malloc.Laws.{Block, Tiles, first_fit}
use horizon_microkernel.Libh.Malloc.Grow.{Answer, malloc-Answer}
use horizon_microkernel.Libh.Malloc.Release.{total, merge, free-Tiles}
use horizon_microkernel.Libh.Format.{fmt_u, get_n, print_loop, before}
use horizon_microkernel.Libh.Format.Digits.{get_n-fmt_u}
use horizon_microkernel.Libh.Format.Width.{print_loop-ends, print_width}

abbrev numbers : Memory
numbers i = i % 256

-- "ab" at 0, and "a" at 3.
abbrev two_texts : Memory
two_texts i = if i == 0 then 97 else if i == 1 then 98 else if i == 3 then 97 else 0

abbrev ab : List ℕ
ab = 97 ∷ 98 ∷ []

abbrev just_a : List ℕ
just_a = 97 ∷ []

strcmp-zero_iff_example : (r : ℕ) × (strcmp 3 two_texts 0 3 0 ≡ some r) × (r ≡ 0 ↔ ab ≡ just_a)
strcmp-zero_iff_example =
    strcmp-zero_iff 3 two_texts 0 3 ab just_a
      (refl, omega arith, omega arith, (refl, omega arith, omega arith, refl))
      (refl, omega arith, omega arith, refl) (omega arith)

abbrev granting : ℕ → ℕ → ℕ
granting addr size = addr

-- One free block.
abbrev fresh_heap : Heap
fresh_heap = record {
  heap_base = 4096;
  heap_top = 8192;
  size = λ a. if a == 4096 then 4096 else 0;
  bytes = numbers;
}

abbrev fresh_blocks : List Block
fresh_blocks = record { bytes = 4096; used = false } ∷ []

malloc-Answer_example :
    (n : ℕ) × (n % 8 ≡ 0)
    × (20 + 8 ≤ n)
    × (n < 20 + 16)
    × ((p : ℕ) × (now : Heap) × (malloc granting 2 fresh_heap 20 ≡ some (p, now))
        × Answer granting fresh_heap fresh_blocks n p now (first_fit n fresh_blocks))
malloc-Answer_example =
    malloc-Answer granting 2 fresh_heap fresh_blocks 20 (omega arith) (omega arith)
      (refl, refl, omega arith, refl) (omega arith)

-- A used block of 32 bytes, and a free one.
abbrev split_heap : Heap
split_heap = record fresh_heap {
  size = λ a. if a == 4096 then 33 else if a == 4128 then 4064 else 0;
}

free-Tiles_example :
    Tiles
      (free split_heap (4096 + total [] + 8)).size
      4096
      ([] ++ merge 32 (record { bytes = 4064; used = false } ∷ []))
      8192
free-Tiles_example =
    free-Tiles split_heap 32 [] (record { bytes = 4064; used = false } ∷ []) (omega arith)
      (refl, refl, omega arith, (refl, refl, omega arith, refl))

get_n-fmt_u_example : get_n (fmt_u 120 (117 ∷ [])) ≡ (120, 117 ∷ [])
get_n-fmt_u_example = get_n-fmt_u 120 (117 ∷ []) (omega arith) refl

abbrev no_text : ℕ → List ℕ
no_text addr = []

abbrev same_args : ℕ → ℕ
same_args i = 42

print_loop-ends_example :
    (answer : ℕ × List ℕ) × (print_loop no_text 3 (37 ∷ 100 ∷ []) same_args 0 ≡ some answer)
print_loop-ends_example = print_loop-ends no_text same_args 3 (37 ∷ 100 ∷ []) 0 (omega arith)

print_width_example :
    (spaces : List ℕ) × (print_loop no_text 3 (37 ∷ fmt_u 5 (117 ∷ [])) same_args 0
      ≡ before (spaces ++ fmt_u 42 []) (print_loop no_text 2 [] same_args 1))
    × All (λ c. c ≡ 32) spaces
    × (length spaces ≡ 5 - length (fmt_u 42 []))
print_width_example = print_width no_text same_args 0 5 [] 0 (omega arith) (omega arith)
