-- ===== src/Util/Bmstack/Laws.antt =====
-- The operations of bmstack.c after `bmstack_link`: the list holds exactly the words with a clear
-- bit, and the bits are taken and given back one at a time.

use horizon_microkernel.Prelude.{
  has, Distinct, ℕ, ◌+◌, ◌-◌, ◌*◌, ◌/◌, ◌%◌, ◌^◌, ◌<◌, ◌≡◌, inl, inr, Bool, true, false, ◌==◌,
  if◌then◌else◌, Bool-cases, bit_and, bit_or, arith, none, some, List, ◌∷◌,
}
use native.Mathlib.Nat.{one-le-pow}
use horizon_microkernel.Prelude.Words.{complement, ffs, IsFirstClear, first_clear, free_of_clear}
use horizon_microkernel.Prelude.Bits.{
  bit, bit-le-one, bit-or, bit-and, bit-pow, bit-complement, bit_and-pow, bit_or-lt, bit_and-lt,
  pow-lt-pow,
}
use horizon_microkernel.Prelude.Outcome.{done, halted}
use horizon_microkernel.Util.Bmstack.{
  Entries, Bmstack, is_full, set_word, bmstack_set, bmstack_test, bmstack_find_and_set,
}
use horizon_microkernel.Util.Bmstack.Chain.{Chain, Chain-frame}

-- Bit `index` of the stack's words, as a test.
abbrev pub is_taken : Bmstack → ℕ → Bool
is_taken b index = bit (b.entries (index / 32)).bitmap (index % 32) == 1

-- `xs` is the list of a stack of `len` words: each is in range and has a clear bit, none stands
-- twice, and no word with a clear bit is left out.
pub record IsLinked (len : ℕ) (xs : List ℕ) (b : Bmstack) : Type 0 where
  pub based : (b.base == 0) ≡ false
  pub words : (i : ℕ) → (b.entries i).bitmap < 2 ^ 32
  pub chain : Chain b.entries b.head xs
  pub distinct : Distinct xs
  pub inside : (i : ℕ) → has i xs ≡ true → i < len
  pub free : (i : ℕ) → has i xs ≡ true → is_full (b.entries i).bitmap ≡ false
  pub complete : (i : ℕ) → i < len → is_full (b.entries i).bitmap ≡ false → has i xs ≡ true

-- `bmstack_test` reads the bit.
pub test-is_taken :
    (b : Bmstack) (j : ℕ) → (b.base == 0) ≡ false → bmstack_test b j ≡ done (is_taken b j)
unfolding bmstack_test
test-is_taken b j h = ground (
  arith,
  bit_and-pow (j % 32) (b.entries (j / 32)).bitmap,
  bit-le-one (j % 32) (b.entries (j / 32)).bitmap,
  one-le-pow (j % 32) 2,
)

-- The words after `bmstack_set` and `bmstack_clear`.
abbrev pub with_set : Bmstack → ℕ → ℕ
with_set b index = bit_or (b.entries (index / 32)).bitmap (2 ^ (index % 32))

abbrev pub with_clear : Bmstack → ℕ → ℕ
with_clear b index = bit_and (b.entries (index / 32)).bitmap (complement (2 ^ (index % 32)))

-- `g` is the entries of `b` with one word replaced.
abbrev pub HasWord : Bmstack → ℕ → ℕ → Entries → Type 0
HasWord b i w g = (j : ℕ) → (g j).bitmap ≡ (if i == j then w else (b.entries j).bitmap)

taken-set :
    (b c : Bmstack) (index j : ℕ)
    → HasWord b (index / 32) (with_set b index) c.entries
    → is_taken c j ≡ (if index == j then true else is_taken b j)
taken-set b c index j word = ground (
  arith,
  word (j / 32),
  bit-or (j % 32) (b.entries (index / 32)).bitmap (2 ^ (index % 32)),
  bit-pow (index % 32) (j % 32),
  bit-le-one (j % 32) (b.entries (index / 32)).bitmap,
)

pub taken-clear :
    (b c : Bmstack) (index j : ℕ)
    → HasWord b (index / 32) (with_clear b index) c.entries
    → is_taken c j ≡ (if index == j then false else is_taken b j)
taken-clear b c index j word = ground (
  arith,
  word (j / 32),
  bit-and (j % 32) (b.entries (index / 32)).bitmap (complement (2 ^ (index % 32))),
  bit-complement 32 (2 ^ (index % 32)) (j % 32),
  pow-lt-pow (index % 32) 32,
  bit-pow (index % 32) (j % 32),
  bit-le-one (j % 32) (b.entries (index / 32)).bitmap,
)

-- A word with a bit cleared is not full.
pub full-with_clear : (b : Bmstack) (index : ℕ) → is_full (with_clear b index) ≡ false
full-with_clear b index =
    let w = (b.entries (index / 32)).bitmap in
    let k = index % 32 in
    let zero_bit : bit (with_clear b index) k ≡ 0 = ground (
      arith,
      bit-and k w (complement (2 ^ k)),
      bit-complement 32 (2 ^ k) k,
      bit-pow k k,
      pow-lt-pow k 32,
    ) in
    ground (
      arith,
      free_of_clear (with_clear b index) k
          (bit_and-lt w (complement (2 ^ k)) (2 ^ 32) (omega arith)) (omega arith) zero_bit,
    )

record Sets (b c : Bmstack) (index : ℕ) : Type 0 where
  call : bmstack_set b index ≡ done c
  word : HasWord b (index / 32) (with_set b index) c.entries
  links : (j : ℕ) → (c.entries j).next ≡ (b.entries j).next
  head : c.head ≡ (if is_full (with_set b index) then (b.entries (index / 32)).next else b.head)
  base : c.base ≡ b.base

-- Setting a bit in the first entry of the list.
set_head :
    (b : Bmstack) (index : ℕ)
    → (b.base == 0) ≡ false
    → b.head ≡ some (index / 32)
    → (c : Bmstack) × Sets b c index
unfolding bmstack_set
set_head b index based head = (
  (if is_full (with_set b index)
      then record b { entries = es; head = (es (index / 32)).next }
      else record b { entries = es }),
  record {
    call = ground arith;
    word = λ j. ground arith;
    links = λ j. ground arith;
    head = ground arith;
    base = ground arith;
  },
)
  where
    es : Entries
    es = set_word b.entries (index / 32) (with_set b index)

module _ (len index : ℕ) (xs : List ℕ) (b c : Bmstack) (v : IsLinked len (index / 32 ∷ xs) b)
    (s : Sets b c index) where
  set-words : (i : ℕ) → (c.entries i).bitmap < 2 ^ 32
  set-words i = ground (
    arith,
    s.word i,
    v.words i,
    bit_or-lt 32 (b.entries (index / 32)).bitmap (2 ^ (index % 32)),
    v.words (index / 32),
    pow-lt-pow (index % 32) 32,
  )

  -- The word became full and left the list.
  IsLinked-full : is_full (with_set b index) ≡ true → IsLinked len xs c
  IsLinked-full full = record {
    based = ground (arith, s.base, v.based);
    words = set-words;
    chain =
        let h : c.head ≡ (b.entries (index / 32)).next = ground (arith, s.head) in
        rw h (Chain-frame b.entries c.entries _ xs (λ a _. s.links a) v.chain.1);
    distinct = v.distinct.1;
    inside = λ i h. ground (arith, v.inside i);
    free = λ i h. ground (arith, v.free i, s.word i, v.distinct.0);
    complete = λ i l h. ground (arith, v.complete i, s.word i);
  }

  -- The word has another clear bit and stays.
  IsLinked-kept : is_full (with_set b index) ≡ false → IsLinked len (index / 32 ∷ xs) c
  IsLinked-kept more = record {
    based = ground (arith, s.base, v.based);
    words = set-words;
    chain =
        let h : c.head ≡ b.head = ground (arith, s.head) in
        rw h (Chain-frame b.entries c.entries _ (index / 32 ∷ xs) (λ a _. s.links a) v.chain);
    distinct = v.distinct;
    inside = v.inside;
    free = λ i h. ground (arith, v.free i, s.word i);
    complete = λ i l h. ground (arith, v.complete i, s.word i);
  }

-- What `bmstack_find_and_set` does when it succeeds: it takes a free index.
pub record Takes (len : ℕ) (b c : Bmstack) (idx : ℕ) : Type 0 where
  pub result : bmstack_find_and_set b ≡ done (some idx, c)
  pub inside : idx < len * 32
  pub was_free : is_taken b idx ≡ false
  pub now : (j : ℕ) → is_taken c j ≡ (if idx == j then true else is_taken b j)

module _ (len x k : ℕ) (xs : List ℕ) (b : Bmstack) (v : IsLinked len (x ∷ xs) b)
    (f : IsFirstClear (b.entries x).bitmap k) where
  -- `bmstack_find_and_set` sets the lowest clear bit of the first entry.
  find_and_set-call :
      (c : Bmstack)
      → bmstack_set b (x * 32 + k) ≡ done c
      → bmstack_find_and_set b ≡ done (some (x * 32 + k), c)
  unfolding bmstack_find_and_set
  find_and_set-call c call =
      let place : ffs 32 (complement (b.entries x).bitmap) - 1 ≡ k = omega (arith, f.found) in
      rw v.chain.0 (rw place (ground (arith, f.found, call)))

  take_at : (c : Bmstack) → Sets b c (x * 32 + k) → Takes len b c (x * 32 + k)
  take_at c s =
      let at : (x * 32 + k) / 32 ≡ x = omega (arith, f.inside) in
      let place : (x * 32 + k) % 32 ≡ k = omega (arith, f.inside) in
      record {
        result = find_and_set-call c s.call;
        inside = let l : x < len = ground (arith, v.inside x) in omega (arith, f.inside);
        was_free = rw (at, place, f.clear);
        now = λ j. taken-set b c (x * 32 + k) j s.word;
      }

  taken-IsLinked : (c : Bmstack) → Sets b c (x * 32 + k) → (ys : List ℕ) × IsLinked len ys c
  taken-IsLinked c s =
      let at : (x * 32 + k) / 32 ≡ x = omega (arith, f.inside) in
      let v' : IsLinked len ((x * 32 + k) / 32 ∷ xs) b = rw at v in
      elim (Bool-cases (is_full (with_set b (x * 32 + k)))) [
        | inl full ↦ (xs, IsLinked-full len (x * 32 + k) xs b c v' s full)
        | inr more ↦ ((x * 32 + k) / 32 ∷ xs, IsLinked-kept len (x * 32 + k) xs b c v' s more)
      ]

-- While the list of a linked stack is not empty, `bmstack_find_and_set` returns an index of the
-- stack that was free, marks it and no other, and leaves the stack linked.
pub bmstack_find_and_set-Takes :
    (len x : ℕ) (xs : List ℕ) (b : Bmstack)
    → IsLinked len (x ∷ xs) b
    → (idx : ℕ) × (c : Bmstack) × Takes len b c idx × ((ys : List ℕ) × IsLinked len ys c)
bmstack_find_and_set-Takes len x xs b v =
    let (k, f) = first_clear (b.entries x).bitmap (v.words x) (ground (arith, v.free x)) in
    let at : (x * 32 + k) / 32 ≡ x = omega (arith, f.inside) in
    let (c, s) = set_head b (x * 32 + k) v.based (rw at v.chain.0) in
    (x * 32 + k, c, take_at len x k xs b v f c s, taken-IsLinked len x k xs b v f c s)

-- With an empty list the dassert of `bmstack_find_and_set` fails.
pub bmstack_find_and_set-empty : (b : Bmstack) → b.head ≡ none → bmstack_find_and_set b ≡ halted
unfolding bmstack_find_and_set
bmstack_find_and_set-empty b h = rw h
