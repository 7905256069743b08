-- ===== src/Util/Bmstack/Clear.antt =====
-- `bmstack_clear` on a linked stack.

use horizon_microkernel.Prelude.{
  has, ℕ, ◌*◌, ◌/◌, ◌%◌, ◌^◌, ◌<◌, ◌≡◌, refl, inl, inr, true, false, ◌==◌, ◌⊎◌, if◌then◌else◌,
  Bool-cases, arith, none, some, List, [], ◌∷◌,
}
use horizon_microkernel.Prelude.Words.{complement}
use horizon_microkernel.Prelude.Bits.{bit_and-lt}
use horizon_microkernel.Prelude.Outcome.{done, halted}
use horizon_microkernel.Util.Bmstack.{
  Bmstack, is_full, set_next, set_word, bmstack_clear, bmstack_find_and_set,
}
use horizon_microkernel.Util.Bmstack.Chain.{Chain-frame}
use horizon_microkernel.Util.Bmstack.Laws.{
  is_taken, IsLinked, HasWord, with_clear, taken-clear, full-with_clear, bmstack_find_and_set-empty,
}

-- What `bmstack_clear` does: it frees one index.
pub record Frees (b c : Bmstack) (idx : ℕ) : Type 0 where
  pub result : bmstack_clear b idx ≡ done c
  pub now : (j : ℕ) → is_taken c j ≡ (if idx == j then false else is_taken b j)

record Clears (b c : Bmstack) (index : ℕ) : Type 0 where
  call : bmstack_clear b index ≡ done c
  word : HasWord b (index / 32) (with_clear b index) c.entries
  base : c.base ≡ b.base

-- The entry goes to the front of the list.
record Pushes (b c : Bmstack) (index : ℕ) : Type 0 where
  clears : Clears b c index
  link : (c.entries (index / 32)).next ≡ b.head
  others : (j : ℕ) → (index / 32 == j) ≡ false → (c.entries j).next ≡ (b.entries j).next
  head : c.head ≡ some (index / 32)

-- The list stays.
record Keeps (b c : Bmstack) (index : ℕ) : Type 0 where
  clears : Clears b c index
  links : (j : ℕ) → (c.entries j).next ≡ (b.entries j).next
  head : c.head ≡ b.head

module _ (b : Bmstack) (index : ℕ) (based : (b.base == 0) ≡ false) where
  clear_full :
      (h : ℕ)
      → b.head ≡ some h
      → is_full (b.entries (index / 32)).bitmap ≡ true
      → (c : Bmstack) × Pushes b c index
  unfolding bmstack_clear
  clear_full h head full = (
    record b {
      entries = set_next (set_word b.entries (index / 32) (with_clear b index)) (index / 32) b.head;
      head = some (index / 32);
    },
    record {
      clears = record { call = ground arith; word = λ j. ground arith; base = refl };
      link = ground arith;
      others = λ j ne. ground arith;
      head = refl;
    },
  )

  clear_kept :
      (is_full (b.entries (index / 32)).bitmap ≡ false) ⊎ (b.head ≡ none)
      → (c : Bmstack) × Keeps b c index
  unfolding bmstack_clear
  clear_kept why = (
    record b { entries = set_word b.entries (index / 32) (with_clear b index) },
    record {
      clears = record { call = ground arith; word = λ j. ground arith; base = refl };
      links = λ j. ground arith;
      head = refl;
    },
  )

Frees-of_Clears : (b c : Bmstack) (index : ℕ) → Clears b c index → Frees b c index
Frees-of_Clears b c index s = record { result = s.call; now = λ j. taken-clear b c index j s.word }

module _ (len index : ℕ) (xs : List ℕ) (b c : Bmstack) (v : IsLinked len xs b)
    (inside : index / 32 < len) where
  clear-words : Clears b c index → (i : ℕ) → (c.entries i).bitmap < 2 ^ 32
  clear-words s i = ground (
    arith,
    s.word i,
    v.words i,
    bit_and-lt (b.entries (index / 32)).bitmap (complement (2 ^ (index % 32))) (2 ^ 32),
  )

  IsLinked-pushed :
      is_full (b.entries (index / 32)).bitmap ≡ true
      → Pushes b c index
      → IsLinked len (index / 32 ∷ xs) c
  IsLinked-pushed full p = record {
    based = ground (arith, p.clears.base, v.based);
    words = clear-words p.clears;
    chain = (
      p.head,
      rw p.link (Chain-frame b.entries c.entries _ xs (λ a h. p.others a (apart a h)) v.chain),
    );
    distinct = (new, v.distinct);
    inside = λ i h. ground (arith, v.inside i, inside);
    free = λ i h. ground (arith, v.free i, p.clears.word i, full-with_clear b index);
    complete = λ i l h. ground (arith, v.complete i, p.clears.word i);
  }
    where
      new : has (index / 32) xs ≡ false
      new = ground (arith, v.free (index / 32))

      apart : (a : ℕ) → has a xs ≡ true → (index / 32 == a) ≡ false
      apart a h = ground (arith, new)

  IsLinked-left :
      Keeps b c index → (is_full (b.entries (index / 32)).bitmap ≡ false) → IsLinked len xs c
  IsLinked-left p more = record {
    based = ground (arith, p.clears.base, v.based);
    words = clear-words p.clears;
    chain = rw p.head (Chain-frame b.entries c.entries _ xs (λ a _. p.links a) v.chain);
    distinct = v.distinct;
    inside = v.inside;
    free = λ i h. ground (arith, v.free i, p.clears.word i, full-with_clear b index);
    complete = λ i l h. ground (arith, v.complete i, p.clears.word i);
  }

-- While the list of a linked stack is not empty, `bmstack_clear` at an index of the stack frees
-- it and no other, and leaves the stack linked.
pub bmstack_clear-Frees :
    (len x index : ℕ) (xs : List ℕ) (b : Bmstack)
    → IsLinked len (x ∷ xs) b
    → index < len * 32
    → (c : Bmstack) × Frees b c index × ((ys : List ℕ) × IsLinked len ys c)
bmstack_clear-Frees len x index xs b v inside =
    elim (Bool-cases (is_full (b.entries (index / 32)).bitmap)) [
      | inl full ↦
          let (c, p) = clear_full b index v.based x v.chain.0 full in
          (
            c,
            Frees-of_Clears b c index p.clears,
            (index / 32 ∷ x ∷ xs, IsLinked-pushed len index (x ∷ xs) b c v (omega arith) full p),
          )
      | inr more ↦
          let (c, p) = clear_kept b index v.based (inl more) in
          (
            c,
            Frees-of_Clears b c index p.clears,
            (x ∷ xs, IsLinked-left len index (x ∷ xs) b c v (omega arith) p more),
          )
    ]

-- Once the list is empty, `bmstack_clear` frees the index but does not put its word back: the next
-- `bmstack_find_and_set` fails its dassert, although an index is free.
pub bmstack_clear_lost :
    (len index : ℕ) (b : Bmstack)
    → IsLinked len [] b
    → index < len * 32
    → (c : Bmstack) × Frees b c index
      × (is_taken c index ≡ false)
      × (bmstack_find_and_set c ≡ halted)
bmstack_clear_lost len index b v inside =
    let (c, p) = clear_kept b index v.based (inr v.chain) in
    let f = Frees-of_Clears b c index p.clears in
    (
      c,
      f,
      ground (arith, f.now index),
      bmstack_find_and_set-empty c (ground (arith, p.head, v.chain)),
    )
