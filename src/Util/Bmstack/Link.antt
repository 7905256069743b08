-- ===== src/Util/Bmstack/Link.antt =====
-- `bmstack_link`: it lists the words with a clear bit, lowest index first.
use mathlib.Core.Path.{subst}
use horizon_microkernel.Prelude.{
  has, Distinct, ℕ, zero, suc, ◌+◌, ◌^◌, ◌<◌, ◌≡◌, refl, sym, leb, ltb, ◌&&◌, not, inl, inr, false,
  ◌==◌, if◌then◌else◌, Bool-cases, arith, Option, none, some, List, [], ◌∷◌,
}
use horizon_microkernel.Util.Bitmap.{bitmap_length}
use horizon_microkernel.Util.Bmstack.{
  Entries, Bmstack, is_full, same_entry, set_next, link_after, link_from, bmstack_link,
}
use horizon_microkernel.Util.Bmstack.Chain.{Chain}
use horizon_microkernel.Util.Bmstack.Laws.{IsLinked}

-- The words from `i` on that have a clear bit.
abbrev pub free_from : Entries → ℕ → ℕ → List ℕ
free_from es zero i = []
free_from es (suc rounds) i =
    if is_full (es i).bitmap then free_from es rounds (i + 1) else i ∷ free_from es rounds (i + 1)

abbrev first : List ℕ → Option ℕ
first [] = none
first (x ∷ xs) = some x

free_from-congr :
    (es gs : Entries) (rounds i : ℕ)
    → ((j : ℕ) → (gs j).bitmap ≡ (es j).bitmap)
    → free_from gs rounds i ≡ free_from es rounds i
free_from-congr es gs zero i same = refl
free_from-congr es gs (suc rounds) i same =
    ground (arith, same i, free_from-congr es gs rounds (i + 1) same)

has-free_from :
    (es : Entries) (rounds i a : ℕ)
    → has a (free_from es rounds i)
      ≡ (if leb i a && ltb a (i + rounds) then not (is_full (es a).bitmap) else false)
has-free_from es zero i a = ground arith
has-free_from es (suc rounds) i a = ground (arith, has-free_from es rounds (i + 1) a)

free_from-Distinct : (es : Entries) (rounds i : ℕ) → Distinct (free_from es rounds i)
free_from-Distinct es zero i = tt
free_from-Distinct es (suc rounds) i =
    ground (arith, free_from-Distinct es rounds (i + 1), has-free_from es rounds (i + 1) i)

-- The entry before the ones to come, if there is one, lies behind and ends the list so far.
abbrev Ready : Option ℕ → ℕ → Bmstack → Type 0
Ready none i b = Unit {0}
Ready (some p) i b = (p < i) × ((b.entries p).next ≡ none)

-- How the list so far leads to the entries `xs`.
abbrev Attached : Option ℕ → List ℕ → Bmstack → Bmstack → Type 0
Attached none [] b c = c.head ≡ b.head
Attached none (x ∷ xs) b c = c.head ≡ some x
Attached (some p) xs b c = (c.head ≡ b.head) × ((c.entries p).next ≡ first xs)

record Links (i : ℕ) (prev : Option ℕ) (xs : List ℕ) (b c : Bmstack) : Type 0 where
  base : c.base ≡ b.base
  words : (j : ℕ) → (c.entries j).bitmap ≡ (b.entries j).bitmap
  before :
      (j : ℕ) → j < i → same_entry (some j) prev ≡ false → (c.entries j).next ≡ (b.entries j).next
  chain : Chain c.entries (first xs) xs
  attached : Attached prev xs b c

-- A round at a full word.
skip :
    (i : ℕ) (prev : Option ℕ) (xs : List ℕ) (b c : Bmstack)
    → Links (i + 1) prev xs (record b { entries = set_next b.entries i none }) c
    → Ready prev i b
    → Links i prev xs b c
skip i none [] b c l r = record {
  base = l.base;
  words = λ j. ground (arith, l.words j);
  before = λ j h n. ground (arith, l.before j);
  chain = l.chain;
  attached = l.attached;
}
skip i none (x ∷ xs) b c l r = record {
  base = l.base;
  words = λ j. ground (arith, l.words j);
  before = λ j h n. ground (arith, l.before j);
  chain = l.chain;
  attached = l.attached;
}
skip i (some p) xs b c l r = record {
  base = l.base;
  words = λ j. ground (arith, l.words j);
  before = λ j h n. ground (arith, l.before j);
  chain = l.chain;
  attached = l.attached;
}

-- A round at a word with a clear bit.
add :
    (i : ℕ) (prev : Option ℕ) (xs : List ℕ) (b c : Bmstack)
    → Links
        (i + 1)
        (some i)
        xs
        (link_after prev i (record b { entries = set_next b.entries i none }))
        c
    → Ready prev i b
    → Links i prev (i ∷ xs) b c
unfolding link_after
add i none xs b c l r = record {
  base = l.base;
  words = λ j. ground (arith, l.words j);
  before = λ j h n. ground (arith, l.before j);
  chain = (refl, subst (λ q. Chain c.entries q xs) (sym l.attached.1) l.chain);
  attached = l.attached.0;
}
add i (some p) xs b c l r = record {
  base = l.base;
  words = λ j. ground (arith, l.words j);
  before = λ j h n. ground (arith, l.before j);
  chain = (refl, subst (λ q. Chain c.entries q xs) (sym l.attached.1) l.chain);
  attached = (l.attached.0, ground (arith, l.before p));
}

abbrev cleared : ℕ → Bmstack → Bmstack
cleared i b = record b { entries = set_next b.entries i none }

Ready-cleared :
    (i : ℕ) (prev : Option ℕ) (b : Bmstack) → Ready prev i b → Ready prev (i + 1) (cleared i b)
Ready-cleared i none b r = tt
Ready-cleared i (some p) b r = ground arith

Ready-linked :
    (i : ℕ) (prev : Option ℕ) (b : Bmstack)
    → Ready prev i b
    → Ready (some i) (i + 1) (link_after prev i (cleared i b))
unfolding link_after
Ready-linked i none b r = ground arith
Ready-linked i (some p) b r = ground arith

words-linked :
    (i : ℕ) (prev : Option ℕ) (b : Bmstack) (j : ℕ)
    → ((link_after prev i (cleared i b)).entries j).bitmap ≡ (b.entries j).bitmap
unfolding link_after
words-linked i none b j = ground arith
words-linked i (some p) b j = ground arith

link_from-Links :
    (rounds i : ℕ) (prev : Option ℕ) (b : Bmstack)
    → Ready prev i b
    → Links i prev (free_from b.entries rounds i) b (link_from rounds i prev b)
unfolding link_from
link_from-Links zero i none b r = record {
  base = refl;
  words = λ j. refl;
  before = λ j h n. refl;
  chain = refl;
  attached = refl;
}
link_from-Links zero i (some p) b r = record {
  base = refl;
  words = λ j. refl;
  before = λ j h n. refl;
  chain = refl;
  attached = (refl, r.1);
}
link_from-Links (suc rounds) i prev b r = elim (Bool-cases (is_full (b.entries i).bitmap)) [
  | inl full ↦
      let d = cleared i b in
      let same = free_from-congr b.entries d.entries rounds (i + 1) (λ j. ground arith) in
      let ih = link_from-Links rounds (i + 1) prev d (Ready-cleared i prev b r) in
      rw full (
        skip i prev (free_from b.entries rounds (i + 1)) b (link_from rounds (i + 1) prev d)
          (rw same at ih) r)
  | inr more ↦
      let d = link_after prev i (cleared i b) in
      let same = free_from-congr b.entries d.entries rounds (i + 1) (words-linked i prev b) in
      let ih = link_from-Links rounds (i + 1) (some i) d (Ready-linked i prev b r) in
      rw more (
        add i prev (free_from b.entries rounds (i + 1)) b (link_from rounds (i + 1) (some i) d)
          (rw same at ih) r)
]

Chain-of_Attached :
    (xs : List ℕ) (b c : Bmstack)
    → b.head ≡ none
    → Attached none xs b c
    → Chain c.entries (first xs) xs
    → Chain c.entries c.head xs
Chain-of_Attached [] b c fresh a chain = ground arith
Chain-of_Attached (x ∷ xs) b c fresh a chain = (a, chain.1)

-- `bmstack_link` on a fresh stack lists exactly the words with a clear bit, in rising order, and
-- keeps every bit.
pub bmstack_link-IsLinked :
    (b : Bmstack) (items : ℕ)
    → (b.base == 0) ≡ false
    → ((i : ℕ) → (b.entries i).bitmap < 2 ^ 32)
    → b.head ≡ none
    → IsLinked
        (bitmap_length items)
        (free_from b.entries (bitmap_length items) 0)
        (bmstack_link b items)
      × ((i : ℕ) → ((bmstack_link b items).entries i).bitmap ≡ (b.entries i).bitmap)
unfolding bmstack_link
bmstack_link-IsLinked b items based words fresh = (linked, l.words)
  where
    xs : List ℕ
    xs = free_from b.entries (bitmap_length items) 0

    c : Bmstack
    c = link_from (bitmap_length items) 0 none b

    l : Links 0 none xs b c
    l = link_from-Links (bitmap_length items) 0 none b tt

    linked : IsLinked (bitmap_length items) xs c
    linked = record {
      based = ground (arith, l.base);
      words = λ i. ground (arith, l.words i, words i);
      chain = Chain-of_Attached xs b c fresh l.attached l.chain;
      distinct = free_from-Distinct b.entries (bitmap_length items) 0;
      inside = λ i h. ground (arith, has-free_from b.entries (bitmap_length items) 0 i);
      free = λ i h. ground (arith, has-free_from b.entries (bitmap_length items) 0 i, l.words i);
      complete =
          λ i k h. ground (arith, has-free_from b.entries (bitmap_length items) 0 i, l.words i);
    }
