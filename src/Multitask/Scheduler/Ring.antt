-- ===== src/Multitask/Scheduler/Ring.antt =====
-- Circular lists through the control blocks, and what insertion and removal do to them.
use mathlib.Core.Bool.{false≢true}
use mathlib.Core.Path.{subst}
use horizon_microkernel.Prelude.{
  ==_iff, ◌≡◌, inl, inr, true, false, ◌==◌, if◌then◌else◌, Bool-cases, arith, List, [], ◌∷◌, ◌++◌,
  has, Distinct, erase, sym,
}
use horizon_microkernel.State.{Thread, ThreadUid}

abbrev pub Threads : Type 0
Threads = ThreadUid → Thread

-- `a` and `b` are neighbours.
abbrev pub Next : Threads → ThreadUid → ThreadUid → Type 0
Next t a b = ((t a).sched_info.next ≡ b) × ((t b).sched_info.prev ≡ a)

-- From `a` the links lead through `xs` to `b`, and back.
abbrev pub Linked : Threads → ThreadUid → List ThreadUid → ThreadUid → Type 0
Linked t a [] b = Next t a b
Linked t a (x ∷ xs) b = Next t a x × Linked t x xs b

module _ (t s : Threads) where
  pub Linked-frame :
      (a b : ThreadUid) (xs : List ThreadUid)
      → ((j : ThreadUid) → has j (a ∷ xs) ≡ true → (s j).sched_info.next ≡ (t j).sched_info.next)
      → ((j : ThreadUid) → has j (b ∷ xs) ≡ true → (s j).sched_info.prev ≡ (t j).sched_info.prev)
      → Linked t a xs b
      → Linked s a xs b
  Linked-frame a b [] same_next same_prev l = ground (arith, same_next a, same_prev b)
  Linked-frame a b (x ∷ xs) same_next same_prev (n, l) = (
    ground (arith, same_next a, same_prev x),
    Linked-frame x b xs (λ j h. same_next j (ground arith)) (λ j h. same_prev j (ground arith)) l,
  )

module _ (t : Threads) where
  pub Linked-snoc :
      (a b c : ThreadUid) (xs : List ThreadUid)
      → Linked t a xs b
      → Next t b c
      → Linked t a (xs ++ b ∷ []) c
  Linked-snoc a b c [] l n = (l, n)
  Linked-snoc a b c (x ∷ xs) (m, l) n = (m, Linked-snoc x b c xs l n)

  -- The ring from the second thread on.
  pub Linked-rotate :
      (a x : ThreadUid) (xs : List ThreadUid) → Linked t a (x ∷ xs) a → Linked t x (xs ++ a ∷ []) x
  Linked-rotate a x xs (n, l) = Linked-snoc x a x xs l n

  pub has-prev :
      (a b : ThreadUid) (xs : List ThreadUid)
      → Linked t a xs b
      → has (t b).sched_info.prev (a ∷ xs) ≡ true
  has-prev a b [] l = ground arith
  has-prev a b (x ∷ xs) (n, l) = ground (arith, has-prev x b xs l)

  pub has-prev_inside :
      (u a b : ThreadUid) (xs : List ThreadUid)
      → Linked t a xs b
      → has u xs ≡ true
      → has (t u).sched_info.prev (a ∷ xs) ≡ true
  has-prev_inside u a b [] l h = ground arith
  has-prev_inside u a b (x ∷ xs) (n, l) h = ground (arith, has-prev_inside u x b xs l)

  pub has-next :
      (u a b : ThreadUid) (xs : List ThreadUid)
      → Linked t a xs b
      → has u (a ∷ xs) ≡ true
      → has (t u).sched_info.next (b ∷ xs) ≡ true
  has-next u a b [] l h = ground arith
  has-next u a b (x ∷ xs) (n, l) h = ground (arith, has-next u x b xs l)

-- `s` is `t` with `u` linked in before `first`.
pub record Inserted (t s : Threads) (u first : ThreadUid) : Type 0 where
  pub next :
      (j : ThreadUid)
      → (s j).sched_info.next ≡ (
          if (t first).sched_info.prev == j
          then u
          else if u == j
          then first
          else (t j).sched_info.next)
  pub prev :
      (j : ThreadUid)
      → (s j).sched_info.prev ≡ (
          if first == j
          then u
          else if u == j
          then (t first).sched_info.prev
          else (t j).sched_info.prev)

pub Linked-insert :
    (t s : Threads) (u first a : ThreadUid) (xs : List ThreadUid)
    → Inserted t s u first
    → Linked t a xs first
    → Distinct (a ∷ xs)
    → has u (a ∷ xs) ≡ false
    → has first xs ≡ false
    → (u == first) ≡ false
    → Linked s a (xs ++ u ∷ []) first
Linked-insert t s u first a [] i l d new apart ne =
    ground (arith, i.next a, i.prev u, i.next u, i.prev first)
Linked-insert t s u first a (x ∷ xs) i (n, l) d new apart ne = (
  ground (arith, i.next a, i.prev x, has-prev t x first xs l),
  Linked-insert t s u first x xs i l d.1 (ground arith) (ground arith) ne,
)

-- `s` is `t` with `u` linked out.
pub record Removed (t s : Threads) (u : ThreadUid) : Type 0 where
  pub next :
      (j : ThreadUid)
      → (s j).sched_info.next
        ≡ (if (t u).sched_info.prev == j then (t u).sched_info.next else (t j).sched_info.next)
  pub prev :
      (j : ThreadUid)
      → (s j).sched_info.prev
        ≡ (if (t u).sched_info.next == j then (t u).sched_info.prev else (t j).sched_info.prev)

-- The removal where `u` follows `a`.
unlink_next :
    (t s : Threads) (u a b : ThreadUid) (xs : List ThreadUid)
    → Removed t s u
    → Linked t a (u ∷ xs) b
    → Distinct (a ∷ u ∷ xs)
    → has b (u ∷ xs) ≡ false
    → Linked s a xs b
unlink_next t s u a b [] r l d apart = ground (arith, r.next a, r.prev b)
unlink_next t s u a b (y ∷ ys) r (n, (m, l)) d apart = (
  ground (arith, r.next a, r.prev y),
  Linked-frame t s y b ys (λ j h. ground (arith, r.next j, d.0))
      (λ j h. ground (arith, r.prev j, d.1.1.0)) l,
)

pub Linked-remove :
    (t s : Threads) (u a b : ThreadUid) (xs : List ThreadUid)
    → Removed t s u
    → Linked t a xs b
    → Distinct (a ∷ xs)
    → has b xs ≡ false
    → has u xs ≡ true
    → Linked s a (erase u xs) b
unfolding erase
Linked-remove t s u a b [] r l d apart h = absurd (false≢true h)
Linked-remove t s u a b (x ∷ xs) r l d apart h = elim (Bool-cases (u == x)) [
  | inl here ↦
      let e : x ≡ u = sym ((==_iff u x).0 here) in
      rw here (
        unlink_next t s u a b xs r (subst (λ y. Linked t a (y ∷ xs) b) e l)
          (subst (λ y. Distinct (a ∷ y ∷ xs)) e d) (subst (λ y. has b (y ∷ xs) ≡ false) e apart))
  | inr there ↦
      let prev = has-prev_inside t u x b xs l.1 (ground arith) in
      let next = has-next t u x b xs l.1 (ground arith) in
      rw there (
        ground (arith, r.next a, r.prev x, d.0, prev, next),
        Linked-remove t s u x b xs r l.1 d.1 (ground arith) (ground arith),
      )
]

-- In a ring of two or more nobody is its own neighbour.
pub next-ne :
    (t : Threads) (u a b : ThreadUid) (xs : List ThreadUid)
    → Linked t a xs b
    → Distinct xs
    → has b xs ≡ false
    → has u xs ≡ true
    → ((t u).sched_info.next == u) ≡ false
next-ne t u a b [] l d apart h = absurd (false≢true h)
next-ne t u a b (x ∷ []) l d apart h = ground arith
next-ne t u a b (x ∷ y ∷ ys) (n, l) d apart h =
    ground (arith, l.0, d.0, next-ne t u x b (y ∷ ys) l d.1)

pub erase-snoc :
    (u : ThreadUid) (xs : List ThreadUid) → has u xs ≡ false → erase u (xs ++ u ∷ []) ≡ xs
unfolding erase
erase-snoc u [] h = ground arith
erase-snoc u (x ∷ xs) h = ground (arith, erase-snoc u xs)
